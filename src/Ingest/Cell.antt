-- ===== src/Ingest/Cell.antt =====
-- The aggregator seen from one contestant: a cell that steps with each measurement of its own.
use iicpc_distributed_benchm.Base.{
  ℕ, ◌≡◌, refl, ap, subst, ◌∙◌, if◌then◌else◌, Bool, true, false, Bool-cases, inl, inr, List, [],
  ◌∷◌, Option, none, some, Text, text_eq, text_eq_iff, lookup, lookup_or, lookup-insert_self,
  lookup-insert_ne, lookup_or-insert_self, lookup_or-insert_ne, lookup-nil, lookup_or-nil, add64,
}
use iicpc_distributed_benchm.Float.{Float64}
use iicpc_distributed_benchm.Ingest.{
  Histogram, ScoringParams, Aggregator, new_aggregator, ensure_found, add_measurement, add_latency,
  contestant, at_least_one, lower, higher,
}

ruleset self_laws = (lookup-insert_self, lookup_or-insert_self)

ruleset other_laws = (lookup-insert_ne, lookup_or-insert_ne)

-- What the maps hold for one contestant.
pub record Cell (hist : Histogram) : Type 0 where
  pub histogram : Option hist.H
  pub count : ℕ
  pub sum : ℕ
  pub correct : ℕ
  pub lowest : ℕ
  pub highest : ℕ

-- One call of `Add`.
pub record Measurement : Type 0 where
  pub contestant_id : Text
  pub latency_us : ℕ
  pub correct : Bool

module _ (f : Float64) (hist : Histogram) where
  open hist use {H, new, record_value}

  abbrev pub view : Aggregator f hist → Text → Cell hist
  view a cid = record {
    histogram = lookup cid a.hists;
    count = lookup_or 0 cid a.cnt;
    sum = lookup_or 0 cid a.sum_us;
    correct = lookup_or 0 cid a.ok;
    lowest = lookup_or 0 cid a.min_us;
    highest = lookup_or 0 cid a.max_us;
  }

  abbrev pub histogram_or_new : Option H → H
  histogram_or_new none = new 1 60_000_000 3
  histogram_or_new (some h) = h

  -- A contestant without a histogram starts from extremes of 0.
  abbrev pub reset_unless : Option H → ℕ → ℕ
  reset_unless none n = 0
  reset_unless (some h) n = n

  abbrev pub step_cell : Cell hist → ℕ → Bool → Cell hist
  step_cell c us correct = record {
    histogram = some (record_value (histogram_or_new c.histogram) us);
    count = add64 c.count 1;
    sum = add64 c.sum us;
    correct = if correct then add64 c.correct 1 else c.correct;
    lowest = lower f hist (reset_unless c.histogram c.lowest) us;
    highest = higher f hist (reset_unless c.histogram c.highest) us;
  }

  module _ (a : Aggregator f hist) (cid : Text) (us : ℕ) where
    -- The contestant's own cell steps.
    view-add_self :
        (correct : Bool) (o : Option H)
        → lookup cid a.hists ≡ o
        → view (add_measurement f hist a cid us correct) cid ≡ step_cell (view a cid) us correct
    unfolding add_measurement
    view-add_self true none e = rw (e, ensure_found) (simp self_laws)
    view-add_self true (some h) e = rw (e, ensure_found) (simp self_laws)
    view-add_self false none e = rw (e, ensure_found) (simp self_laws)
    view-add_self false (some h) e = rw (e, ensure_found) (simp self_laws)

    -- No other cell changes.
    view-add_other :
        (j : Text) (correct : Bool) (o : Option H)
        → text_eq cid j ≡ false
        → lookup cid a.hists ≡ o
        → view (add_measurement f hist a cid us correct) j ≡ view a j
    unfolding add_measurement
    view-add_other j true none other e = rw (e, ensure_found) (simp (other, other_laws))
    view-add_other j true (some h) other e = rw (e, ensure_found) (simp (other, other_laws))
    view-add_other j false none other e = rw (e, ensure_found) (simp (other, other_laws))
    view-add_other j false (some h) other e = rw (e, ensure_found) (simp (other, other_laws))

  -- The measurements one after another.
  unfoldable pub add_all : Aggregator f hist → List Measurement → Aggregator f hist
  add_all a [] = a
  add_all a (m ∷ ms) = add_all (add_latency f hist a m.contestant_id m.latency_us m.correct) ms

  abbrev pub is_of : Text → Measurement → Bool
  is_of j m = text_eq (contestant f hist m.contestant_id) j

  -- The measurements of one contestant, with latencies of 0 counted as 1.
  abbrev pub own : Text → List Measurement → List (ℕ × Bool)
  own j [] = []
  own j (m ∷ ms) =
      if is_of j m then (at_least_one f hist m.latency_us, m.correct) ∷ own j ms else own j ms

  abbrev pub step_all : Cell hist → List (ℕ × Bool) → Cell hist
  step_all c [] = c
  step_all c ((us, correct) ∷ xs) = step_all (step_cell c us correct) xs

  -- A contestant's cell depends on the contestant's own measurements alone.
  pub view-add_all :
      (j : Text) (ms : List Measurement) (a : Aggregator f hist)
      → view (add_all a ms) j ≡ step_all (view a j) (own j ms)
  unfolding add_all add_latency
  view-add_all j [] a = refl
  view-add_all j (m ∷ ms) a = elim (Bool-cases (is_of j m)) [
    | inl mine ↦ rw mine (view-add_all j ms _ ∙ ap (λ c. step_all c (own j ms)) (here mine))
    | inr other ↦ rw other (
        view-add_all j ms _
        ∙ ap (λ c. step_all c (own j ms))
            (view-add_other a (contestant f hist m.contestant_id) (at_least_one f hist m.latency_us)
              j m.correct _ other refl))
  ]
    where
      here :
          is_of j m ≡ true
          → view
              (add_measurement f hist a
                (contestant f hist m.contestant_id)
                (at_least_one f hist m.latency_us)
                m.correct)
              j
            ≡ step_cell (view a j) (at_least_one f hist m.latency_us) m.correct
      here mine =
          subst
            (λ k.
              view
                (add_measurement f hist a (contestant f hist m.contestant_id)
                  (at_least_one f hist m.latency_us) m.correct)
                k
              ≡ step_cell (view a k) (at_least_one f hist m.latency_us) m.correct)
            ((text_eq_iff (contestant f hist m.contestant_id) j).0 mine)
            (view-add_self a (contestant f hist m.contestant_id) (at_least_one f hist m.latency_us)
              m.correct _ refl)

  abbrev pub empty_cell : Cell hist
  empty_cell = record { histogram = none; count = 0; sum = 0; correct = 0; lowest = 0; highest = 0 }

  pub view-new_aggregator :
      (now window : ℕ) (p : ScoringParams f) (j : Text)
      → view (new_aggregator f hist now window p) j ≡ empty_cell
  unfolding new_aggregator
  view-new_aggregator now window p j = simp (lookup-nil, lookup_or-nil)
