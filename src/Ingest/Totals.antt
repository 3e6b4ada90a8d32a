-- ===== src/Ingest/Totals.antt =====
-- What a contestant's cell holds after its measurements.
use iicpc_distributed_benchm.Base.{
  ℕ, suc, ◌+◌, ◌%◌, ◌≤◌, ◌<◌, ◌≡◌, ◌⊎◌, refl, sym, ap, ◌∙◌, Bool, true, false, inl, inr, List, [],
  ◌∷◌, some, All, length, u64_mod, arith,
}
use iicpc_distributed_benchm.Float.{Float64}
use iicpc_distributed_benchm.Telemetry.Stats.Extremes.{IsLowest, IsHighest, Occurs}
use iicpc_distributed_benchm.Ingest.{Histogram}
use iicpc_distributed_benchm.Ingest.Cell.{Cell, step_cell, step_all, empty_cell, histogram_or_new}

abbrev pub latencies : List (ℕ × Bool) → List ℕ
latencies [] = []
latencies ((us, correct) ∷ xs) = us ∷ latencies xs

abbrev pub total : List ℕ → ℕ
total [] = 0
total (x ∷ xs) = x + total xs

abbrev pub corrects : List (ℕ × Bool) → ℕ
corrects [] = 0
corrects ((us, true) ∷ xs) = suc (corrects xs)
corrects ((us, false) ∷ xs) = corrects xs

module _ (f : Float64) (hist : Histogram) where
  open hist use {H, record_value}

  -- What the measurements `xs` make of a cell that has seen some.
  record Extends (c : Cell hist) (xs : List (ℕ × Bool)) (d : Cell hist) : Type 0 where
    counted : d.count ≡ c.count + length xs
    correct : d.correct ≡ c.correct + corrects xs
    summed : d.sum ≡ (c.sum + total (latencies xs)) % u64_mod
    low_kept : d.lowest ≤ c.lowest
    lowest : IsLowest d.lowest (latencies xs)
    low_from : (d.lowest ≡ c.lowest) ⊎ Occurs d.lowest (latencies xs)
    high_kept : c.highest ≤ d.highest
    highest : IsHighest d.highest (latencies xs)
    high_from : (d.highest ≡ c.highest) ⊎ Occurs d.highest (latencies xs)

  -- A cell that has seen a measurement.
  record IsOpen (c : Cell hist) (h : H) : Type 0 where
    has_histogram : c.histogram ≡ some h
    positive : 0 < c.lowest
    fewer : c.correct ≤ c.count
    word : c.sum < u64_mod

  record Added (c : Cell hist) (us : ℕ) (ok : Bool) (d : Cell hist) : Type 0 where
    counted : d.count ≡ c.count + 1
    correct : d.correct ≡ c.correct + corrects ((us, ok) ∷ [])
    summed : d.sum ≡ (c.sum + us) % u64_mod
    low : (d.lowest ≤ c.lowest) × (d.lowest ≤ us) × (0 < d.lowest)
    low_from : (d.lowest ≡ c.lowest) ⊎ (d.lowest ≡ us)
    high : (c.highest ≤ d.highest) × (us ≤ d.highest)
    high_from : (d.highest ≡ c.highest) ⊎ (d.highest ≡ us)
    fewer : d.correct ≤ d.count
    word : d.sum < u64_mod

  step_cell-Added :
      (c : Cell hist) (h : H) (us : ℕ) (ok : Bool)
      → IsOpen c h
      → 0 < us
      → c.count + 1 < u64_mod
      → Added c us ok (step_cell f hist c us ok)
  step_cell-Added c h us true o pos room = rw o.has_histogram (ground arith)
  step_cell-Added c h us false o pos room = rw o.has_histogram (ground arith)

  later :
      {a b o : ℕ} (x : ℕ) (xs : List ℕ)
      → (b ≡ o) ⊎ (b ≡ x)
      → (a ≡ b) ⊎ Occurs a xs
      → (a ≡ o) ⊎ Occurs a (x ∷ xs)
  later x xs first (inr (i, e)) = inr (suc i, e)
  later x xs (inl p) (inl q) = inl (q ∙ p)
  later x xs (inr p) (inl q) = inr (0, ap some (sym (q ∙ p)))

  step_all-Extends :
      (xs : List (ℕ × Bool)) (c : Cell hist) (h : H)
      → IsOpen c h
      → All (λ us. 0 < us) (latencies xs)
      → c.count + length xs < u64_mod
      → Extends c xs (step_all f hist c xs)
  step_all-Extends [] c h o pos room = record {
    counted = omega arith;
    correct = omega arith;
    summed = omega (arith, o.word);
    low_kept = omega arith;
    lowest = tt;
    low_from = inl refl;
    high_kept = omega arith;
    highest = tt;
    high_from = inl refl;
  }
  step_all-Extends ((us, ok) ∷ xs) c h o pos room =
      let a = step_cell-Added c h us ok o pos.0 (omega arith) in
      let o' : IsOpen (step_cell f hist c us ok)
          (record_value (histogram_or_new f hist c.histogram) us) =
        record { has_histogram = refl; positive = a.low.2; fewer = a.fewer; word = a.word } in
      let e =
        step_all-Extends xs (step_cell f hist c us ok) _ o' pos.1 (omega (arith, a.counted)) in
      record {
        counted = omega (arith, e.counted, a.counted);
        correct =
            e.correct ∙ (ap (λ t. t + corrects xs) a.correct ∙ add_corrects c.correct ok us xs);
        summed = omega (arith, e.summed, a.summed);
        low_kept = omega (arith, e.low_kept, a.low);
        lowest = (omega (arith, e.low_kept, a.low), e.lowest);
        low_from = later us (latencies xs) a.low_from e.low_from;
        high_kept = omega (arith, e.high_kept, a.high);
        highest = (omega (arith, e.high_kept, a.high), e.highest);
        high_from = later us (latencies xs) a.high_from e.high_from;
      }
    where
      add_corrects :
          (n : ℕ) (ok : Bool) (us : ℕ) (xs : List (ℕ × Bool))
          → n + corrects ((us, ok) ∷ []) + corrects xs ≡ n + corrects ((us, ok) ∷ xs)
      add_corrects n true us xs = omega arith
      add_corrects n false us xs = omega arith

  -- A cell after the measurements `xs`.
  pub record Totals (xs : List (ℕ × Bool)) (c : Cell hist) : Type 0 where
    pub counted : c.count ≡ length xs
    pub correct : c.correct ≡ corrects xs
    pub summed : c.sum ≡ total (latencies xs) % u64_mod
    pub lowest : IsLowest c.lowest (latencies xs)
    pub low_occurs : Occurs c.lowest (latencies xs)
    pub highest : IsHighest c.highest (latencies xs)
    pub high_occurs : Occurs c.highest (latencies xs)

  found : {a b x : ℕ} (xs : List ℕ) → b ≡ x → (a ≡ b) ⊎ Occurs a xs → Occurs a (x ∷ xs)
  found xs same (inl e) = (0, ap some (sym (e ∙ same)))
  found xs same (inr (i, e)) = (suc i, e)

  abbrev first_cell : ℕ → Bool → Cell hist
  first_cell us ok = step_cell f hist (empty_cell f hist) us ok

  record IsFirst (us : ℕ) (ok : Bool) (c : Cell hist) : Type 0 where
    counted : c.count ≡ 1
    correct : c.correct ≡ corrects ((us, ok) ∷ [])
    summed : c.sum ≡ us
    low : c.lowest ≡ us
    high : c.highest ≡ us

  first_cell_lem : (us : ℕ) (ok : Bool) → 0 < us → us < u64_mod → IsFirst us ok (first_cell us ok)
  first_cell_lem us true pos small = ground arith
  first_cell_lem us false pos small = ground arith

  corrects_cons :
      (us : ℕ) (ok : Bool) (xs : List (ℕ × Bool))
      → corrects ((us, ok) ∷ xs) ≡ corrects ((us, ok) ∷ []) + corrects xs
  corrects_cons us true xs = omega arith
  corrects_cons us false xs = omega arith

  corrects-le : (us : ℕ) (ok : Bool) → corrects ((us, ok) ∷ []) ≤ 1
  corrects-le us true = omega arith
  corrects-le us false = omega arith

  -- From an empty cell, the measurements of one contestant (at least one, fewer than 2^64, none with
  -- latency 0) leave their number, the number of correct ones, their sum modulo 2^64, and their
  -- least and greatest latency.
  pub step_all-Totals :
      (us : ℕ) (ok : Bool) (xs : List (ℕ × Bool))
      → All (λ n. 0 < n) (latencies ((us, ok) ∷ xs))
      → suc (length xs) < u64_mod
      → us < u64_mod
      → Totals ((us, ok) ∷ xs) (step_all f hist (empty_cell f hist) ((us, ok) ∷ xs))
  step_all-Totals us ok xs pos room small =
      let a = first_cell_lem us ok pos.0 small in
      let o : IsOpen (first_cell us ok) _ = record {
        has_histogram = refl;
        positive = omega (arith, a.low, pos.0);
        fewer = omega (arith, a.counted, a.correct, corrects-le us ok);
        word = omega (arith, a.summed);
      } in
      let e = step_all-Extends xs (first_cell us ok) _ o pos.1 (omega (arith, a.counted)) in
      record {
        counted = omega (arith, e.counted, a.counted);
        correct = omega (arith, e.correct, a.correct, corrects_cons us ok xs);
        summed = e.summed ∙ ap (λ t. (t + total (latencies xs)) % u64_mod) a.summed;
        lowest = (omega (arith, e.low_kept, a.low), e.lowest);
        low_occurs = found (latencies xs) a.low e.low_from;
        highest = (omega (arith, e.high_kept, a.high), e.highest);
        high_occurs = found (latencies xs) a.high e.high_from;
      }
