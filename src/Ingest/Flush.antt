-- ===== src/Ingest/Flush.antt =====
-- What `FlushAndReset` reports of the measurements since the aggregator was made.
use iicpc_distributed_benchm.Base.{
  ℕ, ◌≤◌, ◌<◌, ◌≡◌, ◌≢◌, refl, sym, ap, subst, ◌∙◌, ◌==◌, if◌then◌else◌, Bool, Bool-cases, inl, inr,
  List, [], ◌∷◌, Option, none, some, Text, text_eq, text_eq_iff, All, All-map, length, u64_mod,
  Assoc, lookup, lookup_or, KeysDistinct, insert, insert-KeysDistinct, arith,
}
use iicpc_distributed_benchm.Float.{Float64}
use iicpc_distributed_benchm.Telemetry.Stats.Extremes.{IsLowest, IsHighest, Occurs}
use iicpc_distributed_benchm.Ingest.{
  Histogram, ScoringParams, ContestantWindow, Aggregator, new_aggregator, ensure, ensure_found,
  add_measurement, add_latency, window_of, windows_of, flush_and_reset, compute_score, window_secs,
  contestant,
}
use iicpc_distributed_benchm.Ingest.Cell.{
  Measurement, view, own, is_of, step_all, empty_cell, add_all, view-add_all, view-new_aggregator,
}
use iicpc_distributed_benchm.Ingest.Totals.{latencies, corrects, Totals, step_all-Totals}

module _ (f : Float64) (hist : Histogram) where
  -- The first window of a contestant.
  unfoldable pub find_window : Text → List (ContestantWindow f) → Option (ContestantWindow f)
  find_window j [] = none
  find_window j (w ∷ ws) = if text_eq w.contestant_id j then some w else find_window j ws

  abbrev pub DistinctWindows : List (ContestantWindow f) → Type 0
  DistinctWindows [] = Unit
  DistinctWindows (w ∷ ws) = All (λ v. w.contestant_id ≢ v.contestant_id) ws × DistinctWindows ws

  module _ (a : Aggregator f hist) where
    abbrev reported : Text → Option ℕ → Option (ContestantWindow f)
    reported j none = none
    reported j (some c) = if c == 0 then none else some (window_of f hist a j c)

    find-windows_of :
        (j : Text) (m : Assoc ℕ)
        → KeysDistinct m
        → find_window j (windows_of f hist a m) ≡ reported j (lookup j m)
    unfolding find_window windows_of window_of lookup
    find-windows_of j [] d = refl
    find-windows_of j ((k, c) ∷ m) d = elim (Bool-cases (text_eq k j)) [
      | inl same ↦ ground (arith, find-windows_of j m d.1, (text_eq_iff k j).0 same, d.0)
      | inr other ↦ ground (arith, find-windows_of j m d.1, other)
    ]

    apart :
        (k j : Text) (c : ℕ) (m : Assoc ℕ)
        → k ≢ j
        → All (λ w. k ≢ w.contestant_id) (windows_of f hist a m)
        → All (λ w. k ≢ w.contestant_id) (windows_of f hist a ((j, c) ∷ m))
    unfolding windows_of window_of
    apart k j c m ne rest = elim (Bool-cases (c == 0)) [
      | inl none_left ↦ rw none_left rest
      | inr counted ↦ rw counted (ne, rest)
    ]

    other_windows :
        (k : Text) (m : Assoc ℕ)
        → lookup k m ≡ none
        → All (λ w. k ≢ w.contestant_id) (windows_of f hist a m)
    unfolding windows_of window_of lookup
    other_windows k [] h = tt
    other_windows k ((j, c) ∷ m) h = elim (Bool-cases (text_eq j k)) [
      | inl same ↦ ground (arith, same, h)
      | inr other ↦
          apart k j c m (ground (arith, other, text_eq_iff j k))
            (other_windows k m (ground (arith, other, h)))
    ]

    windows_of-DistinctWindows :
        (m : Assoc ℕ) → KeysDistinct m → DistinctWindows (windows_of f hist a m)
    unfolding windows_of window_of
    windows_of-DistinctWindows [] d = tt
    windows_of-DistinctWindows ((k, c) ∷ m) d = elim (Bool-cases (c == 0)) [
      | inl none_left ↦ rw none_left (windows_of-DistinctWindows m d.1)
      | inr counted ↦ rw counted (other_windows k m d.0, windows_of-DistinctWindows m d.1)
    ]

    reported_lem :
        (j : Text) (o : Option ℕ) (n : ℕ)
        → lookup j a.cnt ≡ o
        → lookup_or 0 j a.cnt ≡ n
        → reported j o ≡ (if n == 0 then none else some (window_of f hist a j n))
    unfolding lookup_or window_of
    reported_lem j none n e h = ground (arith, e, h)
    reported_lem j (some c) n e h =
        ap (λ c. if c == 0 then none else some (window_of f hist a j c)) (ground (arith, e, h))

    -- The window of a contestant, by the count of its cell.
    find-flush :
        (now next : ℕ) (j : Text) (n : ℕ)
        → KeysDistinct a.cnt
        → lookup_or 0 j a.cnt ≡ n
        → find_window j (flush_and_reset f hist a now next).0
          ≡ (if n == 0 then none else some (window_of f hist a j n))
    unfolding flush_and_reset
    find-flush now next j n d h =
        find-windows_of j a.cnt d ∙ reported_lem j (lookup j a.cnt) n refl h

  ensure-KeysDistinct :
      (a : Aggregator f hist) (cid : Text) (o : Option hist.H)
      → KeysDistinct a.cnt
      → (n : ℕ) → KeysDistinct (insert cid n (ensure_found f hist a cid o).1.cnt)
  ensure-KeysDistinct a cid none d n = insert-KeysDistinct cid n a.cnt d
  ensure-KeysDistinct a cid (some h) d n = insert-KeysDistinct cid n a.cnt d

  add_latency-KeysDistinct :
      (a : Aggregator f hist) (m : Measurement)
      → KeysDistinct a.cnt
      → KeysDistinct (add_latency f hist a m.contestant_id m.latency_us m.correct).cnt
  unfolding add_latency add_measurement ensure
  add_latency-KeysDistinct a m d =
      let cid = contestant f hist m.contestant_id in
      ensure-KeysDistinct a cid (lookup cid a.hists) d _

  add_all-KeysDistinct :
      (ms : List Measurement) (a : Aggregator f hist)
      → KeysDistinct a.cnt
      → KeysDistinct (add_all f hist a ms).cnt
  unfolding add_all
  add_all-KeysDistinct [] a d = d
  add_all-KeysDistinct (m ∷ ms) a d = add_all-KeysDistinct ms _ (add_latency-KeysDistinct a m d)

  ensure_found-params :
      (a : Aggregator f hist) (cid : Text) (o : Option hist.H)
      → (ensure_found f hist a cid o).1.params ≡ a.params
  ensure_found-params a cid none = refl
  ensure_found-params a cid (some h) = refl

  add_all-params :
      (ms : List Measurement) (a : Aggregator f hist) → (add_all f hist a ms).params ≡ a.params
  unfolding add_all add_latency add_measurement ensure
  add_all-params [] a = refl
  add_all-params (m ∷ ms) a =
      let cid = contestant f hist m.contestant_id in
      add_all-params ms _ ∙ ensure_found-params a cid (lookup cid a.hists)

  own-le : (j : Text) (ms : List Measurement) → length (own f hist j ms) ≤ length ms
  own-le j [] = omega arith
  own-le j (m ∷ ms) = elim (Bool-cases (is_of f hist j m)) [
    | inl mine ↦ rw mine (omega (arith, own-le j ms))
    | inr other ↦ rw other (omega (arith, own-le j ms))
  ]

  abbrev pub AreDurations : List Measurement → Type 0
  AreDurations = All (λ m. m.latency_us < u64_mod)

  IsLatency : ℕ → Type 0
  IsLatency n = (0 < n) × (n < u64_mod)

  own-IsLatency :
      (j : Text) (ms : List Measurement)
      → AreDurations ms
      → All IsLatency (latencies (own f hist j ms))
  unfolding IsLatency
  own-IsLatency j [] d = tt
  own-IsLatency j (m ∷ ms) d = elim (Bool-cases (is_of f hist j m)) [
    | inl mine ↦ rw mine (ground (arith, d.0), own-IsLatency j ms d.1)
    | inr other ↦ rw other (own-IsLatency j ms d.1)
  ]

  -- What the window `w` of the contestant `j` says of its measurements `xs`.
  pub record Reports (j : Text) (xs : List (ℕ × Bool)) (w : ContestantWindow f) : Type 0 where
    pub id : w.contestant_id ≡ j
    pub count : w.count ≡ length xs
    pub correct : w.correct_count ≡ corrects xs
    pub lowest : IsLowest w.min_us (latencies xs)
    pub low_occurs : Occurs w.min_us (latencies xs)
    pub highest : IsHighest w.max_us (latencies xs)
    pub high_occurs : Occurs w.max_us (latencies xs)

  -- A contestant without measurements has no window.
  abbrev pub Reported : Text → List (ℕ × Bool) → Option (ContestantWindow f) → Type 0
  Reported j [] o = o ≡ none
  Reported j (x ∷ xs) o = (w : ContestantWindow f) × (o ≡ some w) × Reports j (x ∷ xs) w

  abbrev choose : Aggregator f hist → Text → ℕ → Option (ContestantWindow f)
  choose a j n = if n == 0 then none else some (window_of f hist a j n)

  window_of-Reports :
      (a : Aggregator f hist) (j : Text) (xs : List (ℕ × Bool))
      → Totals f hist xs (view f hist a j)
      → Reports j xs (window_of f hist a j (lookup_or 0 j a.cnt))
  unfolding window_of
  window_of-Reports a j xs t = record {
    id = refl;
    count = t.counted;
    correct = t.correct;
    lowest = t.lowest;
    low_occurs = t.low_occurs;
    highest = t.highest;
    high_occurs = t.high_occurs;
  }

  choose-Reported :
      (a : Aggregator f hist) (j : Text) (xs : List (ℕ × Bool))
      → All IsLatency (latencies xs)
      → length xs < u64_mod
      → view f hist a j ≡ step_all f hist (empty_cell f hist) xs
      → Reported j xs (choose a j (lookup_or 0 j a.cnt))
  unfolding IsLatency
  choose-Reported a j [] lats room e = ap (λ c. choose a j c.count) e
  choose-Reported a j ((us, ok) ∷ xs) lats room e =
      let t = subst (Totals f hist ((us, ok) ∷ xs)) (sym e) (
        step_all-Totals f hist us ok xs
          (lats.0.0, All-map IsLatency _ (latencies xs) (λ n l. l.0) lats.1) room lats.0.1) in
      (
        window_of f hist a j (lookup_or 0 j a.cnt),
        ground (arith, t.counted),
        window_of-Reports a j _ t,
      )

  module _ (now window : ℕ) (p : ScoringParams f) (ms : List Measurement) where
    abbrev pub measured : Aggregator f hist
    measured = add_all f hist (new_aggregator f hist now window p) ms

    measured-KeysDistinct : KeysDistinct measured.cnt
    unfolding new_aggregator
    measured-KeysDistinct = add_all-KeysDistinct ms (new_aggregator f hist now window p) tt

    -- After any measurements (fewer than 2^64, each of fewer than 2^64 microseconds) on a new
    -- aggregator, `FlushAndReset` returns no window for a contestant without measurements, and for
    -- any other one a window with the number of its measurements, the number of its correct ones,
    -- and its least and greatest latency, where a latency of 0 counts as 1; no two windows are of
    -- one contestant; and the aggregator is as `NewAggregatorWithParams` makes it at the time of the
    -- flush.
    pub flush_reports :
        (now' next : ℕ) (j : Text)
        → AreDurations ms
        → length ms < u64_mod
        → Reported j (own f hist j ms) (find_window j (flush_and_reset f hist measured now' next).0)
          × DistinctWindows (flush_and_reset f hist measured now' next).0
          × ((flush_and_reset f hist measured now' next).1 ≡ new_aggregator f hist now' next p)
    unfolding flush_and_reset new_aggregator
    flush_reports now' next j d room = (
      subst (Reported j (own f hist j ms))
          (sym (find-flush measured now' next j _ measured-KeysDistinct refl))
          (choose-Reported measured j (own f hist j ms) (own-IsLatency j ms d)
            (omega (arith, own-le j ms, room))
            (view-add_all f hist j ms _
              ∙ ap (λ c. step_all f hist c (own f hist j ms))
                  (view-new_aggregator f hist now window p j))),
      windows_of-DistinctWindows measured measured.cnt measured-KeysDistinct,
      ap (λ q. new_aggregator f hist now' next q)
          (add_all-params ms (new_aggregator f hist now window p)),
    )

  -- The score of a window, for a contestant with a histogram, is `ComputeScore` of the quantiles of
  -- its histogram, its ratio of correct measurements and its measurements per second.
  pub window_of-score :
      (a : Aggregator f hist) (j : Text) (c : ℕ) (h : hist.H)
      → lookup j a.hists ≡ some h
      → (window_of f hist a j c).score
        ≡ compute_score f
            (f.of_uint (hist.value_at_quantile h 50))
            (f.of_uint (hist.value_at_quantile h 90))
            (f.of_uint (hist.value_at_quantile h 99))
            (f.div (f.of_uint (lookup_or 0 j a.ok)) (f.of_uint c))
            (f.div (f.of_uint c) (window_secs f a.start a.end_time))
            a.params
  unfolding window_of compute_score
  window_of-score a j c h e = rw e refl
