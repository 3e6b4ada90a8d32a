-- ===== src/Ingester/Rounds.antt =====
-- One round of the collector, from any state that it can be in.
use iicpc_distributed_benchm.Base.{
  Bool, ℕ, suc, ◌≡◌, ◌≤◌, ◌<◌, refl, sym, ap, subst, subst₂, ◌∙◌, leb, List, [], ◌∷◌, map, ◌++◌,
  append-nil, Bool-cases, inl, inr, Text, length, length-append, All, All-append, Result, u64_mod,
  arith,
}
use iicpc_distributed_benchm.Float.{Float64}
use iicpc_distributed_benchm.Telemetry.{Metric}
use iicpc_distributed_benchm.Ingest.{
  Histogram, Aggregator, ScoringParams, new_aggregator, add_latency, flush_and_reset,
}
use iicpc_distributed_benchm.Ingest.Cell.{Measurement, own, add_all}
use iicpc_distributed_benchm.Ingest.Flush.{
  Reported, DistinctWindows, find_window, AreDurations, flush_reports,
}
use iicpc_distributed_benchm.Ingester.{
  Decoded, pending_cap, latency_us, Effect, Collector, Settings, flush, commit_and_flush, receive,
  arrival, handle,
}
use iicpc_distributed_benchm.Ingester.Batches.{
  measurement, published, inserted, committed, Sums, publish-Sums, commit-Sums,
}

-- A record with 64-bit times.
abbrev pub IsTimed : Metric → Type 0
IsTimed m = m.recv_time_ns < u64_mod

latency_us-lt : (m : Metric) → IsTimed m → latency_us m < u64_mod
unfolding latency_us
latency_us-lt m h = ground arith

map-concat :
    {A B : Type 0} (g : A → B) (xs : List A) (x : A) → map g (xs ++ x ∷ []) ≡ map g xs ++ g x ∷ []
map-concat g [] x = refl
map-concat g (y ∷ ys) x = ap (◌∷◌ (g y)) (map-concat g ys x)

length-map-measurement : (ms : List Metric) → length (map measurement ms) ≡ length ms
length-map-measurement [] = refl
length-map-measurement (m ∷ ms) = ap suc (length-map-measurement ms)

durations :
    (f : Float64) (hist : Histogram) (ms : List Metric)
    → All IsTimed ms
    → AreDurations f hist (map measurement ms)
durations f hist [] h = tt
durations f hist (m ∷ ms) h = (latency_us-lt m h.0, durations f hist ms h.1)

module _ (f : Float64) (hist : Histogram) where
  add_all-concat :
      (ms : List Measurement) (a : Aggregator f hist) (m : Measurement)
      → add_all f hist a (ms ++ m ∷ [])
        ≡ add_latency f hist (add_all f hist a ms) m.contestant_id m.latency_us m.correct
  unfolding add_all
  add_all-concat [] a m = refl
  add_all-concat (x ∷ xs) a m =
      add_all-concat xs (add_latency f hist a x.contestant_id x.latency_us x.correct) m

  module _ (cfg : Settings f hist) (p : ScoringParams f) where
    -- The aggregator holds the measurements of the pending records, and nothing else.
    pub record IsCollecting (c : Collector f hist) : Type 0 where
      pub since : ℕ
      pub measured :
          c.agg
          ≡ add_all f hist (new_aggregator f hist since cfg.window p) (map measurement c.pending)
      pub timed : All IsTimed c.pending
      pub room : length c.pending < 200_000

    -- The windows of a round say of each contestant what the round inserts of it, and no two are of
    -- one contestant.
    pub record Agrees (es : List (Effect f hist)) : Type 0 where
      pub reported :
          (j : Text)
          → Reported f hist j
              (own f hist j (map measurement (inserted f hist es)))
              (find_window f hist j (published f hist es))
      pub distinct : DistinctWindows f hist (published f hist es)

    Agrees-nil : Agrees []
    unfolding find_window
    Agrees-nil = record { reported = λ j. refl; distinct = tt }

    -- A round, from the collector `c` to `c'`.
    pub record Round (c : Collector f hist) (ds : List Decoded) (es : List (Effect f hist))
        (c' : Collector f hist) : Type 0 where
      pub agrees : Agrees es
      pub collecting : IsCollecting c'
      pub records : inserted f hist es ++ c'.pending ≡ c.pending ++ map (λ d. d.rec) ds
      pub messages : committed f hist es ++ c'.to_commit ≡ c.to_commit ++ map (λ d. d.msg) ds

    -- What a collector that may be full comes to by the commit and the flush.
    pub record IsFilled (c : Collector f hist) : Type 0 where
      since : ℕ
      measured :
          c.agg
          ≡ add_all f hist (new_aggregator f hist since cfg.window p) (map measurement c.pending)
      timed : All IsTimed c.pending
      room : length c.pending ≤ 200_000

    module _ (now : ℕ) (card : Result ℕ) (c : Collector f hist) (k : IsFilled c) where
      flushed :
          (j : Text)
          → Reported f hist j
              (own f hist j (map measurement c.pending))
              (find_window f hist j (flush_and_reset f hist c.agg now cfg.window).0)
            × DistinctWindows f hist (flush_and_reset f hist c.agg now cfg.window).0
            × ((flush_and_reset f hist c.agg now cfg.window).1
                ≡ new_aggregator f hist now cfg.window p)
      flushed j = rw k.measured (
          flush_reports f hist k.since cfg.window p (map measurement c.pending) now cfg.window j
            (durations f hist c.pending k.timed)
            (omega (arith, length-map-measurement c.pending, k.room)))

      sums :
          Sums f hist
            (commit_and_flush f hist cfg now card c).0
            (flush_and_reset f hist c.agg now cfg.window).0
            c.pending
            c.to_commit
      unfolding flush
      sums = commit-Sums f hist c.to_commit (
          publish-Sums f hist cfg.top_n card (flush_and_reset f hist c.agg now cfg.window).0
            c.pending)

      -- The commit and the flush of what has been collected, with no message.
      pub commit_and_flush-Round :
          Round c []
            (commit_and_flush f hist cfg now card c).0
            (commit_and_flush f hist cfg now card c).1
      unfolding flush add_all
      commit_and_flush-Round = record {
        agrees = record {
          reported = λ j.
              subst₂
                (λ recs ws.
                  Reported f hist j (own f hist j (map measurement recs)) (find_window f hist j ws))
                (sym sums.records) (sym sums.windows) (flushed j).0;
          distinct = subst (DistinctWindows f hist) (sym sums.windows) (flushed []).1;
        };
        collecting = record {
          since = now;
          measured = (flushed []).2;
          timed = tt;
          room = omega arith;
        };
        records = ap (λ recs. recs ++ []) sums.records;
        messages = ap (λ msgs. msgs ++ []) sums.messages;
      }

    pub fill : (c : Collector f hist) → IsCollecting c → IsFilled c
    fill c k = record {
      since = k.since;
      measured = k.measured;
      timed = k.timed;
      room = omega (arith, k.room);
    }

    receive-IsFilled :
        (c : Collector f hist) (d : Decoded)
        → IsCollecting c
        → IsTimed d.rec
        → IsFilled (receive f hist c d)
    unfolding receive
    receive-IsFilled c d k timed = record {
      since = k.since;
      measured =
          ap (λ a. add_latency f hist a d.rec.contestant_id (latency_us d.rec) d.rec.is_correct)
            k.measured
          ∙ (sym (
                add_all-concat (map measurement c.pending)
                  (new_aggregator f hist k.since cfg.window p) (measurement d.rec))
              ∙ ap (add_all f hist (new_aggregator f hist k.since cfg.window p))
                  (sym (map-concat measurement c.pending d.rec)));
      timed = All-append IsTimed c.pending (d.rec ∷ []) k.timed (timed, tt);
      room = omega (arith, length-append c.pending (d.rec ∷ []), k.room);
    }

    pub arrival-Round :
        (c : Collector f hist) (d : Decoded) (closing : Bool) (now : ℕ) (card : Result ℕ)
        → IsCollecting c
        → IsTimed d.rec
        → Round c
            (d ∷ [])
            (handle f hist cfg c (arrival d closing now card)).0
            (handle f hist cfg c (arrival d closing now card)).1
    unfolding handle pending_cap receive
    arrival-Round c d closing now card k timed =
        elim (Bool-cases (leb 200_000 (length (c.pending ++ d.rec ∷ [])))) [
          | inl full ↦ rw full (
              let r =
                commit_and_flush-Round now card (receive f hist c d)
                  (receive-IsFilled c d k timed) in
              record {
                agrees = r.agrees;
                collecting = r.collecting;
                records = r.records ∙ append-nil _;
                messages = r.messages ∙ append-nil _;
              })
          | inr open_still ↦ rw open_still (
              let h = receive-IsFilled c d k timed in
              record {
                agrees = Agrees-nil;
                collecting = record {
                  since = h.since;
                  measured = h.measured;
                  timed = h.timed;
                  room = ground (arith, open_still);
                };
                records = refl;
                messages = refl;
              })
        ]
