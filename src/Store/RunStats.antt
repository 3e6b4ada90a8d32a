-- ===== src/Store/RunStats.antt =====
-- `QueryRunStats` of internal/store/timescale.go, over the rows of metric_records. `Sql` has the
-- aggregate functions of PostgreSQL. Latencies lie below 2^63. The order of groups is not given, so
-- `pick` tells whose group is the one that `LIMIT 1` leaves.
pub mod Inserted
use iicpc_distributed_benchm.Base.{
  ℕ, suc, Bool-cases, inl, inr, ◌/◌, ◌<◌, ◌≡◌, refl, sym, ap, ap₂, ◌∙◌, min, max, if◌then◌else◌,
  List, [], ◌∷◌, ◌++◌, map, append_assoc, append-nil, Bool, true, false, Option, none, some, Text,
  text, text_eq, text_eq_refl, All, count, length, get_elem?, Result, done, failed, arith,
}
use iicpc_distributed_benchm.Float.{Float64}
use iicpc_distributed_benchm.Telemetry.{Metric}
use iicpc_distributed_benchm.Store.{Row, row, queue_rows, insert_batch, ContestantStats, latency_ns}

pub record Sql (f : Float64) : Type 0 where
  pub percentile_cont : f.F → List ℕ → f.F
  pub avg : List f.F → f.F
  pub round_to : f.F → ℕ → f.F

-- `WHERE test_run_id = $1`
unfoldable pub of_run : Text → List Row → List Row
of_run run [] = []
of_run run (r ∷ rs) =
    let rest = of_run run rs in if text_eq r.test_run_id run then r ∷ rest else rest

-- The group of a contestant.
unfoldable pub of_contestant : Text → List Row → List Row
of_contestant cid [] = []
of_contestant cid (r ∷ rs) =
    let rest = of_contestant cid rs in if text_eq r.contestant_id cid then r ∷ rest else rest

-- `MIN` and `MAX`; a group is not empty.
abbrev pub least : List ℕ → ℕ
least [] = 0
least (n ∷ []) = n
least (n ∷ m ∷ ns) = min n (least (m ∷ ns))

abbrev pub greatest : List ℕ → ℕ
greatest [] = 0
greatest (n ∷ ns) = max n (greatest ns)

module _ (f : Float64) (sql : Sql f) where
  -- A value in nanoseconds, in microseconds with two digits.
  abbrev pub micros : f.F → f.F
  micros x = sql.round_to (f.div x (f.of_uint 1000)) 2

  -- For BIGINT the division comes before the conversion.
  abbrev pub whole_micros : ℕ → f.F
  whole_micros n = sql.round_to (f.of_uint (n / 1000)) 2

  abbrev pub quantile : ℕ → List ℕ → f.F
  quantile q latencies = micros (sql.percentile_cont (f.lit q 100) latencies)

  abbrev pub share : List Row → f.F
  share rs = sql.round_to (sql.avg (map (λ r. if r.is_correct then f.lit 1 1 else f.lit 0 1) rs)) 4

  -- The row of the query for a group.
  abbrev pub stats_of : Text → List Row → ContestantStats f
  stats_of cid rs =
      let latencies = map (λ r. r.latency_ns) rs in
      record {
        contestant_id = cid;
        window_start = least (map (λ r. r.time) rs);
        count = length rs;
        correct_count = count (λ r. r.is_correct) rs;
        correct_ratio = share rs;
        p50_us = quantile 50 latencies;
        p90_us = quantile 90 latencies;
        p99_us = quantile 99 latencies;
        avg_us = micros (sql.avg (map (λ n. f.of_uint n) latencies));
        min_us = whole_micros (least latencies);
        max_us = whole_micros (greatest latencies);
      }

  module _ (pick : Row → List Row → Text) where
    abbrev pub one_group : List Row → Result (ContestantStats f)
    one_group [] = failed (text "no rows in result set")
    one_group (r ∷ rs) = done (stats_of (pick r rs) (of_contestant (pick r rs) (r ∷ rs)))

    unfoldable pub query_run_stats : List Row → Text → Result (ContestantStats f)
    query_run_stats table run = one_group (of_run run table)

-- The table after batches, at their times, whose rows the database has taken.
abbrev pub after_inserts : List Row → List (ℕ × List Metric) → List Row
after_inserts table [] = table
after_inserts table ((now, recs) ∷ batches) =
    after_inserts (table ++ (insert_batch now (λ i. none) recs).0) batches

-- The records of batches.
abbrev pub records_of : List (ℕ × List Metric) → List Metric
records_of [] = []
records_of ((now, recs) ∷ batches) = recs ++ records_of batches

abbrev pub rows_of : List (ℕ × List Metric) → List Row
rows_of [] = []
rows_of ((now, recs) ∷ batches) = queue_rows now recs ++ rows_of batches

insert_batch-rows :
    (now : ℕ) (recs : List Metric) → (insert_batch now (λ i. none) recs).0 ≡ queue_rows now recs
unfolding insert_batch
insert_batch-rows now [] = refl
insert_batch-rows now (r ∷ rs) = refl

pub after_inserts-rows :
    (table : List Row) (batches : List (ℕ × List Metric))
    → after_inserts table batches ≡ table ++ rows_of batches
after_inserts-rows table [] = sym (append-nil table)
after_inserts-rows table ((now, recs) ∷ batches) =
    after_inserts-rows (table ++ (insert_batch now (λ i. none) recs).0) batches
    ∙ (append_assoc table (insert_batch now (λ i. none) recs).0 (rows_of batches)
        ∙ ap (λ rs. table ++ (rs ++ rows_of batches)) (insert_batch-rows now recs))

-- What holds of each record, by its row.
pub map-rows :
    {A : Type 0} (g : Row → A) (h : Metric → A)
    → ((now : ℕ) (m : Metric) → g (row now m) ≡ h m)
    → (batches : List (ℕ × List Metric)) → map g (rows_of batches) ≡ map h (records_of batches)
map-rows g h step [] = refl
map-rows g h step ((now, []) ∷ batches) = map-rows g h step batches
map-rows g h step ((now, m ∷ ms) ∷ batches) =
    ap₂ (◌∷◌) (step now m) (map-rows g h step ((now, ms) ∷ batches))

pub All-rows :
    (P : Row → Type 0) (Q : Metric → Type 0)
    → ((now : ℕ) (m : Metric) → Q m → P (row now m))
    → (batches : List (ℕ × List Metric)) → All Q (records_of batches)
    → All P (rows_of batches)
All-rows P Q step [] h = tt
All-rows P Q step ((now, []) ∷ batches) h = All-rows P Q step batches h
All-rows P Q step ((now, m ∷ ms) ∷ batches) h =
    (step now m h.0, All-rows P Q step ((now, ms) ∷ batches) h.1)

pub of_run-all :
    (run : Text) (rs : List Row)
    → All (λ r. text_eq r.test_run_id run ≡ true) rs
    → of_run run rs ≡ rs
unfolding of_run
of_run-all run [] h = refl
of_run-all run (r ∷ rs) h = rw (h.0) (ap (◌∷◌ r) (of_run-all run rs h.1))

pub of_run-others :
    (run : Text) (table rs : List Row)
    → All (λ r. text_eq r.test_run_id run ≡ false) table
    → of_run run (table ++ rs) ≡ of_run run rs
unfolding of_run
of_run-others run [] rs h = refl
of_run-others run (r ∷ table) rs h = rw (h.0) (of_run-others run table rs h.1)

pub of_contestant-all :
    (cid : Text) (rs : List Row)
    → All (λ r. text_eq r.contestant_id cid ≡ true) rs
    → of_contestant cid rs ≡ rs
unfolding of_contestant
of_contestant-all cid [] h = refl
of_contestant-all cid (r ∷ rs) h = rw (h.0) (ap (◌∷◌ r) (of_contestant-all cid rs h.1))
