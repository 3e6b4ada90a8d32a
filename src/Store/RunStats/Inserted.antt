-- ===== src/Store/RunStats/Inserted.antt =====
-- What `QueryRunStats` returns of the batches that were inserted.
use mathlib.Core.List.{Perm}
use mathlib.Core.List.Perm
use iicpc_distributed_benchm.Base.{
  count-map, length-map, count-Perm, length-Perm, All-Perm, ℕ, zero, suc, ◌<◌, ◌≡◌, refl, sym, ap,
  subst, eq_of_some, ◌∙◌, ◌&&◌, List, [], ◌∷◌, map, Bool, true, false, some, Text, text_eq,
  text_eq_iff, All, All-map, count, length, get_elem?, done, arith,
}
use iicpc_distributed_benchm.Float.{Float64}
use iicpc_distributed_benchm.Telemetry.{Metric}
use iicpc_distributed_benchm.Store.{Row, ContestantStats, latency_ns}
use iicpc_distributed_benchm.Store.RunStats.{
  Sql, of_run, of_contestant, least, greatest, quantile, whole_micros, stats_of, one_group,
  query_run_stats, after_inserts, records_of, rows_of, map-rows, All-rows, of_run-all,
  of_run-others, of_contestant-all, after_inserts-rows,
}

All-at :
    {A : Type 0} (P : A → Type 0) (xs : List A) (i : ℕ) (x : A)
    → All P xs
    → get_elem? xs i ≡ some x
    → P x
All-at P [] i x h e = absurd (cc)
All-at P (y ∷ ys) zero x h e = subst P (eq_of_some e) h.0
All-at P (y ∷ ys) (suc i) x h e = All-at P ys i x h.1 e

-- The metric is of this run and this contestant.
abbrev is_of : Text → Text → Metric → Bool
is_of run cid m = text_eq m.test_run_id run && text_eq m.contestant_id cid

module _ (f : Float64) (sql : Sql f) (pick : Row → List Row → Text) where
  -- The statistics of one contestant's metrics, up to their order.
  pub record IsRunStats (cid : Text) (ms : List Metric) (s : ContestantStats f) : Type 0 where
    pub contestant : s.contestant_id ≡ cid
    pub number : s.count ≡ length ms
    pub correct : s.correct_count ≡ count (λ m. m.is_correct) ms
    pub latencies : List ℕ
    pub latencies-Perm : Perm latencies (map (λ m. latency_ns m) ms)
    pub p50 : s.p50_us ≡ quantile f sql 50 latencies
    pub p90 : s.p90_us ≡ quantile f sql 90 latencies
    pub p99 : s.p99_us ≡ quantile f sql 99 latencies
    pub minimum : s.min_us ≡ whole_micros f sql (least latencies)
    pub maximum : s.max_us ≡ whole_micros f sql (greatest latencies)

  -- `LIMIT 1` leaves the group of a row.
  abbrev pub PicksOne : Type 0
  PicksOne =
      (r : Row) (rs : List Row)
      → (i : ℕ) × (x : Row) × (get_elem? (r ∷ rs) i ≡ some x) × (pick r rs ≡ x.contestant_id)

  one_group_lem :
      (cid : Text) (rs : List Row)
      → PicksOne
      → 0 < length rs
      → All (λ r. text_eq r.contestant_id cid ≡ true) rs
      → one_group f sql pick rs ≡ done (stats_of f sql cid rs)
  one_group_lem cid [] picks some_row all = absurd (omega (arith, some_row))
  one_group_lem cid (r ∷ rs) picks some_row all =
      let (i, x, at, e) = picks r rs in
      let same : pick r rs ≡ cid =
        e
        ∙ (text_eq_iff x.contestant_id cid).0
            (All-at (λ y. text_eq y.contestant_id cid ≡ true) (r ∷ rs) i x all at) in
      ap (λ c. done (stats_of f sql c (of_contestant c (r ∷ rs)))) same
      ∙ ap (λ group. done (stats_of f sql cid group)) (of_contestant-all cid (r ∷ rs) all)

  stats_of-IsRunStats :
      (cid : Text) (batches : List (ℕ × List Metric)) (ms : List Metric)
      → Perm (records_of batches) ms
      → IsRunStats cid ms (stats_of f sql cid (rows_of batches))
  stats_of-IsRunStats cid batches ms perm =
      let latencies = map-rows (λ r. r.latency_ns) (λ m. latency_ns m) (λ now m. refl) batches in
      record {
        contestant = refl;
        number =
            sym (length-map (λ r. r.latency_ns) (rows_of batches))
            ∙ (ap (λ ls. length ls) latencies
                ∙ (length-map (λ m. latency_ns m) (records_of batches)
                    ∙ length-Perm (records_of batches) ms perm));
        correct =
            sym (count-map (λ b. b) (λ r. r.is_correct) (rows_of batches))
            ∙ (ap (λ bs. count (λ b. b) bs)
                  (map-rows (λ r. r.is_correct) (λ m. m.is_correct) (λ now m. refl) batches)
                ∙ (count-map (λ b. b) (λ m. m.is_correct) (records_of batches)
                    ∙ count-Perm (λ m. m.is_correct) (records_of batches) ms perm));
        latencies = map (λ r. r.latency_ns) (rows_of batches);
        latencies-Perm =
            subst (λ ls. Perm ls (map (λ m. latency_ns m) ms)) (sym latencies)
              (Perm.map (λ m. latency_ns m) perm);
        p50 = refl;
        p90 = refl;
        p99 = refl;
        minimum = refl;
        maximum = refl;
      }

  -- A table without a row of the run, and batches of the metrics of the run.
  pub query_run_stats-inserted :
      (table : List Row) (batches : List (ℕ × List Metric)) (run cid : Text) (ms : List Metric)
      → PicksOne
      → All (λ r. text_eq r.test_run_id run ≡ false) table
      → All (λ m. (m.test_run_id ≡ run) × (m.contestant_id ≡ cid)) ms
      → 0 < length ms
      → Perm (records_of batches) ms
      → (s : ContestantStats f) × (query_run_stats f sql pick (after_inserts table batches) run
          ≡ done s)
        × IsRunStats cid ms s
  unfolding query_run_stats
  query_run_stats-inserted table batches run cid ms picks others ids some_metric perm = (
    stats_of f sql cid (rows_of batches),
    ap (one_group f sql pick) only_rows
        ∙ one_group_lem cid (rows_of batches) picks some_row same_contestant,
    stats_of-IsRunStats cid batches ms perm,
  )
    where
      all_of_run : All (λ m. is_of run cid m ≡ true) (records_of batches)
      all_of_run = All-Perm (is_of run cid) (records_of batches) ms perm (
          All-map (λ m. (m.test_run_id ≡ run) × (m.contestant_id ≡ cid))
            (λ m. is_of run cid m ≡ true) ms
            (λ m e.
              rw ((text_eq_iff m.test_run_id run).1 e.0, (text_eq_iff m.contestant_id cid).1 e.1)
                refl)
            ids)

      same_run : All (λ r. text_eq r.test_run_id run ≡ true) (rows_of batches)
      same_run =
          All-rows (λ r. text_eq r.test_run_id run ≡ true) (λ m. is_of run cid m ≡ true)
            (λ now m e. ground (arith, e)) batches all_of_run

      same_contestant : All (λ r. text_eq r.contestant_id cid ≡ true) (rows_of batches)
      same_contestant =
          All-rows (λ r. text_eq r.contestant_id cid ≡ true) (λ m. is_of run cid m ≡ true)
            (λ now m e. ground (arith, e)) batches all_of_run

      only_rows : of_run run (after_inserts table batches) ≡ rows_of batches
      only_rows =
          ap (of_run run) (after_inserts-rows table batches)
          ∙ (of_run-others run table (rows_of batches) others
              ∙ of_run-all run (rows_of batches) same_run)

      some_row : 0 < length (rows_of batches)
      some_row = omega (arith, some_metric, (stats_of-IsRunStats cid batches ms perm).number)
