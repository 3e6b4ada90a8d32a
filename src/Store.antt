-- ===== src/Store.antt =====
-- internal/store/timescale.go: `InsertBatch`, and the bounds and the scan of `QueryHistory`. The
-- database is a service: what it replies to the rows is an argument. An int64 is its word.
pub mod Inserts
pub mod RunStats
use iicpc_distributed_benchm.Base.{
  ℕ, ◌+◌, ◌-◌, ◌==◌, leb, ltb, if◌then◌else◌, List, [], ◌∷◌, ◌++◌, Option, none, some, Bool, Text,
  text, decimal, Result, done, failed,
}
use iicpc_distributed_benchm.Float.{Float64}
use iicpc_distributed_benchm.Telemetry.{Metric}

-- The parameters of one `INSERT`.
pub record Row : Type 0 where
  pub time : ℕ
  pub test_run_id : Text
  pub contestant_id : Text
  pub client_id : Text
  pub order_id : Text
  pub sent_time_ns : ℕ
  pub recv_time_ns : ℕ
  pub engine_time_ns : ℕ
  pub is_correct : Bool
  pub error_code : Text
  pub latency_ns : ℕ

-- `latNs`
abbrev pub latency_ns : Metric → ℕ
latency_ns r = if leb r.sent_time_ns r.recv_time_ns then r.recv_time_ns - r.sent_time_ns else 0

abbrev pub row : ℕ → Metric → Row
row now r = record {
  time = now;
  test_run_id = r.test_run_id;
  contestant_id = r.contestant_id;
  client_id = r.client_id;
  order_id = r.order_id;
  sent_time_ns = r.sent_time_ns;
  recv_time_ns = r.recv_time_ns;
  engine_time_ns = r.engine_time_ns;
  is_correct = r.is_correct;
  error_code = r.error_code;
  latency_ns = latency_ns r;
}

-- The loop that queues the rows.
abbrev pub queue_rows : ℕ → List Metric → List Row
queue_rows now [] = []
queue_rows now (r ∷ rs) = row now r ∷ queue_rows now rs

abbrev pub record_error : ℕ → Metric → Text → Text
record_error i r e =
    text "record["
    ++ decimal i
    ++ text "] (run="
    ++ r.test_run_id
    ++ text " order="
    ++ r.order_id
    ++ text "): "
    ++ e

abbrev pub add_error : ℕ → Metric → Option Text → List Text → List Text
add_error i r none errs = errs
add_error i r (some e) errs = record_error i r e ∷ errs

-- The loop over the results, from the record number `i` on; `exec` is what the `i`-th `br.Exec` returns.
unfoldable pub collect_errors : (ℕ → Option Text) → ℕ → List Metric → List Text
collect_errors exec i [] = []
collect_errors exec i (r ∷ rs) = add_error i r (exec i) (collect_errors exec (i + 1) rs)

-- `errors.Join`: nil for no errors.
abbrev pub join_errors : List Text → Option (List Text)
join_errors [] = none
join_errors (e ∷ es) = some (e ∷ es)

-- `InsertBatch`: the rows that it sends, if any, and the error.
unfoldable pub insert_batch : ℕ → (ℕ → Option Text) → List Metric → List Row × Option (List Text)
insert_batch now exec [] = ([], none)
insert_batch now exec (r ∷ rs) =
    (queue_rows now (r ∷ rs), join_errors (collect_errors exec 0 (r ∷ rs)))

-- The hours that `QueryHistory` asks for; a number that is not positive is 0 here.
unfoldable pub history_hours : ℕ → ℕ
history_hours hours = let h = if hours == 0 then 1 else hours in if ltb 168 h then 168 else h

-- `ContestantStats`
pub record ContestantStats (f : Float64) : Type 0 where
  pub contestant_id : Text
  pub window_start : ℕ
  pub count : ℕ
  pub correct_count : ℕ
  pub correct_ratio : f.F
  pub p50_us : f.F
  pub p90_us : f.F
  pub p99_us : f.F
  pub avg_us : f.F
  pub min_us : f.F
  pub max_us : f.F

module _ (f : Float64) where
  abbrev pub scan_next :
      Text
      → Result (ContestantStats f)
      → Result (List (ContestantStats f))
      → Result (List (ContestantStats f))
  scan_next cid (failed e) rest = failed e
  scan_next cid (done s) (failed e) = failed e
  scan_next cid (done s) (done rest) = done (record s { contestant_id = cid } ∷ rest)

  -- The loop over the rows, each as `Scan` gives it, and `rows.Err()` after the last.
  unfoldable pub scan_rows :
      Text → List (Result (ContestantStats f)) → Option Text → Result (List (ContestantStats f))
  scan_rows cid [] none = done []
  scan_rows cid [] (some e) = failed e
  scan_rows cid (s ∷ rows) rows_error = scan_next cid s (scan_rows cid rows rows_error)

  -- `QueryHistory`, for what the database returns for a contestant and a number of hours.
  unfoldable pub query_history :
      (Text → ℕ → Result (List (Result (ContestantStats f)) × Option Text))
      → Text
      → ℕ
      → Result (List (ContestantStats f))
  unfolding history_hours
  query_history query cid hours = elim (query cid (history_hours hours)) [
    | failed e ↦ failed e
    | done (rows, rows_error) ↦ scan_rows cid rows rows_error
  ]
