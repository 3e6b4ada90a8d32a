-- ===== src/Judge/Metrics.antt =====
-- The end of internal/judge/judge.go: what a run measured, read from the ring buffer.
-- `float64(n-1)*pct/100.0`, truncated, is the quotient of natural numbers for every n below 2^46:
-- the product is exact, and a quotient by 100 that is no integer is further than half a unit in the
-- last place from the next one. The buffer holds 500 000 elements.
pub mod Percentiles
pub mod Report
use mathlib.Core.List.{foldl}
use iicpc_distributed_benchm.Base.{
  ℕ, zero, suc, ◌+◌, ◌-◌, ◌*◌, ◌/◌, ◌==◌, leb, if◌then◌else◌, List, [], ◌∷◌, ◌++◌, Bool, true,
  false, Option, none, some, length, get_or, replicate, sort_slice, add64, Text,
}
use iicpc_distributed_benchm.Float.{Float64}
use iicpc_distributed_benchm.Telemetry.{Metric}
use iicpc_distributed_benchm.Telemetry.RingBuffer.{RingBuffer}
use iicpc_distributed_benchm.Telemetry.Drain.{drain_loop}

-- `idx` in `percentiles`; an index out of range would panic and is 0 here, which
-- `Percentiles.index_in_range` rules out.
abbrev pub rank : ℕ → ℕ → ℕ
rank n pct = (n - 1) * pct / 100

-- `percentiles`
pub percentiles : List ℕ → ℕ × ℕ × ℕ
percentiles values =
    let n = length values in
    let sorted = sort_slice values in
    let idx = λ (pct : ℕ). get_or sorted (rank n pct) 0 in
    if n == 0 then (0, 0, 0) else (idx 50, idx 90, idx 99)

-- The variables of the loop of `drainRingBuffer`.
pub record Tally : Type 0 where
  pub latencies : List ℕ
  pub correct : ℕ
  pub total : ℕ

-- The latency in microseconds, at least 1; none if the clock went back.
abbrev pub latency_us : Metric → Option ℕ
latency_us m =
    let us = (m.recv_time_ns - m.sent_time_ns) / 1000 in
    if leb m.sent_time_ns m.recv_time_ns then some (if us == 0 then 1 else us) else none

abbrev pub append_latency : List ℕ → Option ℕ → List ℕ
append_latency ls none = ls
append_latency ls (some us) = ls ++ us ∷ []

-- The body of the inner loop of `drainRingBuffer`.
pub tally_metric : Tally → Metric → Tally
tally_metric t m = record {
  latencies = append_latency t.latencies (latency_us m);
  correct = if m.is_correct then add64 t.correct 1 else t.correct;
  total = add64 t.total 1;
}

abbrev pub blank_metric : Metric
blank_metric = record {
  test_run_id = [];
  contestant_id = [];
  client_id = [];
  order_id = [];
  sent_time_ns = 0;
  recv_time_ns = 0;
  engine_time_ns = 0;
  is_correct = false;
  error_code = [];
}

-- `localStats`
pub record LocalStats (f : Float64) : Type 0 where
  pub count : ℕ
  pub correct_ratio : f.F
  pub p50_us : ℕ
  pub p90_us : ℕ
  pub p99_us : ℕ
  pub score : f.F

-- The length of `batch` in `drainRingBuffer`.
batch_size : ℕ
batch_size = 8192

module _ (f : Float64) where
  open f use {of_uint, sub, mul, div, lit}

  abbrev pub no_stats : LocalStats f
  no_stats = record {
    count = 0;
    correct_ratio = of_uint 0;
    p50_us = 0;
    p90_us = 0;
    p99_us = 0;
    score = of_uint 0;
  }

  -- `drainRingBuffer` after its loop.
  pub local_stats : Tally → LocalStats f
  local_stats t =
      let ratio = div (of_uint t.correct) (of_uint t.total) in
      let (p50, p90, p99) = percentiles t.latencies in
      if t.total == 0 then no_stats else record {
        count = t.total;
        correct_ratio = ratio;
        p50_us = p50;
        p90_us = p90;
        p99_us = p99;
        score = sub (mul ratio (lit 1_000_000 1)) (of_uint p99);
      }

  -- `drainRingBuffer`, with the buffer that it leaves. The loop makes at most one round for each
  -- element and one more, so `size` and one more are enough fuel.
  pub drain_ring_buffer : RingBuffer Metric → Option (LocalStats f × RingBuffer Metric)
  drain_ring_buffer rb =
      elim (drain_loop tally_metric (rb.size + 1 + 1) rb (replicate batch_size blank_metric)
        (record { latencies = []; correct = 0; total = 0 })) [
          | none ↦ none
          | some (t, rb') ↦ some (local_stats t, rb')
        ]
