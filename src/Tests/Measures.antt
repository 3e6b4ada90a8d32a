-- ===== src/Tests/Measures.antt =====
-- What is measured, at concrete inputs.
use iicpc_distributed_benchm.Base.{
  ◌-◌, ◌*◌, ◌/◌, ℕ, ◌≤◌, ◌≡◌, List, [], ◌∷◌, true, false, length, some, text, arith, HasRank,
}
use iicpc_distributed_benchm.Tests.Instances.{whole, listed, measured}
use iicpc_distributed_benchm.Telemetry.{Metric}
use iicpc_distributed_benchm.Telemetry.RingBuffer.{RingBuffer, new_ring_buffer, push}
use iicpc_distributed_benchm.Telemetry.RingBuffer.Inv.{
  IsValid, new_ring_buffer-IsValid, push-IsValid,
}
use iicpc_distributed_benchm.Telemetry.RingBuffer.Window.{contents}
use iicpc_distributed_benchm.Judge.Metrics.{drain_ring_buffer, percentiles}
use iicpc_distributed_benchm.Judge.Metrics.Report.{report, drain_ring_buffer-report}
use iicpc_distributed_benchm.Judge.Metrics.Percentiles.{percentiles_ranks}
use iicpc_distributed_benchm.Ingest.{
  ScoringParams, Aggregator, new_aggregator, flush_and_reset, default_scoring_params,
}
use iicpc_distributed_benchm.Ingest.Cell.{Measurement, own, view, add_all, step_all, view-add_all}
use iicpc_distributed_benchm.Ingest.Flush.{find_window, Reported, DistinctWindows, flush_reports}

-- A buffer of four that holds one metric.
abbrev filled : RingBuffer Metric
filled = (push (new_ring_buffer (measured 0 0) 4) (measured 1000 9000)).1

filled-IsValid : IsValid filled
unfolding new_ring_buffer
filled-IsValid =
    push-IsValid (measured 1000 9000) (new_ring_buffer-IsValid (measured 0 0) 4).0 (omega arith)

drain_ring_buffer-report_example :
    (last : RingBuffer Metric) × (drain_ring_buffer whole filled
      ≡ some (report whole (contents filled), last))
    × (contents last ≡ [])
    × IsValid last
drain_ring_buffer-report_example = drain_ring_buffer-report whole filled filled-IsValid

abbrev latencies : List ℕ
latencies = 30 ∷ 10 ∷ 20 ∷ 40 ∷ []

percentiles_ranks_example :
    let (p50, p90, p99) = percentiles latencies in
    HasRank latencies ((length latencies - 1) * 50 / 100) p50
    × HasRank latencies ((length latencies - 1) * 90 / 100) p90
    × HasRank latencies ((length latencies - 1) * 99 / 100) p99
    × (p50 ≤ p90)
    × (p90 ≤ p99)
percentiles_ranks_example = percentiles_ranks latencies (omega arith)

abbrev pub measurements : List Measurement
measurements =
    record { contestant_id = text "alice"; latency_us = 250; correct = true }
    ∷ record { contestant_id = text "bob"; latency_us = 0; correct = false }
    ∷ record { contestant_id = text "alice"; latency_us = 90; correct = false }
    ∷ []

abbrev pub parameters : ScoringParams whole
parameters = default_scoring_params whole

abbrev pub empty : Aggregator whole listed
empty = new_aggregator whole listed 0 1_000_000_000 parameters

view-add_all_example :
    view whole listed (add_all whole listed empty measurements) (text "alice")
    ≡ step_all whole listed
        (view whole listed empty (text "alice"))
        (own whole listed (text "alice") measurements)
view-add_all_example = view-add_all whole listed (text "alice") measurements empty

flush_reports_example :
    let flushed =
      flush_and_reset whole listed (add_all whole listed empty measurements) 5 1_000_000_000 in
    Reported whole listed
      (text "alice")
      (own whole listed (text "alice") measurements)
      (find_window whole listed (text "alice") flushed.0)
    × DistinctWindows whole listed flushed.0
    × (flushed.1 ≡ new_aggregator whole listed 5 1_000_000_000 parameters)
flush_reports_example =
    flush_reports whole listed 0 1_000_000_000 parameters measurements 5 1_000_000_000
      (text "alice") (omega arith, (omega arith, (omega arith, tt))) (omega arith)
