-- ===== src/Telemetry/Stats.antt =====
-- internal/telemetry/stats.go: count, extremes and sum of the latencies of one batch.
pub mod Extremes
use iicpc_distributed_benchm.Base.{ℕ, ltb, ◌==◌, if◌then◌else◌, List, [], ◌∷◌, add64}
use iicpc_distributed_benchm.Float.{Float64}

-- `Stats`
pub record Stats (f : Float64) : Type 0 where
  pub count : ℕ
  pub min_latency_ns : ℕ
  pub max_latency_ns : ℕ
  pub sum_latency_ns : f.F

module _ (f : Float64) where
  open f use {of_uint, to_uint, add, div, round}

  -- `Reset`; the source assigns every field.
  unfoldable pub reset : Stats f → Stats f
  reset s = record { count = 0; min_latency_ns = 0; max_latency_ns = 0; sum_latency_ns = of_uint 0 }

  -- `AddLatency`
  pub add_latency : Stats f → ℕ → Stats f
  add_latency s lat_ns =
      if s.count == 0
      then record {
        count = 1;
        min_latency_ns = lat_ns;
        max_latency_ns = lat_ns;
        sum_latency_ns = of_uint lat_ns;
      }
      else record {
        count = add64 s.count 1;
        min_latency_ns = if ltb lat_ns s.min_latency_ns then lat_ns else s.min_latency_ns;
        max_latency_ns = if ltb s.max_latency_ns lat_ns then lat_ns else s.max_latency_ns;
        sum_latency_ns = add s.sum_latency_ns (of_uint lat_ns);
      }

  -- `AvgLatencyNs`
  pub avg_latency_ns : Stats f → ℕ
  avg_latency_ns s =
      if s.count == 0 then 0 else to_uint (round (div s.sum_latency_ns (of_uint s.count)))

  -- The calls of `AddLatency` for one batch.
  abbrev pub add_latencies : Stats f → List ℕ → Stats f
  add_latencies s [] = s
  add_latencies s (x ∷ xs) = add_latencies (add_latency s x) xs
