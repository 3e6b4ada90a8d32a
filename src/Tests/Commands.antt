-- ===== src/Tests/Commands.antt =====
-- The commands, and the score of a run, at concrete inputs.
use iicpc_distributed_benchm.Base.{ℕ, ◌≡◌, ◌⊎◌, List, [], ◌∷◌, none, some, text, done, ◌≤◌, arith}
use iicpc_distributed_benchm.Tests.Instances.{whole, measured}
use iicpc_distributed_benchm.Telemetry.{Metric}
use iicpc_distributed_benchm.Telemetry.RingBuffer.{RingBuffer, new_ring_buffer}
use iicpc_distributed_benchm.Telemetry.RingBuffer.Inv.{new_ring_buffer-IsValid}
use iicpc_distributed_benchm.Telemetry.RingBuffer.Filled.{push_all, push_all-IsValid}
use iicpc_distributed_benchm.Telemetry.RingBuffer.Window.{contents}
use iicpc_distributed_benchm.Telemetry.Fed.{fed, write-push_all}
use iicpc_distributed_benchm.Telemetry.Stats.{Stats}
use iicpc_distributed_benchm.BotFleet.Consumer.{IsTicked, consume_tick, consume_tick-IsTicked}
use iicpc_distributed_benchm.Sandbox.Size.{size, parse_bytes}
use iicpc_distributed_benchm.SandboxManager.{Daemon, RunFlags, run_cmd}
use iicpc_distributed_benchm.SandboxManager.Safe.{IsSafe, run_cmd-IsSafe}

abbrev metrics : List Metric
metrics = measured 1000 9000 ∷ measured 2000 1000 ∷ []

abbrev no_stats : Stats whole
no_stats = record { count = 7; min_latency_ns = 1; max_latency_ns = 2; sum_latency_ns = 3 }

abbrev buffer : RingBuffer Metric
buffer = push_all (new_ring_buffer (measured 0 0) 4) metrics

buffer_write : buffer.write ≤ 2
buffer_write =
    let empty = (new_ring_buffer-IsValid (measured 0 0) 4).1 in
    omega (
      arith,
      empty,
      write-push_all metrics (new_ring_buffer (measured 0 0) 4) (omega (arith, empty)),
    )

-- A metric comes before the first `PopInto`, and one before the second.
abbrev arriving : List (List Metric)
arriving = (measured 5 6 ∷ []) ∷ (measured 7 9 ∷ []) ∷ []

consume_tick-IsTicked_example :
    IsTicked whole
      (fed buffer.size 1 (contents buffer) arriving)
      (consume_tick whole no_stats (measured 0 0 ∷ []) arriving buffer)
consume_tick-IsTicked_example =
    consume_tick-IsTicked whole no_stats (measured 0 0 ∷ []) arriving buffer (omega arith)
      (push_all-IsValid metrics (new_ring_buffer (measured 0 0) 4)
        (new_ring_buffer-IsValid (measured 0 0) 4).0
        (omega (arith, (new_ring_buffer-IsValid (measured 0 0) 4).1)))
      (omega (arith, buffer_write))

abbrev daemon : Daemon
daemon = record {
  client_error = none;
  ping_error = none;
  networks = done [];
  network_created = done (text "n1");
  container_created = done (text "c1");
  container_started = some (text "port in use");
}

abbrev flags : RunFlags
flags = record {
  image = text "alice:1";
  network = [];
  name = [];
  host_port = 50051;
  container_port = 50051;
  mem = text "512m";
  cpus = 1;
  cpuset = [];
  pids = 20;
}

run_cmd-IsSafe_example :
    IsSafe (done (text "c1")) (run_cmd daemon flags)
    × (((n : ℕ) × (parse_bytes (text "512m") ≡ size n))
        ⊎ (((run_cmd daemon flags).code ≡ 2) × ((run_cmd daemon flags).calls ≡ [])))
run_cmd-IsSafe_example =
    run_cmd-IsSafe daemon flags (omega arith, (omega arith, (omega arith, (omega arith, tt))))
