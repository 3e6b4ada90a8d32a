-- ===== src/Judge/Engine/Played.antt =====
-- A run of the judge, from the events of its bots to its result.
use iicpc_distributed_benchm.Base.{
  ℕ, ◌≡◌, ◌≤◌, ◌<◌, ◌∙◌, List, some, Text, length, take, u64_mod, arith,
}
use iicpc_distributed_benchm.Float.{Float64}
use iicpc_distributed_benchm.Telemetry.RingBuffer.{new_ring_buffer}
use iicpc_distributed_benchm.Sandbox.Size.{Size}
use iicpc_distributed_benchm.Judge.Metrics.{blank_metric}
use iicpc_distributed_benchm.Judge.Ready.Bounded.{Spaced}
use iicpc_distributed_benchm.Judge.Engine.{Submission, Config, Outside, Finished, run, run_id}
use iicpc_distributed_benchm.Judge.Engine.Scored.{Scored, run-report}
use iicpc_distributed_benchm.BotFleet
use iicpc_distributed_benchm.BotFleet.{Event}
use iicpc_distributed_benchm.BotFleet.Fleet.{Fleet, with_defaults}
use iicpc_distributed_benchm.BotFleet.Once.{DistinctIds}
use iicpc_distributed_benchm.BotFleet.Shared.{Bots, run_bots, new_bots}
use iicpc_distributed_benchm.BotFleet.Shared.Projected.{all_of, length-recorded}
use iicpc_distributed_benchm.BotFleet.Shared.Apart.{run_bots-IsFleetRun}

module _ (f : Float64) (cfg : Config) (sub : Submission) (o : Outside f) where
  -- `fleetCfg`, for the address of the container.
  abbrev pub fleet_of : Text → Fleet
  fleet_of host_addr = record {
    target_addr = host_addr;
    bot_count = cfg.bot_count;
    orders_per_sec = cfg.orders_per_sec;
    duration = cfg.duration;
    symbol = cfg.symbol;
    kafka_brokers = cfg.kafka_brokers;
    kafka_topic = cfg.kafka_topic;
  }

  -- What the bots of `Run` are given.
  abbrev pub bot_config : Text → BotFleet.Config
  bot_config host_addr = record {
    test_run_id = run_id f cfg sub o;
    contestant_id = sub.contestant_id;
    symbol = (with_defaults (fleet_of host_addr)).symbol;
  }

  -- The bots of the run after the events `es`, with the ring buffer of `Run`.
  abbrev pub played : (host_addr : Text) → List (ℕ × Event f) → Bots f (bot_config host_addr)
  played host_addr es =
      run_bots f (bot_config host_addr)
        (new_bots f (bot_config host_addr) (new_ring_buffer blank_metric 500_000)) es

  -- If the dials of `waitForGRPC` end at least 300 ms apart and 35 of them are made, and the ring buffer
  -- is what fewer than 2^64 events of the bots, in any interleaving, have left, then `Run` returns:
  -- without an error, and its completed result has the number, the share of correct ones, the
  -- percentiles and the score of exactly the first 500 000 metrics that the bots recorded; or with an
  -- error, which its failed result holds. No two of the metrics are of one order, and there are not
  -- more than events.
  pub run-played :
      (show : Size → Text) (host_addr : Text) (es : List (ℕ × Event f))
      → Spaced o.dial_start o.attempts
      → 35 ≤ length o.attempts
      → length es < u64_mod
      → o.ring_buffer ≡ (played host_addr es).ring
      → let ms = all_of (played host_addr es).recorded in
        ((fin : Finished f) × (run f cfg sub o show ≡ some fin)
          × Scored f cfg sub o (take 500_000 ms) fin)
        × DistinctIds ms
        × (length ms ≤ length es)
  run-played show host_addr es spaced enough room full =
      let ring = new_ring_buffer blank_metric 500_000 in
      let s = run_bots-IsFleetRun f (bot_config host_addr) ring es room in
      let few = length-recorded f (bot_config host_addr) ring es in
      (
        run-report f cfg sub o show _ spaced enough (omega (arith, few, room))
            (full ∙ s.projected.ring_eq),
        s.distinct,
        few,
      )
