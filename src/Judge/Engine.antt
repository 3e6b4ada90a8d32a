-- ===== src/Judge/Engine.antt =====
-- `Engine.Run`, `fail` and `saveResult` of internal/judge/judge.go: a run as a function of what the
-- Docker daemon, the engine under test, the fleet, the clock and the contexts answer. It returns the
-- result, the error, and what the run did, in order. The Redis commands' errors are ignored by the
-- code. The steps of the set-up of Kafka, which change nothing else, are left out.
pub mod Outcome
pub mod Paths
pub mod Returns
pub mod Scored
pub mod Played
pub mod Setup
use iicpc_distributed_benchm.Base.{
  ℕ, ◌*◌, ◌%◌, ◌^◌, if◌then◌else◌, List, [], ◌∷◌, ◌++◌, Bool, true, false, not, Option, none, some,
  Text, text, decimal, Result, done, failed,
}
use iicpc_distributed_benchm.Float.{Float64}
use iicpc_distributed_benchm.Telemetry.{Metric}
use iicpc_distributed_benchm.Telemetry.RingBuffer.{RingBuffer}
use iicpc_distributed_benchm.Trading.{OrderRequest, OrderResponse}
use iicpc_distributed_benchm.Sandbox.Size.{
  Size, size, empty_size, unknown_suffix, bad_number, parse_bytes,
}
use iicpc_distributed_benchm.Sandbox.Container.{
  RunOptions, Call, ensure_internal_network, run_sandbox, stop_and_remove,
}
use iicpc_distributed_benchm.Judge.Metrics.{LocalStats, no_stats, drain_ring_buffer}
use iicpc_distributed_benchm.Judge.Ready.{Attempt, wait_for_grpc, validate_engine}

-- `SubmissionStatus`
pub data SubmissionStatus : Type 0 where
  queued running completed run_failed : SubmissionStatus

-- `Submission` without its time.
pub record Submission : Type 0 where
  pub id : Text
  pub contestant_id : Text
  pub image_tag : Text

-- `Config`; a count, a rate or a duration that is not positive is 0.
pub record Config : Type 0 where
  pub sandbox_memory : Text
  pub sandbox_cpus : ℕ
  pub sandbox_cpu_set : Text
  pub sandbox_pids : ℕ
  pub sandbox_port : ℕ
  pub bot_count : ℕ
  pub orders_per_sec : ℕ
  pub duration : ℕ
  pub symbol : Text
  pub kafka_brokers : List Text
  pub kafka_topic : Text
  pub redis_addr : Text

-- `RunResult`
pub record RunResult (f : Float64) : Type 0 where
  pub run_id : Text
  pub submission_id : Text
  pub contestant_id : Text
  pub status : SubmissionStatus
  pub started_at : ℕ
  pub finished_at : ℕ
  pub total_orders : ℕ
  pub correct_ratio : f.F
  pub p50_us : ℕ
  pub p90_us : ℕ
  pub p99_us : ℕ
  pub score : f.F
  pub error : Text

-- What a run does to the outside.
pub data Effect (f : Float64) : Type 0 where
  redis_set : (key : Text) (r : RunResult f) → Effect f
  redis_lpush : (key value : Text) → Effect f
  redis_ltrim : (key : Text) (first last : ℕ) → Effect f
  redis_publish : (channel message : Text) → Effect f
  docker : (call : Call) → Effect f
  run_fleet : (target : Text) → Effect f

-- What the outside answers to a run.
pub record Outside (f : Float64) : Type 0 where
  pub run_nanos : ℕ
  pub started_at : ℕ
  pub finished_at : ℕ
  pub networks : Result (List Text)
  pub network_created : Result Text
  pub container_created : Result Text
  pub container_started : Option Text
  pub dial_start : ℕ
  pub attempts : List Attempt
  pub probe_dial_error : Option Text
  pub place : OrderRequest f → Result (OrderResponse f)
  pub probe_now : ℕ
  pub fleet_error : Option Text
  pub ring_buffer : RingBuffer Metric
  pub run_ctx_done : Bool

module _ (f : Float64) where
  -- What a run returns.
  pub record Finished : Type 0 where
    pub result : RunResult f
    pub error : Option Text
    pub effects : List (Effect f)

  -- `saveResult`
  unfoldable pub save_result : RunResult f → List (Effect f)
  save_result r =
      redis_set (text "run:" ++ r.run_id) r
      ∷ redis_lpush (text "runs:submission:" ++ r.submission_id) r.run_id
      ∷ redis_lpush (text "runs:contestant:" ++ r.contestant_id) r.run_id
      ∷ redis_ltrim (text "runs:contestant:" ++ r.contestant_id) 0 49
      ∷ []

  abbrev pub failed_result : RunResult f → Text → ℕ → RunResult f
  failed_result r err now = record r { status = run_failed; error = err; finished_at = now }

  abbrev pub dockers : List Call → List (Effect f)
  dockers [] = []
  dockers (c ∷ cs) = docker c ∷ dockers cs

  module _ (cfg : Config) (sub : Submission) (o : Outside f) where
    abbrev pub run_id : Text
    run_id = text "run-" ++ sub.id ++ text "-" ++ decimal o.run_nanos

    -- The result at the start of a run.
    abbrev pub running_result : RunResult f
    running_result = record {
      run_id = run_id;
      submission_id = sub.id;
      contestant_id = sub.contestant_id;
      status = running;
      started_at = o.started_at;
      finished_at = 0;
      total_orders = 0;
      correct_ratio = f.of_uint 0;
      p50_us = 0;
      p90_us = 0;
      p99_us = 0;
      score = f.of_uint 0;
      error = [];
    }

    -- `fail`, after the effects before it.
    abbrev pub fail : List (Effect f) → Text → Finished
    fail before err =
        let r = failed_result running_result err o.finished_at in
        record { result = r; error = some err; effects = before ++ save_result r }

    abbrev pub options : ℕ → RunOptions
    options memory = record {
      image = sub.image_tag;
      container_name = text "iicpc-contestant-" ++ sub.id;
      network_name = text "iicpc_internal";
      host_port = cfg.sandbox_port;
      container_port = 50051;
      memory_bytes = memory;
      nano_cpus = cfg.sandbox_cpus * 1_000_000_000 % 2 ^ 64;
      cpuset_cpus = cfg.sandbox_cpu_set;
      pids_limit = cfg.sandbox_pids;
      readonly_rootfs = true;
      no_new_privileges = true;
      drop_all_caps = true;
      env = [];
    }

    abbrev pub completed_result : LocalStats f → RunResult f
    completed_result stats = record running_result {
      status = completed;
      finished_at = o.finished_at;
      total_orders = stats.count;
      correct_ratio = stats.correct_ratio;
      p50_us = stats.p50_us;
      p90_us = stats.p90_us;
      p99_us = stats.p99_us;
      score = stats.score;
    }

    abbrev pub complete : List (Effect f) → LocalStats f → Finished
    complete before stats =
        let r = completed_result stats in
        record {
          result = r;
          error = none;
          effects =
              before
              ++ (save_result r
                  ++ redis_publish (text "leaderboard_updates") sub.contestant_id ∷ []);
        }

    -- `none` is a loop of `drainRingBuffer` that did not end in its fuel, which a valid buffer rules
    -- out.
    abbrev pub drained : Option (LocalStats f × RingBuffer Metric) → LocalStats f
    drained none = no_stats f
    drained (some (stats, rb)) = stats

    abbrev pub after_fleet : List (Effect f) → Option Text → Finished
    after_fleet before none = complete before (drained (drain_ring_buffer f o.ring_buffer))
    after_fleet before (some e) =
        let late = complete before (drained (drain_ring_buffer f o.ring_buffer)) in
        if o.run_ctx_done then late else fail before (text "bot fleet: " ++ e)

    abbrev pub after_probe : List (Effect f) → Text → Option Text → Finished
    after_probe before addr (some e) = fail before (text "engine validation failed: " ++ e)
    after_probe before addr none = after_fleet (before ++ run_fleet addr ∷ []) o.fleet_error

    abbrev pub after_wait : List (Effect f) → Text → Option Text → Finished
    after_wait before addr (some e) = fail before (text "sandbox not ready: " ++ e)
    after_wait before addr none =
        after_probe before addr (validate_engine f o.probe_dial_error o.place o.probe_now)

    -- The deferred `StopAndRemove` runs after all else.
    abbrev pub clean_up : Text → Finished → Finished
    clean_up id fin = record fin { effects = fin.effects ++ dockers (stop_and_remove id) }

    abbrev pub with_container :
        List (Effect f) → Text → Text → Option (Option Text) → Option Finished
    with_container before id addr none = none
    with_container before id addr (some waited) = some (clean_up id (after_wait before addr waited))

    abbrev pub after_sandbox : List (Effect f) → Result (Text × Text) × List Call → Option Finished
    after_sandbox before (failed e, calls) =
        some (fail (before ++ dockers calls) (text "start sandbox: " ++ e))
    after_sandbox before (done (id, addr), calls) =
        with_container (before ++ dockers calls) id addr
          (wait_for_grpc addr o.dial_start o.attempts)

    abbrev pub after_memory : (Size → Text) → List (Effect f) → Size → Option Finished
    after_memory show before (size n) =
        after_sandbox before (run_sandbox (options n) o.container_created o.container_started)
    after_memory show before empty_size =
        some (fail before (text "parse memory: " ++ show empty_size))
    after_memory show before (unknown_suffix c) =
        some (fail before (text "parse memory: " ++ show (unknown_suffix c)))
    after_memory show before bad_number =
        some (fail before (text "parse memory: " ++ show bad_number))

    abbrev pub after_network :
        (Size → Text) → List (Effect f) → Result Text × List Call → Option Finished
    after_network show before (failed e, calls) =
        some (fail (before ++ dockers calls) (text "ensure network: " ++ e))
    after_network show before (done id, calls) =
        after_memory show (before ++ dockers calls) (parse_bytes cfg.sandbox_memory)

    -- `Run`, where `show` writes the errors of `ParseBytes`; `none` while `waitForGRPC` waits.
    unfoldable pub run : (Size → Text) → Option Finished
    run show =
        after_network show (save_result running_result)
          (ensure_internal_network (text "iicpc_internal") o.networks o.network_created)
