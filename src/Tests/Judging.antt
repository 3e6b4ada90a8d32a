-- ===== src/Tests/Judging.antt =====
-- The judge and its service at concrete inputs.
use iicpc_distributed_benchm.Base.{
  ℕ, zero, suc, ◌+◌, ◌≡◌, refl, List, [], ◌∷◌, ◌++◌, true, false, length, some, none, Text, text,
  All, arith, replicate, done, failed,
}
use iicpc_distributed_benchm.Tests.Instances.{whole, measured}
use iicpc_distributed_benchm.Telemetry.RingBuffer.{new_ring_buffer}
use iicpc_distributed_benchm.Sandbox.Size.{Size}
use iicpc_distributed_benchm.Judge.Engine.{Submission, Config, Outside, Finished, run}
use iicpc_distributed_benchm.Judge.Engine.Outcome.{Concluded}
use iicpc_distributed_benchm.Judge.Engine.Returns.{run_concludes}
use iicpc_distributed_benchm.Sandbox.Container.{RunOptions, run_sandbox}
use iicpc_distributed_benchm.Sandbox.Container.Hardened.{IsHardenedCall, run_sandbox-IsHardened}
use iicpc_distributed_benchm.Judge.Ready.{Attempt}
use iicpc_distributed_benchm.Judge.Ready.Bounded.{Spaced}
use iicpc_distributed_benchm.JudgeApi.Submissions.{
  Body, found, saved_it, Api, max_queue, create_submission,
}
use iicpc_distributed_benchm.JudgeApi.Submissions.Outcome.{Outcome, create_submission-Outcome}
use iicpc_distributed_benchm.JudgeApi.Queue.{Service, start_service, send, Reach, base, step}
use iicpc_distributed_benchm.JudgeApi.Queue.Counters.{IsConsistent, Reach-IsConsistent}

abbrev options : RunOptions
options = record {
  image = text "alice:1";
  container_name = text "iicpc-contestant-alice-7";
  network_name = [];
  host_port = 0;
  container_port = 0;
  memory_bytes = 0;
  nano_cpus = 0;
  cpuset_cpus = [];
  pids_limit = 0;
  readonly_rootfs = false;
  no_new_privileges = false;
  drop_all_caps = false;
  env = [];
}

run_sandbox-IsHardened_example : All IsHardenedCall (run_sandbox options (done (text "c1")) none).1
run_sandbox-IsHardened_example = run_sandbox-IsHardened options (done (text "c1")) none

-- Dials that fail, one each 300 ms.
abbrev pub dials : ℕ → ℕ → List Attempt
dials zero from = []
dials (suc n) from =
    record { dial_error = some (text "refused"); now = from; done_error = none }
    ∷ dials n (from + 300_000_000)

pub dials-Spaced : (n from : ℕ) → Spaced from (dials n from)
dials-Spaced zero from = tt
dials-Spaced (suc n) from = (omega arith, dials-Spaced n (from + 300_000_000))

pub length-dials : (n from : ℕ) → length (dials n from) ≡ n
length-dials zero from = refl
length-dials (suc n) from = omega (arith, length-dials n (from + 300_000_000))

abbrev pub sub : Submission
sub = record { id = text "alice-7"; contestant_id = text "alice"; image_tag = text "alice:1" }

abbrev pub config : Config
config = record {
  sandbox_memory = text "512m";
  sandbox_cpus = 1;
  sandbox_cpu_set = [];
  sandbox_pids = 50;
  sandbox_port = 50052;
  bot_count = 2;
  orders_per_sec = 200;
  duration = 60_000_000_000;
  symbol = text "AAPL";
  kafka_brokers = [];
  kafka_topic = text "metrics";
  redis_addr = text "localhost:6379";
}

-- Everything succeeds.
abbrev pub outside : Outside whole
outside = record {
  run_nanos = 9;
  started_at = 1;
  finished_at = 2;
  networks = done (text "n1" ∷ []);
  network_created = failed [];
  container_created = done (text "c1");
  container_started = none;
  dial_start = 5;
  attempts = record { dial_error = none; now = 6; done_error = none } ∷ dials 40 (6 + 300_000_000);
  probe_dial_error = none;
  place = λ req. done (record {
    order_id = req.order_id;
    client_id = req.client_id;
    symbol = req.symbol;
    status = text "FILLED";
    execution_price = 100;
    filled_quantity = req.quantity;
    timestamp_ns = 7;
  });
  probe_now = 7;
  fleet_error = none;
  ring_buffer = new_ring_buffer (measured 0 0) 4;
  run_ctx_done = false;
}

abbrev pub no_text : Size → Text
no_text s = []

run_concludes_example :
    (fin : Finished whole) × (run whole config sub outside no_text ≡ some fin)
    × Concluded whole config sub outside [] fin
run_concludes_example =
    run_concludes whole config sub outside no_text (omega arith, dials-Spaced 40 (6 + 300_000_000))
      (omega (arith, length-dials 40 (6 + 300_000_000)))

-- The queue is full.
abbrev full : Api
full = record { engine = true; queue = replicate 20 sub; pending = 20; saved = [] }

abbrev body : Body
body = record { contestant_id = text "alice"; image_tag = text "alice:1" }

create_submission-Outcome_example :
    Outcome full 9
      (done body)
      found
      saved_it
      (create_submission full (done body) found saved_it 9).0
      (create_submission full (done body) found saved_it 9).1
create_submission-Outcome_example = create_submission-Outcome full 9 (done body) found saved_it

abbrev pub after_send : Service
after_send = record start_service {
  queue = start_service.queue ++ sub ∷ [];
  sent = start_service.sent + 1;
  entered = sub ∷ start_service.entered;
}

pub send_reached : Reach after_send
unfolding start_service max_queue
send_reached = step base (send sub (omega arith))

Reach-IsConsistent_example : IsConsistent after_send
Reach-IsConsistent_example = Reach-IsConsistent send_reached
