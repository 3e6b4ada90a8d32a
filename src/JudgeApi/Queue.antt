-- ===== src/JudgeApi/Queue.antt =====
-- The queue between the handlers and `judgeWorker` of cmd/judge_api/main.go, with the counters
-- `pending` and `running`, one channel operation or one atomic addition at a time, interleaved in any
-- order. A counter is the word of an int64.
pub mod Counters
pub mod Settled
use iicpc_distributed_benchm.Base.{ℕ, ◌+◌, ◌<◌, ◌≡◌, suc, List, [], ◌∷◌, ◌++◌, length, add64, sub64}
use iicpc_distributed_benchm.Judge.Engine.{Submission}
use iicpc_distributed_benchm.JudgeApi.Submissions.{max_queue}

-- Where the worker stands.
pub data Worker : Type 0 where
  waiting : Worker
  received : (sub : Submission) → Worker  -- before `h.pending.Add(-1)`
  counted : (sub : Submission) → Worker  -- before `h.running.Add(1)`
  judging : (sub : Submission) → Worker

-- `sent` counts the handlers that have sent to the channel and not yet added to `pending`; `entered`
-- and `finished` are the submissions that went into the channel and those judged, the last first.
pub record Service : Type 0 where
  pub queue : List Submission
  pub pending : ℕ
  pub running : ℕ
  pub sent : ℕ
  pub worker : Worker
  pub entered : List Submission
  pub finished : List Submission

unfoldable pub start_service : Service
start_service = record {
  queue = [];
  pending = 0;
  running = 0;
  sent = 0;
  worker = waiting;
  entered = [];
  finished = [];
}

pub data Step : Service → Service → Type 0 where
  send :
      {s : Service} (sub : Submission)
      → length s.queue < max_queue
      → Step s
          (record s { queue = s.queue ++ sub ∷ []; sent = s.sent + 1; entered = sub ∷ s.entered })
  add_pending :
      {s : Service} {n : ℕ}
      → s.sent ≡ suc n
      → Step s (record s { sent = n; pending = add64 s.pending 1 })
  receive :
      {s : Service} {sub : Submission} {rest : List Submission}
      → s.worker ≡ waiting
      → s.queue ≡ sub ∷ rest
      → Step s (record s { queue = rest; worker = received sub })
  drop_pending :
      {s : Service} {sub : Submission}
      → s.worker ≡ received sub
      → Step s (record s { pending = sub64 s.pending 1; worker = counted sub })
  add_running :
      {s : Service} {sub : Submission}
      → s.worker ≡ counted sub
      → Step s (record s { running = add64 s.running 1; worker = judging sub })
  finish :
      {s : Service} {sub : Submission}
      → s.worker ≡ judging sub
      → Step s
          (record s { running = sub64 s.running 1; worker = waiting; finished = sub ∷ s.finished })

pub data Reach : Service → Type 0 where
  base : Reach start_service
  step : {s t : Service} → Reach s → Step s t → Reach t
