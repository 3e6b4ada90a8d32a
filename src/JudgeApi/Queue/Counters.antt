-- ===== src/JudgeApi/Queue/Counters.antt =====
-- What the counters and the queue say in every state that the service can reach.
use mathlib.Core.List.{reverse, reverse-cons}
use iicpc_distributed_benchm.Base.{
  ℕ, ◌+◌, ◌%◌, ◌≤◌, ◌<◌, ◌≡◌, refl, ap, ap₂, ◌∙◌, List, [], ◌∷◌, ◌++◌, append_assoc, length,
  length-append, u64_mod, sub64, arith,
}
use iicpc_distributed_benchm.Judge.Engine.{Submission}
use iicpc_distributed_benchm.JudgeApi.Submissions.{max_queue}
use iicpc_distributed_benchm.JudgeApi.Queue.{
  Worker, waiting, received, counted, judging, Service, start_service, Step, send, add_pending,
  receive, drop_pending, add_running, finish, Reach, base, step,
}

-- The submission that the worker holds.
abbrev pub held : Worker → List Submission
held waiting = []
held (received sub) = sub ∷ []
held (counted sub) = sub ∷ []
held (judging sub) = sub ∷ []

-- One if the worker has received and not yet counted down; one if it is counted as running.
abbrev pub uncounted : Worker → ℕ
uncounted waiting = 0
uncounted (received sub) = 1
uncounted (counted sub) = 0
uncounted (judging sub) = 0

abbrev pub is_running : Worker → ℕ
is_running waiting = 0
is_running (received sub) = 0
is_running (counted sub) = 0
is_running (judging sub) = 1

pub record IsConsistent (s : Service) : Type 0 where
  pub bounded : length s.queue ≤ 20
  pub pending : (s.pending + s.sent) % u64_mod ≡ (length s.queue + uncounted s.worker) % u64_mod
  pub pending_word : s.pending < u64_mod
  pub running : s.running ≡ is_running s.worker
  pub order : reverse s.entered ≡ reverse s.finished ++ (held s.worker ++ s.queue)

sent_order :
    (e f h q : List Submission) (sub : Submission)
    → reverse e ≡ reverse f ++ (h ++ q)
    → reverse (sub ∷ e) ≡ reverse f ++ (h ++ (q ++ sub ∷ []))
sent_order e f h q sub c = simp (reverse-cons, c, append_assoc)

finished_order :
    (f q : List Submission) (sub : Submission) → reverse f ++ (sub ∷ q) ≡ reverse (sub ∷ f) ++ q
finished_order f q sub = simp (reverse-cons, append_assoc)

Step-IsConsistent : {s t : Service} → Step s t → IsConsistent s → IsConsistent t
unfolding max_queue
Step-IsConsistent {s} (send sub room) c = record {
  bounded = omega (arith, length-append s.queue (sub ∷ []));
  pending = omega (arith, c.pending, length-append s.queue (sub ∷ []));
  pending_word = c.pending_word;
  running = c.running;
  order = sent_order s.entered s.finished (held s.worker) s.queue sub c.order;
}
Step-IsConsistent {s} (add_pending {n = n} e) c = record {
  bounded = c.bounded;
  pending = omega (arith, c.pending, e);
  pending_word = omega arith;
  running = c.running;
  order = c.order;
}
Step-IsConsistent {s} (receive {sub = sub} {rest = rest} w q) c = record {
  bounded = omega (arith, c.bounded, ap length q);
  pending = omega (arith, c.pending, ap length q, ap uncounted w);
  pending_word = c.pending_word;
  running = c.running ∙ ap is_running w;
  order = c.order ∙ ap₂ (λ w q. reverse s.finished ++ (held w ++ q)) w q;
}
Step-IsConsistent {s} (drop_pending {sub = sub} w) c = record {
  bounded = c.bounded;
  pending = omega (arith, c.pending, c.pending_word, ap uncounted w);
  pending_word = omega arith;
  running = c.running ∙ ap is_running w;
  order = c.order ∙ ap (λ w. reverse s.finished ++ (held w ++ s.queue)) w;
}
Step-IsConsistent {s} (add_running {sub = sub} w) c = record {
  bounded = c.bounded;
  pending = omega (arith, c.pending, ap uncounted w);
  pending_word = c.pending_word;
  running = omega (arith, c.running, ap is_running w);
  order = c.order ∙ ap (λ w. reverse s.finished ++ (held w ++ s.queue)) w;
}
Step-IsConsistent {s} (finish {sub = sub} w) c = record {
  bounded = c.bounded;
  pending = omega (arith, c.pending, ap uncounted w);
  pending_word = c.pending_word;
  running = omega (arith, c.running, ap is_running w);
  order =
      c.order
      ∙ (ap (λ w. reverse s.finished ++ (held w ++ s.queue)) w
          ∙ finished_order s.finished s.queue sub);
}

-- In every state that the service can reach, the channel holds at most 20 submissions; `pending`,
-- and the additions that handlers have yet to make, count the submissions in the channel, and the
-- one that the worker has received without counting down, modulo 2^64; `running` is 1 while a
-- submission is judged and else 0; and the submissions are judged in the order in which they
-- entered: those judged, the worker's and the channel's are those that entered.
pub Reach-IsConsistent : {s : Service} → Reach s → IsConsistent s
unfolding start_service
Reach-IsConsistent base = record {
  bounded = omega arith;
  pending = refl;
  pending_word = omega arith;
  running = refl;
  order = refl;
}
Reach-IsConsistent (step r st) = Step-IsConsistent st (Reach-IsConsistent r)

-- `pending` can be the word of -1: the worker counts down before the handler counts up.
pub pending_below_zero : (sub : Submission) → (s : Service) × Reach s × (s.pending ≡ sub64 0 1)
unfolding start_service max_queue
pending_below_zero sub = (
  _,
  step (step (step base (send sub (omega arith))) (receive refl refl)) (drop_pending refl),
  refl,
)
