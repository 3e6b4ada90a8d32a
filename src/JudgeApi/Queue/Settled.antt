-- ===== src/JudgeApi/Queue/Settled.antt =====
-- The judge queue when no submission enters any more.
use mathlib.Core.List.{reverse, reverse-reverse}
use iicpc_distributed_benchm.Base.{
  ℕ, zero, suc, ◌+◌, ◌*◌, ◌≤◌, ◌≡◌, ◌⊎◌, inl, inr, refl, sym, ap, ap₂, subst, eq-nil_of_length, ◌∙◌,
  List, [], ◌∷◌, ◌++◌, append-nil, length, arith,
}
use iicpc_distributed_benchm.Judge.Engine.{Submission}
use iicpc_distributed_benchm.JudgeApi.Queue.{
  Worker, waiting, received, counted, judging, Service, Step, send, add_pending, receive,
  drop_pending, add_running, finish, Reach, step,
}
use iicpc_distributed_benchm.JudgeApi.Queue.Counters.{
  IsConsistent, held, uncounted, is_running, Reach-IsConsistent,
}

-- A number of steps in which no submission enters.
pub data Drains : ℕ → Service → Service → Type 0 where
  at_end : {s : Service} → Drains zero s s
  next :
      {n : ℕ} {s t u : Service}
      → Step s t
      → t.entered ≡ s.entered
      → Drains n t u
      → Drains (suc n) s u

abbrev weight : Worker → ℕ
weight waiting = 0
weight (received sub) = 3
weight (counted sub) = 2
weight (judging sub) = 1

-- The steps that are still to be made.
abbrev pub work : Service → ℕ
work s = 4 * length s.queue + s.sent + weight s.worker

Step-work : {s t : Service} → Step s t → t.entered ≡ s.entered → work t + 1 ≡ work s
Step-work (send sub room) e = absurd (omega (arith, ap length e))
Step-work (add_pending some_sent) e = omega (arith, some_sent)
Step-work (receive w q) e = omega (arith, ap weight w, ap length q)
Step-work (drop_pending w) e = omega (arith, ap weight w)
Step-work (add_running w) e = omega (arith, ap weight w)
Step-work (finish w) e = omega (arith, ap weight w)

-- Whatever the order of the steps, there are as many as there is work.
Drains-work : {n : ℕ} {s t : Service} → Drains n s t → n + work t ≡ work s
Drains-work at_end = omega arith
Drains-work (next st e d) = omega (arith, Step-work st e, Drains-work d)

-- Nothing is left to do.
IsIdle : Service → Type 0
IsIdle s = (s.queue ≡ []) × (s.worker ≡ waiting) × (s.sent ≡ 0)

-- Where something is left to do, a step can be made.
progress : (s : Service) → IsIdle s ⊎ ((t : Service) × Step s t × (t.entered ≡ s.entered))
unfolding IsIdle
progress s = go s.worker s.queue s.sent refl refl refl
  where
    go :
        (w : Worker) (q : List Submission) (n : ℕ)
        → s.worker ≡ w
        → s.queue ≡ q
        → s.sent ≡ n
        → ((s.queue ≡ []) × (s.worker ≡ waiting) × (s.sent ≡ 0))
          ⊎ ((t : Service) × Step s t × (t.entered ≡ s.entered))
    go waiting [] zero w q n = inl (q, w, n)
    go waiting [] (suc k) w q n = inr (_, add_pending n, refl)
    go waiting (sub ∷ rest) k w q n = inr (_, receive w q, refl)
    go (received sub) qs k w q n = inr (_, drop_pending w, refl)
    go (counted sub) qs k w q n = inr (_, add_running w, refl)
    go (judging sub) qs k w q n = inr (_, finish w, refl)

drain : (n : ℕ) (s : Service) → work s ≡ n → (t : Service) × Drains n s t
unfolding IsIdle
drain zero s e = (s, at_end)
drain (suc n) s e = elim (progress s) [
  | inl (q, w, k) ↦ absurd (omega (arith, e, ap length q, ap weight w, k))
  | inr (t, st, same) ↦
      let rest = drain n t (omega (arith, e, Step-work st same)) in (rest.0, next st same rest.1)
]

Drains-Reach : {n : ℕ} {s t : Service} → Reach s → Drains n s t → Reach t
Drains-Reach r at_end = r
Drains-Reach r (next st e d) = Drains-Reach (step r st) d

Drains-entered : {n : ℕ} {s t : Service} → Drains n s t → t.entered ≡ s.entered
Drains-entered at_end = refl
Drains-entered (next st e d) = Drains-entered d ∙ e

weight-zero : (w : Worker) → weight w ≡ 0 → w ≡ waiting
weight-zero waiting h = refl
weight-zero (received sub) h = absurd (omega (arith, h))
weight-zero (counted sub) h = absurd (omega (arith, h))
weight-zero (judging sub) h = absurd (omega (arith, h))

-- The service is at rest, and has judged the submissions `entered`, in their order.
pub record IsSettled (entered : List Submission) (t : Service) : Type 0 where
  pub empty : t.queue ≡ []
  pub idle : t.worker ≡ waiting
  pub pending : t.pending ≡ 0
  pub running : t.running ≡ 0
  pub judged : t.finished ≡ entered

reverse-cancel : (xs ys : List Submission) → reverse xs ≡ reverse ys → xs ≡ ys
reverse-cancel xs ys e = sym (reverse-reverse xs) ∙ (ap reverse e ∙ reverse-reverse ys)

idle-IsSettled : (t : Service) → IsConsistent t → work t ≡ 0 → IsSettled t.entered t
idle-IsSettled t c none_left =
    let q : t.queue ≡ [] = eq-nil_of_length t.queue (omega (arith, none_left)) in
    let w : t.worker ≡ waiting = weight-zero t.worker (omega (arith, none_left)) in
    record {
      empty = q;
      idle = w;
      pending = omega (arith, c.pending, c.pending_word, none_left, ap uncounted w);
      running = c.running ∙ ap is_running w;
      judged = sym (
          reverse-cancel t.entered t.finished (
            c.order
            ∙ ap₂ (λ h r. reverse t.finished ++ (h ++ r)) (ap held w) q
            ∙ append-nil (reverse t.finished)));
    }

-- From every state that the service can reach, if no submission enters any more and the worker goes
-- on: as many steps as there is work can be made; in no order can more be made; and after that many,
-- in any order, the queue is empty, the worker waits, both counters are 0, and all submissions that
-- ever entered have been judged, in their order.
pub queue_settles :
    (s : Service)
    → Reach s
    → ((t : Service) × Drains (work s) s t)
      × ((n : ℕ) (t : Service) → Drains n s t → n ≤ work s)
      × ((t : Service) → Drains (work s) s t → IsSettled s.entered t)
queue_settles s r = (
  drain (work s) s refl,
  λ n t d. omega (arith, Drains-work d),
  λ t d.
      subst (λ e. IsSettled e t) (Drains-entered d)
        (idle-IsSettled t (Reach-IsConsistent (Drains-Reach r d)) (omega (arith, Drains-work d))),
)
