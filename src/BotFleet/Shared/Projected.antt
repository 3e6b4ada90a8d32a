-- ===== src/BotFleet/Shared/Projected.antt =====
-- One bot among those of a fleet, and what the ring buffer and the producer get of all.
use iicpc_distributed_benchm.Base.{
  ℕ, suc, ◌+◌, length-append, ◌≡◌, ◌≤◌, refl, sym, ap, ◌∙◌, ◌==◌, ==_iff, if◌then◌else◌, List, [],
  ◌∷◌, ◌++◌, map, append-nil, Bool-cases, inl, inr, Option, none, some, Option-cases, lookup,
  length, arith,
}
use iicpc_distributed_benchm.Float.{Float64}
use iicpc_distributed_benchm.Trading.{OrderResponse}
use iicpc_distributed_benchm.Telemetry.{Metric}
use iicpc_distributed_benchm.Telemetry.RingBuffer.{RingBuffer, push}
use iicpc_distributed_benchm.Telemetry.RingBuffer.Filled.{push_all}
use iicpc_distributed_benchm.BotFleet.{
  Config, PendingEntry, Bot, new_bot, Event, tick, send_failed, response, record_response, handle,
  on_tick, on_response, on_send_failure, run_bot,
}
use iicpc_distributed_benchm.BotFleet.Fleet.{bot_id}
use iicpc_distributed_benchm.BotFleet.Shared.{
  Bots, new_metrics, metric_for, tagged, set_bot, bots_step, run_bots, new_bots,
}

module _ {A : Type 0} where
  -- What belongs to the bot `j`.
  abbrev pub own : ℕ → List (ℕ × A) → List A
  own j [] = []
  own j ((i, a) ∷ ts) = let rest = own j ts in if i == j then a ∷ rest else rest

  abbrev pub all_of : List (ℕ × A) → List A
  all_of ts = map (λ t. t.1) ts

  pub own-append : (j : ℕ) (ts us : List (ℕ × A)) → own j (ts ++ us) ≡ own j ts ++ own j us
  own-append j [] us = refl
  own-append j ((i, a) ∷ ts) us = elim (Bool-cases (i == j)) [
    | inl e ↦ rw e (ap (◌∷◌ a) (own-append j ts us))
    | inr e ↦ rw e (own-append j ts us)
  ]

  pub length-own : (j : ℕ) (ts : List (ℕ × A)) → length (own j ts) ≤ length ts
  length-own j [] = omega arith
  length-own j ((i, a) ∷ ts) = ground (arith, length-own j ts)

  pub own-tagged :
      (i j : ℕ) (xs : List A) → own j (map (λ a. (i, a)) xs) ≡ (if i == j then xs else [])
  own-tagged i j [] = ground arith
  own-tagged i j (x ∷ xs) = elim (Bool-cases (i == j)) [
    | inl e ↦ rw e (ap (◌∷◌ x) (own-tagged i j xs ∙ rw e refl))
    | inr e ↦ rw e (own-tagged i j xs ∙ rw e refl)
  ]

  pub all_of-tagged : (i : ℕ) (xs : List A) → all_of (map (λ a. (i, a)) xs) ≡ xs
  all_of-tagged i [] = refl
  all_of-tagged i (x ∷ xs) = ap (◌∷◌ x) (all_of-tagged i xs)

  pub all_of-append : (ts us : List (ℕ × A)) → all_of (ts ++ us) ≡ all_of ts ++ all_of us
  all_of-append [] us = refl
  all_of-append (t ∷ ts) us = ap (◌∷◌ t.1) (all_of-append ts us)

  pub push_all-append :
      (r : RingBuffer A) (xs ys : List A) → push_all r (xs ++ ys) ≡ push_all (push_all r xs) ys
  unfolding push_all
  push_all-append r [] ys = refl
  push_all-append r (x ∷ xs) ys = push_all-append (push r x).1 xs ys

module _ (f : Float64) (cfg : Config) where
  record_response-metrics :
      (i : ℕ) (b : Bot f) (resp : OrderResponse f) (recv_ns : ℕ) (o : Option PendingEntry)
      → (record_response f cfg (bot_id i) b resp recv_ns o).metrics
        ≡ b.metrics ++ metric_for f cfg i resp recv_ns o
  record_response-metrics i b resp recv_ns none = sym (append-nil b.metrics)
  record_response-metrics i b resp recv_ns (some entry) = refl

  -- An event adds to the metrics of its bot what it pushes.
  handle-metrics :
      (i : ℕ) (b : Bot f) (e : Event f)
      → (handle f cfg (bot_id i) b e).metrics ≡ b.metrics ++ new_metrics f cfg i b e
  unfolding handle on_tick on_response on_send_failure
  handle-metrics i b (tick draws now sent_ns) = sym (append-nil b.metrics)
  handle-metrics i b (send_failed id) = sym (append-nil b.metrics)
  handle-metrics i b (response resp recv_ns) =
      record_response-metrics i b resp recv_ns (lookup resp.order_id b.pending)

  -- What the events have left, for what was there before: each bot is where its own events took
  -- it, has recorded its own metrics, and the metrics of all were pushed, in their order.
  pub record IsProjected (ring : RingBuffer Metric) (es : List (ℕ × Event f)) (s : Bots f cfg)
      : Type 0 where
    pub bot : (j : ℕ) → s.bot j ≡ run_bot f cfg (bot_id j) (new_bot f) (own j es)
    pub recorded : (j : ℕ) → own j s.recorded ≡ (s.bot j).metrics
    pub ring_eq : s.ring ≡ push_all ring (all_of s.recorded)

  run_bots-bot :
      (es : List (ℕ × Event f)) (s : Bots f cfg) (j : ℕ)
      → (run_bots f cfg s es).bot j ≡ run_bot f cfg (bot_id j) (s.bot j) (own j es)
  unfolding run_bots bots_step run_bot
  run_bots-bot [] s j = refl
  run_bots-bot ((i, e) ∷ es) s j =
      run_bots-bot es (bots_step f cfg s i e) j ∙ elim (Bool-cases (i == j)) [
        | inl same ↦ rw same (
            ap (λ k. run_bot f cfg (bot_id j) (handle f cfg (bot_id k) (s.bot k) e) (own j es))
              ((==_iff i j).0 same))
        | inr other ↦ rw other refl
      ]

  -- What has been recorded, for each bot and in all.
  record IsRecorded (ring : RingBuffer Metric) (s : Bots f cfg) : Type 0 where
    own_metrics : (j : ℕ) → own j s.recorded ≡ (s.bot j).metrics
    pushed : s.ring ≡ push_all ring (all_of s.recorded)

  all_of-recorded :
      (recorded : List (ℕ × Metric)) (i : ℕ) (ms : List Metric)
      → all_of (recorded ++ tagged f cfg i ms) ≡ all_of recorded ++ ms
  all_of-recorded recorded i ms =
      all_of-append recorded (tagged f cfg i ms)
      ∙ ap (λ t. all_of recorded ++ t) (all_of-tagged i ms)

  bots_step-IsRecorded :
      (ring : RingBuffer Metric) (s : Bots f cfg) (i : ℕ) (e : Event f)
      → IsRecorded ring s
      → IsRecorded ring (bots_step f cfg s i e)
  unfolding bots_step
  bots_step-IsRecorded ring s i e inv = record {
    own_metrics = λ j.
        own-append j s.recorded (tagged f cfg i ms)
        ∙ (ap (λ t. own j s.recorded ++ t) (own-tagged i j ms) ∙ at j);
    pushed =
        ap (λ r. push_all r ms) inv.pushed
        ∙ (sym (push_all-append ring (all_of s.recorded) ms)
            ∙ ap (push_all ring) (sym (all_of-recorded s.recorded i ms)));
  }
    where
      ms : List Metric
      ms = new_metrics f cfg i (s.bot i) e

      at :
          (j : ℕ)
          → own j s.recorded ++ (if i == j then ms else [])
            ≡ (set_bot f cfg i (handle f cfg (bot_id i) (s.bot i) e) s.bot j).metrics
      at j = elim (Bool-cases (i == j)) [
        | inl same ↦ rw same (
            ap (λ t. t ++ ms)
              (inv.own_metrics j ∙ ap (λ k. (s.bot k).metrics) (sym ((==_iff i j).0 same)))
            ∙ sym (handle-metrics i (s.bot i) e))
        | inr other ↦ rw other (append-nil (own j s.recorded) ∙ inv.own_metrics j)
      ]

  run_bots-IsRecorded :
      (ring : RingBuffer Metric) (es : List (ℕ × Event f)) (s : Bots f cfg)
      → IsRecorded ring s
      → IsRecorded ring (run_bots f cfg s es)
  unfolding run_bots
  run_bots-IsRecorded ring [] s inv = inv
  run_bots-IsRecorded ring ((i, e) ∷ es) s inv =
      run_bots-IsRecorded ring es _ (bots_step-IsRecorded ring s i e inv)

  new_bots-IsRecorded : (ring : RingBuffer Metric) → IsRecorded ring (new_bots f cfg ring)
  unfolding push_all
  new_bots-IsRecorded ring = record { own_metrics = λ j. refl; pushed = refl }

  pub run_bots-IsProjected :
      (ring : RingBuffer Metric) (es : List (ℕ × Event f))
      → IsProjected ring es (run_bots f cfg (new_bots f cfg ring) es)
  run_bots-IsProjected ring es =
      let inv = run_bots-IsRecorded ring es _ (new_bots-IsRecorded ring) in
      record {
        bot = run_bots-bot es (new_bots f cfg ring);
        recorded = inv.own_metrics;
        ring_eq = inv.pushed;
      }

  length-new_metrics : (i : ℕ) (b : Bot f) (e : Event f) → length (new_metrics f cfg i b e) ≤ 1
  length-new_metrics i b (tick draws now sent_ns) = omega arith
  length-new_metrics i b (send_failed id) = omega arith
  length-new_metrics i b (response resp recv_ns) =
      elim (Option-cases (lookup resp.order_id b.pending)) [
        | inl e ↦ rw e (omega arith)
        | inr (entry, e) ↦ rw e (omega arith)
      ]

  length-all_of : (ts : List (ℕ × Metric)) → length (all_of ts) ≡ length ts
  length-all_of [] = refl
  length-all_of (t ∷ ts) = ap suc (length-all_of ts)

  run_bots-length :
      (es : List (ℕ × Event f)) (s : Bots f cfg)
      → length (run_bots f cfg s es).recorded ≤ length s.recorded + length es
  unfolding run_bots bots_step
  run_bots-length [] s = omega arith
  run_bots-length ((i, e) ∷ es) s =
      let ms = new_metrics f cfg i (s.bot i) e in
      omega (
        arith,
        run_bots-length es (bots_step f cfg s i e),
        length-append s.recorded (tagged f cfg i ms),
        length-all_of (tagged f cfg i ms),
        ap length (all_of-tagged i ms),
        length-new_metrics i (s.bot i) e,
      )

  -- At most one metric an event.
  pub length-recorded :
      (ring : RingBuffer Metric) (es : List (ℕ × Event f))
      → length (all_of (run_bots f cfg (new_bots f cfg ring) es).recorded) ≤ length es
  length-recorded ring es = omega (
    arith,
    length-all_of (run_bots f cfg (new_bots f cfg ring) es).recorded,
    run_bots-length es (new_bots f cfg ring),
  )
