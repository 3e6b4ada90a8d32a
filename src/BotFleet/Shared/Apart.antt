-- ===== src/BotFleet/Shared/Apart.antt =====
-- The metrics of a whole fleet: no order is measured twice.
use iicpc_distributed_benchm.Base.{
  ℕ, ◌≡◌, ◌≢◌, ◌<◌, sym, ap, subst, subst₂, ◌∙◌, ◌==◌, ==_iff, List, [], ◌∷◌, Bool-cases, true,
  false, inl, inr, All, All-map, length, u64_mod, arith,
}
use iicpc_distributed_benchm.Float.{Float64}
use iicpc_distributed_benchm.Telemetry.{Metric}
use iicpc_distributed_benchm.Telemetry.RingBuffer.{RingBuffer}
use iicpc_distributed_benchm.BotFleet.{Config, order_id, Event, new_bot, run_bot}
use iicpc_distributed_benchm.BotFleet.Once.{DistinctIds, IsMeasured, metrics_once}
use iicpc_distributed_benchm.BotFleet.Fleet.{bot_id, order_id_bot}
use iicpc_distributed_benchm.BotFleet.Shared.{Bots, run_bots, new_bots}
use iicpc_distributed_benchm.BotFleet.Shared.Projected.{
  own, all_of, length-own, IsProjected, run_bots-IsProjected,
}

module _ (P : ℕ → Metric → Type 0) where
  own-tail :
      (k i : ℕ) (m : Metric) (ts : List (ℕ × Metric))
      → All (P k) (own k ((i, m) ∷ ts))
      → All (P k) (own k ts)
  own-tail k i m ts h = elim (Bool-cases (i == k)) [ inl e ↦ (rw e at h).1 | inr e ↦ rw e at h ]

  own-head : (i : ℕ) (m : Metric) (ts : List (ℕ × Metric)) → All (P i) (own i ((i, m) ∷ ts)) → P i m
  own-head i m ts h = let e : (i == i) ≡ true = ground arith in (rw e at h).0

  -- What holds of the metrics of each bot holds of all that were recorded.
  All-own : (ts : List (ℕ × Metric)) → ((j : ℕ) → All (P j) (own j ts)) → All (λ t. P t.0 t.1) ts
  All-own [] h = tt
  All-own ((i, m) ∷ ts) h = (own-head i m ts (h i), All-own ts (λ j. own-tail j i m ts (h j)))

-- The metric is of an order of the bot `j`.
abbrev IsOrderOf : ℕ → Metric → Type 0
IsOrderOf j m = (k : ℕ) × (m.order_id ≡ order_id (bot_id j) k)

All-all_of :
    (P : Metric → Type 0) (ts : List (ℕ × Metric)) → All (λ t. P t.1) ts → All P (all_of ts)
All-all_of P [] h = tt
All-all_of P (t ∷ ts) h = (h.0, All-all_of P ts h.1)

apart :
    (i j : ℕ) (m x : Metric)
    → (i == j) ≡ false
    → IsOrderOf i m
    → IsOrderOf j x
    → m.order_id ≢ x.order_id
apart i j m x ne (a, p) (b, q) e =
    absurd (ground (arith, ne, order_id_bot i j a b (sym p ∙ (e ∙ q))))

distinct-tail :
    (k i : ℕ) (m : Metric) (ts : List (ℕ × Metric))
    → DistinctIds (own k ((i, m) ∷ ts))
    → DistinctIds (own k ts)
distinct-tail k i m ts h = elim (Bool-cases (i == k)) [ inl e ↦ (rw e at h).1 | inr e ↦ rw e at h ]

distinct-head :
    (i : ℕ) (m : Metric) (ts : List (ℕ × Metric))
    → DistinctIds (own i ((i, m) ∷ ts))
    → All (λ x. m.order_id ≢ x.order_id) (own i ts)
distinct-head i m ts h = let e : (i == i) ≡ true = ground arith in (rw e at h).0

-- Metrics that are distinct for each bot, each of an order of its bot, are distinct in all.
DistinctIds-own :
    (ts : List (ℕ × Metric))
    → ((j : ℕ) → All (IsOrderOf j) (own j ts))
    → ((j : ℕ) → DistinctIds (own j ts))
    → DistinctIds (all_of ts)
DistinctIds-own [] sent d = tt
DistinctIds-own ((i, m) ∷ ts) sent d = (
  All-all_of (λ x. m.order_id ≢ x.order_id) ts (All-own (λ j x. m.order_id ≢ x.order_id) ts other),
  DistinctIds-own ts (λ j. own-tail IsOrderOf j i m ts (sent j))
      (λ j. distinct-tail j i m ts (d j)),
)
  where
    other : (j : ℕ) → All (λ x. m.order_id ≢ x.order_id) (own j ts)
    other j = elim (Bool-cases (i == j)) [
      | inl same ↦
          subst (λ k. All (λ x. m.order_id ≢ x.order_id) (own k ts)) ((==_iff i j).0 same)
            (distinct-head i m ts (d i))
      | inr ne ↦
          All-map (IsOrderOf j) (λ x. m.order_id ≢ x.order_id) (own j ts)
            (λ x q. apart i j m x ne (own-head IsOrderOf i m ts (sent i)) q)
            (own-tail IsOrderOf j i m ts (sent j))
    ]

module _ (f : Float64) (cfg : Config) where
  -- What the events of a fleet have left, for the ring buffer that they began with.
  pub record IsFleetRun (ring : RingBuffer Metric) (es : List (ℕ × Event f)) (s : Bots f cfg)
      : Type 0 where
    pub projected : IsProjected f cfg ring es s
    pub distinct : DistinctIds (all_of s.recorded)
    pub measured : All (λ t. IsMeasured f cfg (bot_id t.0) (s.bot t.0).seq t.1) s.recorded

  once :
      (es : List (ℕ × Event f)) (j : ℕ)
      → length es < u64_mod
      → let b = run_bot f cfg (bot_id j) (new_bot f) (own j es) in
        DistinctIds b.metrics × All (IsMeasured f cfg (bot_id j) b.seq) b.metrics
  once es j room = metrics_once f cfg (bot_id j) (own j es) (omega (arith, length-own j es))

  -- However fewer than 2^64 events interleave, of the bots of a fleet whose calls of `StreamOrders` have
  -- succeeded: each bot is where its own events alone take it, with the metrics that it records alone;
  -- the ring buffer was pushed the metrics of all bots, and nothing else; no two of them, of one bot or
  -- of two, have the same order id; and each is of an order that its bot built, with an error code
  -- exactly if it is not counted as correct.
  pub run_bots-IsFleetRun :
      (ring : RingBuffer Metric) (es : List (ℕ × Event f))
      → length es < u64_mod
      → IsFleetRun ring es (run_bots f cfg (new_bots f cfg ring) es)
  run_bots-IsFleetRun ring es room = record {
    projected = p;
    distinct =
        DistinctIds-own s.recorded
          (λ j.
            All-map (IsMeasured f cfg (bot_id j) (s.bot j).seq) (IsOrderOf j) (own j s.recorded)
              (λ m k. (k.sent.0, k.sent.2)) (measured j))
          (λ j. subst DistinctIds (sym (alone j)) (once es j room).0);
    measured = All-own (λ j. IsMeasured f cfg (bot_id j) (s.bot j).seq) s.recorded measured;
  }
    where
      s : Bots f cfg
      s = run_bots f cfg (new_bots f cfg ring) es

      p : IsProjected f cfg ring es s
      p = run_bots-IsProjected f cfg ring es

      alone : (j : ℕ) → own j s.recorded ≡ (run_bot f cfg (bot_id j) (new_bot f) (own j es)).metrics
      alone j = p.recorded j ∙ ap (λ b. b.metrics) (p.bot j)

      measured : (j : ℕ) → All (IsMeasured f cfg (bot_id j) (s.bot j).seq) (own j s.recorded)
      measured j =
          subst₂ (λ n zs. All (IsMeasured f cfg (bot_id j) n) zs) (sym (ap (λ b. b.seq) (p.bot j)))
            (sym (alone j)) (once es j room).1
