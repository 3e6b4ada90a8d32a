-- ===== src/BotFleet/Consumer.antt =====
-- `consumeMetrics` of cmd/bot_fleet/main.go: once a second it empties the ring buffer into the
-- statistics and prints them. `drained` grows by one a metric here, by one batch at a time there; it
-- is read after the loop only.
use mathlib.Core.List.{foldl}
use iicpc_distributed_benchm.Base.{
  ℕ, zero, suc, ◌+◌, ◌-◌, ◌/◌, ◌≤◌, ◌<◌, ◌≡◌, refl, ap, ◌∙◌, leb, ◌==◌, if◌then◌else◌, List, [],
  ◌∷◌, Option, none, some, Bool, Bool-cases, inl, inr, length, add64, u64_mod, arith,
}
use iicpc_distributed_benchm.Float.{Float64}
use iicpc_distributed_benchm.Telemetry.{Metric}
use iicpc_distributed_benchm.Telemetry.RingBuffer.{RingBuffer}
use iicpc_distributed_benchm.Telemetry.RingBuffer.Inv.{IsValid}
use iicpc_distributed_benchm.Telemetry.RingBuffer.Window.{contents}
use iicpc_distributed_benchm.Telemetry.RingBuffer.Refine.{length-contents}
use iicpc_distributed_benchm.Telemetry.Fed.{pushed, fed, length-fed, fed_loop, fed_loop_lem}
use iicpc_distributed_benchm.Telemetry.Stats.{
  Stats, reset, add_latency, add_latencies, avg_latency_ns,
}
use iicpc_distributed_benchm.Telemetry.Stats.Extremes.{Summary, reset-add_latencies}

-- What is printed when something was drained; the times are microseconds.
pub record Line : Type 0 where
  pub drained : ℕ
  pub min_us : ℕ
  pub avg_us : ℕ
  pub max_us : ℕ

module _ (f : Float64) where
  -- The variables of one tick.
  pub record Consumed : Type 0 where
    pub stats : Stats f
    pub drained : ℕ

  abbrev pub add_if : Bool → Stats f → ℕ → Stats f
  add_if forward s lat_ns = let added = add_latency f s lat_ns in if forward then added else s

  -- The body of the inner loop.
  unfoldable pub consume_metric : Consumed → Metric → Consumed
  consume_metric c m = record {
    stats = add_if (leb m.sent_time_ns m.recv_time_ns) c.stats (m.recv_time_ns - m.sent_time_ns);
    drained = add64 c.drained 1;
  }

  -- The line of a tick; none is the line without statistics.
  abbrev pub line_of : Consumed → Option Line
  line_of c =
      if c.drained == 0
      then none
      else some (record {
        drained = c.drained;
        min_us = c.stats.min_latency_ns / 1000;
        avg_us = avg_latency_ns f c.stats / 1000;
        max_us = c.stats.max_latency_ns / 1000;
      })

  abbrev pub finish_tick :
      Option (Consumed × RingBuffer Metric) → Option (Option Line × Stats f × RingBuffer Metric)
  finish_tick none = none
  finish_tick (some (c, rb)) = some (line_of c, c.stats, rb)

  -- One tick, with the statistics and the batch that the tick before has left. The bots go on pushing:
  -- `rounds` has the metrics pushed before each `PopInto` since the one before, and after them nothing
  -- is pushed. A `Push` that overlaps a `PopInto` is in Telemetry/RingBuffer/Race.antt.
  unfoldable pub consume_tick :
      Stats f
      → List Metric
      → List (List Metric)
      → RingBuffer Metric
      → Option (Option Line × Stats f × RingBuffer Metric)
  consume_tick s batch rounds rb = finish_tick (
      fed_loop consume_metric (rb.size + 1 + 1) rounds rb batch
        (record { stats = reset f s; drained = 0 }))

  -- The latencies of the metrics whose clock did not go back.
  abbrev pub latencies_ns : List Metric → List ℕ
  latencies_ns [] = []
  latencies_ns (m ∷ ms) =
      if leb m.sent_time_ns m.recv_time_ns
      then (m.recv_time_ns - m.sent_time_ns) ∷ latencies_ns ms
      else latencies_ns ms

  length-latencies_ns : (ms : List Metric) → length (latencies_ns ms) ≤ length ms
  length-latencies_ns [] = omega arith
  length-latencies_ns (m ∷ ms) = ground (arith, length-latencies_ns ms)

  Consumed-eq :
      {s t : Stats f} {n k : ℕ}
      → s ≡ t
      → n ≡ k
      → ◌≡◌ {A = Consumed} (record { stats = s; drained = n }) (record { stats = t; drained = k })
  Consumed-eq p q = λ i. record { stats = p i; drained = q i }

  foldl-consume_metric :
      (ms : List Metric) (s : Stats f) (n : ℕ)
      → n + length ms < u64_mod
      → foldl consume_metric (record { stats = s; drained = n }) ms
        ≡ record { stats = add_latencies f s (latencies_ns ms); drained = n + length ms }
  unfolding consume_metric
  foldl-consume_metric [] s n room = Consumed-eq refl (omega arith)
  foldl-consume_metric (m ∷ ms) s n room =
      let next : add64 n 1 ≡ n + 1 = omega arith in
      elim (Bool-cases (leb m.sent_time_ns m.recv_time_ns)) [
        | inl forward ↦
            rw (forward, next)
              (foldl-consume_metric ms _ (n + 1) (omega arith) ∙ Consumed-eq refl (omega arith))
        | inr back ↦
            rw (back, next)
              (foldl-consume_metric ms s (n + 1) (omega arith) ∙ Consumed-eq refl (omega arith))
      ]

  -- The statistics of the latencies: without one, those after `Reset`.
  abbrev pub IsSummary : List ℕ → Stats f → Type 0
  IsSummary [] t = t.count ≡ 0
  IsSummary (x ∷ xs) t = Summary f (x ∷ xs) t

  reset-IsSummary :
      (s : Stats f) (xs : List ℕ)
      → length xs < u64_mod
      → IsSummary xs (add_latencies f (reset f s) xs)
  unfolding reset
  reset-IsSummary s [] room = refl
  reset-IsSummary s (x ∷ xs) room = (reset-add_latencies f s x xs room).0

  -- The line for `n` metrics with the statistics `t`.
  abbrev pub printed_line : ℕ → Stats f → Option Line
  printed_line zero t = none
  printed_line (suc n) t = some (record {
    drained = suc n;
    min_us = t.min_latency_ns / 1000;
    avg_us = avg_latency_ns f t / 1000;
    max_us = t.max_latency_ns / 1000;
  })

  line_of-eq :
      (n : ℕ) (t : Stats f) → line_of (record { stats = t; drained = n }) ≡ printed_line n t
  line_of-eq zero t = refl
  line_of-eq (suc n) t = ground arith

  -- What a tick has done that took out the metrics `taken`.
  pub record IsTicked (taken : List Metric)
      (out : Option (Option Line × Stats f × RingBuffer Metric)) : Type 0 where
    pub stats : Stats f
    pub last : RingBuffer Metric
    pub printed : out ≡ some (printed_line (length taken) stats, stats, last)
    pub summary : IsSummary (latencies_ns taken) stats
    pub emptied : contents last ≡ []
    pub valid : IsValid last

  -- With any valid buffer, any statistics from before and a batch with room, while the bots push any
  -- metrics between the calls of `PopInto`, each `Push` before or after each of them, and fewer than
  -- 2^64 over the life of the buffer: once the pushes stop, the tick ends with the last `PopInto` on an
  -- empty buffer. It has taken what a loop over a bounded queue takes (`fed`): the stored metrics, and
  -- then those pushed, in order, as far as the queue has room when they come. It prints their number
  -- (without statistics, if there are none) and the statistics of exactly the latencies of those whose
  -- clock did not go back.
  pub consume_tick-IsTicked :
      (s : Stats f) (batch : List Metric) (rounds : List (List Metric)) (rb : RingBuffer Metric)
      → 0 < length batch
      → IsValid rb
      → rb.write + pushed rounds < u64_mod
      → IsTicked (fed rb.size (length batch) (contents rb) rounds) (consume_tick s batch rounds rb)
  unfolding consume_tick
  consume_tick-IsTicked s batch rounds rb some_room v room =
      let taken : List Metric = fed rb.size (length batch) (contents rb) rounds in
      let small : length taken < u64_mod =
        omega (
          arith,
          length-fed rb.size (length batch) rounds (contents rb),
          length-contents v,
          room,
        ) in
      let start : Consumed = record { stats = reset f s; drained = 0 } in
      let enough : rb.size < rb.size + 1 + 1 = omega arith in
      let d =
        fed_loop_lem consume_metric (rb.size + 1 + 1) rounds rb batch start v some_room enough
          room in
      let few : length (latencies_ns taken) < u64_mod =
        omega (arith, length-latencies_ns taken, small) in
      let total =
        foldl-consume_metric taken (reset f s) 0 (omega (arith, small))
        ∙ Consumed-eq refl (omega arith) in
      let stats : Stats f = add_latencies f (reset f s) (latencies_ns taken) in
      record {
        stats = stats;
        last = d.last;
        printed =
            ap finish_tick (d.result ∙ ap (λ c. some (c, d.last)) total)
            ∙ ap (λ l. some (l, stats, d.last)) (line_of-eq (length taken) stats);
        summary = reset-IsSummary s (latencies_ns taken) few;
        emptied = d.emptied;
        valid = d.valid;
      }
