-- ===== src/BotFleet/Shared.antt =====
-- The bots of a fleet whose calls of `StreamOrders` have succeeded, which run at once: their events in
-- the order in which they happen, each with the number of its bot. They share the ring buffer. A metric
-- is recorded and pushed in one step, at the place of its `Push`: what comes before the `Push` is the
-- bot's own. Telemetry/RingBuffer/Race.antt has the calls of `Push` that overlap.
pub mod Projected
pub mod Apart
use iicpc_distributed_benchm.Base.{
  ℕ, ◌==◌, if◌then◌else◌, List, [], ◌∷◌, ◌++◌, map, Bool, Option, none, some, Text, lookup,
}
use iicpc_distributed_benchm.Float.{Float64}
use iicpc_distributed_benchm.Trading.{OrderResponse}
use iicpc_distributed_benchm.Telemetry.{Metric}
use iicpc_distributed_benchm.Telemetry.RingBuffer.{RingBuffer}
use iicpc_distributed_benchm.Telemetry.RingBuffer.Filled.{push_all}
use iicpc_distributed_benchm.Kafka.{Message, message}
use iicpc_distributed_benchm.BotFleet.{
  Config, PendingEntry, Bot, new_bot, Event, tick, send_failed, response, metric_of, handle,
}
use iicpc_distributed_benchm.BotFleet.Fleet.{bot_id}

module _ (f : Float64) (cfg : Config) where
  -- What the receiving goroutine pushes and publishes for a response.
  abbrev pub metric_for : ℕ → OrderResponse f → ℕ → Option PendingEntry → List Metric
  metric_for i resp recv_ns none = []
  metric_for i resp recv_ns (some entry) = metric_of f cfg (bot_id i) entry resp recv_ns ∷ []

  abbrev pub new_metrics : ℕ → Bot f → Event f → List Metric
  new_metrics i b (tick draws now sent_ns) = []
  new_metrics i b (send_failed id) = []
  new_metrics i b (response resp recv_ns) =
      metric_for i resp recv_ns (lookup resp.order_id b.pending)

  -- The bots, the metrics that they have pushed, each with the number of its bot, and the ring buffer.
  pub record Bots : Type 0 where
    pub bot : ℕ → Bot f
    pub recorded : List (ℕ × Metric)
    pub ring : RingBuffer Metric

  abbrev pub tagged : ℕ → List Metric → List (ℕ × Metric)
  tagged i ms = map (λ m. (i, m)) ms

  -- `publishMetric` of each, if there is a producer; `marshal` is that of package proto. A bot
  -- publishes after its `Push`, at the same time as others, to a producer that sends later: the order
  -- of the messages of a fleet is not given.
  abbrev pub publish : (Metric → Text) → Bool → List Metric → List Message
  publish marshal has_producer ms =
      if has_producer then map (λ m. message cfg.contestant_id (marshal m)) ms else []

  abbrev pub set_bot : ℕ → Bot f → (ℕ → Bot f) → ℕ → Bot f
  set_bot i b bots j = if i == j then b else bots j

  -- An event of the bot `i`, up to the `Push` of its metric, if it has one: between the deletion from
  -- `pending` and the `Push`, the receiving goroutine touches nothing that another one does.
  unfoldable pub bots_step : Bots → ℕ → Event f → Bots
  bots_step s i e =
      let ms = new_metrics i (s.bot i) e in
      record {
        bot = set_bot i (handle f cfg (bot_id i) (s.bot i) e) s.bot;
        recorded = s.recorded ++ tagged i ms;
        ring = push_all s.ring ms;
      }

  unfoldable pub run_bots : Bots → List (ℕ × Event f) → Bots
  run_bots s [] = s
  run_bots s ((i, e) ∷ es) = run_bots (bots_step s i e) es

  -- The fleet before its first order, with the ring buffer of the caller of `Run`.
  abbrev pub new_bots : RingBuffer Metric → Bots
  new_bots ring = record { bot = λ i. new_bot f; recorded = []; ring = ring }
