-- ===== src/LeaderboardApi/RunShown.antt =====
-- From the bots of a fleet through the time series store to the statistics of their run.
use mathlib.Core.List.{Perm}
use iicpc_distributed_benchm.Base.{
  ℕ, ◌<◌, ◌≡◌, refl, ap, ◌∙◌, List, [], ◌∷◌, ◌++◌, true, false, Option, none, some, Text, text,
  text_eq, All, length, get_or, lookup, done, arith,
}
use iicpc_distributed_benchm.Float.{Float64}
use iicpc_distributed_benchm.Trading.{OrderResponse}
use iicpc_distributed_benchm.Telemetry.{Metric}
use iicpc_distributed_benchm.Telemetry.RingBuffer.{RingBuffer}
use iicpc_distributed_benchm.BotFleet.{
  Config, PendingEntry, Bot, Event, tick, send_failed, response,
}
use iicpc_distributed_benchm.BotFleet.Shared.{
  Bots, metric_for, new_metrics, tagged, bots_step, run_bots, new_bots,
}
use iicpc_distributed_benchm.BotFleet.Shared.Projected.{all_of}
use iicpc_distributed_benchm.Store.{Row, ContestantStats}
use iicpc_distributed_benchm.Store.RunStats.{Sql, query_run_stats, after_inserts, records_of}
use iicpc_distributed_benchm.Store.RunStats.Inserted.{
  IsRunStats, PicksOne, query_run_stats-inserted,
}
use iicpc_distributed_benchm.LeaderboardApi.Handlers.{json_value, answer, run_stats}
use iicpc_distributed_benchm.LeaderboardApi.Handlers.Routes.{routes}

module _ (f : Float64) (cfg : Config) where
  -- The metric has the ids of the fleet.
  abbrev pub HasIds : Metric → Type 0
  HasIds m = (m.test_run_id ≡ cfg.test_run_id) × (m.contestant_id ≡ cfg.contestant_id)

  metric_for-HasIds :
      (i : ℕ) (resp : OrderResponse f) (recv_ns : ℕ) (o : Option PendingEntry)
      → All HasIds (metric_for f cfg i resp recv_ns o)
  metric_for-HasIds i resp recv_ns none = tt
  metric_for-HasIds i resp recv_ns (some entry) = ((refl, refl), tt)

  new_metrics-HasIds : (i : ℕ) (b : Bot f) (e : Event f) → All HasIds (new_metrics f cfg i b e)
  new_metrics-HasIds i b (tick draws now sent_ns) = tt
  new_metrics-HasIds i b (send_failed id) = tt
  new_metrics-HasIds i b (response resp recv_ns) =
      metric_for-HasIds i resp recv_ns (lookup resp.order_id b.pending)

  recorded-HasIds :
      (recorded : List (ℕ × Metric)) (i : ℕ) (ms : List Metric)
      → All HasIds (all_of recorded)
      → All HasIds ms
      → All HasIds (all_of (recorded ++ tagged f cfg i ms))
  recorded-HasIds [] i [] h h' = tt
  recorded-HasIds [] i (m ∷ ms) h h' = (h'.0, recorded-HasIds [] i ms h h'.1)
  recorded-HasIds (t ∷ recorded) i ms h h' = (h.0, recorded-HasIds recorded i ms h.1 h')

  run_bots-HasIds :
      (es : List (ℕ × Event f)) (s : Bots f cfg)
      → All HasIds (all_of s.recorded)
      → All HasIds (all_of (run_bots f cfg s es).recorded)
  unfolding run_bots bots_step
  run_bots-HasIds [] s h = h
  run_bots-HasIds ((i, e) ∷ es) s h = run_bots-HasIds es (bots_step f cfg s i e) (
      recorded-HasIds s.recorded i (new_metrics f cfg i (s.bot i) e) h
        (new_metrics-HasIds i (s.bot i) e))

  -- If the bots of a fleet, in any interleaving, have recorded a metric, and the batches that the
  -- ingester has inserted hold exactly the metrics of all bots, each once, in some order, into a table
  -- without rows of the run: then `/runs/{id}/stats` answers with statistics of the contestant, with
  -- the number of these metrics, of the correct ones, and the quantiles, the minimum and the maximum
  -- of their latencies.
  pub run_stats-recorded :
      (sql : Sql f) (pick : Row → List Row → Text) (ring : RingBuffer Metric)
      (es : List (ℕ × Event f)) (table : List Row) (batches : List (ℕ × List Metric))
      → let ms = all_of (run_bots f cfg (new_bots f cfg ring) es).recorded in
        PicksOne f sql pick
        → All (λ r. text_eq r.test_run_id cfg.test_run_id ≡ false) table
        → 0 < length ms
        → Perm (records_of batches) ms
        → (s : ContestantStats f) × (run_stats f
              (query_run_stats f sql pick (after_inserts table batches))
              true
              (text "GET")
              (text "/runs/" ++ cfg.test_run_id ++ text "/stats")
            ≡ json_value s)
          × IsRunStats f sql pick cfg.contestant_id ms s
  run_stats-recorded sql pick ring es table batches picks others some_metric perm =
      let start = new_bots f cfg ring in
      let query = query_run_stats f sql pick (after_inserts table batches) in
      let (s, e, stats) =
        query_run_stats-inserted f sql pick table batches cfg.test_run_id cfg.contestant_id _ picks
          others (run_bots-HasIds es start tt) some_metric perm in
      let route =
        routes f (text "GET") [] cfg.test_run_id [] (λ cid hours. done ([], none)) query
          (λ same. omega (arith, ap (λ t. get_or t 0 0) same)) tt in
      (s, route.1 ∙ ap answer e, stats)
