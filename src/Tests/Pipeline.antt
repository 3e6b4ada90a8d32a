-- ===== src/Tests/Pipeline.antt =====
-- A fleet, the run of the judge that it plays, and the way of its metrics, at concrete inputs.
use mathlib.Core.List.{Perm}
use mathlib.Core.List.Perm
use iicpc_distributed_benchm.Base.{
  ℕ, ◌+◌, ◌≡◌, ◌≤◌, refl, List, [], ◌∷◌, map, true, false, some, Text, text, All, Result, done,
  failed, if◌then◌else◌, insert, decimal, text_eq, get_or, ◌++◌, ◌<◌, append-nil, false, lookup,
  subst, sym, length, take, arith,
}
use iicpc_distributed_benchm.Tests.Instances.{whole, listed, measured}
use iicpc_distributed_benchm.Tests.Judging.{
  sub, config, outside, no_text, dials-Spaced, length-dials,
}
use iicpc_distributed_benchm.Tests.Web.{draws, filled}
use iicpc_distributed_benchm.Tests.Collected.{settings}
use iicpc_distributed_benchm.Telemetry.{Metric}
use iicpc_distributed_benchm.Telemetry.RingBuffer.{RingBuffer, new_ring_buffer}
use iicpc_distributed_benchm.Ingest.{default_scoring_params}
use iicpc_distributed_benchm.Ingester.{Event, arrival, cancelled, start_collector, run_collector}
use iicpc_distributed_benchm.Ingester.Batches.{received}
use iicpc_distributed_benchm.Ingester.Rounds.{IsTimed}
use iicpc_distributed_benchm.Ingester.Collected.{all_inserted}
use iicpc_distributed_benchm.Ingester.Worker.{run_worker, Fetch, fetched, fetch_error}
use iicpc_distributed_benchm.Ingester.Delivered.{all_sent, delivered}
use iicpc_distributed_benchm.Store.{Row, row, ContestantStats}
use iicpc_distributed_benchm.Store.RunStats.{Sql, query_run_stats, after_inserts}
use iicpc_distributed_benchm.Store.RunStats.Inserted.{IsRunStats}
use iicpc_distributed_benchm.LeaderboardApi.Handlers.{json_value, run_stats}
use iicpc_distributed_benchm.LeaderboardApi.RunShown.{run_stats-recorded}
use iicpc_distributed_benchm.Judge.Engine.{Outside, Finished, run}
use iicpc_distributed_benchm.Judge.Engine.Scored.{Scored}
use iicpc_distributed_benchm.Judge.Engine.Played.{bot_config, played, run-played}
use iicpc_distributed_benchm.BotFleet
use iicpc_distributed_benchm.BotFleet.{tick, response, handle, build_order, order_id}
use iicpc_distributed_benchm.BotFleet.Fleet.{bot_id}
use iicpc_distributed_benchm.BotFleet.Once.{DistinctIds}
use iicpc_distributed_benchm.BotFleet.Shared.{publish, run_bots, bots_step, new_bots}
use iicpc_distributed_benchm.BotFleet.Shared.Projected.{all_of}
use iicpc_distributed_benchm.BotFleet.Shared.Apart.{IsFleetRun, run_bots-IsFleetRun}

-- Both bots send an order, and the first has a response.
abbrev events : List (ℕ × BotFleet.Event whole)
events = (0, tick draws 10 20) ∷ (1, tick draws 11 21) ∷ (0, response filled 30) ∷ []

abbrev fleet : BotFleet.Config
fleet = bot_config whole config sub outside (text "127.0.0.1:50051")

abbrev ring : RingBuffer Metric
ring = new_ring_buffer (measured 0 0) 4

abbrev marshal : Metric → Text
marshal m = m.order_id

run_bots-IsFleetRun_example :
    IsFleetRun whole fleet ring events (run_bots whole fleet (new_bots whole fleet ring) events)
run_bots-IsFleetRun_example = run_bots-IsFleetRun whole fleet ring events (omega arith)

abbrev address : Text
address = text "127.0.0.1:50051"

-- The ring buffer of `Run` is what the events have left.
abbrev outside_played : Outside whole
outside_played = record outside {
  ring_buffer = (played whole config sub outside address events).ring;
}

run-played_example :
    let ms = all_of (played whole config sub outside_played address events).recorded in
    ((fin : Finished whole) × (run whole config sub outside_played no_text ≡ some fin)
      × Scored whole config sub outside_played (take 500_000 ms) fin)
    × DistinctIds ms
    × (length ms ≤ length events)
run-played_example =
    run-played whole config sub outside_played no_text address events
      (omega arith, dials-Spaced 40 (6 + 300_000_000))
      (omega (arith, length-dials 40 (6 + 300_000_000))) (omega arith) refl

-- What the bots have recorded.
abbrev recorded : List Metric
recorded = all_of (run_bots whole fleet (new_bots whole fleet ring) events).recorded

abbrev metric : Metric
metric = get_or recorded 0 (measured 0 0)

abbrev unmarshal : Text → Result Metric
unmarshal t = if text_eq t (text "bot-1-1") then done metric else failed (text "not a metric")

-- One worker meets an error and then the message, another one nothing.
abbrev workers : List (List Fetch)
workers = (fetch_error (text "timeout") false ∷ fetched (text "bot-1-1") 7 false ∷ []) ∷ [] ∷ []

abbrev collected : List (Event whole listed)
collected =
    arrival (record { rec = metric; msg = 7 }) false 1 (done 1)
    ∷ cancelled 4 (failed (text "closed"))
    ∷ []

unmarshal-marshal : All (λ m. unmarshal (marshal m) ≡ done m) recorded
unfolding run_bots bots_step handle lookup insert text_eq build_order order_id bot_id decimal
unmarshal-marshal = (refl, tt)

recorded_value :
    map (λ k. k.value) (publish whole fleet marshal true recorded) ≡ text "bot-1-1" ∷ []
unfolding run_bots bots_step handle lookup insert text_eq build_order order_id bot_id decimal
recorded_value = refl

sent : all_sent unmarshal workers ≡ record { rec = metric; msg = 7 } ∷ []
unfolding run_worker text_eq
sent = refl

metric-IsTimed : IsTimed metric
unfolding run_bots bots_step handle lookup insert text_eq build_order order_id bot_id decimal
metric-IsTimed = omega arith

delivered_example :
    Perm
      (all_inserted whole listed
        (run_collector whole listed settings
          (start_collector whole listed settings 0 (default_scoring_params whole))
          collected).0)
      recorded
delivered_example =
    delivered whole listed settings (default_scoring_params whole) fleet marshal unmarshal ring
      events workers 0 collected unmarshal-marshal
      (subst (Perm (text "bot-1-1" ∷ [])) (sym recorded_value) Perm.rfl)
      ((refl, (refl, tt)), (tt, tt))
      (subst (Perm (received whole listed collected)) (sym sent) Perm.rfl) (metric-IsTimed, tt) refl

-- Integers only, and the group of the first row.
abbrev sql : Sql whole
sql = record {
  percentile_cont = λ q latencies. get_or latencies 0 0;
  avg = λ xs. get_or xs 0 0;
  round_to = λ x digits. x;
}

abbrev pick : Row → List Row → Text
pick r rs = r.contestant_id

-- A row of another run.
abbrev table : List Row
table = row 1 (measured 1000 9000) ∷ []

recorded-nonempty : 0 < length recorded
unfolding run_bots bots_step handle lookup insert text_eq build_order order_id bot_id decimal
recorded-nonempty = omega arith

other_run : text_eq (text "run") fleet.test_run_id ≡ false
unfolding text_eq
other_run = refl

run_stats-recorded_example :
    (s : ContestantStats whole) × (run_stats whole
        (query_run_stats whole sql pick (after_inserts table ((5, recorded) ∷ (6, []) ∷ [])))
        true
        (text "GET")
        (text "/runs/" ++ fleet.test_run_id ++ text "/stats")
      ≡ json_value s)
    × IsRunStats whole sql pick fleet.contestant_id recorded s
run_stats-recorded_example =
    run_stats-recorded whole fleet sql pick ring events table ((5, recorded) ∷ (6, []) ∷ [])
      (λ r rs. (0, r, refl, refl)) (other_run, tt) recorded-nonempty
      (subst (λ ms. Perm ms recorded) (sym (append-nil recorded)) Perm.rfl)
