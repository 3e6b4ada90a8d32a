-- ===== src/Tests/Web.antt =====
-- The servers and the fleet at concrete inputs.
use iicpc_distributed_benchm.Base.{
  ℕ, ◌≡◌, ◌≤◌, ◌<◌, ◌↔◌, ap, List, [], ◌∷◌, ◌++◌, map, true, false, Option, none, some, Text, text,
  All, Result, done, failed, decimal, get_or, length, arith,
}
use iicpc_distributed_benchm.Tests.Instances.{whole}
use iicpc_distributed_benchm.Config.{is_empty}
use iicpc_distributed_benchm.Trading.{OrderResponse}
use iicpc_distributed_benchm.Store.{ContestantStats, history_hours, query_history}
use iicpc_distributed_benchm.BotFleet.{Config, Draws}
use iicpc_distributed_benchm.BotFleet.Unary.{
  Round, run_bot_any, answered_right, numbered, run_bot_unary_lem,
}
use iicpc_distributed_benchm.BotFleet.Fleet.{
  Fleet, with_defaults, run_fleet, interval, with_defaults-bounds,
}
use iicpc_distributed_benchm.LeaderboardApi.Parameters.{
  parse_limit, parse_hours, parameters_bounded,
}
use iicpc_distributed_benchm.LeaderboardApi.Handlers.{answer, Objects, history, run_stats}
use iicpc_distributed_benchm.LeaderboardApi.Handlers.Routes.{NoSlash, routes}
use iicpc_distributed_benchm.JudgeApi.Handlers.{json_resp, clear_runs}
use iicpc_distributed_benchm.JudgeApi.Handlers.Scans.{
  concat, NonEmpty, pages_of, clear_runs-deletes,
}

-- Objects that are the texts of their fields.
abbrev pub objects : Objects
objects = record { Obj = Text; decode = λ t. done t; set_field = λ key value o. key ++ value ++ o }

parameters_bounded_example :
    (1 ≤ parse_limit (text "-3"))
    × (parse_limit (text "-3") ≤ 1000)
    × (1 ≤ history_hours (parse_hours (text "-3")))
    × (history_hours (parse_hours (text "-3")) ≤ 168)
    × (1 ≤ 24 → 24 ≤ 1000 → parse_limit (decimal 24) ≡ 24)
    × (1 ≤ 24 → 24 ≤ 168 → history_hours (parse_hours (decimal 24)) ≡ 24)
parameters_bounded_example = parameters_bounded (text "-3") 24

clear_runs-deletes_example :
    let pages = pages_of (((text "run:1" ∷ []), 7) ∷ ([], 9) ∷ []) (text "run:2" ∷ []) in
    ((clear_runs pages (pages_of [] [])).0 ≡ some (json_resp 200 (text "runs cleared")))
    × (concat (clear_runs pages (pages_of [] [])).1 ≡ text "run:1" ∷ text "run:2" ∷ [])
    × All NonEmpty (clear_runs pages (pages_of [] [])).1
clear_runs-deletes_example =
    clear_runs-deletes (((text "run:1" ∷ []), 7) ∷ ([], 9) ∷ []) [] (text "run:2" ∷ []) []
      ((λ e. omega (arith, e)), ((λ e. omega (arith, e)), tt)) tt

abbrev down : Text → ℕ → Result (List (Result (ContestantStats whole)) × Option Text)
down cid hours = failed (text "down")

abbrev down_run : Text → Result (ContestantStats whole)
down_run run_id = failed (text "down")

alice-NoSlash : NoSlash (text "alice")
alice-NoSlash = (omega arith, (omega arith, (omega arith, (omega arith, (omega arith, tt)))))

routes_example :
    (history whole down true (text "GET") (text "/contestants/alice/history") (text "3")
      ≡ answer (query_history whole down (text "alice") (parse_hours (text "3"))))
    × (run_stats whole down_run true (text "GET") (text "/runs/alice/7/stats")
        ≡ answer (down_run (text "alice/7")))
routes_example =
    routes whole (text "GET") (text "alice") (text "alice/7") (text "3") down down_run
      (λ e. omega (arith, ap (λ t. get_or t 0 0) e)) alice-NoSlash

abbrev fleet : Fleet
fleet = record {
  target_addr = text "127.0.0.1:50051";
  bot_count = 2;
  orders_per_sec = 0;
  duration = 0;
  symbol = [];
  kafka_brokers = text "localhost:9092" ∷ [];
  kafka_topic = [];
}

with_defaults-bounds_example :
    let c = with_defaults fleet in
    (0 < c.bot_count)
    × (0 < c.duration)
    × (is_empty c.symbol ≡ false)
    × ((0 < interval c) ↔ (fleet.orders_per_sec ≤ 1_000_000_000))
    × ((bots : List Text) × (run_fleet fleet none ≡ done bots) × (length bots ≡ c.bot_count))
with_defaults-bounds_example = with_defaults-bounds fleet

abbrev config : Config
config = record { test_run_id = text "run"; contestant_id = text "alice"; symbol = text "AAPL" }

abbrev pub draws : Draws whole
draws = record { coin = 1; roll = 2; unit = 0; size = 4 }

abbrev round : Result (OrderResponse whole) → Round whole
round reply = record { draws = draws; now = 10; sent_ns = 20; reply = reply; recv_ns = 30 }

abbrev pub filled : OrderResponse whole
filled = record {
  order_id = text "bot-1-1";
  client_id = text "bot-1";
  symbol = text "AAPL";
  status = text "FILLED";
  execution_price = 100;
  filled_quantity = 5;
  timestamp_ns = 25;
}

run_bot_unary_lem_example :
    let rs = round (done filled) ∷ round (failed (text "deadline")) ∷ [] in
    (map
        (λ m. m.order_id)
        (run_bot_any whole config (text "bot-1") (some (text "unimplemented")) [] rs)
      ≡ numbered whole config (text "bot-1") 0 2)
    × (map
          (λ m. m.is_correct)
          (run_bot_any whole config (text "bot-1") (some (text "unimplemented")) [] rs)
        ≡ map (answered_right whole config (text "bot-1")) rs)
run_bot_unary_lem_example =
    run_bot_unary_lem whole config (text "bot-1") (text "unimplemented") []
      (round (done filled) ∷ round (failed (text "deadline")) ∷ []) (omega arith)
