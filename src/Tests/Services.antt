-- ===== src/Tests/Services.antt =====
-- The services at concrete inputs.
use iicpc_distributed_benchm.Base.{
  ◌^◌, ◌*◌, ◌%◌, ◌≡◌, ◌≢◌, refl, List, [], ◌∷◌, ◌++◌, true, false, some, text, All, arith, decimal,
}
use iicpc_distributed_benchm.Tests.Instances.{whole}
use iicpc_distributed_benchm.Trading.{OrderResponse}
use iicpc_distributed_benchm.Matcher.{place_order}
use iicpc_distributed_benchm.BotFleet.{
  Config, Draws, Event, tick, response, new_bot, run_bot, build_order, status_is_correct,
}
use iicpc_distributed_benchm.BotFleet.Once.{DistinctIds, IsMeasured, metrics_once}
use iicpc_distributed_benchm.BotFleet.Orders.{InRange, place_order-build_order}
use iicpc_distributed_benchm.Config.{brokers_from_csv, split_csv}
use iicpc_distributed_benchm.Config.Lists.{
  IsName, IsPart, IsKeptPart, join, parsers-join, parsers_clean,
}
use iicpc_distributed_benchm.Sandbox.Size.{size, parse_bytes}
use iicpc_distributed_benchm.Sandbox.Size.Parse.{parse_bytes-decimal}

abbrev bot_config : Config
bot_config = record { test_run_id = text "run"; contestant_id = text "alice"; symbol = text "AAPL" }

abbrev draws : Draws whole
draws = record { coin = 1; roll = 9; unit = 0; size = 4 }

draws-InRange : InRange draws
draws-InRange = record { coin = omega arith; roll = omega arith; size = omega arith }

abbrev rejection : OrderResponse whole
rejection = record {
  order_id = text "bot-1-1";
  client_id = text "bot-1";
  symbol = text "AAPL";
  status = text "REJECTED";
  execution_price = 0;
  filled_quantity = 0;
  timestamp_ns = 30;
}

-- An order, its response, and the same response again.
abbrev events : List (Event whole)
events = tick draws 10 20 ∷ response rejection 40 ∷ response rejection 50 ∷ []

metrics_once_example :
    let b = run_bot whole bot_config (text "bot-1") (new_bot whole) events in
    DistinctIds b.metrics × All (IsMeasured whole bot_config (text "bot-1") b.seq) b.metrics
metrics_once_example = metrics_once whole bot_config (text "bot-1") events (omega arith)

place_order-build_order_example :
    let (req, is_cancel) = build_order whole (text "bot-1") 7 (text "AAPL") draws 20 in
    (resp : OrderResponse whole) × (place_order whole false 0 30 req ≡ some resp)
    × (status_is_correct is_cancel resp.status ≡ true)
    × (resp.order_id ≡ req.order_id)
    × (resp.filled_quantity ≡ req.quantity)
place_order-build_order_example =
    place_order-build_order whole (text "bot-1") 7 (text "AAPL") draws 20 0 30 refl refl

k1-IsName : IsName (text "k1")
k1-IsName = record {
  nonempty = refl;
  plain = (((refl, refl), omega arith), (((refl, refl), omega arith), tt));
}

parsers-join_example :
    (brokers_from_csv (join (text "k1" ∷ text "k1" ∷ [])) ≡ text "k1" ∷ text "k1" ∷ [])
    × (split_csv (join (text "k1" ∷ text "k1" ∷ [])) ≡ text "k1" ∷ text "k1" ∷ [])
parsers-join_example = parsers-join (text "k1") (text "k1" ∷ []) (k1-IsName, (k1-IsName, tt))

parsers_clean_example :
    All IsPart (brokers_from_csv (text "a,"))
    × (split_csv (text "a,") ≢ [])
    × All IsKeptPart (split_csv (text "a,"))
parsers_clean_example = parsers_clean (text "a,") (omega arith, (omega arith, tt))

parse_bytes-decimal_example :
    (parse_bytes (decimal 512) ≡ size 512)
    × (parse_bytes (decimal 512 ++ text "k") ≡ size (512 * 1024 % 2 ^ 64))
    × (parse_bytes (decimal 512 ++ text "m") ≡ size (512 * 1_048_576 % 2 ^ 64))
    × (parse_bytes (decimal 512 ++ text "g") ≡ size (512 * 1_073_741_824 % 2 ^ 64))
parse_bytes-decimal_example = parse_bytes-decimal 512 (omega arith)
