-- ===== src/BotFleet.antt =====
-- internal/botfleet/botfleet.go: the orders of one bot, and what it makes of the responses. A bot's
-- stream is a sequence of events: the ticker and the receiving goroutine take turns in any order,
-- each access to `pending` under the mutex being one event. Random numbers and the clock are
-- arguments.
pub mod Orders
pub mod Once
pub mod Unary
pub mod Fleet
pub mod Consumer
pub mod Shared
use iicpc_distributed_benchm.Base.{
  ℕ, ◌+◌, ◌-◌, ◌==◌, ltb, ◌||◌, not, if◌then◌else◌, Bool, true, false, List, [], ◌∷◌, ◌++◌, Option,
  none, some, Text, text, text_eq, decimal, Assoc, lookup, insert, remove, add64,
}
use iicpc_distributed_benchm.Float.{Float64}
use iicpc_distributed_benchm.Trading.{
  OrderType, limit, market, Side, buy, sell, OrderRequest, OrderResponse, rejected, filled,
  partially_filled,
}
use iicpc_distributed_benchm.Telemetry.{Metric}

-- The fields of `Config` that the bots read.
pub record Config : Type 0 where
  pub test_run_id : Text
  pub contestant_id : Text
  pub symbol : Text

-- `fmt.Sprintf("%s-%d", botID, seq)`
unfoldable pub order_id : Text → ℕ → Text
order_id bot_id seq = bot_id ++ (b'-' ∷ decimal seq)

-- What `rng` returns: `Intn(2)`, `Intn(10)`, `Float64()` and the last `Intn(10)`.
pub record Draws (f : Float64) : Type 0 where
  pub coin : ℕ
  pub roll : ℕ
  pub unit : f.F
  pub size : ℕ

-- `pendingEntry`
pub record PendingEntry : Type 0 where
  pub order_id : Text
  pub sent_ns : ℕ
  pub is_cancel : Bool

-- The correctness test of both loops.
unfoldable pub status_is_correct : Bool → Text → Bool
status_is_correct is_cancel status =
    if is_cancel
    then text_eq status rejected
    else text_eq status filled || text_eq status partially_filled

abbrev pub wrong_status : Bool → Text → Text
wrong_status is_correct status = if is_correct then [] else text "WRONG_STATUS:" ++ status

module _ (f : Float64) where
  open f use {F, of_uint, add, sub, mul, lit}

  -- `buildOrder`
  unfoldable pub build_order : Text → ℕ → Text → Draws f → ℕ → OrderRequest f × Bool
  build_order bot_id seq symbol draws now =
      let request : OrderType → F → ℕ → OrderRequest f = λ kind price qty. record {
        order_id = order_id bot_id seq;
        client_id = bot_id;
        symbol = symbol;
        side = if draws.coin == 0 then sell else buy;
        order_type = kind;
        price = price;
        quantity = qty;
        timestamp_ns = now;
      } in
      if ltb draws.roll 6
      then (request market (of_uint 0) (1 + draws.size), false)
      else if ltb draws.roll 9
      then (
        request limit (add (lit 1000 10) (sub (mul draws.unit (lit 40 10)) (lit 20 10)))
            (1 + draws.size),
        false,
      )
      else (request limit (lit 1000 10) 0, true)

  -- The variables of `runBot`, and the metrics that it has pushed and published so far.
  pub record Bot : Type 0 where
    pub seq : ℕ
    pub pending : Assoc PendingEntry
    pub metrics : List Metric

  abbrev pub new_bot : Bot
  new_bot = record { seq = 0; pending = []; metrics = [] }

  -- What happens to a bot: its ticker fires, `Send` returns an error, `Recv` returns a response.
  pub data Event : Type 0 where
    tick : (draws : Draws f) (now sent_ns : ℕ) → Event
    send_failed : (id : Text) → Event
    response : (resp : OrderResponse f) (recv_ns : ℕ) → Event

  module _ (cfg : Config) (bot_id : Text) where
    -- A tick up to the entry in `pending`, with the request that is then sent.
    pub on_tick : Bot → Draws f → ℕ → ℕ → Bot × OrderRequest f
    on_tick b draws now sent_ns =
        let seq = add64 b.seq 1 in
        let (req, is_cancel) = build_order bot_id seq cfg.symbol draws now in
        (
          record b {
            seq = seq;
            pending =
                insert req.order_id
                  (record { order_id = req.order_id; sent_ns = sent_ns; is_cancel = is_cancel })
                  b.pending;
          },
          req,
        )

    -- `Send` failed: the entry is deleted, and the bot sends no more.
    pub on_send_failure : Bot → Text → Bot
    on_send_failure b id = record b { pending = remove id b.pending }

    abbrev pub metric_of : PendingEntry → OrderResponse f → ℕ → Metric
    metric_of entry resp recv_ns =
        let is_correct = status_is_correct entry.is_cancel resp.status in
        record {
          test_run_id = cfg.test_run_id;
          contestant_id = cfg.contestant_id;
          client_id = bot_id;
          order_id = resp.order_id;
          sent_time_ns = entry.sent_ns;
          recv_time_ns = recv_ns;
          engine_time_ns = resp.timestamp_ns;
          is_correct = is_correct;
          error_code = wrong_status is_correct resp.status;
        }

    abbrev pub record_response : Bot → OrderResponse f → ℕ → Option PendingEntry → Bot
    record_response b resp recv_ns none = b
    record_response b resp recv_ns (some entry) = record b {
      pending = remove resp.order_id b.pending;
      metrics = b.metrics ++ metric_of entry resp recv_ns ∷ [];
    }

    -- A round of the receiving goroutine.
    pub on_response : Bot → OrderResponse f → ℕ → Bot
    on_response b resp recv_ns = record_response b resp recv_ns (lookup resp.order_id b.pending)

    unfoldable pub handle : Bot → Event → Bot
    unfolding on_tick on_send_failure on_response
    handle b (tick draws now sent_ns) = (on_tick b draws now sent_ns).0
    handle b (send_failed id) = on_send_failure b id
    handle b (response resp recv_ns) = on_response b resp recv_ns

    pub run_bot : Bot → List Event → Bot
    run_bot b [] = b
    run_bot b (e ∷ es) = run_bot (handle b e) es
