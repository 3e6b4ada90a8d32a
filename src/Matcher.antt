-- ===== src/Matcher.antt =====
-- cmd/mock_matcher_go/main.go: the reference engine. The random numbers, the clock and what the
-- context does are arguments.
use iicpc_distributed_benchm.Base.{
  ℕ, ◌==◌, ◌||◌, if◌then◌else◌, Bool, true, false, List, [], ◌∷◌, Option, none, some, Text,
}
use iicpc_distributed_benchm.Config.{is_empty}
use iicpc_distributed_benchm.Float.{Float64}
use iicpc_distributed_benchm.Trading.{
  OrderType, limit, market, OrderRequest, OrderResponse, rejected, filled,
}

module _ (f : Float64) where
  open f use {F, of_uint, add, sub, mul, lit}

  abbrev pub is_invalid : OrderRequest f → Bool
  is_invalid req =
      is_empty req.order_id || is_empty req.client_id || is_empty req.symbol || req.quantity == 0

  -- `execPrice`; `draw` is `rng.Float64()`.
  abbrev pub exec_price : OrderType → F → F → F
  exec_price limit price draw = price
  exec_price market price draw = add (lit 1000 10) (sub (mul draw (lit 5 10)) (lit 25 100))

  abbrev pub answer : OrderRequest f → Text → F → ℕ → ℕ → OrderResponse f
  answer req status price quantity now = record {
    order_id = req.order_id;
    client_id = req.client_id;
    symbol = req.symbol;
    status = status;
    execution_price = price;
    filled_quantity = quantity;
    timestamp_ns = now;
  }

  -- `PlaceOrder`; `none` is the error of a context that was done before the delay was over.
  unfoldable pub place_order : Bool → F → ℕ → OrderRequest f → Option (OrderResponse f)
  place_order done draw now req =
      if done
      then none
      else if is_invalid req
      then some (answer req rejected (of_uint 0) 0 now)
      else some (answer req filled (exec_price req.order_type req.price draw) req.quantity now)

  -- One round of the loop of `StreamOrders`: the request that `Recv` returned, and what the context,
  -- the random numbers, the clock and `Send` do.
  pub record Round : Type 0 where
    pub request : OrderRequest f
    pub done : Bool
    pub draw : F
    pub now : ℕ
    pub send_fails : Bool

  abbrev pub next_round : Bool → OrderResponse f → List (OrderResponse f) → List (OrderResponse f)
  next_round true resp rest = []
  next_round false resp rest = resp ∷ rest

  -- `StreamOrders`: the responses sent, over the requests until `Recv` fails.
  unfoldable pub stream_orders : List Round → List (OrderResponse f)
  unfolding place_order
  stream_orders [] = []
  stream_orders (r ∷ rs) =
      let rest = stream_orders rs in
      elim (place_order r.done r.draw r.now r.request) [
        | none ↦ []
        | some resp ↦ next_round r.send_fails resp rest
      ]
