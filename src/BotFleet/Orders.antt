-- ===== src/BotFleet/Orders.antt =====
-- The orders that a bot builds, and the reference engine's answers to them.
use iicpc_distributed_benchm.Base.{
  ℕ, ◌≤◌, ◌<◌, ◌≡◌, refl, true, false, [], ◌∷◌, some, Text, text_eq_refl, ◌==◌, arith,
  if◌then◌else◌, ◌↔◌,
}
use iicpc_distributed_benchm.Config.{is_empty}
use iicpc_distributed_benchm.Float.{Float64}
use iicpc_distributed_benchm.Trading.{market, OrderRequest, OrderResponse, rejected, filled}
use iicpc_distributed_benchm.Matcher.{place_order, answer, exec_price}
use iicpc_distributed_benchm.BotFleet.{Draws, order_id, build_order, status_is_correct}

order_id-nonempty : (bot_id : Text) (seq : ℕ) → is_empty (order_id bot_id seq) ≡ false
unfolding order_id
order_id-nonempty [] seq = refl
order_id-nonempty (c ∷ s) seq = refl

-- `rng.Intn(n)` is below n.
pub record InRange {f : Float64} (d : Draws f) : Type 0 where
  pub coin : d.coin < 2
  pub roll : d.roll < 10
  pub size : d.size < 10

-- The answer of the reference engine to a request whose texts are not empty.
abbrev engine_answer : (f : Float64) → OrderRequest f → f.F → ℕ → OrderResponse f
engine_answer f req draw now =
    if req.quantity == 0
    then answer f req rejected (f.of_uint 0) 0 now
    else answer f req filled (exec_price f req.order_type req.price draw) req.quantity now

module _ (f : Float64) (bot_id : Text) (seq : ℕ) (symbol : Text) (draws : Draws f) (now : ℕ) where
  -- The order mix: a roll of 0 to 5 is a market order, 6 to 8 a limit order, both of 1 to 10 pieces
  -- and no cancel probe; 9 is a cancel probe, a limit order of 0 pieces. A quantity of 0 tells the
  -- cancel probes.
  pub build_order_mix :
      InRange draws
      → let (req, is_cancel) = build_order f bot_id seq symbol draws now in
        ((draws.roll < 6) ↔ (req.order_type ≡ market))
        × ((is_cancel ≡ true) ↔ (draws.roll ≡ 9))
        × ((is_cancel ≡ true) ↔ (req.quantity ≡ 0))
        × (req.quantity ≤ 10)
  unfolding build_order
  build_order_mix r = ground arith

  -- The reference engine answers each order of a bot that has a name and a symbol, unless the context
  -- is done, with a status that the bot counts as correct: cancel probes are rejected and all other
  -- orders filled, to the full quantity.
  pub place_order-build_order :
      (draw : f.F) (engine_now : ℕ)
      → is_empty bot_id ≡ false
      → is_empty symbol ≡ false
      → let (req, is_cancel) = build_order f bot_id seq symbol draws now in
        (resp : OrderResponse f) × (place_order f false draw engine_now req ≡ some resp)
        × (status_is_correct is_cancel resp.status ≡ true)
        × (resp.order_id ≡ req.order_id)
        × (resp.filled_quantity ≡ req.quantity)
  unfolding build_order place_order status_is_correct
  place_order-build_order draw engine_now named with_symbol = (
    engine_answer f (build_order f bot_id seq symbol draws now).0 draw engine_now,
    ground (arith, order_id-nonempty bot_id seq),
    ground (arith, text_eq_refl rejected, text_eq_refl filled),
    ground arith,
    ground arith,
  )
