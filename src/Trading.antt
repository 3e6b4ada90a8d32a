-- ===== src/Trading.antt =====
-- proto/iicpc/trading/trading.proto: the messages between the bots and a trading engine.
use iicpc_distributed_benchm.Base.{ℕ, Text, text}
use iicpc_distributed_benchm.Float.{Float64}

pub data OrderType : Type 0 where
  limit market : OrderType

pub data Side : Type 0 where
  buy sell : Side

pub record OrderRequest (f : Float64) : Type 0 where
  pub order_id : Text
  pub client_id : Text
  pub symbol : Text
  pub side : Side
  pub order_type : OrderType
  pub price : f.F
  pub quantity : ℕ
  pub timestamp_ns : ℕ

pub record OrderResponse (f : Float64) : Type 0 where
  pub order_id : Text
  pub client_id : Text
  pub symbol : Text
  pub status : Text
  pub execution_price : f.F
  pub filled_quantity : ℕ
  pub timestamp_ns : ℕ

-- The words in `status`.
abbrev pub rejected : Text
rejected = text "REJECTED"

abbrev pub filled : Text
filled = text "FILLED"

abbrev pub partially_filled : Text
partially_filled = text "PARTIALLY_FILLED"
