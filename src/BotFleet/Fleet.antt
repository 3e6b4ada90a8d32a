-- ===== src/BotFleet/Fleet.antt =====
-- `Run` of internal/botfleet/botfleet.go: its defaults, and the bots that it starts. A count, a rate or
-- a duration that is not positive is 0 here.
use iicpc_distributed_benchm.Base.{
  ℕ, zero, suc, ◌+◌, ◌/◌, ◌≤◌, ◌<◌, ◌≡◌, ◌≢◌, ◌↔◌, refl, ap, sym, ap₂, ◌∙◌, leb, ◌==◌, ◌&&◌,
  if◌then◌else◌, List, [], ◌∷◌, ◌++◌, true, false, Option, none, some, Text, text, Result, done,
  failed, decimal, decimal-digits, decimal-injective, All, All-map, length, u64_mod, arith,
}
use native.Mathlib.Nat.{le-div_iff_mul-le}
use iicpc_distributed_benchm.Config.{is_empty}
use iicpc_distributed_benchm.Kafka.{new_producer}
use iicpc_distributed_benchm.Float.{Float64}
use iicpc_distributed_benchm.BotFleet.{Config, order_id, Event, new_bot, run_bot}
use iicpc_distributed_benchm.BotFleet.Once.{metrics_once}

-- The fields of `Config` that `Run` reads.
pub record Fleet : Type 0 where
  pub target_addr : Text
  pub bot_count : ℕ
  pub orders_per_sec : ℕ
  pub duration : ℕ
  pub symbol : Text
  pub kafka_brokers : List Text
  pub kafka_topic : Text

abbrev pub or_default : ℕ → ℕ → ℕ
or_default n d = if n == 0 then d else n

-- The first lines of `Run`.
unfoldable pub with_defaults : Fleet → Fleet
with_defaults cfg = record cfg {
  bot_count = or_default cfg.bot_count 1;
  orders_per_sec = or_default cfg.orders_per_sec 100;
  duration = or_default cfg.duration 10_000_000_000;
  symbol = if is_empty cfg.symbol then text "AAPL" else cfg.symbol;
}

-- `time.Second / time.Duration(cfg.OrdersPerSec)`
unfoldable pub interval : Fleet → ℕ
interval cfg = 1_000_000_000 / cfg.orders_per_sec

-- `fmt.Sprintf("bot-%d", i+1)`
unfoldable pub bot_id : ℕ → Text
bot_id i = text "bot-" ++ decimal (i + 1)

-- The loop over `i`, from `i` on, with `n` rounds left.
abbrev pub bots_from : ℕ → ℕ → List Text
bots_from i zero = []
bots_from i (suc n) = bot_id i ∷ bots_from (i + 1) n

abbrev pub start_bots : Fleet → Option Text → Result (List Text)
start_bots cfg none = done (bots_from 0 cfg.bot_count)
start_bots cfg (some e) = failed e

abbrev pub error_of : {A : Type 0} → Result A → Option Text
error_of (failed e) = some e
error_of (done a) = none

-- The error of `NewProducer`, which is called if there are brokers.
abbrev pub producer_error : List Text → Text → Option Text
producer_error [] topic = none
producer_error (b ∷ bs) topic = error_of (new_producer (b ∷ bs) topic)

-- `Run`, for the error of the dial: the bots that it starts and waits for.
unfoldable pub run_fleet : Fleet → Option Text → Result (List Text)
unfolding with_defaults
run_fleet cfg (some e) = failed (text "dial " ++ cfg.target_addr ++ text ": " ++ e)
run_fleet cfg none =
    start_bots (with_defaults cfg) (producer_error cfg.kafka_brokers cfg.kafka_topic)

abbrev IsDigit : ℕ → Type 0
IsDigit c = (leb b'0' c && leb c b'9') ≡ true

digit-ne-dash : (c : ℕ) → IsDigit c → c ≢ b'-'
digit-ne-dash c h e = absurd (ground (arith, h, e))

-- Digits up to a dash are told by the text.
digits_before_dash :
    (xs ys s t : Text) → All IsDigit xs → All IsDigit ys → xs ++ b'-' ∷ s ≡ ys ++ b'-' ∷ t → xs ≡ ys
digits_before_dash [] [] s t hx hy e = refl
digits_before_dash [] (y ∷ ys) s t hx hy e = absurd (digit-ne-dash y hy.0 (cc))
digits_before_dash (x ∷ xs) [] s t hx hy e = absurd (digit-ne-dash x hx.0 (cc))
digits_before_dash (x ∷ xs) (y ∷ ys) s t hx hy e =
    let same : x ≡ y = cc in
    let rest : xs ++ b'-' ∷ s ≡ ys ++ b'-' ∷ t = cc in
    ap₂ ◌∷◌ same (digits_before_dash xs ys s t hx.1 hy.1 rest)

pub order_id_bot : (i j a b : ℕ) → order_id (bot_id i) a ≡ order_id (bot_id j) b → i ≡ j
unfolding order_id bot_id
order_id_bot i j a b e =
    let rest : decimal (i + 1) ++ b'-' ∷ decimal a ≡ decimal (j + 1) ++ b'-' ∷ decimal b = cc in
    let same =
      digits_before_dash (decimal (i + 1)) (decimal (j + 1)) (decimal a) (decimal b)
        (decimal-digits (i + 1)) (decimal-digits (j + 1)) rest in
    omega (arith, decimal-injective (i + 1) (j + 1) same)

-- No two bots of a fleet record metrics of one order id: for two of them, whatever fewer than 2^64
-- events happen to each.
pub fleet_ids_apart :
    (f : Float64) (cfg : Config) (i j : ℕ) (es ds : List (Event f))
    → i ≢ j
    → length es < u64_mod
    → length ds < u64_mod
    → All
        (λ m. All (λ n. m.order_id ≢ n.order_id) (run_bot f cfg (bot_id j) (new_bot f) ds).metrics)
        (run_bot f cfg (bot_id i) (new_bot f) es).metrics
fleet_ids_apart f cfg i j es ds ne room room' =
    All-map _ _ (run_bot f cfg (bot_id i) (new_bot f) es).metrics
      (λ m s.
        All-map _ _ (run_bot f cfg (bot_id j) (new_bot f) ds).metrics
          (λ n t e. ne (order_id_bot i j s.sent.0 t.sent.0 (sym s.sent.2 ∙ (e ∙ t.sent.2))))
          (metrics_once f cfg (bot_id j) ds room').1)
      (metrics_once f cfg (bot_id i) es room).1

div-pos_iff : (n k : ℕ) → 0 < k → (0 < n / k) ↔ (k ≤ n)
div-pos_iff n k pos = (
  λ h. omega (arith, (le-div_iff_mul-le {k = k} {x = 1} {y = n} pos).0 h),
  λ h. (le-div_iff_mul-le {k = k} {x = 1} {y = n} pos).1 (omega (arith, h)),
)

length-bots_from : (i n : ℕ) → length (bots_from i n) ≡ n
length-bots_from i zero = refl
length-bots_from i (suc n) = ap suc (length-bots_from (i + 1) n)

-- With brokers, `NewProducer` does not fail.
producer_error-none : (brokers : List Text) (topic : Text) → producer_error brokers topic ≡ none
unfolding new_producer
producer_error-none [] topic = refl
producer_error-none (b ∷ bs) topic = refl

bots_started : (cfg : Fleet) → run_fleet cfg none ≡ done (bots_from 0 (with_defaults cfg).bot_count)
unfolding run_fleet
bots_started cfg = rw (producer_error-none cfg.kafka_brokers cfg.kafka_topic) refl

-- Once its defaults are set, a fleet has at least one bot, a duration that is not 0 and a symbol; the
-- interval of its tickers is positive exactly if at most 10^9 orders per second were asked for; and
-- unless the dial fails, `Run` starts as many bots as the fleet has, with or without brokers.
pub with_defaults-bounds :
    (cfg : Fleet)
    → let c = with_defaults cfg in
      (0 < c.bot_count)
      × (0 < c.duration)
      × (is_empty c.symbol ≡ false)
      × ((0 < interval c) ↔ (cfg.orders_per_sec ≤ 1_000_000_000))
      × ((bots : List Text) × (run_fleet cfg none ≡ done bots) × (length bots ≡ c.bot_count))
unfolding with_defaults interval
with_defaults-bounds cfg = (
  ground arith,
  ground arith,
  ground arith,
  (
    λ h. ground (
      arith,
      (div-pos_iff 1_000_000_000 (or_default cfg.orders_per_sec 100)
            (or_default-pos cfg.orders_per_sec)).0
          h,
    ),
    λ h.
        (div-pos_iff 1_000_000_000 (or_default cfg.orders_per_sec 100)
            (or_default-pos cfg.orders_per_sec)).1
          (ground (arith, h)),
  ),
  (
    bots_from 0 (with_defaults cfg).bot_count,
    bots_started cfg,
    length-bots_from 0 (with_defaults cfg).bot_count,
  ),
)
  where
    or_default-pos : (n : ℕ) → 0 < or_default n 100
    or_default-pos n = ground arith
