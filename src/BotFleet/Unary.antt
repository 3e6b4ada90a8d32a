-- ===== src/BotFleet/Unary.antt =====
-- `runBotUnary` of internal/botfleet/botfleet.go: a bot that calls `PlaceOrder` once a tick. A round
-- is a tick with what the random numbers, the clock and the call return.
use iicpc_distributed_benchm.Base.{
  ℕ, zero, suc, ◌+◌, ◌<◌, ◌≡◌, refl, ap, ap₂, leb, List, [], ◌∷◌, map, Bool, true, false, Option,
  none, some, ◌||◌, ◌∙◌, text, text_eq, Text, Result, done, failed, length, add64, u64_mod, arith,
}
use iicpc_distributed_benchm.Float.{Float64}
use iicpc_distributed_benchm.Trading.{OrderResponse}
use iicpc_distributed_benchm.Telemetry.{Metric}
use iicpc_distributed_benchm.BotFleet.{
  Config, Draws, Event, new_bot, run_bot, order_id, build_order, status_is_correct, wrong_status,
}

module _ (f : Float64) where
  pub record Round : Type 0 where
    pub draws : Draws f
    pub now : ℕ
    pub sent_ns : ℕ
    pub reply : Result (OrderResponse f)
    pub recv_ns : ℕ

  abbrev pub judged : Bool → Result (OrderResponse f) → Bool
  judged is_cancel (failed e) = false
  judged is_cancel (done resp) = status_is_correct is_cancel resp.status

  abbrev pub error_of : Bool → Result (OrderResponse f) → Text
  error_of is_cancel (failed e) = e
  error_of is_cancel (done resp) =
      wrong_status (status_is_correct is_cancel resp.status) resp.status

  abbrev pub engine_time : Result (OrderResponse f) → ℕ
  engine_time (failed e) = 0
  engine_time (done resp) = resp.timestamp_ns

  module _ (cfg : Config) (bot_id : Text) where
    -- The metric of the round with the sequence number `seq`.
    unfoldable pub unary_metric : ℕ → Round → Metric
    unary_metric seq r =
        let (req, is_cancel) = build_order f bot_id seq cfg.symbol r.draws r.now in
        record {
          test_run_id = cfg.test_run_id;
          contestant_id = cfg.contestant_id;
          client_id = bot_id;
          order_id = req.order_id;
          sent_time_ns = r.sent_ns;
          recv_time_ns = r.recv_ns;
          engine_time_ns = engine_time r.reply;
          is_correct = judged is_cancel r.reply;
          error_code = error_of is_cancel r.reply;
        }

    -- The metrics of the rounds after the sequence number `seq`.
    unfoldable pub run_bot_unary : ℕ → List Round → List Metric
    unfolding unary_metric
    run_bot_unary seq [] = []
    run_bot_unary seq (r ∷ rs) = unary_metric (add64 seq 1) r ∷ run_bot_unary (add64 seq 1) rs

    -- The ids of the orders `k + 1` to `k + n`.
    abbrev pub numbered : ℕ → ℕ → List Text
    numbered k zero = []
    numbered k (suc n) = order_id bot_id (k + 1) ∷ numbered (k + 1) n

    -- The engine answered as the order asks: REJECTED to a cancel probe (a roll of 9), FILLED or
    -- PARTIALLY_FILLED to any other order; an error of the call is no answer.
    abbrev pub reply_right : Bool → Result (OrderResponse f) → Bool
    reply_right is_probe (failed e) = false
    reply_right true (done resp) = text_eq resp.status (text "REJECTED")
    reply_right false (done resp) =
        text_eq resp.status (text "FILLED") || text_eq resp.status (text "PARTIALLY_FILLED")

    abbrev pub answered_right : Round → Bool
    answered_right r = reply_right (leb 9 r.draws.roll) r.reply

    judged-reply_right :
        (b : Bool) (reply : Result (OrderResponse f)) → judged b reply ≡ reply_right b reply
    unfolding status_is_correct
    judged-reply_right b (failed e) = refl
    judged-reply_right true (done resp) = refl
    judged-reply_right false (done resp) = refl

    unary_metric-order_id :
        (seq : ℕ) (r : Round) → (unary_metric seq r).order_id ≡ order_id bot_id seq
    unfolding unary_metric build_order
    unary_metric-order_id seq r = ground arith

    unary_metric-is_correct :
        (seq : ℕ) (r : Round) → (unary_metric seq r).is_correct ≡ answered_right r
    unfolding unary_metric build_order
    unary_metric-is_correct seq r =
        ap (λ b. judged b r.reply) (ground arith) ∙ judged-reply_right (leb 9 r.draws.roll) r.reply

    ids :
        (rs : List Round) (k : ℕ)
        → k + length rs < u64_mod
        → map (λ m. m.order_id) (run_bot_unary k rs) ≡ numbered k (length rs)
    unfolding run_bot_unary
    ids [] k room = refl
    ids (r ∷ rs) k room =
        let next : add64 k 1 ≡ k + 1 = omega arith in
        rw next (ap₂ ◌∷◌ (unary_metric-order_id (k + 1) r) (ids rs (k + 1) (omega arith)))

    corrects :
        (rs : List Round) (k : ℕ)
        → map (λ m. m.is_correct) (run_bot_unary k rs) ≡ map answered_right rs
    unfolding run_bot_unary
    corrects [] k = refl
    corrects (r ∷ rs) k = ap₂ ◌∷◌ (unary_metric-is_correct (add64 k 1) r) (corrects rs (add64 k 1))

    -- `runBot` from its call of `StreamOrders`: the metrics of the stream, or, if that call fails,
    -- those of `runBotUnary`.
    unfoldable pub run_bot_any : Option Text → List (Event f) → List Round → List Metric
    run_bot_any (some e) es rs = run_bot_unary 0 rs
    run_bot_any none es rs = (run_bot f cfg bot_id (new_bot f) es).metrics

    -- If `StreamOrders` fails, fewer than 2^64 rounds of the bot give one metric a round, in order, of
    -- its orders number 1, 2 and so on; and a metric is correct exactly if its round was answered as
    -- the order asks: REJECTED to a cancel probe (a roll of 9), FILLED or PARTIALLY_FILLED to any
    -- other order.
    pub run_bot_unary_lem :
        (e : Text) (es : List (Event f)) (rs : List Round)
        → length rs < u64_mod
        → (map (λ m. m.order_id) (run_bot_any (some e) es rs) ≡ numbered 0 (length rs))
          × (map (λ m. m.is_correct) (run_bot_any (some e) es rs) ≡ map answered_right rs)
    unfolding run_bot_any
    run_bot_unary_lem e es rs room = (ids rs 0 (omega arith), corrects rs 0)
