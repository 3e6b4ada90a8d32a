-- ===== src/Judge/Ready.antt =====
-- `waitForGRPC` and `validateEngine` of internal/judge/judge.go. What the dials, the clock, the
-- context and the call return are arguments.
pub mod Bounded
use iicpc_distributed_benchm.Base.{
  ℕ, ◌+◌, ltb, if◌then◌else◌, List, [], ◌∷◌, ◌++◌, Bool, true, false, Option, none, some, Text,
  text, Result, done, failed,
}
use iicpc_distributed_benchm.Config.{is_empty}
use iicpc_distributed_benchm.Float.{Float64}
use iicpc_distributed_benchm.Trading.{OrderRequest, OrderResponse, market, buy}

-- A round of the loop: the error of the dial, the time after it, and the context's error if it is
-- done before the next round.
pub record Attempt : Type 0 where
  pub dial_error : Option Text
  pub now : ℕ
  pub done_error : Option Text

abbrev pub next_attempt : Option Text → Option (Option Text) → Option (Option Text)
next_attempt (some e) rest = some (some e)
next_attempt none rest = rest

abbrev pub after_dial :
    Text → ℕ → Option Text → ℕ → Option Text → Option (Option Text) → Option (Option Text)
after_dial addr deadline none now stopped rest = some none
after_dial addr deadline (some e) now stopped rest =
    let again = next_attempt stopped rest in
    if ltb deadline now
    then some (some (text "gRPC server at " ++ addr ++ text " not ready after 10s: " ++ e))
    else again

-- The loop of `waitForGRPC`, for the attempts that follow; `none` if it has not returned after them.
unfoldable pub wait_loop : Text → ℕ → List Attempt → Option (Option Text)
wait_loop addr deadline [] = none
wait_loop addr deadline (a ∷ rest) =
    after_dial addr deadline a.dial_error a.now a.done_error (wait_loop addr deadline rest)

-- `waitForGRPC`, called at the time `start` in nanoseconds.
unfoldable pub wait_for_grpc : Text → ℕ → List Attempt → Option (Option Text)
wait_for_grpc addr start attempts = wait_loop addr (start + 10_000_000_000) attempts

module _ (f : Float64) where
  -- The probe of `validateEngine`.
  pub probe : ℕ → OrderRequest f
  probe now = record {
    order_id = text "probe-001";
    client_id = text "judge-probe";
    symbol = text "AAPL";
    side = buy;
    order_type = market;
    price = f.of_uint 0;
    quantity = 1;
    timestamp_ns = now;
  }

  abbrev pub check_response : Result (OrderResponse f) → Option Text
  check_response (failed e) = some (text "PlaceOrder probe failed: " ++ e)
  check_response (done resp) =
      if is_empty resp.status
      then some (text "engine returned empty status on probe order")
      else none

  -- `validateEngine`: the error of the dial, and the reply to an order; the error returned.
  pub validate_engine : Option Text → (OrderRequest f → Result (OrderResponse f)) → ℕ → Option Text
  validate_engine (some e) place now = some (text "dial failed: " ++ e)
  validate_engine none place now = check_response (place (probe now))
