-- ===== src/Tests/Instances.antt =====
-- Instances of the parameters for the tests: whole numbers for floats, a list for a histogram.
use iicpc_distributed_benchm.Base.{
  ℕ, ◌+◌, ◌-◌, ◌*◌, ◌/◌, ◌^◌, min, max, leb, List, [], ◌∷◌, true, length, get_or, sort_slice, text,
}
use iicpc_distributed_benchm.Float.{Float64}
use iicpc_distributed_benchm.Telemetry.{Metric}
use iicpc_distributed_benchm.Ingest.{Histogram}

abbrev pub whole : Float64
whole = record {
  F = ℕ;
  of_uint = λ n. n;
  to_uint = λ n. n;
  lit = λ n d. n / d;
  add = λ a b. a + b;
  sub = λ a b. a - b;
  mul = λ a b. a * b;
  div = λ a b. a / b;
  neg = λ a. 0;
  fmin = λ a b. min a b;
  fmax = λ a b. max a b;
  exp = λ a. 1;
  pow = λ a b. a ^ b;
  round = λ a. a;
  leb = λ a b. leb a b;
}

abbrev pub listed : Histogram
listed = record {
  H = List ℕ;
  new = λ low high. λ digits. [];
  record_value = λ h n. n ∷ h;
  value_at_quantile = λ h q. get_or (sort_slice h) ((length h - 1) * q / 100) 0;
}

abbrev pub measured : ℕ → ℕ → Metric
measured sent recv = record {
  test_run_id = text "run";
  contestant_id = text "alice";
  client_id = text "bot-1";
  order_id = text "bot-1-1";
  sent_time_ns = sent;
  recv_time_ns = recv;
  engine_time_ns = 0;
  is_correct = true;
  error_code = [];
}
