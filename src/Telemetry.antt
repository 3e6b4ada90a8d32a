-- ===== src/Telemetry.antt =====
-- internal/telemetry: the record of one order, the ring buffer and the running statistics.
pub mod RingBuffer
pub mod Stats
pub mod Drain
pub mod Fed
use iicpc_distributed_benchm.Base.{ℕ, Bool, Text}

-- `Metric`
pub record Metric : Type 0 where
  pub test_run_id : Text
  pub contestant_id : Text
  pub client_id : Text
  pub order_id : Text
  pub sent_time_ns : ℕ
  pub recv_time_ns : ℕ
  pub engine_time_ns : ℕ
  pub is_correct : Bool
  pub error_code : Text
