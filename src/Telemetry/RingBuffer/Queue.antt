-- ===== src/Telemetry/RingBuffer/Queue.antt =====
-- What the ring buffer promises: a FIFO of at most `cap` elements, oldest first.
use iicpc_distributed_benchm.Base.{
  ℕ, ltb, if◌then◌else◌, List, [], ◌∷◌, ◌++◌, Bool, true, false, length, take, drop, min,
}

module _ {A : Type 0} where
  unfoldable pub push : ℕ → List A → A → Bool × List A
  push cap q x = if ltb (length q) cap then (true, q ++ x ∷ []) else (false, q)

  -- Up to `length dst` elements are popped, and stand at the front of `dst`.
  unfoldable pub pop_into : List A → List A → ℕ × List A × List A
  pop_into q dst = let n = min (length dst) (length q) in (n, take n q ++ drop n dst, drop n q)
