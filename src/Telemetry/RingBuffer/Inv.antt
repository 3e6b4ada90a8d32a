-- ===== src/Telemetry/RingBuffer/Inv.antt =====
-- The representation invariant of the ring buffer.
use iicpc_distributed_benchm.Base.{
  ℕ, ◌+◌, ◌-◌, ◌%◌, ◌≤◌, ◌<◌, ◌≡◌, length, length-set, length-replicate, List, arith, sub64,
  u64_mod,
}
use iicpc_distributed_benchm.Telemetry.RingBuffer.{RingBuffer, new_ring_buffer, push, pop_into}

module _ {A : Type 0} where
  pub record IsValid (r : RingBuffer A) : Type 0 where
    pub storage : length r.buf ≡ r.size
    pub positive : 0 < r.size
    pub ordered : r.read ≤ r.write
    pub fits : r.write ≤ r.read + r.size
    pub no_wrap : r.write < u64_mod

  -- What a buffer holds before the first push.
  pub new_ring_buffer-IsValid :
      (blank : A) (size : ℕ)
      → IsValid (new_ring_buffer blank size) × ((new_ring_buffer blank size).write ≡ 0)
  unfolding new_ring_buffer
  new_ring_buffer-IsValid blank size =
      ground (arith, length-replicate size blank, length-replicate 1 blank)

  pub sub64_lem : {r : RingBuffer A} → IsValid r → sub64 r.write r.read ≡ r.write - r.read
  sub64_lem v = omega arith

  -- The indexes that `Push` and the loop of `PopInto` use lie in the storage.
  pub in_bounds : {r : RingBuffer A} (i : ℕ) → IsValid r → i % r.size < length r.buf
  in_bounds i v = omega arith

  -- `Push` keeps the invariant, below 2^64 pushes.
  pub push-IsValid :
      {r : RingBuffer A} (m : A) → IsValid r → r.write + 1 < u64_mod → IsValid (push r m).1
  unfolding push
  push-IsValid {r} m v room = ground (arith, length-set r.buf (r.write % r.size) m)

  -- `PopInto` keeps the invariant.
  pub pop_into-IsValid : {r : RingBuffer A} (dst : List A) → IsValid r → IsValid (pop_into r dst).2
  unfolding pop_into
  pop_into-IsValid {r} dst v = ground arith

  pub size-push : (r : RingBuffer A) (m : A) → (push r m).1.size ≡ r.size
  unfolding push
  size-push r m = ground arith

  pub size-pop_into : (r : RingBuffer A) (dst : List A) → (pop_into r dst).2.size ≡ r.size
  unfolding pop_into
  size-pop_into r dst = ground arith
