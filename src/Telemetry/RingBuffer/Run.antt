-- ===== src/Telemetry/RingBuffer/Run.antt =====
-- Any sequence of calls, made one after another, against the bounded queue.
use iicpc_distributed_benchm.Base.{
  ℕ, ◌+◌, ◌≤◌, ◌<◌, ◌≡◌, refl, ap₂, max, ◌∙◌, List, [], ◌∷◌, Bool, length, arith, u64_mod,
}
use iicpc_distributed_benchm.Telemetry.RingBuffer.{RingBuffer, new_ring_buffer, push, pop_into}
use iicpc_distributed_benchm.Telemetry.RingBuffer.Queue
use iicpc_distributed_benchm.Telemetry.RingBuffer.Inv.{
  IsValid, new_ring_buffer-IsValid, push-IsValid, pop_into-IsValid, size-push, size-pop_into,
}
use iicpc_distributed_benchm.Telemetry.RingBuffer.Window.{contents}
use iicpc_distributed_benchm.Telemetry.RingBuffer.Refine.{push_refines, pop_into_refines}

-- A call, and what the caller sees of it.
pub data Call (A : Type 0) : Type 0 where
  put : A → Call A
  take_into : List A → Call A

pub data Reply (A : Type 0) : Type 0 where
  put_done : Bool → Reply A
  taken : ℕ → List A → Reply A

module _ {A : Type 0} where
  pub run : RingBuffer A → List (Call A) → List (Reply A)
  run r [] = []
  run r (put m ∷ calls) = let (done, r') = push r m in put_done done ∷ run r' calls
  run r (take_into dst ∷ calls) = let (n, dst', r') = pop_into r dst in taken n dst' ∷ run r' calls

  pub run_queue : ℕ → List A → List (Call A) → List (Reply A)
  run_queue cap q [] = []
  run_queue cap q (put m ∷ calls) =
      let (done, q') = Queue.push cap q m in put_done done ∷ run_queue cap q' calls
  run_queue cap q (take_into dst ∷ calls) =
      let (n, dst', q') = Queue.pop_into q dst in taken n dst' ∷ run_queue cap q' calls

  pub write-push :
      (r : RingBuffer A) (m : A) → r.write + 1 < u64_mod → (push r m).1.write ≤ r.write + 1
  unfolding push
  write-push r m h = ground arith

  pub write-pop_into : (r : RingBuffer A) (dst : List A) → (pop_into r dst).2.write ≡ r.write
  unfolding pop_into
  write-pop_into r dst = ground arith

  run-eq-run_queue :
      (r : RingBuffer A) (calls : List (Call A))
      → IsValid r
      → r.write + length calls < u64_mod
      → run r calls ≡ run_queue r.size (contents r) calls
  unfolding run run_queue
  run-eq-run_queue r [] v room = refl
  run-eq-run_queue r (put m ∷ calls) v room =
      let small : r.write + 1 < u64_mod = omega arith in
      rw (
        run-eq-run_queue (push r m).1 calls (push-IsValid m v small)
            (omega (arith, write-push r m small)),
        ← push_refines m v small,
        size-push,
      )
  run-eq-run_queue r (take_into dst ∷ calls) v room = rw (
    run-eq-run_queue (pop_into r dst).2 calls (pop_into-IsValid dst v)
        (omega (arith, write-pop_into r dst)),
    ← pop_into_refines dst v,
    size-pop_into,
  )

  size-new_ring_buffer : (blank : A) (size : ℕ) → (new_ring_buffer blank size).size ≡ max 1 size
  unfolding new_ring_buffer
  size-new_ring_buffer blank size = ground arith

  contents-new_ring_buffer : (blank : A) (size : ℕ) → contents (new_ring_buffer blank size) ≡ []
  unfolding new_ring_buffer
  contents-new_ring_buffer blank size = refl

  -- From a new buffer of any size, fewer than 2^64 calls of `Push` and `PopInto`, made one after
  -- another, answer as the calls of an empty bounded FIFO of that size (of size 1, where 0 was asked
  -- for): the same results, the same elements in the same order, the same slices `dst`.
  pub run_refines :
      (blank : A) (size : ℕ) (calls : List (Call A))
      → length calls < u64_mod
      → run (new_ring_buffer blank size) calls ≡ run_queue (max 1 size) [] calls
  run_refines blank size calls room =
      let (v, unwritten) = new_ring_buffer-IsValid blank size in
      run-eq-run_queue (new_ring_buffer blank size) calls v (omega (arith, unwritten))
      ∙ ap₂ (λ n q. run_queue n q calls) (size-new_ring_buffer blank size)
          (contents-new_ring_buffer blank size)
