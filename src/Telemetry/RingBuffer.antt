-- ===== src/Telemetry/RingBuffer.antt =====
-- internal/telemetry/ringbuffer.go, run by one goroutine at a time: `CompareAndSwap` succeeds, so
-- the loop of `Push` makes one round. `RingBuffer.Race` has the interleavings. The buffer is generic
-- in its elements, which the code only moves; `blank` is the zero value that `make` fills in.
pub mod Queue
pub mod Inv
pub mod Window
pub mod Refine
pub mod Run
pub mod Filled
pub mod Race
use iicpc_distributed_benchm.Base.{
  ℕ, zero, suc, ◌+◌, ◌%◌, ◌==◌, leb, ltb, if◌then◌else◌, List, Bool, true, false, none, some,
  length, get_elem?, set, replicate, add64, sub64,
}

-- `RingBuffer`. `write` and `read` are `uint64` and count all pushes and pops.
pub record RingBuffer (A : Type 0) : Type 0 where
  pub size : ℕ
  pub buf : List A
  pub write : ℕ
  pub read : ℕ

module _ {A : Type 0} where
  -- `NewRingBuffer`
  unfoldable pub new_ring_buffer : A → ℕ → RingBuffer A
  new_ring_buffer blank size =
      let n = if size == 0 then 1 else size in
      record { size = n; buf = replicate n blank; write = 0; read = 0 }

  -- `Push`. A write out of range would panic and changes nothing here; `Inv.in_bounds` rules it out.
  pub push : RingBuffer A → A → Bool × RingBuffer A
  push r m =
      if leb r.size (sub64 r.write r.read)
      then (false, r)
      else (true, record r { buf = set r.buf (r.write % r.size) m; write = add64 r.write 1 })

  -- `dst[i] = src[j]`; an index out of range would panic, and changes nothing here.
  abbrev pub copy_elem : List A → ℕ → List A → ℕ → List A
  copy_elem src j dst i = elim (get_elem? src j) [ none ↦ dst | some x ↦ set dst i x ]

  -- The loop of `PopInto`, with the rounds left and the counter `i`.
  pub copy_loop : RingBuffer A → ℕ → ℕ → List A → List A
  copy_loop r zero i dst = dst
  copy_loop r (suc k) i dst =
      copy_loop r k (i + 1) (copy_elem r.buf (add64 r.read i % r.size) dst i)

  -- `n` of `PopInto`, once `w <= rd` is excluded.
  abbrev pub pop_count : RingBuffer A → List A → ℕ
  pop_count r dst =
      let avail = sub64 r.write r.read in if ltb avail (length dst) then avail else length dst

  -- `PopInto`, with the count, the slice `dst` after the call, and the buffer.
  pub pop_into : RingBuffer A → List A → ℕ × List A × RingBuffer A
  unfolding copy_loop
  pop_into r dst = if leb r.write r.read then (0, dst, r) else (
    pop_count r dst,
    copy_loop r (pop_count r dst) 0 dst,
    record r { read = add64 r.read (pop_count r dst) },
  )
