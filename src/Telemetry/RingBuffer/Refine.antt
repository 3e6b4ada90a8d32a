-- ===== src/Telemetry/RingBuffer/Refine.antt =====
-- A valid ring buffer behaves as the bounded queue of what it holds.
use iicpc_distributed_benchm.Base.{
  ℕ, suc, ◌+◌, ◌-◌, ◌%◌, ◌≤◌, ◌<◌, ◌≡◌, ap, ap₂, sym, ◌∙◌, List, [], ◌∷◌, ◌++◌, length, set, take,
  drop, dec_lt, arith, add64, u64_mod, min, le→leb, lt→leb_false,
}
use iicpc_distributed_benchm.Telemetry.RingBuffer.{RingBuffer, push, pop_into, copy_loop, pop_count}
use iicpc_distributed_benchm.Telemetry.RingBuffer.Queue
use iicpc_distributed_benchm.Telemetry.RingBuffer.Inv.{IsValid, sub64_lem}
use iicpc_distributed_benchm.Telemetry.RingBuffer.Window.{
  window, contents, length-window, take-window, drop-window, window-set, copy_loop_lem,
}

module _ {A : Type 0} where
  pub length-contents : {r : RingBuffer A} → IsValid r → length (contents r) ≡ r.write - r.read
  length-contents {r} v = length-window r.buf r.size v.storage v.positive r.read (r.write - r.read)

  push_room :
      {r : RingBuffer A} (m : A)
      → IsValid r
      → r.write + 1 < u64_mod
      → r.write - r.read < r.size
      → window (set r.buf (r.write % r.size) m) r.size r.read (add64 r.write 1 - r.read)
        ≡ contents r ++ m ∷ []
  push_room {r} m v room free =
      ap (window (set r.buf (r.write % r.size) m) r.size r.read) {y = suc (r.write - r.read)}
        (omega arith)
      ∙ window-set r.buf r.size m (r.write - r.read) r.read (r.write % r.size) v.storage free
          (ap (λ t. t % r.size) (omega arith))

  -- `Push` answers as the queue does, and leaves the buffer holding the queue's elements.
  pub push_refines :
      {r : RingBuffer A} (m : A)
      → IsValid r
      → r.write + 1 < u64_mod
      → let (done, r') = push r m in (done, contents r') ≡ Queue.push r.size (contents r) m
  unfolding push Queue.push
  push_refines {r} m v room = ground (arith, sub64_lem v, length-contents v, push_room m v room)

  -- The elements that stay behind, and those that go to `dst`.
  pop_rest :
      {r : RingBuffer A} (n : ℕ)
      → IsValid r
      → n ≤ r.write - r.read
      → window r.buf r.size (add64 r.read n) (r.write - add64 r.read n) ≡ drop n (contents r)
  pop_rest {r} n v h =
      ap₂ (window r.buf r.size) (omega arith) (omega arith)
      ∙ sym (drop-window r.buf r.size v.storage v.positive r.read n (r.write - r.read) h)

  pop_copied :
      {r : RingBuffer A} (n : ℕ) (dst : List A)
      → IsValid r
      → n ≤ r.write - r.read
      → n ≤ length dst
      → copy_loop r n 0 dst ≡ take n (contents r) ++ drop n dst
  pop_copied {r} n dst v h fits =
      copy_loop_lem r n 0 dst v.storage v.positive (omega arith) (omega arith)
      ∙ ap₂ ◌++◌
          (ap (λ t. window r.buf r.size t n) (omega arith)
            ∙ sym (take-window r.buf r.size v.storage v.positive r.read n (r.write - r.read) h))
          (ap (λ t. drop t dst) (omega arith))

  pop_count-eq-min :
      {r : RingBuffer A} (dst : List A)
      → IsValid r
      → pop_count r dst ≡ min (length dst) (length (contents r))
  pop_count-eq-min {r} dst v = ground (arith, sub64_lem v, length-contents v)

  pop_into_empty :
      {r : RingBuffer A} (dst : List A) → r.write ≤ r.read → pop_into r dst ≡ (0, dst, r)
  unfolding pop_into
  pop_into_empty {r} dst h = rw (le→leb r.write r.read h, pop_into)

  pop_into_some :
      {r : RingBuffer A} (dst : List A)
      → r.read < r.write
      → pop_into r dst ≡ (
        pop_count r dst,
        copy_loop r (pop_count r dst) 0 dst,
        record r { read = add64 r.read (pop_count r dst) },
      )
  unfolding pop_into
  pop_into_some {r} dst h = rw (lt→leb_false r.write r.read h, pop_into)

  -- `PopInto` answers as the queue does, fills `dst` alike and leaves the rest.
  pub pop_into_refines :
      {r : RingBuffer A} (dst : List A)
      → IsValid r
      → let (n, dst', r') = pop_into r dst in
        (n, dst', contents r') ≡ Queue.pop_into (contents r) dst
  unfolding pop_into Queue.pop_into
  pop_into_refines {r} dst v = elim (dec_lt r.read r.write) [
    | yes some_left ↦
        let e = pop_count-eq-min dst v in
        let fits : pop_count r dst ≤ r.write - r.read = omega (arith, length-contents v) in
        rw (pop_into_some {r = r} dst some_left) λ i. (
          e i,
          (pop_copied (pop_count r dst) dst v fits (omega arith)
                ∙ ap (λ t. take t (contents r) ++ drop t dst) e)
              i,
          (pop_rest (pop_count r dst) v fits ∙ ap (λ t. drop t (contents r)) e) i,
        )
    | no nothing ↦
        let e : 0 ≡ min (length dst) (length (contents r)) = omega (arith, length-contents v) in
        rw (pop_into_empty {r = r} dst (omega arith))
          (ap (λ t. (t, take t (contents r) ++ drop t dst, drop t (contents r))) e)
  ]
