-- ===== src/Telemetry/RingBuffer/Filled.antt =====
-- A ring buffer after calls of `Push`, one after another, whose answers nobody reads.
use iicpc_distributed_benchm.Base.{
  ℕ, zero, suc, ◌+◌, ◌≤◌, ◌<◌, ◌≡◌, refl, sym, ap, ap₂, ◌∙◌, Bool-cases, inl, inr, ltb, List, [],
  ◌∷◌, ◌++◌, append_assoc, append-nil, length, take, u64_mod, arith,
}
use iicpc_distributed_benchm.Telemetry.RingBuffer.{RingBuffer, push}
use iicpc_distributed_benchm.Telemetry.RingBuffer.Queue
use iicpc_distributed_benchm.Telemetry.RingBuffer.Inv.{IsValid, push-IsValid, size-push}
use iicpc_distributed_benchm.Telemetry.RingBuffer.Run.{write-push}
use iicpc_distributed_benchm.Telemetry.RingBuffer.Window.{contents}
use iicpc_distributed_benchm.Telemetry.RingBuffer.Refine.{length-contents, push_refines}

module _ {A : Type 0} where
  unfoldable pub push_all : RingBuffer A → List A → RingBuffer A
  push_all r [] = r
  push_all r (m ∷ ms) = push_all (push r m).1 ms

  pub push_all-IsValid :
      (ms : List A) (r : RingBuffer A)
      → IsValid r
      → r.write + length ms < u64_mod
      → IsValid (push_all r ms)
  unfolding push_all
  push_all-IsValid [] r v room = v
  push_all-IsValid (m ∷ ms) r v room =
      let small : r.write + 1 < u64_mod = omega arith in
      push_all-IsValid ms (push r m).1 (push-IsValid m v small)
        (omega (arith, write-push r m small))

  -- A list that is full drops what comes after it.
  take-full : (xs ys : List A) → take (length xs) (xs ++ ys) ≡ xs
  take-full [] ys = refl
  take-full (x ∷ xs) ys = ap (◌∷◌ x) (take-full xs ys)

  take-all : (n : ℕ) (xs : List A) → length xs ≤ n → take n xs ≡ xs
  take-all zero [] h = refl
  take-all zero (x ∷ xs) h = absurd (omega (arith, h))
  take-all (suc n) [] h = refl
  take-all (suc n) (x ∷ xs) h = ap (◌∷◌ x) (take-all n xs (omega arith))

  take-push :
      (cap : ℕ) (q : List A) (m : A) (ms : List A)
      → length q ≤ cap
      → take cap ((Queue.push cap q m).1 ++ ms) ≡ take cap (q ++ m ∷ ms)
  unfolding Queue.push
  take-push cap q m ms h = elim (Bool-cases (ltb (length q) cap)) [
    | inl room ↦ rw room (ap (take cap) (append_assoc q (m ∷ []) ms))
    | inr full ↦
        let e : cap ≡ length q = ground arith in
        rw (full, e) (take-full q ms ∙ sym (take-full q (m ∷ ms)))
  ]

  -- It holds the first elements, as many as it has room for.
  pub contents-push_all :
      (ms : List A) (r : RingBuffer A)
      → IsValid r
      → r.write + length ms < u64_mod
      → contents (push_all r ms) ≡ take r.size (contents r ++ ms)
  unfolding push_all
  contents-push_all [] r v room = sym (
      ap (take r.size) (append-nil (contents r))
      ∙ take-all r.size (contents r) (omega (arith, length-contents v, v.fits)))
  contents-push_all (m ∷ ms) r v room =
      let small : r.write + 1 < u64_mod = omega arith in
      contents-push_all ms (push r m).1 (push-IsValid m v small)
        (omega (arith, write-push r m small))
      ∙ (ap₂ (λ n q. take n (q ++ ms)) (size-push r m) (ap (λ t. t.1) (push_refines m v small))
          ∙ take-push r.size (contents r) m ms (omega (arith, length-contents v, v.fits)))
