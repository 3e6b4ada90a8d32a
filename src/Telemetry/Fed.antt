-- ===== src/Telemetry/Fed.antt =====
-- The loop that empties a ring buffer while others push to it: `rounds` has, for each `PopInto` of the
-- loop, the elements pushed before it since the one before. After them nothing is pushed.
use mathlib.Core.List.{foldl, foldl-append}
use iicpc_distributed_benchm.Base.{
  ℕ, zero, suc, ◌+◌, ◌≤◌, ◌<◌, ◌≡◌, ◌==◌, refl, sym, ap, ap₂, ◌∙◌, if◌then◌else◌, List, [], ◌∷◌,
  ◌++◌, Option, some, length, take, drop, length-take, length-drop, length-append, u64_mod, arith,
  min, Bool, Bool-cases, true, false, inl, inr,
}
use iicpc_distributed_benchm.Telemetry.RingBuffer.{RingBuffer, push, pop_into}
use iicpc_distributed_benchm.Telemetry.RingBuffer.Inv.{IsValid, size-push, size-pop_into}
use iicpc_distributed_benchm.Telemetry.RingBuffer.Run.{write-push, write-pop_into}
use iicpc_distributed_benchm.Telemetry.RingBuffer.Window.{contents}
use iicpc_distributed_benchm.Telemetry.RingBuffer.Refine.{length-contents}
use iicpc_distributed_benchm.Telemetry.RingBuffer.Filled.{
  push_all, push_all-IsValid, contents-push_all,
}
use iicpc_distributed_benchm.Telemetry.Drain.{Popped, pop_into-Popped, drain_loop, drain_loop_lem}

module _ {A : Type 0} where
  abbrev pub pushed : List (List A) → ℕ
  pushed [] = 0
  pushed (ms ∷ rounds) = length ms + pushed rounds

  abbrev pub is_nil : List A → Bool
  is_nil [] = true
  is_nil (x ∷ xs) = false

  -- What such a loop takes out of a queue of at most `cap` elements, at most `b` at a time.
  unfoldable pub fed : ℕ → ℕ → List A → List (List A) → List A
  fed cap b q [] = q
  fed cap b q (ms ∷ rounds) =
      let q' = take cap (q ++ ms) in
      let rest = fed cap b (drop b q') rounds in if is_nil q' then [] else take b q' ++ rest

  pub length-fed :
      (cap b : ℕ) (rounds : List (List A)) (q : List A)
      → length (fed cap b q rounds) ≤ length q + pushed rounds
  unfolding fed
  length-fed cap b [] q = omega arith
  length-fed cap b (ms ∷ rounds) q =
      let q' = take cap (q ++ ms) in
      elim (Bool-cases (is_nil q')) [
        | inl e ↦ rw e (omega arith)
        | inr e ↦ rw e (
            omega (
              arith,
              length-append (take b q') (fed cap b (drop b q') rounds),
              length-fed cap b rounds (drop b q'),
              length-take b q',
              length-drop b q',
              length-take cap (q ++ ms),
              length-append q ms,
            ))
      ]

  size-push_all : (ms : List A) (r : RingBuffer A) → (push_all r ms).size ≡ r.size
  unfolding push_all
  size-push_all [] r = refl
  size-push_all (m ∷ ms) r = size-push_all ms (push r m).1 ∙ size-push r m

  pub write-push_all :
      (ms : List A) (r : RingBuffer A)
      → r.write + length ms < u64_mod
      → (push_all r ms).write ≤ r.write + length ms
  unfolding push_all
  write-push_all [] r room = omega arith
  write-push_all (m ∷ ms) r room =
      let one : r.write + 1 < u64_mod = omega arith in
      omega (
        arith,
        write-push r m one,
        write-push_all ms (push r m).1 (omega (arith, write-push r m one)),
      )

  drop-nil : (n : ℕ) → drop {A = A} n [] ≡ []
  drop-nil zero = refl
  drop-nil (suc n) = refl

  nil-of_is_nil : (xs : List A) → is_nil xs ≡ true → xs ≡ []
  nil-of_is_nil [] h = refl
  nil-of_is_nil (x ∷ xs) h = absurd (cc)

  length-not_nil : (xs : List A) → is_nil xs ≡ false → 0 < length xs
  length-not_nil [] h = absurd (cc)
  length-not_nil (x ∷ xs) h = omega arith

  take-min : (b : ℕ) (xs : List A) → take (min b (length xs)) xs ≡ take b xs
  take-min zero [] = let n : min 0 (length {A = A} []) ≡ 0 = omega arith in ap (λ n. take n []) n
  take-min zero (x ∷ xs) =
      let n : min 0 (suc (length xs)) ≡ 0 = omega arith in ap (λ n. take n (x ∷ xs)) n
  take-min (suc b) [] =
      let n : min (suc b) (length {A = A} []) ≡ 0 = omega arith in ap (λ n. take n []) n
  take-min (suc b) (x ∷ xs) =
      let n : min (suc b) (suc (length xs)) ≡ suc (min b (length xs)) = omega arith in
      ap (λ n. take n (x ∷ xs)) n ∙ ap (◌∷◌ x) (take-min b xs)

  drop-min : (b : ℕ) (xs : List A) → drop (min b (length xs)) xs ≡ drop b xs
  drop-min zero [] = let n : min 0 (length {A = A} []) ≡ 0 = omega arith in ap (λ n. drop n []) n
  drop-min zero (x ∷ xs) =
      let n : min 0 (suc (length xs)) ≡ 0 = omega arith in ap (λ n. drop n (x ∷ xs)) n
  drop-min (suc b) [] =
      let n : min (suc b) (length {A = A} []) ≡ 0 = omega arith in ap (λ n. drop n []) n
  drop-min (suc b) (x ∷ xs) =
      let n : min (suc b) (suc (length xs)) ≡ suc (min b (length xs)) = omega arith in
      ap (λ n. drop n (x ∷ xs)) n ∙ drop-min b xs

module _ {A S : Type 0} (step : S → A → S) where
  unfoldable pub fed_loop :
      ℕ → List (List A) → RingBuffer A → List A → S → Option (S × RingBuffer A)
  fed_loop fuel [] rb batch acc = drain_loop step fuel rb batch acc
  fed_loop fuel (ms ∷ rounds) rb batch acc =
      let (n, batch', rb') = pop_into (push_all rb ms) batch in
      let rest = fed_loop fuel rounds rb' batch' (foldl step acc (take n batch')) in
      if n == 0 then some (acc, rb') else rest

  -- What a loop that ended has passed to `step`, in order, and left.
  pub record FedTo (taken : List A) (acc : S) (out : Option (S × RingBuffer A)) : Type 0 where
    pub last : RingBuffer A
    pub result : out ≡ some (foldl step acc taken, last)
    pub emptied : contents last ≡ []
    pub valid : IsValid last

  pub fed_loop_lem :
      (fuel : ℕ) (rounds : List (List A)) (rb : RingBuffer A) (batch : List A) (acc : S)
      → IsValid rb
      → 0 < length batch
      → rb.size < fuel
      → rb.write + pushed rounds < u64_mod
      → FedTo
          (fed rb.size (length batch) (contents rb) rounds)
          acc
          (fed_loop fuel rounds rb batch acc)
  unfolding fed_loop fed
  fed_loop_lem fuel [] rb batch acc v some_room enough room =
      let stored : length (contents rb) ≤ rb.size = omega (arith, length-contents v, v.fits) in
      let d = drain_loop_lem step fuel rb batch acc v some_room (omega (arith, stored, enough)) in
      record { last = d.last; result = d.result; emptied = d.emptied; valid = d.valid }
  fed_loop_lem fuel (ms ∷ rounds) rb batch acc v some_room enough room =
      elim (Bool-cases (is_nil q)) [
        | inl e ↦
            let none_left : length q ≡ 0 = ap length (nil-of_is_nil q e) in
            let stop : (n == 0) ≡ true = ground (arith, count, none_left) in
            rw (e, stop)
              (record {
                last = rb';
                result = refl;
                emptied =
                    rest ∙ ap (drop (length batch)) (nil-of_is_nil q e) ∙ drop-nil (length batch);
                valid = p.valid;
              })
        | inr e ↦
            let go_on : (n == 0) ≡ false = ground (arith, count, length-not_nil q e, some_room) in
            let ih =
              fed_loop_lem fuel rounds rb' batch' (foldl step acc (take n batch')) p.valid
                (omega (arith, p.room, some_room)) (omega (arith, size, enough))
                (omega (arith, write, room)) in
            rw (e, go_on)
              (record {
                last = ih.last;
                result =
                    ih.result
                    ∙ ap (λ t. some (t, ih.last))
                        (ap₂ (foldl step) (ap (foldl step acc) front) (same_queue)
                          ∙ sym (
                              foldl-append step acc (take (length batch) q)
                                (fed rb.size (length batch) (drop (length batch) q) rounds)));
                emptied = ih.emptied;
                valid = ih.valid;
              })
      ]
    where
      rb₁ : RingBuffer A
      rb₁ = push_all rb ms

      q : List A
      q = take rb.size (contents rb ++ ms)

      n : ℕ
      n = (pop_into rb₁ batch).0

      batch' : List A
      batch' = (pop_into rb₁ batch).1

      rb' : RingBuffer A
      rb' = (pop_into rb₁ batch).2

      small : rb.write + length ms < u64_mod
      small = omega (arith, room)

      full : contents rb₁ ≡ q
      full = contents-push_all ms rb v small

      p : Popped rb₁ batch (pop_into rb₁ batch)
      p = pop_into-Popped rb₁ batch (push_all-IsValid ms rb v small)

      count : n ≡ min (length batch) (length q)
      count = p.count ∙ ap (λ t. min (length batch) (length t)) full

      front : take n batch' ≡ take (length batch) q
      front = p.front ∙ (ap₂ take count full ∙ take-min (length batch) q)

      rest : contents rb' ≡ drop (length batch) q
      rest = p.rest ∙ (ap₂ drop count full ∙ drop-min (length batch) q)

      size : rb'.size ≡ rb.size
      size = size-pop_into rb₁ batch ∙ size-push_all ms rb

      write : rb'.write ≤ rb.write + length ms
      write = omega (arith, write-pop_into rb₁ batch, write-push_all ms rb small)

      same_queue :
          fed rb'.size (length batch') (contents rb') rounds
          ≡ fed rb.size (length batch) (drop (length batch) q) rounds
      same_queue =
          ap (λ cap. fed cap (length batch') (contents rb') rounds) size
          ∙ ap₂ (λ b xs. fed rb.size b xs rounds) p.room rest
