-- ===== src/Base/Counts.antt =====
-- Counting the elements that pass a test, in any order of them.
use mathlib.Core.List.{Perm, foldr}
use mathlib.Core.List.Perm
use native.Mathlib.Nat.{ℕ_set}
use Prim.Native.Nat.{ℕ, suc, ◌≤◌}
use mathlib.Core.Path.{◌≡◌, refl, sym, ap, ◌∙◌}
use mathlib.Core.Logic.{inl, inr}
use mathlib.Core.Bool.{Bool, true}
use mathlib.Core.List.{List, [], ◌∷◌, map}
use native.Mathlib.Omega.{arith}
use iicpc_distributed_benchm.Base.Lists.{length, All}
use iicpc_distributed_benchm.Base.Sort.{count}
use iicpc_distributed_benchm.Base.Tests.{Bool-cases, if◌then◌else◌}

pub count-map :
    {A B : Type 0} (p : B → Bool) (g : A → B) (xs : List A)
    → count p (map g xs) ≡ count (λ x. p (g x)) xs
count-map p g [] = refl
count-map p g (x ∷ xs) = elim (Bool-cases (p (g x))) [
  | inl e ↦ rw e (ap suc (count-map p g xs))
  | inr e ↦ rw e (count-map p g xs)
]

pub length-map : {A B : Type 0} (g : A → B) (xs : List A) → length (map g xs) ≡ length xs
length-map g [] = refl
length-map g (x ∷ xs) = ap suc (length-map g xs)

count_step : {A : Type 0} → (A → Bool) → A → ℕ → ℕ
count_step p x n = if p x then suc n else n

count_step_comm :
    {A : Type 0} (p : A → Bool) (a b : A) (n : ℕ)
    → count_step p a (count_step p b n) ≡ count_step p b (count_step p a n)
unfolding count_step
count_step_comm p a b n = elim (Bool-cases (p a)) [
  | inl e ↦ elim (Bool-cases (p b)) [ inl e' ↦ rw (e, e') refl | inr e' ↦ rw (e, e') refl ]
  | inr e ↦ elim (Bool-cases (p b)) [ inl e' ↦ rw (e, e') refl | inr e' ↦ rw (e, e') refl ]
]

count-foldr : {A : Type 0} (p : A → Bool) (xs : List A) → count p xs ≡ foldr (count_step p) 0 xs
unfolding count_step
count-foldr p [] = refl
count-foldr p (x ∷ xs) = elim (Bool-cases (p x)) [
  | inl e ↦ rw e (ap suc (count-foldr p xs))
  | inr e ↦ rw e (count-foldr p xs)
]

pub count-Perm : {A : Type 0} (p : A → Bool) (xs ys : List A) → Perm xs ys → count p xs ≡ count p ys
count-Perm p xs ys h =
    count-foldr p xs
    ∙ (Perm.foldr-eq ℕ_set (count_step p) (count_step_comm p) h 0 ∙ sym (count-foldr p ys))

length-count : {A : Type 0} (xs : List A) → length xs ≡ count (λ x. true) xs
length-count [] = refl
length-count (x ∷ xs) = ap suc (length-count xs)

pub length-Perm : {A : Type 0} (xs ys : List A) → Perm xs ys → length xs ≡ length ys
length-Perm xs ys h = length-count xs ∙ (count-Perm (λ x. true) xs ys h ∙ sym (length-count ys))

count-le : {A : Type 0} (p : A → Bool) (xs : List A) → count p xs ≤ length xs
count-le p [] = omega arith
count-le p (x ∷ xs) = elim (Bool-cases (p x)) [
  | inl e ↦ rw e (omega (arith, count-le p xs))
  | inr e ↦ rw e (omega (arith, count-le p xs))
]

count-All :
    {A : Type 0} (p : A → Bool) (xs : List A) → All (λ x. p x ≡ true) xs → count p xs ≡ length xs
count-All p [] h = refl
count-All p (x ∷ xs) h = rw (h.0) (ap suc (count-All p xs h.1))

All-count :
    {A : Type 0} (p : A → Bool) (xs : List A) → count p xs ≡ length xs → All (λ x. p x ≡ true) xs
All-count p [] h = tt
All-count p (x ∷ xs) h = elim (Bool-cases (p x)) [
  | inl e ↦ let rest : count p xs ≡ length xs = omega (arith, rw e at h) in (e, All-count p xs rest)
  | inr e ↦
      let more : count p xs ≡ suc (length xs) = rw e at h in
      absurd (omega (arith, more, count-le p xs))
]

-- What a test says of all elements, it says of all in another order.
pub All-Perm :
    {A : Type 0} (p : A → Bool) (xs ys : List A)
    → Perm xs ys
    → All (λ y. p y ≡ true) ys
    → All (λ x. p x ≡ true) xs
All-Perm p xs ys h all =
    All-count p xs (count-Perm p xs ys h ∙ (count-All p ys all ∙ sym (length-Perm xs ys h)))
