-- ===== src/Base/Sort.antt =====
-- `sort.Slice` with `<` on `uint64`: the ascending list of the same numbers. There is only one, so
-- the algorithm does not matter; this is insertion sort.
use mathlib.Core.Path.{◌≡◌, refl, sym, ap, subst, ◌∙◌}
use mathlib.Core.Bool.{Bool, true, false}
use mathlib.Core.Option.{some}
use mathlib.Core.Logic.{inl, inr}
use native.Mathlib.Nat.{le_of_eq}
use mathlib.Core.List.{List, [], ◌∷◌}
use native.Mathlib.Omega.{arith}
use Prim.Native.Nat.{ℕ, zero, suc, ◌≤◌, ◌<◌}
use iicpc_distributed_benchm.Base.Tests.{
  if◌then◌else◌, leb, ltb, Bool-cases, leb→le, leb_false→le, eq_of_some,
}
use iicpc_distributed_benchm.Base.Lists.{All, length, get_elem?}

-- How many elements pass a test.
abbrev pub count {ℓ} : {A : Type ℓ} → (A → Bool) → List A → ℕ
count p [] = 0
count p (x ∷ xs) = if p x then suc (count p xs) else count p xs

insert_sorted : ℕ → List ℕ → List ℕ
insert_sorted x [] = x ∷ []
insert_sorted x (y ∷ ys) = if leb x y then x ∷ y ∷ ys else y ∷ insert_sorted x ys

unfoldable pub sort_slice : List ℕ → List ℕ
unfolding insert_sorted
sort_slice [] = []
sort_slice (x ∷ xs) = insert_sorted x (sort_slice xs)

-- Each element is at most all that follow it.
abbrev pub IsSorted : List ℕ → Type 0
IsSorted [] = Unit
IsSorted (x ∷ xs) = All (λ y. x ≤ y) xs × IsSorted xs

All-le_trans : (a b : ℕ) (xs : List ℕ) → a ≤ b → All (λ y. b ≤ y) xs → All (λ y. a ≤ y) xs
All-le_trans a b [] h l = tt
All-le_trans a b (x ∷ xs) h l = (omega arith, All-le_trans a b xs h l.1)

All-insert_sorted :
    (P : ℕ → Type 0) (x : ℕ) (ys : List ℕ) → P x → All P ys → All P (insert_sorted x ys)
unfolding insert_sorted
All-insert_sorted P x [] p l = (p, tt)
All-insert_sorted P x (y ∷ ys) p l =
    elim (leb x y) as (λ b. All P (if b then x ∷ y ∷ ys else y ∷ insert_sorted x ys)) [
      | true ↦ (p, l)
      | false ↦ (l.0, All-insert_sorted P x ys p l.1)
    ]

insert_sorted-IsSorted : (x : ℕ) (ys : List ℕ) → IsSorted ys → IsSorted (insert_sorted x ys)
unfolding insert_sorted
insert_sorted-IsSorted x [] s = (tt, tt)
insert_sorted-IsSorted x (y ∷ ys) s = elim (Bool-cases (leb x y)) [
  | inl e ↦ rw e ((leb→le x y e, All-le_trans x y ys (leb→le x y e) s.0), s)
  | inr e ↦ rw e (
    All-insert_sorted (λ z. y ≤ z) x ys (leb_false→le x y e) s.0,
    insert_sorted-IsSorted x ys s.1,
  )
]

count-insert_sorted :
    (p : ℕ → Bool) (x : ℕ) (ys : List ℕ) → count p (insert_sorted x ys) ≡ count p (x ∷ ys)
unfolding insert_sorted
count-insert_sorted p x [] = refl
count-insert_sorted p x (y ∷ ys) = ground (arith, count-insert_sorted p x ys)

-- Sorting keeps how many numbers pass any test.
pub count-sort_slice : (p : ℕ → Bool) (xs : List ℕ) → count p (sort_slice xs) ≡ count p xs
unfolding sort_slice
count-sort_slice p [] = refl
count-sort_slice p (x ∷ xs) =
    ground (arith, count-insert_sorted p x (sort_slice xs), count-sort_slice p xs)

pub sort_slice-IsSorted : (xs : List ℕ) → IsSorted (sort_slice xs)
unfolding sort_slice
sort_slice-IsSorted [] = tt
sort_slice-IsSorted (x ∷ xs) = insert_sorted-IsSorted x (sort_slice xs) (sort_slice-IsSorted xs)

count-true : (xs : List ℕ) → count (λ x. true) xs ≡ length xs
count-true [] = refl
count-true (x ∷ xs) = ap suc (count-true xs)

pub length-sort_slice : (xs : List ℕ) → length (sort_slice xs) ≡ length xs
length-sort_slice xs =
    sym (count-true (sort_slice xs)) ∙ (count-sort_slice (λ x. true) xs ∙ count-true xs)

-- `v` is the order statistic of rank `k`, from 0: at most `k` numbers are below it, and more than
-- `k` are not above it.
abbrev pub HasRank : List ℕ → ℕ → ℕ → Type 0
HasRank xs k v = (count (λ x. ltb x v) xs ≤ k) × (k < count (λ x. leb x v) xs)

count-lt_of_All : (v : ℕ) (xs : List ℕ) → All (λ y. v ≤ y) xs → count (λ x. ltb x v) xs ≡ 0
count-lt_of_All v [] l = refl
count-lt_of_All v (x ∷ xs) l = ground (arith, count-lt_of_All v xs l.1)

get_elem?-All :
    (P : ℕ → Type 0) (xs : List ℕ) (i : ℕ) {v : ℕ} → All P xs → get_elem? xs i ≡ some v → P v
get_elem?-All P [] i l e = cc
get_elem?-All P (x ∷ xs) zero l e = subst P (eq_of_some e) l.0
get_elem?-All P (x ∷ xs) (suc i) l e = get_elem?-All P xs i l.1 e

IsSorted-HasRank :
    (xs : List ℕ) (i : ℕ) {v : ℕ} → IsSorted xs → get_elem? xs i ≡ some v → HasRank xs i v
IsSorted-HasRank [] i s e = cc
IsSorted-HasRank (x ∷ xs) zero {v} s e =
    subst (HasRank (x ∷ xs) 0) (eq_of_some e)
      (ground (arith, count-lt_of_All x xs s.0), ground arith)
IsSorted-HasRank (x ∷ xs) (suc i) {v} s e =
    let above : x ≤ v = get_elem?-All (λ y. x ≤ y) xs i s.0 e in
    let ih = IsSorted-HasRank xs i s.1 e in (ground (arith, ih), ground (arith, ih))

pub sort_slice-HasRank :
    (xs : List ℕ) (i : ℕ) {v : ℕ} → get_elem? (sort_slice xs) i ≡ some v → HasRank xs i v
sort_slice-HasRank xs i {v} e =
    let r = IsSorted-HasRank (sort_slice xs) i (sort_slice-IsSorted xs) e in
    (
      omega (arith, r, count-sort_slice (λ x. ltb x v) xs),
      omega (arith, r, count-sort_slice (λ x. leb x v) xs),
    )

-- A higher index of the sorted list has no smaller number.
IsSorted-le :
    (xs : List ℕ) (i j : ℕ) {v w : ℕ}
    → IsSorted xs
    → i ≤ j
    → get_elem? xs i ≡ some v
    → get_elem? xs j ≡ some w
    → v ≤ w
IsSorted-le [] i j s h e f = cc
IsSorted-le (x ∷ xs) zero zero s h e f = le_of_eq (sym (eq_of_some e) ∙ eq_of_some f)
IsSorted-le (x ∷ xs) zero (suc j) {w = w} s h e f =
    subst (λ t. t ≤ w) (eq_of_some e) (get_elem?-All (λ y. x ≤ y) xs j s.0 f)
IsSorted-le (x ∷ xs) (suc i) zero s h e f = absurd (omega arith)
IsSorted-le (x ∷ xs) (suc i) (suc j) s h e f = IsSorted-le xs i j s.1 (omega arith) e f

pub sort_slice_mono :
    (xs : List ℕ) (i j : ℕ) {v w : ℕ}
    → i ≤ j
    → get_elem? (sort_slice xs) i ≡ some v
    → get_elem? (sort_slice xs) j ≡ some w
    → v ≤ w
sort_slice_mono xs i j = IsSorted-le (sort_slice xs) i j (sort_slice-IsSorted xs)
