-- ===== src/Tests/Ranked.antt =====
-- Sorted sets for the tests: the members, the highest score first.
use iicpc_distributed_benchm.Base.{
  ℕ, zero, suc, ◌≤◌, ◌<◌, ◌≡◌, subst, eq_of_some, leb, if◌then◌else◌, List, [], ◌∷◌, take,
  get_elem?, Bool-cases, false, inl, inr, Option, none, some, Text, text_eq, All, All-map, arith,
}

abbrev pub score_or_zero : (Text → Option ℕ) → Text → ℕ
score_or_zero score x = elim (score x) [ none ↦ 0 | some v ↦ v ]

-- No member has a higher score than one before it.
abbrev pub IsRanked : (Text → ℕ) → List Text → Type 0
IsRanked sc [] = Unit
IsRanked sc (x ∷ xs) = All (λ y. sc y ≤ sc x) xs × IsRanked sc xs

abbrev pub put_score : Text → ℕ → (Text → ℕ) → Text → ℕ
put_score m v sc x = if text_eq m x then v else sc x

abbrev pub erase : Text → List Text → List Text
erase m [] = []
erase m (x ∷ xs) = let rest = erase m xs in if text_eq m x then rest else x ∷ rest

abbrev pub insert_ranked : (Text → ℕ) → Text → List Text → List Text
insert_ranked sc m [] = m ∷ []
insert_ranked sc m (x ∷ xs) =
    let rest = insert_ranked sc m xs in if leb (sc x) (sc m) then m ∷ x ∷ xs else x ∷ rest

All-erase :
    (P Q : Text → Type 0) (m : Text) (xs : List Text)
    → ((x : Text) → text_eq m x ≡ false → P x → Q x)
    → All P xs
    → All Q (erase m xs)
All-erase P Q m [] f h = tt
All-erase P Q m (x ∷ xs) f h = elim (Bool-cases (text_eq m x)) [
  | inl e ↦ rw e (All-erase P Q m xs f h.1)
  | inr e ↦ rw e (f x e h.0, All-erase P Q m xs f h.1)
]

-- Without `m`, its new score does not matter.
pub erase-IsRanked :
    (sc : Text → ℕ) (m : Text) (v : ℕ) (xs : List Text)
    → IsRanked sc xs
    → IsRanked (put_score m v sc) (erase m xs)
erase-IsRanked sc m v [] h = tt
erase-IsRanked sc m v (x ∷ xs) h = elim (Bool-cases (text_eq m x)) [
  | inl e ↦ rw e (erase-IsRanked sc m v xs h.1)
  | inr e ↦ rw e (
    All-erase (λ y. sc y ≤ sc x) (λ y. put_score m v sc y ≤ put_score m v sc x) m xs
        (λ y ne le. rw (ne, e) le) h.0,
    erase-IsRanked sc m v xs h.1,
  )
]

All-insert_ranked :
    (P : Text → Type 0) (sc : Text → ℕ) (m : Text) (xs : List Text)
    → P m
    → All P xs
    → All P (insert_ranked sc m xs)
All-insert_ranked P sc m [] p h = (p, tt)
All-insert_ranked P sc m (x ∷ xs) p h = elim (Bool-cases (leb (sc x) (sc m))) [
  | inl e ↦ rw e (p, h)
  | inr e ↦ rw e (h.0, All-insert_ranked P sc m xs p h.1)
]

pub insert_ranked-IsRanked :
    (sc : Text → ℕ) (m : Text) (xs : List Text)
    → IsRanked sc xs
    → IsRanked sc (insert_ranked sc m xs)
insert_ranked-IsRanked sc m [] h = (tt, tt)
insert_ranked-IsRanked sc m (x ∷ xs) h = elim (Bool-cases (leb (sc x) (sc m))) [
  | inl e ↦ rw e (
    (
      ground (arith, e),
      All-map (λ y. sc y ≤ sc x) (λ y. sc y ≤ sc m) xs (λ y le. ground (arith, e, le)) h.0,
    ),
    h,
  )
  | inr e ↦ rw e (
    All-insert_ranked (λ y. sc y ≤ sc x) sc m xs (ground (arith, e)) h.0,
    insert_ranked-IsRanked sc m xs h.1,
  )
]

All-take : (P : Text → Type 0) (n : ℕ) (xs : List Text) → All P xs → All P (take n xs)
All-take P zero xs h = tt
All-take P (suc n) [] h = tt
All-take P (suc n) (x ∷ xs) h = (h.0, All-take P n xs h.1)

pub take-IsRanked :
    (sc : Text → ℕ) (n : ℕ) (xs : List Text) → IsRanked sc xs → IsRanked sc (take n xs)
take-IsRanked sc zero xs h = tt
take-IsRanked sc (suc n) [] h = tt
take-IsRanked sc (suc n) (x ∷ xs) h =
    (All-take (λ y. sc y ≤ sc x) n xs h.0, take-IsRanked sc n xs h.1)

All-get_elem? :
    (P : Text → Type 0) (xs : List Text) (i : ℕ) (x : Text)
    → All P xs
    → get_elem? xs i ≡ some x
    → P x
All-get_elem? P [] i x h e = absurd (cc)
All-get_elem? P (y ∷ ys) zero x h e = subst P (eq_of_some e) h.0
All-get_elem? P (y ∷ ys) (suc i) x h e = All-get_elem? P ys i x h.1 e

-- The later of two has no higher score.
pub IsRanked-le :
    (sc : Text → ℕ) (xs : List Text) (i j : ℕ) (x y : Text)
    → IsRanked sc xs
    → i < j
    → get_elem? xs i ≡ some x
    → get_elem? xs j ≡ some y
    → sc y ≤ sc x
IsRanked-le sc [] i j x y h lt ex ey = absurd (cc)
IsRanked-le sc (z ∷ zs) i zero x y h lt ex ey = absurd (omega (arith, lt))
IsRanked-le sc (z ∷ zs) zero (suc j) x y h lt ex ey =
    subst (λ w. sc y ≤ sc w) (eq_of_some ex) (All-get_elem? (λ w. sc w ≤ sc z) zs j y h.0 ey)
IsRanked-le sc (z ∷ zs) (suc i) (suc j) x y h lt ex ey =
    IsRanked-le sc zs i j x y h.1 (omega arith) ex ey

-- A sorted set.
pub record Zset : Type 0 where
  pub score : Text → Option ℕ
  pub members : List Text
  pub ranked : IsRanked (score_or_zero score) members
