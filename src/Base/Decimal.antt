-- ===== src/Base/Decimal.antt =====
-- `%d` of package fmt, for a number that is not negative.
use mathlib.Core.Path.{◌≡◌, refl, ap, ◌∙◌, sym}
use mathlib.Core.Bool.{true, ◌&&◌}
use mathlib.Core.Logic.{inl, inr}
use mathlib.Core.List.{[], ◌∷◌, ◌++◌, foldl, foldl-append}
use native.Mathlib.Omega.{arith}
use Prim.Native.Nat.{ℕ, zero, suc, ◌+◌, ◌-◌, ◌*◌, ◌/◌, ◌%◌, ◌<◌}
use iicpc_distributed_benchm.Base.Tests.{if◌then◌else◌, ltb, leb, Bool-cases}
use iicpc_distributed_benchm.Base.Lists.{All, All-append}
use iicpc_distributed_benchm.Base.Strings.{Text}

decimal_fuel : ℕ → ℕ → Text
decimal_fuel zero n = []
decimal_fuel (suc fuel) n =
    let rest = decimal_fuel fuel (n / 10) ++ (48 + n % 10) ∷ [] in
    if ltb n 10 then (48 + n) ∷ [] else rest

-- A number has at most as many digits as it counts, and one more.
unfoldable pub decimal : ℕ → Text
unfolding decimal_fuel
decimal n = decimal_fuel (suc n) n

abbrev pub digit_step : ℕ → ℕ → ℕ
digit_step v c = v * 10 + (c - 48)

unfoldable pub value : Text → ℕ
value = foldl digit_step 0

value-decimal_fuel : (fuel n : ℕ) → n < fuel → value (decimal_fuel fuel n) ≡ n
unfolding value decimal_fuel
value-decimal_fuel zero n h = elim h [ ]
value-decimal_fuel (suc fuel) n h = elim (Bool-cases (ltb n 10)) [
  | inl small ↦ rw small (omega arith)
  | inr large ↦ rw large (
      foldl-append digit_step 0 (decimal_fuel fuel (n / 10)) ((48 + n % 10) ∷ [])
      ∙ (ap (λ v. v * 10 + (48 + n % 10 - 48)) (value-decimal_fuel fuel (n / 10) (ground arith))
          ∙ omega arith))
]

pub value-decimal : (n : ℕ) → value (decimal n) ≡ n
unfolding decimal
value-decimal n = value-decimal_fuel (suc n) n (omega arith)

pub decimal-injective : (n m : ℕ) → decimal n ≡ decimal m → n ≡ m
decimal-injective n m e = sym (value-decimal n) ∙ (ap value e ∙ value-decimal m)

decimal_fuel-digits :
    (fuel n : ℕ) → All (λ c. (leb b'0' c && leb c b'9') ≡ true) (decimal_fuel fuel n)
unfolding decimal_fuel
decimal_fuel-digits zero n = tt
decimal_fuel-digits (suc fuel) n = elim (Bool-cases (ltb n 10)) [
  | inl small ↦ rw small (ground arith, tt)
  | inr large ↦ rw large (
      All-append _ (decimal_fuel fuel (n / 10)) _ (decimal_fuel-digits fuel (n / 10))
        (ground arith, tt))
]

pub decimal-digits : (n : ℕ) → All (λ c. (leb b'0' c && leb c b'9') ≡ true) (decimal n)
unfolding decimal
decimal-digits n = decimal_fuel-digits (suc n) n

last_cons : (s : Text) (c : ℕ) → (d : ℕ) × (t : Text) × (s ++ c ∷ [] ≡ d ∷ t)
last_cons [] c = (c, [], refl)
last_cons (d ∷ s) c = (d, s ++ c ∷ [], refl)

pub decimal-cons : (n : ℕ) → (d : ℕ) × (t : Text) × (decimal n ≡ d ∷ t)
unfolding decimal decimal_fuel
decimal-cons n = elim (Bool-cases (ltb n 10)) [
  | inl small ↦ rw small (48 + n, [], refl)
  | inr large ↦ rw large (last_cons (decimal_fuel n (n / 10)) (48 + n % 10))
]
