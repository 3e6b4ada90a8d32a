-- ===== src/Base/Numbers.antt =====
-- `strconv.ParseInt(s, 10, 64)` and `strconv.Atoi`. An int64 is the word of its two's complement.
use mathlib.Core.Path.{◌≡◌, refl, sym, ap, subst, ◌∙◌}
use mathlib.Core.Bool.{Bool, true, false, ◌&&◌}
use mathlib.Core.Option.{Option, none, some}
use mathlib.Core.List.{[], ◌∷◌, foldl}
use native.Mathlib.Omega.{arith}
use Prim.Native.Nat.{ℕ, ◌+◌, ◌-◌, ◌*◌, ◌%◌, ◌^◌, ◌<◌}
use iicpc_distributed_benchm.Base.Tests.{if◌then◌else◌, ltb, leb, ◌==◌, u64_mod}
use iicpc_distributed_benchm.Base.Strings.{Text}
use iicpc_distributed_benchm.Base.Lists.{All}
use iicpc_distributed_benchm.Base.Decimal.{
  decimal, decimal-digits, decimal-cons, digit_step, value, value-decimal,
}

abbrev pub is_digit : ℕ → Bool
is_digit c = leb b'0' c && leb c b'9'

unfoldable pub digits_value : Text → ℕ → Option ℕ
digits_value [] v = some v
digits_value (c ∷ s) v =
    let rest = digits_value s (v * 10 + (c - 48)) in if is_digit c then rest else none

abbrev pub digits : Text → Option ℕ
digits [] = none
digits (c ∷ s) = digits_value (c ∷ s) 0

abbrev pub positive : Option ℕ → Option ℕ
positive none = none
positive (some v) = if ltb v (2 ^ 63) then some v else none

abbrev pub negative : Option ℕ → Option ℕ
negative none = none
negative (some v) = if leb v (2 ^ 63) then some ((u64_mod - v) % u64_mod) else none

-- `strconv.ParseInt(s, 10, 64)`
abbrev pub parse_int : Text → Option ℕ
parse_int [] = none
parse_int (c ∷ s) =
    if c == b'+'
    then positive (digits s)
    else if c == b'-'
    then negative (digits s)
    else positive (digits (c ∷ s))

abbrev pub IsDigit : ℕ → Type 0
IsDigit c = is_digit c ≡ true

digits_value-eq :
    (s : Text) (v : ℕ) → All IsDigit s → digits_value s v ≡ some (foldl digit_step v s)
unfolding digits_value
digits_value-eq [] v h = refl
digits_value-eq (c ∷ s) v h = rw h.0 (digits_value-eq s (digit_step v c) h.1)

pub parse_int-digits :
    (c : ℕ) (s : Text)
    → All IsDigit (c ∷ s)
    → foldl digit_step 0 (c ∷ s) < 2 ^ 63
    → parse_int (c ∷ s) ≡ some (foldl digit_step 0 (c ∷ s))
parse_int-digits c s h small =
    rw (not_sign b'+' (omega arith), not_sign b'-' (omega arith), digits_value-eq (c ∷ s) 0 h)
      (ground arith)
  where
    not_sign : (d : ℕ) → d < 48 → (c == d) ≡ false
    not_sign d low = ground (arith, h.0)

-- The digits of a number that an int64 holds read back.
pub parse_int-decimal : (n : ℕ) → n < 2 ^ 63 → parse_int (decimal n) ≡ some n
unfolding value
parse_int-decimal n small =
    let (c, s, e) = decimal-cons n in
    let v : foldl digit_step 0 (c ∷ s) ≡ n = ap value (sym e) ∙ value-decimal n in
    rw e (
      parse_int-digits c s (subst (All IsDigit) e (decimal-digits n)) (omega (arith, v, small))
      ∙ ap some v)
