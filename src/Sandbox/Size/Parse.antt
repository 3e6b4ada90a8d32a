-- ===== src/Sandbox/Size/Parse.antt =====
-- The sizes that `ParseBytes` reads.
use mathlib.Core.List.{foldl}
use iicpc_distributed_benchm.Base.{
  text, ℕ, ◌*◌, ◌%◌, ◌^◌, ◌<◌, ◌≡◌, refl, ap, sym, subst, ◌∙◌, leb, ◌&&◌, [], ◌∷◌, ◌++◌, false,
  some, Text, to_lower, trim_space-eq, IsPlain, All, All-map, All-append, decimal, decimal-digits,
  decimal-cons, digit_step, value, value-decimal, u64_mod, arith, is_digit, IsDigit,
  parse_int-digits,
}
use iicpc_distributed_benchm.Sandbox.Size.{size, unsnoc, multiplier, parse_trimmed, parse_bytes}

unsnoc-append : (c : ℕ) (s : Text) (d : ℕ) → unsnoc c (s ++ d ∷ []) ≡ (c ∷ s, d)
unfolding unsnoc
unsnoc-append c [] d = refl
unsnoc-append c (e ∷ s) d = rw (unsnoc-append e s d) refl

unsnoc-IsDigit : (c : ℕ) (s : Text) → IsDigit c → All IsDigit s → IsDigit (unsnoc c s).1
unfolding unsnoc
unsnoc-IsDigit c [] h hs = h
unsnoc-IsDigit c (d ∷ s) h hs = unsnoc-IsDigit d s hs.0 hs.1

IsKept : ℕ → Type 0
IsKept c = ((leb b'A' c && leb c b'Z') ≡ false) × IsPlain c

to_lower-eq : (s : Text) → All IsKept s → to_lower s ≡ s
unfolding to_lower IsKept
to_lower-eq [] h = refl
to_lower-eq (c ∷ s) h = rw (h.0.0, to_lower-eq s h.1) refl

kept : (s : Text) → All IsKept s → parse_bytes s ≡ parse_trimmed s
unfolding parse_bytes IsKept
kept s h = rw (to_lower-eq s h, trim_space-eq s (All-map IsKept IsPlain s (λ c k. k.1) h)) refl

digit-IsKept : (c : ℕ) → IsDigit c → IsKept c
unfolding IsKept
digit-IsKept c h = (ground arith, (ground arith, ground arith))

-- The three suffixes.
IsSuffix : ℕ → ℕ → Type 0
IsSuffix c mult = (multiplier c ≡ some mult) × (is_digit c ≡ false) × IsKept c

multiplier-IsSuffix : (c mult : ℕ) → multiplier c ≡ some mult → IsSuffix c mult
unfolding IsSuffix IsKept
multiplier-IsSuffix c mult h =
    (h, ground (arith, h), (ground (arith, h), (ground (arith, h), ground (arith, h))))

trimmed-digits :
    (c : ℕ) (s : Text)
    → All IsDigit (c ∷ s)
    → foldl digit_step 0 (c ∷ s) < 2 ^ 63
    → parse_trimmed (c ∷ s) ≡ size (foldl digit_step 0 (c ∷ s))
trimmed-digits c s h small =
    rw (unsnoc-IsDigit c s h.0 h.1, parse_int-digits c s h small) (ap size (omega arith))

trimmed-suffix :
    (c : ℕ) (s : Text) (d mult : ℕ)
    → All IsDigit (c ∷ s)
    → foldl digit_step 0 (c ∷ s) < 2 ^ 63
    → IsSuffix d mult
    → parse_trimmed (c ∷ (s ++ d ∷ [])) ≡ size (foldl digit_step 0 (c ∷ s) * mult % u64_mod)
unfolding IsSuffix
trimmed-suffix c s d mult h small k =
    rw (unsnoc-append c s d, k.1, k.0, parse_int-digits c s h small) refl

shown :
    (n c : ℕ) (s : Text)
    → decimal n ≡ c ∷ s
    → All IsDigit (c ∷ s)
    → value (c ∷ s) ≡ n
    → n < 2 ^ 63
    → (parse_bytes (decimal n) ≡ size n)
      × ((d mult : ℕ)
          → multiplier d ≡ some mult
          → parse_bytes (decimal n ++ d ∷ []) ≡ size (n * mult % u64_mod))
unfolding value IsSuffix
shown n c s e ds v small =
    let ks = All-map IsDigit IsKept (c ∷ s) digit-IsKept ds in
    let below : foldl digit_step 0 (c ∷ s) < 2 ^ 63 = omega (arith, v, small) in
    (
      rw e (kept (c ∷ s) ks ∙ (trimmed-digits c s ds below ∙ ap size v)),
      λ d mult m. rw e (
          kept (c ∷ (s ++ d ∷ []))
            (All-append IsKept (c ∷ s) (d ∷ []) ks ((multiplier-IsSuffix d mult m).2, tt))
          ∙ (trimmed-suffix c s d mult ds below (multiplier-IsSuffix d mult m)
              ∙ ap (λ v. size (v * mult % u64_mod)) v)),
    )

-- The decimal digits of a number below 2^63 read back as that number; with the suffix `k`, `m` or `g`
-- they read as its product with 2^10, 2^20 or 2^30, modulo 2^64.
pub parse_bytes-decimal :
    (n : ℕ)
    → n < 2 ^ 63
    → (parse_bytes (decimal n) ≡ size n)
      × (parse_bytes (decimal n ++ text "k") ≡ size (n * 1024 % 2 ^ 64))
      × (parse_bytes (decimal n ++ text "m") ≡ size (n * 1_048_576 % 2 ^ 64))
      × (parse_bytes (decimal n ++ text "g") ≡ size (n * 1_073_741_824 % 2 ^ 64))
parse_bytes-decimal n small =
    let (c, s, e) = decimal-cons n in
    let ds = subst (All IsDigit) e (decimal-digits n) in
    let read = shown n c s e ds (ap value (sym e) ∙ value-decimal n) small in
    (read.0, read.1 b'k' 1024 refl, read.1 b'm' 1_048_576 refl, read.1 b'g' 1_073_741_824 refl)
