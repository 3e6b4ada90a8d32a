-- ===== src/Base/GoStrings.antt =====
-- The functions of package strings that the program calls, on byte strings. `trim_space` and
-- `to_lower` are those of ASCII text.
use mathlib.Core.Path.{◌≡◌, refl}
use mathlib.Core.Bool.{Bool, true, false, ◌&&◌, ◌||◌}
use mathlib.Core.List.{List, [], ◌∷◌, ◌++◌, reverse, reverse-reverse, reverse-cons}
use native.Mathlib.Omega.{arith}
use Prim.Native.Nat.{ℕ, ◌+◌}
use iicpc_distributed_benchm.Base.Tests.{if◌then◌else◌, leb, ◌==◌}
use iicpc_distributed_benchm.Base.Strings.{Text}
use iicpc_distributed_benchm.Base.Lists.{All, All-append}

abbrev pub comma : ℕ
comma = b','

abbrev pub cons_head : ℕ → List Text → List Text
cons_head c [] = (c ∷ []) ∷ []
cons_head c (s ∷ ss) = (c ∷ s) ∷ ss

-- `strings.Split` at one byte.
unfoldable pub split : ℕ → Text → List Text
split sep [] = [] ∷ []
split sep (c ∷ s) = let rest = split sep s in if c == sep then [] ∷ rest else cons_head c rest

-- `unicode.IsSpace` below 128.
abbrev pub is_space : ℕ → Bool
is_space c = c == 32 || (leb 9 c && leb c 13)

unfoldable pub trim_left : Text → Text
trim_left [] = []
trim_left (c ∷ s) = let rest = trim_left s in if is_space c then rest else c ∷ s

-- `strings.TrimSpace`
unfoldable pub trim_space : Text → Text
unfolding trim_left
trim_space s = reverse (trim_left (reverse (trim_left s)))

-- `strings.ToLower`
unfoldable pub to_lower : Text → Text
to_lower [] = []
to_lower (c ∷ s) = (if leb b'A' c && leb c b'Z' then c + 32 else c) ∷ to_lower s

-- A part that the parsers take as it stands: not empty, and with no comma and no space in it.
abbrev pub IsPlain : ℕ → Type 0
IsPlain c = ((c == comma) ≡ false) × (is_space c ≡ false)

abbrev pub AllPlain : Text → Type 0
AllPlain = All IsPlain

trim_left-eq : (s : Text) → AllPlain s → trim_left s ≡ s
unfolding trim_left
trim_left-eq [] h = refl
trim_left-eq (c ∷ s) h = ground arith

All-reverse : (P : ℕ → Type 0) (s : Text) → All P s → All P (reverse s)
All-reverse P [] h = tt
All-reverse P (c ∷ s) h =
    rw reverse-cons (All-append P (reverse s) (c ∷ []) (All-reverse P s h.1) (h.0, tt))

All-trim_left : (P : ℕ → Type 0) (s : Text) → All P s → All P (trim_left s)
unfolding trim_left
All-trim_left P [] h = tt
All-trim_left P (c ∷ s) h = elim (is_space c) as (λ b. All P (if b then trim_left s else c ∷ s)) [
  | true ↦ All-trim_left P s h.1
  | false ↦ h
]

-- `TrimSpace` adds no character.
pub All-trim_space : (P : ℕ → Type 0) (s : Text) → All P s → All P (trim_space s)
unfolding trim_space
All-trim_space P s h = All-reverse P _ (All-trim_left P _ (All-reverse P _ (All-trim_left P s h)))

pub trim_space-eq : (s : Text) → AllPlain s → trim_space s ≡ s
unfolding trim_space
trim_space-eq s h =
    rw (trim_left-eq s h, trim_left-eq (reverse s) (All-reverse IsPlain s h)) (reverse-reverse s)

pub split_last : (s : Text) → AllPlain s → split comma s ≡ s ∷ []
unfolding split
split_last [] h = refl
split_last (c ∷ s) h = rw (h.0.0, split_last s h.1)

pub split-append :
    (s rest : Text) → AllPlain s → split comma (s ++ comma ∷ rest) ≡ s ∷ split comma rest
unfolding split
split-append [] rest h = refl
split-append (c ∷ s) rest h = rw (h.0.0, split-append s rest h.1)
