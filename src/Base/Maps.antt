-- ===== src/Base/Maps.antt =====
-- Go maps with string keys, as association lists.
use mathlib.Core.Path.{◌≡◌, refl}
use mathlib.Core.Bool.{false}
use mathlib.Core.Logic.{inl, inr}
use mathlib.Core.Option.{Option, none, some}
use mathlib.Core.List.{List, [], ◌∷◌}
use native.Mathlib.Omega.{arith}
use iicpc_distributed_benchm.Base.Tests.{if◌then◌else◌, Bool-cases}
use iicpc_distributed_benchm.Base.Strings.{Text, text_eq, text_eq_iff}

abbrev pub Assoc {ℓ} : Type ℓ → Type ℓ
Assoc V = List (Text × V)

module _ {ℓ} {V : Type ℓ} where
  -- `v, ok := m[k]`
  unfoldable pub lookup : Text → Assoc V → Option V
  lookup k [] = none
  lookup k ((j, v) ∷ m) = if text_eq j k then some v else lookup k m

  -- `m[k] = v`
  unfoldable pub insert : Text → V → Assoc V → Assoc V
  insert k v [] = (k, v) ∷ []
  insert k v ((j, w) ∷ m) = if text_eq j k then (k, v) ∷ m else (j, w) ∷ insert k v m

  -- `delete(m, k)`
  unfoldable pub remove : Text → Assoc V → Assoc V
  remove k [] = []
  remove k ((j, w) ∷ m) = let rest = remove k m in if text_eq j k then rest else (j, w) ∷ rest

  -- `m[k]`, which is the zero value at a missing key.
  unfoldable pub lookup_or : V → Text → Assoc V → V
  lookup_or d k m = elim (lookup k m) [ none ↦ d | some v ↦ v ]

  pub lookup-insert :
      (k j : Text) (v : V) (m : Assoc V)
      → lookup j (insert k v m) ≡ (if text_eq k j then some v else lookup j m)
  unfolding lookup insert
  lookup-insert k j v [] = refl
  lookup-insert k j v ((i, w) ∷ m) =
      ground (arith, text_eq_iff k j, text_eq_iff i k, text_eq_iff i j, lookup-insert k j v m)

  pub lookup-remove :
      (k j : Text) (m : Assoc V)
      → lookup j (remove k m) ≡ (if text_eq k j then none else lookup j m)
  unfolding lookup remove
  lookup-remove k j [] = ground arith
  lookup-remove k j ((i, w) ∷ m) =
      ground (arith, lookup-remove k j m, text_eq_iff i k, text_eq_iff i j, text_eq_iff k j)

  pub lookup_or-insert :
      (d : V) (k j : Text) (v : V) (m : Assoc V)
      → lookup_or d j (insert k v m) ≡ (if text_eq k j then v else lookup_or d j m)
  unfolding lookup_or
  lookup_or-insert d k j v m = ground (arith, lookup-insert k j v m)

module _ {ℓ} {V : Type ℓ} where
  pub lookup-insert_self : (k : Text) (v : V) (m : Assoc V) → lookup k (insert k v m) ≡ some v
  lookup-insert_self k v m = ground (arith, lookup-insert k k v m, text_eq_iff k k)

  pub lookup-insert_ne :
      (k j : Text) (v : V) (m : Assoc V)
      → text_eq k j ≡ false
      → lookup j (insert k v m) ≡ lookup j m
  lookup-insert_ne k j v m h = ground (arith, lookup-insert k j v m)

  pub lookup_or-insert_self :
      (d : V) (k : Text) (v : V) (m : Assoc V) → lookup_or d k (insert k v m) ≡ v
  lookup_or-insert_self d k v m = ground (arith, lookup_or-insert d k k v m, text_eq_iff k k)

  pub lookup_or-insert_ne :
      (d : V) (k j : Text) (v : V) (m : Assoc V)
      → text_eq k j ≡ false
      → lookup_or d j (insert k v m) ≡ lookup_or d j m
  lookup_or-insert_ne d k j v m h = ground (arith, lookup_or-insert d k j v m)

  -- Every key stands once.
  abbrev pub KeysDistinct : Assoc V → Type ℓ
  KeysDistinct [] = Unit
  KeysDistinct ((k, v) ∷ m) = (lookup k m ≡ none) × KeysDistinct m

  pub insert-KeysDistinct :
      (k : Text) (v : V) (m : Assoc V) → KeysDistinct m → KeysDistinct (insert k v m)
  unfolding insert lookup
  insert-KeysDistinct k v [] h = (refl, tt)
  insert-KeysDistinct k v ((j, w) ∷ m) h = elim (Bool-cases (text_eq j k)) [
    | inl same ↦ rw same (rw (← (text_eq_iff j k).0 same) h.0, h.1)
    | inr other ↦ rw other (
      ground (arith, h.0, lookup-insert k j v m, text_eq_iff k j, text_eq_iff j k),
      insert-KeysDistinct k v m h.1,
    )
  ]

pub lookup_or-nil {ℓ} : {V : Type ℓ} (d : V) (k : Text) → lookup_or d k [] ≡ d
unfolding lookup_or lookup
lookup_or-nil d k = refl

pub lookup-nil {ℓ} : {V : Type ℓ} (k : Text) → lookup {V = V} k [] ≡ none
unfolding lookup
lookup-nil k = refl
