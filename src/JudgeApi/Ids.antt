-- ===== src/JudgeApi/Ids.antt =====
-- `isValidID` of cmd/judge_api/main.go. The loop is over code points; one above 127 is encoded in
-- bytes above 127, so the loop over bytes refuses the same strings.
use iicpc_distributed_benchm.Base.{
  ℕ, ◌≤◌, ◌<◌, ◌≡◌, ◌↔◌, ◌⊎◌, refl, ◌==◌, ltb, leb, ◌||◌, ◌&&◌, if◌then◌else◌, [], ◌∷◌, Bool, true,
  false, Bool-cases, inl, inr, Text, length, All, arith,
}

abbrev pub is_letter : ℕ → Bool
is_letter c = (leb b'a' c && leb c b'z') || (leb b'A' c && leb c b'Z')

abbrev pub is_id_char : ℕ → Bool
is_id_char c = is_letter c || (leb b'0' c && leb c b'9') || c == b'-' || c == b'_'

pub all_id_chars : Text → Bool
all_id_chars [] = true
all_id_chars (c ∷ s) = let rest = all_id_chars s in if is_id_char c then rest else false

-- `isValidID`
unfoldable pub is_valid_id : Text → Bool
unfolding all_id_chars
is_valid_id id =
    let all = all_id_chars id in if length id == 0 || ltb 64 (length id) then false else all

-- The characters of an id, by their codes; `:` and the wildcards of Redis patterns are not among them.
abbrev pub IsIdChar : ℕ → Type 0
IsIdChar c =
    ((97 ≤ c) × (c ≤ 122)) ⊎ ((65 ≤ c) × (c ≤ 90)) ⊎ ((48 ≤ c) × (c ≤ 57)) ⊎ (c ≡ 45) ⊎ (c ≡ 95)

is_id_char_iff : (c : ℕ) → (is_id_char c ≡ true) ↔ IsIdChar c
is_id_char_iff c = (λ h. ground (arith, h), λ h. ground (arith, h))

all_id_chars_iff : (s : Text) → (all_id_chars s ≡ true) ↔ All IsIdChar s
unfolding all_id_chars
all_id_chars_iff [] = (λ h. tt, λ h. refl)
all_id_chars_iff (c ∷ s) = elim (Bool-cases (is_id_char c)) [
  | inl good ↦
      rw good (
        λ h. ((is_id_char_iff c).0 good, (all_id_chars_iff s).0 h),
        λ h. (all_id_chars_iff s).1 h.1,
      )
  | inr bad ↦
      rw bad (
        λ h. absurd (ground (arith, h)),
        λ h. absurd (ground (arith, bad, (is_id_char_iff c).1 h.0)),
      )
]

-- `isValidID` accepts exactly the strings of 1 to 64 bytes whose bytes are letters, digits, `-` or
-- `_`.
pub is_valid_id_iff :
    (id : Text) → (is_valid_id id ≡ true) ↔ ((0 < length id) × (length id ≤ 64) × All IsIdChar id)
unfolding is_valid_id
is_valid_id_iff id = (
  λ h. (ground (arith, h), ground (arith, h), (all_id_chars_iff id).0 (ground (arith, h))),
  λ h. ground (arith, h.0, h.1, (all_id_chars_iff id).1 h.2),
)
