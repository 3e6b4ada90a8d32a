-- ===== src/Config.antt =====
-- How the programs read lists and defaults from flags and environment variables:
-- `BrokersFromCSV` of internal/kafka/producer.go, `splitCSV` and `envOr` of
-- cmd/telemetry_ingester/main.go, `buildOriginSet` of cmd/judge_api/main.go and
-- cmd/leaderboard_api/main.go. Strings are bytes; `TrimSpace` is that of ASCII text.
pub mod Lists
mod Tests
use iicpc_distributed_benchm.Base.{
  ℕ, ◌+◌, ◌/◌, ◌%◌, ◌==◌, ltb, if◌then◌else◌, List, [], ◌∷◌, ◌++◌, Bool, true, false, not, ◌&&◌,
  ◌||◌, Option, none, some, Text, text, text_eq, split, trim_space, comma,
}

abbrev pub is_empty : Text → Bool
is_empty [] = true
is_empty (c ∷ s) = false

-- `if p != "" { out = append(out, p) }`, in a loop over the parts.
abbrev pub keep_nonempty : List Text → List Text
keep_nonempty [] = []
keep_nonempty (p ∷ ps) =
    let rest = keep_nonempty ps in let q = trim_space p in if is_empty q then rest else q ∷ rest

-- `BrokersFromCSV` of ASCII text.
pub brokers_from_csv : Text → List Text
brokers_from_csv s = keep_nonempty (split comma s)

-- `buildOriginSet`; `none` is the nil map, and the set is the list of its insertions.
pub build_origin_set : Text → Option (List Text)
build_origin_set csv =
    let trimmed = trim_space csv in
    if is_empty trimmed then none else some (keep_nonempty (split comma trimmed))

-- `string(ch)` of a byte: the UTF-8 encoding of the code point with that number.
abbrev pub string_of_byte : ℕ → Text
string_of_byte ch = if ltb ch 128 then ch ∷ [] else (192 + ch / 64) ∷ (128 + ch % 64) ∷ []

-- The four bytes that `splitCSV` drops.
abbrev pub is_dropped : ℕ → Bool
is_dropped ch = ch == 32 || ch == 9 || ch == 10 || ch == 13

abbrev pub flush_part : Text → List Text → List Text
flush_part cur out = if is_empty cur then out else out ++ cur ∷ []

abbrev pub next_cur : ℕ → Text → Text
next_cur ch cur =
    if ch == comma then [] else if is_dropped ch then cur else cur ++ string_of_byte ch

abbrev pub next_out : ℕ → Text → List Text → List Text
next_out ch cur out = if ch == comma then flush_part cur out else out

-- The loop of `splitCSV` and the flush after it.
pub split_loop : Text → Text → List Text → List Text
split_loop [] cur out = flush_part cur out
split_loop (ch ∷ s) cur out = split_loop s (next_cur ch cur) (next_out ch cur out)

abbrev pub or_local : List Text → List Text
or_local [] = text "localhost:9092" ∷ []
or_local (p ∷ ps) = p ∷ ps

-- `splitCSV`
pub split_csv : Text → List Text
unfolding split_loop
split_csv s = or_local (split_loop s [] [])

-- `envOr`; the first argument is what `os.Getenv` returns.
pub env_or : Text → Text → Text
env_or v def = if is_empty v then def else v
