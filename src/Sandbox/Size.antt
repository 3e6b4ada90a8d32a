-- ===== src/Sandbox/Size.antt =====
-- `ParseBytes` of internal/sandbox/docker.go. An int64 is its two's complement word below 2^64, so
-- the product wraps around at 2^64.
pub mod Parse
use iicpc_distributed_benchm.Base.{
  ℕ, zero, suc, ◌+◌, ◌-◌, ◌*◌, ◌%◌, ◌^◌, ◌==◌, ltb, leb, ◌&&◌, if◌then◌else◌, List, [], ◌∷◌, Bool,
  true, false, Option, none, some, Text, to_lower, trim_space, u64_mod, is_digit, parse_int,
}

-- What `ParseBytes` returns: the size, or why there is none.
pub data Size : Type 0 where
  size : (n : ℕ) → Size
  empty_size : Size
  unknown_suffix : (c : ℕ) → Size
  bad_number : Size

-- All but the last byte, and the last byte.
unfoldable pub unsnoc : ℕ → Text → Text × ℕ
unsnoc c [] = ([], c)
unsnoc c (d ∷ s) = let (init, last) = unsnoc d s in (c ∷ init, last)

abbrev pub scaled : Option ℕ → ℕ → Size
scaled none mult = bad_number
scaled (some n) mult = size (n * mult % u64_mod)

abbrev pub multiplier : ℕ → Option ℕ
multiplier c =
    if c == b'k'
    then some 1024
    else if c == b'm'
    then some (1024 * 1024)
    else if c == b'g'
    then some (1024 * 1024 * 1024)
    else none

abbrev pub with_suffix : Text → ℕ → Option ℕ → Size
with_suffix init last none = unknown_suffix last
with_suffix init last (some mult) = scaled (parse_int init) mult

abbrev pub parse_trimmed : Text → Size
parse_trimmed [] = empty_size
parse_trimmed (c ∷ s) =
    let (init, last) = unsnoc c s in
    if is_digit last then scaled (parse_int (c ∷ s)) 1 else with_suffix init last (multiplier last)

-- `ParseBytes` of ASCII text.
unfoldable pub parse_bytes : Text → Size
parse_bytes s = parse_trimmed (trim_space (to_lower s))
