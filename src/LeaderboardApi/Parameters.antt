-- ===== src/LeaderboardApi/Parameters.antt =====
-- The query parameters `limit` and `hours`, and `setCORS`. An int64 is its word: those below 2^63 are
-- not negative.
use iicpc_distributed_benchm.Base.{
  ℕ, ◌^◌, ◌≤◌, ◌≡◌, sym, ap, ◌∙◌, leb, ltb, ◌&&◌, if◌then◌else◌, List, [], ◌∷◌, ◌++◌, Option, none,
  some, Text, text, decimal, decimal-cons, parse_int, parse_int-decimal, arith,
}
use iicpc_distributed_benchm.Store.{history_hours}
use iicpc_distributed_benchm.JudgeApi.Cors.{origin_headers}

abbrev pub limit_of : Option ℕ → ℕ
limit_of none = 50
limit_of (some v) = if ltb 0 v && leb v 1000 then v else 50

abbrev pub hours_of : Option ℕ → ℕ
hours_of none = 1
hours_of (some v) = if ltb 0 v && ltb v (2 ^ 63) then v else 1

-- `limit` of `/leaderboard`, from the parameter's text.
unfoldable pub parse_limit : Text → ℕ
parse_limit [] = 50
parse_limit (c ∷ s) = limit_of (parse_int (c ∷ s))

-- `hours` of `/contestants/{id}/history`.
unfoldable pub parse_hours : Text → ℕ
parse_hours [] = 1
parse_hours (c ∷ s) = hours_of (parse_int (c ∷ s))

-- `setCORS`
unfoldable pub set_cors : Option (List Text) → Text → List (Text × Text)
set_cors origins origin =
    origin_headers origins origin
    ++ (text "Access-Control-Allow-Methods", text "GET, OPTIONS")
      ∷ (text "Access-Control-Allow-Headers", text "Content-Type")
      ∷ []

limit_of-bounds : (o : Option ℕ) → (1 ≤ limit_of o) × (limit_of o ≤ 1000)
limit_of-bounds none = (omega arith, omega arith)
limit_of-bounds (some v) = (ground arith, ground arith)

parse_limit-bounds : (s : Text) → (1 ≤ parse_limit s) × (parse_limit s ≤ 1000)
unfolding parse_limit
parse_limit-bounds [] = (omega arith, omega arith)
parse_limit-bounds (c ∷ s) = limit_of-bounds (parse_int (c ∷ s))

history_hours-bounds : (n : ℕ) → (1 ≤ history_hours n) × (history_hours n ≤ 168)
unfolding history_hours
history_hours-bounds n = (ground arith, ground arith)

parse_limit-decimal : (n : ℕ) → 1 ≤ n → n ≤ 1000 → parse_limit (decimal n) ≡ n
unfolding parse_limit
parse_limit-decimal n low high =
    let (c, s, e) = decimal-cons n in
    rw e (ap limit_of (ap parse_int (sym e) ∙ parse_int-decimal n (omega arith)) ∙ ground arith)

parse_hours-decimal : (n : ℕ) → 1 ≤ n → n ≤ 168 → history_hours (parse_hours (decimal n)) ≡ n
unfolding parse_hours history_hours
parse_hours-decimal n low high =
    let (c, s, e) = decimal-cons n in
    rw e (
      ap (λ o. history_hours (hours_of o))
        (ap parse_int (sym e) ∙ parse_int-decimal n (omega arith))
      ∙ ground arith)

-- Whatever the text of the parameters: the limit of the leaderboard lies between 1 and 1000, and the
-- hours that the history asks the database for between 1 and 168; and a decimal numeral of a number
-- between these bounds is read as that number.
pub parameters_bounded :
    (s : Text) (n : ℕ)
    → (1 ≤ parse_limit s)
      × (parse_limit s ≤ 1000)
      × (1 ≤ history_hours (parse_hours s))
      × (history_hours (parse_hours s) ≤ 168)
      × (1 ≤ n → n ≤ 1000 → parse_limit (decimal n) ≡ n)
      × (1 ≤ n → n ≤ 168 → history_hours (parse_hours (decimal n)) ≡ n)
parameters_bounded s n =
    let l = parse_limit-bounds s in
    let h = history_hours-bounds (parse_hours s) in
    (l.0, l.1, h.0, h.1, parse_limit-decimal n, parse_hours-decimal n)
