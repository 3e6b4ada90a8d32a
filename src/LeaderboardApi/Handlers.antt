-- ===== src/LeaderboardApi/Handlers.antt =====
-- The handlers of `/leaderboard`, `/contestants/` and `/runs/` of cmd/leaderboard_api/main.go. What
-- Redis and the database reply, and the decoding of JSON objects, are arguments. `drop` takes the
-- prefix that the mux has matched off a path.
pub mod Routes
pub mod Ranks
use iicpc_distributed_benchm.Base.{
  ℕ, ◌-◌, ◌==◌, if◌then◌else◌, List, [], ◌∷◌, ◌++◌, map, Bool, Option, none, some, Text, text,
  text_eq, drop, length, Result, done, failed,
}
use iicpc_distributed_benchm.Float.{Float64}
use iicpc_distributed_benchm.Store.{ContestantStats, query_history}
use iicpc_distributed_benchm.LeaderboardApi.Parameters.{parse_limit, parse_hours, set_cors}

-- What a handler writes after its headers: 204, an error of `jsonErr`, 404, or a value as JSON.
pub data Response (A : Type 0) : Type 0 where
  no_content : Response A
  json_err : (code : ℕ) (message : Text) → Response A
  not_found : Response A
  json_value : (a : A) → Response A

-- A handler's reply to `OPTIONS` comes before all else.
abbrev pub unless_options : {A : Type 0} → Text → Response A → Response A
unless_options method r = if text_eq method (text "OPTIONS") then no_content else r

abbrev pub answer : {A : Type 0} → Result A → Response A
answer (failed e) = json_err 500 e
answer (done a) = json_value a

-- `rest[:slash]` and `rest[slash+1:]` at the first `/`; none without one.
abbrev pub cons_first : ℕ → Option (Text × Text) → Option (Text × Text)
cons_first c none = none
cons_first c (some (a, b)) = some (c ∷ a, b)

unfoldable pub cut_first : Text → Option (Text × Text)
cut_first [] = none
cut_first (c ∷ s) =
    let rest = cons_first c (cut_first s) in if c == b'/' then some ([], s) else rest

-- The same at the last `/`.
abbrev pub cons_last : ℕ → Text → Option (Text × Text) → Option (Text × Text)
cons_last c s none = if c == b'/' then some ([], s) else none
cons_last c s (some (a, b)) = some (c ∷ a, b)

unfoldable pub cut_last : Text → Option (Text × Text)
cut_last [] = none
cut_last (c ∷ s) = cons_last c s (cut_last s)

-- JSON objects: decoding, and `obj[key] = value`.
pub record Objects : Type 1 where
  pub Obj : Type 0
  pub decode : Text → Result Obj
  pub set_field : Text → Text → Obj → Obj

module _ (objects : Objects) where
  open objects use {Obj, decode, set_field}

  abbrev pub add_entry : Text → Result Obj → List Obj → List Obj
  add_entry cid (failed e) rest = rest
  add_entry cid (done obj) rest = set_field (text "contestant_id") cid obj ∷ rest

  -- The loop over the replies of `MGET`, one for each contestant.
  unfoldable pub payload : List Text → List (Option Text) → List Obj
  payload [] vals = []
  payload (cid ∷ cids) [] = []
  payload (cid ∷ cids) (none ∷ vals) = payload cids vals
  payload (cid ∷ cids) (some v ∷ vals) = add_entry cid (decode v) (payload cids vals)

  abbrev pub respond_entries : List Text → Result (List (Option Text)) → Response (List Obj)
  respond_entries cids (failed e) = json_err 500 e
  respond_entries cids (done vals) = json_value (payload cids vals)

  abbrev pub leaderboard_key : Text → Text
  leaderboard_key cid = text "leaderboard:" ++ cid

  abbrev pub respond_ranks :
      (List Text → Result (List (Option Text))) → Result (List Text) → Response (List Obj)
  respond_ranks mget (failed e) = json_err 500 e
  respond_ranks mget (done []) = json_value []
  respond_ranks mget (done (cid ∷ cids)) =
      respond_entries (cid ∷ cids) (mget (map leaderboard_key (cid ∷ cids)))

  -- `/leaderboard`: `ZREVRANGE` between two ranks, then `MGET`.
  unfoldable pub leaderboard :
      (ℕ → ℕ → Result (List Text))
      → (List Text → Result (List (Option Text)))
      → Text
      → Text
      → Response (List Obj)
  leaderboard zrevrange mget method limit =
      unless_options method (respond_ranks mget (zrevrange 0 (parse_limit limit - 1)))

module _ (f : Float64) where
  abbrev pub history_of :
      (Text → ℕ → Result (List (Result (ContestantStats f)) × Option Text))
      → Text
      → Option (Text × Text)
      → Response (List (ContestantStats f))
  history_of query hours none = not_found
  history_of query hours (some (cid, endpoint)) =
      let found = answer (query_history f query cid (parse_hours hours)) in
      if text_eq endpoint (text "history") then found else not_found

  abbrev pub with_database : {A : Type 0} → Bool → Response A → Response A
  with_database configured r =
      if configured then r else json_err 503 (text "timescaledb not configured")

  -- `/contestants/{id}/history`
  unfoldable pub history :
      (Text → ℕ → Result (List (Result (ContestantStats f)) × Option Text))
      → Bool
      → Text
      → Text
      → Text
      → Response (List (ContestantStats f))
  history query configured method path hours = unless_options method (
      with_database configured
        (history_of query hours (cut_first (drop (length (text "/contestants/")) path))))

  abbrev pub stats_of :
      (Text → Result (ContestantStats f)) → Option (Text × Text) → Response (ContestantStats f)
  stats_of query none = not_found
  stats_of query (some (run_id, endpoint)) =
      let found = answer (query run_id) in
      if text_eq endpoint (text "stats") then found else not_found

  -- `/runs/{id}/stats`, for what `QueryRunStats` returns.
  unfoldable pub run_stats :
      (Text → Result (ContestantStats f)) → Bool → Text → Text → Response (ContestantStats f)
  run_stats query configured method path =
      unless_options method
        (with_database configured (stats_of query (cut_last (drop (length (text "/runs/")) path))))
