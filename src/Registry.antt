-- ===== src/Registry.antt =====
-- internal/registry/registry.go: contestants, submissions and run results in Redis. Package json is
-- an interface, and what fails of a round trip to Redis is an argument.
pub mod Reads
pub mod Contestants
pub mod Submissions
pub mod Runs
use iicpc_distributed_benchm.Base.{
  ℕ, ◌-◌, ◌==◌, if◌then◌else◌, List, [], ◌∷◌, ◌++◌, map, Bool, Option, none, some, Text, text,
  Result, done, failed,
}
use iicpc_distributed_benchm.Float.{Float64}
use iicpc_distributed_benchm.Redis.{Redis}
use iicpc_distributed_benchm.Judge.Engine.{Submission, RunResult}

-- `json.Marshal`, whose error the code drops, and `json.Unmarshal` for one type.
pub record Json (A : Type 0) : Type 0 where
  pub marshal : A → Text
  pub unmarshal : Text → Result A

-- `Contestant`
pub record Contestant : Type 0 where
  pub id : Text
  pub display_name : Text
  pub registered_at : ℕ

-- A result with its error: the two of the package, or one of Redis or of package json.
pub data Reply (A : Type 0) : Type 0 where
  value : (a : A) → Reply A
  not_found : Reply A
  already_exists : Reply A
  failure : (message : Text) → Reply A

-- A round trip that changes the server: it is answered, or it is not, and the server is in whatever
-- state it was left.
pub data Trip (S : Type 0) : Type 0 where
  answered : Trip S
  broken : (message : Text) (after : S) → Trip S

abbrev pub unmarshal_reply : {A : Type 0} → Result A → Reply A
unmarshal_reply (done a) = value a
unmarshal_reply (failed e) = failure e

abbrev pub keep_done : {A : Type 0} → Result A → List A → List A
keep_done (done a) rest = a ∷ rest
keep_done (failed e) rest = rest

module _ (r : Redis) where
  open r use {S, get, mget, exists_key, smembers, lrange, set_key, sadd, lpush, ltrim}

  abbrev pub finish_trip : Trip S → S → Reply (Unit {0}) × S
  finish_trip answered s = (value tt, s)
  finish_trip (broken e s') s = (failure e, s')

  module _ {A : Type 0} (json : Json A) where
    abbrev pub decode_value : Option Text → Reply A
    decode_value none = not_found
    decode_value (some v) = unmarshal_reply (json.unmarshal v)

    -- `GET` of one key, and its value decoded.
    abbrev pub read_key : Option Text → Text → S → Reply A
    read_key none key s = decode_value (get s key)
    read_key (some e) key s = failure e

    -- The loop over the replies of `MGET`.
    abbrev pub decode_all : List (Option Text) → List A
    decode_all [] = []
    decode_all (none ∷ vs) = decode_all vs
    decode_all (some v ∷ vs) = keep_done (json.unmarshal v) (decode_all vs)

    abbrev pub read_many : Option Text → List Text → S → Reply (List A)
    read_many none keys s = value (decode_all (mget s keys))
    read_many (some e) keys s = failure e

    -- The values at a prefix and each of the ids; no ids, no call.
    abbrev pub read_ids : Option Text → Text → List Text → S → Reply (List A)
    read_ids fault prefix [] s = value []
    read_ids fault prefix (id ∷ ids) s = read_many fault (map (λ i. prefix ++ i) (id ∷ ids)) s

    -- The ids of a list or a set, read by the first round trip, and their values by the second.
    abbrev pub read_list : Option Text → Option Text → Text → List Text → S → Reply (List A)
    read_list none fault prefix ids s = read_ids fault prefix ids s
    read_list (some e) fault prefix ids s = failure e

  module _ (json : Json Contestant) where
    abbrev pub add_contestant : Bool → Trip S → Contestant → S → Reply (Unit {0}) × S
    add_contestant exists trip c s =
        let added = finish_trip trip (
          sadd (text "contestants") c.id
            (set_key (text "contestant:" ++ c.id) (json.marshal c) s)) in
        if exists then (already_exists, s) else added

    -- `RegisterContestant`
    unfoldable pub register_contestant :
        Option Text → Trip S → Contestant → S → Reply (Unit {0}) × S
    register_contestant none trip c s =
        add_contestant (exists_key s (text "contestant:" ++ c.id)) trip c s
    register_contestant (some e) trip c s = (failure e, s)

    -- `GetContestant`
    unfoldable pub get_contestant : Option Text → Text → S → Reply Contestant
    get_contestant fault id s = read_key json fault (text "contestant:" ++ id) s

    -- `ListContestants`
    unfoldable pub list_contestants : Option Text → Option Text → S → Reply (List Contestant)
    list_contestants fault fault₂ s =
        read_list json fault fault₂ (text "contestant:") (smembers s (text "contestants")) s

  module _ (json : Json Submission) where
    abbrev pub submissions_key : Text → Text
    submissions_key cid = text "submissions:contestant:" ++ cid

    -- The pipeline of `SaveSubmission`.
    unfoldable pub store_submission : Submission → S → S
    store_submission x s = ltrim (submissions_key x.contestant_id) 0 99 (
        lpush (submissions_key x.contestant_id) x.id
          (set_key (text "submission:" ++ x.id) (json.marshal x) s))

    -- `SaveSubmission`
    unfoldable pub save_submission : Trip S → Submission → S → Reply (Unit {0}) × S
    unfolding store_submission
    save_submission trip x s = finish_trip trip (store_submission x s)

    -- `GetSubmission`
    unfoldable pub get_submission : Option Text → Text → S → Reply Submission
    get_submission fault id s = read_key json fault (text "submission:" ++ id) s

    -- `ListSubmissions`
    unfoldable pub list_submissions : Option Text → Option Text → Text → S → Reply (List Submission)
    list_submissions fault fault₂ cid s =
        read_list json fault fault₂ (text "submission:") (lrange s (submissions_key cid) 0 99) s

  module _ (f : Float64) (json : Json (RunResult f)) where
    -- `GetRunResult`
    unfoldable pub get_run_result : Option Text → Text → S → Reply (RunResult f)
    get_run_result fault run_id s = read_key json fault (text "run:" ++ run_id) s

    -- `ListRunsForContestant`; a limit that is not positive is 0 here.
    unfoldable pub list_runs_for_contestant :
        Option Text → Option Text → Text → ℕ → S → Reply (List (RunResult f))
    list_runs_for_contestant fault fault₂ cid limit s =
        let n = if limit == 0 then 20 else limit in
        read_list json fault fault₂ (text "run:")
          (lrange s (text "runs:contestant:" ++ cid) 0 (n - 1)) s
