-- ===== src/JudgeApi/Handlers.antt =====
-- The handlers of cmd/judge_api/main.go that pass the registry on, and those of its administration.
-- A reply is a status code with a message or a value; the registry's faults are arguments.
pub mod Registered
pub mod Scans
use iicpc_distributed_benchm.Base.{
  ℕ, ◌==◌, ◌||◌, not, if◌then◌else◌, List, [], ◌∷◌, ◌++◌, Bool, true, false, Option, none, some,
  Text, text, Result, done, failed,
}
use iicpc_distributed_benchm.Config.{is_empty}
use iicpc_distributed_benchm.Float.{Float64}
use iicpc_distributed_benchm.Redis.{Redis}
use iicpc_distributed_benchm.Judge.Engine.{Submission, RunResult}
use iicpc_distributed_benchm.Registry.{
  Json, Contestant, Reply, value, not_found, already_exists, failure, Trip, register_contestant,
  get_contestant, list_contestants, get_submission, list_submissions, get_run_result,
  list_runs_for_contestant,
}
use iicpc_distributed_benchm.JudgeApi.Ids.{is_valid_id}
use iicpc_distributed_benchm.JudgeApi.Submissions.{Api}

-- `httpErr` or `jsonResp`.
pub data Response (A : Type 0) : Type 0 where
  http_err : (code : ℕ) (message : Text) → Response A
  json_resp : (code : ℕ) (a : A) → Response A

-- The body of a registration.
pub record Registration : Type 0 where
  pub id : Text
  pub display_name : Text

-- The texts of the registry's errors, which package fmt writes.
pub record Messages : Type 0 where
  pub not_found : Text
  pub already_exists : Text

abbrev pub respond_one : {A : Type 0} → Messages → Reply A → Response A
respond_one m (value a) = json_resp 200 a
respond_one m not_found = http_err 404 m.not_found
respond_one m already_exists = http_err 500 m.already_exists
respond_one m (failure e) = http_err 500 e

abbrev pub respond_many : {A : Type 0} → Messages → Reply A → Response A
respond_many m (value a) = json_resp 200 a
respond_many m not_found = http_err 500 m.not_found
respond_many m already_exists = http_err 500 m.already_exists
respond_many m (failure e) = http_err 500 e

abbrev pub respond_created : Messages → Contestant → Reply (Unit {0}) → Response Contestant
respond_created m c (value a) = json_resp 201 c
respond_created m c not_found = http_err 500 m.not_found
respond_created m c already_exists = http_err 409 m.already_exists
respond_created m c (failure e) = http_err 500 e

module _ (r : Redis) (m : Messages) where
  open r use {S}

  module _ (json : Json Contestant) where
    abbrev pub contestant_of : Registration → ℕ → Contestant
    contestant_of body now = record {
      id = body.id;
      display_name = body.display_name;
      registered_at = now;
    }

    abbrev pub register_valid : Option Text → Trip S → Contestant → S → Response Contestant × S
    register_valid fault trip c s =
        let (reply, s') = register_contestant r json fault trip c s in
        (respond_created m c reply, s')

    -- `registerContestant`
    unfoldable pub post_contestant :
        Option Text → Trip S → Result Registration → ℕ → S → Response Contestant × S
    post_contestant fault trip (failed e) now s = (http_err 400 (text "invalid JSON: " ++ e), s)
    post_contestant fault trip (done body) now s =
        let registered = register_valid fault trip (contestant_of body now) s in
        if is_empty body.id || is_empty body.display_name
        then (http_err 400 (text "id and display_name are required"), s)
        else if not (is_valid_id body.id)
        then (
          http_err 400 (text "id must be alphanumeric with hyphens/underscores, max 64 chars"),
          s,
        )
        else registered

    -- `listContestants`
    unfoldable pub get_contestants : Option Text → Option Text → S → Response (List Contestant)
    get_contestants fault fault₂ s = respond_many m (list_contestants r json fault fault₂ s)

    -- `getContestant`
    unfoldable pub get_contestant_by_id : Option Text → Text → S → Response Contestant
    get_contestant_by_id fault id s = respond_one m (get_contestant r json fault id s)

  module _ (json : Json Submission) where
    -- `getSubmission`
    unfoldable pub get_submission_by_id : Option Text → Text → S → Response Submission
    get_submission_by_id fault id s = respond_one m (get_submission r json fault id s)

    -- `listSubmissions`
    unfoldable pub get_submissions :
        Option Text → Option Text → Text → S → Response (List Submission)
    get_submissions fault fault₂ id s = respond_many m (list_submissions r json fault fault₂ id s)

  module _ (f : Float64) (json : Json (RunResult f)) where
    -- `getRun`
    unfoldable pub get_run : Option Text → Text → S → Response (RunResult f)
    get_run fault id s = respond_one m (get_run_result r f json fault id s)

    -- `listRuns`
    unfoldable pub get_runs : Option Text → Option Text → Text → S → Response (List (RunResult f))
    get_runs fault fault₂ id s =
        respond_many m (list_runs_for_contestant r f json fault fault₂ id 20 s)

-- `getQueueStatus`: the words of `pending` and `running`.
abbrev pub get_queue_status : ℕ → ℕ → Response (ℕ × ℕ)
get_queue_status pending running = json_resp 200 (pending, running)

abbrev pub check_of : Option Text → Text
check_of none = text "ok"
check_of (some e) = text "error: " ++ e

-- The entry `docker`; without an engine there is no ping.
abbrev pub docker_of : Option (Option Text) → Text → Text
docker_of none unavailable = unavailable
docker_of (some ping) unavailable = check_of ping

abbrev pub status_of : Option Text → Text
status_of none = text "ok"
status_of (some e) = text "degraded"

-- `deepHealth`: `redis`, `docker` and `status`. The outer option of `docker` is the engine.
unfoldable pub deep_health :
    Option Text → Option (Option Text) → Text → Response (Text × Text × Text)
deep_health redis docker unavailable =
    json_resp 200 (check_of redis, docker_of docker unavailable, status_of redis)

-- A page of `SCAN`: its keys and the next cursor, or an error; and the error of the `DEL` of the keys.
pub record Page : Type 0 where
  pub reply : Result (List Text × ℕ)
  pub del_error : Option Text

-- What a handler has asked to delete, and its error; none while the cursor is not 0.
pub record Scanned : Type 0 where
  pub deleted : List (List Text)
  pub outcome : Option (Option Text)

abbrev pub after_page : List Text → Bool → Option Text → Scanned → Scanned
after_page [] true del_error rest = record { deleted = []; outcome = some none }
after_page [] false del_error rest = rest
after_page (k ∷ ks) at_end (some e) rest = record {
  deleted = (k ∷ ks) ∷ [];
  outcome = some (some e);
}
after_page (k ∷ ks) true none rest = record { deleted = (k ∷ ks) ∷ []; outcome = some none }
after_page (k ∷ ks) false none rest = record rest { deleted = (k ∷ ks) ∷ rest.deleted }

abbrev pub page_step : Result (List Text × ℕ) → Option Text → Scanned → Scanned
page_step (failed e) del_error rest = record { deleted = []; outcome = some (some e) }
page_step (done (keys, next)) del_error rest = after_page keys (next == 0) del_error rest

-- The loop over the pages of one pattern, as in `resetLeaderboard` and `clearRuns`.
unfoldable pub scan_loop : List Page → Scanned
scan_loop [] = record { deleted = []; outcome = none }
scan_loop (p ∷ ps) = page_step p.reply p.del_error (scan_loop ps)

abbrev pub finish_scan : Text → Scanned → Option (Response Text)
finish_scan status s = elim s.outcome [
  | none ↦ none
  | some none ↦ some (json_resp 200 status)
  | some (some e) ↦ some (http_err 500 e)
]

-- `resetLeaderboard`, for the error of the first `DEL`; a reply once the scan has ended.
unfoldable pub reset_leaderboard : Option Text → List Page → Option (Response Text)
reset_leaderboard (some e) pages = some (http_err 500 e)
reset_leaderboard none pages = finish_scan (text "leaderboard reset") (scan_loop pages)

-- `clearRuns`: the pages of `run:*`, and then those of `runs:*`.
abbrev pub second_scan : Option (Option Text) → Scanned → Scanned → Scanned
second_scan none first second = first
second_scan (some (some e)) first second = first
second_scan (some none) first second = record {
  deleted = first.deleted ++ second.deleted;
  outcome = second.outcome;
}

unfoldable pub clear_runs : List Page → List Page → Option (Response Text) × List (List Text)
clear_runs run_pages runs_pages =
    let first = scan_loop run_pages in
    let all = second_scan first.outcome first (scan_loop runs_pages) in
    (finish_scan (text "runs cleared") all, all.deleted)
