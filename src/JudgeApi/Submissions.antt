-- ===== src/JudgeApi/Submissions.antt =====
-- `createSubmission` of cmd/judge_api/main.go. The body, the registry's answers and the clock are
-- arguments; the channel is the list of what it holds.
pub mod Outcome
use iicpc_distributed_benchm.Base.{
  ℕ, ◌+◌, ◌≤◌, ◌<◌, ◌≡◌, refl, ltb, ◌||◌, if◌then◌else◌, List, [], ◌∷◌, ◌++◌, Bool, true, false,
  Bool-cases, inl, inr, Option, none, some, Text, text, decimal, length, add64, Result, done,
  failed, arith,
}
use iicpc_distributed_benchm.Config.{is_empty}
use iicpc_distributed_benchm.Judge.Engine.{Submission}

-- The decoded body.
pub record Body : Type 0 where
  pub contestant_id : Text
  pub image_tag : Text

-- What `GetContestant` returns, but for the contestant.
pub data Lookup : Type 0 where
  found not_found : Lookup
  lookup_error : (message : Text) → Lookup

-- What `SaveSubmission` returns; a pipeline that fails may have stored the submission or not.
pub data Save : Type 0 where
  saved_it : Save
  save_failed : (message : Text) (stored : Bool) → Save

-- `httpErr` with its code and message, or `jsonResp` with 202.
pub data Reply : Type 0 where
  http_error : (code : ℕ) (message : Text) → Reply
  accepted : (sub : Submission) → Reply

-- What `createSubmission` reads and changes: whether there is an engine, the channel, `pending`, and
-- the submissions saved in the registry.
pub record Api : Type 0 where
  pub engine : Bool
  pub queue : List Submission
  pub pending : ℕ
  pub saved : List Submission

unfoldable pub max_queue : ℕ
max_queue = 20

abbrev pub enqueue : Api → Submission → Reply × Api
unfolding max_queue
enqueue api sub =
    if ltb (length api.queue) max_queue
    then (accepted sub, record api { queue = api.queue ++ sub ∷ []; pending = add64 api.pending 1 })
    else (http_error 503 (text "judge queue full, try again later"), api)

abbrev pub keep : Api → Submission → Api
keep api sub = record api { saved = sub ∷ api.saved }

abbrev pub submit : Api → Submission → Save → Reply × Api
submit api sub (save_failed e stored) = (http_error 500 e, if stored then keep api sub else api)
submit api sub saved_it =
    let kept = keep api sub in
    let queued = enqueue kept sub in if api.engine then queued else (accepted sub, kept)

abbrev pub submission : Body → ℕ → Submission
submission body nanos = record {
  id = body.contestant_id ++ text "-" ++ decimal nanos;
  contestant_id = body.contestant_id;
  image_tag = body.image_tag;
}

abbrev pub with_contestant : Api → Body → Lookup → Save → ℕ → Reply × Api
with_contestant api body not_found save nanos =
    (http_error 404 (text "contestant not found: " ++ body.contestant_id), api)
with_contestant api body (lookup_error e) save nanos = (http_error 500 e, api)
with_contestant api body found save nanos = submit api (submission body nanos) save

-- `createSubmission`
unfoldable pub create_submission : Api → Result Body → Lookup → Save → ℕ → Reply × Api
create_submission api (failed e) contestant save nanos =
    (http_error 400 (text "invalid JSON: " ++ e), api)
create_submission api (done body) contestant save nanos =
    let rest = with_contestant api body contestant save nanos in
    if is_empty body.contestant_id || is_empty body.image_tag
    then (http_error 400 (text "contestant_id and image_tag are required"), api)
    else rest
