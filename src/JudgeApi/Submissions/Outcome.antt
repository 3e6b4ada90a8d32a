-- ===== src/JudgeApi/Submissions/Outcome.antt =====
-- What `createSubmission` replies and has changed, for everything that it is told.
use iicpc_distributed_benchm.Base.{
  ℕ, ◌≤◌, ◌<◌, ◌≡◌, ◌≢◌, ◌⊎◌, refl, ltb, ltb→lt, ltb_false→le, if◌then◌else◌, [], ◌∷◌, ◌++◌, Bool,
  true, false, Bool-cases, inl, inr, Text, text, length, add64, Result, done, failed,
}
use iicpc_distributed_benchm.Config.{is_empty}
use iicpc_distributed_benchm.JudgeApi.Submissions.{
  Body, Lookup, found, not_found, lookup_error, Save, saved_it, save_failed, Reply, http_error,
  accepted, Api, max_queue, enqueue, keep, submit, submission, with_contestant, create_submission,
}

-- A body with both of its fields.
abbrev pub IsWhole : Body → Type 0
IsWhole b = (b.contestant_id ≢ []) × (b.image_tag ≢ [])

-- The reply and the state after it, for the body, the answer of `GetContestant` and that of
-- `SaveSubmission`.
pub data Outcome (api : Api) (nanos : ℕ) : Result Body → Lookup → Save → Reply → Api → Type 0 where
  bad_body :
      {c : Lookup} {w : Save} (e : Text)
      → Outcome api nanos (failed e) c w (http_error 400 (text "invalid JSON: " ++ e)) api
  missing_field :
      {b : Body} {c : Lookup} {w : Save}
      → (b.contestant_id ≡ []) ⊎ (b.image_tag ≡ [])
      → Outcome api nanos
          (done b)
          c
          w
          (http_error 400 (text "contestant_id and image_tag are required"))
          api
  unknown :
      {b : Body} {w : Save}
      → IsWhole b
      → Outcome api nanos
          (done b)
          not_found
          w
          (http_error 404 (text "contestant not found: " ++ b.contestant_id))
          api
  no_answer :
      {b : Body} {w : Save} {e : Text}
      → IsWhole b
      → Outcome api nanos (done b) (lookup_error e) w (http_error 500 e) api
  not_stored :
      {b : Body} {e : Text}
      → IsWhole b
      → Outcome api nanos (done b) found (save_failed e false) (http_error 500 e) api
  stored_all_the_same :
      {b : Body} {e : Text}
      → IsWhole b
      → Outcome api nanos
          (done b)
          found
          (save_failed e true)
          (http_error 500 e)
          (record api { saved = submission b nanos ∷ api.saved })
  queued :
      {b : Body}
      → IsWhole b
      → api.engine ≡ true
      → length api.queue < 20
      → Outcome api nanos (done b) found saved_it (accepted (submission b nanos)) (record api {
        saved = submission b nanos ∷ api.saved;
        queue = api.queue ++ submission b nanos ∷ [];
        pending = add64 api.pending 1;
      })
  not_judged :
      {b : Body}
      → IsWhole b
      → api.engine ≡ false
      → Outcome api nanos
          (done b)
          found
          saved_it
          (accepted (submission b nanos))
          (record api { saved = submission b nanos ∷ api.saved })
  overflowed :
      {b : Body}
      → IsWhole b
      → api.engine ≡ true
      → 20 ≤ length api.queue
      → Outcome api nanos
          (done b)
          found
          saved_it
          (http_error 503 (text "judge queue full, try again later"))
          (record api { saved = submission b nanos ∷ api.saved })

is_empty-eq : (s : Text) → is_empty s ≡ true → s ≡ []
is_empty-eq [] h = refl
is_empty-eq (c ∷ s) h = absurd (cc)

is_empty-ne : (s : Text) → is_empty s ≡ false → s ≢ []
is_empty-ne [] h = absurd (cc)
is_empty-ne (c ∷ s) h = λ e. cc

module _ (api : Api) (nanos : ℕ) (b : Body) (whole : IsWhole b) where
  enqueue-Outcome :
      api.engine ≡ true
      → let r = enqueue (keep api (submission b nanos)) (submission b nanos) in
        Outcome api nanos (done b) found saved_it r.0 r.1
  unfolding max_queue
  enqueue-Outcome on = elim (Bool-cases (ltb (length api.queue) 20)) [
    | inl room ↦ rw room (queued whole on (ltb→lt _ _ room))
    | inr full ↦ rw full (overflowed whole on (ltb_false→le _ _ full))
  ]

  saved-Outcome :
      (on : Bool)
      → api.engine ≡ on
      → let r =
          if on
          then enqueue (keep api (submission b nanos)) (submission b nanos)
          else (accepted (submission b nanos), keep api (submission b nanos)) in
        Outcome api nanos (done b) found saved_it r.0 r.1
  saved-Outcome true on = enqueue-Outcome on
  saved-Outcome false off = not_judged whole off

  submit-Outcome :
      (w : Save)
      → let r = submit api (submission b nanos) w in Outcome api nanos (done b) found w r.0 r.1
  submit-Outcome (save_failed e true) = stored_all_the_same whole
  submit-Outcome (save_failed e false) = not_stored whole
  submit-Outcome saved_it = saved-Outcome api.engine refl

  with_contestant-Outcome :
      (c : Lookup) (w : Save)
      → let r = with_contestant api b c w nanos in Outcome api nanos (done b) c w r.0 r.1
  with_contestant-Outcome found w = submit-Outcome w
  with_contestant-Outcome not_found w = unknown whole
  with_contestant-Outcome (lookup_error e) w = no_answer whole

-- `createSubmission` replies 400 to a body that is no JSON or lacks a field, 404 or 500 if the
-- contestant is unknown or the lookup fails, and has then changed nothing; 500 if `SaveSubmission`
-- fails, which may have stored the submission; and else the submission is saved: 202 with it put at the
-- end of the queue, which held fewer than 20; 202 with it saved alone, if there is no engine; or 503
-- with it saved all the same, if the queue holds 20.
pub create_submission-Outcome :
    (api : Api) (nanos : ℕ) (body : Result Body) (contestant : Lookup) (save : Save)
    → Outcome api nanos body contestant save
        (create_submission api body contestant save nanos).0
        (create_submission api body contestant save nanos).1
unfolding create_submission
create_submission-Outcome api nanos (failed e) c w = bad_body e
create_submission-Outcome api nanos (done b) c w = elim (Bool-cases (is_empty b.contestant_id)) [
  | inl no_id ↦ rw no_id (missing_field (inl (is_empty-eq b.contestant_id no_id)))
  | inr id ↦ elim (Bool-cases (is_empty b.image_tag)) [
    | inl no_tag ↦ rw (id, no_tag) (missing_field (inr (is_empty-eq b.image_tag no_tag)))
    | inr tag ↦
        rw (id, tag)
          (with_contestant-Outcome api nanos b
            (is_empty-ne b.contestant_id id, is_empty-ne b.image_tag tag) c w)
  ]
]
