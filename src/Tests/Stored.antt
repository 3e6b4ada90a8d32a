-- ===== src/Tests/Stored.antt =====
-- The registry and a run of the judge, on a server.
use iicpc_distributed_benchm.Base.{
  ℕ, ◌≡◌, ◌≢◌, refl, ap, sym, ◌∙◌, ◌+◌, eq_of_some, get_or, [], ◌∷◌, take, Option, none, some, Text,
  text, done, arith,
}
use iicpc_distributed_benchm.Tests.Instances.{whole}
use iicpc_distributed_benchm.Tests.Server.{server, server_laws, empty_server}
use iicpc_distributed_benchm.Tests.Judging.{
  sub, config, outside, no_text, dials-Spaced, length-dials,
}
use iicpc_distributed_benchm.Judge.Engine.{Submission, running_result, Finished, RunResult, run}
use iicpc_distributed_benchm.Base.{trim_space, trim_left, to_lower, digits_value}
use iicpc_distributed_benchm.Sandbox.Size.{parse_bytes, unsnoc}
use iicpc_distributed_benchm.Sandbox.Container.{run_sandbox, ensure_internal_network}
use iicpc_distributed_benchm.Judge.Ready.{wait_for_grpc, wait_loop}
use iicpc_distributed_benchm.Registry.{Json, Contestant, value, answered, list_submissions}
use iicpc_distributed_benchm.Registry.Submissions.{save_all, list_submissions-save_all}
use iicpc_distributed_benchm.Registry.Runs.{IsRead, run_stored}
use iicpc_distributed_benchm.JudgeApi.Handlers.{
  json_resp, http_err, Registration, Messages, contestant_of, post_contestant, get_contestant_by_id,
}
use iicpc_distributed_benchm.JudgeApi.Handlers.Registered.{IsAcceptable, post_contestant-get}

-- Contestants named Alice, of one time.
abbrev contestant_json : Json Contestant
contestant_json = record {
  marshal = λ c. c.id;
  unmarshal = λ id. done (record { id = id; display_name = text "Alice"; registered_at = 3 });
}

abbrev messages : Messages
messages = record { not_found = text "none"; already_exists = text "taken" }

abbrev registration : Text → Registration
registration name = record { id = text "alice"; display_name = name }

registration-IsAcceptable : (c : ℕ) (name : Text) → IsAcceptable (registration (c ∷ name))
registration-IsAcceptable c name = record {
  id_nonempty = omega arith;
  id_short = omega arith;
  id_chars = (ground arith, (ground arith, (ground arith, (ground arith, (ground arith, tt)))));
  named = refl;
}

abbrev submission_json : Json Submission
submission_json = record {
  marshal = λ x. x.id;
  unmarshal =
      λ id. done (record { id = id; contestant_id = text "alice"; image_tag = text "alice:1" });
}

abbrev numbered_sub : ℕ → Submission
numbered_sub n = record { id = n ∷ []; contestant_id = text "alice"; image_tag = text "alice:1" }

list_submissions-save_all_example :
    list_submissions server submission_json none none (text "alice") (
      save_all server server_laws submission_json
        (numbered_sub 2 ∷ numbered_sub 1 ∷ [])
        empty_server)
    ≡ value (take 100 (numbered_sub 2 ∷ numbered_sub 1 ∷ []))
list_submissions-save_all_example =
    list_submissions-save_all server server_laws submission_json (text "alice")
      (numbered_sub 2 ∷ numbered_sub 1 ∷ []) empty_server (λ n small. refl) (refl, (refl, tt))
      ((λ e. omega (arith, ap (λ t. get_or t 0 0) e), tt), (tt, tt)) (refl, (refl, tt))

abbrev alice : Contestant
alice = contestant_of server messages contestant_json (registration (text "Alice")) 3

post_contestant-get_example :
    let (response, s) =
      post_contestant server messages contestant_json none answered
        (done (registration (text "Alice")))
        3
        empty_server in
    (response ≡ json_resp 201 alice)
    × (get_contestant_by_id server messages contestant_json none (text "alice") s
        ≡ json_resp 200 alice)
    × ((j : Text)
        → text "alice" ≢ j
        → get_contestant_by_id server messages contestant_json none j s
          ≡ get_contestant_by_id server messages contestant_json none j empty_server)
    × (post_contestant server messages contestant_json none answered
          (done (registration (text "Bob")))
          4
          s
        ≡ (http_err 409 (text "taken"), s))
post_contestant-get_example =
    post_contestant-get server messages contestant_json server_laws (registration (text "Alice"))
      (registration (text "Bob")) 3 4 answered empty_server
      (registration-IsAcceptable b'A' (text "lice")) (registration-IsAcceptable b'B' (text "ob"))
      refl refl refl

abbrev or_else : {A : Type 0} → Option A → A → A
or_else none a = a
or_else (some b) a = b

-- The run of `Tests.Judging`, where everything succeeds.
abbrev finished : Finished whole
unfolding run parse_bytes trim_space trim_left to_lower unsnoc digits_value run_sandbox
    ensure_internal_network wait_for_grpc wait_loop
finished =
    or_else (run whole config sub outside no_text)
      (record { result = running_result whole config sub outside; error = none; effects = [] })

run_finished : run whole config sub outside no_text ≡ some finished
unfolding run parse_bytes trim_space trim_left to_lower unsnoc digits_value run_sandbox
    ensure_internal_network wait_for_grpc wait_loop
run_finished = refl

abbrev run_json : Json (RunResult whole)
run_json = record { marshal = λ x. x.run_id; unmarshal = λ t. done (finished.result) }

run_json-back :
    (fin : Finished whole)
    → run whole config sub outside no_text ≡ some fin
    → run_json.unmarshal (run_json.marshal fin.result) ≡ done fin.result
run_json-back fin e = ap (λ x. done x.result) (eq_of_some (sym run_finished ∙ e))

run_stored_example :
    (fin : Finished whole) × (run whole config sub outside no_text ≡ some fin)
    × IsRead server whole run_json server_laws config sub outside fin empty_server
run_stored_example =
    run_stored server whole run_json server_laws config sub outside no_text empty_server
      (omega arith, dials-Spaced 40 (6 + 300_000_000))
      (omega (arith, length-dials 40 (6 + 300_000_000))) run_json-back
