-- ===== src/Judge/Engine/Paths.antt =====
-- What a run has done when it returns, on every path through `Run`.
use iicpc_distributed_benchm.Base.{
  ◌≡◌, refl, subst, if◌then◌else◌, List, [], ◌∷◌, ◌++◌, true, false, Option, none, some, Text, text,
  text_eq_refl, Result, done, failed,
}
use iicpc_distributed_benchm.Config.{is_empty}
use iicpc_distributed_benchm.Float.{Float64}
use iicpc_distributed_benchm.Sandbox.Size.{Size, size, empty_size, unknown_suffix, bad_number}
use iicpc_distributed_benchm.Sandbox.Container.{
  RunOptions, Call, ensure_internal_network, answer_list, run_sandbox, create_container,
  with_defaults,
}
use iicpc_distributed_benchm.Judge.Metrics.{drain_ring_buffer}
use iicpc_distributed_benchm.Judge.Engine.{
  Submission, Config, Effect, run_fleet, Outside, Finished, save_result, dockers, running_result,
  fail, complete, drained, options, after_fleet, after_probe, after_wait, with_container,
  after_sandbox, after_memory, after_network, run,
}
use iicpc_distributed_benchm.Judge.Engine.Outcome.{
  Opens, Opens-append, opened, Concluded, fail-Concluded, complete-Concluded, clean_up-Concluded,
  logs,
}

module _ (f : Float64) (cfg : Config) (sub : Submission) (o : Outside f) where
  abbrev Ends : List Text → Finished f → Type 0
  Ends ids fin = Concluded f cfg sub o ids fin

  abbrev Open : List Text → List (Effect f) → Type 0
  Open ids es = Opens f cfg sub o ids es

  after_fleet-Ends :
      (ids : List Text) (before : List (Effect f)) (e : Option Text)
      → Open ids before
      → Ends ids (after_fleet f cfg sub o before e)
  after_fleet-Ends ids before none op = complete-Concluded f cfg sub o ids before op
  after_fleet-Ends ids before (some e) op =
      elim o.run_ctx_done
        as (λ b. Ends ids (
          if b
          then complete f cfg sub o before (drained f cfg sub o (drain_ring_buffer f o.ring_buffer))
          else fail f cfg sub o before (text "bot fleet: " ++ e))) [
            | true ↦ complete-Concluded f cfg sub o ids before op
            | false ↦ fail-Concluded f cfg sub o ids before _ op
          ]

  after_probe-Ends :
      (ids : List Text) (before : List (Effect f)) (addr : Text) (e : Option Text)
      → Open ids before
      → Ends ids (after_probe f cfg sub o before addr e)
  after_probe-Ends ids before addr (some e) op = fail-Concluded f cfg sub o ids before _ op
  after_probe-Ends ids before addr none op =
      after_fleet-Ends ids _ o.fleet_error
        (Opens-append f cfg sub o ids ids before (run_fleet addr ∷ []) refl op)

  after_wait-Ends :
      (ids : List Text) (before : List (Effect f)) (addr : Text) (e : Option Text)
      → Open ids before
      → Ends ids (after_wait f cfg sub o before addr e)
  after_wait-Ends ids before addr (some e) op = fail-Concluded f cfg sub o ids before _ op
  after_wait-Ends ids before addr none op = after_probe-Ends ids before addr _ op

  -- If the run returns, it has concluded with no container left.
  abbrev EndsIfAny : Option (Finished f) → Type 0
  EndsIfAny none = Unit
  EndsIfAny (some fin) = Ends [] fin

  with_container-Ends :
      (before : List (Effect f)) (id addr : Text) (w : Option (Option Text))
      → Open (id ∷ []) before
      → EndsIfAny (with_container f cfg sub o before id addr w)
  with_container-Ends before id addr none op = tt
  with_container-Ends before id addr (some waited) op =
      clean_up-Concluded f cfg sub o id _ (after_wait-Ends (id ∷ []) before addr waited op)

  -- A request that fails leaves no container.
  failing :
      (before : List (Effect f)) (calls : List Call) (err : Text)
      → logs f (opened f cfg sub o []) (dockers f calls) ≡ opened f cfg sub o []
      → Open [] before
      → EndsIfAny (some (fail f cfg sub o (before ++ dockers f calls) err))
  failing before calls err same op =
      fail-Concluded f cfg sub o [] _ err
        (Opens-append f cfg sub o [] [] before (dockers f calls) same op)

  create_container-Ends :
      (before : List (Effect f)) (opt : RunOptions) (created : Result Text) (started : Option Text)
      → Open [] before
      → EndsIfAny (after_sandbox f cfg sub o before (create_container opt created started))
  create_container-Ends before opt (failed e) started op =
      failing before (create_container opt (failed e) started).1 _ refl op
  create_container-Ends before opt (done id) (some e) op =
      failing before (create_container opt (done id) (some e)).1 _ (rw (text_eq_refl id) refl) op
  create_container-Ends before opt (done id) none op =
      with_container-Ends _ id _ _ (Opens-append f cfg sub o [] (id ∷ []) before _ refl op)

  after_memory-Ends :
      (show : Size → Text) (before : List (Effect f)) (s : Size)
      → Open [] before
      → EndsIfAny (after_memory f cfg sub o show before s)
  unfolding run_sandbox
  after_memory-Ends show before (size n) op =
      elim (is_empty sub.image_tag)
        as (λ b. EndsIfAny (
          after_sandbox f cfg sub o before (
            if b
            then (failed (text "image is required"), [])
            else create_container (with_defaults (options f cfg sub o n)) o.container_created
                o.container_started))) [
                  | true ↦ failing before [] _ refl op
                  | false ↦
                      create_container-Ends before _ o.container_created o.container_started op
                ]
  after_memory-Ends show before empty_size op = fail-Concluded f cfg sub o [] before _ op
  after_memory-Ends show before (unknown_suffix c) op = fail-Concluded f cfg sub o [] before _ op
  after_memory-Ends show before bad_number op = fail-Concluded f cfg sub o [] before _ op

  after_network-Ends :
      (show : Size → Text) (before : List (Effect f)) (listed : Result (List Text))
      (created : Result Text) (name : Text)
      → Open [] before
      → EndsIfAny (after_network f cfg sub o show before (answer_list name listed created))
  after_network-Ends show before (failed e) created name op =
      failing before (answer_list name (failed e) created).1 _ refl op
  after_network-Ends show before (done (id ∷ ids)) created name op =
      after_memory-Ends show _ _ (Opens-append f cfg sub o [] [] before _ refl op)
  after_network-Ends show before (done []) (failed e) name op =
      failing before (answer_list name (done []) (failed e)).1 _ refl op
  after_network-Ends show before (done []) (done id) name op =
      after_memory-Ends show _ _ (Opens-append f cfg sub o [] [] before _ refl op)

  starts : Open [] (save_result f (running_result f cfg sub o))
  unfolding save_result Opens
  starts = refl

  run-Ends : (show : Size → Text) → EndsIfAny (run f cfg sub o show)
  unfolding run ensure_internal_network
  run-Ends show = after_network-Ends show _ o.networks o.network_created _ starts

  -- When `Run` returns, whatever the daemon, the engine, the fleet and the contexts answered: it has
  -- saved the running result and then the result that it returns, nothing else; it has pushed the
  -- run's id twice to the submission's list and twice to the contestant's; a forced removal has
  -- followed every start of a container; and either it returns no error, the result is the completed
  -- one with the statistics that `drainRingBuffer` returned, and the contestant was published once, or it returns an error, the result is failed with that error
  -- and nothing was published.
  pub run-Concluded :
      (show : Size → Text) (fin : Finished f)
      → run f cfg sub o show ≡ some fin
      → Concluded f cfg sub o [] fin
  run-Concluded show fin e = subst EndsIfAny e (run-Ends show)
