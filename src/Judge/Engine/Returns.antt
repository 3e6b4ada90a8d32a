-- ===== src/Judge/Engine/Returns.antt =====
-- A run returns, and has concluded, once the wait for the engine's port is over.
use iicpc_distributed_benchm.Base.{
  ◌≤◌, ◌≡◌, refl, if◌then◌else◌, List, [], ◌∷◌, true, false, Option, none, some, Text, text, length,
  Result, done, failed,
}
use iicpc_distributed_benchm.Config.{is_empty}
use iicpc_distributed_benchm.Float.{Float64}
use iicpc_distributed_benchm.Sandbox.Size.{Size, size, empty_size, unknown_suffix, bad_number}
use iicpc_distributed_benchm.Sandbox.Container.{
  RunOptions, ensure_internal_network, answer_list, run_sandbox, create_container, with_defaults,
}
use iicpc_distributed_benchm.Judge.Ready.{wait_for_grpc}
use iicpc_distributed_benchm.Judge.Ready.Bounded.{Spaced, wait_for_grpc-returns}
use iicpc_distributed_benchm.Judge.Engine.{
  Submission, Config, Effect, Outside, Finished, options, after_sandbox, after_memory,
  after_network, run,
}
use iicpc_distributed_benchm.Judge.Engine.Outcome.{Concluded}
use iicpc_distributed_benchm.Judge.Engine.Paths.{run-Concluded}

module _ (f : Float64) (cfg : Config) (sub : Submission) (o : Outside f) where
  abbrev IsReturned : Option (Finished f) → Type 0
  IsReturned r = (fin : Finished f) × (r ≡ some fin)

  module _
      (waits : (addr : Text)
        → (e : Option Text) × (wait_for_grpc addr o.dial_start o.attempts ≡ some e)) where
    create_container-IsReturned :
        (before : List (Effect f)) (opt : RunOptions) (created : Result Text)
        (started : Option Text)
        → IsReturned (after_sandbox f cfg sub o before (create_container opt created started))
    create_container-IsReturned before opt (failed e) started = (_, refl)
    create_container-IsReturned before opt (done id) (some e) = (_, refl)
    create_container-IsReturned before opt (done id) none = rw (waits _).1 (_, refl)

    after_memory-IsReturned :
        (show : Size → Text) (before : List (Effect f)) (s : Size)
        → IsReturned (after_memory f cfg sub o show before s)
    unfolding run_sandbox
    after_memory-IsReturned show before (size n) =
        elim (is_empty sub.image_tag)
          as (λ b. IsReturned (
            after_sandbox f cfg sub o before (
              if b
              then (failed (text "image is required"), [])
              else create_container (with_defaults (options f cfg sub o n)) o.container_created
                  o.container_started))) [
                    | true ↦ (_, refl)
                    | false ↦
                        create_container-IsReturned before _ o.container_created o.container_started
                  ]
    after_memory-IsReturned show before empty_size = (_, refl)
    after_memory-IsReturned show before (unknown_suffix c) = (_, refl)
    after_memory-IsReturned show before bad_number = (_, refl)

    after_network-IsReturned :
        (show : Size → Text) (before : List (Effect f)) (listed : Result (List Text))
        (created : Result Text) (name : Text)
        → IsReturned (after_network f cfg sub o show before (answer_list name listed created))
    after_network-IsReturned show before (failed e) created name = (_, refl)
    after_network-IsReturned show before (done (id ∷ ids)) created name =
        after_memory-IsReturned show _ _
    after_network-IsReturned show before (done []) (failed e) name = (_, refl)
    after_network-IsReturned show before (done []) (done id) name = after_memory-IsReturned show _ _

    run-IsReturned : (show : Size → Text) → IsReturned (run f cfg sub o show)
    unfolding run ensure_internal_network
    run-IsReturned show = after_network-IsReturned show _ o.networks o.network_created _

  -- If the dials of `waitForGRPC` end at least 300 ms apart and 35 of them are made, `Run` returns,
  -- whatever the daemon, the engine, the fleet and the contexts answer. It has then saved the running
  -- result and after it the result that it returns, nothing else; it has pushed the run's id twice to
  -- the submission's list and twice to the contestant's; a forced removal has followed every start of
  -- a container; and either it returns no error, the result is the completed one with the statistics
  -- that `drainRingBuffer` returned, and the contestant was published once, or it returns an error, the
  -- result is failed with that error and nothing was published.
  pub run_concludes :
      (show : Size → Text)
      → Spaced o.dial_start o.attempts
      → 35 ≤ length o.attempts
      → (fin : Finished f) × (run f cfg sub o show ≡ some fin) × Concluded f cfg sub o [] fin
  run_concludes show spaced enough =
      let (fin, e) =
        run-IsReturned (λ addr. wait_for_grpc-returns addr o.dial_start o.attempts spaced enough)
          show in
      (fin, e, run-Concluded f cfg sub o show fin e)
