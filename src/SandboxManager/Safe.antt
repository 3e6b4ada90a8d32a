-- ===== src/SandboxManager/Safe.antt =====
-- What the command `run` starts, whatever its flags.
use iicpc_distributed_benchm.Base.{
  ℕ, ◌≡◌, ◌<◌, ◌⊎◌, inl, inr, Bool-cases, text_eq, text_eq_refl, if◌then◌else◌, refl, List, [], ◌∷◌,
  ◌++◌, Option, none, some, Text, All, All-append, Result, done, failed, arith,
}
use iicpc_distributed_benchm.Config.{is_empty}
use iicpc_distributed_benchm.Sandbox.Size.{
  Size, size, empty_size, unknown_suffix, bad_number, parse_bytes,
}
use iicpc_distributed_benchm.Sandbox.Container.{
  RunOptions, Call, network_list, network_create, container_create, container_start, container_stop,
  container_remove, ensure_internal_network, run_sandbox, create_container, with_defaults,
}
use iicpc_distributed_benchm.Sandbox.Container.Hardened.{IsHardenedCall, run_sandbox-IsHardened}
use iicpc_distributed_benchm.SandboxManager.{
  Daemon, Exit, RunFlags, with_client, exit_of, options_of, after_network, run_with, run_cmd,
}

abbrev drop_id : Text → List Text → List Text
drop_id id [] = []
drop_id id (x ∷ ids) = let rest = drop_id id ids in if text_eq id x then rest else x ∷ rest

-- The containers that were started and whose removal was not asked for.
abbrev pub left_from : List Text → List Call → List Text
left_from ids [] = ids
left_from ids (container_start id ∷ cs) = left_from (id ∷ ids) cs
left_from ids (container_remove id force ∷ cs) = left_from (drop_id id ids) cs
left_from ids (network_list name ∷ cs) = left_from ids cs
left_from ids (network_create name driver internal attachable ∷ cs) = left_from ids cs
left_from ids (container_create c name ∷ cs) = left_from ids cs
left_from ids (container_stop id timeout ∷ cs) = left_from ids cs

left_from-append :
    (xs ys : List Call) (ids : List Text)
    → left_from ids (xs ++ ys) ≡ left_from (left_from ids xs) ys
left_from-append [] ys ids = refl
left_from-append (container_start id ∷ cs) ys ids = left_from-append cs ys _
left_from-append (container_remove id force ∷ cs) ys ids = left_from-append cs ys _
left_from-append (network_list name ∷ cs) ys ids = left_from-append cs ys _
left_from-append (network_create name driver internal attachable ∷ cs) ys ids =
    left_from-append cs ys _
left_from-append (container_create c name ∷ cs) ys ids = left_from-append cs ys _
left_from-append (container_stop id timeout ∷ cs) ys ids = left_from-append cs ys _

-- A command has succeeded, and the container that the daemon created is the one that was started and
-- not asked to be removed; or it has failed, and there is none such.
abbrev pub Settled : Result Text → Exit → Type 0
Settled created e =
    ((e.code ≡ 0) × ((id : Text) × (created ≡ done id) × (left_from [] e.calls ≡ id ∷ [])))
    ⊎ ((0 < e.code) × (left_from [] e.calls ≡ []))

abbrev pub IsSafe : Result Text → Exit → Type 0
IsSafe created e = All IsHardenedCall e.calls × Settled created e

create_container-Settled :
    (opt : RunOptions) (created : Result Text) (started : Option Text)
    → Settled created (exit_of (create_container opt created started))
create_container-Settled opt (failed e) started = inr (omega arith, refl)
create_container-Settled opt (done id) none = inl (refl, (id, refl, refl))
create_container-Settled opt (done id) (some e) = inr (omega arith, rw (text_eq_refl id) refl)

run_sandbox-Settled :
    (opt : RunOptions) (created : Result Text) (started : Option Text)
    → Settled created (exit_of (run_sandbox opt created started))
unfolding run_sandbox
run_sandbox-Settled opt created started = elim (Bool-cases (is_empty opt.image)) [
  | inl missing ↦ rw missing (inr (omega arith, refl))
  | inr named ↦ rw named (create_container-Settled (with_defaults opt) created started)
]

after_network-IsSafe :
    (d : Daemon) (opt : RunOptions) (network : Result Text × List Call)
    → All IsHardenedCall network.1
    → left_from [] network.1 ≡ []
    → IsSafe d.container_created (after_network d opt network)
after_network-IsSafe d opt (failed e, calls) h none_left = (h, inr (omega arith, none_left))
after_network-IsSafe d opt (done id, calls) h none_left =
    let (r, more) = run_sandbox opt d.container_created d.container_started in
    let s = run_sandbox-Settled opt d.container_created d.container_started in
    (
      All-append IsHardenedCall calls more h
          (run_sandbox-IsHardened opt d.container_created d.container_started),
      rw (left_from-append calls more [], none_left) s,
    )

ensure_internal_network-calls :
    (name : Text) (networks : Result (List Text)) (created : Result Text)
    → let (r, calls) = ensure_internal_network name networks created in
      All IsHardenedCall calls × (left_from [] calls ≡ [])
unfolding ensure_internal_network
ensure_internal_network-calls name (failed e) created = ((tt, tt), refl)
ensure_internal_network-calls name (done []) created = ((tt, (tt, tt)), refl)
ensure_internal_network-calls name (done (id ∷ ids)) created = ((tt, tt), refl)

with_client-IsSafe :
    (created : Result Text) (client ping : Option Text) (rest : Exit)
    → IsSafe created rest
    → IsSafe created (with_client client ping rest)
with_client-IsSafe created (some e) ping rest h = (tt, inr (omega arith, refl))
with_client-IsSafe created none (some e) rest h = (tt, inr (omega arith, refl))
with_client-IsSafe created none none rest h = h

-- Whatever the flags of `run`, with a memory limit in ASCII, and whatever the daemon replies: every
-- container that the command asks for is hardened (`IsHardened`, with bounds that are not 0, but
-- negative where the flag is); when it returns, it has started the container that the daemon created and not asked for its removal; when it
-- exits with an error, it has asked for the removal of every container that it started; and a memory
-- limit that `ParseBytes` does not read ends it with the code 2, before any request.
pub run_cmd-IsSafe :
    (d : Daemon) (flags : RunFlags)
    → All (λ c. c < 128) flags.mem
    → IsSafe d.container_created (run_cmd d flags)
      × (((n : ℕ) × (parse_bytes flags.mem ≡ size n))
          ⊎ (((run_cmd d flags).code ≡ 2) × ((run_cmd d flags).calls ≡ [])))
unfolding run_cmd
run_cmd-IsSafe d flags ascii = go (parse_bytes flags.mem)
  where
    go :
        (s : Size)
        → IsSafe d.container_created (run_with d flags s)
          × (((n : ℕ) × (s ≡ size n))
              ⊎ (((run_with d flags s).code ≡ 2) × ((run_with d flags s).calls ≡ [])))
    go (size n) =
        let network = ensure_internal_network-calls flags.network d.networks d.network_created in
        (
          with_client-IsSafe d.container_created d.client_error d.ping_error _
              (after_network-IsSafe d (options_of flags n) _ network.0 network.1),
          inl (n, refl),
        )
    go empty_size = ((tt, inr (omega arith, refl)), inr (refl, refl))
    go (unknown_suffix c) = ((tt, inr (omega arith, refl)), inr (refl, refl))
    go bad_number = ((tt, inr (omega arith, refl)), inr (refl, refl))
