-- ===== src/Sandbox/Container/Hardened.antt =====
-- What `RunSandbox` asks of the daemon, whatever the options.
use iicpc_distributed_benchm.Base.{
  ℕ, ◌<◌, ◌≡◌, refl, [], ◌∷◌, true, false, Bool-cases, inl, inr, Option, none, some, Text, text,
  Result, done, failed, All, arith,
}
use iicpc_distributed_benchm.Config.{is_empty}
use iicpc_distributed_benchm.Sandbox.Container.{
  RunOptions, HostConfig, Call, container_create, container_start, container_stop, container_remove,
  network_list, network_create, host_config, with_defaults, run_sandbox, create_container,
  or_number,
}

-- A read-only root, no capability, no new privilege, a port on the loopback alone, and bounds on
-- memory, processors and processes.
pub record IsHardened (c : HostConfig) : Type 0 where
  pub readonly : c.readonly_rootfs ≡ true
  pub no_caps : c.cap_drop ≡ text "ALL" ∷ []
  pub no_privileges : c.security_opt ≡ text "no-new-privileges" ∷ text "seccomp=unconfined" ∷ []
  pub loopback : c.host_ip ≡ text "127.0.0.1"
  pub memory : 0 < c.memory
  pub processors : 0 < c.nano_cpus
  pub processes : 0 < c.pids_limit
  pub removed : c.auto_remove ≡ true
  pub on_network : is_empty c.network_name ≡ false

abbrev pub IsHardenedCall : Call → Type 0
IsHardenedCall (container_create c name) = IsHardened c
IsHardenedCall (network_list name) = Unit
IsHardenedCall (network_create name driver internal attachable) = Unit
IsHardenedCall (container_start id) = Unit
IsHardenedCall (container_stop id timeout) = Unit
IsHardenedCall (container_remove id force) = Unit

or_number-pos : (n d : ℕ) → 0 < d → 0 < or_number n d
or_number-pos n d h = ground arith

host_config-IsHardened : (opt : RunOptions) → IsHardened (host_config (with_defaults opt))
unfolding host_config with_defaults
host_config-IsHardened opt = record {
  readonly = ground arith;
  no_caps = ground arith;
  no_privileges = ground arith;
  loopback = refl;
  memory = ground arith;
  processors = ground arith;
  processes = ground arith;
  removed = refl;
  on_network = ground arith;
}

-- For any options and any replies, every container that `RunSandbox` creates has a read-only root,
-- no capability, the security options `no-new-privileges` and `seccomp=unconfined`, its port on
-- 127.0.0.1, bounds that are not 0 on memory, processors and processes, and a named network.
pub run_sandbox-IsHardened :
    (opt : RunOptions) (created : Result Text) (started : Option Text)
    → All IsHardenedCall (run_sandbox opt created started).1
unfolding run_sandbox
run_sandbox-IsHardened opt created started = elim (Bool-cases (is_empty opt.image)) [
  | inl missing ↦ rw missing tt
  | inr named ↦ rw named (made created started)
]
  where
    made :
        (created : Result Text) (started : Option Text)
        → All IsHardenedCall (create_container (with_defaults opt) created started).1
    made (failed e) started = (host_config-IsHardened opt, tt)
    made (done id) none = (host_config-IsHardened opt, (tt, tt))
    made (done id) (some e) = (host_config-IsHardened opt, (tt, (tt, tt)))
