-- ===== src/Sandbox/Container.antt =====
-- `EnsureInternalNetwork`, `RunSandbox` and `StopAndRemove` of internal/sandbox/docker.go: the
-- requests that they send to the Docker daemon, for its replies. Ports are not negative.
pub mod Hardened
use iicpc_distributed_benchm.Base.{
  ◌-◌, ◌^◌, ltb, ℕ, ◌*◌, ◌==◌, if◌then◌else◌, List, [], ◌∷◌, ◌++◌, Bool, true, false, Option, none,
  some, Text, text, decimal, Result, done, failed,
}
use iicpc_distributed_benchm.Config.{is_empty}

-- `RunOptions`
pub record RunOptions : Type 0 where
  pub image : Text
  pub container_name : Text
  pub network_name : Text
  pub host_port : ℕ
  pub container_port : ℕ
  pub memory_bytes : ℕ
  pub nano_cpus : ℕ
  pub cpuset_cpus : Text
  pub pids_limit : ℕ
  pub readonly_rootfs : Bool
  pub no_new_privileges : Bool
  pub drop_all_caps : Bool
  pub env : List Text

-- What `RunSandbox` sets of `container.Config`, `container.HostConfig` and the endpoints.
pub record HostConfig : Type 0 where
  pub image : Text
  pub env : List Text
  pub port_key : Text
  pub host_ip : Text
  pub host_port : Text
  pub readonly_rootfs : Bool
  pub memory : ℕ
  pub memory_swap : ℕ
  pub nano_cpus : ℕ
  pub cpuset_cpus : Text
  pub pids_limit : ℕ
  pub auto_remove : Bool
  pub security_opt : List Text
  pub cap_drop : List Text
  pub tmpfs : Text × Text
  pub network_name : Text

-- The requests.
pub data Call : Type 0 where
  network_list : (name : Text) → Call
  network_create : (name driver : Text) (internal attachable : Bool) → Call
  container_create : (config : HostConfig) (name : Text) → Call
  container_start : (id : Text) → Call
  container_stop : (id : Text) (timeout : ℕ) → Call
  container_remove : (id : Text) (force : Bool) → Call

-- `strconv.Itoa` of the int with this word.
abbrev pub itoa : ℕ → Text
itoa n = if ltb n (2 ^ 63) then decimal n else text "-" ++ decimal (2 ^ 64 - n)

abbrev pub or_text : Text → Text → Text
or_text t def = if is_empty t then def else t

abbrev pub or_number : ℕ → ℕ → ℕ
or_number n def = if n == 0 then def else n

abbrev pub answer_create : Text → Result Text → List Call → Result Text × List Call
answer_create name reply calls =
    (reply, calls ++ network_create name (text "bridge") true true ∷ [])

abbrev pub answer_list : Text → Result (List Text) → Result Text → Result Text × List Call
answer_list name (failed e) created = (failed e, network_list name ∷ [])
answer_list name (done []) created = answer_create name created (network_list name ∷ [])
answer_list name (done (id ∷ ids)) created = (done id, network_list name ∷ [])

-- `EnsureInternalNetwork`, for the replies to the list and to the creation.
unfoldable pub ensure_internal_network :
    Text → Result (List Text) → Result Text → Result Text × List Call
ensure_internal_network name listed created =
    answer_list (or_text name (text "iicpc_internal")) listed created

-- The options after the defaults of `RunSandbox`.
pub with_defaults : RunOptions → RunOptions
with_defaults opt =
    let port = or_number opt.container_port 50051 in
    record opt {
      network_name = or_text opt.network_name (text "iicpc_internal");
      container_port = port;
      host_port = or_number opt.host_port port;
      memory_bytes = or_number opt.memory_bytes (512 * 1024 * 1024);
      nano_cpus = or_number opt.nano_cpus 1_000_000_000;
      pids_limit = or_number opt.pids_limit 20;
      readonly_rootfs = if opt.readonly_rootfs then opt.readonly_rootfs else true;
      no_new_privileges = if opt.no_new_privileges then opt.no_new_privileges else true;
      drop_all_caps = if opt.drop_all_caps then opt.drop_all_caps else true;
    }

-- The configuration of the container, for options with their defaults.
pub host_config : RunOptions → HostConfig
host_config opt = record {
  image = opt.image;
  env = opt.env;
  port_key = itoa opt.container_port ++ text "/tcp";
  host_ip = text "127.0.0.1";
  host_port = itoa opt.host_port;
  readonly_rootfs = opt.readonly_rootfs;
  memory = opt.memory_bytes;
  memory_swap = 0;
  nano_cpus = opt.nano_cpus;
  cpuset_cpus = opt.cpuset_cpus;
  pids_limit = opt.pids_limit;
  auto_remove = true;
  security_opt =
      if opt.no_new_privileges
      then text "no-new-privileges" ∷ text "seccomp=unconfined" ∷ []
      else [];
  cap_drop = if opt.drop_all_caps then text "ALL" ∷ [] else [];
  tmpfs = (text "/tmp", text "rw,noexec,nosuid,size=64m");
  network_name = opt.network_name;
}

-- The start of the container `id`, and, if the start fails, the request to remove it by force, whose
-- reply the code ignores.
abbrev pub start_container :
    RunOptions → Text → Option Text → List Call → Result (Text × Text) × List Call
start_container opt id none calls =
    (done (id, text "127.0.0.1:" ++ itoa opt.host_port), calls ++ container_start id ∷ [])
start_container opt id (some e) calls =
    (failed e, calls ++ container_start id ∷ container_remove id true ∷ [])

abbrev pub create_container :
    RunOptions → Result Text → Option Text → Result (Text × Text) × List Call
create_container opt (failed e) started =
    (failed e, container_create (host_config opt) opt.container_name ∷ [])
create_container opt (done id) started =
    start_container opt id started (container_create (host_config opt) opt.container_name ∷ [])

-- `RunSandbox`, for the reply to the creation and the error of the start, if any.
unfoldable pub run_sandbox :
    RunOptions → Result Text → Option Text → Result (Text × Text) × List Call
run_sandbox opt created started =
    let rest = create_container (with_defaults opt) created started in
    if is_empty opt.image then (failed (text "image is required"), []) else rest

-- `StopAndRemove`; the daemon's errors are ignored.
unfoldable pub stop_and_remove : Text → List Call
stop_and_remove id = container_stop id 5 ∷ container_remove id true ∷ []
