-- ===== src/SandboxManager.antt =====
-- The commands of cmd/sandbox_manager/main.go after their flags are parsed: the exit code (0 where
-- the command returns, 1 or 2 where it calls `os.Exit`) and the requests to the Docker daemon, for
-- its replies. `BuildImage` of internal/sandbox/docker.go is part of the command `build`.
pub mod Safe
use iicpc_distributed_benchm.Base.{
  ℕ, ◌*◌, ◌%◌, ◌==◌, if◌then◌else◌, List, [], ◌∷◌, ◌++◌, Bool, true, false, Option, none, some,
  Text, text, u64_mod, Result, done, failed,
}
use iicpc_distributed_benchm.Config.{is_empty}
use iicpc_distributed_benchm.Sandbox.Size.{
  Size, size, empty_size, unknown_suffix, bad_number, parse_bytes,
}
use iicpc_distributed_benchm.Sandbox.Container.{
  RunOptions, Call, ensure_internal_network, run_sandbox,
}

-- What the daemon replies: the errors of `New` and of the ping, and those of the requests.
pub record Daemon : Type 0 where
  pub client_error : Option Text
  pub ping_error : Option Text
  pub networks : Result (List Text)
  pub network_created : Result Text
  pub container_created : Result Text
  pub container_started : Option Text

-- The exit code, and the requests after the ping.
pub record Exit : Type 0 where
  pub code : ℕ
  pub calls : List Call

abbrev pub exit_with : ℕ → List Call → Exit
exit_with code calls = record { code = code; calls = calls }

-- `mustClient` and the ping, before the rest of a command.
abbrev pub with_client : Option Text → Option Text → Exit → Exit
with_client (some e) ping rest = exit_with 1 []
with_client none (some e) rest = exit_with 1 []
with_client none none rest = rest

abbrev pub code_of : {A : Type 0} → Result A → ℕ
code_of (failed e) = 1
code_of (done a) = 0

abbrev pub exit_of : {A : Type 0} → Result A × List Call → Exit
exit_of (r, calls) = exit_with (code_of r) calls

-- `netCmd`
unfoldable pub net_cmd : Daemon → Text → Exit
net_cmd d name =
    with_client d.client_error d.ping_error
      (exit_of (ensure_internal_network name d.networks d.network_created))

-- `BuildImage`, for the archive of the directory or its error, and the reply to the build; with the
-- archive and the tag that it sends, if it does.
abbrev pub send_build : Text → Result Text → Option Text → Option Text × Option (Text × Text)
send_build tag (failed e) reply = (some e, none)
send_build tag (done archive) reply = (reply, some (archive, tag))

unfoldable pub build_image :
    Text → Text → Result Text → Option Text → Option Text × Option (Text × Text)
build_image context_dir tag archive reply =
    let sent = send_build tag archive reply in
    if is_empty context_dir
    then (some (text "contextDir is required"), none)
    else if is_empty tag
    then (some (text "tag is required"), none)
    else sent

abbrev pub code_of_error : Option Text → ℕ
code_of_error none = 0
code_of_error (some e) = 1

abbrev pub after_build :
    Option Text → Option Text → Option Text × Option (Text × Text) → ℕ × Option (Text × Text)
after_build (some e) ping built = (1, none)
after_build none (some e) built = (1, none)
after_build none none (err, sent) = (code_of_error err, sent)

-- `buildCmd`: the exit code, and the archive and the tag that it sends.
unfoldable pub build_cmd :
    Daemon → Text → Text → Result Text → Option Text → ℕ × Option (Text × Text)
build_cmd d context_dir tag archive reply =
    after_build d.client_error d.ping_error (build_image context_dir tag archive reply)

-- The flags of `run`, each an int64 by its word.
pub record RunFlags : Type 0 where
  pub image : Text
  pub network : Text
  pub name : Text
  pub host_port : ℕ
  pub container_port : ℕ
  pub mem : Text
  pub cpus : ℕ
  pub cpuset : Text
  pub pids : ℕ

-- `opt`
abbrev pub options_of : RunFlags → ℕ → RunOptions
options_of flags mem_bytes = record {
  image = flags.image;
  container_name = flags.name;
  network_name = flags.network;
  host_port = flags.host_port;
  container_port = flags.container_port;
  memory_bytes = mem_bytes;
  nano_cpus = flags.cpus * 1_000_000_000 % u64_mod;
  cpuset_cpus = flags.cpuset;
  pids_limit = flags.pids;
  readonly_rootfs = true;
  no_new_privileges = true;
  drop_all_caps = true;
  env = [];
}

abbrev pub start_sandbox : List Call → Result (Text × Text) × List Call → Exit
start_sandbox before (r, calls) = exit_with (code_of r) (before ++ calls)

abbrev pub after_network : Daemon → RunOptions → Result Text × List Call → Exit
after_network d opt (failed e, calls) = exit_with 1 calls
after_network d opt (done id, calls) =
    start_sandbox calls (run_sandbox opt d.container_created d.container_started)

abbrev pub run_with : Daemon → RunFlags → Size → Exit
run_with d flags (size n) = with_client d.client_error d.ping_error (
    after_network d (options_of flags n)
      (ensure_internal_network flags.network d.networks d.network_created))
run_with d flags empty_size = exit_with 2 []
run_with d flags (unknown_suffix c) = exit_with 2 []
run_with d flags bad_number = exit_with 2 []

-- `runCmd`
unfoldable pub run_cmd : Daemon → RunFlags → Exit
run_cmd d flags = run_with d flags (parse_bytes flags.mem)
