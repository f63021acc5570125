-- ===== src/Sandbox.antt =====
-- tako_vm/sandbox.py: the library's sandbox, which runs one container without the server. A float is
-- printed by `shown_float`.
use tako_vm.Prelude.{
  ℕ, zero, suc, ◌+◌, Option, none, some, Bool, true, false, not, ◌&&◌, ◌||◌, List, [], ◌∷◌, ◌++◌,
  if◌then◌else◌, ◌==◌,
}
use tako_vm.Models.{ℤ, is_code, pos, negsuc}
use tako_vm.Security.{Text, validate_docker_run_args}
use tako_vm.Texts.{codes, shown, join}
use tako_vm.Execution.Docker.{
  nonempty, when, each, ContainerLimits, base_isolation_args, generate_container_name, Prepared,
  prepared, refused, Refusal, prepare_requirements_file, Ran, remove_command, inspect_command,
  classify_sigkill, classify_docker_run_result, ResultFile, read_result_json,
}
use tako_vm.Execution.Container.{
  Settings, Host, Workspace, cache_args, network_arg, tmpfs_arg, resource_args, mount_args,
  seccomp_args, proxy_args, timeout_args, has_any,
}
use tako_vm.Execution.Worker.Isolation.{Runtime, resolve_runtime}
use tako_vm.Sandbox.Image.{Preparation, ensure_image, probe_commands, runtime_text}
use tako_vm.Execution.Container.Run.{DockerRun, finished, timeout_expired, not_found, raised}
pub mod Image
pub mod Isolation
pub mod Removal

pub record SandboxConfig : Type 0 where
  pub image : Text
  pub timeout : ℕ
  pub startup_timeout : ℕ
  pub memory_limit : Text
  pub cpu_limit : ℕ
  pub network_enabled : Bool
  pub allow_runtime_requirements : Bool
  pub dependency_proxy_url : Option Text
  pub enable_runtime_dependency_cache : Bool
  pub package_dirs : List Text
  pub enable_cap_restrictions : Bool
  pub cache_scope : Text

-- The mounts of the package directories, numbered in their order, and their targets; `none` where a
-- directory does not exist.
unfoldable pub package_args : (Text → Bool) → ℕ → List Text → Option (List Text × List Text)
unfolding codes shown
package_args exists i [] = some ([], [])
package_args exists i (dir ∷ dirs) =
    let rest = package_args exists (suc i) dirs in
    if exists dir
    then elim rest [
      | none ↦ none
      | some (args, targets) ↦ some (
        (codes "--mount=type=bind,source="
              ++ dir
              ++ codes ",target=/packages/pkg"
              ++ shown i
              ++ codes ",readonly")
            ∷ args,
        (codes "/packages/pkg" ++ shown i) ∷ targets,
      )
    ]
    else none

abbrev pub pythonpath_args : List Text → List Text
unfolding codes join
pythonpath_args targets =
    when (has_any targets) ((codes "--env=PYTHONPATH=" ++ join (codes ":") targets) ∷ [])

-- The reasons of a ValueError.
pub data Rejection : Type 0 where
  requirements : Refusal → Rejection
  no_package_dir unsafe_command : Rejection

-- A command with the container's name, a ValueError or a RuntimeUnavailableError.
pub data Built : Type 0 where
  command : (cmd : List Text) → (name : Text) → Built
  rejected : Rejection → Built
  unavailable : Built

-- What went wrong, by the message.
pub data Fault : Type 0 where
  invalid : Rejection → Fault
  infra : (detail : Text) → Fault
  execution_timeout backstop : (seconds : ℕ) → Fault
  out_of_memory not_memory : Fault

pub record SandboxResult : Type 0 where
  pub stdout : Text
  pub stderr : Text
  pub exit_code : ℤ
  pub success : Bool
  pub output : Option Text
  pub error : Option Fault

-- The error of an exit code that is none of docker's.
unfoldable pub exit_fault : (timeout : ℕ) → ℤ → Option Bool → Option Fault
exit_fault timeout code oom_killed =
    if is_code code 124
    then some (execution_timeout timeout)
    else if is_code code 137
    then elim oom_killed [
      | none ↦ some out_of_memory
      | some b ↦ some (if b then out_of_memory else not_memory)
    ]
    else none

abbrev pub failed_result : ℤ → (stdout stderr : Text) → Fault → SandboxResult
failed_result code stdout stderr fault = record {
  stdout = stdout;
  stderr = stderr;
  exit_code = code;
  success = false;
  output = none;
  error = some fault;
}

-- The inspection of a container that was killed.
abbrev pub inspections : Bool → Text → List (List Text)
unfolding codes
inspections b name = if b then inspect_command (codes "{{.State.OOMKilled}}") name ∷ [] else []

-- The result, or the exception that `run` passes on, and the commands in their order.
abbrev pub Ended : Type 0
Ended = Option SandboxResult × List (List Text)

module _ (docker : List Text → Ran) (loads : Text → Option Text) (file : ResultFile) where
  -- The try statement: the end of docker run, and the removal of its finally block.
  unfoldable pub after_run : (timeout backstop_seconds : ℕ) → Text → List Text → DockerRun → Ended
  unfolding classify_docker_run_result classify_sigkill read_result_json exit_fault codes
  after_run timeout backstop_seconds name cmd (finished code stdout stderr) =
      elim (classify_docker_run_result code stderr) [
        | some detail ↦
            (some (failed_result code stdout stderr (infra detail)), cmd ∷ remove_command name ∷ [])
        | none ↦ (
          some (record {
            stdout = stdout;
            stderr = stderr;
            exit_code = code;
            success = is_code code 0;
            output = read_result_json loads file;
            error = exit_fault timeout code (classify_sigkill docker name);
          }),
          cmd ∷ inspections (is_code code 137) name ++ remove_command name ∷ [],
        )
      ]
  after_run timeout backstop_seconds name cmd (timeout_expired stdout stderr) = (
    some (failed_result (negsuc 0) stdout stderr (backstop backstop_seconds)),
    cmd ∷ remove_command name ∷ [],
  )
  after_run timeout backstop_seconds name cmd not_found = (none, cmd ∷ remove_command name ∷ [])
  after_run timeout backstop_seconds name cmd (raised message) =
      (none, cmd ∷ remove_command name ∷ [])

-- `timeout or self.config.timeout`
abbrev pub timeout_or : SandboxConfig → Option ℕ → ℕ
timeout_or c none = c.timeout
timeout_or c (some zero) = c.timeout
timeout_or c (some (suc n)) = suc n

-- The host's limit: a grace of five seconds, and the startup phase where there are requirements.
unfoldable pub subprocess_timeout : SandboxConfig → ℕ → List Text → ℕ
subprocess_timeout c timeout reqs =
    if has_any reqs then timeout + 5 + c.startup_timeout else timeout + 5

-- `s` is the configuration that get_config gives, with the resolved runtime of docker_command.
module _ (shown_float : ℕ → Text) (c : SandboxConfig) (s : Settings) (h : Host)
    (w : Workspace) where
  -- The arguments of docker run; the container's name is also its execution id.
  unfoldable pub docker_command :
      (timeout : ℕ) → (has_requirements : Bool) → Text → (packages targets : List Text) → List Text
  unfolding base_isolation_args network_arg cache_args resource_args mount_args tmpfs_arg
      seccomp_args proxy_args timeout_args codes join
  docker_command timeout has_requirements name packages targets =
      base_isolation_args name s.runtime c.enable_cap_restrictions (some name) false
      ++ (network_arg (c.network_enabled || has_requirements) ∷ [])
      ++ cache_args has_requirements c.enable_runtime_dependency_cache c.cache_scope
      ++ resource_args c.memory_limit (shown_float c.cpu_limit) s.container_limits
      ++ mount_args w
      ++ (tmpfs_arg has_requirements s.container_limits.tmpfs_size ∷ [])
      ++ seccomp_args s h
      ++ packages
      ++ pythonpath_args targets
      ++ proxy_args has_requirements c.dependency_proxy_url
      ++ timeout_args c.startup_timeout timeout
      ++ c.image ∷ []

  unfoldable pub checked_command : List Text → Text → Built
  unfolding validate_docker_run_args
  checked_command cmd name =
      if validate_docker_run_args cmd then command cmd name else rejected Rejection.unsafe_command

  -- The rest of _build_docker_command once the runtime is there.
  unfoldable pub packaged_command : (timeout : ℕ) → Text → List Text → Built
  unfolding package_args docker_command checked_command
  packaged_command timeout name reqs = elim (package_args h.exists 0 c.package_dirs) [
    | none ↦ rejected Rejection.no_package_dir
    | some (packages, targets) ↦
        checked_command (docker_command timeout (has_any reqs) name packages targets) name
  ]

module _ (shown_float : ℕ → Text) (c : SandboxConfig) (s : Settings) (h : Host) (w : Workspace)
    (p : Preparation) where
  abbrev pub with_runtime : (timeout : ℕ) → Text → List Text → Option Runtime → Built
  unfolding packaged_command
  with_runtime timeout name reqs none = unavailable
  with_runtime timeout name reqs (some runtime) =
      packaged_command shown_float c (record s { runtime = runtime_text runtime }) h w timeout name
        reqs

  -- _build_docker_command after the requirements are prepared, with the commands for docker.
  unfoldable pub prepared_command : (timeout : ℕ) → Text → Prepared → Built × List (List Text)
  unfolding generate_container_name codes resolve_runtime with_runtime probe_commands
  prepared_command timeout fresh (refused why) = (rejected (Rejection.requirements why), [])
  prepared_command timeout fresh (prepared reqs) = (
    with_runtime timeout (generate_container_name fresh (codes "tako-sandbox") none 0) reqs
        (resolve_runtime p.requested p.strict p.gvisor_available p.probe).0,
    probe_commands p.requested p.gvisor_available,
  )

  unfoldable pub build_docker_command : (timeout : ℕ) → Text → List Text → Built × List (List Text)
  unfolding prepare_requirements_file prepared_command
  build_docker_command timeout fresh reqs =
      prepared_command timeout fresh
        (prepare_requirements_file c.allow_runtime_requirements 50 reqs)

  module _ (docker : List Text → Ran) (loads : Text → Option Text) (file : ResultFile) where
    unfoldable pub built_run : (timeout : ℕ) → List Text → Built → DockerRun → Ended
    unfolding after_run subprocess_timeout
    built_run timeout reqs (rejected why) run =
        (some (failed_result (negsuc 0) [] [] (invalid why)), [])
    built_run timeout reqs unavailable run = (none, [])
    built_run timeout reqs (command cmd name) run =
        after_run docker loads file timeout (subprocess_timeout c timeout reqs) name cmd run

    -- Sandbox.run, with all its commands.
    unfoldable pub run : Text → Option ℕ → List Text → DockerRun → Ended
    unfolding ensure_image build_docker_command built_run
    run fresh timeout reqs ends =
        let image = ensure_image p h c.image in
        let built = build_docker_command (timeout_or c timeout) fresh reqs in
        let ended = built_run (timeout_or c timeout) reqs built.0 ends in
        if image.0 then (ended.0, image.1 ++ built.1 ++ ended.1) else (none, image.1)
