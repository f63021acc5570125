-- ===== src/Execution/Container.antt =====
-- tako_vm/execution/worker.py: the docker command of a job, the choice of its image and
-- CodeExecutor._run_container. A float of the configuration is printed by `shown_float`.
use tako_vm.Prelude.{
  ℕ, suc, ◌+◌, String, Option, none, some, Bool, true, false, not, ◌&&◌, ◌||◌, List, [], ◌∷◌, ◌++◌,
  length, take, if◌then◌else◌, map, ◌==◌, is_some,
}
use tako_vm.Models.{ℤ, is_code, pos, negsuc}
use tako_vm.Security.{
  Text, is_empty, is_letter, is_digit, validate_env_key, validate_env_value,
  validate_docker_run_args,
}
use tako_vm.Security.Image.{validate_docker_image}
use tako_vm.Texts.{codes, find, lower, shown}
use tako_vm.JobTypes.{JobType}
use tako_vm.Execution.Health.{
  CircuitBreakerConfig, DockerCircuitBreaker, is_available, record_success, record_failure,
}
use tako_vm.Execution.Docker.{
  nonempty, when, each, ContainerLimits, ulimit_args, base_isolation_args, generate_container_name,
  prepare_requirements_file, Prepared, prepared, refused, Refusal, Ran, kill_command,
  remove_command, inspect_command, inspect_oom_killed, classify_docker_run_result, kill_container,
}
pub mod Select
pub mod Parts
pub mod Command
pub mod Run

-- What the configuration says of a container, and the host.
pub record Settings : Type 0 where
  pub docker_image : Text
  pub container_limits : ContainerLimits
  pub allow_runtime_requirements : Bool
  pub enable_cap_restrictions : Bool
  pub enable_runtime_dependency_cache : Bool
  pub enable_userns : Bool
  pub enable_seccomp : Bool
  pub seccomp_profile_path : Option Text
  pub dependency_proxy_url : Option Text
  pub runtime : Text

pub record Host : Type 0 where
  pub is_native_linux : Bool
  pub exists : Text → Bool
  -- The images that the two caches of positive answers have, and what docker answers for the others.
  pub exists_cached : Text → Bool
  pub entrypoint_cached : Text → Bool
  pub image_found : Text → Bool
  pub executor_entrypoint : Text → Option Bool

-- The absolute paths of a workspace.
pub record Workspace : Type 0 where
  pub code_dir : Text
  pub input_dir : Text
  pub output_dir : Text
  pub meta_dir : Option Text

-- uv_cache_volume of constants.py.
abbrev is_safe_scope_char : ℕ → Bool
is_safe_scope_char c = is_letter c || is_digit c || c == 45 || c == 95

abbrev or_default : Text → Text
or_default t = if is_empty t then codes "default" else t

unfoldable pub uv_cache_volume : Text → Text
unfolding codes
uv_cache_volume scope =
    codes "tako-uv-cache-"
    ++ take 64 (or_default (map (λ c. if is_safe_scope_char c then c else 45) scope))

-- `--env` for the variables that the validators accept.
unfoldable pub env_args : List (Text × Text) → List Text
unfolding validate_env_key validate_env_value codes
env_args [] = []
env_args ((key, value) ∷ rest) =
    when (validate_env_key key && validate_env_value (some value))
      ((codes "--env=" ++ key ++ codes "=" ++ value) ∷ [])
    ++ env_args rest

-- The cache of the dependency installer.
unfoldable pub cache_args : Bool → Bool → Text → List Text
unfolding codes uv_cache_volume
cache_args false enabled scope = []
cache_args true true scope =
    (codes "--mount=type=volume,source="
      ++ uv_cache_volume scope
      ++ codes ",target=/home/sandbox/.cache/uv")
    ∷ codes "--env=UV_CACHE_DIR=/home/sandbox/.cache/uv"
    ∷ []
cache_args true false scope = codes "--env=UV_CACHE_DIR=/tmp/uv-cache" ∷ []

unfoldable pub network_arg : Bool → Text
unfolding codes
network_arg bridge = if bridge then codes "--network=bridge" else codes "--network=none"

unfoldable pub tmpfs_arg : Bool → Text → Text
unfolding codes
tmpfs_arg has_deps size =
    codes "--tmpfs=/tmp:rw,"
    ++ (if has_deps then codes "exec" else codes "noexec")
    ++ codes ",nosuid,size="
    ++ (if has_deps then codes "300m" else size)

-- The resource limits and the mounts.
unfoldable pub resource_args : Text → Text → ContainerLimits → List Text
unfolding codes shown ulimit_args
resource_args memory cpus limits =
    (codes "--memory=" ++ memory)
    ∷ (codes "--memory-swap=" ++ memory)
    ∷ (codes "--cpus=" ++ cpus)
    ∷ (codes "--pids-limit=" ++ shown limits.pids_limit)
    ∷ ulimit_args limits

unfoldable pub mount_args : Workspace → List Text
unfolding codes
mount_args w =
    (codes "--mount=type=bind,source=" ++ w.code_dir ++ codes ",target=/code,readonly")
    ∷ (codes "--mount=type=bind,source=" ++ w.input_dir ++ codes ",target=/input,readonly")
    ∷ (codes "--mount=type=bind,source=" ++ w.output_dir ++ codes ",target=/output")
    ∷ []

-- `enable_seccomp and path`, a native Linux and a path that exists.
unfoldable pub seccomp_args : Settings → Host → List Text
unfolding codes
seccomp_args s h = elim s.seccomp_profile_path [
  | none ↦ []
  | some path ↦
      when (s.enable_seccomp && (h.is_native_linux && h.exists path))
        ((codes "--security-opt=seccomp=" ++ path) ∷ [])
]

unfoldable pub timeout_args : ℕ → ℕ → List Text
unfolding codes shown
timeout_args startup_timeout timeout =
    (codes "--env=TAKO_STARTUP_TIMEOUT=" ++ shown startup_timeout)
    ∷ (codes "--env=TAKO_EXECUTION_TIMEOUT=" ++ shown timeout)
    ∷ []

unfoldable pub proxy_args : Bool → Option Text → List Text
unfolding codes
proxy_args has_deps url =
    when has_deps (each (nonempty url) (λ u. codes "--env=TAKO_DEPENDENCY_PROXY_URL=" ++ u))

abbrev pub has_any : List Text → Bool
has_any [] = false
has_any (r ∷ rs) = true

module _ (shown_float : ℕ → Text) where
  -- The arguments of docker run for a job.
  unfoldable pub run_command :
      Settings
      → Host
      → Workspace
      → (timeout startup_timeout : ℕ) → JobType
      → (has_deps : Bool) → (container_name image_name : Text) → Option Text
      → List Text
  unfolding base_isolation_args cache_args network_arg resource_args mount_args tmpfs_arg codes
      seccomp_args env_args proxy_args timeout_args
  run_command s h w timeout startup_timeout j has_deps container_name image_name job_id =
      base_isolation_args container_name s.runtime s.enable_cap_restrictions job_id false
      ++ cache_args has_deps s.enable_runtime_dependency_cache j.name
      ++ (network_arg (j.network_enabled || has_deps) ∷ [])
      ++ when s.enable_userns (codes "--user=1000:1000" ∷ [])
      ++ resource_args j.memory_limit (shown_float j.cpu_limit) s.container_limits
      ++ mount_args w
      ++ (tmpfs_arg has_deps s.container_limits.tmpfs_size ∷ [])
      ++ each w.meta_dir (λ d. codes "--mount=type=bind,source=" ++ d ++ codes ",target=/tako-meta")
      ++ seccomp_args s h
      ++ env_args j.environment
      ++ proxy_args has_deps s.dependency_proxy_url
      ++ timeout_args startup_timeout timeout
      ++ image_name ∷ []

-- Which image runs a job: its source, or the reason of the refusal.
pub data Source : Type 0 where
  built base default : Source

pub data ImageError : Type 0 where
  invalid_base no_entrypoint invalid_default : ImageError

pub data Image : Type 0 where
  resolved : Text → Source → Image
  rejected : ImageError → Image

-- JobType.image_name
unfoldable pub image_name_of : JobType → Text
unfolding codes
image_name_of j = codes "tako-vm-" ++ j.name ++ codes ":latest"

abbrev is_true : Option Bool → Bool
is_true none = false
is_true (some b) = b

abbrev pub exists_command : Text → List Text
unfolding codes
exists_command image = codes "docker" ∷ codes "image" ∷ codes "inspect" ∷ image ∷ []

abbrev pub entrypoint_command : Text → List Text
unfolding codes
entrypoint_command image =
    codes "docker"
    ∷ codes "image"
    ∷ codes "inspect"
    ∷ codes "--format"
    ∷ codes "{{json .Config.Entrypoint}}"
    ∷ image
    ∷ []

-- The answers of docker.py, with the commands that they give to docker.
unfoldable pub image_exists : Host → Text → Bool × List (List Text)
unfolding exists_command
image_exists h image =
    if h.exists_cached image then (true, []) else (h.image_found image, exists_command image ∷ [])

unfoldable pub image_has_executor_entrypoint : Host → Text → Option Bool × List (List Text)
unfolding entrypoint_command
image_has_executor_entrypoint h image =
    if h.entrypoint_cached image
    then (some true, [])
    else (h.executor_entrypoint image, entrypoint_command image ∷ [])

unfoldable pub base_or_default : Settings → Host → Option Text → Image × List (List Text)
unfolding validate_docker_image image_has_executor_entrypoint
base_or_default s h (some image) =
    let entry = image_has_executor_entrypoint h image in
    if not (validate_docker_image image)
    then (rejected ImageError.invalid_base, [])
    else if is_true entry.0
    then (resolved image Source.base, entry.1)
    else (rejected ImageError.no_entrypoint, entry.1)
base_or_default s h none =
    if validate_docker_image s.docker_image
    then (resolved s.docker_image Source.default, [])
    else (rejected ImageError.invalid_default, [])

-- The image of _resolve_image, and the commands that it gives to docker.
unfoldable pub resolve_image : Settings → Host → JobType → Image × List (List Text)
unfolding image_name_of validate_docker_image image_exists image_has_executor_entrypoint
    base_or_default
resolve_image s h j =
    let image = image_name_of j in
    let there = image_exists h image in
    let entry = image_has_executor_entrypoint h image in
    let other = base_or_default s h (nonempty j.base_image) in
    if not (validate_docker_image image)
    then other
    else if not there.0
    then (other.0, there.1 ++ other.1)
    else if is_true entry.0
    then (resolved image Source.built, there.1 ++ entry.1)
    else (other.0, there.1 ++ entry.1 ++ other.1)

-- A built image has the job type's own requirements already.
unfoldable pub requirements_of : Source → JobType → List Text → List Text
requirements_of Source.built j extra = extra
requirements_of Source.base j extra = j.requirements ++ extra
requirements_of Source.default j extra = j.requirements ++ extra
