-- ===== src/Execution/Container/Run.antt =====
-- tako_vm/execution/worker.py: CodeExecutor._run_container, with the commands that it gives to docker
-- in their order and the circuit breaker that it leaves.
use tako_vm.Prelude.{
  ℕ, suc, ◌+◌, String, Option, none, some, Bool, true, false, not, ◌&&◌, ◌||◌, List, [], ◌∷◌, ◌++◌,
  length, if◌then◌else◌,
}
use tako_vm.Models.{ℤ, is_code, pos, negsuc}
use tako_vm.Security.{Text, validate_docker_run_args}
use tako_vm.Texts.{codes, find, lower, shown}
use tako_vm.JobTypes.{JobType}
use tako_vm.Execution.Health.{
  CircuitBreakerConfig, DockerCircuitBreaker, is_available, record_success, record_failure,
}
use tako_vm.Execution.Docker.{
  generate_container_name, prepare_requirements_file, Prepared, prepared, refused, Refusal, Ran,
  kill_command, remove_command, inspect_command, classify_sigkill, classify_docker_run_result,
}
use tako_vm.Execution.Container.{
  Settings, Host, Workspace, run_command, resolve_image, Image, ImageError, resolved, rejected,
  Source, requirements_of, has_any,
}
pub mod Effects
pub mod Removal

-- What `subprocess.run` of docker run gives: an exit code with the output, a TimeoutExpired with the
-- output so far, a FileNotFoundError, or another exception with its text.
pub data DockerRun : Type 0 where
  finished : ℤ → (stdout stderr : Text) → DockerRun
  timeout_expired : (stdout stderr : Text) → DockerRun
  not_found : DockerRun
  raised : Text → DockerRun

-- The reasons for which docker is not run.
pub data Denial : Type 0 where
  breaker_open : Denial
  image_error : ImageError → Denial
  requirements : Refusal → Denial
  unsafe_command : Denial

-- The dictionary that is returned, by the branch that makes it; `timed_out` carries the marker of
-- a host timeout, `infra_failed` that of a failure of docker, and a refusal by the breaker is one.
pub data RunResult : Type 0 where
  denied : Denial → RunResult
  completed : ℤ → (stdout stderr : Text) → (oom_killed : Option Bool) → RunResult
  infra_failed : ℤ → (detail stdout stderr : Text) → RunResult
  timed_out : (stdout stderr : Text) → RunResult
  no_docker : RunResult
  error : Text → RunResult

abbrev pub success : RunResult → Bool
success (completed code stdout stderr oom_killed) = is_code code 0
success _ = false

-- The `infra_failure` marker of the dictionary.
abbrev pub is_infra_failure : RunResult → Bool
is_infra_failure (denied breaker_open) = true
is_infra_failure (infra_failed code detail stdout stderr) = true
is_infra_failure _ = false

abbrev pub Ended : Type 0
Ended = RunResult × DockerCircuitBreaker × List (List Text)

-- What ended, after earlier commands.
abbrev pub logged : List (List Text) → Ended → Ended
logged before e = (e.0, e.1, before ++ e.2)

-- "docker", "daemon" or "connection" in the text of an exception.
unfoldable pub is_docker_error : Text → Bool
unfolding codes find lower
is_docker_error message =
    find (codes "docker") (lower message)
    || find (codes "daemon") (lower message)
    || find (codes "connection") (lower message)

-- `docker` answers the commands besides docker run; `now` and `later` are the times of the check
-- and of the end of the run.
module _ (config : CircuitBreakerConfig) (docker : List Text → Ran) (now later : ℕ) where
  -- The try statement: the end of docker run, and the removal of its finally block.
  unfoldable pub after_run : Text → List Text → DockerCircuitBreaker → DockerRun → Ended
  unfolding classify_docker_run_result classify_sigkill record_failure record_success
      is_docker_error codes
  after_run name cmd b (finished code stdout stderr) =
      elim (classify_docker_run_result code stderr) [
        | some detail ↦ (
          infra_failed code detail stdout stderr,
          record_failure config later b,
          cmd ∷ remove_command name ∷ [],
        )
        | none ↦
            if is_code code 137
            then (
              completed code stdout stderr (classify_sigkill docker name),
              record_success config b,
              cmd ∷ inspect_command (codes "{{.State.OOMKilled}}") name ∷ remove_command name ∷ [],
            )
            else (
              completed code stdout stderr none,
              record_success config b,
              cmd ∷ remove_command name ∷ [],
            )
      ]
  after_run name cmd b (timeout_expired stdout stderr) =
      (timed_out stdout stderr, b, cmd ∷ kill_command name ∷ remove_command name ∷ [])
  after_run name cmd b not_found =
      (no_docker, record_failure config later b, cmd ∷ remove_command name ∷ [])
  after_run name cmd b (raised message) = (
    error message,
    if is_docker_error message then record_failure config later b else b,
    cmd ∷ kill_command name ∷ remove_command name ∷ [],
  )

  -- The command is built, checked and run.
  unfoldable pub start_run : Text → List Text → DockerCircuitBreaker → DockerRun → Ended
  unfolding validate_docker_run_args after_run
  start_run name cmd b run =
      if validate_docker_run_args cmd
      then after_run name cmd b run
      else (denied unsafe_command, b, [])

  module _ (shown_float : ℕ → Text) (s : Settings) (h : Host) (w : Workspace) where
    -- `fresh` is the random part of a container name without a job id.
    unfoldable pub prepared_run :
        Text
        → (timeout startup_timeout : ℕ) → JobType
        → Option Text
        → ℕ
        → Text
        → Prepared
        → DockerCircuitBreaker
        → DockerRun
        → Ended
    unfolding generate_container_name codes run_command start_run
    prepared_run fresh timeout startup_timeout j job_id attempt image (refused why) b run =
        (denied (requirements why), b, [])
    prepared_run fresh timeout startup_timeout j job_id attempt image (prepared reqs) b run =
        let name = generate_container_name fresh (codes "tako") job_id attempt in
        start_run name
          (run_command shown_float s h w timeout startup_timeout j (has_any reqs) name image job_id)
          b run

    unfoldable pub with_image :
        Text
        → (timeout startup_timeout : ℕ) → JobType
        → List Text
        → Option Text
        → ℕ
        → Image
        → DockerCircuitBreaker
        → DockerRun
        → Ended
    unfolding prepare_requirements_file requirements_of prepared_run
    with_image fresh timeout startup_timeout j extra job_id attempt (rejected why) b run =
        (denied (image_error why), b, [])
    with_image fresh timeout startup_timeout j extra job_id attempt (resolved image source) b run =
        prepared_run fresh timeout startup_timeout j job_id attempt image
          (prepare_requirements_file s.allow_runtime_requirements 50
            (requirements_of source j extra))
          b run

    -- The whole method, on what docker run gives if it is reached.
    unfoldable pub run_container :
        Text
        → (timeout startup_timeout : ℕ) → JobType
        → List Text
        → Option Text
        → ℕ
        → DockerCircuitBreaker
        → DockerRun
        → Ended
    unfolding is_available resolve_image with_image
    run_container fresh timeout startup_timeout j extra job_id attempt b run =
        let check = is_available config now b in
        if not check.0
        then (denied breaker_open, check.1, [])
        else let image = resolve_image s h j in
          logged image.1
            (with_image fresh timeout startup_timeout j extra job_id attempt image.0 check.1 run)
