-- ===== src/Execution/Container/Run/Removal.antt =====
-- tako_vm/execution/worker.py: _run_container removes what it runs and tells the circuit breaker.
use tako_vm.Prelude.{
  ℕ, Option, none, some, Bool, true, false, List, [], All, append-nil, arith, ◌∷◌, ◌++◌, ◌≡◌, refl,
  ◌⊎◌, inl, inr, if◌then◌else◌, Bool-cases,
}
use tako_vm.Models.{ℤ, is_code}
use tako_vm.Security.{Text, validate_docker_run_args}
use tako_vm.Security.Image.{validate_docker_image}
use tako_vm.Texts.{codes}
use tako_vm.JobTypes.{JobType}
use tako_vm.Execution.Health.{
  CircuitBreakerConfig, DockerCircuitBreaker, is_available, record_success, record_failure,
}
use tako_vm.Execution.Docker.{
  generate_container_name, Ran, remove_command, inspect_command, kill_command,
  classify_docker_run_result,
}
use tako_vm.Execution.Container.{Settings, Host, Workspace, run_command}
use tako_vm.Execution.Container.Run.{
  DockerRun, finished, timeout_expired, not_found, raised, denied, Denial, breaker_open,
  unsafe_command, RunResult, Ended, logged, after_run, run_container, is_docker_error, infra_failed,
  completed, timed_out, no_docker, error,
}
use tako_vm.Execution.Container.Run.Effects.{IsInspection, is_open, run_container-cases}

-- The breaker that a result leaves, from the one that the check leaves.
abbrev pub told : CircuitBreakerConfig → ℕ → DockerCircuitBreaker → RunResult → DockerCircuitBreaker
told config later b (denied d) = b
told config later b (completed code stdout stderr oom_killed) = record_success config b
told config later b (infra_failed code detail stdout stderr) = record_failure config later b
told config later b (timed_out stdout stderr) = b
told config later b no_docker = record_failure config later b
told config later b (error message) =
    if is_docker_error message then record_failure config later b else b

abbrev pub inspection : Text → List (List Text)
unfolding codes
inspection name = inspect_command (codes "{{.State.OOMKilled}}") name ∷ []

abbrev pub killing : Text → List (List Text)
unfolding codes
killing name = kill_command name ∷ []

-- Between the run and the removal, the container is left, inspected or killed.
abbrev pub IsBetween : Text → List (List Text) → Type 0
IsBetween name middle = (middle ≡ []) ⊎ (middle ≡ inspection name) ⊎ (middle ≡ killing name)

-- The log of a run: an accepted command first, the removal of its container last.
abbrev pub IsRemoved : (Bool → Text → List Text) → Text → List (List Text) → Type 0
IsRemoved cmd name log =
    (has_deps : Bool) × (image : Text) × (middle : List (List Text)) × (log
      ≡ cmd has_deps image ∷ middle ++ remove_command name ∷ [])
    × (validate_docker_run_args (cmd has_deps image) ≡ true)
    × (validate_docker_image image ≡ true)
    × IsBetween name middle

-- Inspections of images come first; a refusal by the breaker runs nothing, another one nothing
-- else, and any other result is that of a run.
abbrev pub IsRunAfter : (Bool → Text → List Text) → Text → List (List Text) → Type 0
IsRunAfter cmd name log =
    (before : List (List Text)) × (rest : List (List Text)) × (log ≡ before ++ rest)
    × All IsInspection before
    × IsRemoved cmd name rest

abbrev pub IsLogged : (Bool → Text → List Text) → Text → RunResult → List (List Text) → Type 0
IsLogged cmd name (denied breaker_open) log = log ≡ []
IsLogged cmd name (denied (Denial.image_error why)) log = All IsInspection log
IsLogged cmd name (denied (Denial.requirements why)) log = All IsInspection log
IsLogged cmd name (denied unsafe_command) log = All IsInspection log
IsLogged cmd name (completed code stdout stderr oom_killed) log = IsRunAfter cmd name log
IsLogged cmd name (infra_failed code detail stdout stderr) log = IsRunAfter cmd name log
IsLogged cmd name (timed_out stdout stderr) log = IsRunAfter cmd name log
IsLogged cmd name no_docker log = IsRunAfter cmd name log
IsLogged cmd name (error message) log = IsRunAfter cmd name log

refusal-IsLogged :
    (cmd : Bool → Text → List Text) (name : Text) (before : List (List Text))
    → All IsInspection before
    → (d : Denial) → is_open d ≡ false
    → IsLogged cmd name (denied d) (before ++ [])
refusal-IsLogged cmd name before asked breaker_open other = ground (arith, other)
refusal-IsLogged cmd name before asked (Denial.image_error why) other = rw (append-nil before) asked
refusal-IsLogged cmd name before asked (Denial.requirements why) other =
    rw (append-nil before) asked
refusal-IsLogged cmd name before asked unsafe_command other = rw (append-nil before) asked

abbrev pub IsAccounted :
    CircuitBreakerConfig
    → ℕ
    → DockerCircuitBreaker
    → (Bool → Text → List Text)
    → Text
    → Ended
    → Type 0
IsAccounted config later b cmd name e = (e.1 ≡ told config later b e.0) × IsLogged cmd name e.0 e.2

module _ (config : CircuitBreakerConfig) (docker : List Text → Ran) (now later : ℕ)
    (cmd : Bool → Text → List Text) (name : Text) (has_deps : Bool) (image : Text)
    (accepted : validate_docker_run_args (cmd has_deps image) ≡ true)
    (valid : validate_docker_image image ≡ true) (b : DockerCircuitBreaker)
    (before : List (List Text)) (asked : All IsInspection before) where
  finished-IsAccounted :
      (code : ℤ) (stdout stderr : Text) (detail : Option Text)
      → classify_docker_run_result code stderr ≡ detail
      → IsAccounted config later b cmd name (
          logged before (
            after_run config docker now later name
              (cmd has_deps image)
              b
              (finished code stdout stderr)))
  unfolding after_run
  finished-IsAccounted code stdout stderr (some d) e =
      rw (after_run, e)
        (refl, (before, _, refl, asked, (has_deps, image, [], refl, accepted, valid, inl refl)))
  finished-IsAccounted code stdout stderr none e = elim (Bool-cases (is_code code 137)) [
    | inl killed ↦
        rw (after_run, e, killed)
          (
            refl,
            (
              before,
              _,
              refl,
              asked,
              (has_deps, image, inspection name, refl, accepted, valid, inr (inl refl)),
            ),
          )
    | inr other ↦
        rw (after_run, e, other)
          (refl, (before, _, refl, asked, (has_deps, image, [], refl, accepted, valid, inl refl)))
  ]

  after_run-IsAccounted :
      (run : DockerRun)
      → IsAccounted config later b cmd name
          (logged before (after_run config docker now later name (cmd has_deps image) b run))
  unfolding after_run
  after_run-IsAccounted (finished code stdout stderr) =
      finished-IsAccounted code stdout stderr (classify_docker_run_result code stderr) refl
  after_run-IsAccounted (timeout_expired stdout stderr) = (
    refl,
    (
      before,
      _,
      refl,
      asked,
      (has_deps, image, killing name, refl, accepted, valid, inr (inr refl)),
    ),
  )
  after_run-IsAccounted not_found =
      (refl, (before, _, refl, asked, (has_deps, image, [], refl, accepted, valid, inl refl)))
  after_run-IsAccounted (raised message) = (
    refl,
    (
      before,
      _,
      refl,
      asked,
      (has_deps, image, killing name, refl, accepted, valid, inr (inr refl)),
    ),
  )

module _ (config : CircuitBreakerConfig) (docker : List Text → Ran) (now later : ℕ)
    (shown_float : ℕ → Text) (s : Settings) (h : Host) (w : Workspace) (fresh : Text)
    (timeout startup_timeout : ℕ) (j : JobType) (extra : List Text) (job_id : Option Text)
    (attempt : ℕ) (b : DockerCircuitBreaker) (run : DockerRun) where
  commands : Bool → Text → List Text
  unfolding run_command codes
  commands has_deps image =
      run_command shown_float s h w timeout startup_timeout j has_deps
        (generate_container_name fresh (codes "tako") job_id attempt) image job_id

  -- A run that the breaker refuses gives docker no command, and a run that is refused later none
  -- but inspections of images; both leave the breaker as its check does. Any other run gives
  -- docker, after such inspections, first a command that validate_docker_run_args accepts, with a
  -- valid image, and last the removal of its container, and the breaker counts a success for a
  -- completed run, a failure for one of docker itself, and nothing for a timeout.
  pub run_container-IsAccounted :
      IsAccounted config later
        (is_available config now b).1
        (λ has_deps image.
          run_command shown_float s h w timeout startup_timeout j has_deps
            (generate_container_name fresh (codes "tako") job_id attempt)
            image
            job_id)
        (generate_container_name fresh (codes "tako") job_id attempt)
        (run_container config docker now later shown_float s h w fresh timeout startup_timeout j
          extra job_id attempt b run)
  unfolding commands
  run_container-IsAccounted =
      run_container-cases config docker now later shown_float s h w fresh timeout startup_timeout j
        extra job_id attempt b run
        (IsAccounted config later (is_available config now b).1 commands
          (generate_container_name fresh (codes "tako") job_id attempt))
        (refl, refl)
        (λ before asked d other. (
          refl,
          refusal-IsLogged commands (generate_container_name fresh (codes "tako") job_id attempt)
              before asked d other,
        ))
        (λ before asked has_deps image valid ok.
          after_run-IsAccounted config docker now later commands
            (generate_container_name fresh (codes "tako") job_id attempt) has_deps image ok valid
            (is_available config now b).1 before asked run)
