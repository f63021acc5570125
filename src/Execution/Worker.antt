-- ===== src/Execution/Worker.antt =====
-- tako_vm/execution/worker.py: the outcome of an execution.
use Prim.Native.String
use tako_vm.Prelude.{
  ℕ, zero, suc, ◌+◌, ◌-◌, String, Option, none, some, Bool, true, false, not, ◌&&◌, ◌||◌, List, [],
  ◌∷◌, ltb, leb, ◌==◌, if◌then◌else◌, str_eq,
}
use tako_vm.Models.{ℤ, is_code, Status, Phase, ErrorType, ExecutionError}
use tako_vm.Execution.Phase.{PhaseTiming}
use tako_vm.Texts.{codes}
use tako_vm.Security.{Text, same_text}
use tako_vm.Security.Classify.{classify_error}
pub mod Settled
pub mod Outcome
pub mod Isolation
pub mod Attempts
pub mod Artifacts

-- The dictionary that _run_container returns; `none` is a missing key.
pub record ContainerResult : Type 0 where
  pub success : Bool
  pub exit_code : ℤ
  pub stderr : String
  pub timed_out : Bool
  pub oom_killed : Option Bool
  pub infra_failure : Bool
  pub config_error : Bool
  pub error : Option String

-- The parts of the messages: decimal texts, sanitize_error, and \w and \d of classify_error.
pub record Texts : Type 0 where
  pub shown : ℕ → String
  pub sanitize_error : String → String
  pub shown_int : ℤ → String
  pub is_word : ℕ → Bool
  pub is_decimal : ℕ → Bool
  -- What sanitize_error gives of the text of a ValidationError.
  pub invalid_phase : String

abbrev pub is_positive : Option ℕ → Bool
is_positive none = false
is_positive (some n) = ltb 0 n

abbrev pub is_present : Option ℕ → Bool
is_present none = false
is_present (some n) = true

-- phase_at_exit, if it is one of "startup" and "execution".
abbrev pub exit_phase : Option Text → Option Phase
unfolding codes same_text
exit_phase none = none
exit_phase (some p) =
    if same_text p (codes "startup")
    then some Phase.startup
    else if same_text p (codes "execution")
    then some Phase.execution
    else none

unfoldable pub determine_timeout_phase : Option PhaseTiming → Bool → Option Phase
determine_timeout_phase none timed_out = none
determine_timeout_phase (some timing) timed_out =
    if not timed_out
    then none
    else if is_positive timing.execution_ms
    then some Phase.execution
    else if is_present timing.startup_ms
    then some Phase.startup
    else exit_phase timing.phase_at_exit

abbrev startup_of : Option PhaseTiming → Option ℕ
startup_of none = none
startup_of (some t) = t.startup_ms

abbrev execution_of : Option PhaseTiming → Option ℕ
execution_of none = none
execution_of (some t) = t.execution_ms

abbrev pub phase_of : Option PhaseTiming → Option Text
phase_of none = none
phase_of (some t) = t.phase_at_exit

-- `error or default`
abbrev pub message_or : Option String → String → String
message_or none d = d
message_or (some m) d = if str_eq m "" then d else m

-- The validation of an ExecutionPhase that is None or a text; `none` is a ValidationError.
unfoldable pub read_phase : Option Text → Option (Option Phase)
unfolding codes same_text
read_phase none = some none
read_phase (some p) =
    if same_text p (codes "startup")
    then some (some Phase.startup)
    else if same_text p (codes "execution")
    then some (some Phase.execution)
    else if same_text p (codes "completed")
    then some (some Phase.completed)
    else if same_text p (codes "failed")
    then some (some Phase.failed)
    else none

-- ExecutionError(…), or `none` for the ValidationError of a phase that is none of the four. The
-- limits of the length of a message, 1 and 4096, are left out.
unfoldable pub failure : ErrorType → String → Option Text → Option ExecutionError
unfolding read_phase
failure type message phase = elim (read_phase phase) [
  | none ↦ none
  | some p ↦ some (record { type = type; message = message; phase = p })
]

module _ (texts : Texts) where
  abbrev startup_info : Option ℕ → String
  startup_info none = ""
  startup_info (some n) =
      if ltb 0 n then String.◌++◌ " (startup took " (String.◌++◌ (texts.shown n) "ms)") else ""

  abbrev execution_info : Option ℕ → Option ℕ → String
  execution_info (some s) (some e) =
      if ltb 0 s && ltb 0 e
      then String.◌++◌ " (startup: " (
          String.◌++◌ (texts.shown s)
            (String.◌++◌ "ms, execution: " (String.◌++◌ (texts.shown e) "ms)")))
      else ""
  execution_info _ _ = ""

  unfoldable timeout_error :
      Option Phase
      → (timeout startup_timeout : ℕ) → ContainerResult
      → Option PhaseTiming
      → Option ExecutionError
  timeout_error (some Phase.startup) timeout startup_timeout r timing =
      failure ErrorType.startup_timeout
        (String.◌++◌ "Startup phase exceeded time limit (" (
          String.◌++◌ (texts.shown startup_timeout)
            (String.◌++◌ "s)" (startup_info (startup_of timing)))))
        (some (codes "startup"))
  timeout_error (some Phase.execution) timeout startup_timeout r timing =
      failure ErrorType.execution_timeout
        (String.◌++◌ "Code execution exceeded time limit (" (
          String.◌++◌ (texts.shown timeout)
            (String.◌++◌ "s)" (execution_info (startup_of timing) (execution_of timing)))))
        (some (codes "execution"))
  timeout_error _ timeout startup_timeout r timing =
      failure ErrorType.timeout
        (message_or r.error
          (String.◌++◌ "Execution exceeded time limit (" (String.◌++◌ (texts.shown timeout) "s)")))
        (phase_of timing)

  -- Exit code 137, by what the inspection says of the OOM killer.
  unfoldable killed_outcome : Option Bool → Option Text → Status × Option ExecutionError
  killed_outcome (some false) phase = (
    Status.failed,
    failure ErrorType.killed
        "Process was killed (SIGKILL) but not by the memory limit (no OOM kill recorded for the container)"
        phase,
  )
  killed_outcome _ phase =
      (Status.oom, failure ErrorType.oom "Execution exceeded memory limit" phase)

  unfoldable failed_error : ContainerResult → Bool → Option Text → Option ExecutionError
  failed_error r timed_out phase =
      let classified =
        classify_error texts.is_word texts.is_decimal texts.shown_int texts.sanitize_error
          r.exit_code r.stderr timed_out in
      if r.infra_failure
      then failure ErrorType.service_unavailable
          (texts.sanitize_error (message_or r.error "Docker infrastructure failure")) phase
      else if r.config_error
      then failure ErrorType.config_error
          (texts.sanitize_error (message_or r.error "Invalid job type configuration")) phase
      else failure classified.0 classified.1 phase

  -- An error that cannot be made is an exception, which the method's except branch records.
  abbrev pub settled : Status × Option ExecutionError → Status × Option ExecutionError
  settled (status, none) = (
    Status.failed,
    some (record { type = ErrorType.internal_error; message = texts.invalid_phase; phase = none }),
  )
  settled (status, some e) = (status, some e)

  -- The final status and error of a record, by what parse_phase_file gives.
  unfoldable pub outcome :
      (timeout startup_timeout : ℕ)
      → Bool
      → ContainerResult
      → Option PhaseTiming
      → Status × Option ExecutionError
  unfolding determine_timeout_phase timeout_error killed_outcome failed_error
  outcome timeout startup_timeout timed_out r timing =
      let late = timed_out || is_code r.exit_code 124 in
      if late
      then settled (
        Status.timeout,
        timeout_error (determine_timeout_phase timing late) timeout startup_timeout r timing,
      )
      else if is_code r.exit_code 137
      then settled (killed_outcome r.oom_killed (phase_of timing))
      else if r.success
      then (Status.succeeded, none)
      else settled (Status.failed, failed_error r timed_out (phase_of timing))
