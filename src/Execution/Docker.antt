-- ===== src/Execution/Docker.antt =====
-- tako_vm/execution/docker.py: the container names, the argument lists of the docker command and the
-- reading of its answers.
use tako_vm.Prelude.{
  ℕ, ◌+◌, Option, none, some, Bool, true, false, not, ◌&&◌, ◌||◌, List, [], ◌∷◌, ◌++◌, length, ltb,
  if◌then◌else◌,
}
use tako_vm.Models.{ℤ, is_code, pos, negsuc}
use tako_vm.Security.{Text, is_empty, same_text}
use tako_vm.Security.Requirement.{validate_pip_requirement}
use tako_vm.Texts.{codes, find, lower, strip, first_line, shown}
pub mod Session

-- An optional text that is neither None nor empty.
abbrev pub nonempty : Option Text → Option Text
nonempty none = none
nonempty (some t) = if is_empty t then none else some t

abbrev pub when : Bool → List Text → List Text
when b args = if b then args else []

-- One argument for a text that is present.
abbrev pub each : Option Text → (Text → Text) → List Text
each none f = []
each (some t) f = f t ∷ []

-- `fresh` is the first 12 digits of a new UUID.
unfoldable pub generate_container_name : Text → Text → Option Text → ℕ → Text
unfolding codes shown
generate_container_name fresh prefix job_id attempt = elim (nonempty job_id) [
  | none ↦ prefix ++ codes "-" ++ fresh
  | some id ↦
      if ltb 0 attempt
      then prefix ++ codes "-" ++ id ++ codes "-r" ++ shown attempt
      else prefix ++ codes "-" ++ id
]

-- What `subprocess.run` of a docker command gives; `raised` is any exception.
pub data Ran : Type 0 where
  returned : ℤ → (stdout stderr : Text) → Ran
  raised : Ran

abbrev pub succeeded : Ran → Bool
succeeded (returned code out err) = is_code code 0
succeeded raised = false

-- The commands that the functions run.
abbrev pub kill_command : Text → List Text
kill_command name = codes "docker" ∷ codes "kill" ∷ name ∷ []

abbrev pub remove_command : Text → List Text
remove_command name = codes "docker" ∷ codes "rm" ∷ codes "-f" ∷ name ∷ []

abbrev pub inspect_command : Text → Text → List Text
inspect_command format name =
    codes "docker" ∷ codes "inspect" ∷ codes "--format" ∷ format ∷ name ∷ []

module _ (run : List Text → Ran) where
  unfoldable pub kill_container : Text → Bool
  unfolding codes
  kill_container name = succeeded (run (kill_command name))

  unfoldable pub remove_container : Text → Bool
  unfolding codes
  remove_container name = succeeded (run (remove_command name))

  unfoldable pub stop_container : Text → ℕ → Bool
  unfolding codes shown
  stop_container name timeout =
      succeeded (run (codes "docker" ∷ codes "stop" ∷ codes "-t" ∷ shown timeout ∷ name ∷ []))

  unfoldable pub inspect_oom_killed : Text → Option Bool
  unfolding codes lower strip same_text
  inspect_oom_killed name = elim (run (inspect_command (codes "{{.State.OOMKilled}}") name)) [
    | raised ↦ none
    | returned code out err ↦
        let value = lower (strip out) in
        if not (is_code code 0)
        then none
        else if same_text value (codes "true")
        then some true
        else if same_text value (codes "false")
        then some false
        else none
  ]

  unfoldable pub container_running : Text → Bool
  unfolding codes lower strip same_text
  container_running name = elim (run (inspect_command (codes "{{.State.Running}}") name)) [
    | raised ↦ false
    | returned code out err ↦
        if not (is_code code 0) then false else same_text (lower (strip out)) (codes "true")
  ]

  unfoldable pub classify_sigkill : Text → Option Bool
  unfolding inspect_oom_killed
  classify_sigkill name = inspect_oom_killed name

-- ContainerLimits of config.py.
pub record ContainerLimits : Type 0 where
  pub nofile_soft : ℕ
  pub nofile_hard : ℕ
  pub nproc_soft : ℕ
  pub nproc_hard : ℕ
  pub fsize : ℕ
  pub pids_limit : ℕ
  pub tmpfs_size : Text

unfoldable pub ulimit_args : ContainerLimits → List Text
unfolding codes shown
ulimit_args l =
    (codes "--ulimit=nofile=" ++ shown l.nofile_soft ++ codes ":" ++ shown l.nofile_hard)
    ∷ (codes "--ulimit=nproc=" ++ shown l.nproc_soft ++ codes ":" ++ shown l.nproc_hard)
    ∷ (codes "--ulimit=fsize=" ++ shown l.fsize)
    ∷ []

unfoldable pub base_isolation_args : Text → Text → Bool → Option Text → Bool → List Text
unfolding codes same_text
base_isolation_args name runtime enable_cap_restrictions execution_id auto_remove =
    (codes "docker" ∷ codes "run" ∷ [])
    ++ when auto_remove (codes "--rm" ∷ [])
    ++ ((codes "--name=" ++ name)
        ∷ codes "--label=tako-vm-executor"
        ∷ codes "--init"
        ∷ codes "--read-only"
        ∷ [])
    ++ each (nonempty execution_id) (λ id. codes "--label=tako-vm.execution-id=" ++ id)
    ++ when enable_cap_restrictions (
        codes "--cap-drop=ALL"
        ∷ codes "--cap-add=SETUID"
        ∷ codes "--cap-add=SETGID"
        ∷ codes "--cap-add=KILL"
        ∷ [])
    ++ when (same_text runtime (codes "runsc")) ((codes "--runtime=" ++ runtime) ∷ [])

-- The policy of runtime requirements; the written file is their lines.
unfoldable pub valid_requirements : List Text → Bool
unfolding validate_pip_requirement
valid_requirements [] = true
valid_requirements (r ∷ rs) = validate_pip_requirement r && valid_requirements rs

pub data Refusal : Type 0 where
  disabled too_many invalid : Refusal

pub data Prepared : Type 0 where
  prepared : List Text → Prepared
  refused : Refusal → Prepared

unfoldable pub prepare_requirements_file : Bool → ℕ → List Text → Prepared
unfolding valid_requirements
prepare_requirements_file allow max [] = prepared []
prepare_requirements_file allow max (r ∷ rs) =
    if not allow
    then refused Refusal.disabled
    else if ltb max (length (r ∷ rs))
    then refused Refusal.too_many
    else if valid_requirements (r ∷ rs)
    then prepared (r ∷ rs)
    else refused Refusal.invalid

-- _DOCKER_INFRA_STDERR_PATTERNS
unfoldable pub is_infra_stderr : Text → Bool
unfolding codes find
is_infra_stderr stderr =
    find (codes "cannot connect to the docker daemon") stderr
    || find (codes "error during connect") stderr
    || find (codes "docker daemon is not running") stderr

-- `str(code)`
abbrev pub shown_code : ℤ → Text
shown_code (pos n) = shown n
shown_code (negsuc n) = codes "-" ++ shown (n + 1)

-- The detail of a failure of docker itself.
unfoldable pub classify_docker_run_result : ℤ → Text → Option Text
unfolding codes shown lower is_infra_stderr strip first_line
classify_docker_run_result code stderr =
    let lines = strip stderr in
    if is_code code 125 || (not (is_code code 0) && is_infra_stderr (lower stderr))
    then some (
        if is_empty lines
        then codes "docker run exited with code " ++ shown_code code
        else first_line lines)
    else none

-- `output_dir / "result.json"`: a link, nothing, a file whose reading fails, or one with a text.
pub data ResultFile : Type 0 where
  symlink absent unreadable : ResultFile
  content : Text → ResultFile

-- `loads` is json.loads, on canonical texts; a text that does not parse has none.
unfoldable pub read_result_json : (Text → Option Text) → ResultFile → Option Text
read_result_json loads symlink = none
read_result_json loads absent = none
read_result_json loads unreadable = none
read_result_json loads (content t) = loads t
