-- ===== src/Server/Replay/RoundTrip.antt =====
-- tako_vm/server/app.py: a rerun gets back the code and the input that the executor stored.
use Prim.Native.Char.{code}
use Prim.Native.String
use tako_vm.Prelude.{
  ℕ, String, Option, none, some, true, false, not, if◌then◌else◌, str_eq, List, [], ◌∷◌, ◌≡◌, refl,
  sym, ap, ◌∙◌, arith, ◌==◌, eq_refl, Bool-cases, inl, inr,
}
use mathlib.Core.Option.{some-injective}
use tako_vm.Models.{Status, is_terminal}
use tako_vm.Models.Record.{ExecutionRecord, Artifact}
use tako_vm.Security.{has_char, validate_execution_id}
use tako_vm.Storage.Columns.{Value}
use tako_vm.Storage.Records.{Connection}
use tako_vm.Texts.{codes}
use tako_vm.JobTypes.Registry.{JobTypeRegistry}
use tako_vm.Execution.Timeouts.{Limits, validate_execution_timeout}
use tako_vm.Server.Queue.State.{Hashes, JobData, WorkerPool}
use tako_vm.Server.Queue.Calls.{Result, ok, raises, submit}
use tako_vm.Server.Submission.Endpoint.{accepted, error}
use tako_vm.Server.Replay.{
  FilePath, Files, same_path, is_under, universal_newlines, code_key, input_key, Measures,
  find_artifact, replay, read_key, stored_until, store_replay_artifacts, get_replay_data,
  ReplayRequest, submit_replay, replay_job, resolved_job_type, given_timeout, replay_reply,
  rerun_job, user_artifacts,
}

same_path_refl : (p : FilePath) → same_path p p ≡ true
unfolding same_path
same_path_refl [] = refl
same_path_refl (c ∷ cs) = rw (eq_refl c) (same_path_refl cs)

-- A text without a carriage return is read as it is written.
universal_newlines-plain : (s : String) → has_char 13 (codes s) ≡ false → universal_newlines s ≡ s
unfolding universal_newlines codes has_char
universal_newlines-plain String.[] plain = refl
universal_newlines-plain (String.◌∷◌ c s) plain = elim (Bool-cases (code c == 13)) [
  | inl return ↦ absurd (ground (arith, rw return at plain))
  | inr other ↦ rw other (ap (String.◌∷◌ c) (universal_newlines-plain s (rw other at plain)))
]

module _ (canonical : String → FilePath) (data_dir : FilePath) (loads : String → Option String)
    (m : Measures) (id text input : String) (files : Files) where
  abbrev pub stored : List Artifact × Files
  stored = stored_until canonical data_dir none m id text input files

  -- What is read from the two files.
  module _ (code_inside : is_under data_dir (canonical (code_key id)) ≡ true)
      (input_inside : is_under data_dir (canonical (input_key id)) ≡ true)
      (apart : same_path (canonical (input_key id)) (canonical (code_key id)) ≡ false)
      (plain : has_char 13 (codes input) ≡ false) (parses : loads input ≡ some input) where
    get_replay_data-stored :
        get_replay_data canonical data_dir loads stored.1 stored.0
        ≡ replay (universal_newlines text) input []
    unfolding get_replay_data find_artifact user_artifacts read_key
    get_replay_data-stored =
        rw
          (
            code_inside,
            input_inside,
            apart,
            same_path_refl (canonical (code_key id)),
            same_path_refl (canonical (input_key id)),
          )
          (rw (universal_newlines-plain input plain, parses) refl)

  store_replay_artifacts-some :
      (raised : Option ℕ) (result : List Artifact × Files)
      → store_replay_artifacts canonical data_dir raised m id text input files ≡ some result
      → stored_until canonical data_dir raised m id text input files ≡ result
  unfolding store_replay_artifacts
  store_replay_artifacts-some raised result e =
      elim (Bool-cases (not (validate_execution_id (codes id)))) [
        | inl unsafe ↦ absurd (ground (arith, rw unsafe at e))
        | inr safe ↦
            elim (Bool-cases
              (not (is_under (canonical "runs") (canonical (String.◌++◌ "runs/" id))))) [
                | inl outside ↦ absurd (ground (arith, rw (safe, outside) at e))
                | inr inside ↦ some-injective _ result (rw (safe, inside) at e)
              ]
      ]

-- The asked job type unless there is none or it is empty, and the asked timeout unless it is 0.
abbrev pub rerun_type : ExecutionRecord → Option String → String
rerun_type parent none = parent.job_type
rerun_type parent (some name) = if str_eq name "" then parent.job_type else name

abbrev pub rerun_timeout : Option ℕ → Option ℕ
rerun_timeout none = none
rerun_timeout (some t) = if t == 0 then none else some t

-- The job of a rerun, written out: the stored code and input, the asked or the parent's type, and
-- the link to the parent.
abbrev pub rerun_data :
    ReplayRequest → Option String → (text input : String) → ExecutionRecord → JobData
rerun_data r correlation_id text input parent = record {
  code = text;
  input_data = input;
  job_type = some (rerun_type parent r.job_type);
  timeout = rerun_timeout r.timeout;
  startup_timeout = none;
  requirements = none;
  correlation_id = correlation_id;
  idempotency_key = none;
  idempotency_fingerprint = none;
  parent_execution_id = some parent.execution_id;
  relationship = some "rerun";
}

rerun_type_lem :
    (parent : ExecutionRecord) (o : Option String)
    → resolved_job_type o parent ≡ rerun_type parent o
rerun_type_lem parent none = refl
rerun_type_lem parent (some name) = refl

rerun_timeout_lem : (o : Option ℕ) → given_timeout o ≡ rerun_timeout o
rerun_timeout_lem none = refl
rerun_timeout_lem (some t) = refl

module _ (h : Hashes) (config : Limits) (registry : JobTypeRegistry) (net net' : ℕ → Connection)
    (new_id : String) (r : ReplayRequest) (correlation_id ip : Option String) (now : ℕ)
    (p : WorkerPool) (canonical : String → FilePath) (data_dir : FilePath)
    (loads : String → Option String) (m : Measures) (text input : String) (files : Files)
    (parent : ExecutionRecord) where
  submit_replay_lem :
      submit_replay h config registry net net' new_id r correlation_id ip now p parent "rerun"
        (universal_newlines text)
        input
      ≡ (if validate_execution_timeout config registry r.timeout
            (some (codes (rerun_type parent r.job_type)))
          then replay_reply (
              submit h net net' new_id
                (rerun_data r correlation_id (universal_newlines text) input parent)
                ip
                now
                p)
          else (error 422, p))
  unfolding submit_replay replay_job
  submit_replay_lem = rw (rerun_type_lem parent r.job_type, rerun_timeout_lem r.timeout) refl

  replied :
      (s : Result String × WorkerPool)
      → replay_reply s ≡ elim s.0 [
        | ok id ↦ (accepted (some (Value.text id)) (some (Value.status Status.queued)), s.1)
        | raises x ↦ (error 500, s.1)
      ]
  replied (ok id, q) = refl
  replied (raises e, q) = refl

  -- If a completed record has the artifacts that _store_replay_artifacts stored, both paths are
  -- different and under the data directory, the input's text has no carriage return and parses
  -- back, and the timeout is valid on its own, then a rerun answers 422 if the timeout is invalid
  -- for the job type, and else submits a job with the stored code as text mode reads it, the
  -- stored input, the asked job type or else the parent's, the asked timeout, no idempotency key,
  -- and the parent's id with the relationship rerun, and answers with the id that submit gives, or
  -- 500 if it raises. A code without a carriage return is read as it is.
  pub rerun_job-stored :
      (after : Files)
      → store_replay_artifacts canonical data_dir none m parent.execution_id text input files
        ≡ some (parent.input_artifacts, after)
      → is_under data_dir (canonical (code_key parent.execution_id)) ≡ true
      → is_under data_dir (canonical (input_key parent.execution_id)) ≡ true
      → same_path
          (canonical (input_key parent.execution_id))
          (canonical (code_key parent.execution_id))
        ≡ false
      → has_char 13 (codes input) ≡ false
      → loads input ≡ some input
      → is_terminal parent.status ≡ true
      → validate_execution_timeout config registry r.timeout none ≡ true
      → (rerun_job h config registry net net' new_id r correlation_id ip now p canonical data_dir
            loads after
            (some parent)
          ≡ (if validate_execution_timeout config registry r.timeout
                (some (codes (rerun_type parent r.job_type)))
              then (let (e, q) =
                    submit h net net' new_id
                      (rerun_data r correlation_id (universal_newlines text) input parent)
                      ip
                      now
                      p in
                  elim e [
                    | ok id ↦
                        (accepted (some (Value.text id)) (some (Value.status Status.queued)), q)
                    | raises x ↦ (error 500, q)
                  ])
              else (error 422, p)))
        × (has_char 13 (codes text) ≡ false → universal_newlines text ≡ text)
  unfolding rerun_job submit_replay replay_job
  rerun_job-stored after stores code_inside input_inside apart plain parses ended valid =
      let same =
        store_replay_artifacts-some canonical data_dir loads m parent.execution_id text input files
          none (parent.input_artifacts, after) stores in
      let found : get_replay_data canonical data_dir loads after parent.input_artifacts
          ≡ replay (universal_newlines text) input [] =
        ap (λ s. get_replay_data canonical data_dir loads s.1 s.0) (sym same)
        ∙ get_replay_data-stored canonical data_dir loads m parent.execution_id text input files
            code_inside input_inside apart plain parses in
      (
        rw (valid, ended, found)
            (submit_replay_lem
              ∙ ap
                  (λ s.
                    if validate_execution_timeout config registry r.timeout
                      (some (codes (rerun_type parent r.job_type)))
                    then s
                    else (error 422, p))
                  (replied (
                    submit h net net' new_id
                      (rerun_data r correlation_id (universal_newlines text) input parent) ip now
                      p))),
        universal_newlines-plain text,
      )
