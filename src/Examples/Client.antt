-- ===== src/Examples/Client.antt =====
-- tako_vm/sdk/client.py: submissions that are retried, the timeouts of the client, and a rerun.
use tako_vm.Prelude.{
  ℕ, zero, suc, ◌≤◌, String, Option, none, some, Bool, true, false, List, [], ◌∷◌, ◌≡◌, refl, get,
  ◌↔◌, arith, str_eq, if◌then◌else◌,
}
use tako_vm.Models.{Status}
use tako_vm.Models.Record.{ExecutionRecord, new_record}
use tako_vm.JobTypes.{JobType, new_job_type}
use tako_vm.JobTypes.Registry.{JobTypeRegistry, get_type}
use tako_vm.Execution.Timeouts.{
  Limits, validate_execution_timeout, budget_of_job, validate_timeouts,
}
use tako_vm.Execution.Timeouts.Budget.{run_time}
use tako_vm.Server.Queue.State.{WorkerPool}
use tako_vm.Server.Submission.{ExecuteRequest}
use tako_vm.Server.Submission.Endpoint.{Arrival, accepted, error, execute_code_async}
use tako_vm.Sdk.Submit.{
  Delivery, unanswered, answered, Attempt, job_id, execute_payload, submit_code,
}
use tako_vm.Sdk.Submit.Answers.{IsOnce}
use tako_vm.Sdk.Submit.Once.{Follows, IsFresh, submit_code-IsOnce, submit_code-rejected}
use tako_vm.Sdk.Timeouts.Covers.{
  IsStartable, job_with, limit, resolve_read_timeout-covers, resolve_read_timeout_iff,
}
use tako_vm.Security.{has_char}
use tako_vm.Texts.{codes}
use tako_vm.Server.Replay.{
  FilePath, Files, write_text, universal_newlines, code_key, input_key, Measures, code_artifact,
  input_artifact, ReplayRequest, rerun_job,
}
use tako_vm.Server.Replay.RoundTrip.{rerun_type, rerun_data, rerun_job-stored}
use tako_vm.Server.Queue.Calls.{ok, raises, submit}
use tako_vm.Storage.Columns.{Value}
use tako_vm.Examples.Keys.{hashes, online, fingerprint, sent, pool, no_keys, no_rows}

abbrev settings : Limits
settings = record {
  production_mode = false;
  default_timeout = 60;
  max_timeout = 300;
  default_startup_timeout = 120;
  max_startup_timeout = 300;
  session_idle_timeout_seconds = 600;
  session_max_ttl_seconds = 3600;
  job_types = [];
}

abbrev empty_registry : JobTypeRegistry
empty_registry = record { job_types = []; file = [] }

abbrev arrival : String → WorkerPool → Arrival
arrival id p = record {
  pool = p;
  id = id;
  net = online;
  retry_net = online;
  correlation_id = none;
  client_ip = none;
  now = 10;
}

abbrev request : ExecuteRequest
request = sent "print(1)"

-- A first attempt that a server with a pool has, and further ones that meet the pool it leaves.
abbrev attempts : Delivery → WorkerPool → ℕ → Attempt
attempts d p zero = record { delivery = d; arrival = arrival "a" p }
attempts d p (suc n) = record {
  delivery = answered;
  arrival =
      arrival "b"
        (execute_code_async fingerprint hashes settings empty_registry
          (execute_payload request "generated") (arrival "a" p)).pool;
}

follows :
    Follows fingerprint hashes settings empty_registry
      (execute_payload request "generated")
      (attempts unanswered pool)
unfolding tako_vm.Storage.Effects.perform_all execute_code_async execute_payload
    tako_vm.Storage.Records.get_by_idempotency_key tako_vm.Storage.Records.save_record
    tako_vm.Storage.Records.save_loop tako_vm.Storage.Records.save_record_once get
    tako_vm.Storage.Columns.extract tako_vm.Storage.Records.key_taken tako_vm.Prelude.put
follows zero = ([], refl)
follows (suc n) = ([], refl)

fresh :
    IsFresh fingerprint hashes settings empty_registry
      (execute_payload request "generated")
      (attempts unanswered pool)
unfolding get execute_code_async execute_payload tako_vm.Storage.Records.get_by_idempotency_key
    tako_vm.Storage.Records.save_record tako_vm.Storage.Records.save_loop
    tako_vm.Storage.Records.save_record_once tako_vm.Storage.Columns.extract
    tako_vm.Storage.Records.key_taken tako_vm.Prelude.put
fresh zero = refl
fresh (suc n) = refl

submit_code-IsOnce_example :
    let s =
      submit_code fingerprint hashes settings empty_registry request "generated"
        (attempts unanswered pool) in
    IsOnce s.queued s.answer
submit_code-IsOnce_example =
    submit_code-IsOnce fingerprint hashes settings empty_registry request "generated"
      (attempts unanswered pool) refl follows fresh no_keys no_rows

-- A queue with no room.
abbrev crowded : WorkerPool
crowded = record pool { max_queue_size = 1; queue = "x" ∷ [] }

met_by_crowded :
    Follows fingerprint hashes settings empty_registry
      (execute_payload request "generated")
      (attempts answered crowded)
unfolding tako_vm.Storage.Effects.perform_all execute_code_async execute_payload
    tako_vm.Storage.Records.get_by_idempotency_key tako_vm.Storage.Records.save_record
    tako_vm.Storage.Records.save_loop tako_vm.Storage.Records.save_record_once get
    tako_vm.Storage.Columns.extract tako_vm.Storage.Records.key_taken tako_vm.Prelude.put
    tako_vm.Storage.Records.merge tako_vm.Storage.Columns.set_clause_for
    tako_vm.Storage.Columns.policy
met_by_crowded zero = ([], refl)
met_by_crowded (suc n) = ([], refl)

new_to_crowded :
    IsFresh fingerprint hashes settings empty_registry
      (execute_payload request "generated")
      (attempts answered crowded)
unfolding get execute_code_async execute_payload tako_vm.Storage.Records.get_by_idempotency_key
    tako_vm.Storage.Records.save_record tako_vm.Storage.Records.save_loop
    tako_vm.Storage.Records.save_record_once tako_vm.Storage.Columns.extract
    tako_vm.Storage.Records.key_taken tako_vm.Prelude.put tako_vm.Storage.Records.merge
    tako_vm.Storage.Columns.set_clause_for tako_vm.Storage.Columns.policy
new_to_crowded zero = refl
new_to_crowded (suc n) = refl

submit_code-rejected_example :
    let s =
      submit_code fingerprint hashes settings empty_registry request "generated"
        (attempts answered crowded) in
    (s.answer ≡ job_id "a") × (s.queued ≡ [])
unfolding tako_vm.Execution.Timeouts.validate_execution_timeout tako_vm.Server.Submission.check_key
    execute_payload tako_vm.Storage.Records.get_by_idempotency_key tako_vm.Server.Queue.Calls.submit
    tako_vm.Storage.Records.save_record tako_vm.Storage.Records.save_loop
    tako_vm.Storage.Records.save_record_once get tako_vm.Storage.Columns.extract
    tako_vm.Server.Submission.job_data tako_vm.Storage.Records.key_taken tako_vm.Prelude.put
    tako_vm.Storage.Records.merge tako_vm.Storage.Columns.set_clause_for
    tako_vm.Storage.Columns.policy
submit_code-rejected_example =
    submit_code-rejected fingerprint hashes settings empty_registry request "generated"
      (attempts answered crowded) refl met_by_crowded new_to_crowded no_keys no_rows refl refl refl
      refl refl refl

no_types : IsStartable empty_registry
unfolding get_type
no_types name j found = absurd (ground (arith, found))

-- A job type "t" that the registry does not have, with a startup timeout.
resolve_read_timeout-covers_example :
    run_time (
      budget_of_job settings empty_registry
        (job_with settings empty_registry (some (116 ∷ [])) none (some 100)))
    ≤ limit settings empty_registry [] (some (116 ∷ [])) none (some 100)
unfolding tako_vm.Sdk.Timeouts.Covers.IsCurrent
resolve_read_timeout-covers_example =
    resolve_read_timeout-covers settings empty_registry [] 116 [] none (some 100) tt no_types
      (omega arith)

abbrev default_type : JobType
default_type = record (new_job_type (100 ∷ 101 ∷ 102 ∷ 97 ∷ 117 ∷ 108 ∷ 116 ∷ [])) { timeout = 30 }

abbrev registry : JobTypeRegistry
registry = record { job_types = (default_type.name, default_type) ∷ []; file = [] }

-- A default timeout of 60 with the job type "default" of 30 seconds.
resolve_read_timeout_iff_example :
    (run_time (budget_of_job settings registry (job_with settings registry none none (some 100)))
      ≤ limit settings registry [] none none (some 100))
    ↔ (60 ≤ 55)
unfolding tako_vm.Sdk.Timeouts.Covers.IsCurrent get_type new_job_type validate_timeouts
resolve_read_timeout_iff_example =
    resolve_read_timeout_iff settings registry [] 100 default_type tt refl refl

abbrev canonical : String → FilePath
canonical key = if str_eq key "runs" then "data" ∷ "runs" ∷ [] else "data" ∷ "runs" ∷ key ∷ []

abbrev measures : Measures
measures = record { size_bytes = λ s. 1; sha256_content = λ s. s; sha256_json = λ s. s }

abbrev parent : ExecutionRecord
parent = record (new_record "a" 10) {
  status = Status.succeeded;
  input_artifacts = code_artifact measures "a" "print(1)" ∷ input_artifact measures "a" "{}" ∷ [];
}

abbrev written : Files
written =
    write_text (canonical (input_key "a")) "{}"
      (write_text (canonical (code_key "a")) "print(1)" (λ path. none))

abbrev again : ReplayRequest
again = record { job_type = none; timeout = some 20 }

rerun_job-stored_example :
    (rerun_job hashes settings empty_registry online online "b" again none none 20 pool canonical
        ("data" ∷ [])
        (λ text. some text)
        written
        (some parent)
      ≡ (if validate_execution_timeout settings empty_registry again.timeout
            (some (codes (rerun_type parent again.job_type)))
          then (let (e, q) =
                submit hashes online online "b"
                  (rerun_data again none (universal_newlines "print(1)") "{}" parent)
                  none
                  20
                  pool in
              elim e [
                | ok id ↦ (accepted (some (Value.text id)) (some (Value.status Status.queued)), q)
                | raises x ↦ (error 500, q)
              ])
          else (error 422, pool)))
    × (has_char 13 (codes "print(1)") ≡ false → universal_newlines "print(1)" ≡ "print(1)")
unfolding tako_vm.Server.Replay.store_replay_artifacts new_record tako_vm.Server.Replay.same_path
    tako_vm.Execution.Timeouts.validate_execution_timeout
rerun_job-stored_example =
    rerun_job-stored hashes settings empty_registry online online "b" again none none 20 pool
      canonical ("data" ∷ []) (λ text. some text) measures "print(1)" "{}" (λ path. none) parent
      written refl refl refl refl refl refl refl refl
