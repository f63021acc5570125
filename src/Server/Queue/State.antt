-- ===== src/Server/Queue/State.antt =====
-- tako_vm/server/queue.py: QueuedJob, the state of WorkerPool, and the records that it builds.
-- The two hash functions of models.py are parameters: they are hashlib's SHA-256 of a text.
use Prim.Native.String
use tako_vm.Prelude.{
  ℕ, String, Option, none, some, Bool, true, false, List, Dict, str_eq, is_some, if◌then◌else◌,
}
use tako_vm.Models.{Status, ErrorType, ExecutionError}
use tako_vm.Models.Record.{ExecutionRecord, new_record}
use tako_vm.Storage.Records.{Table}

pub record Hashes : Type 0 where
  pub sha256_content : String → String
  pub sha256_json : String → String

-- The keys of the dictionary job_data that the pool reads; `none` is a missing key or None.
-- input_data is its canonical JSON text, and so is the list of requirements.
pub record JobData : Type 0 where
  pub code : String
  pub input_data : String
  pub job_type : Option String
  pub timeout : Option ℕ
  pub startup_timeout : Option ℕ
  pub requirements : Option String
  pub correlation_id : Option String
  pub idempotency_key : Option String
  pub idempotency_fingerprint : Option String
  pub parent_execution_id : Option String
  pub relationship : Option String

-- asyncio.Future
pub data Future : Type 0 where
  pending : Future
  result : ExecutionRecord → Future
  raised : Future
  cancelled : Future

abbrev pub is_done : Future → Bool
is_done Future.pending = false
is_done (result r) = true
is_done raised = true
is_done Future.cancelled = true

pub record QueuedJob : Type 0 where
  pub job_id : String
  pub job_data : JobData
  pub client_ip : Option String
  pub created_at : ℕ
  pub future : Future
  pub cancelled : Bool
  pub cancel_signal_sent : Bool

-- Where a worker's loop waits, with the job of this iteration.
pub data Phase : Type 0 where
  idle : Phase
  skipping : String → Phase
  skipped : String → Phase
  marking : String → Phase
  executing : String → Phase
  saving : String → ExecutionRecord → Phase
  saving_cancelled : String → Phase
  finishing : String → ExecutionRecord → Phase
  failing : String → String → Phase
  reporting : String → String → ExecutionRecord → Phase
  recovering : String → String → Phase
  sleeping : String → Phase

-- DeadLetterEntry.build_job_summary: what the dead letter queue keeps of a job's payload.
pub record JobSummary : Type 0 where
  pub job_type : String
  pub code_hash : String
  pub input_hash : String
  pub code_size_bytes : ℕ
  pub input_size_bytes : ℕ
  pub has_idempotency_key : Bool
  pub timeout : Option ℕ
  pub startup_timeout : Option ℕ
  pub requirements : Option String
  pub correlation_id : Option String
  pub parent_execution_id : Option String

-- DeadLetterEntry
pub record DeadLetter : Type 0 where
  pub job_id : String
  pub job_data : JobSummary
  pub error_type : ErrorType
  pub error_message : String
  pub retry_count : ℕ
  pub client_ip : Option String
  pub correlation_id : Option String

pub record WorkerPool : Type 0 where
  pub max_queue_size : ℕ
  pub queue : List String
  pub active_jobs : List String
  pub running_jobs : List String
  pub jobs : Dict QueuedJob
  pub workers : Dict Phase
  pub storage : Table
  pub dlq : List DeadLetter
  -- cancel() calls that wait for the storage, or for the container runtime
  pub cancelling : List String
  pub killing : List String
  -- the jobs whose container was sent a kill
  pub signalled : List String
  pub shutdown : Bool

-- `job_data.get("job_type") or "default"`
abbrev pub job_type_name : Option String → String
job_type_name none = "default"
job_type_name (some name) = if str_eq name "" then "default" else name

-- `if correlation_id:` before the worker's context takes it.
abbrev pub truthy : Option String → Option String
truthy none = none
truthy (some s) = if str_eq s "" then none else some s

abbrev pub given : Option ℕ → ℕ → ℕ
given none d = d
given (some n) d = n

abbrev pub failure : ErrorType → String → ExecutionError
failure type message = record { type = type; message = message; phase = none }

module _ (h : Hashes) where
  -- The limits of ExecutionRecord's fields are left out: in the source a key of more than 128
  -- characters or a job type's name of more than 64 raises a ValidationError here.
  unfoldable pub build_record :
      QueuedJob → Status → Option ExecutionError → Option ℕ → ExecutionRecord
  unfolding new_record
  build_record job status error queued_at =
      let name = job_type_name job.job_data.job_type in
      record (new_record job.job_id job.created_at) {
        status = status;
        job_type = name;
        job_ref = String.◌++◌ name "@latest";
        queued_at = given queued_at job.created_at;
        code_hash = h.sha256_content job.job_data.code;
        input_hash = h.sha256_json job.job_data.input_data;
        client_ip = job.client_ip;
        correlation_id = job.job_data.correlation_id;
        error = error;
        idempotency_key = job.job_data.idempotency_key;
        idempotency_fingerprint = job.job_data.idempotency_fingerprint;
        parent_execution_id = job.job_data.parent_execution_id;
        relationship = job.job_data.relationship;
      }

  unfoldable pub build_cancelled_record : QueuedJob → String → ExecutionRecord
  unfolding build_record
  build_cancelled_record job message =
      build_record job Status.cancelled (some (failure ErrorType.cancelled message)) none

  unfoldable pub build_job_summary : JobData → JobSummary
  build_job_summary d = record {
    job_type = job_type_name d.job_type;
    code_hash = h.sha256_content d.code;
    input_hash = h.sha256_json d.input_data;
    code_size_bytes = String.len d.code;
    input_size_bytes = String.len d.input_data;
    has_idempotency_key = is_some d.idempotency_key;
    timeout = d.timeout;
    startup_timeout = d.startup_timeout;
    requirements = d.requirements;
    correlation_id = d.correlation_id;
    parent_execution_id = d.parent_execution_id;
  }
