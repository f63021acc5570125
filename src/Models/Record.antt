-- ===== src/Models/Record.antt =====
-- tako_vm/models.py: ExecutionRecord, with the parts that it holds. Text that only passes through
-- (identifiers, hashes, output) is a String; a JSON result is its canonical text.
use tako_vm.Prelude.{ℕ, String, Option, none, Bool, false, List, []}
use tako_vm.Models.{ℤ, Status, Phase, ExecutionError}

pub record ExecutionTiming : Type 0 where
  pub startup_ms : Option ℕ
  pub dep_install_ms : Option ℕ
  pub execution_ms : Option ℕ
  pub total_ms : Option ℕ
  pub phase_at_exit : Option Phase
  pub dep_install_started : Bool

pub record ResourceUsage : Type 0 where
  pub max_rss_mb : Option ℕ
  pub cpu_time_ms : Option ℕ
  pub wall_time_ms : Option ℕ

pub record Artifact : Type 0 where
  pub name : String
  pub size_bytes : ℕ
  pub sha256 : String
  pub content_type : Option String
  pub storage_key : String

pub record ExecutionRecord : Type 0 where
  pub execution_id : String
  pub status : Status
  pub job_type : String
  pub job_ref : String
  pub created_at : ℕ
  pub queued_at : ℕ
  pub dequeued_at : Option ℕ
  pub started_at : Option ℕ
  pub ended_at : Option ℕ
  pub duration_ms : Option ℕ
  pub attempt : ℕ
  pub max_attempts : ℕ
  pub worker_id : Option String
  pub runtime : Option String
  pub idempotency_key : Option String
  pub idempotency_fingerprint : Option String
  pub code_hash : String
  pub input_hash : String
  pub params_hash : String
  pub input_artifacts_hash : String
  pub input_artifacts : List Artifact
  pub exit_code : Option ℤ
  pub stdout : String
  pub stderr : String
  pub stdout_truncated : Bool
  pub stderr_truncated : Bool
  pub result_json : Option String
  pub resource_usage : Option ResourceUsage
  pub timing : Option ExecutionTiming
  pub artifacts : List Artifact
  pub error : Option ExecutionError
  pub client_ip : Option String
  pub correlation_id : Option String
  pub parent_execution_id : Option String
  pub relationship : Option String
  pub session_id : Option String

-- The fields' defaults; the identifier and the two timestamps come from factories.
unfoldable pub new_record : String → ℕ → ExecutionRecord
new_record execution_id now = record {
  execution_id = execution_id;
  status = Status.queued;
  job_type = "default";
  job_ref = "default@latest";
  created_at = now;
  queued_at = now;
  dequeued_at = none;
  started_at = none;
  ended_at = none;
  duration_ms = none;
  attempt = 0;
  max_attempts = 1;
  worker_id = none;
  runtime = none;
  idempotency_key = none;
  idempotency_fingerprint = none;
  code_hash = "";
  input_hash = "";
  params_hash = "";
  input_artifacts_hash = "";
  input_artifacts = [];
  exit_code = none;
  stdout = "";
  stderr = "";
  stdout_truncated = false;
  stderr_truncated = false;
  result_json = none;
  resource_usage = none;
  timing = none;
  artifacts = [];
  error = none;
  client_ip = none;
  correlation_id = none;
  parent_execution_id = none;
  relationship = none;
  session_id = none;
}
