-- ===== src/Storage/Columns.antt =====
-- tako_vm/storage.py: _EXECUTION_COLUMNS, the conflict policies and the SET clause.
use tako_vm.Prelude.{ℕ, String, Option, none, some, Bool, List, map_option, or_else}
use tako_vm.Models.{ℤ, Status, ExecutionError}
use tako_vm.Models.Record.{ExecutionRecord, ExecutionTiming, ResourceUsage, Artifact}

pub data Column : Type 0 where
  execution_id status job_type job_ref created_at queued_at dequeued_at started_at : Column
  ended_at duration_ms attempt max_attempts worker_id idempotency_key : Column
  idempotency_fingerprint code_hash input_hash params_hash input_artifacts_hash : Column
  input_artifacts_json exit_code stdout stderr stdout_truncated stderr_truncated : Column
  result_json max_rss_mb cpu_time_ms wall_time_ms timing_json artifacts_json : Column
  error_json client_ip correlation_id parent_execution_id relationship : Column
  runtime session_id : Column

-- What a cell holds; a Jsonb payload is the value that it serialises.
pub data Value : Type 0 where
  status : Status → Value
  text : String → Value
  number : ℕ → Value
  code : ℤ → Value
  flag : Bool → Value
  artifacts : List Artifact → Value
  timing : ExecutionTiming → Value
  error : ExecutionError → Value

abbrev pub Row : Type 0
Row = Column → Option Value

pub data Policy : Type 0 where
  excluded keep_existing coalesce_existing coalesce_excluded key : Policy

-- SQL's COALESCE(a, b).
abbrev pub coalesce : Option Value → Option Value → Option Value
coalesce a b = or_else a b

-- One line `column = …` of ON CONFLICT DO UPDATE SET; the key has none and keeps its value.
unfoldable pub set_clause_for : Policy → Option Value → Option Value → Option Value
set_clause_for Policy.excluded existing new = new
set_clause_for Policy.keep_existing existing new = existing
set_clause_for Policy.coalesce_existing existing new = coalesce existing new
set_clause_for Policy.coalesce_excluded existing new = coalesce new existing
set_clause_for Policy.key existing new = existing

-- The policy of each column.
unfoldable pub policy : Column → Policy
policy Column.execution_id = Policy.key
policy Column.status = Policy.excluded
policy Column.job_type = Policy.excluded
policy Column.job_ref = Policy.excluded
policy Column.created_at = Policy.keep_existing
policy Column.queued_at = Policy.coalesce_existing
policy Column.dequeued_at = Policy.coalesce_existing
policy Column.started_at = Policy.excluded
policy Column.ended_at = Policy.excluded
policy Column.duration_ms = Policy.excluded
policy Column.attempt = Policy.excluded
policy Column.max_attempts = Policy.excluded
policy Column.worker_id = Policy.coalesce_excluded
policy Column.idempotency_key = Policy.coalesce_existing
policy Column.idempotency_fingerprint = Policy.coalesce_existing
policy Column.code_hash = Policy.coalesce_existing
policy Column.input_hash = Policy.coalesce_existing
policy Column.params_hash = Policy.coalesce_existing
policy Column.input_artifacts_hash = Policy.coalesce_existing
policy Column.input_artifacts_json = Policy.excluded
policy Column.exit_code = Policy.excluded
policy Column.stdout = Policy.excluded
policy Column.stderr = Policy.excluded
policy Column.stdout_truncated = Policy.excluded
policy Column.stderr_truncated = Policy.excluded
policy Column.result_json = Policy.excluded
policy Column.max_rss_mb = Policy.excluded
policy Column.cpu_time_ms = Policy.excluded
policy Column.wall_time_ms = Policy.excluded
policy Column.timing_json = Policy.excluded
policy Column.artifacts_json = Policy.excluded
policy Column.error_json = Policy.excluded
policy Column.client_ip = Policy.coalesce_existing
policy Column.correlation_id = Policy.coalesce_existing
policy Column.parent_execution_id = Policy.coalesce_existing
policy Column.relationship = Policy.coalesce_existing
policy Column.runtime = Policy.coalesce_excluded
policy Column.session_id = Policy.coalesce_existing

abbrev usage : Option ResourceUsage → (ResourceUsage → Option ℕ) → Option Value
usage none field = none
usage (some u) field = map_option Value.number (field u)

-- The value extractors: the row of VALUES that the INSERT proposes for a record.
unfoldable pub extract : ExecutionRecord → Row
extract r Column.execution_id = some (Value.text r.execution_id)
extract r Column.status = some (Value.status r.status)
extract r Column.job_type = some (Value.text r.job_type)
extract r Column.job_ref = some (Value.text r.job_ref)
extract r Column.created_at = some (Value.number r.created_at)
extract r Column.queued_at = some (Value.number r.queued_at)
extract r Column.dequeued_at = map_option Value.number r.dequeued_at
extract r Column.started_at = map_option Value.number r.started_at
extract r Column.ended_at = map_option Value.number r.ended_at
extract r Column.duration_ms = map_option Value.number r.duration_ms
extract r Column.attempt = some (Value.number r.attempt)
extract r Column.max_attempts = some (Value.number r.max_attempts)
extract r Column.worker_id = map_option Value.text r.worker_id
extract r Column.idempotency_key = map_option Value.text r.idempotency_key
extract r Column.idempotency_fingerprint = map_option Value.text r.idempotency_fingerprint
extract r Column.code_hash = some (Value.text r.code_hash)
extract r Column.input_hash = some (Value.text r.input_hash)
extract r Column.params_hash = some (Value.text r.params_hash)
extract r Column.input_artifacts_hash = some (Value.text r.input_artifacts_hash)
extract r Column.input_artifacts_json = some (Value.artifacts r.input_artifacts)
extract r Column.exit_code = map_option Value.code r.exit_code
extract r Column.stdout = some (Value.text r.stdout)
extract r Column.stderr = some (Value.text r.stderr)
extract r Column.stdout_truncated = some (Value.flag r.stdout_truncated)
extract r Column.stderr_truncated = some (Value.flag r.stderr_truncated)
extract r Column.result_json = map_option Value.text r.result_json
extract r Column.max_rss_mb = usage r.resource_usage (λ u. u.max_rss_mb)
extract r Column.cpu_time_ms = usage r.resource_usage (λ u. u.cpu_time_ms)
extract r Column.wall_time_ms = usage r.resource_usage (λ u. u.wall_time_ms)
extract r Column.timing_json = map_option Value.timing r.timing
extract r Column.artifacts_json = some (Value.artifacts r.artifacts)
extract r Column.error_json = map_option Value.error r.error
extract r Column.client_ip = map_option Value.text r.client_ip
extract r Column.correlation_id = map_option Value.text r.correlation_id
extract r Column.parent_execution_id = map_option Value.text r.parent_execution_id
extract r Column.relationship = map_option Value.text r.relationship
extract r Column.runtime = map_option Value.text r.runtime
extract r Column.session_id = map_option Value.text r.session_id
