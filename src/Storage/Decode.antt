-- ===== src/Storage/Decode.antt =====
-- tako_vm/storage.py: the reading of rows, ExecutionStorage._row_to_record and the queries that use
-- it. A payload of a Jsonb column that is not of the column's model does not decode.
use tako_vm.Prelude.{
  ℕ, String, Option, none, some, Bool, false, ◌||◌, List, [], is_some, get, if◌then◌else◌, ◌>>=◌,
}
use tako_vm.Models.{ℤ, Status, ErrorType, ExecutionError}
use tako_vm.Models.Record.{ExecutionRecord, ExecutionTiming, ResourceUsage, Artifact}
use tako_vm.Storage.Columns.{Column, Value, Row}
use tako_vm.Storage.Records.{Table, get_by_idempotency_key}

-- A cell of a required field; `none` is the model's ValidationError.
abbrev pub text_of : Option Value → Option String
text_of (some (Value.text t)) = some t
text_of _ = none

abbrev pub status_of : Option Value → Option Status
status_of (some (Value.status s)) = some s
status_of _ = none

abbrev pub number_of : Option Value → Option ℕ
number_of (some (Value.number n)) = some n
number_of _ = none

abbrev pub code_of : Option Value → Option ℤ
code_of (some (Value.code n)) = some n
code_of _ = none

-- A cell of an optional field.
abbrev pub optional {ℓ} :
    {A : Type ℓ} → (Option Value → Option A) → Option Value → Option (Option A)
optional f none = some none
optional f (some v) = elim (f (some v)) [ none ↦ none | some a ↦ some (some a) ]

-- `row.get(column) or ""`
abbrev pub text_or_empty : Option Value → Option String
text_or_empty none = some ""
text_or_empty (some v) = text_of (some v)

-- `bool(row.get(column, False))` of a boolean column.
abbrev pub flag_of : Option Value → Bool
flag_of (some (Value.flag b)) = b
flag_of _ = false

-- A payload that does not decode gives an empty list, a substitute error and no timing.
abbrev pub artifacts_of : Option Value → List Artifact
artifacts_of (some (Value.artifacts vs)) = vs
artifacts_of _ = []

abbrev pub error_of : Option Value → Option ExecutionError
error_of none = none
error_of (some (Value.error e)) = some e
error_of (some _) = some (record {
  type = ErrorType.internal_error;
  message = "stored error payload could not be decoded";
  phase = none;
})

abbrev pub timing_of : Option Value → Option ExecutionTiming
timing_of (some (Value.timing t)) = some t
timing_of _ = none

-- The usage, if any of its three columns is there.
unfoldable pub usage_cells :
    Option Value → Option Value → Option Value → Option (Option ResourceUsage)
usage_cells a b c =
    if is_some a || is_some b || is_some c
    then (do
      max_rss_mb ← optional number_of a
      cpu_time_ms ← optional number_of b
      wall_time_ms ← optional number_of c
      some (
          some (record {
            max_rss_mb = max_rss_mb;
            cpu_time_ms = cpu_time_ms;
            wall_time_ms = wall_time_ms;
          })))
    else some none

unfoldable pub usage_of : Row → Option (Option ResourceUsage)
unfolding usage_cells
usage_of row =
    usage_cells (row Column.max_rss_mb) (row Column.cpu_time_ms) (row Column.wall_time_ms)

unfoldable pub row_to_record : Row → Option ExecutionRecord
unfolding usage_of
row_to_record row = do
  execution_id ← text_of (row Column.execution_id)
  status ← status_of (row Column.status)
  job_type ← text_of (row Column.job_type)
  job_ref ← text_of (row Column.job_ref)
  created_at ← number_of (row Column.created_at)
  queued_at ← number_of (row Column.queued_at)
  dequeued_at ← optional number_of (row Column.dequeued_at)
  started_at ← optional number_of (row Column.started_at)
  ended_at ← optional number_of (row Column.ended_at)
  duration_ms ← optional number_of (row Column.duration_ms)
  attempt ← number_of (row Column.attempt)
  max_attempts ← number_of (row Column.max_attempts)
  worker_id ← optional text_of (row Column.worker_id)
  runtime ← optional text_of (row Column.runtime)
  idempotency_key ← optional text_of (row Column.idempotency_key)
  idempotency_fingerprint ← optional text_of (row Column.idempotency_fingerprint)
  code_hash ← text_of (row Column.code_hash)
  input_hash ← text_of (row Column.input_hash)
  params_hash ← text_or_empty (row Column.params_hash)
  input_artifacts_hash ← text_or_empty (row Column.input_artifacts_hash)
  exit_code ← optional code_of (row Column.exit_code)
  stdout ← text_or_empty (row Column.stdout)
  stderr ← text_or_empty (row Column.stderr)
  result_json ← optional text_of (row Column.result_json)
  client_ip ← optional text_of (row Column.client_ip)
  correlation_id ← optional text_of (row Column.correlation_id)
  parent_execution_id ← optional text_of (row Column.parent_execution_id)
  relationship ← optional text_of (row Column.relationship)
  session_id ← optional text_of (row Column.session_id)
  resource_usage ← usage_of row
  some (record {
    execution_id = execution_id;
    status = status;
    job_type = job_type;
    job_ref = job_ref;
    created_at = created_at;
    queued_at = queued_at;
    dequeued_at = dequeued_at;
    started_at = started_at;
    ended_at = ended_at;
    duration_ms = duration_ms;
    attempt = attempt;
    max_attempts = max_attempts;
    worker_id = worker_id;
    runtime = runtime;
    idempotency_key = idempotency_key;
    idempotency_fingerprint = idempotency_fingerprint;
    code_hash = code_hash;
    input_hash = input_hash;
    params_hash = params_hash;
    input_artifacts_hash = input_artifacts_hash;
    input_artifacts = artifacts_of (row Column.input_artifacts_json);
    exit_code = exit_code;
    stdout = stdout;
    stderr = stderr;
    stdout_truncated = flag_of (row Column.stdout_truncated);
    stderr_truncated = flag_of (row Column.stderr_truncated);
    result_json = result_json;
    resource_usage = resource_usage;
    timing = timing_of (row Column.timing_json);
    artifacts = artifacts_of (row Column.artifacts_json);
    error = error_of (row Column.error_json);
    client_ip = client_ip;
    correlation_id = correlation_id;
    parent_execution_id = parent_execution_id;
    relationship = relationship;
    session_id = session_id;
  })

-- What get_record gives: no row, a record, or the ValidationError of a row that is none.
pub data Read : Type 0 where
  missing invalid : Read
  found : ExecutionRecord → Read

abbrev pub decoded : Option ExecutionRecord → Read
decoded none = invalid
decoded (some r) = found r

abbrev pub read_row : Option Row → Read
unfolding row_to_record
read_row none = missing
read_row (some row) = decoded (row_to_record row)

unfoldable pub read_record : Table → String → Read
unfolding row_to_record
read_record t id = read_row (get t id)

unfoldable pub read_by_key : Table → String → Read
unfolding row_to_record get_by_idempotency_key
read_by_key t k = read_row (get_by_idempotency_key t k)
