-- ===== src/Server/Submission.antt =====
-- tako_vm/server/app.py: _submit_async_job. The pool may change while the first query is awaited, so
-- the check of the key and the rest are two functions. The fingerprint is that of
-- compute_idempotency_fingerprint, a hash of the request's fields.
use tako_vm.Prelude.{
  ℕ, String, Option, none, some, Bool, true, false, not, ◌&&◌, if◌then◌else◌, str_eq,
}
use tako_vm.Models.{Status}
use tako_vm.Storage.Columns.{Column, Value, Row}
use tako_vm.Storage.Records.{Table, Connection, get_by_idempotency_key}
use tako_vm.Server.Queue.State.{Hashes, JobData, WorkerPool}
use tako_vm.Server.Queue.Calls.{
  Raised, integrity_error, queue_full, operational_error, Result, ok, raises, submit,
}
pub mod Repeat
pub mod Accepted
pub mod Endpoint
pub mod Served

-- ExecuteRequest: the fields that the submission reads.
pub record ExecuteRequest : Type 0 where
  pub code : String
  pub input_data : String
  pub job_type : Option String
  pub timeout : Option ℕ
  pub startup_timeout : Option ℕ
  pub requirements : Option String
  pub idempotency_key : Option String

-- The response with a job's id and status, the 409 of a key with another payload, or what submit
-- raises.
pub data Reply : Type 0 where
  job : Option Value → Option Value → Reply
  conflict : Reply
  failed : Raised → Reply

-- `request.idempotency_key` where it is not empty.
abbrev pub given_key : Option String → Option String
given_key none = none
given_key (some k) = if str_eq k "" then none else some k

-- `existing.idempotency_fingerprint and expected != existing.idempotency_fingerprint`
abbrev pub differs : String → Option Value → Bool
differs expected (some (Value.text f)) = not (str_eq f "") && not (str_eq expected f)
differs expected _ = false

abbrev pub reuse : String → Row → Reply
reuse expected existing =
    if differs expected (existing Column.idempotency_fingerprint)
    then conflict
    else job (existing Column.execution_id) (existing Column.status)

-- The reply that an existing record gives, if one has the key.
abbrev pub reuse_found : String → Option Row → Option Reply
reuse_found expected none = none
reuse_found expected (some existing) = some (reuse expected existing)

abbrev pub reply_for : Table → String → Option String → Option Reply
reply_for t expected none = none
reply_for t expected (some k) = reuse_found expected (get_by_idempotency_key t k)

module _ (fingerprint : ExecuteRequest → String) where
  -- The check before queueing.
  unfoldable pub check_key : ExecuteRequest → Table → Option Reply
  check_key r t = reply_for t (fingerprint r) (given_key r.idempotency_key)

  abbrev pub stored_fingerprint : ExecuteRequest → Option String → Option String
  stored_fingerprint r none = none
  stored_fingerprint r (some k) = some (fingerprint r)

  unfoldable pub job_data : ExecuteRequest → Option String → JobData
  job_data r correlation_id = record {
    code = r.code;
    input_data = r.input_data;
    job_type = r.job_type;
    timeout = r.timeout;
    startup_timeout = r.startup_timeout;
    requirements = r.requirements;
    correlation_id = correlation_id;
    idempotency_key = r.idempotency_key;
    idempotency_fingerprint = stored_fingerprint r (given_key r.idempotency_key);
    parent_execution_id = none;
    relationship = none;
  }

  abbrev or_raise : Option Reply → Raised → Reply
  or_raise none e = failed e
  or_raise (some reply) e = reply

  -- After submit: the IntegrityError of a key that another request took is answered by its record.
  abbrev pub answer : ExecuteRequest → Result String → Table → Reply
  answer r (ok id) t = job (some (Value.text id)) (some (Value.status Status.queued))
  answer r (raises integrity_error) t = or_raise (check_key r t) integrity_error
  answer r (raises e) t = failed e

  unfoldable pub submit_new :
      Hashes
      → (net net' : ℕ → Connection) → (id : String) → ExecuteRequest
      → (correlation_id ip : Option String) → ℕ
      → WorkerPool
      → Reply × WorkerPool
  unfolding check_key job_data
  submit_new h net net' id r correlation_id ip now p =
      let s = submit h net net' id (job_data r correlation_id) ip now p in
      (answer r s.0 s.1.storage, s.1)
