-- ===== src/Server/Submission/Endpoint.antt =====
-- tako_vm/server/app.py: execute_code_async, from the request to the status of its response. The key's
-- lock is held from the check to the end of the submission.
use tako_vm.Prelude.{ℕ, String, Option, none, some, map_option, List, [], ◌∷◌, if◌then◌else◌}
use tako_vm.Storage.Columns.{Value}
use tako_vm.Storage.Records.{Connection}
use tako_vm.Texts.{codes}
use tako_vm.JobTypes.Registry.{JobTypeRegistry}
use tako_vm.Execution.Timeouts.{Limits, validate_execution_timeout}
use tako_vm.Server.Queue.State.{Hashes, WorkerPool}
use tako_vm.Server.Queue.Calls.{
  Raised, integrity_error, queue_full, operational_error, Result, ok, raises, submit,
}
use tako_vm.Server.Submission.{
  ExecuteRequest, Reply, job, conflict, failed, check_key, job_data, submit_new,
}

-- A response: the body of AsyncExecuteResponse, or an error's status.
pub data HttpReply : Type 0 where
  accepted : Option Value → Option Value → HttpReply
  error : ℕ → HttpReply

-- A RuntimeError is the full queue.
abbrev pub status_of_raised : Raised → ℕ
status_of_raised queue_full = 503
status_of_raised integrity_error = 500
status_of_raised operational_error = 500

abbrev pub http_of : Reply → HttpReply
http_of (job id status) = accepted id status
http_of conflict = error 409
http_of (failed e) = error (status_of_raised e)

-- The ids of the jobs that a call of submit puts in the queue.
abbrev pub queued_ids : Result String → List String
queued_ids (ok id) = id ∷ []
queued_ids (raises e) = []

-- What a request meets: the pool, the identifier that uuid4 gives, the connections of the saves.
pub record Arrival : Type 0 where
  pub pool : WorkerPool
  pub id : String
  pub net : ℕ → Connection
  pub retry_net : ℕ → Connection
  pub correlation_id : Option String
  pub client_ip : Option String
  pub now : ℕ

-- The response, the jobs queued for it, and the pool after it.
pub record Served : Type 0 where
  pub reply : HttpReply
  pub queued : List String
  pub pool : WorkerPool

module _ (fingerprint : ExecuteRequest → String) (h : Hashes) (config : Limits)
    (registry : JobTypeRegistry) (r : ExecuteRequest) where
  abbrev pub submitted : Arrival → Result String × WorkerPool
  submitted a =
      submit h a.net a.retry_net a.id (job_data fingerprint r a.correlation_id) a.client_ip a.now
        a.pool

  abbrev pub submission : Arrival → Served
  submission a =
      let s =
        submit_new fingerprint h a.net a.retry_net a.id r a.correlation_id a.client_ip a.now
          a.pool in
      record { reply = http_of s.0; queued = queued_ids (submitted a).0; pool = s.1 }

  abbrev pub checked : Option Reply → Arrival → Served
  checked none a = submission a
  checked (some reply) a = record { reply = http_of reply; queued = []; pool = a.pool }

  unfoldable pub execute_code_async : Arrival → Served
  unfolding check_key validate_execution_timeout codes submit_new job_data submit
  execute_code_async a =
      if validate_execution_timeout config registry r.timeout (map_option codes r.job_type)
      then checked (check_key fingerprint r a.pool.storage) a
      else record { reply = error 422; queued = []; pool = a.pool }
