-- ===== src/Server/Queue/Calls.antt =====
-- tako_vm/server/queue.py: the calls that the API makes: submit, wait_for_result and
-- get_job_status.
use tako_vm.Prelude.{
  ℕ, suc, String, Option, none, some, Bool, false, ◌&&◌, ◌||◌, List, [], ◌∷◌, ◌++◌, length, leb,
  ltb, if◌then◌else◌, str_eq, Dict, get, put, contains,
}
use tako_vm.Models.{Status, ErrorType, is_terminal}
use tako_vm.Models.Record.{ExecutionRecord}
use tako_vm.Storage.Columns.{Column, Value, Row}
use tako_vm.Storage.Records.{
  Connection, Saved, written, refused, save_record, get_record, table_after,
}
use tako_vm.Server.Queue.State.{
  Hashes, JobData, Future, result, raised, is_done, QueuedJob, WorkerPool, build_record, failure,
}

-- The exceptions that a call raises.
pub data Raised : Type 0 where
  queue_full integrity_error operational_error : Raised

pub data Result {ℓ} (A : Type ℓ) : Type ℓ where
  ok : A → Result A
  raises : Raised → Result A

-- The exception that leaves save_record, if any; a refused write is only logged.
abbrev pub save_raises : Saved → Option Raised
save_raises (written t) = none
save_raises refused = none
save_raises Saved.integrity_error = some Raised.integrity_error
save_raises Saved.operational_error = some Raised.operational_error

-- put_nowait raises QueueFull: asyncio.Queue has no bound if maxsize is 0.
unfoldable pub is_full : WorkerPool → Bool
is_full p = ltb 0 p.max_queue_size && leb p.max_queue_size (length p.queue)

-- Assignment to the fields of a shared job object.
unfoldable pub update_job : (QueuedJob → QueuedJob) → String → Dict QueuedJob → Dict QueuedJob
update_job f k [] = []
update_job f k ((j, job) ∷ d) = if str_eq j k then (j, f job) ∷ d else (j, job) ∷ update_job f k d

-- `set_result`, with the InvalidStateError of a future that is done caught.
abbrev pub resolve_future : ExecutionRecord → Future → Future
resolve_future r f = if is_done f then f else result r

abbrev pub resolve_job : ExecutionRecord → QueuedJob → QueuedJob
resolve_job r job = record job { future = resolve_future r job.future }

-- `future.cancel()`, which does nothing to a future that is done.
abbrev pub cancel_future : QueuedJob → QueuedJob
cancel_future job = record job {
  future = if is_done job.future then job.future else Future.cancelled;
}

unfoldable pub new_job : String → JobData → Option String → ℕ → QueuedJob
new_job id data_ ip now = record {
  job_id = id;
  job_data = data_;
  client_ip = ip;
  created_at = now;
  future = Future.pending;
  cancelled = false;
  cancel_signal_sent = false;
}

-- The queued record with its status, error and idempotency fields reassigned.
unfoldable pub reject_record : ExecutionRecord → ExecutionRecord
reject_record r = record r {
  status = Status.failed;
  idempotency_key = none;
  idempotency_fingerprint = none;
  error = some (failure ErrorType.service_unavailable "Job queue is full, try again later");
}

unfoldable pub enqueue : String → QueuedJob → WorkerPool → WorkerPool
enqueue id job p = record p {
  queue = p.queue ++ id ∷ [];
  active_jobs = p.active_jobs ++ id ∷ [];
  jobs = put p.jobs id job;
}

abbrev pub rejection : Saved → Raised
rejection s = elim (save_raises s) [ some e ↦ e | none ↦ queue_full ]

-- QueueFull: the record is saved again as failed, and the call raises.
abbrev pub reject : (ℕ → Connection) → ExecutionRecord → WorkerPool → Result String × WorkerPool
reject net r p =
    let saved = save_record net p.storage r in
    (raises (rejection saved), record p { storage = table_after p.storage saved })

-- The rest of submit, after the save of the queued record.
unfoldable pub admit :
    (ℕ → Connection)
    → String
    → QueuedJob
    → ExecutionRecord
    → Option Raised
    → WorkerPool
    → Result String × WorkerPool
unfolding reject_record enqueue is_full
admit net id job queued (some e) p = (raises e, p)
admit net id job queued none p =
    if is_full p then reject net (reject_record queued) p else (ok id, enqueue id job p)

module _ (h : Hashes) where
  -- `net` and `net'` are the connections that the two saves meet; `id` comes from uuid4, and
  -- nothing else names it before submit returns it, so the steps are one.
  unfoldable pub submit :
      (net net' : ℕ → Connection)
      → String
      → JobData
      → Option String
      → ℕ
      → WorkerPool
      → Result String × WorkerPool
  unfolding new_job admit build_record
  submit net net' id data_ ip now p =
      let job = new_job id data_ ip now in
      let queued = build_record h job Status.queued none none in
      let saved = save_record net p.storage queued in
      admit net' id job queued (save_raises saved)
        (record p { storage = table_after p.storage saved })

-- What wait_for_result finds before it waits: a job to await, a record, or an exception.
pub data Wait : Type 0 where
  awaits : String → Wait
  finished : Row → Wait
  absent : Wait

abbrev pub is_terminal_row : Option Value → Bool
is_terminal_row (some (Value.status s)) = is_terminal s
is_terminal_row _ = false

abbrev pub stored_result : Option Row → Wait
stored_result none = absent
stored_result (some r) = if is_terminal_row (r Column.status) then finished r else absent

unfoldable pub wait_for_result : String → WorkerPool → Wait
wait_for_result id p =
    if contains id p.active_jobs || contains id p.running_jobs
    then awaits id
    else stored_result (get_record p.storage id)

-- get_job_status: the API status, with the queue position of a pending job.
pub data JobStatus : Type 0 where
  running : JobStatus
  pending : ℕ → JobStatus
  done : Status → Option ℕ → JobStatus
  stored : Option Value → Option Value → JobStatus
  unknown : JobStatus

-- The jobs before `id` that no worker has, from position 1.
unfoldable pub estimate_queue_position : List String → List String → String → ℕ → ℕ
estimate_queue_position [] running_ id position = position
estimate_queue_position (j ∷ js) running_ id position =
    let rest =
      estimate_queue_position js running_ id
        (if contains j running_ then position else suc position) in
    if str_eq j id then position else rest

abbrev pub future_status : Future → ℕ → JobStatus
future_status Future.pending position = pending position
future_status (result r) position = done r.status r.duration_ms
future_status raised position = done Status.failed none
future_status Future.cancelled position = done Status.cancelled none

abbrev pub stored_status : Option Row → JobStatus
stored_status none = unknown
stored_status (some r) = stored (r Column.status) (r Column.duration_ms)

-- A tracked job has an object; the last clause is the AttributeError that no run meets.
abbrev pub active_status : Option QueuedJob → ℕ → JobStatus
active_status none position = unknown
active_status (some job) position = future_status job.future position

unfoldable pub get_job_status : String → WorkerPool → JobStatus
get_job_status id p =
    if contains id p.running_jobs
    then running
    else if contains id p.active_jobs
    then active_status (get p.jobs id) (estimate_queue_position p.active_jobs p.running_jobs id 1)
    else stored_status (get_record p.storage id)
