-- ===== src/Server/Queue/Worker.antt =====
-- tako_vm/server/queue.py: _worker_loop, _execute_job and _handle_watchdog_timeout, a step for each
-- stretch between two awaits. What an await returns is the step's input; an exception enters with
-- its sanitised text.
use Prim.Native.String
use tako_vm.Prelude.{
  ℕ, String, Option, none, some, Bool, true, false, ◌&&◌, ◌||◌, ◌∷◌, leb, if◌then◌else◌, without,
}
use tako_vm.Models.{ℤ, is_code, Status, Phase as RunPhase, ErrorType}
use tako_vm.Models.Record.{ExecutionRecord, ExecutionTiming}
use tako_vm.Storage.Records.{Connection, save_record, mark_record_running, table_after, up, down}
use tako_vm.Server.Queue.State.{
  Hashes, Future, QueuedJob, Phase, idle, skipping, skipped, marking, executing, saving,
  saving_cancelled, finishing, failing, reporting, recovering, sleeping, WorkerPool, DeadLetter,
  build_record, build_cancelled_record, build_job_summary, failure, truthy,
}
use tako_vm.Server.Queue.Calls.{save_raises, update_job, resolve_job, cancel_future}
use tako_vm.Server.Queue.Cancel.{cancel_message}

-- What ends the wait of a worker.
pub data Input : Type 0 where
  -- the storage answers, or raises an exception with this text
  storage : (ℕ → Connection) → String → Input
  -- mark_record_running at a time
  marks : Connection → ℕ → Input
  completes : ExecutionRecord → Input
  -- the watchdog: kill_container's answer, and the error's text
  times_out : String → Input
  interrupted : Input
  throws : String → Input
  -- add_to_dlq succeeds or not; asyncio.sleep ends
  letters : Bool → Input
  continues : Input

abbrev is_kill_code : Option ℤ → Bool
is_kill_code none = false
is_kill_code (some c) = is_code c 124 || is_code c 137 || is_code c 143

abbrev phase_at_exit : Option ExecutionTiming → Option RunPhase
phase_at_exit none = none
phase_at_exit (some t) = t.phase_at_exit

-- A completed record of a job that was cancelled while it ran.
unfoldable pub apply_cancel : QueuedJob → ExecutionRecord → ExecutionRecord
unfolding cancel_message
apply_cancel job r =
    if job.cancelled && (job.cancel_signal_sent || is_kill_code r.exit_code)
    then record r {
      status = Status.cancelled;
      error = some (record {
        type = ErrorType.cancelled;
        message = cancel_message;
        phase = phase_at_exit r.timing;
      });
    }
    else r

-- ExecutionError's bounds on its message; it raises ValidationError outside them.
unfoldable pub is_valid_message : String → Bool
is_valid_message m = leb 1 (String.count m) && leb (String.count m) 4096

abbrev is_cancelled_future : Future → Bool
is_cancelled_future Future.cancelled = true
is_cancelled_future _ = false

-- `job.cancelled or (job.future and job.future.cancelled())`
abbrev pub is_skipped : QueuedJob → Bool
is_skipped job = job.cancelled || is_cancelled_future job.future

-- The `finally` of an iteration.
unfoldable pub clean_up : String → WorkerPool → WorkerPool
clean_up id p = record p {
  active_jobs = without id p.active_jobs;
  running_jobs = without id p.running_jobs;
}

-- A job that leaves the queue: skipped, or moved to running.
unfoldable pub begin_job : String → Option QueuedJob → WorkerPool → Phase × WorkerPool
begin_job id none p = (idle, p)
begin_job id (some job) p =
    if is_skipped job
    then (skipping id, p)
    else (marking id, record p { running_jobs = id ∷ p.running_jobs })

abbrev pub mark_storage : Connection → String → String → ℕ → WorkerPool → WorkerPool
mark_storage up w id now p = record p {
  storage = (mark_record_running p.storage id (some w) now).0;
}
mark_storage down w id now p = p

-- A save in the loop: on to the next wait, or to the handler of the exception.
unfoldable pub save_then :
    (ℕ → Connection) → ExecutionRecord → Phase → Phase → WorkerPool → Phase × WorkerPool
save_then net r next handler p =
    let saved = save_record net p.storage r in
    (
      elim (save_raises saved) [ some e ↦ handler | none ↦ next ],
      record p { storage = table_after p.storage saved },
    )

-- The save of the last handler: the future gets the record, or is cancelled if that fails.
unfoldable pub recover :
    (ℕ → Connection) → ExecutionRecord → String → WorkerPool → Phase × WorkerPool
recover net r id p =
    let saved = save_record net p.storage r in
    (
      sleeping id,
      record p {
        storage = table_after p.storage saved;
        jobs = elim (save_raises saved) [
          | some e ↦ update_job cancel_future id p.jobs
          | none ↦ update_job (resolve_job r) id p.jobs
        ];
      },
    )

unfoldable pub give_up : String → WorkerPool → Phase × WorkerPool
give_up id p = (sleeping id, record p { jobs = update_job cancel_future id p.jobs })

unfoldable pub resolve : ExecutionRecord → String → WorkerPool → WorkerPool
resolve r id p = record p { jobs = update_job (resolve_job r) id p.jobs }

module _ (h : Hashes) where
  unfoldable pub cancelled_record : QueuedJob → ExecutionRecord
  unfolding cancel_message build_cancelled_record
  cancelled_record job = build_cancelled_record h job cancel_message

  unfoldable pub failed_record : QueuedJob → String → ExecutionRecord
  unfolding build_record
  failed_record job m =
      build_record h job Status.failed (some (failure ErrorType.internal_error m)) none

  unfoldable pub watchdog_record : QueuedJob → String → ExecutionRecord
  unfolding build_record
  watchdog_record job m =
      build_record h job Status.timeout (some (failure ErrorType.execution_timeout m)) none

  dead_letter : QueuedJob → String → DeadLetter
  unfolding build_job_summary
  dead_letter job m = record {
    job_id = job.job_id;
    job_data = build_job_summary h job.job_data;
    error_type = ErrorType.internal_error;
    error_message = m;
    retry_count = 0;
    client_ip = job.client_ip;
    correlation_id = truthy job.job_data.correlation_id;
  }

  -- One step of the loop, for a worker whose job has this object.
  unfoldable pub worker_step : String → QueuedJob → Phase → Input → WorkerPool → Phase × WorkerPool
  unfolding cancelled_record failed_record watchdog_record dead_letter save_then recover give_up
      resolve apply_cancel clean_up
  worker_step w job (skipping id) (storage net m) p =
      save_then net (cancelled_record job) (skipped id) (recovering id m) p
  worker_step w job (skipped id) continues p =
      (idle, clean_up id (resolve (cancelled_record job) id p))
  worker_step w job (marking id) (marks net now) p = (executing id, mark_storage net w id now p)
  worker_step w job (executing id) (completes r) p = (saving id (apply_cancel job r), p)
  worker_step w job (executing id) (times_out m) p = (
    saving id (apply_cancel job (watchdog_record job m)),
    record p { signalled = id ∷ p.signalled },
  )
  worker_step w job (executing id) interrupted p = (saving_cancelled id, p)
  worker_step w job (executing id) (throws m) p = (failing id m, p)
  worker_step w job (saving id r) (storage net m) p =
      save_then net r (finishing id r) (failing id m) p
  worker_step w job (saving_cancelled id) (storage net m) p =
      save_then net (cancelled_record job) (finishing id (cancelled_record job)) (recovering id m) p
  worker_step w job (failing id m) (storage net e) p =
      if is_valid_message m
      then save_then net (failed_record job m) (reporting id m (failed_record job m))
          (recovering id e) p
      else (recovering id e, p)
  worker_step w job (reporting id m r) (letters done) p = (
    idle,
    clean_up id (resolve r id (if done then record p { dlq = dead_letter job m ∷ p.dlq } else p)),
  )
  worker_step w job (finishing id r) continues p = (idle, clean_up id (resolve r id p))
  worker_step w job (recovering id m) (storage net e) p =
      if is_valid_message m then recover net (failed_record job m) id p else give_up id p
  worker_step w job (sleeping id) continues p = (idle, clean_up id p)
  worker_step w job phase input p = (phase, p)

-- The job of a worker's iteration.
abbrev pub job_of : Phase → Option String
job_of idle = none
job_of (skipping id) = some id
job_of (skipped id) = some id
job_of (marking id) = some id
job_of (executing id) = some id
job_of (saving id r) = some id
job_of (saving_cancelled id) = some id
job_of (finishing id r) = some id
job_of (failing id m) = some id
job_of (reporting id m r) = some id
job_of (recovering id m) = some id
job_of (sleeping id) = some id
