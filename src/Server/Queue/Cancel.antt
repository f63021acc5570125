-- ===== src/Server/Queue/Cancel.antt =====
-- tako_vm/server/queue.py: cancel, cut at its awaits, and the drain of stop.
use tako_vm.Prelude.{
  ℕ, String, Option, none, some, Bool, true, false, not, ◌&&◌, List, [], ◌∷◌, if◌then◌else◌, Dict,
  get, contains, without,
}
use tako_vm.Models.Record.{ExecutionRecord}
use tako_vm.Storage.Records.{Connection, save_record, table_after}
use tako_vm.Server.Queue.State.{Hashes, is_done, QueuedJob, WorkerPool, build_cancelled_record}
use tako_vm.Server.Queue.Calls.{Raised, save_raises, update_job, resolve_job, cancel_future}

abbrev pub is_pending_job : Option QueuedJob → Bool
is_pending_job none = false
is_pending_job (some job) = not (is_done job.future)

unfoldable pub mark_cancelled : QueuedJob → QueuedJob
mark_cancelled job = record job { cancelled = true }

-- cancel up to its first await: a job in _active_jobs whose future is open is handled as pending,
-- else a job in _running_jobs is to be killed; the result False is at once.
pub data Cancel : Type 0 where
  as_pending as_running not_tracked : Cancel

unfoldable pub cancel_pending : String → WorkerPool → WorkerPool
unfolding mark_cancelled
cancel_pending id p = record p {
  jobs = update_job mark_cancelled id p.jobs;
  active_jobs = without id p.active_jobs;
  cancelling = id ∷ p.cancelling;
}

unfoldable pub cancel_running : String → WorkerPool → WorkerPool
unfolding mark_cancelled
cancel_running id p = record p {
  jobs = update_job mark_cancelled id p.jobs;
  killing = id ∷ p.killing;
}

unfoldable pub cancel : String → WorkerPool → Cancel × WorkerPool
cancel id p =
    if contains id p.active_jobs && is_pending_job (get p.jobs id)
    then (as_pending, cancel_pending id p)
    else if contains id p.running_jobs
    then (as_running, cancel_running id p)
    else (not_tracked, p)

unfoldable pub cancel_message : String
cancel_message = "Execution was cancelled by user"

unfoldable pub send_signal : Bool → QueuedJob → QueuedJob
send_signal sent job = record job { cancel_signal_sent = sent }

-- The waiters get the record, unless its save raised.
abbrev pub resolve_saved :
    Option Raised → ExecutionRecord → String → Dict QueuedJob → Dict QueuedJob
resolve_saved (some e) r id d = d
resolve_saved none r id d = update_job (resolve_job r) id d

module _ (h : Hashes) where
  -- cancel of a pending job, after its first part: the save, and the waiters' answer.
  unfoldable pub cancel_saves : (ℕ → Connection) → String → QueuedJob → WorkerPool → WorkerPool
  unfolding cancel_message build_cancelled_record
  cancel_saves net id job p =
      let r = build_cancelled_record h job cancel_message in
      let saved = save_record net p.storage r in
      record p {
        storage = table_after p.storage saved;
        cancelling = without id p.cancelling;
        jobs = resolve_saved (save_raises saved) r id p.jobs;
      }

-- cancel of a running job, after its first part: the kill, and its outcome for the worker.
unfoldable pub cancel_kills : Bool → String → WorkerPool → WorkerPool
unfolding send_signal
cancel_kills sent id p = record p {
  killing = without id p.killing;
  signalled = id ∷ p.signalled;
  jobs = if contains id p.running_jobs then update_job (send_signal sent) id p.jobs else p.jobs;
}

shutdown_message : String
shutdown_message = "Job cancelled: server shut down before execution started"

module _ (h : Hashes) where
  -- One round of stop's loop: a terminal record, best effort, and the future cancelled.
  unfoldable pub drain_job : (ℕ → Connection) → String → Option QueuedJob → WorkerPool → WorkerPool
  unfolding shutdown_message build_cancelled_record
  drain_job net id none p = p
  drain_job net id (some job) p =
      let saved = save_record net p.storage (build_cancelled_record h job shutdown_message) in
      record p { storage = table_after p.storage saved; jobs = update_job cancel_future id p.jobs }

  unfoldable pub drain : (String → ℕ → Connection) → List String → WorkerPool → WorkerPool
  unfolding drain_job
  drain nets [] p = p
  drain nets (id ∷ ids) p = drain nets ids (drain_job (nets id) id (get p.jobs id) p)

  -- stop up to the wait for the workers, who end at the flag.
  unfoldable pub stop : (String → ℕ → Connection) → WorkerPool → WorkerPool
  unfolding drain
  stop nets p = drain nets p.queue (record p { shutdown = true; queue = [] })

-- The end of stop: the workers are done or cancelled, and the tracking is cleared.
unfoldable pub stopped : WorkerPool → WorkerPool
stopped p = record p { workers = []; active_jobs = []; running_jobs = [] }
