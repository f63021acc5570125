-- ===== src/Server/Queue/Steps.antt =====
-- tako_vm/server/queue.py: the pool between start and stop, as a sequence of events: the calls of
-- the API and the steps of the workers, in any order that the event loop may choose.
use tako_vm.Prelude.{
  ℕ, String, Option, none, some, Bool, List, [], ◌∷◌, if◌then◌else◌, Dict, get, put, contains,
}
use tako_vm.Storage.Records.{Connection}
use tako_vm.Server.Queue.State.{Hashes, JobData, QueuedJob, Phase, idle, WorkerPool}
use tako_vm.Server.Queue.Calls.{submit}
use tako_vm.Server.Queue.Cancel.{cancel, cancel_saves, cancel_kills}
use tako_vm.Server.Queue.Worker.{Input, begin_job, worker_step, job_of}

pub data Event : Type 0 where
  submits : (net net' : ℕ → Connection) → String → JobData → Option String → ℕ → Event
  cancels : String → Event
  resumes_cancel : (ℕ → Connection) → String → Event
  resumes_kill : Bool → String → Event
  dequeues : String → Event
  works : String → Input → Event

abbrev pub set_phase : String → Phase × WorkerPool → WorkerPool
set_phase w (phase, p) = record p { workers = put p.workers w phase }

-- `self._queue.get()` by an idle worker, and the work up to the next await.
abbrev pub take_job : String → List String → WorkerPool → WorkerPool
take_job w [] p = p
take_job w (id ∷ rest) p = set_phase w (begin_job id (get p.jobs id) (record p { queue = rest }))

abbrev pub dequeue : String → Option Phase → WorkerPool → WorkerPool
dequeue w (some idle) p = if p.shutdown then p else take_job w p.queue p
dequeue w _ p = p

module _ (h : Hashes) where
  abbrev pub work_on : String → Option QueuedJob → Phase → Input → WorkerPool → WorkerPool
  work_on w none phase input p = p
  work_on w (some job) phase input p = set_phase w (worker_step h w job phase input p)

  abbrev pub work_of : String → Option String → Phase → Input → WorkerPool → WorkerPool
  work_of w none phase input p = p
  work_of w (some id) phase input p = work_on w (get p.jobs id) phase input p

  abbrev pub work : String → Option Phase → Input → WorkerPool → WorkerPool
  work w none input p = p
  work w (some phase) input p = work_of w (job_of phase) phase input p

  abbrev pub finish_cancel : (ℕ → Connection) → String → Option QueuedJob → WorkerPool → WorkerPool
  finish_cancel net id none p = p
  finish_cancel net id (some job) p = cancel_saves h net id job p

  unfoldable pub step : WorkerPool → Event → WorkerPool
  step p (submits net net' id d ip now) = (submit h net net' id d ip now p).1
  step p (cancels id) = (cancel id p).1
  step p (resumes_cancel net id) =
      if contains id p.cancelling then finish_cancel net id (get p.jobs id) p else p
  step p (resumes_kill sent id) = if contains id p.killing then cancel_kills sent id p else p
  step p (dequeues w) = dequeue w (get p.workers w) p
  step p (works w input) = work w (get p.workers w) input p

  unfoldable pub run : WorkerPool → List Event → WorkerPool
  run p [] = p
  run p (e ∷ es) = run (step p e) es

-- The pool that start leaves, over a table, with the named workers.
unfoldable pub idle_workers : List String → Dict Phase
idle_workers [] = []
idle_workers (w ∷ ws) = (w, idle) ∷ idle_workers ws
