-- ===== src/Server/Queue/Calling.antt =====
-- tako_vm/server/queue.py: the calls of the API keep what holds of a job.
use tako_vm.Prelude.{
  ℕ, ◌+◌, String, Option, none, some, Bool, true, false, ◌&&◌, [], ◌∷◌, ◌≡◌, refl, sym, ap, ◌∙◌,
  arith, inl, inr, if◌then◌else◌, str_eq, eq_iff, Dict, get, get-put, contains, contains-append,
  contains-without, count, count-append, Bool-cases, is_some,
}
use tako_vm.Models.Record.{ExecutionRecord}
use tako_vm.Storage.Records.{Table, Connection, save_record}
use tako_vm.Server.Queue.State.{Hashes, QueuedJob, WorkerPool}
use tako_vm.Server.Queue.Calls.{Raised, admit, enqueue, update_job, is_full, save_raises}
use tako_vm.Server.Queue.Cancel.{
  cancel_pending, cancel_running, mark_cancelled, is_pending_job, cancel, cancel_saves,
  cancel_kills, resolve_saved, send_signal,
}
use tako_vm.Server.Queue.Worked.{Later, Later-refl, Later-resolve, get-update_job, is_done_job}
use tako_vm.Server.Queue.Steps.{finish_cancel}
use tako_vm.Server.Queue.Tracking.{Held, holders, tracked}
use tako_vm.Server.Queue.Taking.{and_right}

-- A call that moves no job: it may forget a job only if it flags it.
pub record Still (p q : WorkerPool) (k : String) : Type 0 where
  workers : q.workers ≡ p.workers
  queue : count k q.queue ≡ count k p.queue
  running : contains k q.running_jobs ≡ contains k p.running_jobs
  tracking : tracked k p ≡ true → tracked k q ≡ true
  here : is_some (get q.jobs k) ≡ is_some (get p.jobs k)
  done : is_done_job (get p.jobs k) ≡ true → is_done_job (get q.jobs k) ≡ true

pub Still-Held : (p q : WorkerPool) (k : String) → Still p q k → Held p k → Held q k
Still-Held p q k s v = record {
  queued = λ h. s.tracking (v.queued (rw (← s.queue) h));
  running = λ h. s.tracking (v.running (sym s.running ∙ h));
  once = rw (s.queue, s.workers) v.once;
  known = λ h. rw (s.queue, s.workers) (v.known (sym s.here ∙ h));
  known_running = λ h. s.here ∙ v.known_running (sym s.running ∙ h);
  slept = λ w h. s.done (v.slept w (sym (ap (λ d. get d w) s.workers) ∙ h));
}

pub Still-store : (p : WorkerPool) (t : Table) (k : String) → Still p (record p { storage = t }) k
Still-store p t k = record {
  workers = refl;
  queue = refl;
  running = refl;
  tracking = λ h. h;
  here = refl;
  done = λ h. h;
}

-- submit either leaves the tracking alone, or adds a fresh job to the queue and to _active_jobs.
module _ (k : String) (p : WorkerPool) (id : String) (job : QueuedJob) where
  enqueue-Still : str_eq id k ≡ false → Still p (enqueue id job p) k
  unfolding enqueue count contains
  enqueue-Still ne = record {
    workers = refl;
    queue = rw count-append (rw ne (omega arith));
    running = refl;
    tracking =
        λ h. ground (arith, contains-append k p.active_jobs (id ∷ []), get-put p.jobs id k job);
    here = rw get-put (rw ne refl);
    done = λ h. rw get-put (rw ne h);
  }

  enqueue-Held : get p.jobs id ≡ none → str_eq id k ≡ true → Held p k → Held (enqueue id job p) k
  unfolding enqueue count contains
  enqueue-Held fresh eq v =
      let missing : get p.jobs k ≡ none = rw (← (eq_iff id k).0 eq) fresh in
      let none_held : count k p.queue + holders k p.workers ≡ 0 = v.known (rw missing refl) in
      let active : tracked k (enqueue id job p) ≡ true =
        ground (arith, contains-append k p.active_jobs (id ∷ [])) in
      record {
        queued = λ h. active;
        running = λ h. active;
        once = rw count-append (rw eq (omega (arith, none_held)));
        known = λ h. absurd (ground (arith, get-put p.jobs id k job));
        known_running = λ h. rw get-put (rw eq refl);
        slept = λ w h. absurd (ground (arith, v.slept w h));
      }

  pub admit-Held :
      (net : ℕ → Connection) (queued : ExecutionRecord) (o : Option Raised)
      → get p.jobs id ≡ none
      → Held p k
      → Held (admit net id job queued o p).1 k
  unfolding admit
  admit-Held net queued (some e) fresh v = v
  admit-Held net queued none fresh v = elim (Bool-cases (is_full p)) [
    | inl full ↦ rw (full, admit) (Still-Held p _ k (Still-store p _ k) v)
    | inr room ↦
        rw (room, admit)
          (elim (Bool-cases (str_eq id k)) [
            | inl eq ↦ enqueue-Held fresh eq v
            | inr ne ↦ Still-Held p _ k (enqueue-Still ne) v
          ])
  ]

-- A change of the job objects that keeps flags and finished futures.
Still-jobs :
    (p : WorkerPool) (d : Dict QueuedJob) (k : String)
    → Later (get p.jobs k) (get d k)
    → Still p (record p { jobs = d }) k
Still-jobs p d k l = record {
  workers = refl;
  queue = refl;
  running = refl;
  tracking = λ h. ground (arith, l);
  here = l.here;
  done = l.done;
}

-- cancel flags its job, which takes the place of the entry that it drops.
module _ (id k : String) (p : WorkerPool) where
  pending-Still : is_pending_job (get p.jobs id) ≡ true → Still p (cancel_pending id p) k
  unfolding cancel_pending
  pending-Still open_ = record {
    workers = refl;
    queue = refl;
    running = refl;
    tracking = λ h. ground (
      arith,
      eq_iff id k,
      contains-without id k p.active_jobs,
      get-update_job mark_cancelled id k p.jobs,
    );
    here = ground (arith, get-update_job mark_cancelled id k p.jobs);
    done = λ h. ground (arith, get-update_job mark_cancelled id k p.jobs);
  }

  running-Still : Still p (cancel_running id p) k
  unfolding cancel_running
  running-Still = record {
    workers = refl;
    queue = refl;
    running = refl;
    tracking = λ h. ground (arith, get-update_job mark_cancelled id k p.jobs);
    here = ground (arith, get-update_job mark_cancelled id k p.jobs);
    done = λ h. ground (arith, get-update_job mark_cancelled id k p.jobs);
  }

  pub cancel-Held : Held p k → Held (cancel id p).1 k
  unfolding cancel
  cancel-Held v = elim (Bool-cases (contains id p.active_jobs && is_pending_job (get p.jobs id))) [
    | inl first ↦ rw (first, cancel) (Still-Held p _ k (pending-Still (and_right _ _ first)) v)
    | inr other ↦ elim (Bool-cases (contains id p.running_jobs)) [
      | inl runs ↦ rw (other, cancel) (rw runs (Still-Held p _ k running-Still v))
      | inr no_job ↦ rw (other, cancel) (rw no_job v)
    ]
  ]

Later-saved :
    (o : Option Raised) (r : ExecutionRecord) (id k : String) (d : Dict QueuedJob)
    → Later (get d k) (get (resolve_saved o r id d) k)
Later-saved none r id k d = Later-resolve r id k d
Later-saved (some e) r id k d = Later-refl _

Later-signal :
    (b sent : Bool) (id k : String) (d : Dict QueuedJob)
    → Later (get d k) (get (if b then update_job (send_signal sent) id d else d) k)
unfolding send_signal
Later-signal true sent id k d = ground (arith, get-update_job (send_signal sent) id k d)
Later-signal false sent id k d = Later-refl _

-- The second parts of cancel.
module _ (h : Hashes) (k : String) (p : WorkerPool) where
  pub saves-Still :
      (net : ℕ → Connection) (id : String) (job : QueuedJob)
      → Still p (cancel_saves h net id job p) k
  unfolding cancel_saves
  saves-Still net id job =
      let later = Later-saved (save_raises (save_record net p.storage _)) _ id k p.jobs in
      record {
        workers = refl;
        queue = refl;
        running = refl;
        tracking = λ x. ground (arith, later);
        here = later.here;
        done = later.done;
      }

  pub kills-Still : (sent : Bool) (id : String) → Still p (cancel_kills sent id p) k
  unfolding cancel_kills
  kills-Still sent id =
      let later = Later-signal (contains id p.running_jobs) sent id k p.jobs in
      record {
        workers = refl;
        queue = refl;
        running = refl;
        tracking = λ x. ground (arith, later);
        here = later.here;
        done = later.done;
      }

  pub finish-Held :
      (net : ℕ → Connection) (id : String) (o : Option QueuedJob)
      → Held p k
      → Held (finish_cancel h net id o p) k
  finish-Held net id none v = v
  finish-Held net id (some job) v = Still-Held p _ k (saves-Still net id job) v
