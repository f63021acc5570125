-- ===== src/Server/Queue/Worked.antt =====
-- tako_vm/server/queue.py: what one step of a worker can change, in one statement for all waits.
use tako_vm.Prelude.{
  ℕ, String, Option, none, some, Bool, true, false, [], ◌∷◌, ◌≡◌, refl, arith, ◌⊎◌, inl, inr,
  if◌then◌else◌, str_eq, eq_iff, Dict, get, without, map_option, Bool-cases, is_some,
}
use tako_vm.Models.Record.{ExecutionRecord}
use tako_vm.Storage.Records.{Connection, up, down}
use tako_vm.Server.Queue.State.{
  Hashes, is_done, QueuedJob, Phase, idle, marking, executing, failing, recovering, sleeping,
  WorkerPool,
}
use tako_vm.Server.Queue.Calls.{update_job, resolve_job, cancel_future}
use tako_vm.Server.Queue.Worker.{
  Input, worker_step, job_of, mark_storage, save_then, clean_up, recover, give_up, resolve,
  is_valid_message,
}

pub get-update_job :
    (f : QueuedJob → QueuedJob) (k j : String) (d : Dict QueuedJob)
    → get (update_job f k d) j ≡ (if str_eq k j then map_option f (get d j) else get d j)
unfolding get update_job
get-update_job f k j [] = ground arith
get-update_job f k j ((i, job) ∷ d) =
    ground (arith, eq_iff i k, eq_iff i j, eq_iff k j, get-update_job f k j d)

abbrev pub is_done_job : Option QueuedJob → Bool
is_done_job none = false
is_done_job (some job) = is_done job.future

abbrev pub is_cancelled_job : Option QueuedJob → Bool
is_cancelled_job none = false
is_cancelled_job (some job) = job.cancelled

-- A job keeps its flag, and a future that is done stays so.
pub record Later (before after : Option QueuedJob) : Type 0 where
  pub flag : is_cancelled_job after ≡ is_cancelled_job before
  pub here : is_some after ≡ is_some before
  pub done : is_done_job before ≡ true → is_done_job after ≡ true

abbrev pub id_of : Phase → String
id_of phase = elim (job_of phase) [ none ↦ "" | some id ↦ id ]

-- The iteration goes on and the tracking stays, or it ends and forgets the job.
pub record Worked (before : Phase) (p : WorkerPool) (after : Phase) (q : WorkerPool) : Type 0 where
  pub workers : q.workers ≡ p.workers
  pub queue : q.queue ≡ p.queue
  pub bound : q.max_queue_size ≡ p.max_queue_size
  pub shutdown : q.shutdown ≡ p.shutdown
  pub jobs : (k : String) → Later (get p.jobs k) (get q.jobs k)
  pub tracking :
      ((job_of after ≡ job_of before)
        × (q.active_jobs ≡ p.active_jobs)
        × (q.running_jobs ≡ p.running_jobs))
      ⊎ ((job_of before ≡ some (id_of before))
          × (after ≡ idle)
          × (q.active_jobs ≡ without (id_of before) p.active_jobs)
          × (q.running_jobs ≡ without (id_of before) p.running_jobs))

pub Later-refl : (o : Option QueuedJob) → Later o o
Later-refl o = record { flag = refl; here = refl; done = λ h. h }

pub Later-resolve :
    (r : ExecutionRecord) (id k : String) (d : Dict QueuedJob)
    → Later (get d k) (get (update_job (resolve_job r) id d) k)
Later-resolve r id k d = ground (arith, get-update_job (resolve_job r) id k d)

pub Later-cancel :
    (id k : String) (d : Dict QueuedJob) → Later (get d k) (get (update_job cancel_future id d) k)
Later-cancel id k d = ground (arith, get-update_job cancel_future id k d)

module _ (before : Phase) (p : WorkerPool) where
  pub same-Worked : (after : Phase) → job_of after ≡ job_of before → Worked before p after p
  same-Worked after e = record {
    workers = refl;
    queue = refl;
    bound = refl;
    shutdown = refl;
    jobs = λ k. Later-refl _;
    tracking = inl (e, refl, refl);
  }

  pub save_then-Worked :
      (net : ℕ → Connection) (r : ExecutionRecord) (next handler : Phase)
      → job_of next ≡ job_of before
      → job_of handler ≡ job_of before
      → let s = save_then net r next handler p in Worked before p s.0 s.1
  unfolding save_then
  save_then-Worked net r next handler e f = record {
    workers = refl;
    queue = refl;
    bound = refl;
    shutdown = refl;
    jobs = λ k. Later-refl _;
    tracking = inl (ground arith, refl, refl);
  }

pub mark-Worked :
    (c : Connection) (w id : String) (now : ℕ) (p : WorkerPool)
    → Worked (marking id) p (executing id) (mark_storage c w id now p)
mark-Worked up w id now p = record {
  workers = refl;
  queue = refl;
  bound = refl;
  shutdown = refl;
  jobs = λ k. Later-refl _;
  tracking = inl (refl, refl, refl);
}
mark-Worked down w id now p = same-Worked _ p _ refl

module _ (p : WorkerPool) (id : String) where
  -- The end of an iteration, the future resolved.
  pub end-Worked :
      (before : Phase) (r : ExecutionRecord)
      → id_of before ≡ id
      → job_of before ≡ some id
      → Worked before p idle (clean_up id (resolve r id p))
  unfolding clean_up resolve
  end-Worked before r e f = record {
    workers = refl;
    queue = refl;
    bound = refl;
    shutdown = refl;
    jobs = λ k. Later-resolve r id k p.jobs;
    tracking = inr (rw e f, refl, rw e refl, rw e refl);
  }

  recover-Worked :
      (net : ℕ → Connection) (r : ExecutionRecord) (m : String)
      → let s = recover net r id p in Worked (recovering id m) p s.0 s.1
  unfolding recover
  recover-Worked net r m = record {
    workers = refl;
    queue = refl;
    bound = refl;
    shutdown = refl;
    jobs = λ k. ground (arith, Later-resolve r id k p.jobs, Later-cancel id k p.jobs);
    tracking = inl (refl, refl, refl);
  }

  give_up-Worked : (m : String) → let s = give_up id p in Worked (recovering id m) p s.0 s.1
  unfolding give_up
  give_up-Worked m = record {
    workers = refl;
    queue = refl;
    bound = refl;
    shutdown = refl;
    jobs = λ k. Later-cancel id k p.jobs;
    tracking = inl (refl, refl, refl);
  }

  pub end_quiet-Worked : Worked (sleeping id) p idle (clean_up id p)
  unfolding clean_up
  end_quiet-Worked = record {
    workers = refl;
    queue = refl;
    bound = refl;
    shutdown = refl;
    jobs = λ k. Later-refl _;
    tracking = inr (refl, refl, refl, refl);
  }

module _ (h : Hashes) (w : String) (job : QueuedJob) (p : WorkerPool) where
  pub failing-Worked :
      (id m e : String) (net : ℕ → Connection)
      → let s = worker_step h w job (failing id m) (Input.storage net e) p in
        Worked (failing id m) p s.0 s.1
  unfolding worker_step
  failing-Worked id m e net = elim (Bool-cases (is_valid_message m)) [
    | inl ok ↦ rw (ok, worker_step) (save_then-Worked _ p net _ _ _ refl refl)
    | inr bad ↦ rw (bad, worker_step) (same-Worked _ p _ refl)
  ]

  pub recovering-Worked :
      (id m e : String) (net : ℕ → Connection)
      → let s = worker_step h w job (recovering id m) (Input.storage net e) p in
        Worked (recovering id m) p s.0 s.1
  unfolding worker_step
  recovering-Worked id m e net = elim (Bool-cases (is_valid_message m)) [
    | inl ok ↦ rw (ok, worker_step) (recover-Worked p id net _ m)
    | inr bad ↦ rw (bad, worker_step) (give_up-Worked p id m)
  ]
