-- ===== src/Server/Queue/Iteration.antt =====
-- tako_vm/server/queue.py: an iteration of _worker_loop, over every input that it may meet.
use tako_vm.Prelude.{
  String, some, true, false, ◌≡◌, refl, arith, ◌⊎◌, inl, inr, eq_refl, Dict, get, is_some,
}
use tako_vm.Models.Record.{ExecutionRecord}
use tako_vm.Server.Queue.State.{
  Hashes, QueuedJob, Phase, idle, skipping, skipped, marking, executing, saving, saving_cancelled,
  finishing, failing, reporting, recovering, sleeping, WorkerPool,
}
use tako_vm.Server.Queue.Calls.{update_job, resolve_job, cancel_future}
use tako_vm.Server.Queue.Worker.{Input, worker_step, job_of, cancelled_record, failed_record}
use tako_vm.Server.Queue.Worked.{
  Worked, Later-refl, Later-resolve, same-Worked, save_then-Worked, end-Worked, end_quiet-Worked,
  mark-Worked, failing-Worked, recovering-Worked, get-update_job, is_done_job,
}

resolve_job-done :
    (r : ExecutionRecord) (id : String) (d : Dict QueuedJob)
    → is_some (get d id) ≡ true
    → is_done_job (get (update_job (resolve_job r) id d) id) ≡ true
resolve_job-done r id d here = ground (arith, get-update_job (resolve_job r) id id d, eq_refl id)

cancel_future-done :
    (id : String) (d : Dict QueuedJob)
    → is_some (get d id) ≡ true
    → is_done_job (get (update_job cancel_future id d) id) ≡ true
cancel_future-done id d here = ground (arith, get-update_job cancel_future id id d, eq_refl id)

module _ (h : Hashes) (w : String) (job : QueuedJob) where
  -- Every step, on every input.
  pub worker_step-Worked :
      (p : WorkerPool) (phase : Phase) (input : Input)
      → let s = worker_step h w job phase input p in Worked phase p s.0 s.1
  unfolding worker_step
  worker_step-Worked p (skipping id) (Input.storage net m) =
      save_then-Worked _ p net _ _ _ refl refl
  worker_step-Worked p (skipped id) Input.continues = end-Worked p id _ _ refl refl
  worker_step-Worked p (marking id) (Input.marks net now) = mark-Worked net w id now p
  worker_step-Worked p (executing id) (Input.completes r) = same-Worked _ p _ refl
  worker_step-Worked p (executing id) (Input.times_out m) = record {
    workers = refl;
    queue = refl;
    bound = refl;
    shutdown = refl;
    jobs = λ k. Later-refl _;
    tracking = inl (refl, refl, refl);
  }
  worker_step-Worked p (executing id) Input.interrupted = same-Worked _ p _ refl
  worker_step-Worked p (executing id) (Input.throws m) = same-Worked _ p _ refl
  worker_step-Worked p (saving id r) (Input.storage net m) =
      save_then-Worked _ p net _ _ _ refl refl
  worker_step-Worked p (saving_cancelled id) (Input.storage net m) =
      save_then-Worked _ p net _ _ _ refl refl
  worker_step-Worked p (failing id m) (Input.storage net e) = failing-Worked h w job p id m e net
  worker_step-Worked p (reporting id m r) (Input.letters true) = record {
    workers = refl;
    queue = refl;
    bound = refl;
    shutdown = refl;
    jobs = λ k. Later-resolve r id k p.jobs;
    tracking = inr (refl, refl, refl, refl);
  }
  worker_step-Worked p (reporting id m r) (Input.letters false) = end-Worked p id _ _ refl refl
  worker_step-Worked p (finishing id r) Input.continues = end-Worked p id _ _ refl refl
  worker_step-Worked p (recovering id m) (Input.storage net e) =
      recovering-Worked h w job p id m e net
  worker_step-Worked p (sleeping id) Input.continues = end_quiet-Worked p id
  worker_step-Worked p phase input = same-Worked _ p _ refl

  -- A step that ends the iteration, or comes to the last sleep, leaves the future done.
  pub worker_step-done :
      (p : WorkerPool) (phase : Phase) (input : Input) (id : String)
      → job_of phase ≡ some id
      → is_some (get p.jobs id) ≡ true
      → (phase ≡ sleeping id → is_done_job (get p.jobs id) ≡ true)
      → let s = worker_step h w job phase input p in
        (s.0 ≡ idle) ⊎ (s.0 ≡ sleeping id) → is_done_job (get s.1.jobs id) ≡ true
  unfolding worker_step
  worker_step-done p (skipping j) (Input.storage net m) id e here sl ended = ground arith
  worker_step-done p (skipped j) Input.continues id e here sl ended =
      ground (arith, resolve_job-done (cancelled_record h job) id p.jobs)
  worker_step-done p (marking j) (Input.marks net now) id e here sl ended = ground arith
  worker_step-done p (executing j) (Input.completes r) id e here sl ended = ground arith
  worker_step-done p (executing j) (Input.times_out m) id e here sl ended = ground arith
  worker_step-done p (executing j) Input.interrupted id e here sl ended = ground arith
  worker_step-done p (executing j) (Input.throws m) id e here sl ended = ground arith
  worker_step-done p (saving j r) (Input.storage net m) id e here sl ended = ground arith
  worker_step-done p (saving_cancelled j) (Input.storage net m) id e here sl ended = ground arith
  worker_step-done p (failing j m) (Input.storage net x) id e here sl ended = ground arith
  worker_step-done p (reporting j m r) (Input.letters done) id e here sl ended =
      ground (arith, resolve_job-done r id p.jobs)
  worker_step-done p (finishing j r) Input.continues id e here sl ended =
      ground (arith, resolve_job-done r id p.jobs)
  worker_step-done p (recovering j m) (Input.storage net x) id e here sl ended =
      ground
        (arith, resolve_job-done (failed_record h job m) id p.jobs, cancel_future-done id p.jobs)
  worker_step-done p (sleeping j) Input.continues id e here sl ended = ground arith
  worker_step-done p idle input id e here sl ended = ground arith
  worker_step-done p phase input id e here sl ended = ground arith
