-- ===== src/Server/Queue/Guarantees.antt =====
-- tako_vm/server/queue.py: what clients of the pool can rely on, in every order of events.
use tako_vm.Prelude.{
  ℕ, ◌<◌, String, some, Bool, true, false, ◌≡◌, refl, sym, ap, arith, inl, inr, eq_refl, get,
  get-put, contains, contains-without,
}
use mathlib.Core.Option.{some-injective}
use tako_vm.Server.Queue.State.{
  Hashes, is_done, QueuedJob, Phase, idle, skipping, skipped, marking, executing, saving,
  saving_cancelled, finishing, failing, reporting, recovering, sleeping, WorkerPool,
}
use tako_vm.Server.Queue.Cancel.{as_pending, cancel, cancel_pending}
use tako_vm.Server.Queue.Worker.{Input, worker_step, job_of}
use tako_vm.Server.Queue.Worked.{Worked, is_done_job, id_of}
use tako_vm.Server.Queue.Iteration.{worker_step-Worked, worker_step-done}
use tako_vm.Server.Queue.Steps.{works, step, set_phase, work, work_of, work_on}
use tako_vm.Server.Queue.Reach.{Reachable, Reachable-Held}

-- In a reachable pool, the first cancel of a job that is in _running_jobs, whose future is open
-- and which is not flagged, is handled as that of a pending job: no kill is queued or sent for it,
-- and the job stays in _running_jobs.
pub cancel_running_lem :
    (h : Hashes) (p : WorkerPool) (id : String) (job : QueuedJob)
    → Reachable h p
    → contains id p.running_jobs ≡ true
    → get p.jobs id ≡ some job
    → job.cancelled ≡ false
    → is_done job.future ≡ false
    → ((cancel id p).0 ≡ as_pending)
      × ((cancel id p).1.killing ≡ p.killing)
      × ((cancel id p).1.signalled ≡ p.signalled)
      × (contains id (cancel id p).1.running_jobs ≡ true)
unfolding cancel cancel_pending
cancel_running_lem h p id job reach runs here flag open_ =
    let active : contains id p.active_jobs ≡ true =
      ground (arith, (Reachable-Held id reach).running runs) in
    ground arith

-- The number of waits that an iteration has ahead at most.
abbrev pub waits_left : Phase → ℕ
waits_left idle = 0
waits_left (sleeping id) = 1
waits_left (recovering id m) = 2
waits_left (skipped id) = 1
waits_left (skipping id) = 3
waits_left (finishing id r) = 1
waits_left (reporting id m r) = 1
waits_left (saving_cancelled id) = 3
waits_left (failing id m) = 3
waits_left (saving id r) = 4
waits_left (executing id) = 5
waits_left (marking id) = 6

-- Whether an input ends the wait of a phase.
abbrev pub ends_wait : Phase → Input → Bool
ends_wait (skipping id) (Input.storage net m) = true
ends_wait (skipped id) Input.continues = true
ends_wait (marking id) (Input.marks net now) = true
ends_wait (executing id) (Input.completes r) = true
ends_wait (executing id) (Input.times_out m) = true
ends_wait (executing id) Input.interrupted = true
ends_wait (executing id) (Input.throws m) = true
ends_wait (saving id r) (Input.storage net m) = true
ends_wait (saving_cancelled id) (Input.storage net m) = true
ends_wait (failing id m) (Input.storage net x) = true
ends_wait (reporting id m r) (Input.letters done) = true
ends_wait (finishing id r) Input.continues = true
ends_wait (recovering id m) (Input.storage net x) = true
ends_wait (sleeping id) Input.continues = true
ends_wait _ _ = false

module _ (h : Hashes) (w : String) (job : QueuedJob) (p : WorkerPool) where
  -- Each input that ends the wait of a phase of a worker's iteration leads to a phase with fewer
  -- waits left; an iteration has at most six, so it cannot go on forever once its awaits return.
  pub waits_left-worker_step :
      (phase : Phase) (input : Input)
      → ends_wait phase input ≡ true
      → waits_left (worker_step h w job phase input p).0 < waits_left phase
  unfolding worker_step
  waits_left-worker_step (skipping id) (Input.storage net m) e = ground arith
  waits_left-worker_step (skipped id) Input.continues e = ground arith
  waits_left-worker_step (marking id) (Input.marks net now) e = ground arith
  waits_left-worker_step (executing id) (Input.completes r) e = ground arith
  waits_left-worker_step (executing id) (Input.times_out m) e = ground arith
  waits_left-worker_step (executing id) Input.interrupted e = ground arith
  waits_left-worker_step (executing id) (Input.throws m) e = ground arith
  waits_left-worker_step (saving id r) (Input.storage net m) e = ground arith
  waits_left-worker_step (saving_cancelled id) (Input.storage net m) e = ground arith
  waits_left-worker_step (failing id m) (Input.storage net x) e = ground arith
  waits_left-worker_step (reporting id m r) (Input.letters done) e = ground arith
  waits_left-worker_step (finishing id r) Input.continues e = ground arith
  waits_left-worker_step (recovering id m) (Input.storage net x) e = ground arith
  waits_left-worker_step (sleeping id) Input.continues e = ground arith
  waits_left-worker_step _ _ e = absurd (ground arith)

module _ (h : Hashes) (p : WorkerPool) (w id : String) (phase : Phase)
    (mine : job_of phase ≡ some id) where
  forgets :
      (after : Phase) (q : WorkerPool)
      → Worked phase p after q
      → after ≡ idle
      → (contains id q.active_jobs ≡ false) × (contains id q.running_jobs ≡ false)
  forgets after q m ended = elim m.tracking [
    | inl (same, active, running) ↦ absurd (ground (arith, sym mine, same, ap job_of ended))
    | inr (before, idle_now, active, running) ↦
        let own : id_of phase ≡ id = rw (mine, id_of) refl in
        (
          rw (active, contains-without, own, eq_refl id) refl,
          rw (running, contains-without, own, eq_refl id) refl,
        )
  ]

-- In a pool that is reachable from start by any events, when a step of a worker ends the iteration
-- of a job that the pool knows, the job's future is done and neither _active_jobs nor
-- _running_jobs has the job.
pub iteration_resolves :
    (h : Hashes) (p : WorkerPool) (w id : String) (phase : Phase) (job : QueuedJob) (input : Input)
    → Reachable h p
    → get p.workers w ≡ some phase
    → job_of phase ≡ some id
    → get p.jobs id ≡ some job
    → get (step h p (works w input)).workers w ≡ some idle
    → (is_done_job (get (step h p (works w input)).jobs id) ≡ true)
      × (contains id (step h p (works w input)).active_jobs ≡ false)
      × (contains id (step h p (works w input)).running_jobs ≡ false)
unfolding step
iteration_resolves h p w id phase job input reach at mine here ended =
    let s = worker_step h w job phase input p in
    let same : step h p (works w input) ≡ set_phase w s =
      rw (step, work, at, work_of, mine, here, work_on) refl in
    let idle_now : s.0 ≡ idle =
      some-injective s.0 idle (rw (get-put, eq_refl w) at (rw same at ended)) in
    let free =
      forgets h p w id phase mine s.0 s.1 (worker_step-Worked h w job p phase input) idle_now in
    rw same (
      worker_step-done h w job p phase input id mine (rw here refl)
          (λ e. (Reachable-Held id reach).slept w (rw at (ap some e))) (inl idle_now),
      free.0,
      free.1,
    )
