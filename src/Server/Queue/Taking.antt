-- ===== src/Server/Queue/Taking.antt =====
-- tako_vm/server/queue.py: the steps of a worker keep what holds of a job.
use mathlib.Core.Option.{some-injective}
use tako_vm.Prelude.{
  ◌+◌, ◌≤◌, String, Option, none, some, Bool, true, false, ◌&&◌, List, [], ◌∷◌, ◌≡◌, refl, sym, ap,
  ◌∙◌, arith, ◌⊎◌, inl, inr, if◌then◌else◌, str_eq, eq_iff, get, put, get-put, contains, count,
  Bool-cases, Option-cases, is_some,
}
use tako_vm.Server.Queue.State.{
  Hashes, QueuedJob, Phase, idle, skipping, marking, sleeping, WorkerPool,
}
use tako_vm.Server.Queue.Worker.{Input, begin_job, worker_step, job_of, is_skipped}
use tako_vm.Server.Queue.Worked.{is_done_job}
use tako_vm.Server.Queue.Iteration.{worker_step-Worked, worker_step-done}
use tako_vm.Server.Queue.Steps.{set_phase, work_of, work_on, work, take_job, dequeue}
use tako_vm.Server.Queue.Tracking.{Held, holders, has, holders-put, works-Held}

module _ (h : Hashes) (k : String) where
  asleep-done :
      (p : WorkerPool) (w id : String) (job : QueuedJob) (phase : Phase) (input : Input)
      → get p.workers w ≡ some phase
      → job_of phase ≡ some id
      → get p.jobs id ≡ some job
      → Held p k
      → (worker_step h w job phase input p).0 ≡ sleeping k
      → is_done_job (get (worker_step h w job phase input p).1.jobs k) ≡ true
  asleep-done p w id job phase input at mine here v sleeps =
      elim (worker_step-Worked h w job p phase input).tracking [
        | inl (same, _, _) ↦
            let holds : job_of phase ≡ some k = sym same ∙ ap job_of sleeps in
            let eq : id ≡ k = some-injective id k (sym mine ∙ holds) in
            worker_step-done h w job p phase input k holds (rw (← eq, here) refl)
              (λ e. v.slept w (at ∙ ap some e)) (inr sleeps)
        | inr (_, ended, _, _) ↦ absurd (ground (arith, sym ended ∙ sleeps))
      ]

  pub work-Held :
      (p : WorkerPool) (w : String) (input : Input)
      → Held p k
      → Held (work h w (get p.workers w) input p) k
  work-Held p w input v = elim (Option-cases (get p.workers w)) [
    | inl gone ↦ rw (gone, work) v
    | inr (phase, at) ↦ elim (Option-cases (job_of phase)) [
      | inl none_ ↦ rw (at, work) (rw (none_, work_of) v)
      | inr (id, mine) ↦ elim (Option-cases (get p.jobs id)) [
        | inl lost ↦ rw (at, work) (rw (mine, work_of) (rw (lost, work_on) v))
        | inr (job, here) ↦
            rw (at, work)
              (rw (mine, work_of)
                (rw (here, work_on)
                  (works-Held p _ w k phase _ at (worker_step-Worked h w job p phase input)
                    (asleep-done p w id job phase input at mine here v) v)))
      ]
    ]
  ]

-- The first job leaves the queue for worker w.
module _ (k : String) (p : WorkerPool) (w id : String) (rest : List String) (phase : Phase)
    (at : get p.workers w ≡ some idle) (front : p.queue ≡ id ∷ rest) (v : Held p k) where
  front_count : count k p.queue ≡ (if str_eq id k then 1 else 0) + count k rest
  unfolding count
  front_count = ap (count k) front

  taken-holders : holders k (put p.workers w phase) ≡ holders k p.workers + has k phase
  taken-holders = omega (arith, holders-put k w idle phase p.workers at)

  taken-slept :
      (phase ≡ sleeping k → ⊥)
      → (x : String) → get (put p.workers w phase) x ≡ some (sleeping k)
      → is_done_job (get p.jobs k) ≡ true
  taken-slept awake x h = elim (Bool-cases (str_eq w x)) [
    | inl same ↦ absurd (awake (some-injective phase (sleeping k) (rw (get-put, same) at h)))
    | inr other ↦ v.slept x (rw (get-put, other) at h)
  ]

  taken-Held :
      (running : List String)
      → (phase ≡ sleeping k → ⊥)
      → has k phase ≤ (if str_eq id k then 1 else 0)
      → (contains k running ≡ true
          → (contains k p.running_jobs ≡ true)
            ⊎ ((str_eq id k ≡ true) × (is_some (get p.jobs k) ≡ true)))
      → Held (record p { queue = rest; running_jobs = running; workers = put p.workers w phase }) k
  taken-Held running awake less from = record {
    queued = λ h. v.queued (omega (arith, front_count));
    running = λ h. elim (from h) [
      | inl before ↦ v.running before
      | inr (eq, _) ↦ v.queued (rw (front_count, eq) (omega arith))
    ];
    once = omega (arith, front_count, taken-holders, v.once);
    known = λ h. omega (arith, front_count, taken-holders, v.known h);
    known_running =
        λ h. elim (from h) [ inl before ↦ v.known_running before | inr (_, here) ↦ here ];
    slept = taken-slept awake;
  }

module _ (k : String) (p : WorkerPool) (w id : String) (rest : List String)
    (at : get p.workers w ≡ some idle) (front : p.queue ≡ id ∷ rest) (v : Held p k) where
  begin-Held :
      (o : Option QueuedJob)
      → get p.jobs id ≡ o
      → Held (set_phase w (begin_job id o (record p { queue = rest }))) k
  unfolding begin_job contains
  begin-Held none here =
      taken-Held k p w id rest idle at front v p.running_jobs (λ e. cc) (omega arith) (λ h. inl h)
  begin-Held (some job) here = elim (Bool-cases (is_skipped job)) [
    | inl skip ↦
        rw (skip, begin_job)
          (taken-Held k p w id rest (skipping id) at front v p.running_jobs (λ e. cc) (omega arith)
            (λ h. inl h))
    | inr go ↦
        rw (go, begin_job)
          (taken-Held k p w id rest (marking id) at front v (id ∷ p.running_jobs) (λ e. cc)
            (omega arith)
            λ h. elim (Bool-cases (str_eq id k)) [
              | inl eq ↦ inr (eq, rw (← (eq_iff id k).0 eq, here) refl)
              | inr ne ↦ inl (rw ne at h)
            ])
  ]

pub and_right : (a b : Bool) → (a && b) ≡ true → b ≡ true
and_right a b h = ground arith

pub if-Held :
    (k : String) (b : Bool) (p q : WorkerPool) → Held p k → Held q k → Held (if b then p else q) k
if-Held k true p q v u = v
if-Held k false p q v u = u

module _ (k : String) (p : WorkerPool) (w : String) (v : Held p k) where
  take-Held :
      (at : get p.workers w ≡ some idle) (xs : List String)
      → p.queue ≡ xs
      → Held (take_job w xs p) k
  take-Held at [] front = v
  take-Held at (id ∷ rest) front = begin-Held k p w id rest at front v (get p.jobs id) refl

  pub dequeue-Held : (o : Option Phase) → get p.workers w ≡ o → Held (dequeue w o p) k
  dequeue-Held (some idle) at = if-Held k p.shutdown p _ v (take-Held at p.queue refl)
  dequeue-Held _ at = v
