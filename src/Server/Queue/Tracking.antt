-- ===== src/Server/Queue/Tracking.antt =====
-- tako_vm/server/queue.py: who holds a job. A job is in the queue or with one worker, never both,
-- and it is in _active_jobs until it is cancelled or its iteration ends.
use mathlib.Core.Option.{some-injective}
use tako_vm.Prelude.{
  ℕ, ◌+◌, ◌≤◌, ◌<◌, String, none, some, Bool, true, false, ◌||◌, List, [], ◌∷◌, ◌≡◌, refl, sym, ap,
  ◌∙◌, arith, ◌⊎◌, inl, inr, if◌then◌else◌, str_eq, Dict, get, put, get-put, contains,
  contains-without, count, Bool-cases, is_some,
}
use tako_vm.Server.Queue.State.{Phase, sleeping, WorkerPool}
use tako_vm.Server.Queue.Worker.{job_of}
use tako_vm.Server.Queue.Worked.{Worked, is_done_job, is_cancelled_job, id_of}
use tako_vm.Server.Queue.Steps.{Event, submits, set_phase, idle_workers}

-- 1 if the phase's iteration has the job, else 0.
abbrev pub has : String → Phase → ℕ
has k phase = elim (job_of phase) [ none ↦ 0 | some id ↦ if str_eq id k then 1 else 0 ]

-- The number of workers whose iteration has the job.
unfoldable pub holders : String → Dict Phase → ℕ
holders k [] = 0
holders k ((w, phase) ∷ d) = has k phase + holders k d

pub holders-put :
    (k w : String) (old new : Phase) (d : Dict Phase)
    → get d w ≡ some old
    → holders k (put d w new) + has k old ≡ holders k d + has k new
unfolding holders get put
holders-put k w old new [] e = cc
holders-put k w old new ((v, phase) ∷ d) e = elim (Bool-cases (str_eq v w)) [
  | inl same ↦
      let eq : phase ≡ old = some-injective phase old (rw same at e) in rw (same, eq) (omega arith)
  | inr other ↦ rw other (omega (arith, holders-put k w old new d (rw other at e)))
]

abbrev pub tracked : String → WorkerPool → Bool
tracked k p = contains k p.active_jobs || is_cancelled_job (get p.jobs k)

-- What holds of one job between two events.
pub record Held (p : WorkerPool) (k : String) : Type 0 where
  pub queued : 0 < count k p.queue → tracked k p ≡ true
  pub running : contains k p.running_jobs ≡ true → tracked k p ≡ true
  pub once : count k p.queue + holders k p.workers ≤ 1
  pub known : is_some (get p.jobs k) ≡ false → count k p.queue + holders k p.workers ≡ 0
  pub known_running : contains k p.running_jobs ≡ true → is_some (get p.jobs k) ≡ true
  pub slept : (w : String) → get p.workers w ≡ some (sleeping k) → is_done_job (get p.jobs k) ≡ true

-- The pool that start leaves: no job yet, and idle workers.
pub record IsStarted (p : WorkerPool) : Type 0 where
  pub names : List String
  pub workers : p.workers ≡ idle_workers names
  pub queue : p.queue ≡ []
  pub active : p.active_jobs ≡ []
  pub running : p.running_jobs ≡ []
  pub jobs : p.jobs ≡ []

-- Every call of submit draws an identifier that no job has.
abbrev pub IsFresh : WorkerPool → Event → Type 0
IsFresh p (submits net net' id d ip now) = get p.jobs id ≡ none
IsFresh p _ = Unit {0}

-- A step, as one job sees it: its tracking stays, or its own iteration ends.
abbrev Seen : (p q : WorkerPool) (k : String) (before after : Phase) → Type 0
Seen p q k before after =
    ((contains k q.active_jobs ≡ contains k p.active_jobs)
      × (contains k q.running_jobs ≡ contains k p.running_jobs)
      × (has k after ≤ has k before))
    ⊎ ((contains k q.active_jobs ≡ false)
        × (contains k q.running_jobs ≡ false)
        × (has k before ≡ 1)
        × (has k after ≡ 0))

Worked-Seen :
    (p q : WorkerPool) (k : String) (before after : Phase)
    → Worked before p after q
    → Seen p q k before after
Worked-Seen p q k before after m = elim m.tracking [
  | inl (same, active, running) ↦
      inl (ap (contains k) active, ap (contains k) running, rw (same, has) (omega arith))
  | inr (mine, ended, active, running) ↦ elim (Bool-cases (str_eq (id_of before) k)) [
    | inl eq ↦ inr (
      rw (active, contains-without) (rw eq refl),
      rw (running, contains-without) (rw eq refl),
      rw (mine, has) (rw eq refl),
      rw ended refl,
    )
    | inr ne ↦ inl (
      rw (active, contains-without) (rw ne refl),
      rw (running, contains-without) (rw ne refl),
      rw ended (omega arith),
    )
  ]
]

-- A step of worker w keeps what holds of a job, if it leaves the future done where it sleeps.
module _ (p q : WorkerPool) (w k : String) (before after : Phase)
    (e : get p.workers w ≡ some before) (m : Worked before p after q)
    (asleep : after ≡ sleeping k → is_done_job (get q.jobs k) ≡ true) (v : Held p k) where
  moved : holders k (put q.workers w after) + has k before ≡ holders k p.workers + has k after
  moved = rw m.workers (holders-put k w before after p.workers e)

  same_count : count k q.queue ≡ count k p.queue
  same_count = ap (count k) m.queue

  works-queued : Seen p q k before after → 0 < count k q.queue → tracked k q ≡ true
  works-queued seen h = ground (arith, moved, same_count, v, seen, m.jobs k)

  works-running : Seen p q k before after → contains k q.running_jobs ≡ true → tracked k q ≡ true
  works-running seen h = ground (arith, v, seen, m.jobs k)

  works-once : Seen p q k before after → count k q.queue + holders k (put q.workers w after) ≤ 1
  works-once seen = omega (arith, moved, same_count, v, seen)

  works-known :
      Seen p q k before after
      → is_some (get q.jobs k) ≡ false
      → count k q.queue + holders k (put q.workers w after) ≡ 0
  works-known seen h = omega (arith, moved, same_count, v.known (sym (m.jobs k).here ∙ h), seen)

  works-known_running :
      Seen p q k before after → contains k q.running_jobs ≡ true → is_some (get q.jobs k) ≡ true
  works-known_running seen h = ground (arith, v, seen, m.jobs k)

  works-slept :
      (x : String)
      → get (put q.workers w after) x ≡ some (sleeping k)
      → is_done_job (get q.jobs k) ≡ true
  works-slept x h = elim (Bool-cases (str_eq w x)) [
    | inl same ↦ asleep (some-injective after (sleeping k) (rw (get-put, same) at h))
    | inr other ↦ (m.jobs k).done (v.slept x (rw m.workers at (rw (get-put, other) at h)))
  ]

  pub works-Held : Held (set_phase w (after, q)) k
  works-Held =
      let seen = Worked-Seen p q k before after m in
      record {
        queued = works-queued seen;
        running = works-running seen;
        once = works-once seen;
        known = works-known seen;
        known_running = works-known_running seen;
        slept = works-slept;
      }
