-- ===== src/Server/Queue/Reach.antt =====
-- tako_vm/server/queue.py: the invariant over every order of events.
use tako_vm.Prelude.{String, none, some, List, [], ◌∷◌, ◌≡◌, refl, arith, get, contains, count}
use tako_vm.Models.{Status}
use tako_vm.Server.Queue.State.{Hashes, build_record, sleeping, WorkerPool}
use tako_vm.Server.Queue.Calls.{new_job, submit}
use tako_vm.Server.Queue.Steps.{
  Event, submits, cancels, resumes_cancel, resumes_kill, dequeues, works, step, idle_workers,
}
use tako_vm.Server.Queue.Tracking.{Held, IsFresh, IsStarted, holders}
use tako_vm.Server.Queue.Taking.{if-Held, work-Held, dequeue-Held}
use tako_vm.Server.Queue.Calling.{
  Still-Held, Still-store, admit-Held, cancel-Held, kills-Still, finish-Held,
}

-- Every event, in any order, keeps the invariant of every job.
pub step-Held :
    (h : Hashes) (k : String) (p : WorkerPool) (e : Event)
    → IsFresh p e
    → Held p k
    → Held (step h p e) k
unfolding step submit
step-Held h k p (submits net net' id d ip now) fresh v =
    admit-Held k _ id _ net' (build_record h (new_job id d ip now) Status.queued none none) _ fresh
      (Still-Held p _ k (Still-store p _ k) v)
step-Held h k p (cancels id) fresh v = cancel-Held id k p v
step-Held h k p (resumes_cancel net id) fresh v =
    if-Held k (contains id p.cancelling) _ p (finish-Held h k p net id (get p.jobs id) v) v
step-Held h k p (resumes_kill sent id) fresh v =
    if-Held k (contains id p.killing) _ p (Still-Held p _ k (kills-Still h k p sent id) v) v
step-Held h k p (dequeues w) fresh v = dequeue-Held k p w v (get p.workers w) refl
step-Held h k p (works w input) fresh v = work-Held h k p w input v

-- The pools that start and then any events lead to.
pub data Reachable (h : Hashes) : WorkerPool → Type 0 where
  started : (p : WorkerPool) → IsStarted p → Reachable h p
  next : {p : WorkerPool} (e : Event) → Reachable h p → IsFresh p e → Reachable h (step h p e)

idle_workers-slept :
    (k w : String) (ws : List String) → get (idle_workers ws) w ≡ some (sleeping k) → ⊥
unfolding get idle_workers
idle_workers-slept k w [] e = cc
idle_workers-slept k w (x ∷ ws) e = ground (arith, idle_workers-slept k w ws)

idle_workers-holders : (k : String) (ws : List String) → holders k (idle_workers ws) ≡ 0
unfolding holders idle_workers
idle_workers-holders k [] = refl
idle_workers-holders k (w ∷ ws) = omega (arith, idle_workers-holders k ws)

started-Held : (k : String) (p : WorkerPool) → IsStarted p → Held p k
unfolding count contains
started-Held k p s =
    let empty : count k p.queue ≡ 0 = rw s.queue refl in
    let free : holders k p.workers ≡ 0 = rw s.workers (idle_workers-holders k s.names) in
    record {
      queued = λ h. absurd (omega (arith, empty));
      running = λ h. absurd (ground (arith, rw s.running at h));
      once = omega (arith, empty, free);
      known = λ h. omega (arith, empty, free);
      known_running = λ h. absurd (ground (arith, rw s.running at h));
      slept = λ w h. absurd (idle_workers-slept k w s.names (rw s.workers at h));
    }

-- In every pool that events lead to from start, with a fresh identifier for each submit, and for
-- every job: queue entries and workers that have the job are one at most together; a job in the
-- queue or in _running_jobs is in _active_jobs or flagged as cancelled; a job that is queued, with
-- a worker or in _running_jobs is known; and where its iteration sleeps its future is done.
pub Reachable-Held : {h : Hashes} {p : WorkerPool} (k : String) → Reachable h p → Held p k
Reachable-Held k (started p s) = started-Held k p s
Reachable-Held {h} k (next {p = p} e r fresh) = step-Held h k p e fresh (Reachable-Held k r)
