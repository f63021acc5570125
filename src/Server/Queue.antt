-- ===== src/Server/Queue.antt =====
-- tako_vm/server/queue.py: the worker pool. A coroutine runs without interruption from one `await`
-- to the next, so a method is cut into steps at its awaits; `_jobs_lock` is never held across an
-- await, so taking it never waits. A job object is shared by the queue, the two dictionaries and a
-- worker, so the pool keeps one store of jobs by identifier, and the rest are identifiers.
pub mod State
pub mod Calls
pub mod Cancel
pub mod Worker
pub mod Steps
pub mod Worked
pub mod Iteration
pub mod Tracking
pub mod Taking
pub mod Calling
pub mod Reach
pub mod Guarantees
pub mod Admission
pub mod Answers
