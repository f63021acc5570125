-- ===== src/Server/Idempotency.antt =====
-- tako_vm/server/app.py: IdempotencyLockManager. A coroutine that uses `acquire` is a task; it runs
-- without interruption while it holds the global lock, so each of the two sections under that lock
-- is one step. A lock object is a number, and it is locked where a task holds it.
use tako_vm.Prelude.{
  ℕ, zero, suc, ◌+◌, ◌-◌, String, Option, none, some, Bool, true, false, ◌||◌, List, [], ◌∷◌, ◌==◌,
  leb, if◌then◌else◌, str_eq, Dict, get, put, pop,
}
pub mod Locks
pub mod Moves
pub mod Exclusion

-- Where a task is in `acquire`: outside, at the lock, in the body, or before its `finally`.
pub data Task : Type 0 where
  outside : Task
  waiting : String → ℕ → Task
  holding : String → ℕ → Task
  leaving : String → Task

pub record IdempotencyLockManager : Type 0 where
  pub locks : Dict ℕ
  pub waiters : Dict ℕ
  pub next_lock : ℕ
  pub tasks : Dict Task

abbrev pub holds_lock : ℕ → Task → Bool
holds_lock o (holding k p) = o == p
holds_lock o _ = false

-- `lock.locked()`
unfoldable pub is_locked : ℕ → Dict Task → Bool
is_locked o [] = false
is_locked o ((t, task) ∷ d) = holds_lock o task || is_locked o d

abbrev pub or_zero : Option ℕ → ℕ
or_zero none = 0
or_zero (some n) = n

abbrev pub set_task : String → Task → IdempotencyLockManager → IdempotencyLockManager
set_task t task m = record m { tasks = put m.tasks t task }

-- The first section: get or create the lock for the key, and register.
abbrev pub register_at :
    Option ℕ → String → String → IdempotencyLockManager → IdempotencyLockManager
register_at none t key m = record m {
  locks = put m.locks key m.next_lock;
  next_lock = suc m.next_lock;
  waiters = put m.waiters key (or_zero (get m.waiters key) + 1);
  tasks = put m.tasks t (waiting key m.next_lock);
}
register_at (some lock) t key m = record m {
  waiters = put m.waiters key (or_zero (get m.waiters key) + 1);
  tasks = put m.tasks t (waiting key lock);
}

unfoldable pub register : String → String → IdempotencyLockManager → IdempotencyLockManager
register t key m = register_at (get m.locks key) t key m

-- The last section: deregister, and evict the lock when no other task refers to it.
unfoldable pub deregister : String → String → IdempotencyLockManager → IdempotencyLockManager
deregister t key m =
    let count = or_zero (get m.waiters key) in
    if leb count 1
    then record m {
      waiters = pop m.waiters key;
      locks = pop m.locks key;
      tasks = put m.tasks t outside;
    }
    else record m { waiters = put m.waiters key (count - 1); tasks = put m.tasks t outside }

pub data Event : Type 0 where
  -- a task calls `acquire` with a key
  enters : String → String → Event
  -- the per-key lock is taken, or the wait for it is cancelled
  locks_it : String → Event
  gives_up : String → Event
  -- the body ends or raises, and the lock is released
  releases : String → Event
  -- the `finally` section runs
  deregisters : String → Event

abbrev pub enter : Option Task → String → String → IdempotencyLockManager → IdempotencyLockManager
enter (some outside) t key m = register t key m
enter _ t key m = m

abbrev pub take_lock : Option Task → String → IdempotencyLockManager → IdempotencyLockManager
take_lock (some (waiting key o)) t m =
    if is_locked o m.tasks then m else set_task t (holding key o) m
take_lock _ t m = m

abbrev pub give_up : Option Task → String → IdempotencyLockManager → IdempotencyLockManager
give_up (some (waiting key o)) t m = set_task t (leaving key) m
give_up _ t m = m

abbrev pub release : Option Task → String → IdempotencyLockManager → IdempotencyLockManager
release (some (holding key o)) t m = set_task t (leaving key) m
release _ t m = m

abbrev pub leave : Option Task → String → IdempotencyLockManager → IdempotencyLockManager
leave (some (leaving key)) t m = deregister t key m
leave _ t m = m

unfoldable pub step : IdempotencyLockManager → Event → IdempotencyLockManager
step m (enters t key) = enter (get m.tasks t) t key m
step m (locks_it t) = take_lock (get m.tasks t) t m
step m (gives_up t) = give_up (get m.tasks t) t m
step m (releases t) = release (get m.tasks t) t m
step m (deregisters t) = leave (get m.tasks t) t m

unfoldable pub run : IdempotencyLockManager → List Event → IdempotencyLockManager
run m [] = m
run m (e ∷ es) = run (step m e) es

-- Tasks outside, by name.
unfoldable pub all_outside : List String → Dict Task
all_outside [] = []
all_outside (t ∷ ts) = (t, outside) ∷ all_outside ts

unfoldable pub new_manager : List String → IdempotencyLockManager
unfolding all_outside
new_manager ts = record { locks = []; waiters = []; next_lock = 0; tasks = all_outside ts }
