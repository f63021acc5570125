-- ===== src/Execution/Timeouts/Budget.antt =====
-- tako_vm/server/queue.py: whether the watchdog leaves a job the time that its executor gives it.
use tako_vm.Prelude.{◌||◌, ℕ, ◌+◌, ◌≤◌, Option, none, some, true, [], ◌≡◌, arith, is_some, ◌↔◌, ◌∷◌}
use tako_vm.Security.{Text}
use tako_vm.Texts.{split_once}
use tako_vm.JobTypes.{JobType, new_job_type}
use tako_vm.JobTypes.Registry.{JobTypeRegistry, get_type}
use tako_vm.Execution.Timeouts.{
  validate_timeouts, Job, Limits, default_job_type, base_name, known_type, get_job_type,
  resolve_execution_timeout, budget_of_job, with_type, container_timeout, resolve_timeout_budget,
  executor_timeout, or_value, pool_default,
}

-- The time that the host waits for the container of a job, 0 for a job that does not start.
abbrev pub run_time : Option (JobType × ℕ × ℕ) → ℕ
unfolding container_timeout
run_time none = 0
run_time (some (j, timeout, startup_timeout)) = container_timeout timeout startup_timeout

module _ (config : Limits) (registry : JobTypeRegistry) where
  -- The budget where the executor and the pool find the same type, or none.
  typed-covers :
      (name : Text) (timeout startup_timeout : Option ℕ) (found : Option JobType)
      → run_time (
          with_type config registry
            (record { job_type = some name; timeout = timeout; startup_timeout = startup_timeout })
            (known_type config registry found))
        ≤ or_value startup_timeout (pool_default config registry found).1
          + or_value timeout (pool_default config registry found).0
          + 60
  unfolding resolve_execution_timeout default_job_type new_job_type container_timeout
  typed-covers name none none none = ground arith
  typed-covers name none none (some j) = ground arith
  typed-covers name none (some s) none = ground arith
  typed-covers name none (some s) (some j) = ground arith
  typed-covers name (some t) none none = ground arith
  typed-covers name (some t) none (some j) = ground arith
  typed-covers name (some t) (some s) none = ground arith
  typed-covers name (some t) (some s) (some j) = ground arith

  -- A job of no type with a timeout, and one without.
  untyped-covers :
      (t : ℕ) (startup_timeout : Option ℕ)
      → run_time (
          budget_of_job config registry
            (record { job_type = none; timeout = some t; startup_timeout = startup_timeout }))
        ≤ executor_timeout config registry
            (record { job_type = none; timeout = some t; startup_timeout = startup_timeout })
  unfolding budget_of_job executor_timeout get_job_type default_job_type new_job_type
      resolve_execution_timeout container_timeout
  untyped-covers t none = ground arith
  untyped-covers t (some s) = ground arith

  -- If validate_timeouts accepts the configuration, then for a job without a type and a timeout
  -- the watchdog waits as long as the host waits for its container exactly if the default timeout
  -- is at most 85.
  pub executor_timeout_iff :
      (startup_timeout : Option ℕ)
      → validate_timeouts config ≡ true
      → (run_time (
            budget_of_job config registry
              (record { job_type = none; timeout = none; startup_timeout = startup_timeout }))
          ≤ executor_timeout config registry
              (record { job_type = none; timeout = none; startup_timeout = startup_timeout }))
        ↔ (config.default_timeout ≤ 85)
  unfolding budget_of_job executor_timeout get_job_type default_job_type new_job_type
      resolve_execution_timeout container_timeout validate_timeouts
  executor_timeout_iff none valid = ground (arith, valid)
  executor_timeout_iff (some s) valid = ground (arith, valid)

  -- If no job type has an empty name and a job names a type or gives a timeout, the watchdog waits
  -- at least as long as the host waits for the job's container.
  pub executor_timeout-covers :
      (job : Job)
      → get_type registry [] ≡ none
      → (is_some job.job_type || is_some job.timeout) ≡ true
      → run_time (budget_of_job config registry job) ≤ executor_timeout config registry job
  unfolding budget_of_job executor_timeout get_job_type resolve_timeout_budget base_name split_once
  executor_timeout-covers job no_name has = by_job job.job_type job.timeout has
    where
      by_job :
          (o : Option Text) (timeout : Option ℕ)
          → (is_some o || is_some timeout) ≡ true
          → run_time (
              budget_of_job config registry
                (record { job_type = o; timeout = timeout; startup_timeout = job.startup_timeout }))
            ≤ executor_timeout config registry
                (record { job_type = o; timeout = timeout; startup_timeout = job.startup_timeout })
      by_job none none h = ground (arith, h)
      by_job none (some t) h = untyped-covers t job.startup_timeout
      by_job (some []) timeout h = rw no_name (typed-covers [] timeout job.startup_timeout none)
      by_job (some (c ∷ cs)) timeout h =
          typed-covers (c ∷ cs) timeout job.startup_timeout (get_type registry (base_name (c ∷ cs)))
