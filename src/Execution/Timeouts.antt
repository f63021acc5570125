-- ===== src/Execution/Timeouts.antt =====
-- tako_vm/execution/worker.py: the job type and the timeout of a job, with the checks that
-- tako_vm/server/app.py makes before and the budget that tako_vm/server/queue.py gives the watchdog.
use tako_vm.Prelude.{
  ℕ, ◌+◌, ◌≤◌, ◌<◌, Option, none, some, Bool, true, false, not, ◌&&◌, List, [], ◌∷◌, ◌≡◌, refl,
  arith, ltb, leb, if◌then◌else◌, or_else, is_some, ◌↔◌, inl, inr, ◌⊎◌, Bool-cases,
}
use tako_vm.Security.{Text, is_empty}
use tako_vm.Texts.{codes, split_once}
use tako_vm.JobTypes.{JobType, new_job_type}
use tako_vm.JobTypes.Registry.{JobTypeRegistry, get_type}
use tako_vm.JobTypes.Config.{JobTypeConfig}
pub mod Budget

-- DEFAULT_JOB_TYPE of the executor.
unfoldable pub default_job_type : JobType
unfolding codes new_job_type
default_job_type = new_job_type (codes "default")

-- The name without its version, `job_type_name.split("@")[0]`.
unfoldable pub base_name : Text → Text
unfolding split_once
base_name name = elim (split_once 64 name) [ none ↦ name | some (a, b) ↦ a ]

-- What a job says of its type and its timeouts.
pub record Job : Type 0 where
  pub job_type : Option Text
  pub timeout : Option ℕ
  pub startup_timeout : Option ℕ

-- The timeouts of a configuration.
pub record Limits : Type 0 where
  pub production_mode : Bool
  pub default_timeout : ℕ
  pub max_timeout : ℕ
  pub default_startup_timeout : ℕ
  pub max_startup_timeout : ℕ
  pub session_idle_timeout_seconds : ℕ
  pub session_max_ttl_seconds : ℕ
  pub job_types : List JobTypeConfig

-- TakoVMConfig.validate_timeouts: whether the configuration is accepted.
unfoldable pub oversized_job_types : ℕ → List JobTypeConfig → List Text
oversized_job_types max [] = []
oversized_job_types max (j ∷ js) =
    let rest = oversized_job_types max js in if ltb max j.timeout then j.name ∷ rest else rest

abbrev pub no_names : List Text → Bool
no_names [] = true
no_names (name ∷ names) = false

unfoldable pub validate_timeouts : Limits → Bool
unfolding oversized_job_types
validate_timeouts c =
    leb c.default_timeout c.max_timeout
    && no_names (oversized_job_types c.max_timeout c.job_types)
    && leb c.default_startup_timeout c.max_startup_timeout
    && leb c.session_idle_timeout_seconds c.session_max_ttl_seconds

abbrev pub or_value : Option ℕ → ℕ → ℕ
or_value none d = d
or_value (some n) d = n

-- container_timeout: how long the host waits for docker run.
unfoldable pub container_timeout : (timeout startup_timeout : ℕ) → ℕ
container_timeout timeout startup_timeout = startup_timeout + timeout + 5

module _ (config : Limits) (registry : JobTypeRegistry) where
  -- _get_job_type; `none` is its ValueError.
  abbrev pub known_type : Option JobType → Option JobType
  unfolding default_job_type
  known_type none = if config.production_mode then none else some default_job_type
  known_type (some j) = some j

  unfoldable pub get_job_type : Option Text → Option JobType
  unfolding default_job_type base_name get_type
  get_job_type none = some default_job_type
  get_job_type (some name) = known_type (get_type registry (base_name name))

  abbrev pub own_timeout : Job → JobType → ℕ
  own_timeout job j = if is_some job.job_type then j.timeout else config.default_timeout

  -- _resolve_execution_timeout; `none` is its ValueError.
  unfoldable pub resolve_execution_timeout : Job → JobType → Option ℕ
  resolve_execution_timeout job j =
      let timeout = or_value job.timeout (own_timeout job j) in
      if ltb config.max_timeout timeout then none else some timeout

  -- _validate_execution_timeout of the server: whether the request goes on.
  abbrev pub effective_timeout : Option ℕ → Option Text → Option ℕ
  unfolding base_name get_type
  effective_timeout (some t) name = some t
  effective_timeout none none = some config.default_timeout
  effective_timeout none (some name) = elim (get_type registry (base_name name)) [
    | none ↦ none
    | some j ↦ some j.timeout
  ]

  unfoldable pub validate_execution_timeout : Option ℕ → Option Text → Bool
  unfolding base_name get_type
  validate_execution_timeout timeout name = elim (effective_timeout timeout name) [
    | none ↦ true
    | some t ↦ leb t config.max_timeout
  ]

  -- The job type, the timeout and the startup timeout with which a job starts.
  abbrev pub with_type : Job → Option JobType → Option (JobType × ℕ × ℕ)
  unfolding resolve_execution_timeout
  with_type job none = none
  with_type job (some j) = elim (resolve_execution_timeout job j) [
    | none ↦ none
    | some t ↦ some (j, t, or_value job.startup_timeout j.startup_timeout)
  ]

  unfoldable pub budget_of_job : Job → Option (JobType × ℕ × ℕ)
  unfolding get_job_type resolve_execution_timeout
  budget_of_job job = with_type job (get_job_type job.job_type)

  -- _resolve_timeout_budget of the worker pool, on the job's own name of its type.
  abbrev pub pool_type : Option Text → Option JobType
  unfolding base_name get_type
  pool_type none = none
  pool_type (some name) = if is_empty name then none else get_type registry (base_name name)

  abbrev pub pool_default : Option JobType → ℕ × ℕ
  pool_default none = (30, 120)
  pool_default (some j) = (j.timeout, j.startup_timeout)

  unfoldable pub resolve_timeout_budget : Job → ℕ × ℕ
  unfolding base_name get_type
  resolve_timeout_budget job =
      let d = pool_default (pool_type job.job_type) in
      (or_value job.timeout d.0, or_value job.startup_timeout d.1)

  -- executor_timeout: how long the watchdog waits for the executor.
  unfoldable pub executor_timeout : Job → ℕ
  unfolding resolve_timeout_budget
  executor_timeout job = let budget = resolve_timeout_budget job in budget.1 + budget.0 + 60
