-- ===== src/Sdk/Timeouts/Covers.antt =====
-- tako_vm/sdk/client.py: whether the client waits as long as the server may run a job.
use tako_vm.Prelude.{
  ℕ, ◌+◌, ◌≤◌, Option, none, some, true, [], ◌∷◌, ◌≡◌, refl, sym, ap, ◌∙◌, arith, ◌↔◌, Bool-cases,
  Option-cases, inl, inr,
}
use mathlib.Core.Option.{some-injective}
use tako_vm.Security.{Text, same_text}
use tako_vm.Texts.{codes, split_once}
use tako_vm.Texts.Laws.{same_text→eq}
use tako_vm.JobTypes.{JobType, new_job_type}
use tako_vm.JobTypes.Registry.{JobTypeRegistry, get_type}
use tako_vm.Execution.Timeouts.{
  validate_timeouts, Job, Limits, default_job_type, base_name, known_type, get_job_type, or_value,
  resolve_execution_timeout, budget_of_job, with_type, container_timeout,
}
use tako_vm.Execution.Timeouts.Budget.{run_time}
use tako_vm.Sdk.Timeouts.{
  Looked, answer, lookup_error, Cache, find_timeout, looked_up_name, looked_up, job_type_timeout,
  read_timeout_of, resolve_read_timeout, look_at,
}

-- Each entry of the cache is the timeout of a job type of the registry.
unfoldable pub IsCurrent : JobTypeRegistry → Cache → Type 0
IsCurrent registry [] = Unit
IsCurrent registry ((n, t) ∷ cache) = (look_at registry n ≡ answer t) × IsCurrent registry cache

find_timeout-current :
    (registry : JobTypeRegistry) (cache : Cache) (name : Text) (t : Option ℕ)
    → IsCurrent registry cache
    → find_timeout cache name ≡ some t
    → look_at registry name ≡ answer t
unfolding find_timeout IsCurrent
find_timeout-current registry [] name t current e = absurd (ground (arith, e))
find_timeout-current registry ((n, s) ∷ cache) name t current e =
    elim (Bool-cases (same_text n name)) [
      | inl same ↦
          rw (← same_text→eq n name same)
            (current.0 ∙ ap answer (some-injective s t (rw same at e)))
      | inr other ↦ find_timeout-current registry cache name t current.1 (rw other at e)
    ]

abbrev timeout_found : Looked → Option ℕ
timeout_found (answer t) = t
timeout_found lookup_error = none

looked_up-found :
    (name : Text) (l : Looked) (cache : Cache) → (looked_up name l cache).0 ≡ timeout_found l
looked_up-found name (answer t) cache = refl
looked_up-found name lookup_error cache = refl

-- With a cache of current answers, the timeout that the client takes is the registry's.
job_type_timeout-current :
    (registry : JobTypeRegistry) (cache : Cache) (job_type : Option Text)
    → IsCurrent registry cache
    → (job_type_timeout (look_at registry) cache job_type).0
      ≡ timeout_found (look_at registry (looked_up_name job_type))
unfolding job_type_timeout
job_type_timeout-current registry cache job_type current =
    elim (Option-cases (find_timeout cache (looked_up_name job_type))) [
      | inl absent ↦
          rw (job_type_timeout, absent)
            (looked_up-found _ (look_at registry (looked_up_name job_type)) cache)
      | inr (t, found) ↦
          rw (job_type_timeout, found)
            (sym (ap timeout_found (find_timeout-current registry cache _ t current found)))
    ]

-- A job type's startup timeout is at most what JobTypeConfig allows.
abbrev pub IsStartable : JobTypeRegistry → Type 0
IsStartable registry =
    (name : Text) (j : JobType) → get_type registry name ≡ some j → j.startup_timeout ≤ 600

module _ (config : Limits) (registry : JobTypeRegistry) where
  abbrev limit_of : (timeout startup_timeout : Option ℕ) → Option JobType → ℕ
  limit_of (some t) s found = read_timeout_of (some t) s
  limit_of none s none = read_timeout_of none s
  limit_of none s (some j) = read_timeout_of (some j.timeout) s

  typed-limit :
      (name : Text) (timeout s : Option ℕ) (found : Option JobType)
      → or_value s 600 ≤ 600
      → ((j : JobType) → found ≡ some j → j.startup_timeout ≤ 600)
      → run_time (
          with_type config registry
            (record { job_type = some name; timeout = timeout; startup_timeout = s })
            (known_type config registry found))
        ≤ limit_of timeout s found
  unfolding resolve_execution_timeout default_job_type new_job_type container_timeout
  typed-limit name (some t) (some s) none b c = ground arith
  typed-limit name (some t) none none b c = ground arith
  typed-limit name none (some s) none b c = ground (arith, b)
  typed-limit name none none none b c = ground arith
  typed-limit name (some t) (some s) (some j) b c = ground arith
  typed-limit name (some t) none (some j) b c = ground (arith, c j refl)
  typed-limit name none (some s) (some j) b c = ground arith
  typed-limit name none none (some j) b c = ground (arith, c j refl)

  abbrev pub job_with : (job_type : Option Text) (timeout startup_timeout : Option ℕ) → Job
  job_with job_type timeout startup_timeout = record {
    job_type = job_type;
    timeout = timeout;
    startup_timeout = startup_timeout;
  }

  -- The client's limit, with a cache of current answers.
  abbrev pub limit : Cache → Option Text → (timeout startup_timeout : Option ℕ) → ℕ
  limit cache job_type timeout s =
      (resolve_read_timeout (look_at registry) cache timeout s job_type).0

  limit_lem :
      (cache : Cache) (c : ℕ) (cs : Text) (timeout s : Option ℕ)
      → IsCurrent registry cache
      → limit cache (some (c ∷ cs)) timeout s
        ≡ limit_of timeout s (get_type registry (base_name (c ∷ cs)))
  unfolding resolve_read_timeout look_at looked_up_name
  limit_lem cache c cs (some t) s current = refl
  limit_lem cache c cs none s current =
      ap (λ o. read_timeout_of o s)
        (job_type_timeout-current registry cache (some (c ∷ cs)) current)
      ∙ by_type (get_type registry (base_name (c ∷ cs)))
    where
      by_type :
          (found : Option JobType)
          → read_timeout_of
              (timeout_found
                (elim found [ none ↦ lookup_error | some j ↦ answer (some j.timeout) ]))
              s
            ≡ limit_of none s found
      by_type none = refl
      by_type (some j) = refl

  -- If the client's cache has current timeouts, the startup timeouts of the registry and of the
  -- request are at most 600 and the request names a job type, the client's read timeout is at
  -- least as long as the host waits for the job's container.
  pub resolve_read_timeout-covers :
      (cache : Cache) (c : ℕ) (cs : Text) (timeout s : Option ℕ)
      → IsCurrent registry cache
      → IsStartable registry
      → or_value s 600 ≤ 600
      → run_time (budget_of_job config registry (job_with (some (c ∷ cs)) timeout s))
        ≤ limit cache (some (c ∷ cs)) timeout s
  unfolding budget_of_job get_job_type
  resolve_read_timeout-covers cache c cs timeout s current startable short =
      rw (limit_lem cache c cs timeout s current) (
        typed-limit (c ∷ cs) timeout s (get_type registry (base_name (c ∷ cs))) short
          (startable (base_name (c ∷ cs))))

  default_limit :
      (cache : Cache) (s : ℕ) (j : JobType)
      → IsCurrent registry cache
      → get_type registry (codes "default") ≡ some j
      → limit cache none none (some s) ≡ j.timeout + s + 30
  unfolding resolve_read_timeout looked_up_name codes base_name split_once look_at
  default_limit cache s j current here =
      let found : timeout_found (look_at registry (codes "default")) ≡ some j.timeout =
        rw (look_at, here) refl in
      ap (λ o. read_timeout_of o (some s))
        (job_type_timeout-current registry cache none current ∙ found)

  -- If validate_timeouts accepts the configuration, the client's cache has current timeouts and
  -- the registry has the job type default, then for a request with a startup timeout and neither a
  -- job type nor a timeout the client's read timeout is as long as the host waits for the
  -- container exactly if the configured default timeout is at most 25 seconds above that of the
  -- job type.
  pub resolve_read_timeout_iff :
      (cache : Cache) (s : ℕ) (j : JobType)
      → IsCurrent registry cache
      → get_type registry (codes "default") ≡ some j
      → validate_timeouts config ≡ true
      → (run_time (budget_of_job config registry (job_with none none (some s)))
          ≤ limit cache none none (some s))
        ↔ (config.default_timeout ≤ j.timeout + 25)
  unfolding budget_of_job get_job_type default_job_type new_job_type resolve_execution_timeout
      container_timeout validate_timeouts
  resolve_read_timeout_iff cache s j current here valid =
      rw (default_limit cache s j current here) (ground (arith, valid))
