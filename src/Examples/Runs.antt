-- ===== src/Examples/Runs.antt =====
-- tako_vm/execution: the breaker, the cleanup, the retries and the outcome of an execution.
use tako_vm.Prelude.{
  ℕ, zero, suc, none, some, true, false, List, [], ◌∷◌, ◌≡◌, ◌≢◌, ◌≤◌, length, arith,
}
use tako_vm.Models.{ℤ}
use tako_vm.Execution.Health.{open_, CircuitBreakerConfig, DockerCircuitBreaker, new_breaker}
use tako_vm.Execution.Health.Breaker.{reads, fails}
use tako_vm.Execution.Health.Circuit.{
  shut, run_circuit, run_breaker, circuit_of, new_breaker-circuit,
}
use tako_vm.Execution.Retry.{Failure}
use tako_vm.Execution.Phase.{PhaseTiming}
use tako_vm.Execution.Worker.{ContainerResult, Texts, outcome}
use tako_vm.Execution.Worker.Attempts.{
  Attempt, returned, throws, no_result, run_attempts, Runs, run_attempts_lem,
}
use tako_vm.Execution.Worker.Isolation.{
  runc, runsc, listed, resolve_runtime, Launch, cache_after, first_listed, resolve_runtime_lem,
}
use tako_vm.Execution.Worker.Outcome.{IsOutcome, outcome-IsOutcome}

abbrev config : CircuitBreakerConfig
config = record { failure_threshold = 2; recovery_timeout = 30; success_threshold = 1 }

abbrev down : DockerCircuitBreaker
down = record { state = open_; failure_count = 2; success_count = 0; last_failure_time = some 10 }

new_breaker-circuit_example :
    ((run_breaker config (fails 1 ∷ fails 2 ∷ reads 40 ∷ []) new_breaker).0
      ≡ (run_circuit config (fails 1 ∷ fails 2 ∷ reads 40 ∷ []) (shut 0)).0)
    × (circuit_of (run_breaker config (fails 1 ∷ fails 2 ∷ reads 40 ∷ []) new_breaker).1
        ≡ (run_circuit config (fails 1 ∷ fails 2 ∷ reads 40 ∷ []) (shut 0)).1)
new_breaker-circuit_example = new_breaker-circuit config (fails 1 ∷ fails 2 ∷ reads 40 ∷ [])

-- An error whose text is "rate limit".
abbrev limited : Failure
limited = record {
  text = 114 ∷ 97 ∷ 116 ∷ 101 ∷ 32 ∷ 108 ∷ 105 ∷ 109 ∷ 105 ∷ 116 ∷ [];
  type_name = [];
}

abbrev printed : Texts
printed = record {
  shown = λ n. "n";
  sanitize_error = λ s. s;
  shown_int = λ z. "n";
  is_word = λ c. true;
  is_decimal = λ c. false;
  invalid_phase = "e";
}

abbrev killed : ContainerResult
killed = record (no_result false none) { exit_code = ℤ.pos 137; oom_killed = some false }

-- A phase file that names a phase of its own.
abbrev forged : PhaseTiming
forged = record {
  startup_ms = none;
  dep_install_ms = none;
  execution_ms = none;
  total_ms = none;
  phase_at_exit = some (120 ∷ []);
  dep_install_started = false;
}

outcome-IsOutcome_example :
    IsOutcome true killed (some forged) (outcome printed 30 10 true killed (some forged))
outcome-IsOutcome_example = outcome-IsOutcome printed 30 10 killed (some forged) true

abbrev launches : List Launch
launches = record { requested = runsc; strict = false; probe = listed true } ∷ []

resolve_runtime_lem_example :
    (cache_after launches none ≡ first_listed launches)
    × ((resolve_runtime runsc true (cache_after launches none) (listed false)).0 ≢ some runc)
    × (first_listed launches ≡ some true
        → (resolve_runtime runsc false (cache_after launches none) (listed false)).0 ≡ some runsc)
resolve_runtime_lem_example = resolve_runtime_lem launches runsc (listed false)

abbrev attempts : ℕ → Attempt
attempts zero = throws limited
attempts (suc n) = returned killed

run_attempts_lem_example :
    (Runs attempts 3 0 (run_attempts attempts 3).0 (run_attempts attempts 3).1)
    × (length (run_attempts attempts 3).1 ≤ 3)
run_attempts_lem_example = run_attempts_lem attempts 3 (omega arith)
