-- ===== src/Execution/Health/Breaker.antt =====
-- tako_vm/execution/health.py: sequences of calls of a breaker.
use tako_vm.Prelude.{ℕ, Bool, true, List, [], ◌∷◌}
use tako_vm.Execution.Health.{
  CircuitBreakerConfig, DockerCircuitBreaker, is_available, record_success, record_failure,
}

-- A call of the breaker, at a time.
pub data Call : Type 0 where
  reads : ℕ → Call
  succeeds : ℕ → Call
  fails : ℕ → Call

abbrev pub time : Call → ℕ
time (reads now) = now
time (succeeds now) = now
time (fails now) = now

-- The breaker's answer to a call, true for one that asks nothing.
unfoldable pub call :
    CircuitBreakerConfig → Call → DockerCircuitBreaker → Bool × DockerCircuitBreaker
unfolding is_available record_success record_failure
call config (reads now) b = is_available config now b
call config (succeeds now) b = (true, record_success config b)
call config (fails now) b = (true, record_failure config now b)

unfoldable pub calls :
    CircuitBreakerConfig → List Call → DockerCircuitBreaker → DockerCircuitBreaker
unfolding call
calls config [] b = b
calls config (c ∷ cs) b = calls config cs (call config c b).1
