-- ===== src/Execution/Health/Circuit.antt =====
-- tako_vm/execution/health.py: the circuit that a breaker stands for, without the counters that play no
-- part in its state.
use tako_vm.Prelude.{
  ℕ, suc, ◌+◌, Option, none, some, Bool, true, false, List, [], ◌∷◌, ◌≡◌, refl, arith, leb,
  if◌then◌else◌, is_some,
}
use tako_vm.Execution.Health.{
  CircuitState, closed, open_, half_open, CircuitBreakerConfig, DockerCircuitBreaker, new_breaker,
  is_available, record_success, record_failure,
}
use tako_vm.Execution.Health.Breaker.{Call, reads, succeeds, fails, call}

-- Closed after a number of failures in a row, open since the last failure, or probing after a number
-- of successes.
pub data Circuit : Type 0 where
  shut : ℕ → Circuit
  broken : ℕ → Circuit
  probing : ℕ → Circuit

module _ (config : CircuitBreakerConfig) where
  -- The answer to a call, true for one that asks nothing, and the circuit after it.
  unfoldable pub circuit_call : Call → Circuit → Bool × Circuit
  circuit_call (reads now) (shut n) = (true, shut n)
  circuit_call (reads now) (broken since) =
      if leb (since + config.recovery_timeout) now then (true, probing 0) else (false, broken since)
  circuit_call (reads now) (probing n) = (true, probing n)
  circuit_call (succeeds now) (shut n) = (true, shut 0)
  circuit_call (succeeds now) (broken since) = (true, broken since)
  circuit_call (succeeds now) (probing n) =
      (true, if leb config.success_threshold (suc n) then shut 0 else probing (suc n))
  circuit_call (fails now) (shut n) =
      (true, if leb config.failure_threshold (suc n) then broken now else shut (suc n))
  circuit_call (fails now) (broken since) = (true, broken now)
  circuit_call (fails now) (probing n) = (true, broken now)

  -- The answers to a sequence of calls, with the end.
  unfoldable pub run_circuit : List Call → Circuit → List Bool × Circuit
  unfolding circuit_call
  run_circuit [] c = ([], c)
  run_circuit (x ∷ xs) c =
      let next = circuit_call x c in let rest = run_circuit xs next.1 in (next.0 ∷ rest.0, rest.1)

  unfoldable pub run_breaker : List Call → DockerCircuitBreaker → List Bool × DockerCircuitBreaker
  unfolding call
  run_breaker [] b = ([], b)
  run_breaker (x ∷ xs) b =
      let next = call config x b in let rest = run_breaker xs next.1 in (next.0 ∷ rest.0, rest.1)

abbrev time_or_zero : Option ℕ → ℕ
time_or_zero none = 0
time_or_zero (some t) = t

-- The circuit that a breaker stands for.
abbrev pub circuit_of : DockerCircuitBreaker → Circuit
circuit_of b = elim b.state [
  | closed ↦ shut b.failure_count
  | open_ ↦ broken (time_or_zero b.last_failure_time)
  | half_open ↦ probing b.success_count
]

-- A breaker that is open has the time of a failure.
abbrev HasTime : DockerCircuitBreaker → Type 0
HasTime b = elim b.state [
  | closed ↦ Unit
  | open_ ↦ is_some b.last_failure_time ≡ true
  | half_open ↦ Unit
]

-- What a call of a breaker and of its circuit come to.
abbrev Agrees : Bool × DockerCircuitBreaker → Bool × Circuit → Type 0
Agrees x y = (x.0 ≡ y.0) × (circuit_of x.1 ≡ y.1) × HasTime x.1

abbrev breaker : CircuitState → (failures successes : ℕ) → Option ℕ → DockerCircuitBreaker
breaker state failures successes last = record {
  state = state;
  failure_count = failures;
  success_count = successes;
  last_failure_time = last;
}

module _ (config : CircuitBreakerConfig) where
  call-Agrees :
      (c : Call) (state : CircuitState) (f s : ℕ) (last : Option ℕ)
      → HasTime (breaker state f s last)
      → Agrees
          (call config c (breaker state f s last))
          (circuit_call config c (circuit_of (breaker state f s last)))
  unfolding call is_available record_success record_failure circuit_call
  call-Agrees (reads now) closed f s last t = (refl, refl, tt)
  call-Agrees (reads now) open_ f s none t = absurd (ground (arith, t))
  call-Agrees (reads now) open_ f s (some u) t = ground arith
  call-Agrees (reads now) half_open f s last t = (refl, refl, tt)
  call-Agrees (succeeds now) closed f s last t = (refl, refl, tt)
  call-Agrees (succeeds now) open_ f s last t = (refl, refl, t)
  call-Agrees (succeeds now) half_open f s last t = ground arith
  call-Agrees (fails now) closed f s last t = ground arith
  call-Agrees (fails now) open_ f s last t = (refl, refl, refl)
  call-Agrees (fails now) half_open f s last t = (refl, refl, refl)

  run_breaker-circuit :
      (cs : List Call) (b : DockerCircuitBreaker)
      → HasTime b
      → ((run_breaker config cs b).0 ≡ (run_circuit config cs (circuit_of b)).0)
        × (circuit_of (run_breaker config cs b).1 ≡ (run_circuit config cs (circuit_of b)).1)
  unfolding run_breaker run_circuit
  run_breaker-circuit [] b t = (refl, refl)
  run_breaker-circuit (c ∷ cs) b t =
      let step = call-Agrees c b.state b.failure_count b.success_count b.last_failure_time t in
      let rest = run_breaker-circuit cs (call config c b).1 step.2 in
      (rw (rest.0, step.0, step.1) refl, rw (← step.1) rest.1)

  -- After any sequence of reads, successes and failures a new breaker has given the answers of the
  -- circuit and stands where it stands, which is closed after a number of failures in a row, open
  -- since the last failure, or probing after a number of successes, and knows nothing else.
  pub new_breaker-circuit :
      (cs : List Call)
      → ((run_breaker config cs new_breaker).0 ≡ (run_circuit config cs (shut 0)).0)
        × (circuit_of (run_breaker config cs new_breaker).1 ≡ (run_circuit config cs (shut 0)).1)
  unfolding new_breaker
  new_breaker-circuit cs = run_breaker-circuit cs new_breaker tt
