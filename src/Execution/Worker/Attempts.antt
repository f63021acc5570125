-- ===== src/Execution/Worker/Attempts.antt =====
-- tako_vm/execution/worker.py: the retry loop of execute_job_with_record.
use tako_vm.Prelude.{
  ℕ, zero, suc, ◌≤◌, ◌<◌, none, Bool, true, false, List, [], ◌∷◌, ◌≡◌, refl, arith, Bool-cases, inl,
  inr, length, String, Option, some, not, ◌&&◌, ltb, if◌then◌else◌, str_eq,
}
use tako_vm.Execution.Worker.{ContainerResult}
use tako_vm.Execution.Retry.{Failure, is_transient_error}
use tako_vm.Models.{ℤ}
use tako_vm.Security.{Text}
use tako_vm.Texts.{codes, contains_any, lower}

-- What an attempt comes to: a result or an exception. TimeoutExpired is told apart.
pub data Attempt : Type 0 where
  returned : ContainerResult → Attempt
  expired : Attempt
  throws : Failure → Attempt

-- The end of the retry loop.
pub data Attempted : Type 0 where
  finished : ContainerResult → Bool → Attempted
  raised : Attempted

-- A transient error of Docker in a result.
unfoldable pub docker_patterns : List Text
unfolding codes
docker_patterns =
    codes "circuit breaker"
    ∷ codes "docker daemon"
    ∷ codes "docker infrastructure failure"
    ∷ codes "connection refused"
    ∷ []

unfoldable pub is_docker_failure : Option String → Bool
unfolding contains_any lower codes docker_patterns
is_docker_failure none = false
is_docker_failure (some m) = not (str_eq m "") && contains_any docker_patterns (lower (codes m))

-- Whether a result that came back is tried again, if attempts are left.
abbrev pub is_retried : ContainerResult → Bool
is_retried r = not r.timed_out && (not r.success && is_docker_failure r.error)

-- A dictionary made where no container ran, or where one expired.
abbrev pub no_result : Bool → Option String → ContainerResult
no_result timed_out error = record {
  success = false;
  exit_code = ℤ.negsuc 0;
  stderr = "";
  timed_out = timed_out;
  oom_killed = none;
  infra_failure = false;
  config_error = false;
  error = error;
}

abbrev pub result_of : Attempt → ContainerResult → ContainerResult
result_of (returned r) last = r
result_of _ last = last

-- After an attempt: the end, or the loop's further course `next`.
unfoldable pub after_attempt :
    Attempt → (left n : ℕ) → (next : Attempted × List ℕ) → Attempted × List ℕ
after_attempt (returned r) left n next =
    if r.timed_out
    then (finished r true, n ∷ [])
    else if is_retried r && ltb 0 left
    then (next.0, n ∷ next.1)
    else (finished r false, n ∷ [])
after_attempt expired left n next = (finished (no_result true none) true, n ∷ [])
after_attempt (throws e) left n next =
    if is_transient_error e && ltb 0 left then (next.0, n ∷ next.1) else (raised, n ∷ [])

-- The loop from attempt `n`, with `left` attempts to go: its end and the attempts that ran. `last`
-- is the result so far.
unfoldable pub attempts_from : (ℕ → Attempt) → (left n : ℕ) → ContainerResult → Attempted × List ℕ
unfolding after_attempt
attempts_from run zero n last = (finished last false, [])
attempts_from run (suc left) n last =
    let next = attempts_from run left (suc n) (result_of (run n) last) in
    after_attempt (run n) left n next

unfoldable pub run_attempts : (ℕ → Attempt) → (max_attempts : ℕ) → Attempted × List ℕ
unfolding attempts_from
run_attempts run max_attempts =
    attempts_from run max_attempts 0
      (no_result false (some "execution failed before container run"))

-- Whether the loop goes on after an attempt, if it may.
abbrev pub is_transient : Attempt → Bool
is_transient (returned r) = is_retried r
is_transient expired = false
is_transient (throws e) = is_transient_error e

-- How the loop ends with an attempt.
abbrev pub end_of : Attempt → Attempted
end_of (returned r) = finished r r.timed_out
end_of expired = finished (no_result true none) true
end_of (throws e) = raised

-- An execution of the loop: attempts in order from `n`, each but the last one transient, and the
-- last one either not so or the last allowed.
pub data Runs (run : ℕ → Attempt) : ℕ → ℕ → Attempted → List ℕ → Type 0 where
  stops :
      (left n : ℕ) (a : Attempt)
      → run n ≡ a
      → is_transient a ≡ false
      → Runs run (suc left) n (end_of a) (n ∷ [])
  exhausts : (n : ℕ) (a : Attempt) → run n ≡ a → Runs run 1 n (end_of a) (n ∷ [])
  retries :
      (left n : ℕ) (end : Attempted) (ran : List ℕ)
      → is_transient (run n) ≡ true
      → Runs run left (suc n) end ran
      → Runs run (suc left) n end (n ∷ ran)

last_attempt :
    (a : Attempt) (n : ℕ) (next : Attempted × List ℕ)
    → after_attempt a zero n next ≡ (end_of a, n ∷ [])
unfolding after_attempt
last_attempt (returned r) n next = ground arith
last_attempt expired n next = refl
last_attempt (throws e) n next = ground arith

ending_attempt :
    (a : Attempt) (left n : ℕ) (next : Attempted × List ℕ)
    → is_transient a ≡ false
    → after_attempt a left n next ≡ (end_of a, n ∷ [])
unfolding after_attempt
ending_attempt (returned r) left n next h = ground (arith, h)
ending_attempt expired left n next h = refl
ending_attempt (throws e) left n next h = ground (arith, h)

retried_attempt :
    (a : Attempt) (left n : ℕ) (next : Attempted × List ℕ)
    → is_transient a ≡ true
    → after_attempt a (suc left) n next ≡ (next.0, n ∷ next.1)
unfolding after_attempt
retried_attempt (returned r) left n next h = ground (arith, h)
retried_attempt expired left n next h = absurd (ground (arith, h))
retried_attempt (throws e) left n next h = ground (arith, h)

module _ (run : ℕ → Attempt) where
  attempts_from-Runs :
      (left n : ℕ) (last : ContainerResult)
      → let s = attempts_from run (suc left) n last in
        (Runs run (suc left) n s.0 s.1) × (length s.1 ≤ suc left)
  unfolding attempts_from
  attempts_from-Runs zero n last =
      rw (last_attempt (run n) n (finished (result_of (run n) last) false, []))
        (exhausts n (run n) refl, omega arith)
  attempts_from-Runs (suc left) n last =
      let rest = attempts_from-Runs left (suc n) (result_of (run n) last) in
      let next = attempts_from run (suc left) (suc n) (result_of (run n) last) in
      elim (Bool-cases (is_transient (run n))) [
        | inl again ↦
            rw (retried_attempt (run n) left n next again)
              (retries (suc left) n next.0 next.1 again rest.0, omega (arith, rest.1))
        | inr over ↦
            rw (ending_attempt (run n) (suc left) n next over)
              (stops (suc left) n (run n) refl over, omega arith)
      ]

  -- If at least one attempt is configured, the retry loop makes its attempts in order from 0,
  -- retries only after a transient failure, ends with the first attempt that is not one or with
  -- the last allowed one, gives that attempt's result or exception, and makes no more attempts
  -- than configured.
  pub run_attempts_lem :
      (max_attempts : ℕ)
      → 0 < max_attempts
      → (Runs run max_attempts 0
          (run_attempts run max_attempts).0
          (run_attempts run max_attempts).1)
        × (length (run_attempts run max_attempts).1 ≤ max_attempts)
  unfolding run_attempts
  run_attempts_lem zero some_ = absurd (omega (arith, some_))
  run_attempts_lem (suc left) some_ = attempts_from-Runs left 0 _
