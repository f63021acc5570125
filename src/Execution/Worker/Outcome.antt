-- ===== src/Execution/Worker/Outcome.antt =====
-- tako_vm/execution/worker.py: what the final status of an execution means.
use tako_vm.Prelude.{
  ℕ, Option, none, some, Bool, true, false, not, ◌&&◌, ◌||◌, ◌≡◌, refl, arith, if◌then◌else◌,
  is_some, Bool-cases, ◌⊎◌, inl, inr,
}
use tako_vm.Models.{ℤ, is_code, Status, ErrorType, ExecutionError, is_terminal}
use tako_vm.Security.Classify.Known.{is_known}
use tako_vm.Execution.Phase.{PhaseTiming}
use tako_vm.Execution.Worker.Settled.{
  is_refused, IsSettled, timeout_error-IsSettled, early-IsSettled, failed_error-IsSettled,
}
use tako_vm.Execution.Worker.{
  ContainerResult, Texts, outcome, killed_outcome, failed_error, settled, phase_of,
}

abbrev pub is_timeout : Status → Bool
is_timeout Status.timeout = true
is_timeout _ = false

abbrev pub is_oom : Status → Bool
is_oom Status.oom = true
is_oom _ = false

abbrev pub is_succeeded : Status → Bool
is_succeeded Status.succeeded = true
is_succeeded _ = false

abbrev is_cleared : Option Bool → Bool
is_cleared (some false) = true
is_cleared _ = false

-- An error that is not "unknown".
abbrev pub IsKnownError : Option ExecutionError → Type 0
IsKnownError none = Unit
IsKnownError (some e) = is_known e.type ≡ true

-- The error of an exception in the method.
abbrev pub IsInternal : Status × Option ExecutionError → Type 0
IsInternal (status, none) = ⊥
IsInternal (status, some e) = (status ≡ Status.failed) × (e.type ≡ ErrorType.internal_error)

-- What the status says of the container's end, and that all but a success carry an error.
pub record IsOutcome (timed_out : Bool) (r : ContainerResult) (timing : Option PhaseTiming)
    (o : Status × Option ExecutionError) : Type 0 where
  pub terminal : is_terminal o.0 ≡ true
  pub timeout :
      is_timeout o.0 ≡ ((timed_out || is_code r.exit_code 124) && not (is_refused true timing))
  pub oom : is_oom o.0 ≡ (
      not timed_out
      && (is_code r.exit_code 137 && not (is_cleared r.oom_killed))
      && not (is_refused false timing))
  pub succeeded : is_succeeded o.0 ≡ (
      not timed_out
      && (r.success && (not (is_code r.exit_code 124) && not (is_code r.exit_code 137))))
  pub error : is_some o.1 ≡ not (is_succeeded o.0)
  pub known : is_code r.exit_code 0 ≡ false → IsKnownError o.1
  pub internal :
      (is_succeeded o.0 ≡ true)
      ⊎ (is_refused (timed_out || is_code r.exit_code 124) timing ≡ false)
      ⊎ IsInternal o

codes_differ : (c : ℤ) → is_code c 124 ≡ true → is_code c 137 ≡ false
codes_differ (ℤ.pos n) h = ground (arith, h)
codes_differ (ℤ.negsuc n) h = refl

module _ (texts : Texts) (t s : ℕ) (r : ContainerResult) (timing : Option PhaseTiming) where
  late-IsOutcome :
      (timed_out : Bool) (o : Status × Option ExecutionError)
      → (timed_out || is_code r.exit_code 124) ≡ true
      → IsSettled texts t s r timing (is_refused true timing) Status.timeout o
      → IsOutcome timed_out r timing o
  late-IsOutcome timed_out o late (inl (refused, e)) = rw e (record {
    terminal = refl;
    timeout = rw (late, refused) refl;
    oom = ground (arith, late, codes_differ r.exit_code);
    succeeded = ground (arith, late);
    error = refl;
    known = λ nonzero. refl;
    internal = inr (inr (refl, refl));
  })
  late-IsOutcome timed_out o late (inr (own, (error, e, known))) = rw e (record {
    terminal = refl;
    timeout = rw (late, own) refl;
    oom = ground (arith, late, codes_differ r.exit_code);
    succeeded = ground (arith, late);
    error = refl;
    known = known;
    internal = inr (inl (rw late own));
  })

  -- An end that is no timeout, of a status that is not a success.
  early-IsOutcome :
      (status : Status) (o : Status × Option ExecutionError)
      → is_code r.exit_code 124 ≡ false
      → is_terminal status ≡ true
      → is_timeout status ≡ false
      → is_succeeded status ≡ false
      → (r.success && not (is_code r.exit_code 137)) ≡ false
      → is_oom status ≡ (is_code r.exit_code 137 && not (is_cleared r.oom_killed))
      → IsSettled texts t s r timing (is_refused false timing) status o
      → IsOutcome false r timing o
  early-IsOutcome status o early final late no_success plain oom (inl (refused, e)) = rw e (record {
    terminal = refl;
    timeout = rw early refl;
    oom = rw refused (ground arith);
    succeeded = ground (arith, early, plain);
    error = refl;
    known = λ nonzero. refl;
    internal = inr (inr (refl, refl));
  })
  early-IsOutcome status o early final late no_success plain oom (inr (own, (error, e, known))) =
      rw e (record {
        terminal = final;
        timeout = rw (early, late) refl;
        oom = rw (own, oom) (ground arith);
        succeeded = rw no_success (ground (arith, early, plain));
        error = rw no_success refl;
        known = known;
        internal = inr (inl (rw early own));
      })

  success-IsOutcome :
      r.success ≡ true
      → is_code r.exit_code 124 ≡ false
      → is_code r.exit_code 137 ≡ false
      → IsOutcome false r timing (Status.succeeded, none)
  success-IsOutcome success early alive = record {
    terminal = refl;
    timeout = rw early refl;
    oom = rw alive refl;
    succeeded = rw (success, early, alive) refl;
    error = refl;
    known = λ nonzero. tt;
    internal = inl refl;
  }

module _ (texts : Texts) (t s : ℕ) (r : ContainerResult) where
  killed_outcome-IsOutcome :
      (timing : Option PhaseTiming) (killed : Option Bool)
      → r.oom_killed ≡ killed
      → is_code r.exit_code 137 ≡ true
      → is_code r.exit_code 124 ≡ false
      → IsOutcome false r timing (settled texts (killed_outcome texts killed (phase_of timing)))
  unfolding killed_outcome
  killed_outcome-IsOutcome timing none e c d =
      early-IsOutcome texts t s r timing Status.oom _ d refl refl refl (ground (arith, c))
        (rw (c, e) refl)
        (early-IsSettled texts t s r timing Status.oom ErrorType.oom
          "Execution exceeded memory limit" (λ nonzero. refl))
  killed_outcome-IsOutcome timing (some true) e c d =
      early-IsOutcome texts t s r timing Status.oom _ d refl refl refl (ground (arith, c))
        (rw (c, e) refl)
        (early-IsSettled texts t s r timing Status.oom ErrorType.oom
          "Execution exceeded memory limit" (λ nonzero. refl))
  killed_outcome-IsOutcome timing (some false) e c d =
      early-IsOutcome texts t s r timing Status.failed _ d refl refl refl (ground (arith, c))
        (rw (c, e) refl)
        (early-IsSettled texts t s r timing Status.failed ErrorType.killed _ (λ nonzero. refl))

  plain-IsOutcome :
      (timing : Option PhaseTiming) (success : Bool)
      → r.success ≡ success
      → is_code r.exit_code 137 ≡ false
      → is_code r.exit_code 124 ≡ false
      → IsOutcome false r timing (
          if success
          then (Status.succeeded, none)
          else settled texts (Status.failed, failed_error texts r false (phase_of timing)))
  plain-IsOutcome timing true e c d = success-IsOutcome texts t s r timing e d c
  plain-IsOutcome timing false e c d =
      early-IsOutcome texts t s r timing Status.failed _ d refl refl refl (ground (arith, e))
        (rw c refl) (failed_error-IsSettled texts t s r timing)

  -- The status that an execution ends with is terminal. An error that takes over a phase of the
  -- phase file that is none of the four cannot be made, and the execution then ends as failed with
  -- an internal error, unless it succeeded; a timeout takes it over only if the file's times do
  -- not tell whether code ran or the startup ended. But for these, the status is timeout exactly
  -- if the host timed out or the exit code is 124, and oom exactly if the host did not time out,
  -- the exit code is 137 and the inspection does not rule the OOM killer out. It is succeeded
  -- exactly if the container reports success, the host did not time out and the exit code is
  -- neither; it carries an error exactly if it is not succeeded; and if the exit code is not 0 the
  -- type of that error is not unknown.
  pub outcome-IsOutcome :
      (timing : Option PhaseTiming) (timed_out : Bool)
      → IsOutcome timed_out r timing (outcome texts t s timed_out r timing)
  unfolding outcome
  outcome-IsOutcome timing true =
      late-IsOutcome texts t s r timing true _ refl (timeout_error-IsSettled texts t s r timing)
  outcome-IsOutcome timing false = elim (Bool-cases (is_code r.exit_code 124)) [
    | inl late ↦
        rw (outcome, late)
          (late-IsOutcome texts t s r timing false _ late
            (timeout_error-IsSettled texts t s r timing))
    | inr early ↦ elim (Bool-cases (is_code r.exit_code 137)) [
      | inl killed ↦
          rw (outcome, early, killed)
            (killed_outcome-IsOutcome timing r.oom_killed refl killed early)
      | inr alive ↦ rw (outcome, early, alive) (plain-IsOutcome timing r.success refl alive early)
    ]
  ]
