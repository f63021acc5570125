-- ===== src/Execution/Worker/Settled.antt =====
-- tako_vm/execution/worker.py: an error with a phase that cannot be read, and what becomes of it.
use Prim.Native.String
use tako_vm.Prelude.{
  ℕ, String, Option, none, some, Bool, true, false, not, ◌&&◌, ◌||◌, ltb, ◌≡◌, refl, if◌then◌else◌,
  is_some, ◌⊎◌, inl, inr,
}
use tako_vm.Models.{is_code, Status, Phase, ErrorType, ExecutionError}
use tako_vm.Security.{Text, same_text}
use tako_vm.Security.Classify.Known.{is_known, classify_error_known}
use tako_vm.Texts.{codes}
use tako_vm.Execution.Phase.{PhaseTiming}
use tako_vm.Execution.Worker.{
  ContainerResult, Texts, timeout_error, failed_error, failure, read_phase, settled, phase_of,
  determine_timeout_phase, exit_phase, message_or, is_positive, is_present,
}

-- A phase that a phase file names and that is none of the four.
abbrev pub is_foreign : Option Text → Bool
unfolding codes same_text
is_foreign none = false
is_foreign (some p) = not (
    same_text p (codes "startup")
    || (same_text p (codes "execution")
        || (same_text p (codes "completed") || same_text p (codes "failed"))))

-- The times of a phase file tell the phase of a timeout: code ran, or the startup ended.
abbrev ran : Option ℕ → Bool
ran none = false
ran (some n) = ltb 0 n

abbrev pub has_times : PhaseTiming → Bool
has_times t = ran t.execution_ms || is_some t.startup_ms

-- The error takes such a phase over: of a timeout, only if the times do not tell its phase.
abbrev pub is_refused : (late : Bool) → Option PhaseTiming → Bool
unfolding is_foreign
is_refused late none = false
is_refused late (some t) = (not late || not (has_times t)) && is_foreign t.phase_at_exit

-- A phase is read exactly if it is not foreign.
read_phase-cases :
    (p : Option Text)
    → ((is_foreign p ≡ true) × (read_phase p ≡ none))
      ⊎ ((is_foreign p ≡ false) × ((q : Option Phase) × (read_phase p ≡ some q)))
unfolding read_phase is_foreign
read_phase-cases none = inr (refl, (none, refl))
read_phase-cases (some p) =
    by_tests (same_text p (codes "startup")) (same_text p (codes "execution"))
      (same_text p (codes "completed")) (same_text p (codes "failed"))
  where
    by_tests :
        (a b c d : Bool)
        → ((not (a || (b || (c || d))) ≡ true)
            × ((if a
                  then some (some Phase.startup)
                  else if b
                  then some (some Phase.execution)
                  else if c
                  then some (some Phase.completed)
                  else if d
                  then some (some Phase.failed)
                  else none)
                ≡ none))
          ⊎ ((not (a || (b || (c || d))) ≡ false)
              × ((q : Option Phase) × ((if a
                      then some (some Phase.startup)
                      else if b
                      then some (some Phase.execution)
                      else if c
                      then some (some Phase.completed)
                      else if d
                      then some (some Phase.failed)
                      else none)
                    ≡ some q)))
    by_tests true b c d = inr (refl, (some Phase.startup, refl))
    by_tests false true c d = inr (refl, (some Phase.execution, refl))
    by_tests false false true d = inr (refl, (some Phase.completed, refl))
    by_tests false false false true = inr (refl, (some Phase.failed, refl))
    by_tests false false false false = inl (refl, refl)

module _ (texts : Texts) (t s : ℕ) (r : ContainerResult) (timing : Option PhaseTiming) where
  -- What becomes of a status with an error: the error of an exception, or the status with it.
  abbrev pub IsSettled : Bool → Status → Status × Option ExecutionError → Type 0
  IsSettled refused status o =
      ((refused ≡ true)
        × (o ≡ (
          Status.failed,
          some (record {
            type = ErrorType.internal_error;
            message = texts.invalid_phase;
            phase = none;
          }),
        )))
      ⊎ ((refused ≡ false)
          × ((e : ExecutionError) × (o ≡ (status, some e))
              × (is_code r.exit_code 0 ≡ false → is_known e.type ≡ true)))

  failure-IsSettled :
      (status : Status) (type : ErrorType) (message : String) (p : Option Text)
      → (is_code r.exit_code 0 ≡ false → is_known type ≡ true)
      → IsSettled (is_foreign p) status (settled texts (status, failure type message p))
  unfolding failure
  failure-IsSettled status type message p known = elim (read_phase-cases p) [
    | inl (foreign, unread) ↦ inl (foreign, rw (failure, unread) refl)
    | inr (own, (q, read)) ↦ inr (
      own,
      (record { type = type; message = message; phase = q }, rw (failure, read) refl, known),
    )
  ]

module _ (texts : Texts) (t s : ℕ) (r : ContainerResult) where
  late_known :
      (timing : Option PhaseTiming) (q : Phase)
      → (q ≡ Phase.startup) ⊎ (q ≡ Phase.execution)
      → IsSettled texts t s r timing false Status.timeout
          (settled texts (Status.timeout, timeout_error texts (some q) t s r timing))
  unfolding timeout_error is_foreign
  late_known timing q (inl e) = rw e (
      failure-IsSettled texts t s r timing Status.timeout ErrorType.startup_timeout _
        (some (codes "startup")) (λ nonzero. refl))
  late_known timing q (inr e) = rw e (
      failure-IsSettled texts t s r timing Status.timeout ErrorType.execution_timeout _
        (some (codes "execution")) (λ nonzero. refl))

  late_unknown :
      (timing : Option PhaseTiming) (p : Option Text)
      → phase_of timing ≡ p
      → IsSettled texts t s r timing
          (is_foreign p)
          Status.timeout
          (settled texts (Status.timeout, timeout_error texts none t s r timing))
  unfolding timeout_error
  late_unknown timing p e = rw e (
      failure-IsSettled texts t s r timing Status.timeout ErrorType.timeout
        (message_or r.error
          (String.◌++◌ "Execution exceeded time limit (" (String.◌++◌ (texts.shown t) "s)")))
        p (λ nonzero. refl))

  -- Where the times do not tell the phase, the file's own phase is asked.
  late_by_phase :
      (timing : Option PhaseTiming) (p : Option Text)
      → phase_of timing ≡ p
      → IsSettled texts t s r timing
          (is_foreign p)
          Status.timeout
          (settled texts (Status.timeout, timeout_error texts (exit_phase p) t s r timing))
  unfolding is_foreign exit_phase
  late_by_phase timing none e = late_unknown timing none e
  late_by_phase timing (some p) e =
      by_tests (same_text p (codes "startup")) (same_text p (codes "execution"))
        (late_unknown timing (some p) e)
    where
      by_tests :
          (a b : Bool)
          → IsSettled texts t s r timing
              (not (a || (b || (same_text p (codes "completed") || same_text p (codes "failed")))))
              Status.timeout
              (settled texts (Status.timeout, timeout_error texts none t s r timing))
          → IsSettled texts t s r timing
              (not (a || (b || (same_text p (codes "completed") || same_text p (codes "failed")))))
              Status.timeout
              (settled texts (
                Status.timeout,
                timeout_error texts
                    (if a then some Phase.startup else if b then some Phase.execution else none)
                    t
                    s
                    r
                    timing,
              ))
      by_tests true b h = late_known timing Phase.startup (inl refl)
      by_tests false true h = late_known timing Phase.execution (inr refl)
      by_tests false false h = h

  ran_lem : (o : Option ℕ) → is_positive o ≡ ran o
  ran_lem none = refl
  ran_lem (some n) = refl

  present_lem : (o : Option ℕ) → is_present o ≡ is_some o
  present_lem none = refl
  present_lem (some n) = refl

  pub timeout_error-IsSettled :
      (timing : Option PhaseTiming)
      → IsSettled texts t s r timing (is_refused true timing) Status.timeout (
          settled texts (
            Status.timeout,
            timeout_error texts (determine_timeout_phase timing true) t s r timing,
          ))
  unfolding determine_timeout_phase is_foreign
  timeout_error-IsSettled none = late_unknown none none refl
  timeout_error-IsSettled (some x) =
      rw (ran_lem x.execution_ms, present_lem x.startup_ms)
        (by_times (ran x.execution_ms) (is_some x.startup_ms))
    where
      by_times :
          (b c : Bool)
          → IsSettled texts t s r
              (some x)
              (not (b || c) && is_foreign x.phase_at_exit)
              Status.timeout
              (settled texts (
                Status.timeout,
                timeout_error texts
                    (if b
                      then some Phase.execution
                      else if c
                      then some Phase.startup
                      else exit_phase x.phase_at_exit)
                    t
                    s
                    r
                    (some x),
              ))
      by_times true c = late_known (some x) Phase.execution (inr refl)
      by_times false true = late_known (some x) Phase.startup (inl refl)
      by_times false false = late_by_phase (some x) x.phase_at_exit refl

  -- An error that takes the phase of the file.
  pub early-IsSettled :
      (timing : Option PhaseTiming) (status : Status) (type : ErrorType) (message : String)
      → (is_code r.exit_code 0 ≡ false → is_known type ≡ true)
      → IsSettled texts t s r timing
          (is_refused false timing)
          status
          (settled texts (status, failure type message (phase_of timing)))
  unfolding is_foreign
  early-IsSettled none status type message known =
      failure-IsSettled texts t s r none status type message none known
  early-IsSettled (some x) status type message known =
      failure-IsSettled texts t s r (some x) status type message x.phase_at_exit known

  pub failed_error-IsSettled :
      (timing : Option PhaseTiming)
      → IsSettled texts t s r timing
          (is_refused false timing)
          Status.failed
          (settled texts (Status.failed, failed_error texts r false (phase_of timing)))
  unfolding failed_error
  failed_error-IsSettled timing = by_flags r.infra_failure r.config_error
    where
      by_flags :
          (infra config : Bool)
          → IsSettled texts t s r timing (is_refused false timing) Status.failed (
              settled texts (
                Status.failed,
                failed_error texts
                    (record r { infra_failure = infra; config_error = config })
                    false
                    (phase_of timing),
              ))
      by_flags true config =
          early-IsSettled timing Status.failed ErrorType.service_unavailable _ (λ nonzero. refl)
      by_flags false true =
          early-IsSettled timing Status.failed ErrorType.config_error _ (λ nonzero. refl)
      by_flags false false = early-IsSettled timing Status.failed _ _ (
          classify_error_known texts.is_word texts.is_decimal texts.shown_int texts.sanitize_error
            r.exit_code r.stderr false)
