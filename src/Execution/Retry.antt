-- ===== src/Execution/Retry.antt =====
-- tako_vm/execution/retry.py: the backoff, and the context that counts attempts. A delay is a number
-- of nanoseconds; `jitter_factor` is a percentage, `exponential_base` a whole number.
use tako_vm.Prelude.{
  ℕ, suc, ◌+◌, ◌-◌, ◌*◌, ◌/◌, ◌^◌, min, Option, none, some, Bool, ◌&&◌, ◌||◌, List, [], ◌∷◌, ltb,
  if◌then◌else◌,
}
use tako_vm.Security.{Text}
use tako_vm.Texts.{codes, contains_any, lower}

pub record RetryConfig : Type 0 where
  pub max_attempts : ℕ
  pub base_delay : ℕ
  pub max_delay : ℕ
  pub exponential_base : ℕ
  pub jitter : Bool
  pub jitter_factor : ℕ

abbrev pub capped_delay : ℕ → RetryConfig → ℕ
capped_delay attempt c = min (c.base_delay * c.exponential_base ^ attempt) c.max_delay

abbrev pub jitter_range : ℕ → RetryConfig → ℕ
jitter_range attempt c = capped_delay attempt c * c.jitter_factor / 100

-- `draw` is how far random.uniform(-range, range) lies above -range; subtraction stops at 0 as max
-- does.
unfoldable pub calculate_delay : ℕ → RetryConfig → ℕ → ℕ
calculate_delay draw c attempt =
    if c.jitter
    then (capped_delay attempt c + draw) - jitter_range attempt c
    else capped_delay attempt c

-- TRANSIENT_ERROR_MESSAGES
unfoldable pub transient_error_messages : List Text
unfolding codes
transient_error_messages =
    codes "connection refused"
    ∷ codes "connection reset"
    ∷ codes "connection timed out"
    ∷ codes "temporary failure"
    ∷ codes "service unavailable"
    ∷ codes "resource temporarily unavailable"
    ∷ codes "too many requests"
    ∷ codes "rate limit"
    ∷ codes "docker daemon"
    ∷ codes "cannot connect to docker"
    ∷ codes "no space left on device"
    ∷ []

unfoldable pub transient_types : List Text
unfolding codes
transient_types = codes "timeouterror" ∷ codes "connectionerror" ∷ codes "oserror" ∷ []

-- An exception: its text and the name of its type.
pub record Failure : Type 0 where
  pub text : Text
  pub type_name : Text

unfoldable pub is_transient_error : Failure → Bool
unfolding contains_any transient_error_messages transient_types lower
is_transient_error e =
    contains_any transient_error_messages (lower e.text)
    || contains_any transient_types (lower e.type_name)

pub record RetryContext : Type 0 where
  pub config : RetryConfig
  pub attempt : ℕ
  pub last_error : Option Failure
  -- the delays slept so far, the last one first
  pub slept : List ℕ

unfoldable pub should_retry : RetryContext → Bool
should_retry r = ltb r.attempt r.config.max_attempts

unfoldable pub record_failure : ℕ → Failure → RetryContext → RetryContext
unfolding should_retry calculate_delay is_transient_error
record_failure draw e r =
    let next = record r { last_error = some e; attempt = suc r.attempt } in
    if should_retry next && is_transient_error e
    then record next { slept = calculate_delay draw r.config r.attempt ∷ r.slept }
    else next

unfoldable pub new_context : RetryConfig → RetryContext
new_context c = record { config = c; attempt = 0; last_error = none; slept = [] }

-- Failures in a row, from a context.
unfoldable pub record_failures : List (ℕ × Failure) → RetryContext → RetryContext
unfolding record_failure
record_failures [] r = r
record_failures ((draw, e) ∷ es) r = record_failures es (record_failure draw e r)
