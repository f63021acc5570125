-- ===== src/Server/Limits/Window.antt =====
-- tako_vm/server/limits.py: what the fixed window of the rate limiter guarantees over time.
use tako_vm.Prelude.{
  occurs, ℕ, ◌+◌, ◌-◌, ◌*◌, ◌≤◌, ◌<◌, String, Option, none, some, [], ◌∷◌, ◌≡◌, refl, arith, ltb,
  leb, if◌then◌else◌, str_eq, Dict, get, Bool-cases, ◌⊎◌, inl, inr,
}
use tako_vm.Server.Limits.{
  Bucket, FixedWindowRateLimiter, nanoseconds, evict, cleanup_if_needed, stored_bucket, next_bucket,
  answer, one,
}

abbrev pub fresh_bucket : ℕ → ℕ → Option Bucket → Option Bucket
fresh_bucket window now none = none
fresh_bucket window now (some b) = if leb now (b.window_start + 2 * window) then some b else none

module _ (window now : ℕ) where
  absent-evict :
      (d : Dict Bucket) (k : String)
      → occurs k d ≡ 0
      → (get d k ≡ none) × (get (evict window now d) k ≡ none)
  unfolding get evict occurs
  absent-evict [] k e = (refl, refl)
  absent-evict ((j, b) ∷ d) k e = ground (arith, e, absent-evict d k)

  get-evict :
      (d : Dict Bucket) (k : String)
      → occurs k d ≤ 1
      → get (evict window now d) k ≡ fresh_bucket window now (get d k)
  unfolding get evict occurs
  get-evict [] k e = refl
  get-evict ((j, b) ∷ d) k e = elim (Bool-cases (str_eq j k)) [
    | inl same ↦
        let gone = absent-evict d k (omega (arith, rw same at e)) in
        elim (Bool-cases (leb now (b.window_start + 2 * window))) [
          | inl young ↦ rw (young, same, young) refl
          | inr old ↦ rw (old, same, old) gone.1
        ]
    | inr other ↦
        let rest = get-evict d k (omega (arith, rw other at e)) in
        elim (Bool-cases (leb now (b.window_start + 2 * window))) [
          | inl young ↦ rw (young, other) rest
          | inr old ↦ rw (old, other) rest
        ]
  ]

  occurs-evict : (d : Dict Bucket) (k : String) → occurs k (evict window now d) ≤ occurs k d
  unfolding evict occurs
  occurs-evict [] k = omega arith
  occurs-evict ((j, b) ∷ d) k = ground (arith, occurs-evict d k)

-- A dictionary: no key twice.
abbrev pub IsDict : FixedWindowRateLimiter → Type 0
IsDict l = (k : String) → occurs k l.buckets ≤ 1

module _ (now : ℕ) (l : FixedWindowRateLimiter) (unique : IsDict l) where
  pub cleanup_if_needed-IsDict : IsDict (cleanup_if_needed now l)
  unfolding cleanup_if_needed
  cleanup_if_needed-IsDict k =
      ground (arith, unique k, occurs-evict (nanoseconds l.window_seconds) now l.buckets k)

  -- The cleanup drops no bucket whose window still runs.
  pub get-cleanup_if_needed :
      (k : String)
      → (get (cleanup_if_needed now l).buckets k ≡ get l.buckets k)
        ⊎ (get (cleanup_if_needed now l).buckets k
            ≡ fresh_bucket (nanoseconds l.window_seconds) now (get l.buckets k))
  unfolding cleanup_if_needed
  get-cleanup_if_needed k =
      elim (Bool-cases (ltb now (l.last_cleanup + nanoseconds l.window_seconds))) [
        | inl early ↦ rw early (inl refl)
        | inr late ↦
            rw late (inr (get-evict (nanoseconds l.window_seconds) now l.buckets k (unique k)))
      ]

  pub cleanup_if_needed-settings :
      ((cleanup_if_needed now l).max_requests ≡ l.max_requests)
      × ((cleanup_if_needed now l).window_seconds ≡ l.window_seconds)
  unfolding cleanup_if_needed
  cleanup_if_needed-settings = ground arith

-- The requests that a key may still pass before the window's end, seen from the start of an
-- interval: those of the running window, and a whole window if that began before the interval.
abbrev pub budget : ℕ → ℕ → Option Bucket → ℕ
budget max_requests from none = max_requests
budget max_requests from (some b) =
    (max_requests - b.count) + (if ltb b.window_start from then max_requests else 0)

module _ (m window from now : ℕ) (later : from ≤ now) (inside : now < from + window) where
  pub budget-next_bucket :
      (o : Option Bucket)
      → budget m from (some (next_bucket window (stored_bucket o now) now))
          + one (answer m window (next_bucket window (stored_bucket o now) now) now).0
        ≤ budget m from o
  budget-next_bucket none = ground (arith, later, inside)
  budget-next_bucket (some b) = ground (arith, later, inside)

  pub budget-fresh_bucket :
      (o : Option Bucket) → budget m from (fresh_bucket window now o) ≤ budget m from o
  budget-fresh_bucket none = omega arith
  budget-fresh_bucket (some b) = ground (arith, later, inside)
