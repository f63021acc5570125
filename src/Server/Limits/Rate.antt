-- ===== src/Server/Limits/Rate.antt =====
-- tako_vm/server/limits.py: how many requests of a client the limiter lets through.
use tako_vm.Prelude.{
  occurs, occurs-put, ℕ, ◌+◌, ◌*◌, ◌≤◌, ◌<◌, String, Option, none, some, List, [], ◌∷◌, ◌≡◌, refl,
  sym, ap, ◌∙◌, arith, if◌then◌else◌, str_eq, eq_iff, get, put, get-put, Bool-cases, Option-cases,
  All, inl, inr,
}
use tako_vm.Server.Limits.{
  Bucket, FixedWindowRateLimiter, nanoseconds, stored_bucket, next_bucket, allow, new_limiter,
  after_requests, allowed_requests, one,
}
use tako_vm.Server.Limits.Window.{
  IsDict, cleanup_if_needed-IsDict, get-cleanup_if_needed, cleanup_if_needed-settings, budget,
  budget-next_bucket, budget-fresh_bucket,
}

module _ (key : String) (now : ℕ) (l : FixedWindowRateLimiter) (unique : IsDict l) where
  abbrev counted : FixedWindowRateLimiter
  counted = record l {
    buckets =
        put l.buckets key
          (next_bucket (nanoseconds l.window_seconds) (stored_bucket (get l.buckets key) now) now);
  }

  counted-IsDict : IsDict counted
  counted-IsDict k = ground (
    arith,
    occurs-put l.buckets key k
        (next_bucket (nanoseconds l.window_seconds) (stored_bucket (get l.buckets key) now) now),
    unique k,
  )

  pub allow-IsDict : IsDict (allow key now l).1
  unfolding allow
  allow-IsDict = cleanup_if_needed-IsDict now counted counted-IsDict

  pub allow-settings :
      ((allow key now l).1.max_requests ≡ l.max_requests)
      × ((allow key now l).1.window_seconds ≡ l.window_seconds)
  unfolding allow
  allow-settings = cleanup_if_needed-settings now counted counted-IsDict

  module _ (from : ℕ) (later : from ≤ now) (inside : now < from + nanoseconds l.window_seconds)
      (k : String) where
    budget-counted :
        budget l.max_requests from (get counted.buckets k)
          + (if str_eq key k then one (allow key now l).0.0 else 0)
        ≤ budget l.max_requests from (get l.buckets k)
    unfolding allow
    budget-counted = elim (Bool-cases (str_eq key k)) [
      | inl same ↦
          let e : get l.buckets k ≡ get l.buckets key =
            ap (get l.buckets) (sym ((eq_iff key k).0 same)) in
          rw (get-put, same, e)
            (budget-next_bucket l.max_requests (nanoseconds l.window_seconds) from now later inside
              (get l.buckets key))
      | inr other ↦ rw (counted, get-put, other) (omega arith)
    ]

    budget-allow :
        budget l.max_requests from (get (allow key now l).1.buckets k)
          + (if str_eq key k then one (allow key now l).0.0 else 0)
        ≤ budget l.max_requests from (get l.buckets k)
    unfolding allow
    budget-allow = elim (get-cleanup_if_needed now counted counted-IsDict k) [
      | inl same ↦ rw same budget-counted
      | inr fresh ↦ rw fresh (
          omega (
            arith,
            budget-counted,
            budget-fresh_bucket l.max_requests (nanoseconds l.window_seconds) from now later inside
                (get counted.buckets k),
          ))
    ]

-- Requests at times of an interval that is one window long.
abbrev pub IsIn : ℕ → ℕ → (String × ℕ) → Type 0
IsIn window from r = (from ≤ r.1) × (r.1 < from + window)

budget-allowed_requests :
    (k : String) (from : ℕ) (rs : List (String × ℕ)) (l : FixedWindowRateLimiter)
    → IsDict l
    → All (IsIn (nanoseconds l.window_seconds) from) rs
    → allowed_requests k rs l ≤ budget l.max_requests from (get l.buckets k)
unfolding allowed_requests
budget-allowed_requests k from [] l unique within = omega arith
budget-allowed_requests k from ((key, now) ∷ rs) l unique within =
    let next = allow key now l in
    let settings = allow-settings key now l unique in
    let rest =
      budget-allowed_requests k from rs next.1 (allow-IsDict key now l unique)
        (rw settings.1 within.1) in
    let first = budget-allow key now l unique from within.0.0 within.0.1 k in
    omega (arith, rw settings.0 at rest, first)

after_requests-IsDict :
    (rs : List (String × ℕ)) (l : FixedWindowRateLimiter)
    → IsDict l
    → (IsDict (after_requests rs l))
      × ((after_requests rs l).max_requests ≡ l.max_requests)
      × ((after_requests rs l).window_seconds ≡ l.window_seconds)
unfolding after_requests
after_requests-IsDict [] l unique = (unique, refl, refl)
after_requests-IsDict ((key, now) ∷ rs) l unique =
    let settings = allow-settings key now l unique in
    let rest = after_requests-IsDict rs _ (allow-IsDict key now l unique) in
    (rest.0, rest.1 ∙ settings.0, rest.2 ∙ settings.1)

budget-double : (m from : ℕ) (o : Option Bucket) → budget m from o ≤ 2 * m
budget-double m from none = omega arith
budget-double m from (some b) = ground arith

-- After any earlier requests to a new limiter, of any requests whose times lie in one interval of
-- the window's length the limiter allows at most twice max_requests of one client.
pub allowed_requests-bound :
    (k : String) (m w start from : ℕ) (earlier rs : List (String × ℕ))
    → All (IsIn (nanoseconds w) from) rs
    → allowed_requests k rs (after_requests earlier (new_limiter m w start)) ≤ 2 * m
unfolding new_limiter occurs allowed_requests after_requests
allowed_requests-bound k m w start from earlier rs within =
    let before = after_requests-IsDict earlier (new_limiter m w start) (λ j. ground arith) in
    let l = after_requests earlier (new_limiter m w start) in
    let bound = budget-allowed_requests k from rs l before.0 (rw before.2 within) in
    omega (arith, rw before.1 at bound, budget-double m from (get l.buckets k))

-- The count of a key's bucket, 0 where it has none.
abbrev count_of : Option Bucket → ℕ
count_of none = 0
count_of (some b) = b.count

module _ (key : String) (now : ℕ) (l : FixedWindowRateLimiter) (unique : IsDict l)
    (k : String) where
  count-counted :
      count_of (get (counted key now l unique).buckets k)
      ≤ count_of (get l.buckets k) + (if str_eq key k then 1 else 0)
  count-counted = elim (Bool-cases (str_eq key k)) [
    | inl same ↦
        let e : get l.buckets k ≡ get l.buckets key =
          ap (get l.buckets) (sym ((eq_iff key k).0 same)) in
        elim (Option-cases (get l.buckets key)) [
          | inl none_ ↦ rw (get-put, same, e, none_) (ground arith)
          | inr (b, some_) ↦ rw (get-put, same, e, some_) (ground arith)
        ]
    | inr other ↦ rw (get-put, other) (omega arith)
  ]
