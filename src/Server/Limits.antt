-- ===== src/Server/Limits.antt =====
-- tako_vm/server/limits.py: the rate limiter, and the order of the checks of a request.
-- A time is a number of nanoseconds of the monotonic clock.
use tako_vm.Prelude.{
  ℕ, suc, ◌+◌, ◌-◌, ◌*◌, ◌/◌, String, Option, none, some, Bool, true, false, not, ◌&&◌, ◌||◌, List,
  [], ◌∷◌, ltb, leb, ◌==◌, max, if◌then◌else◌, str_eq, Dict, get, put,
}
pub mod Window
pub mod Rate
pub mod Dispatch
pub mod Headers
pub mod Access

pub record Bucket : Type 0 where
  pub window_start : ℕ
  pub count : ℕ

pub record FixedWindowRateLimiter : Type 0 where
  pub max_requests : ℕ
  pub window_seconds : ℕ
  pub buckets : Dict Bucket
  pub last_cleanup : ℕ

unfoldable pub new_limiter : ℕ → ℕ → ℕ → FixedWindowRateLimiter
new_limiter max_requests window_seconds now = record {
  max_requests = max_requests;
  window_seconds = window_seconds;
  buckets = [];
  last_cleanup = now;
}

-- A number of seconds in nanoseconds, and `math.ceil` of a number of nanoseconds in seconds.
unfoldable pub nanoseconds : ℕ → ℕ
nanoseconds s = s * 1000000000

abbrev ceil_seconds : ℕ → ℕ
ceil_seconds n = (n + 999999999) / 1000000000

-- `{key: value for ... if value[0] >= cutoff}` for the cutoff `now - 2 * window`, maybe negative.
unfoldable pub evict : ℕ → ℕ → Dict Bucket → Dict Bucket
evict window now [] = []
evict window now ((k, b) ∷ d) =
    let rest = evict window now d in
    if leb now (b.window_start + 2 * window) then (k, b) ∷ rest else rest

unfoldable pub cleanup_if_needed : ℕ → FixedWindowRateLimiter → FixedWindowRateLimiter
unfolding evict nanoseconds
cleanup_if_needed now l =
    if ltb now (l.last_cleanup + nanoseconds l.window_seconds) then l else record l {
      buckets = evict (nanoseconds l.window_seconds) now l.buckets;
      last_cleanup = now;
    }

abbrev pub stored_bucket : Option Bucket → ℕ → Bucket
stored_bucket none now = record { window_start = now; count = 0 }
stored_bucket (some b) now = b

-- The bucket after a request at `now`: a new window where the old one is over.
abbrev pub next_bucket : ℕ → Bucket → ℕ → Bucket
next_bucket window b now =
    if leb (b.window_start + window) now
    then record { window_start = now; count = 1 }
    else record { window_start = b.window_start; count = suc b.count }

abbrev pub answer : ℕ → ℕ → Bucket → ℕ → Bool × ℕ
answer max_requests window b now =
    if leb b.count max_requests
    then (true, 0)
    else (false, max 1 (ceil_seconds (window - (now - b.window_start))))

unfoldable pub allow : String → ℕ → FixedWindowRateLimiter → (Bool × ℕ) × FixedWindowRateLimiter
unfolding nanoseconds cleanup_if_needed
allow key now l =
    let window = nanoseconds l.window_seconds in
    let b = next_bucket window (stored_bucket (get l.buckets key) now) now in
    (
      answer l.max_requests window b now,
      cleanup_if_needed now (record l { buckets = put l.buckets key b }),
    )

-- The limiter after a sequence of requests, of keys at times, and how many of a key's it allowed.
unfoldable pub after_requests : List (String × ℕ) → FixedWindowRateLimiter → FixedWindowRateLimiter
after_requests [] l = l
after_requests ((key, now) ∷ rs) l = after_requests rs (allow key now l).1

abbrev pub one : Bool → ℕ
one true = 1
one false = 0

unfoldable pub allowed_requests : String → List (String × ℕ) → FixedWindowRateLimiter → ℕ
allowed_requests k [] l = 0
allowed_requests k ((key, now) ∷ rs) l =
    (if str_eq key k then one (allow key now l).0.0 else 0)
    + allowed_requests k rs (allow key now l).1

unfoldable pub requests_of : String → List (String × ℕ) → ℕ
requests_of k [] = 0
requests_of k ((key, now) ∷ rs) = (if str_eq key k then 1 else 0) + requests_of k rs

-- An ASGI message of the request's side: the size of its body, and `more_body`.
pub data Message : Type 0 where
  request : ℕ → Bool → Message
  disconnect : Message

-- What reading the body comes to: the messages, PayloadTooLargeError, or a wait without end where
-- the client sends no more.
pub data Body : Type 0 where
  buffered : List Message → Body
  too_large : Body
  stalled : Body

abbrev pub keep : Message → Body → Body
keep m (buffered ms) = buffered (m ∷ ms)
keep m too_large = too_large
keep m stalled = stalled

-- The loop, with the bytes seen so far, over the messages that `receive` gives.
unfoldable pub buffer_body : ℕ → ℕ → List Message → Body
buffer_body limit seen [] = stalled
buffer_body limit seen (disconnect ∷ ms) = buffered (disconnect ∷ [])
buffer_body limit seen (request size more ∷ ms) =
    let rest = buffer_body limit (seen + size) ms in
    if ltb limit (seen + size)
    then too_large
    else if more
    then keep (request size more) rest
    else buffered (request size more ∷ [])

unfoldable pub buffer_and_validate_body : ℕ → List Message → Body
unfolding buffer_body
buffer_and_validate_body limit ms = buffer_body limit 0 ms

-- The settings of TakoVMConfig that the middleware reads.
pub record Config : Type 0 where
  pub api_auth_enabled : Bool
  pub api_rate_limit_enabled : Bool
  pub api_rate_limit_requests : ℕ
  pub api_rate_limit_window_seconds : ℕ
  pub api_max_payload_bytes : ℕ

-- A request: what the scope tells of it, and the messages of its body. The identity is the result
-- of _authenticate_request, the length that of _get_content_length.
pub record Request : Type 0 where
  pub exempt : Bool
  pub identity : Option String
  pub client_host : Option String
  pub content_length : Option ℕ
  pub messages : List Message

pub record Middleware : Type 0 where
  pub rate_limiter : Option FixedWindowRateLimiter
  pub limiter_settings : Option (ℕ × ℕ)

pub data Response : Type 0 where
  -- 429 with its Retry-After, 401, 413
  rate_limited : ℕ → Response
  unauthorized payload_too_large : Response
  -- the application runs, on the messages that were read
  passed : List Message → Response
  waiting : Response

abbrev same_settings : Option (ℕ × ℕ) → ℕ → ℕ → Bool
same_settings none a b = false
same_settings (some (x, y)) a b = x == a && y == b

-- _get_rate_limiter: the limiter is kept while the settings stay.
abbrev pub kept_limiter :
    Option FixedWindowRateLimiter → Bool → FixedWindowRateLimiter → FixedWindowRateLimiter
kept_limiter none same new = new
kept_limiter (some l) same new = if same then l else new

unfoldable pub get_rate_limiter : Config → ℕ → Middleware → FixedWindowRateLimiter
unfolding new_limiter
get_rate_limiter c now m =
    kept_limiter m.rate_limiter
      (same_settings m.limiter_settings c.api_rate_limit_requests c.api_rate_limit_window_seconds)
      (new_limiter c.api_rate_limit_requests c.api_rate_limit_window_seconds now)

abbrev named : Option String → String → String
named none d = d
named (some s) d = if str_eq s "" then d else s

-- _get_client_identifier
unfoldable pub get_client_identifier : Option String → Option String → String
get_client_identifier identity host = named identity (named host "unknown")

abbrev is_none : Option String → Bool
is_none none = true
is_none (some s) = false

abbrev pub is_over : Option ℕ → ℕ → Bool
is_over none limit = false
is_over (some n) limit = ltb limit n

abbrev pub body_response : Body → Response
body_response (buffered ms) = passed ms
body_response too_large = payload_too_large
body_response stalled = waiting

-- The checks after the rate limiter's.
unfoldable pub check_request : Config → Bool → Option String → Request → Response
unfolding buffer_and_validate_body
check_request c auth_required identity r =
    if auth_required && is_none identity
    then unauthorized
    else if is_over r.content_length c.api_max_payload_bytes
    then payload_too_large
    else body_response (buffer_and_validate_body c.api_max_payload_bytes r.messages)

abbrev required_identity : Bool → Option String → Option String
required_identity auth_required identity = if auth_required then identity else none

unfoldable pub dispatch : Config → ℕ → Request → Middleware → Response × Middleware
unfolding check_request get_rate_limiter get_client_identifier allow
dispatch c now r m =
    let auth_required = c.api_auth_enabled && not r.exempt in
    let identity = required_identity auth_required r.identity in
    let limiter = get_rate_limiter c now m in
    let allowed = allow (get_client_identifier identity r.client_host) now limiter in
    let checked = check_request c auth_required identity r in
    if c.api_rate_limit_enabled && not r.exempt
    then (
      if allowed.0.0 then checked else rate_limited allowed.0.1,
      record {
        rate_limiter = some allowed.1;
        limiter_settings = some (c.api_rate_limit_requests, c.api_rate_limit_window_seconds);
      },
    )
    else (checked, m)
