-- ===== src/Server/Limits/Dispatch.antt =====
-- tako_vm/server/limits.py: what a request that reaches the application has passed.
use tako_vm.Prelude.{
  ℕ, ◌+◌, ◌≤◌, ◌<◌, String, Option, none, some, Bool, true, false, not, ◌&&◌, List, [], ◌∷◌, ◌++◌,
  ◌≡◌, refl, ap, arith, ltb, Bool-cases, is_some, inl, inr,
}
use tako_vm.Server.Limits.{
  Message, request, disconnect, Body, buffered, too_large, stalled, buffer_body,
  buffer_and_validate_body, Config, Request, Middleware, Response, passed, get_rate_limiter,
  get_client_identifier, allow, check_request, dispatch, required_identity, is_over, keep,
  body_response,
}

-- The bytes of the bodies of a sequence of messages.
unfoldable pub total_size : List Message → ℕ
total_size [] = 0
total_size (request size more ∷ ms) = size + total_size ms
total_size (disconnect ∷ ms) = total_size ms

-- The body ends at the last message and at no earlier one.
unfoldable pub is_complete : List Message → Bool
is_complete [] = false
is_complete (request size true ∷ ms) = is_complete ms
is_complete (request size false ∷ []) = true
is_complete (request size false ∷ m ∷ ms) = false
is_complete (disconnect ∷ []) = true
is_complete (disconnect ∷ m ∷ ms) = false

-- What was read of the messages that a client sends.
abbrev pub IsRead : ℕ → ℕ → List Message → Body → Type 0
IsRead limit seen sent (buffered ms) =
    (is_complete ms ≡ true)
    × (seen + total_size ms ≤ limit)
    × ((rest : List Message) × (ms ++ rest ≡ sent))
IsRead limit seen sent too_large = limit < seen + total_size sent
IsRead limit seen sent stalled = is_complete sent ≡ false

keep-IsRead :
    (limit seen size : ℕ) (sent : List Message) (b : Body)
    → IsRead limit (seen + size) sent b
    → IsRead limit seen (request size true ∷ sent) (keep (request size true) b)
unfolding total_size is_complete
keep-IsRead limit seen size sent (buffered ms) r =
    (r.0, omega (arith, r.1), (r.2.0, ap (◌∷◌ (request size true)) r.2.1))
keep-IsRead limit seen size sent too_large r = omega (arith, r)
keep-IsRead limit seen size sent stalled r = r

buffer_body-IsRead :
    (limit seen : ℕ) (sent : List Message)
    → seen ≤ limit
    → IsRead limit seen sent (buffer_body limit seen sent)
unfolding buffer_body total_size is_complete
buffer_body-IsRead limit seen [] le = refl
buffer_body-IsRead limit seen (disconnect ∷ ms) le = (refl, omega arith, (ms, refl))
buffer_body-IsRead limit seen (request size true ∷ ms) le =
    elim (Bool-cases (ltb limit (seen + size))) [
      | inl over ↦ rw over (ground (arith, over))
      | inr fits ↦ rw fits (
          keep-IsRead limit seen size ms _
            (buffer_body-IsRead limit (seen + size) ms (ground (arith, fits))))
    ]
buffer_body-IsRead limit seen (request size false ∷ ms) le =
    elim (Bool-cases (ltb limit (seen + size))) [
      | inl over ↦ rw over (ground (arith, over))
      | inr fits ↦ rw fits (refl, ground (arith, fits), (ms, refl))
    ]

-- Reading a body within a limit gives the sent messages up to the one that ends the body, with at
-- most that many bytes; or it is refused, and then the bytes sent exceed the limit; or it waits,
-- and then no sent message ends the body at their end.
pub buffer_and_validate_body_lem :
    (limit : ℕ) (sent : List Message) → IsRead limit 0 sent (buffer_and_validate_body limit sent)
unfolding buffer_and_validate_body
buffer_and_validate_body_lem limit sent = buffer_body-IsRead limit 0 sent (omega arith)

-- What holds of a request that reaches the application.
pub record IsAdmitted (c : Config) (now : ℕ) (r : Request) (m : Middleware) (ms : List Message)
    : Type 0 where
  pub authenticated : (c.api_auth_enabled && not r.exempt) ≡ true → is_some r.identity ≡ true
  pub within_rate :
      (c.api_rate_limit_enabled && not r.exempt) ≡ true
      → (allow
          (get_client_identifier
            (required_identity (c.api_auth_enabled && not r.exempt) r.identity)
            r.client_host)
          now
          (get_rate_limiter c now m)).0.0
        ≡ true
  pub announced : is_over r.content_length c.api_max_payload_bytes ≡ false
  pub size : total_size ms ≤ c.api_max_payload_bytes
  pub body : (rest : List Message) × (ms ++ rest ≡ r.messages)

abbrev messages_of : Response → List Message
messages_of (passed ms) = ms
messages_of _ = []

passed-body_response :
    (b : Body) (ms : List Message) → body_response b ≡ passed ms → b ≡ buffered ms
passed-body_response (buffered xs) ms h = ap (λ r. buffered (messages_of r)) h
passed-body_response too_large ms h = absurd (ground arith)
passed-body_response stalled ms h = absurd (ground arith)

passed-check :
    (c : Config) (auth : Bool) (identity : Option String) (r : Request) (ms : List Message)
    → check_request c auth (required_identity auth identity) r ≡ passed ms
    → (auth ≡ true → is_some identity ≡ true)
      × (is_over r.content_length c.api_max_payload_bytes ≡ false)
      × (buffer_and_validate_body c.api_max_payload_bytes r.messages ≡ buffered ms)
unfolding check_request
passed-check c true none r ms h = absurd (ground arith)
passed-check c true (some who) r ms h =
    elim (Bool-cases (is_over r.content_length c.api_max_payload_bytes)) [
      | inl over ↦ absurd (ground (arith, rw over at h))
      | inr fits ↦ (λ e. refl, fits, passed-body_response _ ms (rw fits at h))
    ]
passed-check c false identity r ms h =
    elim (Bool-cases (is_over r.content_length c.api_max_payload_bytes)) [
      | inl over ↦ absurd (ground (arith, rw over at h))
      | inr fits ↦ (λ e. absurd (ground (arith, e)), fits, passed-body_response _ ms (rw fits at h))
    ]

-- The middleware's settings of one request.
module _ (c : Config) (now : ℕ) (r : Request) (m : Middleware) where
  abbrev auth_required : Bool
  auth_required = c.api_auth_enabled && not r.exempt

  abbrev rate_limited_path : Bool
  rate_limited_path = c.api_rate_limit_enabled && not r.exempt

  abbrev pub is_allowed : Bool
  is_allowed =
      (allow (get_client_identifier (required_identity auth_required r.identity) r.client_host) now
        (get_rate_limiter c now m)).0.0

  passed-dispatch :
      (ms : List Message)
      → (dispatch c now r m).0 ≡ passed ms
      → (check_request c auth_required (required_identity auth_required r.identity) r ≡ passed ms)
        × (rate_limited_path ≡ true → is_allowed ≡ true)
  unfolding dispatch
  passed-dispatch ms h = elim (Bool-cases rate_limited_path) [
    | inl on ↦ elim (Bool-cases is_allowed) [
      | inl ok ↦ (rw (on, ok) at h, λ e. ok)
      | inr refused ↦ absurd (ground (arith, rw (on, refused) at h))
    ]
    | inr off ↦ (rw off at h, λ e. absurd (ground (arith, e, off)))
  ]

-- If the middleware passes a request on, then where the path requires authentication the request
-- has an identity, where it is rate-limited the limiter allowed it, its announced length and the
-- bytes of the messages passed are within the payload limit, and those messages are the first that
-- the client sent.
pub dispatch-IsAdmitted :
    (c : Config) (now : ℕ) (r : Request) (m : Middleware) (ms : List Message)
    → (dispatch c now r m).0 ≡ passed ms
    → IsAdmitted c now r m ms
dispatch-IsAdmitted c now r m ms h =
    let way = passed-dispatch c now r m ms h in
    let checked = passed-check c (auth_required c now r m) r.identity r ms way.0 in
    let read : IsRead c.api_max_payload_bytes 0 r.messages (buffered ms) =
      rw checked.2 at (buffer_and_validate_body_lem c.api_max_payload_bytes r.messages) in
    record {
      authenticated = checked.0;
      within_rate = way.1;
      announced = checked.1;
      size = omega (arith, read.1);
      body = read.2;
    }
