-- ===== src/Examples/Requests.antt =====
-- tako_vm/server/limits.py and tako_vm/security.py: requests, and a requirement.
use tako_vm.Prelude.{
  IsAmong, get_elem?, length, inr, ℕ, String, none, some, true, false, List, [], ◌∷◌, ◌≡◌, refl,
  get, ◌≤◌, ◌*◌, arith,
}
use tako_vm.Server.Limits.{
  new_limiter, nanoseconds, after_requests, allowed_requests, Message, request, Config, Middleware,
  dispatch,
}
use tako_vm.Server.Limits.Rate.{allowed_requests-bound}
use tako_vm.Server.Limits.Dispatch.{IsAdmitted}
use tako_vm.Server.Limits.Headers.{
  Header, Scope, request_of, authenticate_request, validate_api_keys,
}
use tako_vm.Server.Limits.Headers.Keys.{Presents}
use tako_vm.Server.Limits.Access.{AccessConfig, host_is_loopback, ensure_bind_host_allowed}
use tako_vm.Server.Limits.Access.Protected.{dispatch-IsProtected}
use tako_vm.Server.Limits.Headers.Accepted.{authenticate_request-accepted}
use tako_vm.Security.{Text}
use tako_vm.Texts.{lower}
use tako_vm.Security.Requirement.{validate_pip_requirement}

abbrev three : List (String × ℕ)
three = ("k", 10) ∷ ("k", 20) ∷ ("k", 30) ∷ []

allowed_requests-bound_example :
    allowed_requests "k" three (after_requests (("k", 5) ∷ []) (new_limiter 1 60 0)) ≤ 2 * 1
unfolding nanoseconds
allowed_requests-bound_example =
    allowed_requests-bound "k" 1 60 0 10 (("k", 5) ∷ []) three
      ((omega arith, omega arith), ((omega arith, omega arith), ((omega arith, omega arith), tt)))

abbrev body : List Message
body = request 3 true ∷ request 4 false ∷ []

abbrev config : Config
config = record {
  api_auth_enabled = true;
  api_rate_limit_enabled = true;
  api_rate_limit_requests = 5;
  api_rate_limit_window_seconds = 60;
  api_max_payload_bytes = 10;
}

-- "X-Key" and "x-key"
abbrev header : Text
header = 88 ∷ 45 ∷ 75 ∷ 101 ∷ 121 ∷ []

abbrev small : Text
small = 120 ∷ 45 ∷ 107 ∷ 101 ∷ 121 ∷ []

-- Sixteen times "k".
abbrev secret : Text
secret =
    107 ∷ 107 ∷ 107 ∷ 107 ∷ 107 ∷ 107 ∷ 107 ∷ 107 ∷ 107 ∷ 107 ∷ 107 ∷ 107 ∷ 107 ∷ 107 ∷ 107 ∷ 107
    ∷ []

abbrev key_header : Header
key_header = record { name = small; value = some secret }

-- A request for "/jobs".
abbrev scope : Scope
scope = record {
  path = 47 ∷ 106 ∷ 111 ∷ 98 ∷ 115 ∷ [];
  headers = key_header ∷ [];
  client_host = some "10.0.0.1";
  messages = body;
}

abbrev identity : ℕ → String
identity i = "api_key:0"

abbrev fresh_middleware : Middleware
fresh_middleware = record { rate_limiter = none; limiter_settings = none }

-- A server on every interface, "0.0.0.0".
abbrev host : Text
host = 48 ∷ 46 ∷ 48 ∷ 46 ∷ 48 ∷ 46 ∷ 48 ∷ []

abbrev access : AccessConfig
access = record {
  server_host = host;
  allow_unauthenticated_network_access = false;
  api_keys = secret ∷ [];
  api_auth_header = header;
  protection = config;
}

dispatch-IsProtected_example :
    IsAdmitted config 100 (request_of identity header (secret ∷ []) scope) fresh_middleware body
    × ((i : ℕ) × (key : Text) × (h : Header) × ((request_of identity header
            (secret ∷ [])
            scope).identity
          ≡ some (identity i))
        × (get_elem? (secret ∷ []) i ≡ some key)
        × (16 ≤ length key)
        × IsAmong h (key_header ∷ [])
        × Presents header h key)
unfolding dispatch request_of get validate_api_keys ensure_bind_host_allowed host_is_loopback
dispatch-IsProtected_example =
    dispatch-IsProtected identity access host (secret ∷ []) 100 scope fresh_middleware body refl
      refl (inr refl) refl refl

-- "127.x.com" is taken for a loopback host.
loopback_name : host_is_loopback (49 ∷ 50 ∷ 55 ∷ 46 ∷ 120 ∷ 46 ∷ 99 ∷ 111 ∷ 109 ∷ []) ≡ true
unfolding host_is_loopback
loopback_name = refl

-- A key that is configured with a space before it.
authenticate_request-accepted_example :
    authenticate_request header (secret ∷ []) (key_header ∷ []) ≡ some 0
unfolding validate_api_keys lower
authenticate_request-accepted_example =
    authenticate_request-accepted header ((32 ∷ secret) ∷ []) (secret ∷ []) 0 secret [] []
      key_header refl refl tt refl refl

-- "a>=1,": a comma at the end is accepted.
trailing_comma : validate_pip_requirement (97 ∷ 62 ∷ 61 ∷ 49 ∷ 44 ∷ []) ≡ true
unfolding validate_pip_requirement
trailing_comma = refl
