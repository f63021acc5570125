-- ===== src/Server/Limits/Access/Protected.antt =====
-- tako_vm/server/limits.py and tako_vm/config.py: a server on the network passes no request on
-- without a key.
use tako_vm.Prelude.{
  ℕ, ◌≤◌, String, some, true, false, ◌||◌, List, [], ◌≡◌, arith, ◌⊎◌, inl, inr, length, get_elem?,
  IsAmong,
}
use tako_vm.Security.{Text}
use tako_vm.Server.Limits.{Message, Middleware, passed, dispatch}
use tako_vm.Server.Limits.Dispatch.{IsAdmitted}
use tako_vm.Server.Limits.Headers.{
  Header, Scope, request_of, is_rate_limit_exempt, validate_api_keys,
}
use tako_vm.Server.Limits.Headers.Keys.{Presents, dispatch-IsKeyHolder}
use tako_vm.Server.Limits.Headers.Accepted.{normalized_keys-IsUsable}
use tako_vm.Server.Limits.Access.{AccessConfig, host_is_loopback, ensure_bind_host_allowed}

enabled :
    (a : AccessConfig) (host : Text)
    → ensure_bind_host_allowed a host ≡ true
    → (a.protection.api_auth_enabled ≡ true)
      ⊎ ((a.allow_unauthenticated_network_access || host_is_loopback host) ≡ false)
    → a.protection.api_auth_enabled ≡ true
unfolding ensure_bind_host_allowed
enabled a host allowed (inl on) = on
enabled a host allowed (inr exposed) = ground (arith, allowed, exposed)

-- Let ensure_bind_host_allowed accept the host that a server is bound to and validate_api_keys the
-- configured keys, and let authentication be enabled, or else the host be none of the loopback
-- hosts and unauthenticated access not be allowed. If the middleware passes on a request whose
-- path is not exempt, then one of its headers presents the configured key at the index of the
-- request's identity, which has at least 16 characters; and where rate limiting is enabled the
-- limiter allowed the request under that identity, its announced length and the bytes of the
-- messages passed are within the payload limit, and those messages are the first that the client
-- sent.
pub dispatch-IsProtected :
    (identity : ℕ → String) (a : AccessConfig) (host : Text) (values : List Text) (now : ℕ)
    (s : Scope) (m : Middleware) (ms : List Message)
    → validate_api_keys values ≡ some a.api_keys
    → ensure_bind_host_allowed a host ≡ true
    → (a.protection.api_auth_enabled ≡ true)
      ⊎ ((a.allow_unauthenticated_network_access || host_is_loopback host) ≡ false)
    → is_rate_limit_exempt s.path ≡ false
    → (dispatch a.protection now (request_of identity a.api_auth_header a.api_keys s) m).0
      ≡ passed ms
    → IsAdmitted a.protection now (request_of identity a.api_auth_header a.api_keys s) m ms
      × ((i : ℕ) × (key : Text) × (h : Header) × ((request_of identity a.api_auth_header a.api_keys
              s).identity
            ≡ some (identity i))
          × (get_elem? a.api_keys i ≡ some key)
          × (16 ≤ length key)
          × IsAmong h s.headers
          × Presents a.api_auth_header h key)
dispatch-IsProtected identity a host values now s m ms valid allowed exposed required h =
    let (admitted, (i, who, holder)) =
      dispatch-IsKeyHolder identity a.api_auth_header a.api_keys a.protection now s m ms
        (enabled a host allowed exposed) required h in
    let u =
      normalized_keys-IsUsable [] values a.api_keys i holder.key (unfold validate_api_keys in valid)
        holder.configured in
    (
      admitted,
      (
        i, holder.key, holder.source, who, holder.configured, u.is_long, holder.among,
        holder.presents,
      ),
    )
