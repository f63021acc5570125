-- ===== src/Server/Limits/Access.antt =====
-- tako_vm/config.py: which hosts a server without authentication may be bound to.
use tako_vm.Prelude.{Bool, true, false, not, ◌&&◌, ◌||◌, List, [], ◌∷◌, if◌then◌else◌}
use tako_vm.Security.{Text, same_text}
use tako_vm.Texts.{codes, lower, strip, starts_with, is_one_of}
use tako_vm.Server.Limits.{Config}
pub mod Protected

-- The settings of TakoVMConfig behind the access to the server, with those of the middleware.
pub record AccessConfig : Type 0 where
  pub server_host : Text
  pub allow_unauthenticated_network_access : Bool
  pub api_keys : List Text
  pub api_auth_header : Text
  pub protection : Config

-- _LOOPBACK_HOSTS
unfoldable pub loopback_hosts : List Text
unfolding codes
loopback_hosts = codes "localhost" ∷ codes "::1" ∷ codes "[::1]" ∷ []

unfoldable pub host_is_loopback : Text → Bool
unfolding lower strip is_one_of same_text starts_with loopback_hosts codes
host_is_loopback host =
    is_one_of (lower (strip host)) loopback_hosts || starts_with (codes "127.") (lower (strip host))

-- false is the ValueError.
unfoldable pub ensure_bind_host_allowed : AccessConfig → Text → Bool
unfolding host_is_loopback
ensure_bind_host_allowed a host =
    if a.protection.api_auth_enabled || a.allow_unauthenticated_network_access
    then true
    else host_is_loopback host

abbrev pub has_keys : List Text → Bool
has_keys [] = false
has_keys (k ∷ ks) = true

unfoldable pub validate_api_auth_config : AccessConfig → Bool
unfolding ensure_bind_host_allowed
validate_api_auth_config a =
    if a.protection.api_auth_enabled && not (has_keys a.api_keys)
    then false
    else ensure_bind_host_allowed a a.server_host
