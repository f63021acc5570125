-- ===== src/Server/Limits/Headers.antt =====
-- tako_vm/server/limits.py: what the middleware reads from a request's headers and path, and the
-- validators of the API keys in tako_vm/config.py.
use tako_vm.Prelude.{
  ℕ, suc, String, Option, none, some, Bool, true, false, not, ◌&&◌, ◌||◌, List, [], ◌∷◌, ◌++◌, drop,
  length, ltb, leb, ◌+◌, if◌then◌else◌, map_option,
}
use tako_vm.Models.{ℤ, pos, negsuc}
use tako_vm.Security.{Text, same_text, is_empty, has_char, between}
use tako_vm.Texts.{codes, lower, strip, starts_with, is_one_of, parse_int}
use tako_vm.Server.Limits.{Message, Config, Request, Middleware, Response, dispatch}
pub mod Keys
pub mod Accepted

-- A header: its name, and its value as UTF-8 text, `none` where the bytes are not.
pub record Header : Type 0 where
  pub name : Text
  pub value : Option Text

-- `value or None`
abbrev pub nonempty_text : Text → Option Text
nonempty_text [] = none
nonempty_text (c ∷ cs) = some (c ∷ cs)

abbrev pub stripped_value : Option Text → Option Text
stripped_value none = none
stripped_value (some v) = nonempty_text (strip v)

-- "bearer "
abbrev pub bearer_prefix : Text
bearer_prefix = 98 ∷ 101 ∷ 97 ∷ 114 ∷ 101 ∷ 114 ∷ 32 ∷ []

-- The token of an Authorization header; without the bearer_prefix the loop goes on.
abbrev pub bearer_token : Option Text → Option Text → Option Text
bearer_token none rest = none
bearer_token (some v) rest =
    if starts_with bearer_prefix (lower (strip v))
    then nonempty_text (strip (drop 7 (strip v)))
    else rest

-- `b"authorization"`
unfoldable pub authorization : Text
unfolding codes
authorization = codes "authorization"

unfoldable pub extract_api_key : Text → List Header → Option Text
unfolding same_text lower strip starts_with authorization
extract_api_key header [] = none
extract_api_key header (h ∷ hs) =
    let rest = extract_api_key header hs in
    if same_text (lower h.name) (lower header)
    then stripped_value h.value
    else if same_text (lower h.name) authorization
    then bearer_token h.value rest
    else rest

-- The index of the first configured key that is equal; compare_digest compares the UTF-8 bytes.
unfoldable pub key_index : Text → List Text → ℕ → Option ℕ
unfolding same_text
key_index provided [] i = none
key_index provided (k ∷ ks) i =
    let rest = key_index provided ks (suc i) in if same_text provided k then some i else rest

abbrev pub index_of : Option Text → List Text → Option ℕ
index_of none ks = none
index_of (some provided) ks = key_index provided ks 0

unfoldable pub authenticate_request : Text → List Text → List Header → Option ℕ
unfolding extract_api_key key_index
authenticate_request header keys hs = index_of (extract_api_key header hs) keys

-- `int(value.decode("ascii"))`, if it is an int that is not negative.
unfoldable pub is_ascii : Text → Bool
is_ascii [] = true
is_ascii (c ∷ cs) = ltb c 128 && is_ascii cs

abbrev pub not_negative : Option ℤ → Option ℕ
not_negative none = none
not_negative (some (pos n)) = some n
not_negative (some (negsuc n)) = none

abbrev pub length_of : Option Text → Option ℕ
length_of none = none
length_of (some v) = if is_ascii v then not_negative (parse_int v) else none

unfoldable pub get_content_length : List Header → Option ℕ
unfolding same_text lower codes is_ascii parse_int
get_content_length [] = none
get_content_length (h ∷ hs) =
    let rest = get_content_length hs in
    if same_text (lower h.name) (codes "content-length") then length_of h.value else rest

-- _RATE_LIMIT_EXEMPT_PATHS and _RATE_LIMIT_EXEMPT_PREFIXES
unfoldable pub is_rate_limit_exempt : Text → Bool
unfolding is_one_of same_text codes starts_with
is_rate_limit_exempt path =
    is_one_of path (codes "/health" ∷ codes "/openapi.json" ∷ codes "/docs/oauth2-redirect" ∷ [])
    || same_text path (codes "/docs")
    || starts_with (codes "/docs/") path
    || same_text path (codes "/redoc")
    || starts_with (codes "/redoc/") path

-- The scope of a request, and the messages of its body.
pub record Scope : Type 0 where
  pub path : Text
  pub headers : List Header
  pub client_host : Option String
  pub messages : List Message

-- `identity` is the text `api_key:<index>`.
unfoldable pub request_of : (ℕ → String) → Text → List Text → Scope → Request
unfolding authenticate_request get_content_length is_rate_limit_exempt
request_of identity header keys s = record {
  exempt = is_rate_limit_exempt s.path;
  identity = map_option identity (authenticate_request header keys s.headers);
  client_host = s.client_host;
  content_length = get_content_length s.headers;
  messages = s.messages;
}

-- validate_api_keys, `none` for a ValueError.
abbrev pub is_bad_key : Text → Bool
is_bad_key key =
    is_empty key || has_char 10 key || has_char 13 key || has_char 0 key || ltb (length key) 16

unfoldable pub normalized_keys : List Text → List Text → Option (List Text)
unfolding strip has_char is_one_of
normalized_keys seen [] = some []
normalized_keys seen (v ∷ vs) =
    let key = strip v in
    let rest = normalized_keys (key ∷ seen) vs in
    if is_bad_key key || is_one_of key seen then none else map_option (◌∷◌ key) rest

unfoldable pub validate_api_keys : List Text → Option (List Text)
unfolding normalized_keys
validate_api_keys values = normalized_keys [] values
