-- ===== src/Server/Limits/Headers/Keys.antt =====
-- tako_vm/server/limits.py: who is authenticated.
use tako_vm.Prelude.{
  ℕ, suc, ◌+◌, String, Option, none, some, true, false, List, [], ◌∷◌, drop, ◌≡◌, refl, sym, ap,
  ◌∙◌, arith, Bool-cases, inl, inr, get_elem?, IsAmong, first, later, is_some, map_option,
}
use mathlib.Core.Option.{some-injective}
use tako_vm.Security.{Text, same_text, is_empty}
use tako_vm.Texts.{lower, strip, starts_with}
use tako_vm.Texts.Laws.{same_text→eq}
use tako_vm.Server.Limits.{Message, Config, Middleware, passed, dispatch}
use tako_vm.Server.Limits.Dispatch.{IsAdmitted, dispatch-IsAdmitted}
use tako_vm.Server.Limits.Headers.{
  Header, nonempty_text, stripped_value, bearer_prefix, bearer_token, authorization,
  extract_api_key, key_index, index_of, authenticate_request, Scope, request_of,
  is_rate_limit_exempt,
}

-- How a header presents a key.
pub data Presents (header : Text) (h : Header) (key : Text) : Type 0 where
  by_header :
      (v : Text)
      → h.value ≡ some v
      → lower h.name ≡ lower header
      → strip v ≡ key
      → Presents header h key
  by_bearer :
      (v : Text)
      → h.value ≡ some v
      → lower h.name ≡ authorization
      → starts_with bearer_prefix (lower (strip v)) ≡ true
      → strip (drop 7 (strip v)) ≡ key
      → Presents header h key

nonempty_text-some : (s t : Text) → nonempty_text s ≡ some t → (s ≡ t) × (is_empty t ≡ false)
nonempty_text-some [] t e = absurd (ground (arith, e))
nonempty_text-some (c ∷ cs) t e =
    let same = some-injective (c ∷ cs) t e in (same, ap is_empty (sym same))

module _ (header key : Text) where
  stripped-Presents :
      (h : Header) (v : Option Text)
      → h.value ≡ v
      → lower h.name ≡ lower header
      → stripped_value v ≡ some key
      → Presents header h key × (is_empty key ≡ false)
  stripped-Presents h none is name e = absurd (ground (arith, e))
  stripped-Presents h (some v) is name e =
      let r = nonempty_text-some (strip v) key e in (by_header v is name r.0, r.1)

  -- A header of a list that presents the key.
  abbrev pub Presented : List Header → Type 0
  Presented hs = (h : Header) × IsAmong h hs × Presents header h key × (is_empty key ≡ false)

  bearer-Presents :
      (h : Header) (hs : List Header) (v rest : Option Text)
      → h.value ≡ v
      → lower h.name ≡ authorization
      → (rest ≡ some key → Presented hs)
      → bearer_token v rest ≡ some key
      → Presented (h ∷ hs)
  bearer-Presents h hs none rest is name others e = absurd (ground (arith, e))
  bearer-Presents h hs (some v) rest is name others e =
      elim (Bool-cases (starts_with bearer_prefix (lower (strip v)))) [
        | inl bearer ↦
            let r = nonempty_text-some (strip (drop 7 (strip v))) key (rw bearer at e) in
            (h, first hs, by_bearer v is name bearer r.0, r.1)
        | inr other ↦
            let (x, among, presents, is_given) = others (rw other at e) in
            (x, later h hs among, presents, is_given)
      ]

  extract_api_key-Presented :
      (hs : List Header) → extract_api_key header hs ≡ some key → Presented hs
  unfolding extract_api_key
  extract_api_key-Presented [] e = absurd (ground (arith, e))
  extract_api_key-Presented (h ∷ hs) e =
      elim (Bool-cases (same_text (lower h.name) (lower header))) [
        | inl configured ↦
            let r =
              stripped-Presents h h.value refl (same_text→eq _ _ configured) (rw configured at e) in
            (h, first hs, r.0, r.1)
        | inr other ↦ elim (Bool-cases (same_text (lower h.name) authorization)) [
          | inl bearer ↦
              bearer-Presents h hs h.value (extract_api_key header hs) refl
                (same_text→eq _ _ bearer) (extract_api_key-Presented hs) (rw (other, bearer) at e)
          | inr neither ↦
              let (x, among, presents, is_given) =
                extract_api_key-Presented hs (rw (other, neither) at e) in
              (x, later h hs among, presents, is_given)
        ]
      ]

key_index-get :
    (p : Text) (ks : List Text) (i j : ℕ)
    → key_index p ks i ≡ some j
    → (n : ℕ) × (j ≡ i + n) × (get_elem? ks n ≡ some p)
unfolding key_index
key_index-get p [] i j e = absurd (ground (arith, e))
key_index-get p (k ∷ ks) i j e = elim (Bool-cases (same_text p k)) [
  | inl same ↦
      (0, omega (arith, some-injective i j (rw same at e)), ap some (sym (same_text→eq p k same)))
  | inr other ↦
      let (n, place, at_n) = key_index-get p ks (suc i) j (rw other at e) in
      (suc n, omega (arith, place), at_n)
]

-- The key behind an authenticated request.
pub record IsKeyHolder (header : Text) (keys : List Text) (hs : List Header) (i : ℕ) : Type 0 where
  pub key : Text
  pub configured : get_elem? keys i ≡ some key
  pub is_given : is_empty key ≡ false
  pub source : Header
  pub among : IsAmong source hs
  pub presents : Presents header source key

index_of-IsKeyHolder :
    (header : Text) (keys : List Text) (hs : List Header) (i : ℕ) (o : Option Text)
    → extract_api_key header hs ≡ o
    → index_of o keys ≡ some i
    → IsKeyHolder header keys hs i
index_of-IsKeyHolder header keys hs i none is e = absurd (ground (arith, e))
index_of-IsKeyHolder header keys hs i (some key) is e =
    let (h, among, presents, is_given) = extract_api_key-Presented header key hs is in
    let (n, place, at_n) = key_index-get key keys 0 i e in
    record {
      key = key;
      configured = let same : i ≡ n = omega (arith, place) in ap (get_elem? keys) same ∙ at_n;
      is_given = is_given;
      source = h;
      among = among;
      presents = presents;
    }

some_index :
    (identity : ℕ → String) (o : Option ℕ)
    → is_some (map_option identity o) ≡ true
    → (i : ℕ) × (o ≡ some i)
some_index identity none h = absurd (ground (arith, h))
some_index identity (some i) h = (i, refl)

-- If authentication is enabled and the middleware passes on a request whose path is not exempt,
-- then one of its headers presents a key that is not empty and is the configured key at the index
-- of the request's identity; and where rate limiting is enabled the limiter allowed the request
-- under that identity, its announced length and the bytes of the messages passed are within the
-- payload limit, and those messages are the first that the client sent.
pub dispatch-IsKeyHolder :
    (identity : ℕ → String) (header : Text) (keys : List Text) (c : Config) (now : ℕ) (s : Scope)
    (m : Middleware) (ms : List Message)
    → c.api_auth_enabled ≡ true
    → is_rate_limit_exempt s.path ≡ false
    → (dispatch c now (request_of identity header keys s) m).0 ≡ passed ms
    → IsAdmitted c now (request_of identity header keys s) m ms
      × ((i : ℕ) × ((request_of identity header keys s).identity ≡ some (identity i))
          × IsKeyHolder header keys s.headers i)
unfolding request_of
dispatch-IsKeyHolder identity header keys c now s m ms enabled required h =
    let admitted = dispatch-IsAdmitted c now (request_of identity header keys s) m ms h in
    let (i, found) =
      some_index identity (authenticate_request header keys s.headers)
        (admitted.authenticated (rw (enabled, required) refl)) in
    (
      admitted,
      (
        i,
        ap (map_option identity) found,
        unfold authenticate_request in
            index_of-IsKeyHolder header keys s.headers i (extract_api_key header s.headers) refl
              found,
      ),
    )
