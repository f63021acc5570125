-- ===== src/Server/Limits/Headers/Accepted.antt =====
-- tako_vm/server/limits.py and tako_vm/config.py: a configured API key is accepted.
use tako_vm.Prelude.{
  ℕ, zero, suc, ◌+◌, ◌≤◌, length, some, Bool, true, false, not, ◌&&◌, ◌||◌, List, [], ◌∷◌, ◌++◌,
  ◌≡◌, refl, ap, ◌∙◌, arith, Bool-cases, Option-cases, inl, inr, All, get_elem?,
}
use mathlib.Core.Option.{some-injective}
use mathlib.Core.Path.{subst}
use tako_vm.Security.{Text, same_text, is_empty}
use tako_vm.Texts.{lower, strip, strip_left, strip_right, is_space, is_one_of}
use tako_vm.Texts.Laws.{same_text_refl}
use tako_vm.Server.Limits.Headers.{
  Header, nonempty_text, authorization, extract_api_key, key_index, index_of, authenticate_request,
  is_bad_key, normalized_keys, validate_api_keys,
}

-- A text that does not begin with a space.
abbrev begins : Text → Bool
begins [] = true
begins (c ∷ cs) = not (is_space c)

begins-strip_left : (s : Text) → begins (strip_left s) ≡ true
unfolding strip_left
begins-strip_left [] = refl
begins-strip_left (c ∷ cs) = elim (Bool-cases (is_space c)) [
  | inl space ↦ rw space (begins-strip_left cs)
  | inr other ↦ rw (other, other) refl
]

strip_right-strip_right : (s : Text) → strip_right (strip_right s) ≡ strip_right s
unfolding strip_right
strip_right-strip_right [] = refl
strip_right-strip_right (c ∷ cs) = elim (Bool-cases (is_empty (strip_right cs) && is_space c)) [
  | inl space ↦ rw space refl
  | inr other ↦ rw other (rw (strip_right-strip_right cs, other) refl)
]

strip_left-strip_right : (s : Text) → begins s ≡ true → strip_left (strip_right s) ≡ strip_right s
unfolding strip_left strip_right
strip_left-strip_right [] h = refl
strip_left-strip_right (c ∷ cs) h = elim (Bool-cases (is_space c)) [
  | inl space ↦ absurd (ground (arith, rw space at h))
  | inr other ↦ elim (Bool-cases (is_empty (strip_right cs))) [
    | inl last ↦ rw (last, other) (rw other refl)
    | inr more ↦ rw (more, other) refl
  ]
]

strip-strip : (s : Text) → strip (strip s) ≡ strip s
unfolding strip
strip-strip s =
    ap strip_right (strip_left-strip_right (strip_left s) (begins-strip_left s))
    ∙ strip_right-strip_right (strip_left s)

nonempty_text-given : (s : Text) → is_empty s ≡ false → nonempty_text s ≡ some s
nonempty_text-given [] h = absurd (ground (arith, h))
nonempty_text-given (c ∷ cs) h = refl

-- What validation says of one of its keys.
pub record IsUsable (seen keys : List Text) (n : ℕ) (key : Text) : Type 0 where
  pub stripped : strip key ≡ key
  pub is_nonempty : is_empty key ≡ false
  pub is_long : 16 ≤ length key
  pub unseen : is_one_of key seen ≡ false
  pub index : (i : ℕ) → key_index key keys i ≡ some (i + n)

later-IsUsable :
    (seen rest : List Text) (k key : Text) (n : ℕ)
    → IsUsable (k ∷ seen) rest n key
    → IsUsable seen (k ∷ rest) (suc n) key
unfolding is_one_of key_index
later-IsUsable seen rest k key n u =
    let apart : same_text key k ≡ false = ground (arith, u.unseen) in
    record {
      stripped = u.stripped;
      is_nonempty = u.is_nonempty;
      is_long = u.is_long;
      unseen = ground (arith, u.unseen);
      index = λ i.
          rw apart (u.index (suc i) ∙ (let e : suc i + n ≡ i + suc n = omega arith in ap some e));
    }

first-IsUsable :
    (seen rest : List Text) (k : Text)
    → strip k ≡ k
    → is_bad_key k ≡ false
    → is_one_of k seen ≡ false
    → IsUsable seen (k ∷ rest) 0 k
unfolding key_index
first-IsUsable seen rest k tight good unseen = record {
  stripped = tight;
  is_nonempty = ground (arith, good);
  is_long = ground (arith, good);
  unseen = unseen;
  index = λ i. rw (same_text_refl k) (let e : i ≡ i + 0 = omega arith in ap some e);
}

cons-IsUsable :
    (seen rest : List Text) (k key : Text) (n : ℕ)
    → strip k ≡ k
    → is_bad_key k ≡ false
    → is_one_of k seen ≡ false
    → ((m : ℕ) → get_elem? rest m ≡ some key → IsUsable (k ∷ seen) rest m key)
    → get_elem? (k ∷ rest) n ≡ some key
    → IsUsable seen (k ∷ rest) n key
cons-IsUsable seen rest k key zero tight good unseen others at_n =
    subst (IsUsable seen (k ∷ rest) 0) (some-injective k key at_n)
      (first-IsUsable seen rest k tight good unseen)
cons-IsUsable seen rest k key (suc n) tight good unseen others at_n =
    later-IsUsable seen rest k key n (others n at_n)

pub normalized_keys-IsUsable :
    (seen values keys : List Text) (n : ℕ) (key : Text)
    → normalized_keys seen values ≡ some keys
    → get_elem? keys n ≡ some key
    → IsUsable seen keys n key
unfolding normalized_keys
normalized_keys-IsUsable seen [] keys n key valid at_n =
    absurd (ground (arith, rw (← some-injective [] keys valid) at at_n))
normalized_keys-IsUsable seen (v ∷ vs) keys n key valid at_n =
    elim (Bool-cases (is_bad_key (strip v) || is_one_of (strip v) seen)) [
      | inl bad ↦ absurd (ground (arith, rw bad at valid))
      | inr good ↦ elim (Option-cases (normalized_keys (strip v ∷ seen) vs)) [
        | inl refused ↦ absurd (ground (arith, rw (good, refused) at valid))
        | inr (rest, is) ↦
            let same : (strip v ∷ rest) ≡ keys =
              some-injective (strip v ∷ rest) keys (rw (good, is) at valid) in
            subst (λ ks. IsUsable seen ks n key) (same)
              (cons-IsUsable seen rest (strip v) key n (strip-strip v) (ground (arith, good))
                (ground (arith, good))
                (λ m. normalized_keys-IsUsable (strip v ∷ seen) vs rest m key is)
                (ap (λ ks. get_elem? ks n) same ∙ at_n))
      ]
    ]

-- A header that _extract_api_key steps over.
abbrev pub IsOther : Text → Header → Type 0
IsOther header h =
    (same_text (lower h.name) (lower header) ≡ false)
    × (same_text (lower h.name) authorization ≡ false)

extract_api_key-first :
    (header : Text) (before after : List Header) (h : Header) (key : Text)
    → All (IsOther header) before
    → lower h.name ≡ lower header
    → h.value ≡ some key
    → strip key ≡ key
    → is_empty key ≡ false
    → extract_api_key header (before ++ h ∷ after) ≡ some key
unfolding extract_api_key
extract_api_key-first header [] after h key others named valued tight is_given =
    rw (named, same_text_refl (lower header), valued, tight) (nonempty_text-given key is_given)
extract_api_key-first header (x ∷ before) after h key others named valued tight is_given =
    rw (others.0.0, others.0.1)
      (extract_api_key-first header before after h key others.1 named valued tight is_given)

-- If validate_api_keys accepts the configured keys, then a request is authenticated with the index
-- of a key if the first header that is the configured one or Authorization is the configured one,
-- in any capitals, and has that key as its value.
pub authenticate_request-accepted :
    (header : Text) (values keys : List Text) (n : ℕ) (key : Text) (before after : List Header)
    (h : Header)
    → validate_api_keys values ≡ some keys
    → get_elem? keys n ≡ some key
    → All (IsOther header) before
    → lower h.name ≡ lower header
    → h.value ≡ some key
    → authenticate_request header keys (before ++ h ∷ after) ≡ some n
unfolding authenticate_request validate_api_keys
authenticate_request-accepted header values keys n key before after h valid at_n others named
      valued =
    let u = normalized_keys-IsUsable [] values keys n key valid at_n in
    ap (λ o. index_of o keys)
      (extract_api_key-first header before after h key others named valued u.stripped u.is_nonempty)
    ∙ u.index 0
    ∙ (let e : 0 + n ≡ n = omega arith in ap some e)
