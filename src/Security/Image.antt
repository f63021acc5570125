-- ===== src/Security/Image.antt =====
-- tako_vm/security.py: validate_docker_image. The regular expression is a chain of matchers, each
-- with what has to match the rest of the text.
use tako_vm.Prelude.{
  ℕ, zero, suc, Bool, true, false, ◌&&◌, ◌||◌, [], ◌∷◌, length, ltb, ◌==◌, if◌then◌else◌, ◌≡◌,
  arith, inl, inr, Bool-cases, refl,
}
use tako_vm.Security.{Text, has_char, is_empty, is_letter, is_digit, between}
use tako_vm.Security.Requirement.{has_double}
use tako_vm.Texts.{codes}

abbrev pub Matcher : Type 0
Matcher = Text → Bool

-- One character, one of a literal, any number of characters, a bounded number of them.
unfoldable pub one : (ℕ → Bool) → Matcher → Matcher
one test next [] = false
one test next (c ∷ cs) = test c && next cs

unfoldable pub literal : Text → Matcher → Matcher
literal [] next s = next s
literal (l ∷ ls) next [] = false
literal (l ∷ ls) next (c ∷ cs) = l == c && literal ls next cs

unfoldable pub many : (ℕ → Bool) → Matcher → Matcher
many test next [] = next []
many test next (c ∷ cs) = next (c ∷ cs) || (test c && many test next cs)

unfoldable pub at_most : ℕ → (ℕ → Bool) → Matcher → Matcher
at_most zero test next s = next s
at_most (suc n) test next [] = next []
at_most (suc n) test next (c ∷ cs) = next (c ∷ cs) || (test c && at_most n test next cs)

unfoldable pub exactly : ℕ → (ℕ → Bool) → Matcher → Matcher
unfolding one
exactly zero test next s = next s
exactly (suc n) test next s = one test (exactly n test next) s

abbrev pub is_alnum : ℕ → Bool
is_alnum c = is_letter c || is_digit c

abbrev pub is_host_char : ℕ → Bool
is_host_char c = is_alnum c || c == 45 || c == 46

abbrev pub is_tag_char : ℕ → Bool
is_tag_char c = is_host_char c || c == 95

abbrev pub is_name_char : ℕ → Bool
is_name_char c = is_tag_char c || c == 47

abbrev pub is_hex : ℕ → Bool
is_hex c = is_digit c || between 97 102 c

-- `$`: the end; a newline is refused before.
unfoldable pub digest : Matcher
unfolding codes literal exactly one
digest s = literal (codes "@sha256:") (exactly 64 is_hex is_empty) s || is_empty s

unfoldable pub tag : Matcher
unfolding codes literal at_most one digest
tag s = literal (codes ":") (one is_alnum (at_most 127 is_tag_char digest)) s || digest s

unfoldable pub image_name : Matcher
unfolding one many tag
image_name s = one is_alnum (many is_name_char (one is_alnum tag)) s || one is_alnum tag s

-- The digits of a port are those of ASCII.
unfoldable pub port : Matcher
unfolding codes literal one many image_name
port s =
    literal (codes ":") (one is_digit (many is_digit (literal (codes "/") image_name))) s
    || literal (codes "/") image_name s

unfoldable pub image_pattern : Matcher
unfolding one many port image_name
image_pattern s = one is_alnum (many is_host_char port) s || image_name s

-- Newlines, backtick, dollar, backslash, hash, semicolon, `&&` and `||`.
unfoldable pub is_dangerous_image : Text → Bool
unfolding has_char has_double
is_dangerous_image s =
    has_char 10 s
    || has_char 13 s
    || has_char 96 s
    || has_char 36 s
    || has_char 92 s
    || has_char 35 s
    || has_char 59 s
    || has_double 38 s
    || has_double 124 s

unfoldable pub validate_docker_image : Text → Bool
unfolding is_dangerous_image image_pattern
validate_docker_image image =
    if is_empty image || ltb 256 (length image)
    then false
    else if is_dangerous_image image
    then false
    else image_pattern image

-- The first character of an accepted name.
abbrev pub StartsAlnum : Text → Type 0
StartsAlnum [] = false ≡ true
StartsAlnum (c ∷ cs) = is_alnum c ≡ true

image_pattern-StartsAlnum :
    (c : ℕ) (cs : Text) → is_alnum c ≡ false → image_pattern (c ∷ cs) ≡ false
unfolding image_pattern image_name one
image_pattern-StartsAlnum c cs other = rw other refl

pub validate_docker_image-StartsAlnum : (s : Text) → validate_docker_image s ≡ true → StartsAlnum s
unfolding validate_docker_image
validate_docker_image-StartsAlnum [] ok = ok
validate_docker_image-StartsAlnum (c ∷ cs) ok = elim (Bool-cases (is_alnum c)) [
  | inl start ↦ start
  | inr other ↦
      by_test (is_dangerous_image (c ∷ cs)) (ltb 256 (length (c ∷ cs))) (image_pattern (c ∷ cs))
        (image_pattern-StartsAlnum c cs other) ok
]
  where
    by_test :
        (danger long matches : Bool)
        → matches ≡ false
        → (if long then false else if danger then false else matches) ≡ true
        → is_alnum c ≡ true
    by_test danger long matches no_match h = ground (arith, no_match, h)
