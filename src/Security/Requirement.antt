-- ===== src/Security/Requirement.antt =====
-- tako_vm/security.py: validate_pip_requirement. A position in the text is the rest of the text
-- there; the two loops recur on fuel, one more than the characters left.
use tako_vm.Prelude.{
  ℕ, zero, suc, Option, none, some, Bool, true, false, not, ◌&&◌, ◌||◌, List, [], ◌∷◌, length, ltb,
  ◌==◌, if◌then◌else◌,
}
use tako_vm.Security.{Text, has_char, is_empty, is_letter, is_digit}
pub mod Fuel

-- _SAFE_PIP_NAME_CHARS, _SAFE_PIP_VERSION_CHARS and _SAFE_PIP_OPERATOR_CHARS: `-._`, `.*+!-` and
-- `<>=!~` besides letters and digits.
abbrev pub is_pip_name_char : ℕ → Bool
is_pip_name_char c = is_letter c || is_digit c || c == 45 || c == 46 || c == 95

abbrev pub is_pip_version_char : ℕ → Bool
is_pip_version_char c =
    is_letter c || is_digit c || c == 46 || c == 42 || c == 43 || c == 33 || c == 45

abbrev pub is_pip_operator_char : ℕ → Bool
is_pip_operator_char c = c == 60 || c == 62 || c == 61 || c == 33 || c == 126

-- _consume_token: the text after the token, and whether the token is not empty.
unfoldable pub consume_token : (ℕ → Bool) → Text → Text
consume_token test [] = []
consume_token test (c ∷ cs) = let rest = consume_token test cs in if test c then rest else c ∷ cs

abbrev pub has_token : (ℕ → Bool) → Text → Bool
has_token test [] = false
has_token test (c ∷ cs) = test c

abbrev pub tail : Text → Text
tail [] = []
tail (c ∷ cs) = cs

-- `c + c in text`
unfoldable pub has_double : ℕ → Text → Bool
has_double c [] = false
has_double c (x ∷ xs) = (x == c && has_token (λ y. y == c) xs) || has_double c xs

-- Newlines, backtick, dollar, backslash, hash, semicolon, `&&`, `||`, slash and at sign.
unfoldable pub is_dangerous : Text → Bool
unfolding has_double has_char
is_dangerous s =
    has_char 10 s
    || has_char 13 s
    || has_char 96 s
    || has_char 36 s
    || has_char 92 s
    || has_char 35 s
    || has_char 59 s
    || has_double 38 s
    || has_double 124 s
    || has_char 47 s
    || has_char 64 s

-- After an extra: `]` ends the block, `,` goes on, anything else is refused.
abbrev pub after_extra : Text → Option Text → Option Text
after_extra [] rest = none
after_extra (c ∷ cs) rest = if c == 93 then some cs else if c == 44 then rest else none

-- The loop over the extras: the text after the block, or `none` for a refusal.
unfoldable pub extras_loop : ℕ → Text → Option Text
unfolding consume_token
extras_loop zero s = none
extras_loop (suc n) s =
    let after = consume_token is_pip_name_char s in
    let rest = extras_loop n (tail after) in
    if has_token is_pip_name_char s then after_extra after rest else none

abbrev pub after_version : Text → Bool → Bool
after_version [] rest = true
after_version (c ∷ cs) rest = if c == 44 then rest else false

-- The loop over the version clauses.
unfoldable pub clauses_loop : ℕ → Text → Bool
unfolding consume_token
clauses_loop zero s = false
clauses_loop (suc n) s =
    let version = consume_token is_pip_operator_char s in
    let after = consume_token is_pip_version_char version in
    let rest = clauses_loop n (tail after) in
    if is_empty s
    then true
    else if has_token is_pip_operator_char s && has_token is_pip_version_char version
    then after_version after rest
    else false

abbrev pub run_clauses : Option Text → Bool
run_clauses none = false
run_clauses (some s) = clauses_loop (suc (length s)) s

-- The text after the optional block of extras.
abbrev pub skip_extras : Text → Option Text
skip_extras [] = some []
skip_extras (c ∷ cs) = if c == 91 then extras_loop (suc (length cs)) cs else some (c ∷ cs)

unfoldable pub validate_pip_requirement : Text → Bool
unfolding is_dangerous extras_loop clauses_loop consume_token
validate_pip_requirement s =
    if is_empty s || ltb 256 (length s)
    then false
    else if is_dangerous s
    then false
    else if has_token is_pip_name_char s
    then run_clauses (skip_extras (consume_token is_pip_name_char s))
    else false
