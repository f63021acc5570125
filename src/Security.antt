-- ===== src/Security.antt =====
-- tako_vm/security.py: the validators of texts that come from outside. A text is the list of its
-- code points.
use tako_vm.Prelude.{
  ℕ, zero, suc, ◌+◌, ◌-◌, String, Option, none, some, Bool, true, false, not, ◌&&◌, ◌||◌, List, [],
  ◌∷◌, ◌++◌, length, take, ltb, leb, ◌==◌, if◌then◌else◌,
}
pub mod Requirement
pub mod Image
pub mod Classify

abbrev pub Text : Type 0
Text = List ℕ

-- `c in text` for one character.
unfoldable pub has_char : ℕ → Text → Bool
has_char c [] = false
has_char c (x ∷ xs) = x == c || has_char c xs

abbrev pub is_empty : Text → Bool
is_empty [] = true
is_empty (x ∷ xs) = false

abbrev pub between : ℕ → ℕ → ℕ → Bool
between low high c = leb low c && leb c high

abbrev pub is_letter : ℕ → Bool
is_letter c = between 65 90 c || between 97 122 c

abbrev pub is_digit : ℕ → Bool
is_digit c = between 48 57 c

-- A text that starts with a dot, which one that starts with two does too.
abbrev pub starts_with_dot : Text → Bool
starts_with_dot [] = false
starts_with_dot (c ∷ cs) = c == 46

unfoldable pub is_safe_filename : Text → Bool
unfolding has_char
is_safe_filename name =
    if is_empty name
    then false
    else if has_char 47 name || has_char 92 name
    then false
    else not (starts_with_dot name)

-- `all(test(char) for char in text)`
unfoldable pub all_chars : (ℕ → Bool) → Text → Bool
all_chars test [] = true
all_chars test (c ∷ cs) = test c && all_chars test cs

-- `^[A-Za-z_][A-Za-z0-9_]*$` by `match`: in Python `$` also matches before a newline that ends the
-- text.
unfoldable pub matches_key_tail : Text → Bool
matches_key_tail [] = true
matches_key_tail (c ∷ cs) =
    let rest = matches_key_tail cs in
    if is_letter c || is_digit c || c == 95 then rest else c == 10 && is_empty cs

unfoldable pub matches_key : Text → Bool
unfolding matches_key_tail
matches_key [] = false
matches_key (c ∷ cs) = (is_letter c || c == 95) && matches_key_tail cs

unfoldable pub validate_env_key : Text → Bool
unfolding matches_key
validate_env_key key = if is_empty key || ltb 256 (length key) then false else matches_key key

-- Control characters, backtick, dollar and backslash.
abbrev pub is_dangerous_env_char : ℕ → Bool
is_dangerous_env_char c = leb c 31 || c == 127 || c == 96 || c == 36 || c == 92

unfoldable pub validate_env_value : Option Text → Bool
unfolding all_chars
validate_env_value none = false
validate_env_value (some value) =
    if not (all_chars (λ c. not (is_dangerous_env_char c)) value)
    then false
    else not (ltb 32768 (length value))

-- _SAFE_EXECUTION_ID_CHARS: letters, digits, dot, underscore and dash.
abbrev pub is_safe_id_char : ℕ → Bool
is_safe_id_char c = is_letter c || is_digit c || c == 46 || c == 95 || c == 45

unfoldable pub validate_execution_id : Text → Bool
unfolding has_char all_chars
validate_execution_id value =
    if is_empty value || ltb 64 (length value)
    then false
    else if starts_with_dot value
    then false
    else if has_char 47 value || has_char 92 value
    then false
    else all_chars is_safe_id_char value

-- _SAFE_DOCKER_ARG_CHARS: `._:/=,+-[]{}@%` besides letters and digits.
abbrev pub is_safe_docker_char : ℕ → Bool
is_safe_docker_char c =
    is_letter c
    || is_digit c
    || c == 46
    || c == 95
    || c == 58
    || c == 47
    || c == 61
    || c == 44
    || c == 43
    || c == 45
    || c == 91
    || c == 93
    || c == 123
    || c == 125
    || c == 64
    || c == 37

abbrev pub is_safe_docker_arg : Text → Bool
is_safe_docker_arg arg =
    not (is_empty arg) && not (ltb 4096 (length arg)) && all_chars is_safe_docker_char arg

unfoldable pub all_args : List Text → Bool
unfolding all_chars
all_args [] = true
all_args (arg ∷ args) = is_safe_docker_arg arg && all_args args

-- Equality of texts.
unfoldable pub same_text : Text → Text → Bool
same_text [] [] = true
same_text (a ∷ s) (b ∷ t) = a == b && same_text s t
same_text _ _ = false

-- "docker"
abbrev pub docker : Text
docker = 100 ∷ 111 ∷ 99 ∷ 107 ∷ 101 ∷ 114 ∷ []

unfoldable pub validate_docker_run_args : List Text → Bool
unfolding same_text all_args
validate_docker_run_args [] = false
validate_docker_run_args (arg ∷ args) =
    if same_text arg docker then all_args (arg ∷ args) else false

-- The number of bytes of a character in UTF-8; `errors="replace"` writes one for a surrogate.
unfoldable pub utf8_size : ℕ → ℕ
utf8_size c =
    if ltb c 128
    then 1
    else if ltb c 2048
    then 2
    else if between 55296 57343 c
    then 1
    else if ltb c 65536
    then 3
    else 4

unfoldable pub encoded_size : Text → ℕ
unfolding utf8_size
encoded_size [] = 0
encoded_size (c ∷ cs) = utf8_size c + encoded_size cs

-- The character that the decoded text has: `?` for a surrogate.
abbrev pub replaced : ℕ → ℕ
replaced c = if between 55296 57343 c then 63 else c

-- The first bytes, cut back to the last whole character and decoded.
unfoldable pub truncate : ℕ → Text → Text
unfolding utf8_size
truncate n [] = []
truncate n (c ∷ cs) =
    let rest = truncate (n - utf8_size c) cs in
    if leb (utf8_size c) n then replaced c ∷ rest else []

-- `notice` is the truncation message for the limit, all ASCII.
unfoldable pub cap_output : (ℕ → Text) → Text → ℕ → Text × Bool
unfolding encoded_size truncate
cap_output notice output max_bytes =
    let message = notice max_bytes in
    if is_empty output
    then ([], false)
    else if leb (encoded_size output) max_bytes
    then (output, false)
    else if leb max_bytes (encoded_size message)
    then (message, true)
    else (truncate (max_bytes - encoded_size message) output ++ message, true)
