-- ===== src/Security/Classify.antt =====
-- tako_vm/security.py: classify_error. \w and \d of the regular expression are parameters.
use Prim.Native.String
use tako_vm.Prelude.{
  ℕ, zero, suc, String, Option, none, some, Bool, true, false, not, ◌&&◌, ◌||◌, List, [], ◌∷◌, ◌==◌,
  if◌then◌else◌, str_eq, or_else, ◌>>=◌,
}
use tako_vm.Models.{ℤ, is_code, ErrorType}
use tako_vm.Security.{Text}
use tako_vm.Texts.{codes, contains_any, find, lower, strip_left}
pub mod Known

-- The text after a prefix, if it has it.
unfoldable pub rest_after : Text → Text → Option Text
rest_after [] t = some t
rest_after (p ∷ ps) [] = none
rest_after (p ∷ ps) (c ∷ cs) = let rest = rest_after ps cs in if p == c then rest else none

-- _KILLED_PATTERN
module _ (is_word is_decimal : ℕ → Bool) where
  -- A word boundary after a word character.
  abbrev pub closes : Option Text → Bool
  closes none = false
  closes (some []) = true
  closes (some (c ∷ cs)) = not (is_word c)

  abbrev pub opens : Option ℕ → Bool
  opens none = true
  opens (some c) = not (is_word c)

  unfoldable pub drop_digits : Text → Text
  drop_digits [] = []
  drop_digits (c ∷ cs) = let rest = drop_digits cs in if is_decimal c then rest else c ∷ cs

  unfoldable pub skip_digits : Text → Option Text
  unfolding drop_digits
  skip_digits [] = none
  skip_digits (c ∷ cs) = if is_decimal c then some (drop_digits cs) else none

  -- "line 1: 42 killed"
  unfoldable pub job_line : Text → Option Text
  unfolding rest_after codes skip_digits strip_left
  job_line t = do
    number ← rest_after (codes "line ") t
    colon ← skip_digits number
    job ← rest_after (codes ":") colon
    word ← skip_digits (strip_left job)
    rest_after (codes " killed") word

  unfoldable pub killed_word : Text → Bool
  unfolding rest_after codes job_line
  killed_word t =
      closes (rest_after (codes "oomkilled") t)
      || closes (rest_after (codes "oom-killed") t)
      || closes (rest_after (codes "oomkiller") t)
      || closes (rest_after (codes "oom-killer") t)
      || closes (rest_after (codes "process killed") t)
      || closes (job_line t)

  abbrev pub starts_line : Option ℕ → Bool
  starts_line none = true
  starts_line (some c) = c == 10

  -- A match from a place after the character `before`.
  unfoldable pub is_killed_from : Option ℕ → Text → Bool
  unfolding killed_word rest_after codes strip_left
  is_killed_from before [] = false
  is_killed_from before (c ∷ cs) =
      (opens before && killed_word (c ∷ cs))
      || (starts_line before && closes (rest_after (codes "killed") (strip_left (c ∷ cs))))
      || is_killed_from (some c) cs

-- What the lower case of stderr is searched for, and the message: a fixed one, or the start of
-- stderr, with a text in place of an empty one.
pub data Needle : Type 0 where
  any_of all_of : List Text → Needle
  killed_phrase : Needle

pub data Message : Type 0 where
  fixed excerpt : String → Message

pub data Rule : Type 0 where
  rule : Needle → ErrorType → Message → Rule

unfoldable pub has_all : List Text → Text → Bool
unfolding find
has_all [] text = true
has_all (p ∷ ps) text = find p text && has_all ps text

-- The tests of stderr, in their order.
unfoldable pub rules : List Rule
unfolding codes
rules =
    rule (any_of (codes "memoryerror" ∷ codes "out of memory" ∷ [])) ErrorType.oom
      (fixed "Execution exceeded memory limit")
    ∷ rule (any_of (codes "cannot allocate memory" ∷ [])) ErrorType.oom
        (fixed "Cannot allocate memory")
    ∷ rule killed_phrase ErrorType.killed (fixed "Process was killed by system")
    ∷ rule (any_of (codes "permission denied" ∷ [])) ErrorType.permission
        (fixed "Permission denied during execution")
    ∷ rule (any_of (codes "operation not permitted" ∷ [])) ErrorType.permission
        (fixed "Operation not permitted")
    ∷ rule (any_of (codes "syntaxerror" ∷ [])) ErrorType.syntax_error (excerpt "Syntax error")
    ∷ rule (any_of (codes "indentationerror" ∷ [])) ErrorType.syntax_error
        (excerpt "Indentation error")
    ∷ rule (any_of (codes "importerror" ∷ codes "modulenotfounderror" ∷ [])) ErrorType.import_error
        (excerpt "Import error")
    ∷ rule (any_of (codes "typeerror" ∷ [])) ErrorType.type_error (excerpt "Type error")
    ∷ rule (any_of (codes "valueerror" ∷ [])) ErrorType.value_error (excerpt "Value error")
    ∷ rule (any_of (codes "keyerror" ∷ [])) ErrorType.key_error (excerpt "Key error")
    ∷ rule (any_of (codes "indexerror" ∷ [])) ErrorType.index_error (excerpt "Index error")
    ∷ rule (any_of (codes "attributeerror" ∷ [])) ErrorType.attribute_error
        (excerpt "Attribute error")
    ∷ rule (any_of (codes "nameerror" ∷ [])) ErrorType.name_error
        (excerpt "Name error (undefined variable)")
    ∷ rule (any_of (codes "filenotfounderror" ∷ [])) ErrorType.file_not_found
        (excerpt "File not found")
    ∷ rule (any_of (codes "isadirectoryerror" ∷ [])) ErrorType.file_error
        (fixed "Expected file but found directory")
    ∷ rule (any_of (codes "notadirectoryerror" ∷ [])) ErrorType.file_error
        (fixed "Expected directory but found file")
    ∷ rule (any_of (codes "oserror" ∷ codes "ioerror" ∷ [])) ErrorType.os_error
        (excerpt "OS/IO error")
    ∷ rule (any_of (codes "recursionerror" ∷ codes "maximum recursion depth" ∷ []))
        ErrorType.recursion_error (fixed "Maximum recursion depth exceeded")
    ∷ rule (any_of (codes "assertionerror" ∷ [])) ErrorType.assertion_error
        (excerpt "Assertion failed")
    ∷ rule (any_of (codes "zerodivisionerror" ∷ [])) ErrorType.division_error
        (fixed "Division by zero")
    ∷ rule (any_of (codes "overflowerror" ∷ [])) ErrorType.overflow_error (fixed "Numeric overflow")
    ∷ rule
        (any_of
          (codes "unicodeerror" ∷ codes "unicodedecodeerror" ∷ codes "unicodeencodeerror" ∷ []))
        ErrorType.encoding_error (fixed "Unicode encoding/decoding error")
    ∷ rule (any_of (codes "jsondecodeerror" ∷ [])) ErrorType.json_error
        (fixed "Invalid JSON format")
    ∷ rule (any_of (codes "connectionerror" ∷ codes "connectionrefusederror" ∷ []))
        ErrorType.network_error (fixed "Connection error")
    ∷ rule (any_of (codes "timeouterror" ∷ [])) ErrorType.network_timeout
        (fixed "Network request timed out")
    ∷ rule (any_of (codes "no matching distribution" ∷ codes "could not find a version" ∷ []))
        ErrorType.dependency_error (fixed "Failed to install required package (not found)")
    ∷ rule (any_of (codes "error: externally-managed-environment" ∷ [])) ErrorType.dependency_error
        (fixed "Package installation failed (environment issue)")
    ∷ rule (any_of (codes "failed to download" ∷ codes "failed to fetch" ∷ []))
        ErrorType.dependency_error (fixed "Failed to download package (network issue)")
    ∷ rule (all_of (codes "resolving dependencies" ∷ codes "conflict" ∷ []))
        ErrorType.dependency_error (fixed "Package dependency conflict")
    ∷ rule (all_of (codes "docker" ∷ codes "not found" ∷ [])) ErrorType.docker_error
        (fixed "Docker image or command not found")
    ∷ rule (any_of (codes "circuit breaker" ∷ [])) ErrorType.service_unavailable
        (fixed "Service temporarily unavailable")
    ∷ []

-- The exit codes of signals.
abbrev pub signals : List (ℕ × ErrorType × String)
signals =
    (137, ErrorType.oom, "Execution exceeded memory limit")
    ∷ (143, ErrorType.cancelled, "Execution was terminated")
    ∷ (139, ErrorType.segfault, "Segmentation fault in executed code")
    ∷ (134, ErrorType.abort, "Process aborted (assertion failure or abort() called)")
    ∷ (136, ErrorType.arithmetic_error, "Floating point exception (division by zero)")
    ∷ (135, ErrorType.bus_error, "Bus error (invalid memory access)")
    ∷ (141, ErrorType.pipe_error, "Broken pipe")
    ∷ []

unfoldable pub signal_of : List (ℕ × ErrorType × String) → ℤ → Option (ErrorType × String)
signal_of [] code = none
signal_of ((n, type, text) ∷ ss) code =
    let rest = signal_of ss code in if is_code code n then some (type, text) else rest

-- `stderr[:n]`
unfoldable pub first_chars : ℕ → String → String
first_chars zero s = ""
first_chars (suc n) String.[] = ""
first_chars (suc n) (String.◌∷◌ c s) = String.◌∷◌ c (first_chars n s)

module _ (is_word is_decimal : ℕ → Bool) (shown_int : ℤ → String)
    (sanitize_error : String → String) where
  abbrev pub meets : Needle → Text → Bool
  meets (any_of ps) text = contains_any ps text
  meets (all_of ps) text = has_all ps text
  meets killed_phrase text = is_killed_from is_word is_decimal none text

  unfoldable pub start_of : String → String → String
  unfolding first_chars
  start_of default stderr =
      sanitize_error (if str_eq stderr "" then default else first_chars 200 stderr)

  unfoldable pub message_of : Message → String → String
  unfolding start_of
  message_of (fixed text) stderr = text
  message_of (excerpt default) stderr = start_of default stderr

  unfoldable pub first_rule : List Rule → String → Text → Option (ErrorType × String)
  unfolding contains_any has_all is_killed_from message_of
  first_rule [] stderr text = none
  first_rule (rule needle type message ∷ rs) stderr text =
      let rest = first_rule rs stderr text in
      if meets needle text then some (type, message_of message stderr) else rest

  -- The last answers, and the answer of the exit code or of stderr before them.
  unfoldable pub generic_error : ℤ → String → ErrorType × String
  unfolding first_chars
  generic_error code stderr =
      if not (is_code code 0)
      then (
        ErrorType.runtime_error,
        if str_eq stderr ""
            then String.◌++◌ "Exit code " (shown_int code)
            else sanitize_error (first_chars 200 stderr),
      )
      else (ErrorType.unknown, "Unknown error")

  abbrev pub or_generic : Option (ErrorType × String) → ℤ → String → ErrorType × String
  or_generic none code stderr = generic_error code stderr
  or_generic (some e) code stderr = e

  unfoldable pub classify_error : ℤ → String → Bool → ErrorType × String
  unfolding signal_of first_rule rules lower codes generic_error
  classify_error code stderr timed_out =
      if timed_out
      then (ErrorType.timeout, "Execution exceeded time limit")
      else or_generic
          (or_else (signal_of signals code) (first_rule rules stderr (lower (codes stderr)))) code
          stderr
