-- ===== src/Security/Classify/Known.antt =====
-- tako_vm/security.py: which failures classify_error tells the cause of.
use tako_vm.Prelude.{
  ℕ, String, Option, none, some, Bool, true, false, ◌&&◌, List, [], ◌∷◌, ◌≡◌, refl, arith, or_else,
  if◌then◌else◌,
}
use tako_vm.Models.{ℤ, is_code, ErrorType}
use tako_vm.Security.{Text}
use tako_vm.Texts.{codes, lower}
use tako_vm.Security.Classify.{
  Rule, rule, rules, meets, message_of, first_rule, signals, signal_of, generic_error, or_generic,
  classify_error,
}

abbrev pub is_known : ErrorType → Bool
is_known ErrorType.unknown = false
is_known _ = true

abbrev all_known : List Rule → Bool
all_known [] = true
all_known (rule needle type message ∷ rs) = is_known type && all_known rs

abbrev IsKnown : Option (ErrorType × String) → Type 0
IsKnown none = Unit
IsKnown (some e) = is_known e.0 ≡ true

one_of-IsKnown :
    (found : Bool) (e : ErrorType × String) (rest : Option (ErrorType × String))
    → is_known e.0 ≡ true
    → IsKnown rest
    → IsKnown (if found then some e else rest)
one_of-IsKnown true e rest known others = known
one_of-IsKnown false e rest known others = others

rules_known : all_known rules ≡ true
unfolding rules
rules_known = refl

abbrev all_signals : List (ℕ × ErrorType × String) → Bool
all_signals [] = true
all_signals ((n, type, text) ∷ ss) = is_known type && all_signals ss

signal_of-IsKnown :
    (ss : List (ℕ × ErrorType × String)) (code : ℤ)
    → all_signals ss ≡ true
    → IsKnown (signal_of ss code)
unfolding signal_of
signal_of-IsKnown [] code known = tt
signal_of-IsKnown ((n, type, text) ∷ ss) code known =
    one_of-IsKnown (is_code code n) (type, text) (signal_of ss code) (ground (arith, known))
      (signal_of-IsKnown ss code (ground (arith, known)))

module _ (is_word is_decimal : ℕ → Bool) (shown_int : ℤ → String)
    (sanitize_error : String → String) where
  first_rule-IsKnown :
      (rs : List Rule) (stderr : String) (text : Text)
      → all_known rs ≡ true
      → IsKnown (first_rule is_word is_decimal shown_int sanitize_error rs stderr text)
  unfolding first_rule
  first_rule-IsKnown [] stderr text known = tt
  first_rule-IsKnown (rule needle type message ∷ rs) stderr text known =
      one_of-IsKnown (meets is_word is_decimal shown_int sanitize_error needle text)
        (type, message_of is_word is_decimal shown_int sanitize_error message stderr)
        (first_rule is_word is_decimal shown_int sanitize_error rs stderr text)
        (ground (arith, known)) (first_rule-IsKnown rs stderr text (ground (arith, known)))

  answer_known :
      (signal found : Option (ErrorType × String)) (code : ℤ) (stderr : String)
      → IsKnown signal
      → IsKnown found
      → is_code code 0 ≡ false
      → is_known
          (or_generic is_word is_decimal shown_int sanitize_error
            (or_else signal found)
            code
            stderr).0
        ≡ true
  unfolding generic_error
  answer_known (some e) found code stderr s f failed = s
  answer_known none (some e) code stderr s f failed = f
  answer_known none none code stderr s f failed = rw failed refl

  pub classify_error_known :
      (code : ℤ) (stderr : String) (timed_out : Bool)
      → is_code code 0 ≡ false
      → is_known
          (classify_error is_word is_decimal shown_int sanitize_error code stderr timed_out).0
        ≡ true
  unfolding classify_error
  classify_error_known code stderr true failed = refl
  classify_error_known code stderr false failed =
      answer_known (signal_of signals code) _ code stderr (signal_of-IsKnown signals code refl)
        (first_rule-IsKnown rules stderr (lower (codes stderr)) rules_known) failed
