-- ===== src/Texts.antt =====
-- Python's `str` where the program looks at characters: a text is the list of its code points.
use Prim.Native.Char.{code}
use Prim.Native.String
use tako_vm.Prelude.{
  ℕ, zero, suc, ◌+◌, ◌-◌, ◌*◌, ◌/◌, ◌%◌, String, Bool, true, false, not, ◌&&◌, ◌||◌, List, [], ◌∷◌,
  ◌++◌, ltb, leb, ◌==◌, if◌then◌else◌, Option, none, some, map_option,
}
use tako_vm.Models.{ℤ, pos, negsuc}
use tako_vm.Security.{Text, between, is_empty, has_char, same_text}
pub mod Laws

-- The code points of a literal.
unfoldable pub codes : String → Text
codes String.[] = []
codes (String.◌∷◌ c s) = code c ∷ codes s

-- `text.startswith(prefix)`
unfoldable pub starts_with : Text → Text → Bool
starts_with [] text = true
starts_with (p ∷ ps) [] = false
starts_with (p ∷ ps) (c ∷ cs) = p == c && starts_with ps cs

-- `pattern in text`
unfoldable pub find : Text → Text → Bool
unfolding starts_with
find pattern [] = is_empty pattern
find pattern (c ∷ cs) = starts_with pattern (c ∷ cs) || find pattern cs

-- `any(pattern in text for pattern in patterns)`
unfoldable pub contains_any : List Text → Text → Bool
unfolding find
contains_any [] text = false
contains_any (p ∷ ps) text = find p text || contains_any ps text

-- `text in (…)`
unfoldable pub is_one_of : Text → List Text → Bool
unfolding same_text
is_one_of text [] = false
is_one_of text (t ∷ ts) = same_text text t || is_one_of text ts

-- One character of `text.lower()`. Besides the capital letters, the Kelvin sign and the dotted I
-- have a small form with an ASCII letter; the others change no search for an ASCII text.
unfoldable pub lower_char : ℕ → Text
lower_char c =
    if between 65 90 c
    then (c + 32) ∷ []
    else if c == 8490
    then 107 ∷ []
    else if c == 304
    then 105 ∷ 775 ∷ []
    else c ∷ []

unfoldable pub lower : Text → Text
unfolding lower_char
lower [] = []
lower (c ∷ cs) = lower_char c ++ lower cs

-- `c.isspace()`
unfoldable pub is_space : ℕ → Bool
is_space c =
    between 9 13 c
    || between 28 32 c
    || c == 133
    || c == 160
    || c == 5760
    || between 8192 8202 c
    || c == 8232
    || c == 8233
    || c == 8239
    || c == 8287
    || c == 12288

unfoldable pub strip_left : Text → Text
unfolding is_space
strip_left [] = []
strip_left (c ∷ cs) = let rest = strip_left cs in if is_space c then rest else c ∷ cs

unfoldable pub strip_right : Text → Text
unfolding is_space
strip_right [] = []
strip_right (c ∷ cs) =
    let rest = strip_right cs in if is_empty rest && is_space c then [] else c ∷ rest

-- `text.strip()`
unfoldable pub strip : Text → Text
unfolding strip_left strip_right
strip s = strip_right (strip_left s)

-- The characters at which `splitlines` breaks.
abbrev pub is_line_break : ℕ → Bool
is_line_break c = between 10 13 c || between 28 30 c || c == 133 || c == 8232 || c == 8233

-- `text.splitlines()[0]` of a text that is not empty.
unfoldable pub first_line : Text → Text
first_line [] = []
first_line (c ∷ cs) = let rest = first_line cs in if is_line_break c then [] else c ∷ rest

-- The text before and after the first `separator`, as `split(separator, 1)` gives them.
unfoldable pub split_once : ℕ → Text → Option (Text × Text)
split_once separator [] = none
split_once separator (c ∷ cs) =
    let rest = split_once separator cs in
    if c == separator
    then some ([], cs)
    else elim rest [ none ↦ none | some (a, b) ↦ some (c ∷ a, b) ]

-- `text.split(separator)` for one character.
unfoldable pub split : ℕ → Text → List Text
split separator [] = [] ∷ []
split separator (c ∷ cs) =
    let rest = split separator cs in
    if c == separator then [] ∷ rest else elim rest [ [] ↦ (c ∷ []) ∷ [] | t ∷ ts ↦ (c ∷ t) ∷ ts ]

-- `separator.join(texts)`
unfoldable pub join : Text → List Text → Text
join separator [] = []
join separator (t ∷ []) = t
join separator (t ∷ u ∷ ts) = t ++ separator ++ join separator (u ∷ ts)

-- `str(n)`: the digits, on fuel above the number.
unfoldable pub digits : ℕ → ℕ → Text
digits zero n = []
digits (suc fuel) n =
    let front = digits fuel (n / 10) in
    if ltb n 10 then (48 + n) ∷ [] else front ++ (48 + n % 10) ∷ []

unfoldable pub shown : ℕ → Text
unfolding digits
shown n = digits (suc n) n

-- The digits of `int(text)`: an underscore stands between two digits only. The digits of other
-- scripts, which Python takes too, are refused here.
unfoldable pub digits_value : Bool → ℕ → Text → Option ℕ
digits_value after acc [] = if after then some acc else none
digits_value after acc (c ∷ cs) = elim (between 48 57 c) [
  | true ↦ digits_value true (acc * 10 + (c - 48)) cs
  | false ↦ elim (after && c == 95) [ true ↦ digits_value false acc cs | false ↦ none ]
]

abbrev negated : Option ℕ → Option ℤ
negated none = none
negated (some zero) = some (pos 0)
negated (some (suc n)) = some (negsuc n)

abbrev signed : Text → Option ℤ
unfolding digits_value
signed [] = none
signed (c ∷ cs) =
    if c == 45
    then negated (digits_value false 0 cs)
    else map_option pos (digits_value false 0 (if c == 43 then cs else c ∷ cs))

-- `int` raises ValueError for more than 4300 digits.
unfoldable pub digit_count : Text → ℕ
digit_count [] = 0
digit_count (c ∷ cs) = (if between 48 57 c then 1 else 0) + digit_count cs

-- `int(text)`, `none` for a ValueError.
unfoldable pub parse_int : Text → Option ℤ
unfolding digits_value digit_count strip
parse_int text = if leb (digit_count text) 4300 then signed (strip text) else none
