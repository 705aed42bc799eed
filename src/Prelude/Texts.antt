-- ===== src/Prelude/Texts.antt =====
-- Texts: the operations of Go's package strings that the program calls, by recursion on characters.
pub mod Digits
pub mod Pieces
pub mod Hex
use Prim.Native.Nat.{ℕ, zero, suc, ◌+◌, ◌-◌, ◌*◌, ◌/◌, ◌%◌}
use Prim.Native.String
use Prim.Native.Char.{Char, code}
use Prim.Native.String.{String}
use mathlib.Core.Bool.{Bool, true, false, ◌&&◌, ◌||◌}
use mathlib.Core.List.{List, [], ◌∷◌}
use mathlib.Core.Option.{Option, none, some}
use text.Mathlib.Text.{◌==◌ as text_eq}
use noapp.Prelude.Tests.{if◌then◌else◌, ltb, leb, ◌==◌}
use noapp.Prelude.Integers.{ℤ, pos, negsuc, in_int64}
pub use text.Mathlib.Text.{◌==◌ as str_eq}

-- The first n characters.
unfoldable pub take_text : ℕ → String → String
take_text zero s = ""
take_text (suc n) String.[] = ""
take_text (suc n) (String.◌∷◌ c s) = String.◌∷◌ c (take_text n s)

-- What follows a prefix, if the text has it: strings.HasPrefix with strings.TrimPrefix.
unfoldable pub strip_prefix : String → String → Option String
strip_prefix String.[] s = some s
strip_prefix (String.◌∷◌ c p) String.[] = none
strip_prefix (String.◌∷◌ c p) (String.◌∷◌ d s) =
    let rest = strip_prefix p s in if code c == code d then rest else none

-- Membership of a text, as a test.
abbrev pub has_text : String → List String → Bool
has_text t [] = false
has_text t (s ∷ ss) = text_eq s t || has_text t ss

-- Decimal digits: strconv.FormatInt at base 10. Twenty digits are enough for an int64.
digit : ℕ → String
digit n =
    if n == 0
    then "0"
    else if n == 1
    then "1"
    else if n == 2
    then "2"
    else if n == 3
    then "3"
    else if n == 4
    then "4"
    else if n == 5
    then "5"
    else if n == 6
    then "6"
    else if n == 7
    then "7"
    else if n == 8
    then "8"
    else "9"

format_digits : ℕ → ℕ → String
format_digits zero n = ""
format_digits (suc fuel) n =
    let high = format_digits fuel (n / 10) in
    if ltb n 10 then digit n else String.◌++◌ high (digit (n % 10))

unfoldable pub format_int : ℤ → String
unfolding format_digits digit
format_int (pos n) = format_digits 20 n
format_int (negsuc n) = String.◌++◌ "-" (format_digits 20 (suc n))

-- unicode.IsSpace
is_space : ℕ → Bool
is_space c =
    leb 9 c && leb c 13
    || c == 0x20
    || c == 0x85
    || c == 0xa0
    || c == 0x1680
    || leb 0x2000 c && leb c 0x200a
    || c == 0x2028
    || c == 0x2029
    || c == 0x202f
    || c == 0x205f
    || c == 0x3000

trim_left : String → String
trim_left String.[] = ""
trim_left (String.◌∷◌ c s) =
    let rest = trim_left s in if is_space (code c) then rest else String.◌∷◌ c s

trim_right : String → String
trim_right String.[] = ""
trim_right (String.◌∷◌ c s) =
    let rest = trim_right s in
    if text_eq rest "" && is_space (code c) then "" else String.◌∷◌ c rest

-- strings.TrimRight for one character
unfoldable pub trim_right_char : ℕ → String → String
trim_right_char k String.[] = ""
trim_right_char k (String.◌∷◌ c s) =
    let rest = trim_right_char k s in
    if text_eq rest "" && (code c == k) then "" else String.◌∷◌ c rest

-- strings.TrimSpace
unfoldable pub trim_space : String → String
unfolding trim_left trim_right is_space
trim_space s = trim_right (trim_left s)

-- strings.Contains for one character
unfoldable pub has_char : ℕ → String → Bool
has_char k String.[] = false
has_char k (String.◌∷◌ c s) = code c == k || has_char k s

onto_first : Char → List String → List String
onto_first c [] = String.◌∷◌ c "" ∷ []
onto_first c (p ∷ ps) = String.◌∷◌ c p ∷ ps

-- strings.Split at one character
unfoldable pub split_at : ℕ → String → List String
unfolding onto_first
split_at k String.[] = "" ∷ []
split_at k (String.◌∷◌ c s) =
    let rest = split_at k s in if code c == k then "" ∷ rest else onto_first c rest

-- strings.Contains
unfoldable pub contains_text : String → String → Bool
unfolding strip_prefix
contains_text String.[] part = text_eq part ""
contains_text (String.◌∷◌ c s) part = elim (strip_prefix part (String.◌∷◌ c s)) [
  | none ↦ contains_text s part
  | some t ↦ true
]

parse_digits : ℕ → String → Option ℕ
parse_digits n String.[] = some n
parse_digits n (String.◌∷◌ c s) =
    let rest = parse_digits (n * 10 + (code c - 48)) s in
    if leb 48 (code c) && leb (code c) 57 then rest else none

unsigned : String → Option ℕ
unsigned String.[] = none
unsigned (String.◌∷◌ c s) = parse_digits 0 (String.◌∷◌ c s)

in_range : ℤ → Option ℤ
in_range n = if in_int64 n then some n else none

-- -n
minus : ℕ → ℤ
minus zero = pos 0
minus (suc n) = negsuc n

-- strconv.ParseInt at base 10 and 64 bits
unfoldable pub parse_int : String → Option ℤ
unfolding unsigned parse_digits in_range minus
parse_int String.[] = none
parse_int (String.◌∷◌ c s) =
    if code c == b'-'
    then elim (unsigned s) [ none ↦ none | some n ↦ in_range (minus n) ]
    else elim (unsigned (if code c == b'+' then s else String.◌∷◌ c s)) [
      | none ↦ none
      | some n ↦ in_range (pos n)
    ]

-- len of a string: the bytes of its UTF-8 form.
abbrev pub byte_length : String → ℕ
byte_length String.[] = 0
byte_length (String.◌∷◌ c s) =
    (if ltb (code c) 0x80
      then 1
      else if ltb (code c) 0x800
      then 2
      else if ltb (code c) 0x10000
      then 3
      else 4)
    + byte_length s
