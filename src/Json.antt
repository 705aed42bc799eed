-- ===== src/Json.antt =====
-- JSON values, and what encoding/json does with them in internal/events/events.go and
-- internal/auth/verifier.go: the match of an object's key with a field's name, and the decoding of
-- one value into a field of a basic type. The text of a value is not part of the model: a payload
-- is the value that its bytes parse to, or bytes that are no JSON text.
use Prim.Native.Char.{code}
use mathlib.Core.Option
use noapp.Prelude.{
  ℕ, ◌-◌, String, Bool, true, false, ◌&&◌, Option, none, some, List, [], ◌∷◌, ℤ, in_int64, leb,
  ◌==◌, if◌then◌else◌,
}

-- A number is an integer literal, or a literal with a fraction or an exponent.
mutual
  pub data Json : Type 0 where
    null : Json
    bool : Bool → Json
    int : ℤ → Json
    real : String → Json
    str : String → Json
    arr : Items → Json
    obj : Fields → Json

  pub data Items : Type 0 where
    nil : Items
    cons : Json → Items → Items

  pub data Fields : Type 0 where
    end : Fields
    field : String → Json → Fields → Fields

-- A byte string, by what `json.Unmarshal` reads in it.
pub data Payload : Type 0 where
  json : Json → Payload
  malformed : String → Payload

-- Two keys are the same up to the case of ASCII letters; U+017F and U+212A fold to S and K.
fold_code : ℕ → ℕ
fold_code c =
    if leb b'a' c && leb c b'z'
    then c - 32
    else if c == 0x17f
    then b'S'
    else if c == 0x212a
    then b'K'
    else c

unfoldable pub key_is : String → String → Bool
unfolding fold_code
key_is String.[] String.[] = true
key_is String.[] (String.◌∷◌ c s) = false
key_is (String.◌∷◌ c s) String.[] = false
key_is (String.◌∷◌ c s) (String.◌∷◌ d t) = fold_code (code c) == fold_code (code d) && key_is s t

-- Decoding into a variable of type int64: `null` leaves it alone, a number out of range or no
-- integer literal is an error.
unfoldable pub as_int64 : Json → ℤ → Option ℤ
as_int64 null old = some old
as_int64 (int n) old = if in_int64 n then some n else none
as_int64 _ old = none

-- Into a string.
unfoldable pub as_string : Json → String → Option String
as_string null old = some old
as_string (str s) old = some s
as_string _ old = none

-- Into a pointer to an int64: `null` sets it to nil.
unfoldable pub as_int64_pointer : Json → Option ℤ → Option (Option ℤ)
as_int64_pointer null old = some none
as_int64_pointer (int n) old = if in_int64 n then some (some n) else none
as_int64_pointer _ old = none

-- Into a new slice of strings, element by element; `null` is a nil slice.
as_items : Items → Option (List String)
as_items nil = some []
as_items (cons null vs) = Option.map (λ ss. "" ∷ ss) (as_items vs)
as_items (cons (str s) vs) = Option.map (λ ss. s ∷ ss) (as_items vs)
as_items (cons _ vs) = none

unfoldable pub as_strings : Json → Option (List String)
unfolding as_items
as_strings null = some []
as_strings (arr vs) = as_items vs
as_strings _ = none
