-- ===== src/Prelude/Texts/Hex.antt =====
-- Hexadecimal digits: hex.EncodeToString of bytes, and strconv.FormatInt at base 16.
use Prim.Native.Nat.{ℕ, zero, suc, ◌+◌, ◌*◌, ◌/◌, ◌%◌, ◌≤◌, ◌<◌}
use Prim.Native.String
use Prim.Native.Char.{code}
use Prim.Native.String.{String}
use mathlib.Core.Path.{◌≡◌, refl}
use mathlib.Core.Bool.{Bool, true, ◌&&◌}
use mathlib.Core.List.{List, [], ◌∷◌}
use native.Mathlib.Omega.{arith}
use noapp.Prelude.Tests.{if◌then◌else◌, ltb}
use noapp.Prelude.Integers.{ℤ, pos, negsuc}
use noapp.Prelude.Lists.{length}
use noapp.Prelude.Texts.{byte_length}
use noapp.Prelude.Texts.Digits.{nil-append, cons-append}

-- The character at a position, and f past the end.
nth_char : ℕ → String → String
nth_char n String.[] = "f"
nth_char zero (String.◌∷◌ c s) = String.◌∷◌ c ""
nth_char (suc n) (String.◌∷◌ c s) = nth_char n s

hex_digit : ℕ → String
unfolding nth_char
hex_digit n = nth_char n "0123456789abcdef"

-- Two digits for each byte.
unfoldable pub hex_bytes : List ℕ → String
unfolding hex_digit
hex_bytes [] = ""
hex_bytes (b ∷ bs) =
    String.◌++◌ (hex_digit (b / 16)) (String.◌++◌ (hex_digit (b % 16)) (hex_bytes bs))

hex_number : ℕ → ℕ → String
hex_number zero n = ""
hex_number (suc fuel) n =
    let high = hex_number fuel (n / 16) in
    if ltb n 16 then hex_digit n else String.◌++◌ high (hex_digit (n % 16))

-- Sixteen digits are enough for an int64.
unfoldable pub format_hex : ℤ → String
unfolding hex_number hex_digit
format_hex (pos n) = hex_number 16 n
format_hex (negsuc n) = String.◌++◌ "-" (hex_number 16 (suc n))

byte_length-append : (s t : String) → byte_length (String.◌++◌ s t) ≡ byte_length s + byte_length t
byte_length-append String.[] t = ground (arith, nil-append t)
byte_length-append (String.◌∷◌ c s) t =
    rw (cons-append c s t) (ground (arith, byte_length-append s t))

abbrev is_ascii : String → Bool
is_ascii String.[] = true
is_ascii (String.◌∷◌ c s) = ltb (code c) 0x80 && is_ascii s

byte_length-nth_char : (n : ℕ) (s : String) → is_ascii s ≡ true → byte_length (nth_char n s) ≡ 1
unfolding nth_char
byte_length-nth_char n String.[] h = refl
byte_length-nth_char zero (String.◌∷◌ c s) h = ground arith
byte_length-nth_char (suc n) (String.◌∷◌ c s) h = byte_length-nth_char n s (ground arith)

byte_length-hex_digit : (n : ℕ) → byte_length (hex_digit n) ≡ 1
unfolding hex_digit
byte_length-hex_digit n = byte_length-nth_char n "0123456789abcdef" refl

pub byte_length-hex_bytes : (bs : List ℕ) → byte_length (hex_bytes bs) ≡ 2 * length bs
unfolding hex_bytes
byte_length-hex_bytes [] = refl
byte_length-hex_bytes (b ∷ bs) = omega (
  arith,
  byte_length-append (hex_digit (b / 16)) (String.◌++◌ (hex_digit (b % 16)) (hex_bytes bs)),
  byte_length-append (hex_digit (b % 16)) (hex_bytes bs),
  byte_length-hex_digit (b / 16),
  byte_length-hex_digit (b % 16),
  byte_length-hex_bytes bs,
)

byte_length-hex_number :
    (fuel n : ℕ)
    → (byte_length (hex_number fuel n) ≤ fuel) × (0 < fuel → 0 < byte_length (hex_number fuel n))
unfolding hex_number
byte_length-hex_number zero n = (omega arith, λ h. h)
byte_length-hex_number (suc fuel) n =
    let high = byte_length-hex_number fuel (n / 16) in
    ground (
      arith,
      high,
      byte_length-hex_digit n,
      byte_length-hex_digit (n % 16),
      byte_length-append (hex_number fuel (n / 16)) (hex_digit (n % 16)),
    )

pub byte_length-format_hex :
    (a : ℤ) → (byte_length (format_hex a) ≤ 17) × (0 < byte_length (format_hex a))
unfolding format_hex
byte_length-format_hex (pos n) =
    let (most, some_digit) = byte_length-hex_number 16 n in (omega arith, some_digit (omega arith))
byte_length-format_hex (negsuc n) =
    omega (arith, byte_length-append "-" (hex_number 16 (suc n)), byte_length-hex_number 16 (suc n))
