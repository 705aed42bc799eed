-- ===== src/Prelude/Texts/Digits.antt =====
-- Decimal digits: reading back what is printed, and splitting a text that has a number in it.
use Prim.Native.Nat.{ℕ, zero, suc, ◌+◌, ◌-◌, ◌*◌, ◌/◌, ◌%◌, ◌^◌, ◌<◌}
use Prim.Native.String
use Prim.Native.String.append
use Prim.Native.Char.{Char, code}
use Prim.Native.String.{String}
use mathlib.Core.Path.{◌≡◌, refl, ap, ◌∙◌}
use mathlib.Core.Logic.{inl, inr}
use mathlib.Core.Bool.{true, false}
use mathlib.Core.Option.{some}
use native.Mathlib.Omega.{arith}
use noapp.Prelude.Tests.{ltb, Bool-cases}
use noapp.Prelude.Integers.{pos, in_int64}
use noapp.Prelude.Texts.{
  has_char, digit, format_digits, format_int, parse_digits, parse_int, unsigned, in_range,
}

pub nil-append : (t : String) → String.◌++◌ "" t ≡ t
nil-append t = λ i. append.nil t i

pub cons-append :
    (c : Char) (s t : String) → String.◌++◌ (String.◌∷◌ c s) t ≡ String.◌∷◌ c (String.◌++◌ s t)
cons-append c s t = λ i. append.cons c s t i

pub append-nil : (s : String) → String.◌++◌ s "" ≡ s
append-nil String.[] = nil-append ""
append-nil (String.◌∷◌ c s) = rw (cons-append c s "", append-nil s) refl

parse_digits-append :
    (n m : ℕ) (s t : String)
    → parse_digits n s ≡ some m
    → parse_digits n (String.◌++◌ s t) ≡ parse_digits m t
unfolding parse_digits
parse_digits-append n m String.[] t h = ground (arith, nil-append t)
parse_digits-append n m (String.◌∷◌ c s) t h =
    rw (cons-append c s t) (ground (arith, parse_digits-append (n * 10 + (code c - 48)) m s t))

parse_digits-digit : (n d : ℕ) → d < 10 → parse_digits n (digit d) ≡ some (n * 10 + d)
unfolding parse_digits digit
parse_digits-digit n zero h = refl
parse_digits-digit n (suc zero) h = refl
parse_digits-digit n (suc (suc zero)) h = refl
parse_digits-digit n (suc (suc (suc zero))) h = refl
parse_digits-digit n (suc (suc (suc (suc zero)))) h = refl
parse_digits-digit n (suc (suc (suc (suc (suc zero))))) h = refl
parse_digits-digit n (suc (suc (suc (suc (suc (suc zero)))))) h = refl
parse_digits-digit n (suc (suc (suc (suc (suc (suc (suc zero))))))) h = refl
parse_digits-digit n (suc (suc (suc (suc (suc (suc (suc (suc zero)))))))) h = refl
parse_digits-digit n (suc (suc (suc (suc (suc (suc (suc (suc (suc zero))))))))) h = refl
parse_digits-digit n (suc (suc (suc (suc (suc (suc (suc (suc (suc (suc d)))))))))) h =
    absurd (omega arith)

parse_digits-format_digits :
    (fuel n : ℕ) → n < 10 ^ fuel → parse_digits 0 (format_digits fuel n) ≡ some n
unfolding format_digits parse_digits
parse_digits-format_digits zero n h = let none_left : 0 ≡ n = omega arith in ap some none_left
parse_digits-format_digits (suc fuel) n h = elim (Bool-cases (ltb n 10)) [
  | inl low ↦ rw low (parse_digits-digit 0 n (ground arith) ∙ ap some (omega arith))
  | inr high ↦ rw high (
      parse_digits-append 0 (n / 10) (format_digits fuel (n / 10)) (digit (n % 10))
        (parse_digits-format_digits fuel (n / 10) (omega arith))
      ∙ parse_digits-digit (n / 10) (n % 10) (omega arith)
      ∙ ap some (omega arith))
]

digits-no_slash : (n m : ℕ) (s : String) → parse_digits n s ≡ some m → has_char b'/' s ≡ false
unfolding parse_digits has_char
digits-no_slash n m String.[] h = refl
digits-no_slash n m (String.◌∷◌ c s) h =
    ground (arith, digits-no_slash (n * 10 + (code c - 48)) m s)

parse_int-digits :
    (n : ℕ) (s : String)
    → 0 < n
    → in_int64 (pos n) ≡ true
    → parse_digits 0 s ≡ some n
    → parse_int s ≡ some (pos n)
unfolding parse_int parse_digits unsigned in_range
parse_int-digits n String.[] p r h = absurd (ground arith)
parse_int-digits n (String.◌∷◌ c s) p r h = ground arith

format_int-digits : (n : ℕ) → in_int64 (pos n) ≡ true → parse_digits 0 (format_int (pos n)) ≡ some n
unfolding format_int
format_int-digits n r = parse_digits-format_digits 20 n (ground arith)

-- A positive int64 is read back.
pub parse_int-format_int :
    (n : ℕ) → 0 < n → in_int64 (pos n) ≡ true → parse_int (format_int (pos n)) ≡ some (pos n)
parse_int-format_int n p r = parse_int-digits n (format_int (pos n)) p r (format_int-digits n r)

pub format_int-no_slash :
    (n : ℕ) → in_int64 (pos n) ≡ true → has_char b'/' (format_int (pos n)) ≡ false
format_int-no_slash n r = digits-no_slash 0 n (format_int (pos n)) (format_int-digits n r)
