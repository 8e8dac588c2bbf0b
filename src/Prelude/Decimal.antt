-- ===== src/Prelude/Decimal.antt =====
-- strconv: FormatInt in base 10 and ParseInt in base 10.
use Prim.Native.Char.{Char, code}
use Prim.Native.Nat.{ℕ, zero, suc, ◌+◌, ◌-◌, ◌*◌, ◌/◌, ◌%◌, ◌^◌, ◌<◌}
use Prim.Native.String.{String}
use mathlib.Core.Bool.{Bool, true, false, ◌&&◌}
use mathlib.Core.Logic.{◌≢◌, inl, inr}
use mathlib.Core.Option.{Option, none, some}
use mathlib.Core.Path.{◌≡◌, refl, ap, ◌∙◌}
use native.Mathlib.Omega.{arith}
use text.Mathlib.TextLemmas.{cons≢nil}
use vlanman.Prelude.Tests.{ltb, leb, eqb, ℤ, pos, negsuc, if◌then◌else◌, Bool-cases}

unfoldable pub digit_char : ℕ → Char
digit_char d =
    if eqb d 0
    then "0"
    else if eqb d 1
    then "1"
    else if eqb d 2
    then "2"
    else if eqb d 3
    then "3"
    else if eqb d 4
    then "4"
    else if eqb d 5
    then "5"
    else if eqb d 6
    then "6"
    else if eqb d 7
    then "7"
    else if eqb d 8
    then "8"
    else "9"

-- The digits of a number in front of a text. A number has fewer digits than its successor's count.
unfoldable pub put_digits : ℕ → ℕ → String → String
put_digits zero n s = s
put_digits (suc fuel) n s =
    let longer = String.◌∷◌ (digit_char (n % 10)) s in
    let rest = put_digits fuel (n / 10) longer in if ltb n 10 then longer else rest

unfoldable pub decimal : ℕ → String
unfolding put_digits digit_char
decimal n = put_digits (suc n) n ""

-- strconv.FormatInt(i, 10)
unfoldable pub format_int : ℤ → String
unfolding decimal
format_int (pos n) = decimal n
format_int (negsuc n) = String.◌∷◌ "-" (decimal (suc n))

abbrev is_digit : Char → Bool
is_digit c = leb b'0' (code c) && leb (code c) b'9'

unfoldable pub take_digits : ℕ → String → Option ℕ
take_digits acc String.[] = some acc
take_digits acc (String.◌∷◌ c s) =
    let rest = take_digits (acc * 10 + (code c - b'0')) s in if is_digit c then rest else none

-- What ParseInt returns: a value, or the value 0 with a syntax error, or the nearest bound with a
-- range error.
pub data ParsedInt : Type 0 where
  parsed : ℤ → ParsedInt
  bad_syntax : ParsedInt
  out_of_range : ℤ → ParsedInt

-- The value that a caller gets who drops the error.
abbrev pub parsed_value : ParsedInt → ℤ
parsed_value (parsed i) = i
parsed_value bad_syntax = pos 0
parsed_value (out_of_range i) = i

abbrev pub unsigned : String → Option ℕ
unsigned String.[] = none
unsigned (String.◌∷◌ c s) = take_digits 0 (String.◌∷◌ c s)

abbrev in_range_pos : ℕ → Option ℕ → ParsedInt
in_range_pos bits none = bad_syntax
in_range_pos bits (some n) =
    if ltb n (2 ^ (bits - 1)) then parsed (pos n) else out_of_range (pos (2 ^ (bits - 1) - 1))

-- -n is -(n - 1) - 1; -0 is 0.
abbrev in_range_neg : ℕ → Option ℕ → ParsedInt
in_range_neg bits none = bad_syntax
in_range_neg bits (some zero) = parsed (pos 0)
in_range_neg bits (some (suc n)) =
    if ltb n (2 ^ (bits - 1)) then parsed (negsuc n) else out_of_range (negsuc (2 ^ (bits - 1) - 1))

-- strconv.ParseInt(s, 10, bits)
unfoldable pub parse_int : ℕ → String → ParsedInt
unfolding take_digits
parse_int bits String.[] = bad_syntax
parse_int bits (String.◌∷◌ c s) =
    if eqb (code c) b'-'
    then in_range_neg bits (unsigned s)
    else if eqb (code c) b'+'
    then in_range_pos bits (unsigned s)
    else in_range_pos bits (take_digits 0 (String.◌∷◌ c s))

pub code-digit_char : (d : ℕ) → d < 10 → code (digit_char d) ≡ b'0' + d
unfolding digit_char
code-digit_char zero h = refl
code-digit_char (suc zero) h = refl
code-digit_char (suc (suc zero)) h = refl
code-digit_char (suc (suc (suc zero))) h = refl
code-digit_char (suc (suc (suc (suc zero)))) h = refl
code-digit_char (suc (suc (suc (suc (suc zero))))) h = refl
code-digit_char (suc (suc (suc (suc (suc (suc zero)))))) h = refl
code-digit_char (suc (suc (suc (suc (suc (suc (suc zero))))))) h = refl
code-digit_char (suc (suc (suc (suc (suc (suc (suc (suc zero)))))))) h = refl
code-digit_char (suc (suc (suc (suc (suc (suc (suc (suc (suc zero))))))))) h = refl
code-digit_char (suc (suc (suc (suc (suc (suc (suc (suc (suc (suc n)))))))))) h =
    absurd (omega arith)

acc_step : (acc d k : ℕ) → k ≡ b'0' + d → acc * 10 + (k - b'0') ≡ acc * 10 + d
acc_step acc d k e = omega arith

take_digits-digit :
    (acc d : ℕ) (s : String)
    → d < 10
    → take_digits acc (String.◌∷◌ (digit_char d) s) ≡ take_digits (acc * 10 + d) s
unfolding take_digits
take_digits-digit acc d s h = ground (
  arith,
  code-digit_char d h,
  ap (λ (k : ℕ). take_digits k s) (acc_step acc d (code (digit_char d)) (code-digit_char d h)),
)

pub take_digits-put_digits :
    (fuel n : ℕ) (s : String) → n < fuel → take_digits 0 (put_digits fuel n s) ≡ take_digits n s
unfolding put_digits
take_digits-put_digits zero n s h = absurd (omega arith)
take_digits-put_digits (suc fuel) n s h = elim (Bool-cases (ltb n 10)) [
  | inl small ↦ rw small (
      take_digits-digit 0 (n % 10) s (omega arith) ∙ ap (λ (k : ℕ). take_digits k s) (ground arith))
  | inr large ↦ rw large (
      take_digits-put_digits fuel (n / 10) (String.◌∷◌ (digit_char (n % 10)) s) (ground arith)
      ∙ take_digits-digit (n / 10) (n % 10) s (omega arith)
      ∙ ap (λ (k : ℕ). take_digits k s) (omega arith))
]

take_digits-nil : (n : ℕ) → take_digits n "" ≡ some n
unfolding take_digits
take_digits-nil n = refl

-- The digits of a number are read back as the number.
pub take_digits-decimal : (n : ℕ) → take_digits 0 (decimal n) ≡ some n
unfolding decimal
take_digits-decimal n = take_digits-put_digits (suc n) n "" (omega arith) ∙ take_digits-nil n

put_digits-cons : (fuel n : ℕ) (c : Char) (s : String) → put_digits fuel n (String.◌∷◌ c s) ≢ ""
unfolding put_digits
put_digits-cons zero n c s = cons≢nil
put_digits-cons (suc fuel) n c s = elim (Bool-cases (ltb n 10)) [
  | inl small ↦ rw small cons≢nil
  | inr large ↦ rw large (put_digits-cons fuel (n / 10) (digit_char (n % 10)) (String.◌∷◌ c s))
]

pub decimal-ne-nil : (n : ℕ) → decimal n ≢ ""
unfolding decimal
decimal-ne-nil n = elim (Bool-cases (ltb n 10)) [
  | inl small ↦ rw small cons≢nil
  | inr large ↦ rw large (put_digits-cons n (n / 10) (digit_char (n % 10)) "")
]

lt→ltb : (a b : ℕ) → a < b → ltb a b ≡ true
lt→ltb a b h = ground arith

digit_signs :
    (c : Char) → is_digit c ≡ true → (eqb (code c) b'-' ≡ false) × (eqb (code c) b'+' ≡ false)
digit_signs c h = ground arith

-- A text that is all digits has no sign in front.
parse_int-digits :
    (bits n : ℕ) (s : String)
    → take_digits 0 s ≡ some n
    → s ≢ ""
    → n < 2 ^ (bits - 1)
    → parse_int bits s ≡ parsed (pos n)
unfolding parse_int
parse_int-digits bits n String.[] h ne lt = absurd (ne refl)
parse_int-digits bits n (String.◌∷◌ c s) h ne lt = elim (Bool-cases (is_digit c)) [
  | inl digit ↦ rw ((digit_signs c digit).0, (digit_signs c digit).1, h, lt→ltb _ _ lt) refl
  | inr other ↦ ground arith
]

parse_int-minus :
    (bits n : ℕ) (s : String)
    → take_digits 0 s ≡ some (suc n)
    → s ≢ ""
    → n < 2 ^ (bits - 1)
    → parse_int bits (String.◌∷◌ "-" s) ≡ parsed (negsuc n)
unfolding parse_int
parse_int-minus bits n String.[] h ne lt = absurd (ne refl)
parse_int-minus bits n (String.◌∷◌ c s) h ne lt = rw (h, lt→ltb _ _ lt) refl

-- The integers of `bits` bits in two's complement.
abbrev pub InBits : ℕ → ℤ → Type 0
InBits bits (pos n) = n < 2 ^ (bits - 1)
InBits bits (negsuc n) = n < 2 ^ (bits - 1)

-- An integer in range is read back from its text.
pub parse_int-format_int :
    (bits : ℕ) (i : ℤ) → InBits bits i → parse_int bits (format_int i) ≡ parsed i
unfolding format_int
parse_int-format_int bits (pos n) h =
    parse_int-digits bits n (decimal n) (take_digits-decimal n) (decimal-ne-nil n) h
parse_int-format_int bits (negsuc n) h =
    parse_int-minus bits n (decimal (suc n)) (take_digits-decimal (suc n)) (decimal-ne-nil (suc n))
      h

-- The text of an integer is not empty.
pub format_int-ne-nil : (i : ℤ) → format_int i ≢ ""
unfolding format_int
format_int-ne-nil (pos n) = decimal-ne-nil n
format_int-ne-nil (negsuc n) = cons≢nil
