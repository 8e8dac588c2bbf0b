-- ===== src/Utils/Octets.antt =====
-- The bytes that IpToByteArray reads.
use Prim.Native.Char.{Char, code}
use text.Mathlib.TextLemmas.{nil-append, cons-append}
use vlanman.Prelude.{
  ℕ, zero, suc, ◌/◌, ◌%◌, ◌<◌, String, List, [], ◌∷◌, map, Option, none, some, Bool, true, not,
  ◌&&◌, ◌≡◌, ◌≢◌, refl, ◌∙◌, ap, All, length, ltb, eqb, arith, Bool-cases, Option-cases, inl, inr,
  if◌then◌else◌,
}
use vlanman.Prelude.Text.{◌⧺◌, join}
use vlanman.Prelude.Decimal.{
  digit_char, put_digits, decimal, unsigned, take_digits, code-digit_char, take_digits-decimal,
  decimal-ne-nil,
}
use vlanman.Utils.{put_char, split, parse_uint, bytes_of, ip_to_byte_array}

abbrev no_dot : String → Bool
no_dot String.[] = true
no_dot (String.◌∷◌ c s) = not (eqb (code c) b'.') && no_dot s

split-no_dot : (s : String) → no_dot s ≡ true → split s ≡ s ∷ []
unfolding split
split-no_dot String.[] h = refl
split-no_dot (String.◌∷◌ c s) h = ground (arith, split-no_dot s)

split-dot : (t : String) → split ("." ⧺ t) ≡ "" ∷ split t
unfolding split
split-dot t = rw cons-append (rw nil-append refl)

split-append : (s t : String) → no_dot s ≡ true → split (s ⧺ ("." ⧺ t)) ≡ s ∷ split t
unfolding split
split-append String.[] t h = rw nil-append (split-dot t)
split-append (String.◌∷◌ c s) t h = rw cons-append (ground (arith, split-append s t))

no_dot-digit : (d : ℕ) → d < 10 → not (eqb (code (digit_char d)) b'.') ≡ true
no_dot-digit d h = ground (arith, code-digit_char d h)

no_dot-put_digits :
    (fuel n : ℕ) (s : String) → no_dot s ≡ true → no_dot (put_digits fuel n s) ≡ true
unfolding put_digits
no_dot-put_digits zero n s h = h
no_dot-put_digits (suc fuel) n s h = elim (Bool-cases (ltb n 10)) [
  | inl small ↦ rw small (ground (arith, no_dot-digit (n % 10) (omega arith)))
  | inr large ↦ rw large (
      no_dot-put_digits fuel (n / 10) (String.◌∷◌ (digit_char (n % 10)) s)
        (ground (arith, no_dot-digit (n % 10) (omega arith))))
]

no_dot-decimal : (n : ℕ) → no_dot (decimal n) ≡ true
unfolding decimal
no_dot-decimal n = no_dot-put_digits (suc n) n "" refl

unsigned-digits : (s : String) → s ≢ "" → unsigned s ≡ take_digits 0 s
unsigned-digits String.[] h = absurd (h refl)
unsigned-digits (String.◌∷◌ c s) h = refl

parse_uint-decimal : (n : ℕ) → n < 256 → parse_uint 8 (decimal n) ≡ some n
unfolding parse_uint
parse_uint-decimal n h =
    rw (unsigned-digits (decimal n) (decimal-ne-nil n), take_digits-decimal n) (ground arith)

abbrev pub IsByte : ℕ → Type 0
IsByte n = n < 256

bytes_of-map : (bytes : List ℕ) → All IsByte bytes → bytes_of (map decimal bytes) ≡ some bytes
unfolding bytes_of
bytes_of-map [] h = refl
bytes_of-map (b ∷ bytes) (p, ps) =
    rw (parse_uint-decimal b p, bytes_of) (rw (bytes_of-map bytes ps, bytes_of) refl)

split-join :
    (b : ℕ) (bytes : List ℕ) → split (join (map decimal (b ∷ bytes)) ".") ≡ map decimal (b ∷ bytes)
unfolding join
split-join b [] = split-no_dot (decimal b) (no_dot-decimal b)
split-join b (b' ∷ bytes) =
    split-append (decimal b) (join (map decimal (b' ∷ bytes)) ".") (no_dot-decimal b)
    ∙ ap (◌∷◌ (decimal b)) (split-join b' bytes)

-- Bytes written in decimal with dots between them are read back, whatever their number.
pub ip_to_byte_array-join :
    (b : ℕ) (bytes : List ℕ)
    → All IsByte (b ∷ bytes)
    → ip_to_byte_array (join (map decimal (b ∷ bytes)) ".") ≡ some (b ∷ bytes)
unfolding ip_to_byte_array
ip_to_byte_array-join b bytes h = rw (split-join b bytes) (bytes_of-map (b ∷ bytes) h)

abbrev IsReadByte : Option ℕ → Type 0
IsReadByte none = Unit
IsReadByte (some n) = IsByte n

parse_uint-IsReadByte : (o : String) → IsReadByte (parse_uint 8 o)
unfolding parse_uint
parse_uint-IsReadByte o = elim (Option-cases (unsigned o)) [
  | inl e ↦ rw (e, parse_uint) tt
  | inr (n, e) ↦
      rw (e, parse_uint)
        (elim (Bool-cases (ltb n 256)) [
          | inl small ↦ rw small (ground arith)
          | inr large ↦ rw large tt
        ])
]

-- As many bytes as there are parts.
abbrev pub AreRead : ℕ → Option (List ℕ) → Type 0
AreRead parts none = Unit
AreRead parts (some bytes) = All IsByte bytes × (length bytes ≡ parts)

bytes_of-AreRead : (octets : List String) → AreRead (length octets) (bytes_of octets)
unfolding bytes_of
bytes_of-AreRead [] = (tt, refl)
bytes_of-AreRead (o ∷ octets) =
    one_more (parse_uint 8 o) (parse_uint-IsReadByte o) (bytes_of octets) (bytes_of-AreRead octets)
  where
    one_more :
        (u : Option ℕ)
        → IsReadByte u
        → (r : Option (List ℕ)) → AreRead (length octets) r
        → AreRead (suc (length octets)) (elim u [
          | none ↦ none
          | some i ↦ elim r [ none ↦ none | some bytes ↦ some (i ∷ bytes) ]
        ])
    one_more none b r rest = tt
    one_more (some i) b none rest = tt
    one_more (some i) b (some bytes) (all, same) = ((b, all), ap (λ (n : ℕ). suc n) same)

abbrev pub dots : String → ℕ
dots String.[] = 0
dots (String.◌∷◌ c s) = let rest = dots s in if eqb (code c) b'.' then suc rest else rest

length-put_char :
    (c : Char) (l : List String) (n : ℕ) → length l ≡ suc n → length (put_char c l) ≡ suc n
length-put_char c [] n h = absurd (omega (arith, h))
length-put_char c (s ∷ l) n h = h

length-split : (s : String) → length (split s) ≡ suc (dots s)
unfolding split
length-split String.[] = refl
length-split (String.◌∷◌ c s) = elim (Bool-cases (eqb (code c) b'.')) [
  | inl dot ↦ rw dot (ap (λ (n : ℕ). suc n) (length-split s))
  | inr other ↦ rw other (length-put_char c (split s) (dots s) (length-split s))
]

-- What is read of a text, if anything, is bytes, one more than the text has dots: four are not
-- asked for.
pub ip_to_byte_array-AreRead : (ip : String) → AreRead (suc (dots ip)) (ip_to_byte_array ip)
unfolding ip_to_byte_array
ip_to_byte_array-AreRead ip = rw (← length-split ip) (bytes_of-AreRead (split ip))
