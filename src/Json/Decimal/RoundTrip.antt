-- ===== src/Json/Decimal/RoundTrip.antt =====
-- The integers that include/reflgen/json/writer.h writes, as include/reflgen/json/reader.h reads them.
use reflgen_cpp.Common.{
  ℕ, zero, suc, ◌+◌, ◌-◌, ◌*◌, ◌/◌, ◌%◌, ◌^◌, ◌≤◌, ◌<◌, ◌≡◌, refl, Bool, true, false, List, [], ◌∷◌,
  ◌++◌, ltb, leb, ◌==◌, All-append, arith, append_assoc, Bool-cases, inl, inr, some,
}
use reflgen_cpp.Json.Decimal.{
  digits_from, to_chars_uint, to_chars_int, value_from, from_chars_uint, from_chars_int,
}
use reflgen_cpp.Json.Numbers.{is_digit, is_integer_token}
use reflgen_cpp.Json.Scanning.{AreDigits, IsWhole, NumberText, IsNumber, no_exponent}

digits_from-append :
    (fuel n : ℕ) (later : List ℕ) → digits_from fuel n later ≡ digits_from fuel n [] ++ later
digits_from-append zero n later = refl
digits_from-append (suc fuel) n later = elim (Bool-cases (ltb n 10)) [
  | inl e ↦ rw e
  | inr e ↦ rw (
    e,
    digits_from-append fuel (n / 10) ((b'0' + n % 10) ∷ later),
    digits_from-append fuel (n / 10) ((b'0' + n % 10) ∷ []),
    append_assoc,
  )
]

-- Digits that do not begin with a zero.
abbrev IsPositive : List ℕ → Type 0
IsPositive [] = ⊥
IsPositive (c ∷ cs) = (is_digit c ≡ true) × ((c == b'0') ≡ false) × AreDigits cs

IsPositive-append : (xs ys : List ℕ) → IsPositive xs → AreDigits ys → IsPositive (xs ++ ys)
IsPositive-append [] ys h k = absurd h
IsPositive-append (x ∷ xs) ys (p, q, hs) k = (p, q, All-append _ xs ys hs k)

digit-is_digit : (n : ℕ) → is_digit (b'0' + n % 10) ≡ true
digit-is_digit n = ground arith

digits_from-IsPositive :
    (fuel n : ℕ) → 1 ≤ n → n < 10 ^ suc fuel → IsPositive (digits_from (suc fuel) n [])
digits_from-IsPositive zero n h hn =
    let small : ltb n 10 ≡ true = ground arith in rw small (ground arith)
digits_from-IsPositive (suc fuel) n h hn = elim (Bool-cases (ltb n 10)) [
  | inl e ↦ rw e (ground arith)
  | inr e ↦
      let tens : 10 ≤ n = ground arith in
      rw (e, digits_from-append (suc fuel) (n / 10) ((b'0' + n % 10) ∷ []))
        (IsPositive-append (digits_from (suc fuel) (n / 10) []) ((b'0' + n % 10) ∷ [])
          (digits_from-IsPositive fuel (n / 10) (omega arith) (omega arith)) (digit-is_digit n, tt))
]

value_from-append :
    (acc : ℕ) (xs ys : List ℕ) → value_from acc (xs ++ ys) ≡ value_from (value_from acc xs) ys
value_from-append acc [] ys = refl
value_from-append acc (x ∷ xs) ys = value_from-append (acc * 10 + (x - b'0')) xs ys

value_from-digits_from :
    (fuel n : ℕ) → n < 10 ^ suc fuel → value_from 0 (digits_from (suc fuel) n []) ≡ n
value_from-digits_from zero n hn =
    let small : ltb n 10 ≡ true = ground arith in rw small (omega arith)
value_from-digits_from (suc fuel) n hn = elim (Bool-cases (ltb n 10)) [
  | inl e ↦ let small : n < 10 = ground arith in rw e (omega arith)
  | inr e ↦
      rw
        (
          e,
          digits_from-append (suc fuel) (n / 10) ((b'0' + n % 10) ∷ []),
          value_from-append 0 (digits_from (suc fuel) (n / 10) []) ((b'0' + n % 10) ∷ []),
          value_from-digits_from fuel (n / 10) (omega arith),
        )
        (omega arith)
]

pub to_chars_uint-IsWhole : (n : ℕ) → n < 10 ^ 20 → IsWhole (to_chars_uint n)
unfolding to_chars_uint
to_chars_uint-IsWhole zero h = (refl, inr refl, tt)
to_chars_uint-IsWhole (suc n) h =
    positive (digits_from 20 (suc n) []) (digits_from-IsPositive 19 (suc n) (omega arith) h)
  where
    positive : (ds : List ℕ) → IsPositive ds → IsWhole ds
    positive [] p = absurd p
    positive (d ∷ ds) (p, q, ps) = (p, inl q, ps)

value_from-to_chars_uint : (n : ℕ) → n < 10 ^ 20 → value_from 0 (to_chars_uint n) ≡ n
unfolding to_chars_uint
value_from-to_chars_uint n h = value_from-digits_from 19 n h

pub from_chars_uint-to_chars_uint :
    (n : ℕ) → n < 2 ^ 64 → from_chars_uint (to_chars_uint n) ≡ some n
unfolding from_chars_uint
from_chars_uint-to_chars_uint n h =
    let e = value_from-to_chars_uint n (omega arith) in
    let fits : ltb n (2 ^ 64) ≡ true = ground arith in rw (e, fits)

from_chars_int-whole :
    (ds : List ℕ) (n : ℕ)
    → IsWhole ds
    → value_from 0 ds ≡ n
    → n < 2 ^ 63
    → from_chars_int ds ≡ some n
unfolding from_chars_int
from_chars_int-whole [] n h e hn = absurd h
from_chars_int-whole (c ∷ cs) n (p, q, ps) e hn =
    let digit : (c == b'-') ≡ false = ground arith in
    let fits : ltb n (2 ^ 63) ≡ true = ground arith in rw (digit, e, fits)

pub from_chars_int-to_chars_int : (n : ℕ) → n < 2 ^ 64 → from_chars_int (to_chars_int n) ≡ some n
unfolding to_chars_int
from_chars_int-to_chars_int n h = elim (Bool-cases (ltb n (2 ^ 63))) [
  | inl e ↦
      let small : n < 2 ^ 63 = ground arith in
      rw e (
        from_chars_int-whole (to_chars_uint n) n (to_chars_uint-IsWhole n (omega arith))
          (value_from-to_chars_uint n (omega arith)) small)
  | inr e ↦
      let large : 2 ^ 63 ≤ n = ground arith in
      let fits : leb (2 ^ 64 - n) (2 ^ 63) ≡ true = ground arith in
      let back : (2 ^ 64 - (2 ^ 64 - n)) % 2 ^ 64 ≡ n = omega arith in
      rw e (
        unfold from_chars_int in
        rw (value_from-to_chars_uint (2 ^ 64 - n) (omega arith), fits, back))
]

-- An integer as a number of RFC 8259.
abbrev pub integer_text : Bool → List ℕ → NumberText
integer_text minus whole = record {
  minus = minus;
  whole = whole;
  fraction = [];
  power = no_exponent;
}

pub integer_text-IsNumber :
    (minus : Bool) (whole : List ℕ) → IsWhole whole → IsNumber (integer_text minus whole)
integer_text-IsNumber minus whole h = record {
  whole_digits = h;
  fraction_digits = tt;
  power_digits = tt;
}

AreDigits-is_integer_token : (ds : List ℕ) → AreDigits ds → is_integer_token ds ≡ true
AreDigits-is_integer_token [] h = refl
AreDigits-is_integer_token (c ∷ cs) (h, hs) = ground (arith, AreDigits-is_integer_token cs hs)

pub IsWhole-is_integer_token : (ds : List ℕ) → IsWhole ds → is_integer_token ds ≡ true
IsWhole-is_integer_token [] h = absurd h
IsWhole-is_integer_token (c ∷ cs) (h, _, hs) = AreDigits-is_integer_token (c ∷ cs) (h, hs)
