-- ===== src/Json/ReadCalls.antt =====
-- The calls of include/reflgen/json/reader.h before the text that include/reflgen/json/writer.h writes.
use reflgen_cpp.Common.{
  ℕ, ◌-◌, ◌^◌, ◌<◌, ◌≡◌, refl, sym, ◌∙◌, ap, Bool, true, false, List, [], ◌∷◌, ◌++◌, append_assoc,
  append-nil, ltb, ◌==◌, if◌then◌else◌, arith, Bool-cases, inl, inr,
}
use mathlib.Core.Path.{subst}
use reflgen_cpp.Common.Outcome.{ok}
use reflgen_cpp.Serial.Utf.Encoding.{utf8}
use reflgen_cpp.Serial.Utf.Strings.{flat}
use reflgen_cpp.Json.Base64.{codes}
use reflgen_cpp.Json.Decimal.{to_chars_int, to_chars_uint}
use reflgen_cpp.Json.Decimal.RoundTrip.{
  to_chars_uint-IsWhole, from_chars_uint-to_chars_uint, from_chars_int-to_chars_int, integer_text,
  integer_text-IsNumber, IsWhole-is_integer_token,
}
use reflgen_cpp.Json.Numbers.{is_integer_token, scan_number}
use reflgen_cpp.Json.Scanning.{
  Stops, IsWhole, NumberText, IsNumber, number_text, minus_text, fraction_text, exponent_text,
  scan_number-number_text,
}
use reflgen_cpp.Json.Quoting.{quoted, parse_string-quoted}
use reflgen_cpp.Json.Encoding.{IsText}
use reflgen_cpp.Json.Input.{Frame, at, skip_whitespace, is_whitespace, current_of}
use reflgen_cpp.Json.Steps.{over, skip_whitespace-append, expect_literal-append}
use reflgen_cpp.Json.Reader.{
  read_null, read_bool, read_int, read_uint, read_string, expect_char, is_negative,
}

-- The character at `position_` is not white space, so that `skip_whitespace` stays.
pub stay :
    (before rest : List ℕ) (d : ℕ) (st : List Frame)
    → is_whitespace (current_of rest) ≡ false
    → skip_whitespace (at before rest d st) ≡ ok (tt, at before rest d st)
stay before rest d st h = skip_whitespace-append [] before rest d st tt h

module _ (before rest : List ℕ) (d : ℕ) (st : List Frame) where
  pub read_null-text :
      read_null (at before (codes "null" ++ rest) d st)
      ≡ ok (tt, at (over (codes "null") before) rest d st)
  unfolding read_null
  read_null-text = rw (
    stay before (codes "null" ++ rest) d st refl,
    expect_literal-append (codes "null") "expected 'null'" before rest d st,
  )

  pub read_bool-text :
      (b : Bool)
      → let text = if b then codes "true" else codes "false" in
        read_bool (at before (text ++ rest) d st) ≡ ok (b, at (over text before) rest d st)
  unfolding read_bool
  read_bool-text true = rw (
    stay before (codes "true" ++ rest) d st refl,
    expect_literal-append (codes "true") "expected 'true'" before rest d st,
  )
  read_bool-text false = rw (
    stay before (codes "false" ++ rest) d st refl,
    expect_literal-append (codes "false") "expected 'false'" before rest d st,
  )

  pub read_string-text :
      (s : List ℕ)
      → IsText s
      → read_string (at before (quoted s ++ rest) d st)
        ≡ ok (s, at (over (quoted s) before) rest d st)
  unfolding read_string expect_char
  read_string-text s (cs, h, e) = rw (
    e,
    stay before (quoted (flat utf8 cs) ++ rest) d st refl,
    parse_string-quoted cs before rest d st h,
  )

-- The text of a value begins with no white space and no closing bracket.
pub record Starts (text : List ℕ) : Type 0 where
  pub no_space : is_whitespace (current_of text) ≡ false
  pub no_bracket : (current_of text == b']') ≡ false
  pub no_brace : (current_of text == b'}') ≡ false

whole-Starts :
    (minus : Bool) (whole rest : List ℕ)
    → IsWhole whole
    → Starts (minus_text minus ++ (whole ++ rest))
whole-Starts true whole rest h = record { no_space = refl; no_bracket = refl; no_brace = refl }
whole-Starts false [] rest h = absurd h
whole-Starts false (c ∷ cs) rest (h, _, _) = record {
  no_space = ground arith;
  no_bracket = ground arith;
  no_brace = ground arith;
}

pub number_text-Starts :
    (n : NumberText) (rest : List ℕ) → IsNumber n → Starts (number_text n ++ rest)
number_text-Starts n rest h =
    let tail = fraction_text n.fraction ++ exponent_text n.power in
    subst Starts
      (ap (λ t. minus_text n.minus ++ t) (sym (append_assoc n.whole tail rest))
        ∙ sym (append_assoc (minus_text n.minus) (n.whole ++ tail) rest))
      (whole-Starts n.minus n.whole (tail ++ rest) h.whole_digits)

-- The text of an integer.
pub record IsInteger (text : List ℕ) : Type 0 where
  pub parts : NumberText
  pub is_number : IsNumber parts
  pub text_parts : text ≡ number_text parts
  pub is_integer : is_integer_token text ≡ true

whole-IsInteger : (whole : List ℕ) → IsWhole whole → IsInteger whole
whole-IsInteger whole h = record {
  parts = integer_text false whole;
  is_number = integer_text-IsNumber false whole h;
  text_parts = sym (append-nil whole);
  is_integer = IsWhole-is_integer_token whole h;
}

negative-IsInteger : (whole : List ℕ) → IsWhole whole → IsInteger (b'-' ∷ whole)
negative-IsInteger whole h = record {
  parts = integer_text true whole;
  is_number = integer_text-IsNumber true whole h;
  text_parts = ap (λ t. b'-' ∷ t) (sym (append-nil whole));
  is_integer = IsWhole-is_integer_token whole h;
}

pub to_chars_uint-IsInteger : (n : ℕ) → n < 2 ^ 64 → IsInteger (to_chars_uint n)
to_chars_uint-IsInteger n h =
    whole-IsInteger (to_chars_uint n) (to_chars_uint-IsWhole n (omega arith))

pub to_chars_int-IsInteger : (n : ℕ) → n < 2 ^ 64 → IsInteger (to_chars_int n)
unfolding to_chars_int
to_chars_int-IsInteger n h = elim (Bool-cases (ltb n (2 ^ 63))) [
  | inl e ↦ rw e (to_chars_uint-IsInteger n h)
  | inr e ↦ rw e (negative-IsInteger _ (to_chars_uint-IsWhole (2 ^ 64 - n) (omega arith)))
]

whole-is_negative : (whole : List ℕ) → IsWhole whole → is_negative whole ≡ false
whole-is_negative [] h = absurd h
whole-is_negative (c ∷ cs) (h, _, _) = ground arith

module _ (before rest : List ℕ) (d : ℕ) (st : List Frame) (stop : Stops rest) where
  pub scan_number-parts :
      (text : List ℕ) (n : NumberText)
      → IsNumber n
      → text ≡ number_text n
      → scan_number (at before (text ++ rest) d st) ≡ ok (text, at (over text before) rest d st)
  scan_number-parts text n h e = rw (e, scan_number-number_text n before rest d st h stop)

  pub stay-parts :
      (text : List ℕ) (n : NumberText)
      → IsNumber n
      → text ≡ number_text n
      → skip_whitespace (at before (text ++ rest) d st) ≡ ok (tt, at before (text ++ rest) d st)
  stay-parts text n h e =
      rw e (stay before (number_text n ++ rest) d st (number_text-Starts n rest h).no_space)

  pub read_int-text :
      (n : ℕ)
      → n < 2 ^ 64
      → read_int (at before (to_chars_int n ++ rest) d st)
        ≡ ok (n, at (over (to_chars_int n) before) rest d st)
  unfolding read_int
  read_int-text n h =
      let i = to_chars_int-IsInteger n h in
      rw (
        stay-parts (to_chars_int n) i.parts i.is_number i.text_parts,
        scan_number-parts (to_chars_int n) i.parts i.is_number i.text_parts,
        i.is_integer,
        from_chars_int-to_chars_int n h,
      )

  pub read_uint-text :
      (n : ℕ)
      → n < 2 ^ 64
      → read_uint (at before (to_chars_uint n ++ rest) d st)
        ≡ ok (n, at (over (to_chars_uint n) before) rest d st)
  unfolding read_uint
  read_uint-text n h =
      let i = to_chars_uint-IsInteger n h in
      rw (
        stay-parts (to_chars_uint n) i.parts i.is_number i.text_parts,
        scan_number-parts (to_chars_uint n) i.parts i.is_number i.text_parts,
        i.is_integer,
        whole-is_negative (to_chars_uint n) (to_chars_uint-IsWhole n (omega arith)),
        from_chars_uint-to_chars_uint n h,
      )
