-- ===== src/Json/FloatText.antt =====
-- The text of a double that include/reflgen/json/writer.h writes, and `read_float` of
-- include/reflgen/json/reader.h before it.
use reflgen_cpp.Common.{
  ℕ, ◌≡◌, refl, sym, ap, ◌∙◌, Bool, true, false, List, [], ◌∷◌, ◌++◌, append-nil, append_assoc,
  some, arith, Bool-cases, inl, inr,
}
use reflgen_cpp.Common.Outcome.{ok}
use reflgen_cpp.Json.Base64.{codes}
use reflgen_cpp.Json.Writer.{Floating, has_fraction}
use reflgen_cpp.Json.Reader.{Floats, read_float}
use reflgen_cpp.Json.Input.{Frame, at}
use reflgen_cpp.Json.Steps.{over}
use reflgen_cpp.Json.Scanning.{
  Exponent, no_exponent, exponent, NumberText, IsNumber, Stops, IsPower, number_text, minus_text,
  fraction_text, exponent_text,
}
use reflgen_cpp.Json.Encoding.{floating_text}
use reflgen_cpp.Json.ReadCalls.{scan_number-parts, stay-parts}

-- What the documentation of the C++ library says of `std::to_chars` and `std::from_chars` on a finite
-- double: the text is a decimal number, it is read back as the same double, and `.0` behind a text with
-- neither point nor exponent does not change what is read.
pub record FloatingLaws (type : Floating) (floats : Floats) : Type 0 where
  pub parts : ℕ → NumberText
  pub is_number : (n : ℕ) → type.is_finite n ≡ true → IsNumber (parts n)
  pub to_chars_parts : (n : ℕ) → type.is_finite n ≡ true → type.to_chars n ≡ number_text (parts n)
  pub parse_to_chars :
      (n : ℕ) → type.is_finite n ≡ true → floats.parse_double (type.to_chars n) ≡ some n
  pub point_zero :
      (t : NumberText)
      → IsNumber t
      → has_fraction (number_text t) ≡ false
      → floats.parse_double (number_text t ++ codes ".0") ≡ floats.parse_double (number_text t)

has_fraction-behind : (xs ys : List ℕ) → has_fraction ys ≡ true → has_fraction (xs ++ ys) ≡ true
unfolding has_fraction
has_fraction-behind [] ys h = h
has_fraction-behind (x ∷ xs) ys h = ground (arith, has_fraction-behind xs ys h)

found-absurd : (b : Bool) → b ≡ true → b ≡ false → ⊥
found-absurd b h e = cc

-- The text of a number with neither point nor exponent, and `.0` behind it, is one with a fraction.
pointed :
    (minus : Bool) (whole fraction : List ℕ) (power : Exponent)
    → IsPower power
    → has_fraction (minus_text minus ++ (whole ++ (fraction_text fraction ++ exponent_text power)))
      ≡ false
    → (minus_text minus ++ (whole ++ (fraction_text fraction ++ exponent_text power))) ++ codes ".0"
      ≡ minus_text minus ++ (whole ++ (fraction_text (b'0' ∷ []) ++ []))
unfolding has_fraction
pointed minus whole [] no_exponent h e =
    rw (append-nil whole, append_assoc (minus_text minus) whole (codes ".0"))
pointed minus whole [] (exponent letter sign c cs) (h, _, _, _) e = absurd (
    found-absurd _
      (has_fraction-behind (minus_text minus) _
        (has_fraction-behind whole (letter ∷ (sign ++ c ∷ cs)) (ground arith)))
      e)
pointed minus whole (f ∷ fs) power h e = absurd (
    found-absurd _
      (has_fraction-behind (minus_text minus) _
        (has_fraction-behind whole (b'.' ∷ f ∷ (fs ++ exponent_text power)) refl))
      e)

module _ (type : Floating) (floats : Floats) (laws : FloatingLaws type floats) where
  -- The text of a finite double: a number, which is read back as the double.
  pub record IsDouble (n : ℕ) : Type 0 where
    pub number : NumberText
    pub is_a_number : IsNumber number
    pub text_number : floating_text type n ≡ number_text number
    pub parsed : floats.parse_double (floating_text type n) ≡ some n

  pub floating_text-IsDouble : (n : ℕ) → type.is_finite n ≡ true → IsDouble n
  floating_text-IsDouble n h =
      let t = laws.parts n in
      let is = laws.is_number n h in
      let to = laws.to_chars_parts n h in
      elim (Bool-cases (has_fraction (type.to_chars n))) [
        | inl e ↦ record {
          number = t;
          is_a_number = is;
          text_number = rw (e, append-nil) to;
          parsed = rw (e, append-nil) (laws.parse_to_chars n h);
        }
        | inr e ↦
            let e' : has_fraction (number_text t) ≡ false = cc in
            record {
              number = record t { fraction = b'0' ∷ []; power = no_exponent };
              is_a_number = record {
                whole_digits = is.whole_digits;
                fraction_digits = (refl, tt);
                power_digits = tt;
              };
              text_number =
                  rw (e, to) (pointed t.minus t.whole t.fraction t.power is.power_digits e');
              parsed =
                  rw (e, to)
                    (laws.point_zero t is e'
                      ∙ sym (ap floats.parse_double to)
                      ∙ laws.parse_to_chars n h);
            }
      ]

  pub read_float-text :
      (before rest : List ℕ) (d : ℕ) (st : List Frame) (n : ℕ)
      → Stops rest
      → type.is_finite n ≡ true
      → read_float floats (at before (floating_text type n ++ rest) d st)
        ≡ ok (n, at (over (floating_text type n) before) rest d st)
  unfolding read_float
  read_float-text before rest d st n stop h =
      let i = floating_text-IsDouble n h in
      rw (
        stay-parts before rest d st stop (floating_text type n) i.number i.is_a_number
            i.text_number,
        scan_number-parts before rest d st stop (floating_text type n) i.number i.is_a_number
            i.text_number,
        i.parsed,
      )
