-- ===== src/Examples/Json.antt =====
-- The theorems on include/reflgen/json at concrete inputs.
use reflgen_cpp.Common.{
  ℕ, ◌+◌, ◌-◌, ◌^◌, ◌≤◌, ◌≡◌, refl, ap, inl, inr, Bool, true, false, List, [], ◌∷◌, ◌++◌, Option,
  none, some, ltb, All, arith,
}
use reflgen_cpp.Common.Outcome.{ok, pure, ◌>>=◌, ◌>>◌}
use reflgen_cpp.Serial.Value.{
  Value, null, signed, floating, bytes, array, object, no_items, item, no_fields, field, shape_of,
  depth,
}
use reflgen_cpp.Serial.Contract.{write_value, read_value}
use reflgen_cpp.Serial.Utf.Encoding.{IsScalar, utf8}
use reflgen_cpp.Serial.Utf.Strings.{flat}
use reflgen_cpp.Json.Base64.{codes}
use reflgen_cpp.Json.Writer.{Floating, Writer, writer, complete, append_quoted}
use reflgen_cpp.Json.Reader.{Floats, finish}
use reflgen_cpp.Json.Input.{Frame, at, reader}
use reflgen_cpp.Json.Numbers.{scan_number}
use reflgen_cpp.Json.Strings.{parse_string}
use reflgen_cpp.Json.Steps.{over}
use reflgen_cpp.Json.Scanning.{
  NumberText, no_exponent, exponent, IsNumber, IsWhole, Stops, number_text, minus_text,
  fraction_text, exponent_text, scan_number-number_text,
}
use reflgen_cpp.Json.Quoting.RoundTrip.{parse_string-append_quoted}
use reflgen_cpp.Json.Encoding.{IsJson, render, writer_calls, reader_calls}
use reflgen_cpp.Json.FloatText.{FloatingLaws}
use reflgen_cpp.Json.Writing.{write_value-render}
use reflgen_cpp.Json.Reading.{read_value-render}
use reflgen_cpp.Json.RoundTrip.{read_document-write_document}

-- Doubles with ten values, one digit each; what is behind the digit does not count.
abbrev type : Floating
type = record { is_finite = λ n. ltb n 10; to_chars = λ n. (b'0' + n) ∷ [] }

abbrev parse_digit : List ℕ → Option ℕ
parse_digit [] = none
parse_digit (c ∷ _) = some (c - b'0')

abbrev floats : Floats
floats = record {
  parse_float = parse_digit;
  parse_double = parse_digit;
  fits_float = λ n. true;
  to_float = λ n. n;
}

abbrev digit_parts : ℕ → NumberText
digit_parts n = record {
  minus = false;
  whole = (b'0' + n) ∷ [];
  fraction = [];
  power = no_exponent;
}

point_zero :
    (minus : Bool) (whole tail : List ℕ)
    → IsWhole whole
    → parse_digit ((minus_text minus ++ (whole ++ tail)) ++ codes ".0")
      ≡ parse_digit (minus_text minus ++ (whole ++ tail))
point_zero true whole tail h = refl
point_zero false [] tail h = absurd h
point_zero false (c ∷ cs) tail h = refl

laws : FloatingLaws type floats
laws = record {
  parts = digit_parts;
  is_number = λ n h. record {
    whole_digits = (ground arith, inr refl, tt);
    fraction_digits = tt;
    power_digits = tt;
  };
  to_chars_parts = λ n h. refl;
  parse_to_chars = λ n h. ap some (omega arith);
  point_zero = λ t i e.
      point_zero t.minus t.whole (fraction_text t.fraction ++ exponent_text t.power) i.whole_digits;
}

-- A key with characters that are escaped, and with one beyond ASCII: a line end, a quotation mark, "é".
abbrev key_chars : List ℕ
key_chars = b'\n' ∷ b'"' ∷ 0xE9 ∷ []

key_scalars : All IsScalar key_chars
key_scalars = (
  record { in_range = ground arith; no_surrogate = refl },
  (
    record { in_range = ground arith; no_surrogate = refl },
    (record { in_range = ground arith; no_surrogate = refl }, tt),
  ),
)

abbrev sample : Value
sample = object (
    field (flat utf8 key_chars)
      (array (item (signed (2 ^ 64 - 300)) (item (floating 7) (item null no_items))))
      (field [] (bytes (1 ∷ 2 ∷ [])) no_fields))

sample-IsJson : IsJson type sample
unfolding IsJson
sample-IsJson = (
  (key_chars, key_scalars, refl),
  (ground arith, (refl, (tt, tt))),
  (([], tt, refl), (ground arith, (ground arith, tt)), tt),
)

depth-sample : depth sample ≤ 2
unfolding depth
depth-sample = ground arith

-- The open containers around the sample, and what follows it there.
abbrev around : List Frame
around = record { is_object = false; first = false } ∷ []

comma-Stops : Stops (codes ",")
comma-Stops = record { no_digit = refl; no_point = refl; no_letter = refl }

read_document-write_document_example :
    (w : Writer) × (write_value (writer_calls type) sample (writer [] 2 2) ≡ ok (tt, w))
    × (complete w ≡ true)
    × ((read_value (reader_calls floats) (shape_of sample) >>= λ x. finish >> pure x)
          (reader w.output 2)
        ≡ ok (sample, at (over w.output []) [] 2 []))
read_document-write_document_example =
    read_document-write_document type floats laws sample 2 2 sample-IsJson depth-sample

write_value-render_example :
    (w : Writer) × (write_value (writer_calls type) sample (writer (codes "x") 0 2) ≡ ok (tt, w))
    × (w.output ≡ codes "x" ++ render type 0 0 sample)
    × (complete w ≡ true)
write_value-render_example =
    write_value-render type sample (codes "x") 0 2 sample-IsJson depth-sample

read_value-render_example :
    read_value
      (reader_calls floats)
      (shape_of sample)
      (at [] (render type 4 1 sample ++ codes ",") 3 around)
    ≡ ok (sample, at (over (render type 4 1 sample) []) (codes ",") 3 around)
read_value-render_example =
    read_value-render type floats laws 4 1 3 sample [] (codes ",") around sample-IsJson comma-Stops
      (omega (arith, depth-sample))

parse_string-append_quoted_example :
    (text : List ℕ) × (append_quoted (flat utf8 key_chars) (writer (codes "x") 2 2)
      ≡ ok (tt, record (writer (codes "x") 2 2) { output = codes "x" ++ text }))
    × (parse_string (at [] (text ++ codes ",") 3 around)
        ≡ ok (flat utf8 key_chars, at (over text []) (codes ",") 3 around))
parse_string-append_quoted_example =
    parse_string-append_quoted key_chars (writer (codes "x") 2 2) [] (codes ",") 3 around
      key_scalars

-- -10.5e+3
abbrev number : NumberText
number = record {
  minus = true;
  whole = codes "10";
  fraction = codes "5";
  power = exponent b'e' (codes "+") b'3' [];
}

number-IsNumber : IsNumber number
number-IsNumber = record {
  whole_digits = (refl, inl refl, (refl, tt));
  fraction_digits = (refl, tt);
  power_digits = (inl refl, inr (inl refl), refl, tt);
}

scan_number-number_text_example :
    scan_number (at [] (number_text number ++ codes ",") 3 around)
    ≡ ok (number_text number, at (over (number_text number) []) (codes ",") 3 around)
scan_number-number_text_example =
    scan_number-number_text number [] (codes ",") 3 around number-IsNumber comma-Stops
