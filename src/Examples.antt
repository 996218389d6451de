-- ===== src/Examples.antt =====
-- The theorems and the operations at concrete inputs.
mod Json
mod Serial
mod Runtime
mod Generator
use reflgen_cpp.Common.{
  ℕ, ◌+◌, ◌^◌, ◌-◌, ◌≤◌, ◌≡◌, refl, true, false, List, [], ◌∷◌, ◌++◌, length, arith, All,
}
use reflgen_cpp.Common.Outcome.{
  ok, err, fault, out_of_fuel, bind, pure, ◌>>=◌, ◌>>◌, Ensures, says, offset,
}
use mathlib.Core.Logic.{◌↔◌, ◌≢◌}
use reflgen_cpp.Serial.Value.{
  Value, null, signed, unsigned, array, object, no_items, item, no_fields, field, shape_of, depth,
  IsSized,
}
use reflgen_cpp.Serial.Contract.{write_value, read_value}
use reflgen_cpp.Serial.Utf.{
  append_utf8, decode_utf8, validate_utf8, to_utf8_16, to_utf8_32, units_16, units_32, from_utf8,
}
use reflgen_cpp.Serial.Utf.Encoding.{IsScalar, utf8, append_utf8-utf8, decode_utf8-utf8}
use reflgen_cpp.Serial.Utf.Decoding.{decode_utf8-Ensures}
use reflgen_cpp.Serial.Utf.Strings.{flat, to_utf8-from_utf8, validate_utf8_iff}
use reflgen_cpp.Binary.Wire.{little_bytes, little_value}
use reflgen_cpp.Binary.Writer.{Writer, writer, complete, zigzag, put_varint}
use reflgen_cpp.Binary.Reader.{Casts, Frame, reader, at, finish, unzigzag, take_varint, skip_value}
use reflgen_cpp.Binary.Encoding.{encode, writer_calls, reader_calls}
use reflgen_cpp.Binary.Varint.{leb128, put_varint-leb128, take_varint-leb128}
use reflgen_cpp.Binary.Safety.{Moves}
use reflgen_cpp.Binary.Scalars.{unzigzag-zigzag, little_value-little_bytes}
use reflgen_cpp.Binary.Writing.{write_value-encode}
use reflgen_cpp.Binary.Reading.{read_value-encode}
use reflgen_cpp.Binary.Skipping.{skip_value-encode}
use reflgen_cpp.Binary.Skip.{skip_value-Ensures}
use reflgen_cpp.Binary.RoundTrip.{read_value-write_value}
use reflgen_cpp.Serial.Path.{PathSegment, current_path, error_at, with_parent, with_child}
use reflgen_cpp.Serial.Path.Pointer.{
  key_segment, reference_tokens, reference_tokens-current_path, error_at-with_segment,
}
use reflgen_cpp.Json.Safety
use reflgen_cpp.Json.Input
use reflgen_cpp.Json.Reader
use reflgen_cpp.Json.Skip.Value.{skip_value-Moves}
use reflgen_cpp.Json.Base64.{codes, base64_encode, base64_decode}
use reflgen_cpp.Json.Base64.RoundTrip.{base64_decode-base64_encode}

-- {"a": [300, null], "b": -1}
abbrev sample : Value
sample = object (
    field (b'a' ∷ []) (array (item (unsigned 300) (item null no_items)))
      (field (b'b' ∷ []) (signed (2 ^ 64 - 1)) no_fields))

abbrev casts : Casts
casts = record { int64_to_double = λ n. n; uint64_to_double = λ n. n }

sample-IsSized : IsSized sample
unfolding IsSized
sample-IsSized = ground arith

depth-sample : depth sample ≤ 2
unfolding depth
depth-sample = ground arith

encode-sample : encode sample ≡ 9 ∷ 2 ∷ 1 ∷ 97 ∷ 8 ∷ 2 ∷ 4 ∷ 172 ∷ 2 ∷ 0 ∷ 1 ∷ 98 ∷ 3 ∷ 1 ∷ []
unfolding encode reflgen_cpp.Binary.Varint.groups
encode-sample = refl

read_value-write_value_example :
    (w : Writer) × (write_value writer_calls sample (writer [] 2) ≡ ok (tt, w))
    × (complete w ≡ true)
    × ((read_value (reader_calls casts) (shape_of sample) >>= λ x. finish >> pure x)
          (reader w.output 2)
        ≡ ok (sample, at (length w.output) [] 2 []))
read_value-write_value_example = read_value-write_value casts sample 2 sample-IsSized depth-sample

-- An array that claims two elements and ends in the first, a string of more bytes than there are.
abbrev cut_short : List ℕ
cut_short = 8 ∷ 2 ∷ 6 ∷ 200 ∷ 1 ∷ 65 ∷ []

skip_value-Ensures_example :
    Ensures
      (λ (v, t). Moves 1 (reader cut_short 512) t)
      (skip_value casts 20 (reader cut_short 512))
skip_value-Ensures_example = skip_value-Ensures casts (reader cut_short 512) 20 (omega arith)

skip_value-cut_short :
    skip_value casts 20 (reader cut_short 512)
    ≡ err (record { message = says "length exceeds the remaining input"; place = offset 3 })
unfolding skip_value reflgen_cpp.Binary.Reader.peek reflgen_cpp.Binary.Reader.peek_tag
    reflgen_cpp.Binary.Reader.skip_kind reflgen_cpp.Binary.Reader.begin_array
    reflgen_cpp.Binary.Reader.expect_tag reflgen_cpp.Binary.Reader.take_length take_varint
    reflgen_cpp.Binary.Reader.take_varint_loop reflgen_cpp.Binary.Reader.enter
    reflgen_cpp.Binary.Reader.next_element reflgen_cpp.Binary.Reader.consume_slot
    reflgen_cpp.Binary.Reader.read_string reflgen_cpp.Binary.Reader.take_text
skip_value-cut_short = refl

-- "é" in two bytes, and "€" in three.
abbrev text : List ℕ
text = 0xC3 ∷ 0xA9 ∷ 0xE2 ∷ 0x82 ∷ 0xAC ∷ []

validate_utf8_iff_example :
    ((validate_utf8 text ≡ ok tt) ↔ ((cs : List ℕ) × All IsScalar cs × (text ≡ flat utf8 cs)))
    × (validate_utf8 text ≢ out_of_fuel)
    × (validate_utf8 text ≢ fault)
validate_utf8_iff_example = validate_utf8_iff text (ground arith)

-- The open containers around the sample: an array with one element to come.
abbrev around : List Frame
around = record { is_object = false; remaining = 1 } ∷ []

write_value-encode_example :
    (w : Writer) × (write_value writer_calls sample (writer (7 ∷ []) 2) ≡ ok (tt, w))
    × (w.output ≡ (7 ∷ []) ++ encode sample)
    × (complete w ≡ true)
write_value-encode_example = write_value-encode sample (7 ∷ []) 2 sample-IsSized depth-sample

read_value-encode_example :
    read_value (reader_calls casts) (shape_of sample) (at 5 (encode sample ++ 0 ∷ []) 3 around)
    ≡ ok (sample, at (5 + length (encode sample)) (0 ∷ []) 3 around)
read_value-encode_example =
    read_value-encode casts sample 5 3 (0 ∷ []) around sample-IsSized (omega (arith, depth-sample))

skip_value-encode_example :
    skip_value casts 30 (at 5 (encode sample ++ 0 ∷ []) 3 around)
    ≡ ok (tt, at (5 + length (encode sample)) (0 ∷ []) 3 around)
skip_value-encode_example =
    skip_value-encode casts sample 30 5 3 (0 ∷ []) around sample-IsSized
      (omega (arith, depth-sample)) (rw encode-sample (omega arith))

decode_utf8-Ensures_example :
    Ensures (λ (c, r). IsScalar c × (text ≡ utf8 c ++ r)) (decode_utf8 text)
decode_utf8-Ensures_example =
    decode_utf8-Ensures 0xC3 (0xA9 ∷ 0xE2 ∷ 0x82 ∷ 0xAC ∷ []) (ground arith)

-- A code point that takes a pair of surrogates.
scalars : All IsScalar (0xE9 ∷ 0x1F600 ∷ [])
scalars = (
  record { in_range = ground arith; no_surrogate = refl },
  (record { in_range = ground arith; no_surrogate = refl }, tt),
)

to_utf8-from_utf8_example :
    (bind (from_utf8 units_16 (flat utf8 (0xE9 ∷ 0x1F600 ∷ []))) (to_utf8_16 [])
      ≡ ok (flat utf8 (0xE9 ∷ 0x1F600 ∷ [])))
    × (bind (from_utf8 units_32 (flat utf8 (0xE9 ∷ 0x1F600 ∷ []))) (to_utf8_32 [])
        ≡ ok (flat utf8 (0xE9 ∷ 0x1F600 ∷ [])))
to_utf8-from_utf8_example = to_utf8-from_utf8 (0xE9 ∷ 0x1F600 ∷ []) scalars

base64_decode-base64_encode_example :
    base64_decode (base64_encode (0 ∷ 255 ∷ 16 ∷ 77 ∷ [])) ≡ ok (0 ∷ 255 ∷ 16 ∷ 77 ∷ [])
base64_decode-base64_encode_example =
    base64_decode-base64_encode (0 ∷ 255 ∷ 16 ∷ 77 ∷ []) (ground arith)

put_varint-leb128_example :
    put_varint 300 (writer [] 2) ≡ ok (tt, record (writer [] 2) { output = [] ++ leb128 300 })
put_varint-leb128_example = put_varint-leb128 300 (writer [] 2) (ground arith)

take_varint-leb128_example :
    take_varint (at 5 (leb128 300 ++ 0 ∷ []) 3 around)
    ≡ ok (300, at (5 + length (leb128 300)) (0 ∷ []) 3 around)
take_varint-leb128_example = take_varint-leb128 300 5 3 (0 ∷ []) around (ground arith)

unzigzag-zigzag_example : unzigzag (zigzag (2 ^ 64 - 1)) ≡ 2 ^ 64 - 1
unzigzag-zigzag_example = unzigzag-zigzag (2 ^ 64 - 1) (ground arith)

little_value-little_bytes_example :
    little_value (little_bytes 0x3FF0000000000001) ≡ 0x3FF0000000000001
little_value-little_bytes_example = little_value-little_bytes 0x3FF0000000000001 (ground arith)

append_utf8-utf8_example : append_utf8 (65 ∷ []) 0x20AC ≡ ok ((65 ∷ []) ++ utf8 0x20AC)
append_utf8-utf8_example =
    append_utf8-utf8 (65 ∷ []) 0x20AC (record { in_range = ground arith; no_surrogate = refl })

decode_utf8-utf8_example : decode_utf8 (utf8 0x20AC ++ 65 ∷ []) ≡ ok (0x20AC, 65 ∷ [])
decode_utf8-utf8_example =
    decode_utf8-utf8 0x20AC (65 ∷ []) (record { in_range = ground arith; no_surrogate = refl })

-- [1, {"k": tr
abbrev cut_json : List ℕ
cut_json = codes "[1, {\"k\": tr"

skip_value-Moves_example :
    Ensures
      (λ (v, t). Safety.Moves 1 (Input.reader cut_json 512) t)
      (Reader.skip_value 40 (Input.reader cut_json 512))
skip_value-Moves_example = skip_value-Moves (Input.reader cut_json 512) 40 (ground arith)

-- The path "/a~1b/3".
abbrev segments : List PathSegment
segments =
    record { key = codes "a/b"; index = 0; is_index = false }
    ∷ record { key = []; index = 3; is_index = true }
    ∷ []

path-segments : current_path segments ≡ codes "/a~1b/3"
unfolding current_path reflgen_cpp.Serial.Path.append_segment reflgen_cpp.Json.Decimal.to_chars_uint
path-segments = refl

reference_tokens-current_path_example :
    reference_tokens (current_path segments) ≡ codes "a/b" ∷ codes "3" ∷ []
unfolding reflgen_cpp.Json.Decimal.to_chars_uint
reference_tokens-current_path_example = reference_tokens-current_path segments

error_at-with_segment_example :
    (with_parent (codes "~") (error_at (codes "m") segments)
      ≡ error_at (codes "m") (key_segment (codes "~") ∷ segments))
    × (with_child (codes "~") (error_at (codes "m") segments)
        ≡ error_at (codes "m") (segments ++ key_segment (codes "~") ∷ []))
error_at-with_segment_example = error_at-with_segment (codes "m") (codes "~") segments
