-- ===== src/Json/RoundTrip.antt =====
-- A whole document, written by include/reflgen/json/writer.h and read by include/reflgen/json/reader.h.
use reflgen_cpp.Common.{ℕ, ◌≤◌, ◌≡◌, refl, true, [], append-nil, arith}
use mathlib.Core.Path.{subst}
use reflgen_cpp.Common.Outcome.{ok, pure, ◌>>=◌, ◌>>◌}
use reflgen_cpp.Serial.Value.{Value, shape_of, depth}
use reflgen_cpp.Serial.Contract.{write_value, read_value}
use reflgen_cpp.Json.Writer.{Floating, Writer, writer, complete}
use reflgen_cpp.Json.Reader.{Floats, finish}
use reflgen_cpp.Json.Input.{at, reader}
use reflgen_cpp.Json.Steps.{over}
use reflgen_cpp.Json.ReadCalls.{stay}
use reflgen_cpp.Json.FloatText.{FloatingLaws}
use reflgen_cpp.Json.Encoding.{IsJson, render, writer_calls, reader_calls}
use reflgen_cpp.Json.Writing.{write_value-render}
use reflgen_cpp.Json.Reading.{read_value-render}

module _ (type : Floating) (floats : Floats) (laws : FloatingLaws type floats) (v : Value)
    (indent d : ℕ) (h : IsJson type v) (deep : depth v ≤ d) where
  finish-render :
      (read_value (reader_calls floats) (shape_of v) >>= λ x. finish >> pure x)
        (reader (render type indent 0 v) d)
      ≡ ok (v, at (over (render type indent 0 v) []) [] d [])
  unfolding finish
  finish-render =
      let text = render type indent 0 v in
      let run =
        subst
          (λ t.
            read_value (reader_calls floats) (shape_of v) (at [] t d [])
            ≡ ok (v, at (over text []) [] d []))
          (append-nil text)
          (read_value-render type floats laws indent 0 d v [] [] [] h
            (record { no_digit = refl; no_point = refl; no_letter = refl }) (omega arith)) in
      rw (run, stay (over text []) [] d [] refl)

-- Where `std::to_chars` and `std::from_chars` keep their documented laws, a value without NaN and
-- infinity, whose strings and keys are UTF-8 and whose integers fit 64 bits, no deeper than `max_depth`,
-- is written by a new JSON writer, compact or indented by any width, to a document that is complete, and
-- a new reader with that `max_depth` reads the value back from it and finishes at its end.
pub read_document-write_document :
    (type : Floating) (floats : Floats) (laws : FloatingLaws type floats) (v : Value) (indent d : ℕ)
    → IsJson type v
    → depth v ≤ d
    → (w : Writer) × (write_value (writer_calls type) v (writer [] indent d) ≡ ok (tt, w))
      × (complete w ≡ true)
      × ((read_value (reader_calls floats) (shape_of v) >>= λ x. finish >> pure x)
            (reader w.output d)
          ≡ ok (v, at (over w.output []) [] d []))
read_document-write_document type floats laws v indent d h deep =
    let (w, run, output, done) = write_value-render type v [] indent d h deep in
    (w, run, done, rw output (finish-render type floats laws v indent d h deep))
