-- ===== src/Binary/RoundTrip.antt =====
-- A whole document, written by include/reflgen/binary/writer.h and read by include/reflgen/binary/reader.h.
use reflgen_cpp.Common.{ℕ, ◌+◌, ◌≤◌, ◌≡◌, refl, true, [], append-nil, length, arith}
use mathlib.Core.Path.{subst}
use reflgen_cpp.Common.Outcome.{ok, pure, ◌>>=◌, ◌>>◌}
use reflgen_cpp.Serial.Value.{Value, shape_of, depth, IsSized}
use reflgen_cpp.Serial.Contract.{write_value, read_value}
use reflgen_cpp.Binary.Writer.{Writer, writer, complete}
use reflgen_cpp.Binary.Reader.{Casts, reader, at, finish}
use reflgen_cpp.Binary.Encoding.{encode, writer_calls, reader_calls}
use reflgen_cpp.Binary.Writing.{write_value-encode}
use reflgen_cpp.Binary.Reading.{read_value-encode}

finish-read :
    (casts : Casts) (v : Value) (d : ℕ)
    → IsSized v
    → depth v ≤ d
    → (read_value (reader_calls casts) (shape_of v) >>= λ x. finish >> pure x) (reader (encode v) d)
      ≡ ok (v, at (length (encode v)) [] d [])
unfolding finish
finish-read casts v d h deep =
    let start : 0 + length (encode v) ≡ length (encode v) = omega arith in
    let run =
      subst
        (λ e.
          read_value (reader_calls casts) (shape_of v) (at 0 e d [])
          ≡ ok (v, at (0 + length (encode v)) [] d []))
        (append-nil (encode v)) (read_value-encode casts v 0 d [] [] h (omega arith)) in
    rw (run, start) refl

-- A value with sizes that fit 64 bits, no deeper than `max_depth`, is written by a new writer to a
-- document that is complete, and a new reader with that `max_depth` reads the value back from it and
-- finishes at its end.
pub read_value-write_value :
    (casts : Casts) (v : Value) (d : ℕ)
    → IsSized v
    → depth v ≤ d
    → (w : Writer) × (write_value writer_calls v (writer [] d) ≡ ok (tt, w))
      × (complete w ≡ true)
      × ((read_value (reader_calls casts) (shape_of v) >>= λ x. finish >> pure x)
            (reader w.output d)
          ≡ ok (v, at (length w.output) [] d []))
read_value-write_value casts v d h deep =
    let (w, run, output, done) = write_value-encode v [] d h deep in
    (w, run, done, rw output (finish-read casts v d h deep))
