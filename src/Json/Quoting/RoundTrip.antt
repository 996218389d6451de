-- ===== src/Json/Quoting/RoundTrip.antt =====
-- What `append_quoted` of include/reflgen/json/writer.h writes, and what `parse_string` of
-- include/reflgen/json/reader.h makes of it.
use reflgen_cpp.Common.{ℕ, ◌≡◌, refl, List, ◌++◌, All}
use reflgen_cpp.Common.Outcome.{ok}
use reflgen_cpp.Serial.Utf.Encoding.{IsScalar, utf8}
use reflgen_cpp.Serial.Utf.Strings.{flat}
use reflgen_cpp.Json.Writer.{Writer, append_quoted}
use reflgen_cpp.Json.Input.{Frame, at}
use reflgen_cpp.Json.Strings.{parse_string}
use reflgen_cpp.Json.Steps.{over}
use reflgen_cpp.Json.Quoting.{quoted, parse_string-quoted}
use reflgen_cpp.Json.WriteCalls.{append_quoted-append}

-- For the UTF-8 encoding of any scalar values, `append_quoted` returns, and does nothing but to append a
-- text to the output of the writer. In front of anything, `parse_string` reads this text as the same
-- encoding, escapes included, and stops behind it.
pub parse_string-append_quoted :
    (cs : List ℕ) (w : Writer) (before rest : List ℕ) (d : ℕ) (st : List Frame)
    → All IsScalar cs
    → (text : List ℕ) × (append_quoted (flat utf8 cs) w
        ≡ ok (tt, record w { output = w.output ++ text }))
      × (parse_string (at before (text ++ rest) d st)
          ≡ ok (flat utf8 cs, at (over text before) rest d st))
parse_string-append_quoted cs w before rest d st h = (
  quoted (flat utf8 cs),
  append_quoted-append (flat utf8 cs) w (cs, h, refl),
  parse_string-quoted cs before rest d st h,
)
