-- ===== src/Json/ReadTexts.antt =====
-- The text that include/reflgen/json/writer.h writes, from a position of include/reflgen/json/reader.h on.
use reflgen_cpp.Common.{
  ℕ, ◌≡◌, refl, sym, true, false, List, [], ◌∷◌, ◌++◌, ltb, arith, Bool-cases, ◌⊎◌, inl, inr,
}
use mathlib.Core.Path.{subst}
use reflgen_cpp.Common.Outcome.{ok}
use reflgen_cpp.Serial.Contract.{read_value}
use reflgen_cpp.Serial.Value.{
  Value, Shape, null, boolean, signed, unsigned, floating, string, bytes, array, object,
}
use reflgen_cpp.Json.Base64.{codes}
use reflgen_cpp.Json.Writer.{Floating}
use reflgen_cpp.Json.Reader.{
  Floats, read_null, read_bool, read_int, read_uint, read_float, read_string, read_bytes,
  begin_array, begin_object, begin_in,
}
use reflgen_cpp.Json.Input.{Frame, at, is_whitespace, current_of, skip_whitespace}
use reflgen_cpp.Json.Steps.{over, over-append, skip_whitespace-append}
use reflgen_cpp.Json.Scanning.{Stops}
use reflgen_cpp.Json.Encoding.{IsJson, colon_text, render, reader_calls}
use reflgen_cpp.Json.ReadCalls.{
  stay, Starts, number_text-Starts, to_chars_int-IsInteger, to_chars_uint-IsInteger,
}
use reflgen_cpp.Json.FloatText.{FloatingLaws, floating_text-IsDouble}
use reflgen_cpp.Json.Containers.{AreSpaces}

module _ (floats : Floats) (spaces before rest : List ℕ) (d : ℕ) (st : List Frame)
    (h : AreSpaces spaces) (no_space : is_whitespace (current_of rest) ≡ false) where
  pass :
      skip_whitespace (at before (spaces ++ rest) d st) ≡ ok (tt, at (over spaces before) rest d st)
  pass = skip_whitespace-append spaces before rest d st h no_space

  here :
      skip_whitespace (at (over spaces before) rest d st)
      ≡ ok (tt, at (over spaces before) rest d st)
  here = stay (over spaces before) rest d st no_space

  read_bytes-spaces :
      read_bytes (at before (spaces ++ rest) d st) ≡ read_bytes (at (over spaces before) rest d st)
  unfolding read_bytes
  read_bytes-spaces = rw (pass, here)

  -- Every value is read from behind the white space before it.
  pub read_value-spaces :
      (sh : Shape)
      → read_value (reader_calls floats) sh (at before (spaces ++ rest) d st)
        ≡ read_value (reader_calls floats) sh (at (over spaces before) rest d st)
  unfolding read_value read_null read_bool read_int read_uint read_float read_string begin_array
      begin_object begin_in
  read_value-spaces Shape.null = rw (pass, here)
  read_value-spaces Shape.boolean = rw (pass, here)
  read_value-spaces Shape.signed = rw (pass, here)
  read_value-spaces Shape.unsigned = rw (pass, here)
  read_value-spaces Shape.floating = rw (pass, here)
  read_value-spaces Shape.string = rw (pass, here)
  read_value-spaces Shape.bytes = rw read_bytes-spaces
  read_value-spaces (Shape.array ss) = rw (pass, here)
  read_value-spaces (Shape.object ss) = rw (pass, here)

-- The text of a value begins with none of white space and closing brackets.
module _ (type : Floating) (floats : Floats) (laws : FloatingLaws type floats) (indent : ℕ) where
  pub render-Starts :
      (v : Value) (k : ℕ) (rest : List ℕ) → IsJson type v → Starts (render type indent k v ++ rest)
  unfolding render IsJson
  render-Starts null k rest h = record { no_space = refl; no_bracket = refl; no_brace = refl }
  render-Starts (boolean true) k rest h = record {
    no_space = refl;
    no_bracket = refl;
    no_brace = refl;
  }
  render-Starts (boolean false) k rest h = record {
    no_space = refl;
    no_bracket = refl;
    no_brace = refl;
  }
  render-Starts (signed n) k rest h =
      let i = to_chars_int-IsInteger n h in
      rw i.text_parts (number_text-Starts i.parts rest i.is_number)
  render-Starts (unsigned n) k rest h =
      let i = to_chars_uint-IsInteger n h in
      rw i.text_parts (number_text-Starts i.parts rest i.is_number)
  render-Starts (floating n) k rest h =
      let i = floating_text-IsDouble type floats laws n h in
      subst (λ t. Starts (t ++ rest)) (sym i.text_number)
        (number_text-Starts i.number rest i.is_a_number)
  render-Starts (string s) k rest h = record { no_space = refl; no_bracket = refl; no_brace = refl }
  render-Starts (bytes s) k rest h = record { no_space = refl; no_bracket = refl; no_brace = refl }
  render-Starts (array xs) k rest h = record { no_space = refl; no_bracket = refl; no_brace = refl }
  render-Starts (object fs) k rest h = record {
    no_space = refl;
    no_bracket = refl;
    no_brace = refl;
  }

-- What follows an item or an entry ends a number: a comma, white space or a closing bracket.
pub spaces-Stops :
    (spaces : List ℕ) (closing : ℕ) (rest : List ℕ)
    → AreSpaces spaces
    → (closing ≡ b']') ⊎ (closing ≡ b'}')
    → Stops (spaces ++ closing ∷ rest)
spaces-Stops [] closing rest h (inl e) =
    rw e (record { no_digit = refl; no_point = refl; no_letter = refl })
spaces-Stops [] closing rest h (inr e) =
    rw e (record { no_digit = refl; no_point = refl; no_letter = refl })
spaces-Stops (c ∷ cs) closing rest (h, hs) e = record {
  no_digit = ground arith;
  no_point = ground arith;
  no_letter = ground arith;
}

pub over-item :
    (comma gap text more before : List ℕ)
    → over more (over text (over (comma ++ gap) before))
      ≡ over (comma ++ (gap ++ (text ++ more))) before
over-item comma gap text more before = rw (
  over-append comma gap before,
  over-append comma (gap ++ (text ++ more)) before,
  over-append gap (text ++ more) (over comma before),
  over-append text more (over gap (over comma before)),
)

pub over-entry :
    (comma gap key spaces text more before : List ℕ)
    → over more (over text (over spaces (b':' ∷ over key (over (comma ++ gap) before))))
      ≡ over (comma ++ (gap ++ (key ++ b':' ∷ (spaces ++ (text ++ more))))) before
over-entry comma gap key spaces text more before =
    let start : List ℕ = b':' ∷ over key (over gap (over comma before)) in
    rw (
      over-append comma gap before,
      over-append comma (gap ++ (key ++ b':' ∷ (spaces ++ (text ++ more)))) before,
      over-append gap (key ++ b':' ∷ (spaces ++ (text ++ more))) (over comma before),
      over-append key (b':' ∷ (spaces ++ (text ++ more))) (over gap (over comma before)),
      over-append spaces (text ++ more) start,
      over-append text more (over spaces start),
    )

pub colon-spaces :
    (indent : ℕ) → (spaces : List ℕ) × AreSpaces spaces × (colon_text indent ≡ b':' ∷ spaces)
colon-spaces indent = elim (Bool-cases (ltb 0 indent)) [
  | inl e ↦ (codes " ", (refl, tt), rw e)
  | inr e ↦ ([], tt, rw e)
]
