-- ===== src/Json/Reading.antt =====
-- The calls of include/reflgen/json/reader.h for one value, in the order of the contract, before the text
-- that include/reflgen/json/writer.h writes.
use reflgen_cpp.Common.{
  ℕ, suc, ◌+◌, ◌≤◌, ◌≡◌, refl, ap, Bool, true, false, List, [], ◌∷◌, ◌++◌, append_assoc, length,
  arith, inl, inr,
}
use reflgen_cpp.Common.Outcome.{ok}
use reflgen_cpp.Serial.Contract.{read_value, read_items, read_fields}
use reflgen_cpp.Serial.Value.{
  Value, Items, Fields, null, boolean, signed, unsigned, floating, string, bytes, array, object,
  no_items, item, no_fields, field, depth, depth_items, depth_fields, shape_of, shapes_of_items,
  shapes_of_fields,
}
use reflgen_cpp.Json.Writer.{Floating}
use reflgen_cpp.Json.Reader.{Floats}
use reflgen_cpp.Json.Input.{Frame, at}
use reflgen_cpp.Json.Steps.{over, over-append}
use reflgen_cpp.Json.Scanning.{Stops}
use reflgen_cpp.Json.Quoting.{quoted}
use reflgen_cpp.Json.Encoding.{
  IsJson, AreItemsJson, AreFieldsJson, line, comma_text, last_line, has_items, has_fields, render,
  render_items, render_fields, reader_calls,
}
use reflgen_cpp.Json.ReadCalls.{
  read_null-text, read_bool-text, read_int-text, read_uint-text, read_string-text,
}
use reflgen_cpp.Json.FloatText.{FloatingLaws, read_float-text}
use reflgen_cpp.Json.BytesText.{read_bytes-text}
use reflgen_cpp.Json.Containers.{
  line-AreSpaces, last_line-AreSpaces, inside, begin_array-text, begin_object-text, end_array-text,
  end_object-text, next_element-item, next_element-end, next_key-entry, next_key-end,
}
use reflgen_cpp.Json.ReadTexts.{
  read_value-spaces, render-Starts, spaces-Stops, over-item, over-entry, colon-spaces,
}

module _ (type : Floating) (floats : Floats) (laws : FloatingLaws type floats) (indent : ℕ) where
  -- What follows the items and the entries that are still to come.
  items-Stops :
      (k depth : ℕ) (b : Bool) (xs : Items) (rest : List ℕ)
      → Stops (render_items type indent k true xs ++ (last_line indent depth b ++ b']' ∷ rest))
  unfolding render
  items-Stops k depth b no_items rest =
      spaces-Stops (last_line indent depth b) b']' rest (last_line-AreSpaces indent depth b)
        (inl refl)
  items-Stops k depth b (item x xs) rest = record {
    no_digit = refl;
    no_point = refl;
    no_letter = refl;
  }

  fields-Stops :
      (k depth : ℕ) (b : Bool) (fs : Fields) (rest : List ℕ)
      → Stops (render_fields type indent k true fs ++ (last_line indent depth b ++ b'}' ∷ rest))
  unfolding render
  fields-Stops k depth b no_fields rest =
      spaces-Stops (last_line indent depth b) b'}' rest (last_line-AreSpaces indent depth b)
        (inr refl)
  fields-Stops k depth b (field key x fs) rest = record {
    no_digit = refl;
    no_point = refl;
    no_letter = refl;
  }

  abbrev Reads : Value → Type 0
  Reads v =
      (k d : ℕ) (before rest : List ℕ) (st : List Frame)
      → Stops rest
      → length st + depth v ≤ d
      → read_value (reader_calls floats) (shape_of v)
          (at before (render type indent k v ++ rest) d st)
        ≡ ok (v, at (over (render type indent k v) before) rest d st)

  abbrev ReadsItems : Items → Type 0
  ReadsItems xs =
      (k depth d : ℕ) (behind b : Bool) (before rest : List ℕ) (st : List Frame)
      → suc (length st) + depth_items xs ≤ d
      → read_items (reader_calls floats) (shapes_of_items xs) (
          at before
            (render_items type indent k behind xs ++ (last_line indent depth b ++ b']' ∷ rest)) d
            (inside false behind ∷ st))
        ≡ ok (
          xs,
          at (over (last_line indent depth b) (over (render_items type indent k behind xs) before))
              (b']' ∷ rest) d (inside false true ∷ st),
        )

  abbrev ReadsFields : Fields → Type 0
  ReadsFields fs =
      (k depth d : ℕ) (behind b : Bool) (before rest : List ℕ) (st : List Frame)
      → suc (length st) + depth_fields fs ≤ d
      → read_fields (reader_calls floats) (shapes_of_fields fs) (
          at before
            (render_fields type indent k behind fs ++ (last_line indent depth b ++ b'}' ∷ rest)) d
            (inside true behind ∷ st))
        ≡ ok (
          fs,
          at (over (last_line indent depth b) (over (render_fields type indent k behind fs) before))
              (b'}' ∷ rest) d (inside true true ∷ st),
        )

  mutual
    unfolding read_value render depth IsJson shape_of

    read_value_lem : (v : Value) → IsJson type v → Reads v
    read_value_lem null h k d before rest st stop deep = rw (read_null-text before rest d st)
    read_value_lem (boolean b) h k d before rest st stop deep =
        rw (read_bool-text before rest d st b)
    read_value_lem (signed n) h k d before rest st stop deep =
        rw (read_int-text before rest d st stop n h)
    read_value_lem (unsigned n) h k d before rest st stop deep =
        rw (read_uint-text before rest d st stop n h)
    read_value_lem (floating n) h k d before rest st stop deep =
        rw (read_float-text type floats laws before rest d st n stop h)
    read_value_lem (string s) h k d before rest st stop deep =
        rw (read_string-text before rest d st s h)
    read_value_lem (bytes s) h k d before rest st stop deep =
        rw (read_bytes-text before rest d st s h)
    read_value_lem (array xs) h k d before rest st stop deep =
        let text : List ℕ = render_items type indent (suc k) false xs in
        let last : List ℕ = last_line indent k (has_items xs) in
        rw (
          append_assoc text (last ++ b']' ∷ []) rest,
          append_assoc last (b']' ∷ []) rest,
          begin_array-text d st before (text ++ (last ++ b']' ∷ rest)) (omega arith),
          read_items_lem xs h (suc k) k d false (has_items xs) (b'[' ∷ before) rest st
              (omega arith),
          end_array-text d st (over last (over text (b'[' ∷ before))) rest,
          over-append text (last ++ b']' ∷ []) (b'[' ∷ before),
          over-append last (b']' ∷ []) (over text (b'[' ∷ before)),
        )
    read_value_lem (object fs) h k d before rest st stop deep =
        let text : List ℕ = render_fields type indent (suc k) false fs in
        let last : List ℕ = last_line indent k (has_fields fs) in
        rw (
          append_assoc text (last ++ b'}' ∷ []) rest,
          append_assoc last (b'}' ∷ []) rest,
          begin_object-text d st before (text ++ (last ++ b'}' ∷ rest)) (omega arith),
          read_fields_lem fs h (suc k) k d false (has_fields fs) (b'{' ∷ before) rest st
              (omega arith),
          end_object-text d st (over last (over text (b'{' ∷ before))) rest,
          over-append text (last ++ b'}' ∷ []) (b'{' ∷ before),
          over-append last (b'}' ∷ []) (over text (b'{' ∷ before)),
        )

    read_items_lem : (xs : Items) → AreItemsJson type xs → ReadsItems xs
    read_items_lem no_items h k depth' d behind b before rest st deep = rw (
        next_element-end d st (last_line indent depth' b) (last_line-AreSpaces indent depth' b)
          behind before rest)
    read_items_lem (item x xs) (h, hs) k depth' d behind b before rest st deep =
        let comma : List ℕ = comma_text behind in
        let gap : List ℕ = line indent k in
        let text : List ℕ = render type indent k x in
        let more : List ℕ = render_items type indent k true xs in
        let tail : List ℕ = last_line indent depth' b ++ b']' ∷ rest in
        let here : List ℕ = over (comma ++ gap) before in
        rw
          (
            append_assoc comma (gap ++ (text ++ more)) tail,
            append_assoc gap (text ++ more) tail,
            append_assoc text more tail,
            next_element-item d st gap (line-AreSpaces indent k) behind before
                (text ++ (more ++ tail))
                (render-Starts type floats laws indent x k (more ++ tail) h),
            read_value_lem x h k d here (more ++ tail) (inside false true ∷ st)
                (items-Stops k depth' b xs rest) (omega arith),
            read_items_lem xs hs k depth' d true b (over text here) rest st (omega arith),
          )
          (ap
            (λ t. ok (
              item x xs,
              at (over (last_line indent depth' b) t) (b']' ∷ rest) d (inside false true ∷ st),
            ))
            (over-item comma gap text more before))

    read_fields_lem : (fs : Fields) → AreFieldsJson type fs → ReadsFields fs
    read_fields_lem no_fields h k depth' d behind b before rest st deep = rw (
        next_key-end d st (last_line indent depth' b) (last_line-AreSpaces indent depth' b) behind
          before rest)
    read_fields_lem (field key x fs) (hk, h, hs) k depth' d behind b before rest st deep =
        let comma : List ℕ = comma_text behind in
        let gap : List ℕ = line indent k in
        let text : List ℕ = render type indent k x in
        let more : List ℕ = render_fields type indent k true fs in
        let tail : List ℕ = last_line indent depth' b ++ b'}' ∷ rest in
        let (spaces, are_spaces, colon) = colon-spaces indent in
        let here : List ℕ = b':' ∷ over (quoted key) (over (comma ++ gap) before) in
        rw
          (
            colon,
            append_assoc comma (gap ++ (quoted key ++ b':' ∷ (spaces ++ (text ++ more)))) tail,
            append_assoc gap (quoted key ++ b':' ∷ (spaces ++ (text ++ more))) tail,
            append_assoc (quoted key) (b':' ∷ (spaces ++ (text ++ more))) tail,
            append_assoc spaces (text ++ more) tail,
            append_assoc text more tail,
            next_key-entry d st gap (line-AreSpaces indent k) behind key before
                (spaces ++ (text ++ (more ++ tail))) hk,
            read_value-spaces floats spaces here (text ++ (more ++ tail)) d (inside true true ∷ st)
                are_spaces (render-Starts type floats laws indent x k (more ++ tail) h).no_space
                (shape_of x),
            read_value_lem x h k d (over spaces here) (more ++ tail) (inside true true ∷ st)
                (fields-Stops k depth' b fs rest) (omega arith),
            read_fields_lem fs hs k depth' d true b (over text (over spaces here)) rest st
                (omega arith),
          )
          (ap
            (λ t. ok (
              field key x fs,
              at (over (last_line indent depth' b) t) (b'}' ∷ rest) d (inside true true ∷ st),
            ))
            (over-entry comma gap (quoted key) spaces text more before))

-- Where `std::to_chars` and `std::from_chars` keep their documented laws, the text that the JSON writer
-- has for a value without NaN and infinity, whose strings and keys are UTF-8 and whose integers fit 64
-- bits, compact or indented by any width, is read back as that value by the calls of the contract, before
-- any input that does not go on with a number, inside any open containers, no deeper than `max_depth`; the
-- input behind the text and the open containers are left as they were.
pub read_value-render :
    (type : Floating) (floats : Floats) (laws : FloatingLaws type floats) (indent k d : ℕ)
    (v : Value) (before rest : List ℕ) (st : List Frame)
    → IsJson type v
    → Stops rest
    → length st + depth v ≤ d
    → read_value
        (reader_calls floats)
        (shape_of v)
        (at before (render type indent k v ++ rest) d st)
      ≡ ok (v, at (over (render type indent k v) before) rest d st)
read_value-render type floats laws indent k d v before rest st h stop deep =
    read_value_lem type floats laws indent v h k d before rest st stop deep
