-- ===== src/Json/Writing.antt =====
-- The calls of include/reflgen/json/writer.h for one value, in the order of the contract.
use reflgen_cpp.Common.{
  ℕ, suc, ◌+◌, ◌≤◌, ◌≡◌, refl, ◌∙◌, Bool, true, false, ◌||◌, List, [], ◌∷◌, ◌++◌, append_assoc,
  append-nil, length, arith,
}
use reflgen_cpp.Common.Outcome.{ok}
use reflgen_cpp.Serial.Contract.{write_value, write_items, write_fields}
use reflgen_cpp.Serial.Value.{
  Value, Items, Fields, null, boolean, signed, unsigned, floating, string, bytes, array, object,
  no_items, item, no_fields, field, count_items, count_fields, depth, depth_items, depth_fields,
}
use reflgen_cpp.Json.Encoding.{
  render, render_items, render_fields, has_items, has_fields, IsJson, AreItemsJson, AreFieldsJson,
  writer_calls,
}
use reflgen_cpp.Json.Writer.{Writer, Frame, Floating, writer, begin_value, complete}
use reflgen_cpp.Json.WriteCalls.{
  with, frame, opened, Ready, write_null-Ready, write_bool-Ready, write_int-Ready, write_uint-Ready,
  append_floating-Ready, write_string-Ready, write_bytes-Ready, begin_array-Ready,
  begin_object-Ready, gap, end_array-opened, end_object-opened, Ready-item, Ready-entry, key_text,
  write_key-opened, more_output,
}

or-true : (b : Bool) → (b || true) ≡ true
or-true true = refl
or-true false = refl

module _ (type : Floating) where
  mutual
    unfolding write_value render depth IsJson

    write_value_lem :
        (v : Value) (w t : Writer)
        → Ready w t
        → IsJson type v
        → length w.stack + depth v ≤ w.max_depth
        → write_value (writer_calls type) v w
          ≡ ok (tt, with t (render type t.indent (length t.stack) v) t.stack)
    write_value_lem null w t r h d = write_null-Ready w t r
    write_value_lem (boolean b) w t r h d = write_bool-Ready w t r b
    write_value_lem (signed n) w t r h d = write_int-Ready w t r n
    write_value_lem (unsigned n) w t r h d = write_uint-Ready w t r n
    write_value_lem (floating n) w t r h d = append_floating-Ready w t r type n h
    write_value_lem (string s) w t r h d = write_string-Ready w t r s h
    write_value_lem (bytes s) w t r h d = write_bytes-Ready w t r s
    write_value_lem (array xs) w t r h d =
        let deep : suc (length t.stack) + depth_items xs ≤ t.max_depth =
          omega (arith, r.same_length, r.same_depth) in
        rw (
          begin_array-Ready w t r (count_items xs) (omega arith),
          write_items_lem xs t (b'[' ∷ []) t.stack false r.no_hint h deep,
          end_array-opened t (b'[' ∷ render_items type t.indent (suc (length t.stack)) false xs)
              t.stack (has_items xs),
        )
    write_value_lem (object fs) w t r h d =
        let deep : suc (length t.stack) + depth_fields fs ≤ t.max_depth =
          omega (arith, r.same_length, r.same_depth) in
        rw (
          begin_object-Ready w t r (count_fields fs) (omega arith),
          write_fields_lem fs t (b'{' ∷ []) t.stack false r.no_hint h deep,
          end_object-opened t (b'{' ∷ render_fields type t.indent (suc (length t.stack)) false fs)
              t.stack (has_fields fs),
        )

    write_items_lem :
        (xs : Items) (w : Writer) (bs : List ℕ) (outer : List Frame) (behind : Bool)
        → w.inline_next ≡ false
        → AreItemsJson type xs
        → suc (length outer) + depth_items xs ≤ w.max_depth
        → write_items (writer_calls type) xs (opened w bs (frame false behind false) outer)
          ≡ ok (
            tt,
            opened w
                (bs ++ render_items type w.indent (suc (length outer)) behind xs)
                (frame false (behind || has_items xs) false)
                outer,
          )
    write_items_lem no_items w bs outer true p h d = rw append-nil
    write_items_lem no_items w bs outer false p h d = rw append-nil
    write_items_lem (item x xs) w bs outer behind p (h, hs) d =
        let depth' : ℕ = suc (length outer) in
        let bs' : List ℕ = bs ++ gap w bs outer behind in
        rw
          (
            write_value_lem x _ _ (Ready-item w bs outer behind p) h (omega arith),
            more_output w bs' outer (render type w.indent depth' x) (frame false true false ∷ outer)
                (frame false true false ∷ outer),
          )
          (write_items_lem xs w (bs' ++ render type w.indent depth' x) outer true p hs (omega arith)
            ∙ simp (append_assoc, or-true))

    write_fields_lem :
        (fs : Fields) (w : Writer) (bs : List ℕ) (outer : List Frame) (behind : Bool)
        → w.inline_next ≡ false
        → AreFieldsJson type fs
        → suc (length outer) + depth_fields fs ≤ w.max_depth
        → write_fields (writer_calls type) fs (opened w bs (frame true behind false) outer)
          ≡ ok (
            tt,
            opened w
                (bs ++ render_fields type w.indent (suc (length outer)) behind fs)
                (frame true (behind || has_fields fs) false)
                outer,
          )
    write_fields_lem no_fields w bs outer true p h d = rw append-nil
    write_fields_lem no_fields w bs outer false p h d = rw append-nil
    write_fields_lem (field k x fs) w bs outer behind p (hk, h, hs) d =
        let depth' : ℕ = suc (length outer) in
        let bs' : List ℕ = bs ++ key_text w bs outer behind k in
        rw
          (
            write_key-opened w bs outer behind k hk,
            write_value_lem x _ _ (Ready-entry w bs' outer true p) h (omega arith),
            more_output w bs' outer (render type w.indent depth' x) (frame true true false ∷ outer)
                (frame true true false ∷ outer),
          )
          (write_fields_lem fs w (bs' ++ render type w.indent depth' x) outer true p hs
              (omega arith)
            ∙ simp (append_assoc, or-true))

-- A new JSON writer, compact or indented by any width, called for one value in the order of the contract:
-- if the value has no NaN and no infinity, all its strings and keys are UTF-8, its integers fit 64 bits
-- and it is no deeper than `max_depth`, every call returns, the output grows by the text of the value,
-- and the document is complete.
pub write_value-render :
    (type : Floating) (v : Value) (out : List ℕ) (indent max_depth : ℕ)
    → IsJson type v
    → depth v ≤ max_depth
    → (w : Writer) × (write_value (writer_calls type) v (writer out indent max_depth) ≡ ok (tt, w))
      × (w.output ≡ out ++ render type indent 0 v)
      × (complete w ≡ true)
unfolding begin_value
write_value-render type v out indent max_depth h d =
    let t = record (writer out indent max_depth) { root_started = true } in
    let r : Ready (writer out indent max_depth) t = record {
      due = refl;
      same_indent = refl;
      same_depth = refl;
      same_length = refl;
      no_hint = refl;
      plain = refl;
    } in
    (
      with t (render type indent 0 v) [],
      write_value_lem type v (writer out indent max_depth) t r h (omega arith),
      refl,
      refl,
    )
