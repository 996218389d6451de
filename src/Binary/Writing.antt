-- ===== src/Binary/Writing.antt =====
-- The calls of include/reflgen/binary/writer.h for one value, in the order of the contract.
use reflgen_cpp.Common.{
  ℕ, suc, ◌+◌, ◌^◌, ◌≤◌, ◌<◌, ◌≡◌, refl, ◌∙◌, Bool, true, false, List, [], ◌∷◌, ◌++◌, append_assoc,
  append-nil, length, leb, arith,
}
use reflgen_cpp.Common.Outcome.{ok}
use reflgen_cpp.Serial.Contract.{write_value, write_items, write_fields}
use reflgen_cpp.Serial.Value.{
  Value, Items, Fields, null, boolean, signed, unsigned, floating, string, bytes, array, object,
  no_items, item, no_fields, field, count_items, count_fields, depth, depth_items, depth_fields,
  IsSized, AreItemsSized, AreFieldsSized,
}
use reflgen_cpp.Binary.Wire.{Tag, tag_byte}
use reflgen_cpp.Binary.Varint.{leb128, put_varint-leb128}
use reflgen_cpp.Binary.Scalars.{zigzag-IsU64}
use reflgen_cpp.Binary.Encoding.{encode, encode_items, encode_fields, writer_calls}
use reflgen_cpp.Binary.Writer.{
  Writer, Frame, writer, begin_value, check_depth, close, put_text, write_null, write_bool,
  write_int, write_uint, write_float, write_string, write_bytes, begin_array, begin_object,
  end_array, end_object, write_key, complete,
}

-- The writer with more output and other containers open.
abbrev with : Writer → List ℕ → List Frame → Writer
with w bs st = record w { output = w.output ++ bs; stack = st }

-- A value is due: `begin_value` passes, and leaves `st` open.
abbrev Due : Writer → Writer → Type 0
Due w t = begin_value w ≡ ok (tt, t)

abbrev frame : Bool → ℕ → Bool → Frame
frame is_object remaining awaiting_value = record {
  is_object = is_object;
  remaining = remaining;
  awaiting_value = awaiting_value;
}

begin_value_keeps :
    (w t : Writer)
    → Due w t
    → (t.output ≡ w.output) × (t.max_depth ≡ w.max_depth) × (length t.stack ≡ length w.stack)
unfolding begin_value
begin_value_keeps w t h = ground arith

put_text-append :
    (s : List ℕ) (w : Writer)
    → length s < 2 ^ 64
    → put_text s w ≡ ok (tt, record w { output = w.output ++ (leb128 (length s) ++ s) })
unfolding put_text
put_text-append s w h = rw (put_varint-leb128 (length s) w h, append_assoc)

module _ (w t : Writer) (due : Due w t) where
  write_null-Due : write_null w ≡ ok (tt, with t (encode null) t.stack)
  unfolding write_null encode
  write_null-Due = rw due

  write_bool-Due : (b : Bool) → write_bool b w ≡ ok (tt, with t (encode (boolean b)) t.stack)
  unfolding write_bool encode
  write_bool-Due true = rw due
  write_bool-Due false = rw due

  write_uint-Due :
      (n : ℕ) → n < 2 ^ 64 → write_uint n w ≡ ok (tt, with t (encode (unsigned n)) t.stack)
  unfolding write_uint encode
  write_uint-Due n h = rw (due, put_varint-leb128 n _ h, append_assoc)

  write_int-Due : (n : ℕ) → n < 2 ^ 64 → write_int n w ≡ ok (tt, with t (encode (signed n)) t.stack)
  unfolding write_int encode
  write_int-Due n h = rw (due, put_varint-leb128 _ _ (zigzag-IsU64 n h), append_assoc)

  write_float-Due : (n : ℕ) → write_float n w ≡ ok (tt, with t (encode (floating n)) t.stack)
  unfolding write_float encode
  write_float-Due n = rw (due, append_assoc)

  write_string-Due :
      (s : List ℕ)
      → length s < 2 ^ 64
      → write_string s w ≡ ok (tt, with t (encode (string s)) t.stack)
  unfolding write_string encode
  write_string-Due s h = rw (due, put_text-append s _ h, append_assoc)

  write_bytes-Due :
      (s : List ℕ)
      → length s < 2 ^ 64
      → write_bytes s w ≡ ok (tt, with t (encode (bytes s)) t.stack)
  unfolding write_bytes encode
  write_bytes-Due s h = rw (due, put_varint-leb128 _ _ h) (simp append_assoc)

room : (w : Writer) → length w.stack < w.max_depth → leb w.max_depth (length w.stack) ≡ false
room w h = ground arith

-- The containers.
module _ (w t : Writer) (due : Due w t) (n : ℕ) (h : n < 2 ^ 64)
    (deep : length w.stack < w.max_depth) where
  begin_array-Due :
      begin_array n w
      ≡ ok (tt, with t (tag_byte Tag.array ∷ leb128 n) (frame false n false ∷ t.stack))
  unfolding begin_array check_depth
  begin_array-Due = rw (room w deep, due, put_varint-leb128 n _ h, append_assoc)

  begin_object-Due :
      begin_object n w
      ≡ ok (tt, with t (tag_byte Tag.object ∷ leb128 n) (frame true n false ∷ t.stack))
  unfolding begin_object check_depth
  begin_object-Due = rw (room w deep, due, put_varint-leb128 n _ h, append_assoc)

-- The state in which a loop finds the writer.
abbrev opened : Writer → List ℕ → Frame → List Frame → Writer
opened w bs f outer = with w bs (f ∷ outer)

module _ (w : Writer) (bs : List ℕ) (outer : List Frame) where
  end_array-opened : end_array (opened w bs (frame false 0 false) outer) ≡ ok (tt, with w bs outer)
  unfolding end_array close
  end_array-opened = refl

  end_object-opened : end_object (opened w bs (frame true 0 false) outer) ≡ ok (tt, with w bs outer)
  unfolding end_object close
  end_object-opened = refl

  Due-item :
      (n : ℕ)
      → Due
          (opened w bs (frame false (suc n) false) outer)
          (opened w bs (frame false n false) outer)
  unfolding begin_value
  Due-item n = ground arith

  Due-entry :
      (n : ℕ) → Due (opened w bs (frame true n true) outer) (opened w bs (frame true n false) outer)
  unfolding begin_value
  Due-entry n = refl

  write_key-opened :
      (n : ℕ) (k : List ℕ)
      → length k < 2 ^ 64
      → write_key k (opened w bs (frame true (suc n) false) outer)
        ≡ ok (tt, opened w (bs ++ (leb128 (length k) ++ k)) (frame true n true) outer)
  unfolding write_key
  write_key-opened n k h = ground (
    arith,
    put_text-append k (opened w bs (frame true n true) outer) h,
    append_assoc w.output bs (leb128 (length k) ++ k),
  )

  more_output :
      (cs : List ℕ) (st st' : List Frame) → with (with w bs st) cs st' ≡ with w (bs ++ cs) st'
  more_output cs st st' = rw append_assoc

mutual
  unfolding write_value encode depth IsSized

  write_value_lem :
      (v : Value) (w t : Writer)
      → Due w t
      → IsSized v
      → length w.stack + depth v ≤ w.max_depth
      → write_value writer_calls v w ≡ ok (tt, with t (encode v) t.stack)
  write_value_lem null w t due h d = write_null-Due w t due
  write_value_lem (boolean b) w t due h d = write_bool-Due w t due b
  write_value_lem (signed n) w t due h d = write_int-Due w t due n h
  write_value_lem (unsigned n) w t due h d = write_uint-Due w t due n h
  write_value_lem (floating n) w t due h d = write_float-Due w t due n
  write_value_lem (string s) w t due h d = write_string-Due w t due s h
  write_value_lem (bytes s) w t due h d = write_bytes-Due w t due s h
  write_value_lem (array xs) w t due (h, hs) d =
      let (eo, em, el) = begin_value_keeps w t due in
      rw (
        begin_array-Due w t due (count_items xs) h (omega arith),
        write_items_lem xs t (tag_byte Tag.array ∷ leb128 (count_items xs)) t.stack hs
            (omega arith),
        end_array-opened,
      )
  write_value_lem (object fs) w t due (h, hs) d =
      let (eo, em, el) = begin_value_keeps w t due in
      rw (
        begin_object-Due w t due (count_fields fs) h (omega arith),
        write_fields_lem fs t (tag_byte Tag.object ∷ leb128 (count_fields fs)) t.stack hs
            (omega arith),
        end_object-opened,
      )

  write_items_lem :
      (xs : Items) (w : Writer) (bs : List ℕ) (outer : List Frame)
      → AreItemsSized xs
      → suc (length outer) + depth_items xs ≤ w.max_depth
      → write_items writer_calls xs (opened w bs (frame false (count_items xs) false) outer)
        ≡ ok (tt, opened w (bs ++ encode_items xs) (frame false 0 false) outer)
  write_items_lem no_items w bs outer h d = rw append-nil
  write_items_lem (item x xs) w bs outer (h, hs) d =
      rw
        (
          write_value_lem x _ _ (Due-item w bs outer (count_items xs)) h (omega arith),
          more_output w bs outer (encode x) (frame false (count_items xs) false ∷ outer),
        )
        (write_items_lem xs w (bs ++ encode x) outer hs (omega arith) ∙ rw append_assoc)

  write_fields_lem :
      (fs : Fields) (w : Writer) (bs : List ℕ) (outer : List Frame)
      → AreFieldsSized fs
      → suc (length outer) + depth_fields fs ≤ w.max_depth
      → write_fields writer_calls fs (opened w bs (frame true (count_fields fs) false) outer)
        ≡ ok (tt, opened w (bs ++ encode_fields fs) (frame true 0 false) outer)
  write_fields_lem no_fields w bs outer h d = rw append-nil
  write_fields_lem (field k x fs) w bs outer (hk, h, hs) d =
      let n : ℕ = count_fields fs in
      let bs' : List ℕ = bs ++ (leb128 (length k) ++ k) in
      rw
        (
          write_key-opened w bs outer n k hk,
          write_value_lem x _ _ (Due-entry w bs' outer n) h (omega arith),
          more_output w bs' outer (encode x) (frame true n false ∷ outer),
        )
        (write_fields_lem fs w (bs' ++ encode x) outer hs (omega arith) ∙ simp append_assoc)

-- One value, written by a new writer in the order of the contract with sizes and lengths that fit
-- 64 bits and no deeper than `max_depth`: every call returns, the output grows by the encoding of
-- the value, and the document is complete.
pub write_value-encode :
    (v : Value) (out : List ℕ) (max_depth : ℕ)
    → IsSized v
    → depth v ≤ max_depth
    → (w : Writer) × (write_value writer_calls v (writer out max_depth) ≡ ok (tt, w))
      × (w.output ≡ out ++ encode v)
      × (complete w ≡ true)
unfolding begin_value
write_value-encode v out max_depth h d =
    let t = record (writer out max_depth) { root_started = true } in
    (
      with t (encode v) [],
      write_value_lem v (writer out max_depth) t refl h (omega arith),
      refl,
      refl,
    )
