-- ===== src/Binary/Reading.antt =====
-- The calls of include/reflgen/binary/reader.h for one value, in the order of the contract.
use reflgen_cpp.Common.{
  ℕ, suc, ◌+◌, ◌≤◌, ◌≡◌, true, false, List, ◌∷◌, ◌++◌, append_assoc, length, arith,
}
use reflgen_cpp.Common.Outcome.{ok}
use reflgen_cpp.Serial.Contract.{read_value, read_items, read_fields}
use reflgen_cpp.Serial.Value.{
  Value, Items, Fields, null, boolean, signed, unsigned, floating, string, bytes, array, object,
  no_items, item, no_fields, field, count_items, count_fields, depth, depth_items, depth_fields,
  IsSized, AreItemsSized, AreFieldsSized, shape_of, shapes_of_items, shapes_of_fields,
}
use reflgen_cpp.Binary.Varint.{leb128}
use reflgen_cpp.Binary.Encoding.{encode, encode_items, encode_fields, with_length, reader_calls}
use reflgen_cpp.Binary.Reader.{Frame, at, Casts}
use reflgen_cpp.Binary.ReadCalls.{
  lengths, arrive, frame, read_null-encode, read_bool-encode, read_uint-encode, read_int-encode,
  read_float-encode, read_string-encode, read_bytes-encode, begin_array-encode, begin_object-encode,
  next_element_more, next_element_end, next_key_more, next_key_end, end_array-empty,
  end_object-empty, count_items-le, count_fields-le,
}

module _ (casts : Casts) where
  -- Each reads its encoding off the front of any input.
  abbrev Reads : Value → Type 0
  Reads v =
      (p d : ℕ) (rest : List ℕ) (st : List Frame)
      → length st + depth v ≤ d
      → read_value (reader_calls casts) (shape_of v) (at p (encode v ++ rest) d st)
        ≡ ok (v, at (p + length (encode v)) rest d st)

  abbrev ReadsItems : Items → Type 0
  ReadsItems xs =
      (p d : ℕ) (rest : List ℕ) (st : List Frame)
      → suc (length st) + depth_items xs ≤ d
      → read_items (reader_calls casts) (shapes_of_items xs)
          (at p (encode_items xs ++ rest) d (frame false (count_items xs) ∷ st))
        ≡ ok (xs, at (p + length (encode_items xs)) rest d (frame false 0 ∷ st))

  abbrev ReadsFields : Fields → Type 0
  ReadsFields fs =
      (p d : ℕ) (rest : List ℕ) (st : List Frame)
      → suc (length st) + depth_fields fs ≤ d
      → read_fields (reader_calls casts) (shapes_of_fields fs)
          (at p (encode_fields fs ++ rest) d (frame true (count_fields fs) ∷ st))
        ≡ ok (fs, at (p + length (encode_fields fs)) rest d (frame true 0 ∷ st))

  mutual
    unfolding read_value encode depth IsSized shape_of

    read_value_lem : (v : Value) → IsSized v → Reads v
    read_value_lem null h p d rest st deep = rw (read_null-encode p d rest st)
    read_value_lem (boolean true) h p d rest st deep = rw (read_bool-encode p d rest st true)
    read_value_lem (boolean false) h p d rest st deep = rw (read_bool-encode p d rest st false)
    read_value_lem (signed n) h p d rest st deep = rw (read_int-encode p d rest st n h)
    read_value_lem (unsigned n) h p d rest st deep = rw (read_uint-encode p d rest st n h)
    read_value_lem (floating n) h p d rest st deep = rw (read_float-encode p d rest st casts n h)
    read_value_lem (string s) h p d rest st deep = rw (read_string-encode p d rest st s h)
    read_value_lem (bytes s) h p d rest st deep = rw (read_bytes-encode p d rest st s h)
    read_value_lem (array xs) (h, hs) p d rest st deep =
        let n : ℕ = count_items xs in
        let body : List ℕ = encode_items xs in
        rw
          (
            append_assoc (leb128 n) body rest,
            begin_array-encode p d (body ++ rest) st n h
                (omega (arith, lengths body rest, count_items-le xs)) (omega arith),
            read_items_lem xs hs (p + 1 + length (leb128 n)) d rest st (omega arith),
            end_array-empty _ d rest st,
          )
          (arrive (array xs) _ _ rest d st (omega (arith, lengths (leb128 n) body)))
    read_value_lem (object fs) (h, hs) p d rest st deep =
        let n : ℕ = count_fields fs in
        let body : List ℕ = encode_fields fs in
        rw
          (
            append_assoc (leb128 n) body rest,
            begin_object-encode p d (body ++ rest) st n h
                (omega (arith, lengths body rest, count_fields-le fs)) (omega arith),
            read_fields_lem fs hs (p + 1 + length (leb128 n)) d rest st (omega arith),
            end_object-empty _ d rest st,
          )
          (arrive (object fs) _ _ rest d st (omega (arith, lengths (leb128 n) body)))

    read_items_lem : (xs : Items) → AreItemsSized xs → ReadsItems xs
    read_items_lem no_items h p d rest st deep =
        rw (next_element_end p d rest st) (arrive no_items _ _ rest d _ (omega arith))
    read_items_lem (item x xs) (h, hs) p d rest st deep =
        rw
          (
            append_assoc (encode x) (encode_items xs) rest,
            next_element_more p d (encode x ++ (encode_items xs ++ rest)) st (count_items xs),
            read_value_lem x h p d (encode_items xs ++ rest) (frame false (count_items xs) ∷ st)
                (omega arith),
            read_items_lem xs hs (p + length (encode x)) d rest st (omega arith),
          )
          (arrive (item x xs) _ _ rest d _ (omega (arith, lengths (encode x) (encode_items xs))))

    read_fields_lem : (fs : Fields) → AreFieldsSized fs → ReadsFields fs
    read_fields_lem no_fields h p d rest st deep =
        rw (next_key_end p d rest st) (arrive no_fields _ _ rest d _ (omega arith))
    read_fields_lem (field k x fs) (hk, h, hs) p d rest st deep =
        let later : List ℕ = encode_fields fs ++ rest in
        let open' : List Frame = frame true (count_fields fs) ∷ st in
        let after_key : ℕ = p + length (with_length k) in
        rw
          (
            append_assoc (with_length k) (encode x ++ encode_fields fs) rest,
            append_assoc (encode x) (encode_fields fs) rest,
            next_key_more p d (encode x ++ later) st (count_fields fs) k hk,
            read_value_lem x h after_key d later open' (omega arith),
            read_fields_lem fs hs (after_key + length (encode x)) d rest st (omega arith),
          )
          (arrive (field k x fs) _ _ rest d _ (omega (arith, lengths)))

-- The bytes of a value with sizes that fit 64 bits, at the front of any input and inside any open
-- containers, no deeper than `max_depth`, are read back as that value by the calls of the contract;
-- the input behind them and the open containers are left as they were.
pub read_value-encode :
    (casts : Casts) (v : Value) (p d : ℕ) (rest : List ℕ) (st : List Frame)
    → IsSized v
    → length st + depth v ≤ d
    → read_value (reader_calls casts) (shape_of v) (at p (encode v ++ rest) d st)
      ≡ ok (v, at (p + length (encode v)) rest d st)
read_value-encode casts v p d rest st h deep = read_value_lem casts v h p d rest st deep
