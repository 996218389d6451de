-- ===== src/Binary/Skipping.antt =====
-- `skip_value` of include/reflgen/binary/reader.h before the bytes of a value.
use reflgen_cpp.Common.{
  ℕ, zero, suc, ◌+◌, ◌*◌, ◌^◌, ◌≤◌, ◌<◌, ◌≡◌, refl, Bool, true, false, List, ◌∷◌, ◌++◌,
  append_assoc, length, drop-append, arith,
}
use reflgen_cpp.Common.Outcome.{ok}
use reflgen_cpp.Serial.Value.{
  Value, Items, Fields, null, boolean, signed, unsigned, floating, string, bytes, array, object,
  no_items, item, no_fields, field, count_items, count_fields, depth, depth_items, depth_fields,
  IsSized, AreItemsSized, AreFieldsSized,
}
use reflgen_cpp.Binary.Wire.{Tag}
use reflgen_cpp.Binary.Varint.{leb128}
use reflgen_cpp.Binary.Scalars.{peek_tag-tag_byte, expect_tag-tag_byte, take_length-leb128}
use reflgen_cpp.Binary.Encoding.{encode, encode_items, encode_fields, with_length}
use reflgen_cpp.Binary.Reader.{
  Frame, at, Casts, peek_tag, read_float, peek, skip_kind, skip_value, skip_elements, skip_entries,
  Action,
}
use reflgen_cpp.Serial.Calls.{ValueKind}
use reflgen_cpp.Binary.ReadCalls.{
  lengths, arrive, frame, read_null-encode, read_bool-encode, read_uint-encode, read_int-encode,
  read_float-encode, read_string-encode, begin_array-encode, begin_object-encode, next_element_more,
  next_element_end, next_key_more, next_key_end, end_array-empty, end_object-empty,
  length-encode_pos, count_items-le, count_fields-le,
}

abbrev kind : Value → ValueKind
kind null = ValueKind.null
kind (boolean b) = ValueKind.boolean
kind (signed n) = ValueKind.integer
kind (unsigned n) = ValueKind.integer
kind (floating n) = ValueKind.floating
kind (string s) = ValueKind.string
kind (bytes s) = ValueKind.bytes
kind (array xs) = ValueKind.array
kind (object fs) = ValueKind.object

peek-encode :
    (v : Value) (p d : ℕ) (rest : List ℕ) (st : List Frame)
    → peek (at p (encode v ++ rest) d st) ≡ ok (kind v, at p (encode v ++ rest) d st)
unfolding peek encode
peek-encode null p d rest st = rw (peek_tag-tag_byte p d _ st Tag.null)
peek-encode (boolean true) p d rest st = rw (peek_tag-tag_byte p d _ st Tag.true_value)
peek-encode (boolean false) p d rest st = rw (peek_tag-tag_byte p d _ st Tag.false_value)
peek-encode (signed n) p d rest st = rw (peek_tag-tag_byte p d _ st Tag.signed_integer)
peek-encode (unsigned n) p d rest st = rw (peek_tag-tag_byte p d _ st Tag.unsigned_integer)
peek-encode (floating n) p d rest st = rw (peek_tag-tag_byte p d _ st Tag.floating)
peek-encode (string s) p d rest st = rw (peek_tag-tag_byte p d _ st Tag.string)
peek-encode (bytes s) p d rest st = rw (peek_tag-tag_byte p d _ st Tag.bytes)
peek-encode (array xs) p d rest st = rw (peek_tag-tag_byte p d _ st Tag.array)
peek-encode (object fs) p d rest st = rw (peek_tag-tag_byte p d _ st Tag.object)

-- `read_float` takes integers too, and converts them.
read_float-signed :
    (casts : Casts) (n p d : ℕ) (rest : List ℕ) (st : List Frame)
    → n < 2 ^ 64
    → read_float casts (at p (encode (signed n) ++ rest) d st)
      ≡ ok (casts.int64_to_double n, at (p + length (encode (signed n))) rest d st)
unfolding read_float
read_float-signed casts n p d rest st h = rw (peek_signed, read_int-encode p d rest st n h)
  where
    peek_signed :
        peek_tag (at p (encode (signed n) ++ rest) d st)
        ≡ ok (Tag.signed_integer, at p (encode (signed n) ++ rest) d st)
    peek_signed = unfold encode in peek_tag-tag_byte p d _ st Tag.signed_integer

read_float-unsigned :
    (casts : Casts) (n p d : ℕ) (rest : List ℕ) (st : List Frame)
    → n < 2 ^ 64
    → read_float casts (at p (encode (unsigned n) ++ rest) d st)
      ≡ ok (casts.uint64_to_double n, at (p + length (encode (unsigned n))) rest d st)
unfolding read_float
read_float-unsigned casts n p d rest st h = rw (peek_unsigned, read_uint-encode p d rest st n h)
  where
    peek_unsigned :
        peek_tag (at p (encode (unsigned n) ++ rest) d st)
        ≡ ok (Tag.unsigned_integer, at p (encode (unsigned n) ++ rest) d st)
    peek_unsigned = unfold encode in peek_tag-tag_byte p d _ st Tag.unsigned_integer

-- What the switch does on a value that is no container, whatever the loops do.
abbrev Skips : Casts → Value → Type 0
Skips casts v =
    (elements entries : Action (Unit {0})) (p d : ℕ) (rest : List ℕ) (st : List Frame)
    → skip_kind casts elements entries (kind v) (at p (encode v ++ rest) d st)
      ≡ ok (tt, at (p + length (encode v)) rest d st)

skip_null : (casts : Casts) → Skips casts null
skip_null casts el en p d rest st =
    unfold skip_kind in rw (read_null-encode p d rest st) (unfold encode in refl)

skip_boolean : (casts : Casts) (b : Bool) → Skips casts (boolean b)
skip_boolean casts true el en p d rest st =
    unfold skip_kind in rw (read_bool-encode p d rest st true) (unfold encode in refl)
skip_boolean casts false el en p d rest st =
    unfold skip_kind in rw (read_bool-encode p d rest st false) (unfold encode in refl)

module _ (casts : Casts) where
  skip_signed : (n : ℕ) → n < 2 ^ 64 → Skips casts (signed n)
  unfolding skip_kind
  skip_signed n h el en p d rest st = rw (read_float-signed casts n p d rest st h)

  skip_unsigned : (n : ℕ) → n < 2 ^ 64 → Skips casts (unsigned n)
  unfolding skip_kind
  skip_unsigned n h el en p d rest st = rw (read_float-unsigned casts n p d rest st h)

  skip_floating : (n : ℕ) → n < 2 ^ 64 → Skips casts (floating n)
  unfolding skip_kind
  skip_floating n h el en p d rest st = rw (read_float-encode p d rest st casts n h)

  skip_string : (s : List ℕ) → length s < 2 ^ 64 → Skips casts (string s)
  unfolding skip_kind
  skip_string s h el en p d rest st = rw (read_string-encode p d rest st s h)

  skip_bytes : (s : List ℕ) → length s < 2 ^ 64 → Skips casts (bytes s)
  unfolding skip_kind encode
  skip_bytes s h el en p d rest st =
      rw
        (
          append_assoc (leb128 (length s)) s rest,
          expect_tag-tag_byte p d (leb128 (length s) ++ (s ++ rest)) st Tag.bytes "expected bytes",
          take_length-leb128 1 (length s) (p + 1) d (s ++ rest) st h (omega (arith, lengths)),
          drop-append s rest,
        )
        (arrive tt _ _ rest d st (omega (arith, lengths)))

  skip_array :
      (elements entries : Action (Unit {0})) (xs : Items) (p d : ℕ) (rest : List ℕ)
      (st : List Frame)
      → count_items xs < 2 ^ 64
      → length st < d
      → elements (
          at
            (p + 1 + length (leb128 (count_items xs)))
            (encode_items xs ++ rest)
            d
            (frame false (count_items xs) ∷ st))
        ≡ ok (
          tt,
          at
              (p + 1 + length (leb128 (count_items xs)) + length (encode_items xs))
              rest
              d
              (frame false 0 ∷ st),
        )
      → skip_kind casts elements entries ValueKind.array (at p (encode (array xs) ++ rest) d st)
        ≡ ok (tt, at (p + length (encode (array xs))) rest d st)
  unfolding skip_kind encode
  skip_array elements entries xs p d rest st h deep loop =
      rw
        (
          append_assoc (leb128 (count_items xs)) (encode_items xs) rest,
          begin_array-encode p d (encode_items xs ++ rest) st (count_items xs) h
              (omega (arith, lengths (encode_items xs) rest, count_items-le xs)) deep,
          loop,
          end_array-empty _ d rest st,
        )
        (arrive tt _ _ rest d st
          (omega (arith, lengths (leb128 (count_items xs)) (encode_items xs))))

  skip_object :
      (elements entries : Action (Unit {0})) (fs : Fields) (p d : ℕ) (rest : List ℕ)
      (st : List Frame)
      → count_fields fs < 2 ^ 64
      → length st < d
      → entries (
          at
            (p + 1 + length (leb128 (count_fields fs)))
            (encode_fields fs ++ rest)
            d
            (frame true (count_fields fs) ∷ st))
        ≡ ok (
          tt,
          at
              (p + 1 + length (leb128 (count_fields fs)) + length (encode_fields fs))
              rest
              d
              (frame true 0 ∷ st),
        )
      → skip_kind casts elements entries ValueKind.object (at p (encode (object fs) ++ rest) d st)
        ≡ ok (tt, at (p + length (encode (object fs))) rest d st)
  unfolding skip_kind encode
  skip_object elements entries fs p d rest st h deep loop =
      rw
        (
          append_assoc (leb128 (count_fields fs)) (encode_fields fs) rest,
          begin_object-encode p d (encode_fields fs ++ rest) st (count_fields fs) h
              (omega (arith, lengths (encode_fields fs) rest, count_fields-le fs)) deep,
          loop,
          end_object-empty _ d rest st,
        )
        (arrive tt _ _ rest d st
          (omega (arith, lengths (leb128 (count_fields fs)) (encode_fields fs))))

  mutual
    unfolding skip_value encode depth IsSized

    skip_value_lem :
        (v : Value) (fuel p d : ℕ) (rest : List ℕ) (st : List Frame)
        → IsSized v
        → length st + depth v ≤ d
        → 2 * length (encode v) < fuel
        → skip_value casts fuel (at p (encode v ++ rest) d st)
          ≡ ok (tt, at (p + length (encode v)) rest d st)
    skip_value_lem v zero p d rest st h deep hf = absurd (omega arith)
    skip_value_lem null (suc fuel) p d rest st h deep hf =
        rw (peek-encode null p d rest st) (skip_null casts _ _ p d rest st)
    skip_value_lem (boolean b) (suc fuel) p d rest st h deep hf =
        rw (peek-encode (boolean b) p d rest st) (skip_boolean casts b _ _ p d rest st)
    skip_value_lem (signed n) (suc fuel) p d rest st h deep hf =
        rw (peek-encode (signed n) p d rest st) (skip_signed n h _ _ p d rest st)
    skip_value_lem (unsigned n) (suc fuel) p d rest st h deep hf =
        rw (peek-encode (unsigned n) p d rest st) (skip_unsigned n h _ _ p d rest st)
    skip_value_lem (floating n) (suc fuel) p d rest st h deep hf =
        rw (peek-encode (floating n) p d rest st) (skip_floating n h _ _ p d rest st)
    skip_value_lem (string s) (suc fuel) p d rest st h deep hf =
        rw (peek-encode (string s) p d rest st) (skip_string s h _ _ p d rest st)
    skip_value_lem (bytes s) (suc fuel) p d rest st h deep hf =
        rw (peek-encode (bytes s) p d rest st) (skip_bytes s h _ _ p d rest st)
    skip_value_lem (array xs) (suc fuel) p d rest st (h, hs) deep hf =
        let n : ℕ = count_items xs in
        let body : List ℕ = encode_items xs in
        rw (peek-encode (array xs) p d rest st) (
          skip_array (skip_elements casts fuel) (skip_entries casts fuel) xs p d rest st h
            (omega arith)
            (skip_items_lem xs fuel (p + 1 + length (leb128 n)) d rest st hs (omega arith)
              (omega (arith, lengths (leb128 n) body))))
    skip_value_lem (object fs) (suc fuel) p d rest st (h, hs) deep hf =
        let n : ℕ = count_fields fs in
        let body : List ℕ = encode_fields fs in
        rw (peek-encode (object fs) p d rest st) (
          skip_object (skip_elements casts fuel) (skip_entries casts fuel) fs p d rest st h
            (omega arith)
            (skip_fields_lem fs fuel (p + 1 + length (leb128 n)) d rest st hs (omega arith)
              (omega (arith, lengths (leb128 n) body))))

    skip_items_lem :
        (xs : Items) (fuel p d : ℕ) (rest : List ℕ) (st : List Frame)
        → AreItemsSized xs
        → suc (length st) + depth_items xs ≤ d
        → 2 * length (encode_items xs) + 1 < fuel
        → skip_elements casts fuel
            (at p (encode_items xs ++ rest) d (frame false (count_items xs) ∷ st))
          ≡ ok (tt, at (p + length (encode_items xs)) rest d (frame false 0 ∷ st))
    skip_items_lem xs zero p d rest st h deep hf = absurd (omega arith)
    skip_items_lem no_items (suc fuel) p d rest st h deep hf =
        rw (next_element_end p d rest st) (arrive tt _ _ rest d _ (omega arith))
    skip_items_lem (item x xs) (suc fuel) p d rest st (h, hs) deep hf =
        rw
          (
            append_assoc (encode x) (encode_items xs) rest,
            next_element_more p d (encode x ++ (encode_items xs ++ rest)) st (count_items xs),
            skip_value_lem x fuel p d (encode_items xs ++ rest) (frame false (count_items xs) ∷ st)
                h (omega arith) (omega (arith, lengths (encode x) (encode_items xs))),
            skip_items_lem xs fuel (p + length (encode x)) d rest st hs (omega arith)
                (omega (arith, lengths (encode x) (encode_items xs), length-encode_pos x)),
          )
          (arrive tt _ _ rest d _ (omega (arith, lengths (encode x) (encode_items xs))))

    skip_fields_lem :
        (fs : Fields) (fuel p d : ℕ) (rest : List ℕ) (st : List Frame)
        → AreFieldsSized fs
        → suc (length st) + depth_fields fs ≤ d
        → 2 * length (encode_fields fs) + 1 < fuel
        → skip_entries casts fuel
            (at p (encode_fields fs ++ rest) d (frame true (count_fields fs) ∷ st))
          ≡ ok (tt, at (p + length (encode_fields fs)) rest d (frame true 0 ∷ st))
    skip_fields_lem fs zero p d rest st h deep hf = absurd (omega arith)
    skip_fields_lem no_fields (suc fuel) p d rest st h deep hf =
        rw (next_key_end p d rest st) (arrive tt _ _ rest d _ (omega arith))
    skip_fields_lem (field k x fs) (suc fuel) p d rest st (hk, h, hs) deep hf =
        let later : List ℕ = encode_fields fs ++ rest in
        let open' : List Frame = frame true (count_fields fs) ∷ st in
        let after_key : ℕ = p + length (with_length k) in
        rw
          (
            append_assoc (with_length k) (encode x ++ encode_fields fs) rest,
            append_assoc (encode x) (encode_fields fs) rest,
            next_key_more p d (encode x ++ later) st (count_fields fs) k hk,
            skip_value_lem x fuel after_key d later open' h (omega arith) (omega (arith, lengths)),
            skip_fields_lem fs fuel (after_key + length (encode x)) d rest st hs (omega arith)
                (omega (arith, lengths, length-encode_pos x)),
          )
          (arrive tt _ _ rest d _ (omega (arith, lengths)))

-- `skip_value` before the bytes of a value with sizes that fit 64 bits, no deeper than `max_depth`,
-- skips those bytes and no more, and leaves the open containers as they were; two units of fuel for
-- each byte and one more are enough.
pub skip_value-encode :
    (casts : Casts) (v : Value) (fuel p d : ℕ) (rest : List ℕ) (st : List Frame)
    → IsSized v
    → length st + depth v ≤ d
    → 2 * length (encode v) < fuel
    → skip_value casts fuel (at p (encode v ++ rest) d st)
      ≡ ok (tt, at (p + length (encode v)) rest d st)
skip_value-encode casts v fuel p d rest st h deep hf =
    skip_value_lem casts v fuel p d rest st h deep hf
