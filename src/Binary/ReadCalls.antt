-- ===== src/Binary/ReadCalls.antt =====
-- What each call of include/reflgen/binary/reader.h answers before the bytes of a value.
use reflgen_cpp.Common.{
  ℕ, suc, ◌+◌, ◌-◌, ◌*◌, ◌^◌, ◌≤◌, ◌<◌, ◌≡◌, refl, ap, Bool, true, false, List, ◌∷◌, ◌++◌,
  append_assoc, some, none, length, length-append, leb, ltb, ◌==◌, arith,
}
use reflgen_cpp.Common.Outcome.{Outcome, ok}
use reflgen_cpp.Serial.Value.{
  Value, Items, Fields, null, boolean, signed, unsigned, floating, string, bytes, array, object,
  no_items, item, no_fields, field, count_items, count_fields,
}
use reflgen_cpp.Binary.Wire.{Tag, tag_byte, little_bytes}
use reflgen_cpp.Binary.Varint.{leb128, length-groups, take_varint-leb128}
use reflgen_cpp.Binary.Scalars.{
  zigzag-IsU64, unzigzag-zigzag, peek_tag-tag_byte, take_tag-tag_byte, expect_tag-tag_byte,
  take_length-leb128, take_text-append, read_block-append, little_value-little_bytes,
  length-little_bytes,
}
use reflgen_cpp.Binary.Encoding.{encode, encode_items, encode_fields, with_length}
use reflgen_cpp.Binary.Writer.{zigzag}
use reflgen_cpp.Binary.Reader.{
  Reader, Frame, at, Casts, read_null, read_bool, read_int, read_uint, read_float, read_string,
  read_bytes, begin_array, begin_object, end_array, end_object, next_element, next_key, enter,
  leave, consume_slot, read_block,
}

abbrev pub frame : Bool → ℕ → Frame
frame is_object remaining = record { is_object = is_object; remaining = remaining }

abbrev pub lengths : (xs ys : List ℕ) → length (xs ++ ys) ≡ length xs + length ys
lengths = length-append

-- A position may be written as the sum of other lengths.
pub arrive :
    {A : Type 0} (a : A) (p q : ℕ) (rest : List ℕ) (d : ℕ) (st : List Frame)
    → p ≡ q
    → ◌≡◌ {A = Outcome (A × Reader)} (ok (a, at p rest d st)) (ok (a, at q rest d st))
arrive a p q rest d st e = ap (λ t. ok (a, at t rest d st)) e

module _ (p d : ℕ) (rest : List ℕ) (st : List Frame) where
  pub read_null-encode : read_null (at p (encode null ++ rest) d st) ≡ ok (tt, at (p + 1) rest d st)
  unfolding read_null encode
  read_null-encode = expect_tag-tag_byte p d rest st Tag.null "expected null"

  pub read_bool-encode :
      (b : Bool) → read_bool (at p (encode (boolean b) ++ rest) d st) ≡ ok (b, at (p + 1) rest d st)
  unfolding read_bool encode
  read_bool-encode true = rw (take_tag-tag_byte p d rest st Tag.true_value)
  read_bool-encode false = rw (take_tag-tag_byte p d rest st Tag.false_value)

  pub read_uint-encode :
      (n : ℕ)
      → n < 2 ^ 64
      → read_uint (at p (encode (unsigned n) ++ rest) d st)
        ≡ ok (n, at (p + length (encode (unsigned n))) rest d st)
  unfolding read_uint encode
  read_uint-encode n h =
      rw
        (
          take_tag-tag_byte p d (leb128 n ++ rest) st Tag.unsigned_integer,
          take_varint-leb128 n (p + 1) d rest st h,
        )
        (arrive n _ _ rest d st (omega arith))

  pub read_int-encode :
      (n : ℕ)
      → n < 2 ^ 64
      → read_int (at p (encode (signed n) ++ rest) d st)
        ≡ ok (n, at (p + length (encode (signed n))) rest d st)
  unfolding read_int encode
  read_int-encode n h =
      rw
        (
          take_tag-tag_byte p d (leb128 (zigzag n) ++ rest) st Tag.signed_integer,
          take_varint-leb128 (zigzag n) (p + 1) d rest st (zigzag-IsU64 n h),
          unzigzag-zigzag n h,
        )
        (arrive n _ _ rest d st (omega arith))

  pub read_float-encode :
      (casts : Casts) (n : ℕ)
      → n < 2 ^ 64
      → read_float casts (at p (encode (floating n) ++ rest) d st)
        ≡ ok (n, at (p + length (encode (floating n))) rest d st)
  unfolding read_float encode
  read_float-encode casts n h =
      let e : ltb (length (little_bytes n ++ rest)) 8 ≡ false =
        ground (arith, lengths (little_bytes n) rest, length-little_bytes n) in
      rw
        (
          peek_tag-tag_byte p d (little_bytes n ++ rest) st Tag.floating,
          e,
          read_eight (little_bytes n) (length-little_bytes n),
          little_value-little_bytes n h,
        )
        (arrive n _ _ rest d st (omega (arith, length-little_bytes n)))
    where
      read_eight :
          (bs : List ℕ)
          → length bs ≡ 8
          → read_block 8 (at (p + 1) (bs ++ rest) d st) ≡ ok (bs, at (p + 1 + 8) rest d st)
      read_eight bs e = rw e at (read_block-append bs rest (p + 1) d st)

  pub read_string-encode :
      (s : List ℕ)
      → length s < 2 ^ 64
      → read_string (at p (encode (string s) ++ rest) d st)
        ≡ ok (s, at (p + length (encode (string s))) rest d st)
  unfolding read_string encode
  read_string-encode s h =
      rw
        (
          append_assoc (leb128 (length s)) s rest,
          expect_tag-tag_byte p d (leb128 (length s) ++ (s ++ rest)) st Tag.string
              "expected a string",
          take_text-append s rest (p + 1) d st h,
        )
        (arrive s _ _ rest d st (omega (arith, lengths)))

  pub read_bytes-encode :
      (s : List ℕ)
      → length s < 2 ^ 64
      → read_bytes (at p (encode (bytes s) ++ rest) d st)
        ≡ ok (s, at (p + length (encode (bytes s))) rest d st)
  unfolding read_bytes encode
  read_bytes-encode s h =
      rw
        (
          append_assoc (leb128 (length s)) s rest,
          expect_tag-tag_byte p d (leb128 (length s) ++ (s ++ rest)) st Tag.bytes "expected bytes",
          take_length-leb128 1 (length s) (p + 1) d (s ++ rest) st h (omega (arith, lengths)),
          read_block-append s rest _ d st,
        )
        (arrive s _ _ rest d st (omega (arith, lengths)))

-- The containers.
module _ (p d : ℕ) (rest : List ℕ) (st : List Frame) where
  pub begin_array-encode :
      (n : ℕ)
      → n < 2 ^ 64
      → n ≤ length rest
      → length st < d
      → begin_array (at p (tag_byte Tag.array ∷ (leb128 n ++ rest)) d st)
        ≡ ok (n, at (p + 1 + length (leb128 n)) rest d (frame false n ∷ st))
  unfolding begin_array enter
  begin_array-encode n h fits deep =
      let e : leb d (length st) ≡ false = ground arith in
      rw (
        expect_tag-tag_byte p d (leb128 n ++ rest) st Tag.array "expected an array",
        take_length-leb128 1 n (p + 1) d rest st h (omega arith),
        e,
      )

  pub begin_object-encode :
      (n : ℕ)
      → n < 2 ^ 64
      → 2 * n ≤ length rest
      → length st < d
      → begin_object (at p (tag_byte Tag.object ∷ (leb128 n ++ rest)) d st)
        ≡ ok (n, at (p + 1 + length (leb128 n)) rest d (frame true n ∷ st))
  unfolding begin_object enter
  begin_object-encode n h fits deep =
      let e : leb d (length st) ≡ false = ground arith in
      rw (
        expect_tag-tag_byte p d (leb128 n ++ rest) st Tag.object "expected an object",
        take_length-leb128 2 n (p + 1) d rest st h (omega arith),
        e,
      )

  pub next_element_more :
      (n : ℕ)
      → next_element (at p rest d (frame false (suc n) ∷ st))
        ≡ ok (true, at p rest d (frame false n ∷ st))
  unfolding next_element consume_slot
  next_element_more n = ground arith

  pub next_element_end :
      next_element (at p rest d (frame false 0 ∷ st)) ≡ ok (false, at p rest d (frame false 0 ∷ st))
  unfolding next_element consume_slot
  next_element_end = refl

  pub next_key_more :
      (n : ℕ) (k : List ℕ)
      → length k < 2 ^ 64
      → next_key (at p (with_length k ++ rest) d (frame true (suc n) ∷ st))
        ≡ ok (some k, at (p + length (with_length k)) rest d (frame true n ∷ st))
  unfolding next_key consume_slot
  next_key_more n k h =
      let e : (suc n == 0) ≡ false = ground arith in
      let e' : suc n - 1 ≡ n = omega arith in
      rw
        (
          e,
          e',
          append_assoc (leb128 (length k)) k rest,
          take_text-append k rest p d (frame true n ∷ st) h,
        )
        (arrive (some k) _ _ rest d _ (omega (arith, lengths)))

  pub next_key_end :
      next_key (at p rest d (frame true 0 ∷ st)) ≡ ok (none, at p rest d (frame true 0 ∷ st))
  unfolding next_key consume_slot
  next_key_end = refl

  pub end_array-empty : end_array (at p rest d (frame false 0 ∷ st)) ≡ ok (tt, at p rest d st)
  unfolding end_array leave
  end_array-empty = refl

  pub end_object-empty : end_object (at p rest d (frame true 0 ∷ st)) ≡ ok (tt, at p rest d st)
  unfolding end_object leave
  end_object-empty = refl

-- An element takes a byte at least, and an entry two.
pub length-encode_pos : (v : Value) → 1 ≤ length (encode v)
unfolding encode
length-encode_pos (boolean true) = omega arith
length-encode_pos (boolean false) = omega arith
length-encode_pos null = omega arith
length-encode_pos (signed n) = omega arith
length-encode_pos (unsigned n) = omega arith
length-encode_pos (floating n) = omega arith
length-encode_pos (string s) = omega arith
length-encode_pos (bytes s) = omega arith
length-encode_pos (array xs) = omega arith
length-encode_pos (object fs) = omega arith

pub count_items-le : (xs : Items) → count_items xs ≤ length (encode_items xs)
unfolding encode
count_items-le no_items = omega arith
count_items-le (item x xs) =
    omega (arith, lengths (encode x) (encode_items xs), length-encode_pos x, count_items-le xs)

pub count_fields-le : (fs : Fields) → 2 * count_fields fs ≤ length (encode_fields fs)
unfolding encode
count_fields-le no_fields = omega arith
count_fields-le (field k x fs) =
    omega (arith, lengths, length-encode_pos x, length-groups 9 (length k), count_fields-le fs)
