-- ===== src/Binary/Scalars.antt =====
-- What the scalar calls of include/reflgen/binary/reader.h answer on the bytes that the calls of
-- include/reflgen/binary/writer.h append.
use reflgen_cpp.Common.{
  ℕ, ◌+◌, ◌-◌, ◌*◌, ◌/◌, ◌%◌, ◌^◌, ◌≤◌, bit_and, bit_or, ◌≡◌, refl, ap, ◌∙◌, false, inl, inr, List,
  ◌∷◌, ◌++◌, ltb, ◌==◌, ==_iff, if◌then◌else◌, length, take-append, drop-append, length-append,
  Bool-cases, arith, String,
}
use reflgen_cpp.Common.Bits.{bit_xor-ones, bit_xor-zero, bit_and-ones, bit_or-low_high}
use reflgen_cpp.Common.Outcome.{ok}
use reflgen_cpp.Binary.Wire.{IsU64, tag_byte, null, Tag, little_bytes, little_value}
use reflgen_cpp.Binary.Reader.{
  Frame, at, peek_tag, take_tag, expect_tag, take_length, take_text, unzigzag, read_block,
}
use reflgen_cpp.Binary.Writer.{zigzag}
use reflgen_cpp.Binary.Varint.{leb128, take_varint-leb128}
use native.Mathlib.Nat.{mod-eq_of_lt, mod-lt, div-add-mod, one-le-pow, le_trans}
use Prim.Native.Nat.{suc-le-suc}

module _ (p d : ℕ) (rest : List ℕ) (st : List Frame) where
  pub peek_tag-tag_byte :
      (t : Tag) → peek_tag (at p (tag_byte t ∷ rest) d st) ≡ ok (t, at p (tag_byte t ∷ rest) d st)
  unfolding peek_tag
  peek_tag-tag_byte null = ground arith
  peek_tag-tag_byte _ = ground arith

module _ (p d : ℕ) (rest : List ℕ) (st : List Frame) where
  pub take_tag-tag_byte :
      (t : Tag) → take_tag (at p (tag_byte t ∷ rest) d st) ≡ ok (t, at (p + 1) rest d st)
  unfolding take_tag
  take_tag-tag_byte t = rw (peek_tag-tag_byte p d rest st t)

  pub expect_tag-tag_byte :
      (t : Tag) (m : String)
      → expect_tag t m (at p (tag_byte t ∷ rest) d st) ≡ ok (tt, at (p + 1) rest d st)
  unfolding expect_tag
  expect_tag-tag_byte t m = rw (peek_tag-tag_byte p d rest st t) (ground arith)

-- The numbers that the patterns stand for: 2 n for n, and 2 n - 1 for -n.
zigzag_lem : (v : ℕ) → IsU64 v → zigzag v ≡ (if ltb v (2 ^ 63) then 2 * v else 2 ^ 65 - 1 - 2 * v)
zigzag_lem v h = elim (Bool-cases (ltb v (2 ^ 63))) [
  | inl e ↦ rw (e, bit_xor-zero) (ground arith)
  | inr e ↦ rw (e, bit_xor-ones 64 (v * 2 % 2 ^ 64) (omega arith)) (ground arith)
]

unzigzag_lem : (e : ℕ) → IsU64 e → unzigzag e ≡ (if e % 2 == 0 then e / 2 else 2 ^ 64 - 1 - e / 2)
unzigzag_lem e h = elim (Bool-cases (e % 2 == 0)) [
  | inl even ↦ rw (even, bit_and-ones 1 e, (==_iff _ _).0 even, bit_xor-zero)
  | inr odd ↦ rw (odd, bit_and-ones 1 e, is_odd odd, bit_xor-ones 64 (e / 2) (omega arith))
]
  where
    is_odd : (e % 2 == 0) ≡ false → e % 2 ≡ 1
    is_odd odd = ground arith

pub zigzag-IsU64 : (v : ℕ) → IsU64 v → IsU64 (zigzag v)
zigzag-IsU64 v h = rw (zigzag_lem v h) (ground arith)

-- The zigzag decoding of the reader undoes that of the writer, on the pattern of every int64.
pub unzigzag-zigzag : (v : ℕ) → IsU64 v → unzigzag (zigzag v) ≡ v
unzigzag-zigzag v h = rw (unzigzag_lem (zigzag v) (zigzag-IsU64 v h), zigzag_lem v h) (ground arith)

-- A byte counted from bit `k` on does not reach past the number.
byte_fits : (k v : ℕ) → v / 2 ^ k % 256 * 2 ^ k ≤ v
byte_fits k v =
    omega (arith, div-add-mod v (2 ^ k), ap (λ (t : ℕ). t * 2 ^ k) (div-add-mod (v / 2 ^ k) 256))

-- One round of `little_value`: the bits below `k`, then those below `k + 8`.
add_byte :
    (k v : ℕ)
    → IsU64 v
    → bit_or (v % 2 ^ k) (bit_and (v / 2 ^ k) 0xff * 2 ^ k % 2 ^ 64)
      ≡ v % 2 ^ k + v / 2 ^ k % 256 * 2 ^ k
add_byte k v h =
    rw (bit_and-ones 8 (v / 2 ^ k), mod-eq_of_lt (le_trans (suc-le-suc (byte_fits k v)) h))
      (bit_or-low_high k (v / 2 ^ k % 256) (v % 2 ^ k) (mod-lt v (one-le-pow k 2 (omega arith))))

-- The eight bytes that the writer makes of a 64-bit pattern are read as that pattern.
pub little_value-little_bytes : (v : ℕ) → IsU64 v → little_value (little_bytes v) ≡ v
unfolding little_value little_bytes
little_value-little_bytes v h =
    rw
      (
        round 0 0 8 (omega arith) (omega arith),
        step 8 16 (omega arith),
        step 16 24 (omega arith),
        step 24 32 (omega arith),
        step 32 40 (omega arith),
        step 40 48 (omega arith),
        step 48 56 (omega arith),
        step 56 64 (omega arith),
      )
      (mod-eq_of_lt h)
  where
    round :
        (a k j : ℕ)
        → a ≡ v % 2 ^ k
        → v % 2 ^ k + v / 2 ^ k % 256 * 2 ^ k ≡ v % 2 ^ j
        → bit_or a (bit_and (v / 2 ^ k) 0xff * 2 ^ k % 2 ^ 64) ≡ v % 2 ^ j
    round a k j e f = rw e (add_byte k v h ∙ f)

    step :
        (k j : ℕ)
        → v % 2 ^ k + v / 2 ^ k % 256 * 2 ^ k ≡ v % 2 ^ j
        → bit_or (v % 2 ^ k) (bit_and (v / 2 ^ k) 0xff * 2 ^ k % 2 ^ 64) ≡ v % 2 ^ j
    step k j f = round (v % 2 ^ k) k j refl f

pub length-little_bytes : (v : ℕ) → length (little_bytes v) ≡ 8
unfolding little_bytes
length-little_bytes v = refl

-- A block of the input.
pub read_block-append :
    (bs rest : List ℕ) (p d : ℕ) (st : List Frame)
    → read_block (length bs) (at p (bs ++ rest) d st) ≡ ok (bs, at (p + length bs) rest d st)
read_block-append bs rest p d st =
    let e : ltb (length (bs ++ rest)) (length bs) ≡ false = ground (arith, length-append bs rest) in
    rw (e, take-append bs rest, drop-append bs rest)

pub take_length-leb128 :
    (m n p d : ℕ) (rest : List ℕ) (st : List Frame)
    → IsU64 n
    → n ≤ length rest / m
    → take_length m (at p (leb128 n ++ rest) d st) ≡ ok (n, at (p + length (leb128 n)) rest d st)
unfolding take_length
take_length-leb128 m n p d rest st h fits =
    let e : ltb (length rest / m) n ≡ false = ground arith in
    rw (take_varint-leb128 n p d rest st h, e)

pub take_text-append :
    (bs rest : List ℕ) (p d : ℕ) (st : List Frame)
    → IsU64 (length bs)
    → take_text (at p (leb128 (length bs) ++ (bs ++ rest)) d st)
      ≡ ok (bs, at (p + length (leb128 (length bs)) + length bs) rest d st)
unfolding take_text
take_text-append bs rest p d st h =
    rw
      (take_length-leb128 1 (length bs) p d (bs ++ rest) st h
        (omega (arith, length-append bs rest)))
      (read_block-append bs rest _ d st)
