-- ===== src/Binary/ScalarTrip.antt =====
-- Integers, characters and enumerators of include/reflgen/serial/detail/scalar.h, written and read in the
-- format of include/reflgen/binary.
use reflgen_cpp.Common.{
  ℕ, ◌+◌, ◌^◌, ◌<◌, ◌≤◌, ◌≡◌, sym, ap, ◌∙◌, true, List, [], ◌++◌, append-nil, length, arith,
  Bool-cases, inl, inr,
}
use mathlib.Core.Path.{subst}
use reflgen_cpp.Common.Outcome.{Outcome, ok}
use reflgen_cpp.Serial.Contract.{write_value}
use reflgen_cpp.Serial.Value.{Value, string, depth, IsSized}
use reflgen_cpp.Serial.Scalars.{
  IntegerType, boolean, signed_type, unsigned_type, CharacterType, write_integer, read_integer,
  write_character, read_character,
}
use reflgen_cpp.Serial.Scalars.Bounds.{
  limit, widen, widen-lt, integer_value, write_integer-value, read_integer-widen,
}
use reflgen_cpp.Serial.Scalars.Characters.{
  IsCharacter, character_text, write_character-value, read_character-text,
}
use reflgen_cpp.Serial.Enums.{EnumEntry, is_empty, enum_name, write_enum, read_enum}
use reflgen_cpp.Serial.Enums.Tables.{
  AreDistinct, Answers, enum_value, write_enum-value, read_enum-Answers,
}
use reflgen_cpp.Binary.Wire.{Tag}
use reflgen_cpp.Binary.Varint.{leb128}
use reflgen_cpp.Binary.Scalars.{peek_tag-tag_byte}
use reflgen_cpp.Binary.Writer.{Writer, writer, complete, zigzag}
use reflgen_cpp.Binary.Reader.{Casts, Frame, Reader, reader, at, peek}
use reflgen_cpp.Binary.Encoding.{encode, with_length, writer_calls, reader_calls}
use reflgen_cpp.Binary.Writing.{write_value-encode}
use reflgen_cpp.Binary.ReadCalls.{read_uint-encode, read_int-encode, read_string-encode}

module _ (casts : Casts) (p d : ℕ) (rest : List ℕ) (st : List Frame) where
  -- Before the bytes of a number or a string, and behind them.
  abbrev behind : Value → Reader
  behind v = at (p + length (encode v)) rest d st

  string-Answers :
      (s : List ℕ)
      → length s < 2 ^ 64
      → Answers
          (reader_calls casts)
          (at p (encode (string s) ++ rest) d st)
          (behind (string s))
          (string s)
  unfolding encode peek
  string-Answers s h = (
    rw (peek_tag-tag_byte p d (with_length s ++ rest) st Tag.string),
    read_string-encode p d rest st s h,
  )

  integer-Answers :
      (type : IntegerType) (v : ℕ)
      → v < limit type
      → Answers
          (reader_calls casts)
          (at p (encode (integer_value type v) ++ rest) d st)
          (behind (integer_value type v))
          (integer_value type v)
  unfolding encode peek
  integer-Answers boolean v h = (
    rw (peek_tag-tag_byte p d (leb128 v ++ rest) st Tag.unsigned_integer),
    read_uint-encode p d rest st v (omega arith),
  )
  integer-Answers (unsigned_type w) v h = (
    rw (peek_tag-tag_byte p d (leb128 v ++ rest) st Tag.unsigned_integer),
    read_uint-encode p d rest st v (widen-lt (unsigned_type w) v h),
  )
  integer-Answers (signed_type w) v h =
      let n : ℕ = widen (signed_type w) v in
      (
        rw (peek_tag-tag_byte p d (leb128 (zigzag n) ++ rest) st Tag.signed_integer),
        read_int-encode p d rest st n (widen-lt (signed_type w) v h),
      )

  integer_run :
      (type : IntegerType) (v : ℕ)
      → v < limit type
      → read_integer (reader_calls casts) type (at p (encode (integer_value type v) ++ rest) d st)
        ≡ ok (v, behind (integer_value type v))
  integer_run boolean v h = read_integer-widen _ boolean _ _ v h (integer-Answers boolean v h).1
  integer_run (signed_type w) v h =
      read_integer-widen _ (signed_type w) _ _ v h (integer-Answers (signed_type w) v h).1
  integer_run (unsigned_type w) v h =
      read_integer-widen _ (unsigned_type w) _ _ v h (integer-Answers (unsigned_type w) v h).1

  enum-Answers :
      (entries : List EnumEntry) (underlying : IntegerType) (v : ℕ)
      → v < limit underlying
      → length (enum_name entries v) < 2 ^ 64
      → let x = enum_value entries underlying v in
        Answers (reader_calls casts) (at p (encode x ++ rest) d st) (behind x) x
  enum-Answers entries underlying v h short = elim (Bool-cases (is_empty (enum_name entries v))) [
    | inl e ↦ rw e (integer-Answers underlying v h)
    | inr e ↦ rw e (string-Answers (enum_name entries v) short)
  ]

-- What is read before the whole of a document, and of a document that is written.
whole :
    {A : Type 0} (read : Reader → Outcome (A × Reader)) (v : Value) (a : A) (d : ℕ)
    → read (at 0 (encode v ++ []) d []) ≡ ok (a, at (0 + length (encode v)) [] d [])
    → read (reader (encode v) d) ≡ ok (a, at (length (encode v)) [] d [])
whole read v a d run =
    let start : 0 + length (encode v) ≡ length (encode v) = omega arith in
    subst (λ t. read (at 0 t d []) ≡ ok (a, at (length (encode v)) [] d [])) (append-nil (encode v))
      (run ∙ ap (λ n. ok (a, at n [] d [])) start)

-- A new writer's run, the document that it completes, and what a new reader reads from it.
abbrev pub Trip :
    {A : Type 0}
    → (Writer → Outcome (Unit {0} × Writer))
    → (Reader → Outcome (A × Reader))
    → ℕ
    → A
    → Type 0
Trip write read d a =
    (w : Writer) × (write (writer [] d) ≡ ok (tt, w))
    × (complete w ≡ true)
    × (read (reader w.output d) ≡ ok (a, at (length w.output) [] d []))

trip :
    {A : Type 0} (read : Reader → Outcome (A × Reader)) (v : Value) (a : A) (d : ℕ)
    → IsSized v
    → depth v ≤ d
    → read (reader (encode v) d) ≡ ok (a, at (length (encode v)) [] d [])
    → Trip (write_value writer_calls v) read d a
trip read v a d sized deep run =
    let (w, wrote, output, done) = write_value-encode v [] d sized deep in
    (w, wrote, done, rw output run)

IsSized-integer : (type : IntegerType) (v : ℕ) → v < limit type → IsSized (integer_value type v)
unfolding IsSized
IsSized-integer boolean v h = omega arith
IsSized-integer (signed_type w) v h = widen-lt (signed_type w) v h
IsSized-integer (unsigned_type w) v h = widen-lt (unsigned_type w) v h

depth-integer : (type : IntegerType) (v d : ℕ) → depth (integer_value type v) ≤ d
unfolding depth
depth-integer boolean v d = omega arith
depth-integer (signed_type w) v d = omega arith
depth-integer (unsigned_type w) v d = omega arith

-- Every value of an integer type of any width and sign, and of bool, that `write_integer` writes with a
-- new binary writer is read back from the document by `read_integer`, to its end.
pub read_integer-write_integer :
    (casts : Casts) (type : IntegerType) (v d : ℕ)
    → v < limit type
    → Trip (write_integer writer_calls type v) (read_integer (reader_calls casts) type) d v
read_integer-write_integer casts type v d h =
    let x = integer_value type v in
    let read = read_integer (reader_calls casts) type in
    subst (λ write. Trip write read d v) (sym (write_integer-value writer_calls type v))
      (trip read x v d (IsSized-integer type v h) (depth-integer type v d)
        (whole read x v d (integer_run casts 0 d [] [] type v h)))

length-character : (type : CharacterType) (c : ℕ) → length (character_text type c) < 2 ^ 64
length-character CharacterType.char_8 c = omega arith
length-character CharacterType.char_16 c = ground arith
length-character CharacterType.char_32 c = ground arith

-- Every character, a byte, a scalar value in one unit of 16 bits or a scalar value, that `write_character`
-- writes with a new binary writer is read back from the document by `read_character`, to its end.
pub read_character-write_character :
    (casts : Casts) (type : CharacterType) (c d : ℕ)
    → IsCharacter type c
    → Trip (write_character writer_calls type c) (read_character (reader_calls casts) type) d c
unfolding IsSized depth
read_character-write_character casts type c d h =
    let text = character_text type c in
    let x : Value = string text in
    let read = read_character (reader_calls casts) type in
    subst (λ write. Trip write read d c) (sym (write_character-value writer_calls type c h))
      (trip read x c d (length-character type c) (omega arith) (
        whole read x c d (
          read_character-text (reader_calls casts) type _ _ c h
            (string-Answers casts 0 d [] [] text (length-character type c)).1)))

enum-IsSized :
    (entries : List EnumEntry) (underlying : IntegerType) (v : ℕ)
    → v < limit underlying
    → length (enum_name entries v) < 2 ^ 64
    → IsSized (enum_value entries underlying v)
unfolding IsSized
enum-IsSized entries underlying v h short = elim (Bool-cases (is_empty (enum_name entries v))) [
  | inl e ↦ rw e (IsSized-integer underlying v h)
  | inr e ↦ rw e short
]

enum-depth :
    (entries : List EnumEntry) (underlying : IntegerType) (v d : ℕ)
    → depth (enum_value entries underlying v) ≤ d
unfolding depth
enum-depth entries underlying v d = elim (Bool-cases (is_empty (enum_name entries v))) [
  | inl e ↦ rw e (depth-integer underlying v d)
  | inr e ↦ rw e (omega arith)
]

-- Every value of an enumeration whose enumerators have names of their own, shorter than 2 ^ 64 bytes, that
-- `write_enum` writes with a new binary writer, by name or as an integer, is read back from the document
-- by `read_enum`, to its end.
pub read_enum-write_enum :
    (casts : Casts) (entries : List EnumEntry) (underlying : IntegerType) (v d : ℕ)
    → AreDistinct entries
    → v < limit underlying
    → length (enum_name entries v) < 2 ^ 64
    → Trip
        (write_enum entries underlying writer_calls v)
        (read_enum entries underlying (reader_calls casts))
        d
        v
read_enum-write_enum casts entries underlying v d distinct h short =
    let x = enum_value entries underlying v in
    let read = read_enum entries underlying (reader_calls casts) in
    subst (λ write. Trip write read d v) (sym (write_enum-value entries underlying writer_calls v))
      (trip read x v d (enum-IsSized entries underlying v h short)
        (enum-depth entries underlying v d)
        (whole read x v d (
          read_enum-Answers (reader_calls casts) entries underlying _ _ v distinct h
            (enum-Answers casts 0 d [] [] entries underlying v h short))))
