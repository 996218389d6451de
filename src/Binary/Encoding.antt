-- ===== src/Binary/Encoding.antt =====
-- The format that include/reflgen/binary/format.h describes, as a function of the value, and the two
-- backends of include/reflgen/binary as implementations of the interfaces.
use reflgen_cpp.Common.{ℕ, true, false, Option, some, List, [], ◌∷◌, ◌++◌, length}
use reflgen_cpp.Common.Outcome.{pure, ◌>>=◌}
use reflgen_cpp.Serial.Calls.{WriterCalls, ReaderCalls}
use reflgen_cpp.Serial.Value.{
  Value, Items, Fields, null, boolean, signed, unsigned, floating, string, bytes, array, object,
  no_items, item, no_fields, field, count_items, count_fields,
}
use reflgen_cpp.Binary.Wire.{Tag, tag_byte, little_bytes}
use reflgen_cpp.Binary.Varint.{leb128}
use reflgen_cpp.Binary.Writer
use reflgen_cpp.Binary.Reader

-- A length, then the bytes.
abbrev pub with_length : List ℕ → List ℕ
with_length s = leb128 (length s) ++ s

unfoldable mutual
  pub encode : Value → List ℕ
  encode null = tag_byte Tag.null ∷ []
  encode (boolean true) = tag_byte Tag.true_value ∷ []
  encode (boolean false) = tag_byte Tag.false_value ∷ []
  encode (signed n) = tag_byte Tag.signed_integer ∷ leb128 (Writer.zigzag n)
  encode (unsigned n) = tag_byte Tag.unsigned_integer ∷ leb128 n
  encode (floating n) = tag_byte Tag.floating ∷ little_bytes n
  encode (string s) = tag_byte Tag.string ∷ with_length s
  encode (bytes s) = tag_byte Tag.bytes ∷ with_length s
  encode (array xs) = tag_byte Tag.array ∷ (leb128 (count_items xs) ++ encode_items xs)
  encode (object fs) = tag_byte Tag.object ∷ (leb128 (count_fields fs) ++ encode_fields fs)

  pub encode_items : Items → List ℕ
  encode_items no_items = []
  encode_items (item x xs) = encode x ++ encode_items xs

  pub encode_fields : Fields → List ℕ
  encode_fields no_fields = []
  encode_fields (field k x fs) = with_length k ++ (encode x ++ encode_fields fs)

abbrev pub writer_calls : WriterCalls Writer.Writer
writer_calls = record {
  write_null = Writer.write_null;
  write_bool = Writer.write_bool;
  write_int = Writer.write_int;
  write_uint = Writer.write_uint;
  write_float = Writer.write_float;
  write_string = Writer.write_string;
  write_bytes = Writer.write_bytes;
  begin_array = Writer.begin_array;
  end_array = Writer.end_array;
  begin_object = Writer.begin_object;
  write_key = Writer.write_key;
  end_object = Writer.end_object;
}

-- A size that is known is an answer with a hint.
abbrev hint : Reader.Action ℕ → Reader.Action (Option ℕ)
hint m = do n ← m; pure (some n)

abbrev pub reader_calls : Reader.Casts → ReaderCalls Reader.Reader
reader_calls casts = record {
  peek = Reader.peek;
  read_null = Reader.read_null;
  read_bool = Reader.read_bool;
  read_int = Reader.read_int;
  read_uint = Reader.read_uint;
  read_float = Reader.read_float casts;
  read_string = Reader.read_string;
  read_bytes = Reader.read_bytes;
  begin_array = hint Reader.begin_array;
  next_element = Reader.next_element;
  end_array = Reader.end_array;
  begin_object = hint Reader.begin_object;
  next_key = Reader.next_key;
  end_object = Reader.end_object;
}
