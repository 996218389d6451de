-- ===== src/Json/Encoding.antt =====
-- The text that include/reflgen/json/writer.h writes, as a function of the value, and the two backends
-- of include/reflgen/json as implementations of the interfaces.
use reflgen_cpp.Common.{
  ℕ, suc, ◌*◌, ◌^◌, ◌<◌, ◌≡◌, Bool, true, false, Option, none, List, [], ◌∷◌, ◌++◌, replicate, All,
  ltb, ◌==◌, if◌then◌else◌,
}
use reflgen_cpp.Common.Outcome.{pure, ◌>>◌}
use reflgen_cpp.Serial.Calls.{WriterCalls, ReaderCalls}
use reflgen_cpp.Serial.Value.{
  Value, Items, Fields, null, boolean, signed, unsigned, floating, string, bytes, array, object,
  no_items, item, no_fields, field,
}
use reflgen_cpp.Serial.Utf.Encoding.{IsScalar, utf8}
use reflgen_cpp.Serial.Utf.Strings.{flat}
use reflgen_cpp.Json.Base64.{codes, base64_encode}
use reflgen_cpp.Json.Decimal.{to_chars_int, to_chars_uint}
use reflgen_cpp.Json.Quoting.{quoted}
use reflgen_cpp.Json.Writer
use reflgen_cpp.Json.Writer.{Floating, has_fraction}
use reflgen_cpp.Json.Reader
use reflgen_cpp.Json.Reader.{Floats}
use reflgen_cpp.Json.Input

-- A line of its own at a depth, unless the text is compact.
abbrev pub line : ℕ → ℕ → List ℕ
line indent depth = if indent == 0 then [] else b'\n' ∷ replicate (depth * indent) b' '

abbrev pub comma_text : Bool → List ℕ
comma_text true = b',' ∷ []
comma_text false = []

abbrev pub colon_text : ℕ → List ℕ
colon_text indent = if ltb 0 indent then codes ": " else codes ":"

-- The line of the closing bracket, which a container with nothing in it does not have.
abbrev pub last_line : ℕ → ℕ → Bool → List ℕ
last_line indent depth true = line indent depth
last_line indent depth false = []

abbrev pub has_items : Items → Bool
has_items no_items = false
has_items (item x xs) = true

abbrev pub has_fields : Fields → Bool
has_fields no_fields = false
has_fields (field k x fs) = true

abbrev pub floating_text : Floating → ℕ → List ℕ
floating_text type n =
    type.to_chars n ++ (if has_fraction (type.to_chars n) then [] else codes ".0")

module _ (type : Floating) (indent : ℕ) where
  unfoldable mutual
    pub render : ℕ → Value → List ℕ
    render depth null = codes "null"
    render depth (boolean b) = if b then codes "true" else codes "false"
    render depth (signed n) = to_chars_int n
    render depth (unsigned n) = to_chars_uint n
    render depth (floating n) = floating_text type n
    render depth (string s) = quoted s
    render depth (bytes s) = b'"' ∷ (base64_encode s ++ b'"' ∷ [])
    render depth (array xs) =
        b'['
        ∷ (render_items (suc depth) false xs
            ++ (last_line indent depth (has_items xs) ++ b']' ∷ []))
    render depth (object fs) =
        b'{'
        ∷ (render_fields (suc depth) false fs
            ++ (last_line indent depth (has_fields fs) ++ b'}' ∷ []))

    pub render_items : ℕ → Bool → Items → List ℕ
    render_items depth behind no_items = []
    render_items depth behind (item x xs) =
        comma_text behind ++ (line indent depth ++ (render depth x ++ render_items depth true xs))

    pub render_fields : ℕ → Bool → Fields → List ℕ
    render_fields depth behind no_fields = []
    render_fields depth behind (field k x fs) =
        comma_text behind
        ++ (line indent depth
            ++ (quoted k ++ (colon_text indent ++ (render depth x ++ render_fields depth true fs))))

-- Well-formed UTF-8.
abbrev pub IsText : List ℕ → Type 0
IsText s = (cs : List ℕ) × All IsScalar cs × (s ≡ flat utf8 cs)

-- What JSON can hold: no NaN, no infinity, and no string or key that is not UTF-8.
module _ (type : Floating) where
  unfoldable mutual
    pub IsJson : Value → Type 0
    IsJson null = Unit {0}
    IsJson (boolean b) = Unit {0}
    IsJson (signed n) = n < 2 ^ 64
    IsJson (unsigned n) = n < 2 ^ 64
    IsJson (floating n) = type.is_finite n ≡ true
    IsJson (string s) = IsText s
    IsJson (bytes s) = All (λ b. b < 256) s
    IsJson (array xs) = AreItemsJson xs
    IsJson (object fs) = AreFieldsJson fs

    pub AreItemsJson : Items → Type 0
    AreItemsJson no_items = Unit {0}
    AreItemsJson (item x xs) = IsJson x × AreItemsJson xs

    pub AreFieldsJson : Fields → Type 0
    AreFieldsJson no_fields = Unit {0}
    AreFieldsJson (field k x fs) = IsText k × IsJson x × AreFieldsJson fs

abbrev pub writer_calls : Floating → WriterCalls Writer.Writer
writer_calls type = record {
  write_null = Writer.write_null;
  write_bool = Writer.write_bool;
  write_int = Writer.write_int;
  write_uint = Writer.write_uint;
  write_float = Writer.append_floating type;
  write_string = Writer.write_string;
  write_bytes = Writer.write_bytes;
  begin_array = Writer.begin_array;
  end_array = Writer.end_array;
  begin_object = Writer.begin_object;
  write_key = Writer.write_key;
  end_object = Writer.end_object;
}

-- No hint, where a size is not known.
abbrev no_hint : Input.Action (Unit {0}) → Input.Action (Option ℕ)
no_hint m = m >> pure none

abbrev pub reader_calls : Floats → ReaderCalls Input.Reader
reader_calls floats = record {
  peek = Reader.peek;
  read_null = Reader.read_null;
  read_bool = Reader.read_bool;
  read_int = Reader.read_int;
  read_uint = Reader.read_uint;
  read_float = Reader.read_float floats;
  read_string = Reader.read_string;
  read_bytes = Reader.read_bytes;
  begin_array = no_hint Reader.begin_array;
  next_element = Reader.next_element;
  end_array = Reader.end_array;
  begin_object = no_hint Reader.begin_object;
  next_key = Reader.next_key;
  end_object = Reader.end_object;
}
