-- ===== src/Serial/Scalars.antt =====
-- include/reflgen/serial/detail/scalar.h: integers and characters, over the calls of any format. A value
-- of an integer or a character type is its bit pattern, of the width of the type.
pub mod Bounds
pub mod Characters
use reflgen_cpp.Common.{
  ℕ, ◌+◌, ◌-◌, ◌^◌, ◌%◌, Bool, true, false, not, ◌||◌, List, [], ◌∷◌, ltb, ◌==◌, if◌then◌else◌,
  length, Option, none, some,
}
use reflgen_cpp.Common.Outcome.{
  Outcome, ok, err, bind, Message, says, out_of_range, string_of_length, nowhere, M, pure, ◌>>=◌,
}
use reflgen_cpp.Serial.Calls.{WriterCalls, ReaderCalls}
use reflgen_cpp.Serial.Utf.{append_utf8, from_utf8, units_16, units_32}

pub data Width : Type 0 where
  w8 w16 w32 w64 : Width

abbrev pub bits : Width → ℕ
bits w8 = 8
bits w16 = 16
bits w32 = 32
bits w64 = 64

pub data IntegerType : Type 0 where
  boolean : IntegerType
  signed_type : Width → IntegerType
  unsigned_type : Width → IntegerType

-- `static_cast<std::int64_t>` of a signed pattern.
unfoldable pub sign_extend : Width → ℕ → ℕ
sign_extend w value = if ltb value (2 ^ (bits w - 1)) then value else value + (2 ^ 64 - 2 ^ bits w)

-- `<` on two int64_t patterns.
abbrev pub int64_lt : ℕ → ℕ → Bool
int64_lt a b = ltb ((a + 2 ^ 63) % 2 ^ 64) ((b + 2 ^ 63) % 2 ^ 64)

-- `numeric_limits<T>::min` and `max` of a signed type as int64_t patterns, and `max` of an unsigned type.
abbrev pub signed_min : Width → ℕ
signed_min w = 2 ^ 64 - 2 ^ (bits w - 1)

abbrev pub signed_max : Width → ℕ
signed_max w = 2 ^ (bits w - 1) - 1

abbrev pub unsigned_max : Width → ℕ
unsigned_max w = 2 ^ bits w - 1

-- `throw_out_of_range`, after a test; the name of the type is not part of the message here.
abbrev pub range_check : {S : Type 0} → Bool → ℕ → ℕ → S → Outcome (ℕ × S)
range_check outside value result s =
    if outside
    then err (record { message = out_of_range value; place = nowhere })
    else ok (result, s)

module _ {S : Type 0} where
  unfoldable pub write_integer : WriterCalls S → IntegerType → ℕ → M S (Unit {0})
  write_integer out boolean value = out.write_uint value
  write_integer out (signed_type w) value = out.write_int (sign_extend w value)
  write_integer out (unsigned_type w) value = out.write_uint value

  unfoldable pub read_integer : ReaderCalls S → IntegerType → M S ℕ
  read_integer in' boolean = do
    value ← in'.read_uint
    range_check (ltb 1 value) value (if value == 0 then 0 else 1)
  read_integer in' (signed_type w) = do
    value ← in'.read_int
    range_check (int64_lt value (signed_min w) || int64_lt (signed_max w) value) value
        (value % 2 ^ bits w)
  read_integer in' (unsigned_type w) = do
    value ← in'.read_uint
    range_check (ltb (unsigned_max w) value) value (value % 2 ^ bits w)

-- `char`, `char16_t` and `char32_t`; `wchar_t` is one of the two wider ones.
pub data CharacterType : Type 0 where
  char_8 char_16 char_32 : CharacterType

module _ {S : Type 0} where
  -- A run of a function that has no state.
  abbrev pub lift : {A : Type 0} → Outcome A → M S A
  lift m s = bind m λ a. ok (a, s)

  unfoldable pub write_character : WriterCalls S → CharacterType → ℕ → M S (Unit {0})
  write_character out char_8 value = out.write_string (value ∷ [])
  write_character out char_16 value = do text ← lift (append_utf8 [] value); out.write_string text
  write_character out char_32 value = do text ← lift (append_utf8 [] value); out.write_string text

  -- `front()` of one unit.
  abbrev pub single : Message → List ℕ → M S ℕ
  single message (c ∷ []) = pure c
  single message _ = λ s. err (record { message = message; place = nowhere })

  unfoldable pub read_character : ReaderCalls S → CharacterType → M S ℕ
  read_character in' char_8 = do
    text ← in'.read_string
    single (string_of_length (length text)) text
  read_character in' char_16 = do
    text ← in'.read_string
    units ← lift (from_utf8 units_16 text)
    single (says "expected a single character representable in ") units
  read_character in' char_32 = do
    text ← in'.read_string
    units ← lift (from_utf8 units_32 text)
    single (says "expected a single character representable in ") units
