-- ===== src/Serial/Enums.antt =====
-- The table of include/reflgen/core/enum.h, and the enumerations of include/reflgen/serial/detail/scalar.h.
-- A value is the bit pattern of the underlying type. What the compiler spells for a value is an argument,
-- empty where it has no name for it.
pub mod Tables
use reflgen_cpp.Common.{
  ℕ, zero, suc, ◌+◌, ◌-◌, ◌^◌, Bool, true, false, not, List, [], ◌∷◌, ◌==◌, ltb, leb, if◌then◌else◌,
  Option, none, some, bytes_eq,
}
use reflgen_cpp.Common.Outcome.{err, unknown_enumerator, nowhere, M, pure, ◌>>=◌}
use reflgen_cpp.Serial.Calls.{ValueKind, WriterCalls, ReaderCalls}
use reflgen_cpp.Serial.Scalars.{IntegerType, write_integer, read_integer}

pub record EnumEntry : Type 0 where
  pub name : List ℕ
  pub value : ℕ

abbrev pub is_empty : List ℕ → Bool
is_empty [] = true
is_empty (_ ∷ _) = false

-- `static_cast<underlying>` of the candidate behind one, where the underlying type has `patterns` patterns.
abbrev pub next_pattern : ℕ → ℕ → ℕ
next_pattern patterns value = if value + 1 == patterns then 0 else value + 1

-- `scanned_values`, of `width` candidates from the pattern of `Min` on.
unfoldable pub scanned_values : ℕ → (ℕ → List ℕ) → ℕ → ℕ → List EnumEntry
scanned_values patterns spelled min zero = []
scanned_values patterns spelled min (suc width) =
    record { name = spelled min; value = min }
    ∷ scanned_values patterns spelled (next_pattern patterns min) width

unfoldable pub count_named_values : List EnumEntry → ℕ
count_named_values [] = 0
count_named_values (entry ∷ entries) =
    (if is_empty entry.name then 0 else 1) + count_named_values entries

unfoldable pub collect_named_values : List EnumEntry → List EnumEntry
collect_named_values [] = []
collect_named_values (entry ∷ entries) =
    if is_empty entry.name
    then collect_named_values entries
    else entry ∷ collect_named_values entries

-- The empty text is the answer for a value without a name.
unfoldable pub enum_name : List EnumEntry → ℕ → List ℕ
enum_name [] value = []
enum_name (entry ∷ entries) value =
    if entry.value == value then entry.name else enum_name entries value

unfoldable pub enum_cast : List EnumEntry → List ℕ → Option ℕ
enum_cast [] name = none
enum_cast (entry ∷ entries) name =
    if bytes_eq entry.name name then some entry.value else enum_cast entries name

-- `if (const auto value = enum_cast<E>(name)) return *value; throw ...`
abbrev or_unknown : {S : Type 0} → List ℕ → Option ℕ → M S ℕ
or_unknown name (some value) = pure value
or_unknown name none = λ s. err (record { message = unknown_enumerator name; place = nowhere })

module _ {S : Type 0} (entries : List EnumEntry) (underlying : IntegerType) where
  unfoldable pub write_enum : WriterCalls S → ℕ → M S (Unit {0})
  write_enum out value =
      let name : List ℕ = enum_name entries value in
      if not (is_empty name) then out.write_string name else write_integer out underlying value

  abbrev pub read_enum_of : ReaderCalls S → ValueKind → M S ℕ
  read_enum_of in' ValueKind.string = do
    name ← in'.read_string
    or_unknown name (enum_cast entries name)
  read_enum_of in' _ = read_integer in' underlying

  unfoldable pub read_enum : ReaderCalls S → M S ℕ
  read_enum in' = do kind ← in'.peek; read_enum_of in' kind
