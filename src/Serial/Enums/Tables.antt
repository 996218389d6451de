-- ===== src/Serial/Enums/Tables.antt =====
-- The tables of include/reflgen/core/enum.h, by name and by value.
use reflgen_cpp.Common.{
  ◌-◌, ◌+◌, ◌≤◌, ℕ, zero, suc, ◌+◌, ◌<◌, ◌≡◌, refl, sym, ap, ◌∙◌, true, false, not, List, [], ◌∷◌,
  ◌==◌, ==_iff, if◌then◌else◌, some, length, All, ltb, leb, bytes_eq, bytes_eq_refl, arith,
  Bool-cases, inl, inr,
}
use mathlib.Core.Path.{subst}
use reflgen_cpp.Common.Outcome.{ok}
use reflgen_cpp.Serial.Calls.{ValueKind, WriterCalls, ReaderCalls}
use reflgen_cpp.Serial.Contract.{write_value}
use reflgen_cpp.Serial.Value.{Value, string}
use reflgen_cpp.Serial.Scalars.{IntegerType}
use reflgen_cpp.Serial.Scalars.Bounds.{
  integer_value, write_integer-value, limit, read_integer-widen,
}
use reflgen_cpp.Serial.Enums.{
  EnumEntry, is_empty, scanned_values, count_named_values, collect_named_values, enum_name,
  next_pattern, enum_cast, write_enum, read_enum,
}

-- No two enumerators have one name.
abbrev pub AreDistinct : List EnumEntry → Type 0
AreDistinct [] = Unit {0}
AreDistinct (entry ∷ entries) =
    All (λ other. bytes_eq entry.name other.name ≡ false) entries × AreDistinct entries

enum_name-skip :
    (entry : EnumEntry) (entries : List EnumEntry) (value : ℕ)
    → (entry.value == value) ≡ false
    → enum_name (entry ∷ entries) value ≡ enum_name entries value
unfolding enum_name
enum_name-skip entry entries value other = rw other

name_differs :
    (name : List ℕ) (entries : List EnumEntry) (value : ℕ)
    → All (λ other. bytes_eq name other.name ≡ false) entries
    → is_empty (enum_name entries value) ≡ false
    → bytes_eq name (enum_name entries value) ≡ false
unfolding enum_name
name_differs name [] value h e = cc
name_differs name (entry ∷ entries) value (h, hs) e = elim (Bool-cases (entry.value == value)) [
  | inl same ↦ rw same h
  | inr other ↦
      let skip = enum_name-skip entry entries value other in
      rw other (name_differs name entries value hs (sym (ap is_empty skip) ∙ e))
]

enum_cast-enum_name :
    (entries : List EnumEntry) (value : ℕ)
    → AreDistinct entries
    → is_empty (enum_name entries value) ≡ false
    → enum_cast entries (enum_name entries value) ≡ some value
unfolding enum_name enum_cast
enum_cast-enum_name [] value h e = cc
enum_cast-enum_name (entry ∷ entries) value (h, hs) e = elim (Bool-cases (entry.value == value)) [
  | inl same ↦ rw (same, bytes_eq_refl entry.name) (ap some ((==_iff entry.value value).0 same))
  | inr other ↦
      let found : is_empty (enum_name entries value) ≡ false =
        sym (ap is_empty (enum_name-skip entry entries value other)) ∙ e in
      rw (other, name_differs entry.name entries value h found)
        (enum_cast-enum_name entries value hs found)
]

-- The value of the data model that an enumerator is written as: its name, or the underlying integer.
abbrev pub enum_value : List EnumEntry → IntegerType → ℕ → Value
enum_value entries underlying value =
    if not (is_empty (enum_name entries value))
    then string (enum_name entries value)
    else integer_value underlying value

pub write_enum-value :
    {S : Type 0} (entries : List EnumEntry) (underlying : IntegerType) (out : WriterCalls S)
    (value : ℕ)
    → write_enum entries underlying out value
      ≡ write_value out (enum_value entries underlying value)
write_enum-value entries underlying out value =
    elim (Bool-cases (is_empty (enum_name entries value))) [
      | inl e ↦ unfold write_enum in rw e (write_integer-value out underlying value)
      | inr e ↦ unfold write_enum write_value in rw e
    ]

-- What the calls of a format answer where a value that an enumeration may be written as comes next.
abbrev pub Answers : {S : Type 0} → ReaderCalls S → S → S → Value → Type 0
Answers in' s t (Value.string text) =
    (in'.peek s ≡ ok (ValueKind.string, s)) × (in'.read_string s ≡ ok (text, t))
Answers in' s t (Value.signed n) =
    (in'.peek s ≡ ok (ValueKind.integer, s)) × (in'.read_int s ≡ ok (n, t))
Answers in' s t (Value.unsigned n) =
    (in'.peek s ≡ ok (ValueKind.integer, s)) × (in'.read_uint s ≡ ok (n, t))
Answers in' s t _ = ⊥

integer_answer :
    {S : Type 0} (in' : ReaderCalls S) (entries : List EnumEntry) (underlying : IntegerType)
    (s t : S) (value : ℕ)
    → value < limit underlying
    → Answers in' s t (integer_value underlying value)
    → read_enum entries underlying in' s ≡ ok (value, t)
unfolding read_enum
integer_answer in' entries IntegerType.boolean s t value h (kind, run) =
    rw kind (read_integer-widen in' IntegerType.boolean s t value h run)
integer_answer in' entries (IntegerType.signed_type w) s t value h (kind, run) =
    rw kind (read_integer-widen in' (IntegerType.signed_type w) s t value h run)
integer_answer in' entries (IntegerType.unsigned_type w) s t value h (kind, run) =
    rw kind (read_integer-widen in' (IntegerType.unsigned_type w) s t value h run)

enum_value-unnamed :
    (entries : List EnumEntry) (underlying : IntegerType) (value : ℕ)
    → is_empty (enum_name entries value) ≡ true
    → enum_value entries underlying value ≡ integer_value underlying value
enum_value-unnamed entries underlying value e = rw e

enum_value-named :
    (entries : List EnumEntry) (underlying : IntegerType) (value : ℕ)
    → is_empty (enum_name entries value) ≡ false
    → enum_value entries underlying value ≡ string (enum_name entries value)
enum_value-named entries underlying value e = rw e

string_answer :
    {S : Type 0} (in' : ReaderCalls S) (entries : List EnumEntry) (underlying : IntegerType)
    (s t : S) (value : ℕ)
    → AreDistinct entries
    → is_empty (enum_name entries value) ≡ false
    → Answers in' s t (string (enum_name entries value))
    → read_enum entries underlying in' s ≡ ok (value, t)
unfolding read_enum
string_answer in' entries underlying s t value distinct e (kind, run) =
    rw (kind, run, enum_cast-enum_name entries value distinct e)

-- In any format: where the calls answer the string or the integer that `write_enum` wrote for a value,
-- `read_enum` returns the value, if no two enumerators of the table have one name. So it does for a value
-- without a name, and for one whose name another value of the table comes after.
pub read_enum-Answers :
    {S : Type 0} (in' : ReaderCalls S) (entries : List EnumEntry) (underlying : IntegerType)
    (s t : S) (value : ℕ)
    → AreDistinct entries
    → value < limit underlying
    → Answers in' s t (enum_value entries underlying value)
    → read_enum entries underlying in' s ≡ ok (value, t)
read_enum-Answers in' entries underlying s t value distinct h answer =
    elim (Bool-cases (is_empty (enum_name entries value))) [
      | inl e ↦
          integer_answer in' entries underlying s t value h
            (subst (Answers in' s t) (enum_value-unnamed entries underlying value e) answer)
      | inr e ↦
          string_answer in' entries underlying s t value distinct e
            (subst (Answers in' s t) (enum_value-named entries underlying value e) answer)
    ]

empty→ : (text : List ℕ) → is_empty text ≡ true → text ≡ []
empty→ [] h = refl
empty→ (c ∷ cs) h = cc

-- How many candidates a value is behind the first one.
abbrev pub behind : ℕ → ℕ → ℕ → ℕ
behind patterns min value = if leb min value then value - min else value + patterns - min

-- What a scan of a range has for a value.
abbrev pub scanned_name : ℕ → (ℕ → List ℕ) → ℕ → ℕ → ℕ → List ℕ
scanned_name patterns spelled min width value =
    if ltb (behind patterns min value) width then spelled value else []

module _ (patterns : ℕ) (spelled : ℕ → List ℕ) (value : ℕ) (fits : value < patterns) where
  scan_step :
      (min width : ℕ)
      → min < patterns
      → scanned_name patterns spelled min (suc width) value ≡ (
          if min == value
          then spelled min
          else scanned_name patterns spelled (next_pattern patterns min) width value)
  scan_step min width h = elim (Bool-cases (min == value)) [
    | inl e ↦
        let same : min ≡ value = (==_iff min value).0 e in
        let inside : ltb (behind patterns min value) (suc width) ≡ true = ground arith in
        rw (e, inside) (ap spelled (sym same))
    | inr e ↦
        let inside : ltb (behind patterns min value) (suc width)
            ≡ ltb (behind patterns (next_pattern patterns min) value) width =
          ground arith in
        rw (e, inside)
  ]

  enum_name-collect :
      (min width : ℕ)
      → min < patterns
      → width ≤ patterns
      → enum_name (collect_named_values (scanned_values patterns spelled min width)) value
        ≡ scanned_name patterns spelled min width value
  unfolding enum_name collect_named_values scanned_values
  enum_name-collect min zero h k = ground arith
  enum_name-collect min (suc width) h k =
      let next : ℕ = next_pattern patterns min in
      let later = enum_name-collect next width (ground arith) (omega arith) in
      rw (scan_step min width h) (elim (Bool-cases (is_empty (spelled min))) [
        | inl e ↦
            rw (e, later)
              (elim (Bool-cases (min == value)) [
                | inl same ↦
                    let outside : ltb (behind patterns next value) width ≡ false = ground arith in
                    rw (same, outside) (sym (empty→ (spelled min) e))
                | inr other ↦ rw other
              ])
        | inr e ↦ rw (e, later)
      ])

length-collect :
    (entries : List EnumEntry) → length (collect_named_values entries) ≡ count_named_values entries
unfolding collect_named_values count_named_values
length-collect [] = refl
length-collect (entry ∷ entries) = ground (arith, length-collect entries)

-- The table that a scan collects, from a first candidate on, signed or unsigned, and over no more
-- candidates than there are patterns: a value that is one of the candidates has the name that the
-- compiler spells for it, any other value has none, and the table has as many entries as its array was
-- made for.
pub collect_named_values_lem :
    (patterns : ℕ) (spelled : ℕ → List ℕ) (min width value : ℕ)
    → value < patterns
    → min < patterns
    → width ≤ patterns
    → let table = collect_named_values (scanned_values patterns spelled min width) in
      (enum_name table value ≡ scanned_name patterns spelled min width value)
      × (length table ≡ count_named_values (scanned_values patterns spelled min width))
collect_named_values_lem patterns spelled min width value fits h k = (
  enum_name-collect patterns spelled value fits min width h k,
  length-collect (scanned_values patterns spelled min width),
)
