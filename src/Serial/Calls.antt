-- ===== src/Serial/Calls.antt =====
-- include/reflgen/serial/writer.h and include/reflgen/serial/reader.h: the classes `writer` and `reader`
-- as the record of the calls that a value of Serial.Value is written and read with, for an implementation
-- with state `S`. The calls for a float, `prefer_inline` and `skip_value` are not among them: such a value
-- goes through without them. Strings and byte sequences are lists of bytes, an int64_t and a double are
-- their 64-bit patterns.
use reflgen_cpp.Common.{ℕ, Bool, Option, List}
use reflgen_cpp.Common.Outcome.{M}

-- `enum class value_kind`.
pub data ValueKind : Type 0 where
  null boolean integer floating string bytes array object : ValueKind

-- `class writer`.
pub record WriterCalls (S : Type 0) : Type 0 where
  pub write_null : M S (Unit {0})
  pub write_bool : Bool → M S (Unit {0})
  pub write_int : ℕ → M S (Unit {0})
  pub write_uint : ℕ → M S (Unit {0})
  pub write_float : ℕ → M S (Unit {0})
  pub write_string : List ℕ → M S (Unit {0})
  pub write_bytes : List ℕ → M S (Unit {0})
  pub begin_array : ℕ → M S (Unit {0})
  pub end_array : M S (Unit {0})
  pub begin_object : ℕ → M S (Unit {0})
  pub write_key : List ℕ → M S (Unit {0})
  pub end_object : M S (Unit {0})

-- `class reader`. The size that `begin_*` answers is a hint. `next_key` answers `none` for false, and
-- `some key` for true with the key in its argument.
pub record ReaderCalls (S : Type 0) : Type 0 where
  pub peek : M S ValueKind
  pub read_null : M S (Unit {0})
  pub read_bool : M S Bool
  pub read_int : M S ℕ
  pub read_uint : M S ℕ
  pub read_float : M S ℕ
  pub read_string : M S (List ℕ)
  pub read_bytes : M S (List ℕ)
  pub begin_array : M S (Option ℕ)
  pub next_element : M S Bool
  pub end_array : M S (Unit {0})
  pub begin_object : M S (Option ℕ)
  pub next_key : M S (Option (List ℕ))
  pub end_object : M S (Unit {0})
