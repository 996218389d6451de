-- ===== src/Binary/Reader.antt =====
-- include/reflgen/binary/reader.h: the input backend. `input_` and `position_` are held as the bytes
-- from `position_` on, `rest`, and the number of bytes before them; the code looks at nothing else.
-- A read outside the input is a `fault`. An int64_t is its 64-bit pattern, a double its IEEE pattern.
use reflgen_cpp.Common.{
  ℕ, zero, suc, ◌+◌, ◌-◌, ◌*◌, ◌/◌, ◌%◌, ◌^◌, bit_and, bit_or, bit_xor, Bool, true, false, not,
  ◌&&◌, List, [], ◌∷◌, ltb, leb, ◌==◌, if◌then◌else◌, length, take, drop, String, Option, none,
  some,
}
use reflgen_cpp.Common.Outcome.{
  Outcome, ok, err, fault, out_of_fuel, says, deeper_than, offset, bind, M, pure, ◌>>=◌, ◌>>◌,
}
use reflgen_cpp.Serial.Calls.{ValueKind}
use reflgen_cpp.Binary.Wire.{
  Tag, tag_byte, cast_tag, little_value, null, false_value, true_value, signed_integer,
  unsigned_integer, floating, string, bytes, array, object,
}

pub record Frame : Type 0 where
  pub is_object : Bool
  pub remaining : ℕ

pub record Reader : Type 0 where
  pub position : ℕ
  pub rest : List ℕ
  pub max_depth : ℕ
  pub stack : List Frame

abbrev pub default_max_depth : ℕ
default_max_depth = 512

-- The constructor.
abbrev pub reader : List ℕ → ℕ → Reader
reader input max_depth = record { position = 0; rest = input; max_depth = max_depth; stack = [] }

-- The reader before `rest`, with `position` bytes behind it.
abbrev pub at : ℕ → List ℕ → ℕ → List Frame → Reader
at position rest max_depth stack = record {
  position = position;
  rest = rest;
  max_depth = max_depth;
  stack = stack;
}

abbrev pub Action : Type 0 → Type 0
Action A = M Reader A

-- `fail_at` and `fail`, after a test.
abbrev pub fail_at {ℓ} : {A : Type ℓ} → ℕ → String → Outcome A
fail_at start message = err (record { message = says message; place = offset start })

abbrev pub fail : {A : Type 0} → String → Action A
fail message s = fail_at s.position message

abbrev pub fail_if : Bool → String → Action (Unit {0})
fail_if b message s = if b then fail_at s.position message else ok (tt, s)

abbrev pub fail_at_if : Bool → ℕ → String → Action (Unit {0})
fail_at_if b start message s = if b then fail_at start message else ok (tt, s)

abbrev pub position_now : Action ℕ
position_now s = ok (s.position, s)

-- `position_ += n`
abbrev pub advance : ℕ → Action (Unit {0})
advance n s = ok (tt, record s { position = s.position + n; rest = drop n s.rest })

-- `input_[position_]`
abbrev front : List ℕ → Outcome ℕ
front [] = fault
front (b ∷ _) = ok b

abbrev pub here : Action ℕ
here s = bind (front s.rest) λ b. ok (b, s)

-- The `size` bytes from `position_` on, and `position_ += size`.
abbrev pub read_block : ℕ → Action (List ℕ)
read_block size s =
    if ltb (length s.rest) size
    then fault
    else ok (take size s.rest, record s { position = s.position + size; rest = drop size s.rest })

abbrev pub require : ℕ → Action (Unit {0})
require count s = fail_if (ltb (length s.rest) count) "unexpected end of input" s

unfoldable pub peek_tag : Action Tag
peek_tag = do
  require 1
  value ← here
  fail_if (ltb (tag_byte object) value) "unknown tag"
  pure (cast_tag value)

unfoldable pub take_tag : Action Tag
take_tag = do value ← peek_tag; advance 1; pure value

-- `==` on tags.
abbrev pub tag_eq : Tag → Tag → Bool
tag_eq a b = tag_byte a == tag_byte b

unfoldable pub expect_tag : Tag → String → Action (Unit {0})
expect_tag expected message = do
  value ← peek_tag
  fail_if (not (tag_eq value expected)) message
  advance 1

-- The loop of `take_varint`, with the rounds that `shift < 64` leaves.
unfoldable pub take_varint_loop : ℕ → ℕ → ℕ → Action ℕ
take_varint_loop zero shift value = fail "varint overflows 64 bits"
take_varint_loop (suc rounds) shift value = do
  require 1
  byte ← here
  advance 1
  fail_if (shift == 63 && ltb 1 byte) "varint overflows 64 bits"
  let value' = bit_or value (bit_and byte 0x7f * 2 ^ shift % 2 ^ 64)
  let more = take_varint_loop rounds (shift + 7) value'
  if bit_and byte 0x80 == 0 then pure value' else more

-- `shift` takes the values 0, 7, ..., 63.
unfoldable pub take_varint : Action ℕ
take_varint = take_varint_loop 10 0 0

unfoldable pub take_length : ℕ → Action ℕ
take_length minimum_item_size = do
  start ← position_now
  length' ← take_varint
  λ s.
      fail_at_if (ltb (length s.rest / minimum_item_size) length') start
        "length exceeds the remaining input" s
  pure length'

unfoldable pub take_text : Action (List ℕ)
take_text = do size ← take_length 1; read_block size

-- `read_null`, `read_bool`.
unfoldable pub read_null : Action (Unit {0})
read_null = expect_tag null "expected null"

unfoldable pub read_bool : Action Bool
read_bool = do
  value ← take_tag
  if tag_eq value true_value
      then pure true
      else if tag_eq value false_value
      then pure false
      else λ s. fail_at (s.position - 1) "expected a boolean"

-- `static_cast<std::int64_t>(encoded >> 1) ^ -static_cast<std::int64_t>(encoded & 1)`
abbrev pub unzigzag : ℕ → ℕ
unzigzag encoded = bit_xor (encoded / 2) ((2 ^ 64 - bit_and encoded 1) % 2 ^ 64)

abbrev pub read_int_tagged : Tag → ℕ → Action ℕ
read_int_tagged signed_integer start = do encoded ← take_varint; pure (unzigzag encoded)
read_int_tagged unsigned_integer start = do
  encoded ← take_varint
  fail_at_if (ltb (2 ^ 63 - 1) encoded) start "integer out of range for int64"
  pure encoded
read_int_tagged _ start = λ s. fail_at start "expected an integer"

unfoldable pub read_int : Action ℕ
read_int = do start ← position_now; value ← take_tag; read_int_tagged value start

abbrev pub read_uint_tagged : Tag → ℕ → Action ℕ
read_uint_tagged unsigned_integer start = take_varint
read_uint_tagged signed_integer start = do
  encoded ← take_varint
  fail_at_if (leb (2 ^ 63) (unzigzag encoded)) start "expected a non-negative integer"
  pure (unzigzag encoded)
read_uint_tagged _ start = λ s. fail_at start "expected a non-negative integer"

unfoldable pub read_uint : Action ℕ
read_uint = do start ← position_now; value ← take_tag; read_uint_tagged value start

-- The two conversions of integers to double, which the compiler supplies.
pub record Casts : Type 0 where
  pub int64_to_double : ℕ → ℕ
  pub uint64_to_double : ℕ → ℕ

abbrev pub read_float_tagged : Casts → Tag → ℕ → Action ℕ
read_float_tagged casts signed_integer start = do
  value ← read_int
  pure (casts.int64_to_double value)
read_float_tagged casts unsigned_integer start = do
  value ← read_uint
  pure (casts.uint64_to_double value)
read_float_tagged casts floating start = do
  advance 1
  require 8
  bits ← read_block 8
  pure (little_value bits)
read_float_tagged casts _ start = λ s. fail_at start "expected a number"

unfoldable pub read_float : Casts → Action ℕ
read_float casts = do start ← position_now; value ← peek_tag; read_float_tagged casts value start

unfoldable pub read_string : Action (List ℕ)
read_string = do expect_tag string "expected a string"; take_text

unfoldable pub read_bytes : Action (List ℕ)
read_bytes = do expect_tag bytes "expected bytes"; size ← take_length 1; read_block size

unfoldable pub enter : Bool → ℕ → Action (Unit {0})
enter is_object count s =
    if leb s.max_depth (length s.stack)
    then err (record { message = deeper_than s.max_depth; place = offset s.position })
    else ok (tt, record s { stack = record { is_object = is_object; remaining = count } ∷ s.stack })

-- `consume_slot` and `leave`, with `stack_` taken apart; they are called on a stack that is not empty.
consume_slot_in : List Frame → Action Bool
consume_slot_in [] s = fault
consume_slot_in (top ∷ outer) s =
    if top.remaining == 0
    then ok (false, s)
    else ok (true, record s { stack = record top { remaining = top.remaining - 1 } ∷ outer })

unfoldable pub consume_slot : Action Bool
unfolding consume_slot_in
consume_slot s = consume_slot_in s.stack s

leave_in : List Frame → Action (Unit {0})
leave_in [] s = fault
leave_in (top ∷ outer) s =
    if not (top.remaining == 0)
    then fail_at s.position "container closed with unread elements"
    else ok (tt, record s { stack = outer })

unfoldable pub leave : Action (Unit {0})
unfolding leave_in
leave s = leave_in s.stack s

unfoldable pub begin_array : Action ℕ
begin_array = do
  expect_tag array "expected an array"
  count ← take_length 1
  enter false count
  pure count

unfoldable pub begin_object : Action ℕ
begin_object = do
  expect_tag object "expected an object"
  count ← take_length 2
  enter true count
  pure count

-- `stack_.empty() || stack_.back().is_object`, and with `!`.
abbrev pub not_in_array : List Frame → Bool
not_in_array [] = true
not_in_array (top ∷ _) = top.is_object

abbrev pub not_in_object : List Frame → Bool
not_in_object [] = true
not_in_object (top ∷ _) = not top.is_object

unfoldable pub next_element : Action Bool
next_element s =
    if not_in_array s.stack
    then fail_at s.position "next_element outside of an array"
    else consume_slot s

unfoldable pub end_array : Action (Unit {0})
end_array s =
    if not_in_array s.stack then fail_at s.position "end_array outside of an array" else leave s

abbrev next_key_taken : Bool → Action (Option (List ℕ))
next_key_taken false = pure none
next_key_taken true = do key ← take_text; pure (some key)

abbrev pub is_some : {A : Type 0} → Option A → Bool
is_some none = false
is_some (some _) = true

-- `none` is the answer false, `some key` the answer true with the key in the argument.
unfoldable pub next_key : Action (Option (List ℕ))
next_key = do
  λ s. fail_if (not_in_object s.stack) "next_key outside of an object" s
  more ← consume_slot
  next_key_taken more

unfoldable pub end_object : Action (Unit {0})
end_object s =
    if not_in_object s.stack then fail_at s.position "end_object outside of an object" else leave s

abbrev kind_of : Tag → ValueKind
kind_of null = ValueKind.null
kind_of false_value = ValueKind.boolean
kind_of true_value = ValueKind.boolean
kind_of signed_integer = ValueKind.integer
kind_of unsigned_integer = ValueKind.integer
kind_of floating = ValueKind.floating
kind_of string = ValueKind.string
kind_of bytes = ValueKind.bytes
kind_of array = ValueKind.array
kind_of object = ValueKind.object

unfoldable pub peek : Action ValueKind
peek = do value ← peek_tag; pure (kind_of value)

abbrev pub discard : {A : Type 0} → Action A → Action (Unit {0})
discard m = m >>= λ _. pure tt

-- The switch of `skip_value`, with its two loops.
unfoldable pub skip_kind :
    Casts → Action (Unit {0}) → Action (Unit {0}) → ValueKind → Action (Unit {0})
skip_kind casts elements entries ValueKind.null = read_null
skip_kind casts elements entries ValueKind.boolean = discard read_bool
skip_kind casts elements entries ValueKind.integer = discard (read_float casts)
skip_kind casts elements entries ValueKind.floating = discard (read_float casts)
skip_kind casts elements entries ValueKind.string = discard read_string
skip_kind casts elements entries ValueKind.bytes = do
  expect_tag bytes "expected bytes"
  size ← take_length 1
  advance size
skip_kind casts elements entries ValueKind.array = do begin_array; elements; end_array
skip_kind casts elements entries ValueKind.object = do begin_object; entries; end_object

-- The body of a loop: what `next_*` answered, the call of `skip_value`, and the rounds to come.
abbrev pub skip_round : Bool → Action (Unit {0}) → Action (Unit {0}) → Action (Unit {0})
skip_round true value more = do value; more
skip_round false value more = pure tt

-- Each call of `skip_value` and each round of a loop costs a unit of fuel.
unfoldable mutual
  pub skip_value : Casts → ℕ → Action (Unit {0})
  skip_value casts zero = λ s. out_of_fuel
  skip_value casts (suc fuel) = do
    kind ← peek
    skip_kind casts (skip_elements casts fuel) (skip_entries casts fuel) kind

  pub skip_elements : Casts → ℕ → Action (Unit {0})
  skip_elements casts zero = λ s. out_of_fuel
  skip_elements casts (suc fuel) = do
    more ← next_element
    skip_round more (skip_value casts fuel) (skip_elements casts fuel)

  pub skip_entries : Casts → ℕ → Action (Unit {0})
  skip_entries casts zero = λ s. out_of_fuel
  skip_entries casts (suc fuel) = do
    key ← next_key
    skip_round (is_some key) (skip_value casts fuel) (skip_entries casts fuel)

unfoldable pub finish : Action (Unit {0})
finish s = fail_if (ltb 0 (length s.rest)) "unexpected bytes after the root value" s
