-- ===== src/Binary/Writer.antt =====
-- include/reflgen/binary/writer.h: the output backend. `output_` is the bytes written so far, the top
-- of `stack_` is the head of the list. An int64_t is its 64-bit pattern, a double its IEEE pattern.
use reflgen_cpp.Common.{
  ℕ, ◌-◌, ◌*◌, ◌/◌, ◌%◌, ◌^◌, ◌≤◌, ◌<◌, bit_and, bit_or, bit_xor, Bool, true, false, not, ◌&&◌,
  ◌||◌, List, [], ◌∷◌, ◌++◌, ltb, leb, ◌==◌, if◌then◌else◌, length, arith,
}
use reflgen_cpp.Common.Order.{lt_wf}
use reflgen_cpp.Common.Outcome.{Outcome, ok, err, deeper_than, nowhere, throw, M, ◌>>◌}
use reflgen_cpp.Binary.Wire.{
  Tag, tag_byte, little_bytes, null, false_value, true_value, signed_integer, unsigned_integer,
  floating, string, bytes, array, object,
}
use mathlib.Core.Logic.{dite}
use mathlib.Core.WellFounded.{Acc}
use native.Mathlib.Decide.{dec_le}

pub record Frame : Type 0 where
  pub is_object : Bool
  pub remaining : ℕ
  pub awaiting_value : Bool

pub record Writer : Type 0 where
  pub output : List ℕ
  pub max_depth : ℕ
  pub stack : List Frame
  pub root_started : Bool

abbrev pub default_max_depth : ℕ
default_max_depth = 512

abbrev pub Action : Type 0
Action = M Writer (Unit {0})

-- The constructor.
abbrev pub writer : List ℕ → ℕ → Writer
writer output max_depth = record {
  output = output;
  max_depth = max_depth;
  stack = [];
  root_started = false;
}

-- `output_.insert(output_.end(), ...)`, and `push_back` of one byte.
abbrev pub append : List ℕ → Action
append bs w = ok (tt, record w { output = w.output ++ bs })

abbrev pub put_tag : Tag → Action
put_tag value = append (tag_byte value ∷ [])

seven_bits_less : (v : ℕ) → 0x80 ≤ v → v / 128 < v
seven_bits_less v h = omega arith

-- `while (value >= 0x80)`, on the bytes written so far.
unfoldable pub varint_loop : List ℕ → (value : ℕ) → Acc ◌<◌ value → List ℕ
unfolding dec_le seven_bits_less
varint_loop out value (Acc.intro _ smaller) =
    dite (dec_le 0x80 value)
      (λ more.
        varint_loop (out ++ (bit_or (bit_and value 0x7f) 0x80 % 256) ∷ []) (value / 2 ^ 7)
          (smaller _ (seven_bits_less value more)))
      (λ _. out ++ (value % 256) ∷ [])

unfoldable pub put_varint : ℕ → Action
unfolding varint_loop lt_wf
put_varint value w = ok (tt, record w { output = varint_loop w.output value (lt_wf.apply value) })

unfoldable pub put_text : List ℕ → Action
put_text text = do put_varint (length text); append text

unfoldable pub check_depth : Action
check_depth w =
    if leb w.max_depth (length w.stack)
    then err (record { message = deeper_than w.max_depth; place = nowhere })
    else ok (tt, w)

-- `begin_value`, with `stack_` taken apart.
begin_value_in : List Frame → Action
begin_value_in [] w =
    if w.root_started
    then throw "binary writer: a document holds exactly one root value"
    else ok (tt, record w { root_started = true })
begin_value_in (top ∷ outer) w =
    if top.is_object
    then if not top.awaiting_value
      then throw "binary writer: write_key must precede each value inside an object"
      else ok (tt, record w { stack = record top { awaiting_value = false } ∷ outer })
    else if top.remaining == 0
    then throw "binary writer: more elements than declared in begin_array"
    else ok (tt, record w { stack = record top { remaining = top.remaining - 1 } ∷ outer })

unfoldable pub begin_value : Action
unfolding begin_value_in
begin_value w = begin_value_in w.stack w

-- `close`, with `stack_` taken apart. It is called on a stack that is not empty.
close_in : List Frame → Action
close_in [] w = Outcome.fault
close_in (top ∷ outer) w =
    if not (top.remaining == 0)
    then throw "binary writer: fewer elements than declared"
    else ok (tt, record w { stack = outer })

unfoldable pub close : Action
unfolding close_in
close w = close_in w.stack w

unfoldable pub write_null : Action
write_null = do begin_value; put_tag null

unfoldable pub write_bool : Bool → Action
write_bool value = do begin_value; put_tag (if value then true_value else false_value)

-- `value >> 63` on an int64_t: all ones for a negative number.
abbrev pub sign_mask : ℕ → ℕ
sign_mask value = if ltb value (2 ^ 63) then 0 else 2 ^ 64 - 1

abbrev pub zigzag : ℕ → ℕ
zigzag value = bit_xor (value * 2 % 2 ^ 64) (sign_mask value)

unfoldable pub write_int : ℕ → Action
write_int value = do begin_value; put_tag signed_integer; put_varint (zigzag value)

unfoldable pub write_uint : ℕ → Action
write_uint value = do begin_value; put_tag unsigned_integer; put_varint value

unfoldable pub write_float : ℕ → Action
write_float value = do begin_value; put_tag floating; append (little_bytes value)

unfoldable pub write_string : List ℕ → Action
write_string value = do begin_value; put_tag string; put_text value

unfoldable pub write_bytes : List ℕ → Action
write_bytes value = do begin_value; put_tag bytes; put_varint (length value); append value

abbrev pub push : Frame → Action
push f w = ok (tt, record w { stack = f ∷ w.stack })

unfoldable pub begin_array : ℕ → Action
begin_array size = do
  check_depth
  begin_value
  put_tag array
  put_varint size
  push (record { is_object = false; remaining = size; awaiting_value = false })

unfoldable pub begin_object : ℕ → Action
begin_object size = do
  check_depth
  begin_value
  put_tag object
  put_varint size
  push (record { is_object = true; remaining = size; awaiting_value = false })

-- `stack_.empty() || stack_.back().is_object`
abbrev pub not_in_array : List Frame → Bool
not_in_array [] = true
not_in_array (top ∷ _) = top.is_object

-- `stack_.empty() || !stack_.back().is_object || stack_.back().awaiting_value`
abbrev pub not_at_key : List Frame → Bool
not_at_key [] = true
not_at_key (top ∷ _) = not top.is_object || top.awaiting_value

unfoldable pub end_array : Action
end_array w =
    if not_in_array w.stack
    then throw "binary writer: end_array without a matching begin_array"
    else close w

unfoldable pub end_object : Action
end_object w =
    if not_at_key w.stack
    then throw "binary writer: end_object without a matching begin_object"
    else close w

-- The part of `write_key` behind its first check, with `stack_` taken apart.
write_key_in : List Frame → List ℕ → Action
write_key_in [] key w = Outcome.fault
write_key_in (top ∷ outer) key w =
    if top.remaining == 0
    then throw "binary writer: more keys than declared in begin_object"
    else put_text key (record w {
      stack = record top { remaining = top.remaining - 1; awaiting_value = true } ∷ outer;
    })

unfoldable pub write_key : List ℕ → Action
unfolding write_key_in
write_key key w =
    if not_at_key w.stack
    then throw "binary writer: write_key is only valid inside an object, before a value"
    else write_key_in w.stack key w

-- `root_started_ && stack_.empty()`
abbrev pub is_empty : List Frame → Bool
is_empty [] = true
is_empty (_ ∷ _) = false

abbrev pub complete : Writer → Bool
complete w = w.root_started && is_empty w.stack
