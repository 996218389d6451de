-- ===== src/Json/Reader.antt =====
-- include/reflgen/json/reader.h: the calls of the input backend.
use reflgen_cpp.Common.{
  ℕ, zero, suc, Bool, true, false, not, ◌||◌, List, [], ◌∷◌, ◌==◌, if◌then◌else◌, Option, none,
  some, String,
}
use reflgen_cpp.Common.Outcome.{
  ok, fault, out_of_fuel, says, comma_or, throw, bind, pure, ◌>>=◌, ◌>>◌,
}
use reflgen_cpp.Serial.Calls.{ValueKind}
use reflgen_cpp.Json.Base64.{codes, base64_decode}
use reflgen_cpp.Json.Decimal.{from_chars_uint, from_chars_int}
use reflgen_cpp.Json.Input.{
  Frame, Reader, Action, is_nil, fail_at, failure, fail, fail_if, current, skip, skip_whitespace,
  expect_literal, enter,
}
use reflgen_cpp.Json.Numbers.{is_digit, is_integer_token, scan_number}
use reflgen_cpp.Json.Strings.{rethrow_at, parse_string}

-- `std::from_chars` of a whole token into a float and into a double, `none` where it reports an error,
-- and the tests and the conversion of `reader::read_float32` in include/reflgen/serial/reader.h.
pub record Floats : Type 0 where
  pub parse_float : List ℕ → Option ℕ
  pub parse_double : List ℕ → Option ℕ
  pub fits_float : ℕ → Bool
  pub to_float : ℕ → ℕ

-- `fail_at(start, message)`, after a test.
abbrev pub fail_from : List ℕ → Bool → String → Action (Unit {0})
fail_from start b message s = if b then fail_at start (says message) else ok (tt, s)

abbrev or_fail : {A : Type 0} → List ℕ → String → Option A → Action A
or_fail start message none = λ s. fail_at start (says message)
or_fail start message (some a) = pure a

-- `position_` as the bytes before it.
abbrev pub position_now : Action (List ℕ)
position_now s = ok (s.before, s)

-- `fail(message)` if the character at `position_` is not `c`.
unfoldable pub expect_char : ℕ → String → Action (Unit {0})
expect_char c message s = fail_if (not (current s == c)) message s

-- The token at `position_`, which stays.
abbrev pub look_ahead : Action (List ℕ)
look_ahead s = bind (scan_number s) λ (token, _). ok (token, s)

-- The switch of `peek`.
unfoldable pub peek_at : List ℕ → Action ValueKind
peek_at [] = fail "expected a value"
peek_at (c ∷ _) =
    if c == b'n'
    then pure ValueKind.null
    else if c == b't' || c == b'f'
    then pure ValueKind.boolean
    else if c == b'"'
    then pure ValueKind.string
    else if c == b'['
    then pure ValueKind.array
    else if c == b'{'
    then pure ValueKind.object
    else if c == b'-' || is_digit c
    then (look_ahead >>= λ token.
        pure (if is_integer_token token then ValueKind.integer else ValueKind.floating))
    else fail "unexpected character"

unfoldable pub peek : Action ValueKind
peek = do skip_whitespace; λ s. peek_at s.rest s

unfoldable pub read_null : Action (Unit {0})
read_null = do skip_whitespace; expect_literal (codes "null") "expected 'null'"

abbrev pub read_bool_here : Action Bool
read_bool_here s =
    if current s == b't'
    then (expect_literal (codes "true") "expected 'true'" >> pure true) s
    else if current s == b'f'
    then (expect_literal (codes "false") "expected 'false'" >> pure false) s
    else fail "expected a boolean" s

unfoldable pub read_bool : Action Bool
read_bool = do skip_whitespace; read_bool_here

unfoldable pub read_int : Action ℕ
read_int = do
  skip_whitespace
  start ← position_now
  token ← scan_number
  fail_from start (not (is_integer_token token)) "expected an integer"
  or_fail start "integer out of range for int64" (from_chars_int token)

-- `token.front() == '-'`
abbrev pub is_negative : List ℕ → Bool
is_negative [] = false
is_negative (c ∷ _) = c == b'-'

unfoldable pub read_uint : Action ℕ
read_uint = do
  skip_whitespace
  start ← position_now
  token ← scan_number
  fail_from start (not (is_integer_token token) || is_negative token)
      "expected a non-negative integer"
  or_fail start "integer out of range for uint64" (from_chars_uint token)

unfoldable pub read_float : Floats → Action ℕ
read_float floats = do
  skip_whitespace
  start ← position_now
  token ← scan_number
  or_fail start "number out of range for double" (floats.parse_double token)

-- `reader::read_float32`; the text of its error also shows the value.
abbrev narrow : Floats → ℕ → Action ℕ
narrow floats value s =
    if floats.fits_float value
    then ok (floats.to_float value, s)
    else throw "value is out of range for float"

-- `position_ = start` and the wider call, where the token is no float.
abbrev float_or_wider : Floats → Reader → Option ℕ → Action ℕ
float_or_wider floats start (some value) = pure value
float_or_wider floats start none = λ s. (read_float floats >>= narrow floats) start

unfoldable pub read_float32 : Floats → Action ℕ
read_float32 floats = do
  skip_whitespace
  start ← λ s. ok (s, s)
  token ← scan_number
  float_or_wider floats start (floats.parse_float token)

unfoldable pub read_string : Action (List ℕ)
read_string = do skip_whitespace; expect_char b'"' "expected a string"; parse_string

unfoldable pub read_bytes : Action (List ℕ)
read_bytes = do
  skip_whitespace
  start ← position_now
  text ← read_string
  λ s. bind (rethrow_at start (base64_decode text)) λ data'. ok (data', s)

-- What the two `begin_*` do; the hint that they return is `nullopt`.
unfoldable pub begin_in : Bool → ℕ → String → Action (Unit {0})
begin_in is_object opening message = do
  skip_whitespace
  expect_char opening message
  enter is_object
  skip 1

unfoldable pub begin_array : Action (Unit {0})
begin_array = begin_in false b'[' "expected an array"

unfoldable pub begin_object : Action (Unit {0})
begin_object = begin_in true b'{' "expected an object"

-- `stack_.empty() || stack_.back().is_object`, and with `!`.
abbrev pub not_in_array : List Frame → Bool
not_in_array [] = true
not_in_array (top ∷ _) = top.is_object

abbrev pub not_in_object : List Frame → Bool
not_in_object [] = true
not_in_object (top ∷ _) = not top.is_object

-- `advance` behind an item.
abbrev pub advance_comma : ℕ → Action Bool
advance_comma closing s =
    if current s == closing
    then ok (false, s)
    else if not (current s == b',')
    then failure (comma_or closing) s
    else (do
      skip 1
      skip_whitespace
      λ t. fail_if (current t == closing) "trailing comma" t
      pure true)
        s

-- `advance`, with `stack_` taken apart; it is called on a stack that is not empty.
unfoldable pub advance_in : ℕ → List Frame → Action Bool
advance_in closing [] s = fault
advance_in closing (top ∷ outer) s =
    if top.first
    then ok (not (current s == closing), record s { stack = record top { first = false } ∷ outer })
    else advance_comma closing s

unfoldable pub advance : ℕ → Action Bool
advance closing = do skip_whitespace; λ s. advance_in closing s.stack s

unfoldable pub next_element : Action Bool
next_element = do
  λ s. fail_if (not_in_array s.stack) "next_element outside of an array" s
  advance b']'

abbrev pub next_key_after : Bool → Action (Option (List ℕ))
next_key_after false = pure none
next_key_after true = do
  expect_char b'"' "expected a string key"
  key ← parse_string
  skip_whitespace
  expect_char b':' "expected ':'"
  skip 1
  pure (some key)

-- `none` is the answer false, `some key` the answer true with the key in the argument.
unfoldable pub next_key : Action (Option (List ℕ))
next_key = do
  λ s. fail_if (not_in_object s.stack) "next_key outside of an object" s
  more ← advance b'}'
  next_key_after more

-- `stack_.pop_back()`, on a stack that is not empty.
abbrev pub pop_back : List Frame → Action (Unit {0})
pop_back [] s = fault
pop_back (_ ∷ outer) s = ok (tt, record s { stack = outer })

unfoldable pub end_in : ℕ → String → Action (Unit {0})
end_in closing message = do
  skip_whitespace
  expect_char closing message
  skip 1
  λ s. pop_back s.stack s

unfoldable pub end_array : Action (Unit {0})
end_array = do
  λ s. fail_if (not_in_array s.stack) "end_array outside of an array" s
  end_in b']' "expected ']'"

unfoldable pub end_object : Action (Unit {0})
end_object = do
  λ s. fail_if (not_in_object s.stack) "end_object outside of an object" s
  end_in b'}' "expected '}'"

abbrev pub discard : {A : Type 0} → Action A → Action (Unit {0})
discard m = m >>= λ _. pure tt

-- The switch of `skip_value`, with its two loops.
unfoldable pub skip_kind : Action (Unit {0}) → Action (Unit {0}) → ValueKind → Action (Unit {0})
skip_kind elements entries ValueKind.null = read_null
skip_kind elements entries ValueKind.boolean = discard read_bool
skip_kind elements entries ValueKind.integer = discard scan_number
skip_kind elements entries ValueKind.floating = discard scan_number
skip_kind elements entries ValueKind.string = discard parse_string
skip_kind elements entries ValueKind.bytes = discard parse_string
skip_kind elements entries ValueKind.array = do begin_array; elements; end_array
skip_kind elements entries ValueKind.object = do begin_object; entries; end_object

-- The body of a loop: what `next_*` answered, the call of `skip_value`, and the rounds to come.
abbrev pub skip_round : Bool → Action (Unit {0}) → Action (Unit {0}) → Action (Unit {0})
skip_round true value more = do value; more
skip_round false value more = pure tt

abbrev pub is_some : {A : Type 0} → Option A → Bool
is_some none = false
is_some (some _) = true

-- Each call of `skip_value` and each round of a loop costs a unit of fuel.
unfoldable mutual
  pub skip_value : ℕ → Action (Unit {0})
  skip_value zero = λ s. out_of_fuel
  skip_value (suc fuel) = do kind ← peek; skip_kind (skip_elements fuel) (skip_entries fuel) kind

  pub skip_elements : ℕ → Action (Unit {0})
  skip_elements zero = λ s. out_of_fuel
  skip_elements (suc fuel) = do
    more ← next_element
    skip_round more (skip_value fuel) (skip_elements fuel)

  pub skip_entries : ℕ → Action (Unit {0})
  skip_entries zero = λ s. out_of_fuel
  skip_entries (suc fuel) = do
    key ← next_key
    skip_round (is_some key) (skip_value fuel) (skip_entries fuel)

unfoldable pub finish : Action (Unit {0})
finish = do
  skip_whitespace
  λ s. fail_if (not (is_nil s.rest)) "unexpected characters after the root value" s
