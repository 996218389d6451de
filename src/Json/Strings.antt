-- ===== src/Json/Strings.antt =====
-- include/reflgen/json/reader.h: `read_hex4`, `append_escape`, `parse_string`.
use reflgen_cpp.Common.{
  ℕ, zero, suc, ◌+◌, ◌-◌, ◌*◌, ◌%◌, ◌^◌, bit_or, Bool, true, not, ◌&&◌, ◌||◌, List, [], ◌∷◌, ◌++◌,
  Option, none, some, ltb, leb, ◌==◌, if◌then◌else◌, length, take,
}
use reflgen_cpp.Common.Outcome.{Outcome, ok, err, fault, out_of_fuel, says, bind, pure, ◌>>=◌, ◌>>◌}
use reflgen_cpp.Serial.Utf.{append_utf8, decode_utf8}
use reflgen_cpp.Json.Input.{Action, fail_at, fail, fail_if, current, skip}

-- The value of a hexadecimal digit.
unfoldable pub hex_value : ℕ → Option ℕ
hex_value c =
    if leb b'0' c && leb c b'9'
    then some (c - b'0')
    else if leb b'a' c && leb c b'f'
    then some (c - b'a' + 10)
    else if leb b'A' c && leb c b'F'
    then some (c - b'A' + 10)
    else none

abbrev pub add_hex : ℕ → Option ℕ → Action ℕ
add_hex value none = fail "invalid \\u escape"
add_hex value (some d) = do skip 1; pure (bit_or (value * 2 ^ 4 % 2 ^ 32) d)

-- The loop of `read_hex4`.
unfoldable pub read_hex : ℕ → ℕ → Action ℕ
unfolding hex_value
read_hex zero value = pure value
read_hex (suc n) value = do value' ← λ s. add_hex value (hex_value (current s)) s; read_hex n value'

unfoldable pub read_hex4 : Action ℕ
read_hex4 = read_hex 4 0

-- `current() != '\\' || position_ + 1 >= input_.size() || input_[position_ + 1] != 'u'`
abbrev pub no_second_escape : List ℕ → Bool
no_second_escape (c ∷ d ∷ _) = not (c == b'\\') || not (d == b'u')
no_second_escape _ = true

-- The code point of a pair, once `low` is read.
abbrev pub join_pair : ℕ → ℕ → Action ℕ
join_pair code_point low =
    fail_if (ltb low 0xDC00 || ltb 0xDFFF low) "unpaired UTF-16 surrogate in \\u escape"
    >> pure (0x10000 + (code_point - 0xD800) * 2 ^ 10 + (low - 0xDC00))

abbrev pub expect_escape : Action (Unit {0})
expect_escape s = fail_if (no_second_escape s.rest) "unpaired UTF-16 surrogate in \\u escape" s

abbrev pub low_surrogate : ℕ → Action ℕ
low_surrogate code_point =
    expect_escape >> (skip 2 >> (read_hex4 >>= λ low. join_pair code_point low))

-- The tests on the first four digits of `case 'u'`.
abbrev pub pair_up : ℕ → Action ℕ
pair_up code_point =
    if leb 0xD800 code_point && leb code_point 0xDBFF
    then low_surrogate code_point
    else if leb 0xDC00 code_point && leb code_point 0xDFFF
    then fail "unpaired UTF-16 surrogate in \\u escape"
    else pure code_point

abbrev pub append_code_point : List ℕ → ℕ → Action (List ℕ)
append_code_point result code_point s = bind (append_utf8 result code_point) λ out. ok (out, s)

-- `case 'u'`.
unfoldable pub append_unicode : List ℕ → Action (List ℕ)
append_unicode result = read_hex4 >>= λ first. pair_up first >>= append_code_point result

-- The switch of `append_escape`; `c` is the character behind the backslash, which is passed.
abbrev pub escape_of : List ℕ → ℕ → Action (List ℕ)
escape_of result c =
    if c == b'"'
    then pure (result ++ b'"' ∷ [])
    else if c == b'\\'
    then pure (result ++ b'\\' ∷ [])
    else if c == b'/'
    then pure (result ++ b'/' ∷ [])
    else if c == b'b'
    then pure (result ++ 8 ∷ [])
    else if c == b'f'
    then pure (result ++ 12 ∷ [])
    else if c == b'n'
    then pure (result ++ b'\n' ∷ [])
    else if c == b'r'
    then pure (result ++ b'\r' ∷ [])
    else if c == b't'
    then pure (result ++ b'\t' ∷ [])
    else if c == b'u'
    then append_unicode result
    else fail "invalid escape sequence"

unfoldable pub append_escape : List ℕ → Action (List ℕ)
append_escape result s = (skip 1 >> escape_of result (current s)) s

-- A serialization_error that is caught and thrown again with a position.
abbrev pub rethrow_at : {A : Type 0} → List ℕ → Outcome A → Outcome A
rethrow_at before (ok a) = ok a
rethrow_at before (err e) = fail_at before e.message
rethrow_at before fault = fault
rethrow_at before out_of_fuel = out_of_fuel

-- One character that is not ASCII, checked and taken over.
unfoldable pub take_sequence : List ℕ → Action (List ℕ)
take_sequence result s = bind (rethrow_at s.before (decode_utf8 s.rest)) λ (_, after).
    let n = length s.rest - length after in
    bind (skip n s) λ (_, t). ok (result ++ take n s.rest, t)

-- The body of the loop of `parse_string`: `none` for the closing quote, or the characters so far.
abbrev pub parse_char : List ℕ → List ℕ → List ℕ → Action (Option (List ℕ))
parse_char start result [] = λ s. fail_at start (says "unterminated string")
parse_char start result (c ∷ _) =
    if c == b'"'
    then (skip 1 >> pure none)
    else if ltb c 0x20
    then fail "control character in string"
    else if c == b'\\'
    then (skip 1 >> (append_escape result >>= λ out. pure (some out)))
    else if ltb c 0x80
    then (skip 1 >> pure (some (result ++ c ∷ [])))
    else (take_sequence result >>= λ out. pure (some out))

-- What follows a character: `again` is the loop.
abbrev pub parse_on : List ℕ → (List ℕ → Action (List ℕ)) → Option (List ℕ) → Action (List ℕ)
parse_on result again none = pure result
parse_on result again (some out) = again out

unfoldable pub parse_loop : ℕ → List ℕ → List ℕ → Action (List ℕ)
parse_loop zero start result = λ s. out_of_fuel
parse_loop (suc fuel) start result = do
  next ← λ s. parse_char start result s.rest s
  parse_on result (parse_loop fuel start) next

-- Each round takes a byte at least. `position_` is at the opening quote.
unfoldable pub parse_string : Action (List ℕ)
parse_string s = (skip 1 >> parse_loop (length s.rest + 1) s.before []) s
