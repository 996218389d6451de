-- ===== src/Json/Writer.antt =====
-- include/reflgen/json/writer.h: the output backend. `output_` is the bytes written so far, the top of
-- `stack_` is the head of the list. An int64_t is its 64-bit pattern; what the standard library does
-- with doubles and floats is a parameter.
use reflgen_cpp.Common.{
  ℕ, ◌+◌, ◌-◌, ◌*◌, ◌/◌, ◌^◌, bit_and, Bool, true, false, not, ◌&&◌, ◌||◌, List, [], ◌∷◌, ◌++◌, ltb,
  leb, ◌==◌, if◌then◌else◌, length, replicate,
}
use reflgen_cpp.Common.Outcome.{ok, err, fault, deeper_than, nowhere, throw, bind, M, ◌>>◌}
use reflgen_cpp.Serial.Utf.{validate_utf8}
use reflgen_cpp.Json.Base64.{codes, base64_encode}
use reflgen_cpp.Json.Decimal.{to_chars_int, to_chars_uint}

pub record Frame : Type 0 where
  pub is_object : Bool
  pub has_items : Bool
  pub awaiting_value : Bool
  pub is_inline : Bool

pub record Writer : Type 0 where
  pub output : List ℕ
  pub indent : ℕ
  pub max_depth : ℕ
  pub stack : List Frame
  pub root_started : Bool
  pub inline_next : Bool

abbrev pub default_max_depth : ℕ
default_max_depth = 512

abbrev pub Action : Type 0
Action = M Writer (Unit {0})

-- The constructor.
abbrev pub writer : List ℕ → ℕ → ℕ → Writer
writer output indent max_depth = record {
  output = output;
  indent = indent;
  max_depth = max_depth;
  stack = [];
  root_started = false;
  inline_next = false;
}

-- `output_ += ...`
abbrev pub append : List ℕ → Action
append bs w = ok (tt, record w { output = w.output ++ bs })

unfoldable pub newline : ℕ → Action
newline depth w =
    if w.indent == 0 then ok (tt, w) else append (b'\n' ∷ replicate (depth * w.indent) b' ') w

-- `separate(top)`.
unfoldable pub separate : Frame → Action
unfolding newline
separate top = do
  λ w. if top.has_items then append (b',' ∷ []) w else ok (tt, w)
  λ w. if top.has_items && top.is_inline && ltb 0 w.indent then append (b' ' ∷ []) w else ok (tt, w)
  λ w. if top.is_inline then ok (tt, w) else newline (length w.stack) w

unfoldable pub check_depth : Action
check_depth w =
    if leb w.max_depth (length w.stack)
    then err (record { message = deeper_than w.max_depth; place = nowhere })
    else ok (tt, w)

abbrev set_top : Frame → List Frame → Action
set_top top outer w = ok (tt, record w { stack = top ∷ outer })

-- `begin_value`, with `stack_` taken apart.
begin_value_in : List Frame → Action
unfolding separate
begin_value_in [] w =
    if w.root_started
    then throw "json writer: a document holds exactly one root value"
    else ok (tt, record w { root_started = true })
begin_value_in (top ∷ outer) w =
    if top.is_object
    then if not top.awaiting_value
      then throw "json writer: write_key must precede each value inside an object"
      else set_top (record top { awaiting_value = false }) outer w
    else (separate top >> set_top (record top { has_items = true }) outer) w

unfoldable pub begin_value : Action
unfolding begin_value_in
begin_value w = begin_value_in w.stack w

-- `close`, with `stack_` taken apart. It is called on a stack that is not empty.
close_in : List Frame → ℕ → Action
unfolding newline
close_in [] bracket = λ w. fault
close_in (top ∷ outer) bracket = do
  λ w. ok (tt, record w { stack = outer })
  λ w. if top.has_items && not top.is_inline then newline (length w.stack) w else ok (tt, w)
  append (bracket ∷ [])

unfoldable pub close : ℕ → Action
unfolding close_in
close bracket w = close_in w.stack bracket w

abbrev pub top_is_inline : List Frame → Bool
top_is_inline [] = false
top_is_inline (top ∷ _) = top.is_inline

unfoldable pub push_frame : Bool → Action
push_frame is_object w =
    let frame : Frame = record {
      is_object = is_object;
      has_items = false;
      awaiting_value = false;
      is_inline = w.inline_next || top_is_inline w.stack;
    } in
    ok (tt, record w { stack = frame ∷ w.stack; inline_next = false })

-- `hex[i]`, of an index below 16.
abbrev pub hex : ℕ → ℕ
hex i = if ltb i 10 then b'0' + i else b'a' + (i - 10)

-- The switch of `append_quoted` on one character.
abbrev pub quoted_char : ℕ → List ℕ
quoted_char c =
    if c == b'"'
    then codes "\\\""
    else if c == b'\\'
    then codes "\\\\"
    else if c == 8
    then codes "\\b"
    else if c == 12
    then codes "\\f"
    else if c == b'\n'
    then codes "\\n"
    else if c == b'\r'
    then codes "\\r"
    else if c == b'\t'
    then codes "\\t"
    else if ltb c 0x20
    then codes "\\u00" ++ hex (bit_and (c / 2 ^ 4) 0x0F) ∷ hex (bit_and c 0x0F) ∷ []
    else c ∷ []

unfoldable pub quoted_chars : List ℕ → List ℕ
quoted_chars [] = []
quoted_chars (c ∷ cs) = quoted_char c ++ quoted_chars cs

unfoldable pub append_quoted : List ℕ → Action
unfolding quoted_chars
append_quoted text w =
    bind (validate_utf8 text) λ _. append (b'"' ∷ (quoted_chars text ++ b'"' ∷ [])) w

unfoldable pub write_null : Action
write_null = do begin_value; append (codes "null")

unfoldable pub write_bool : Bool → Action
write_bool value = do begin_value; append (if value then codes "true" else codes "false")

unfoldable pub write_int : ℕ → Action
write_int value = do begin_value; append (to_chars_int value)

unfoldable pub write_uint : ℕ → Action
write_uint value = do begin_value; append (to_chars_uint value)

-- `std::isfinite` and `std::to_chars` on a floating-point type, which the standard library supplies.
pub record Floating : Type 0 where
  pub is_finite : ℕ → Bool
  pub to_chars : ℕ → List ℕ

-- `find_first_of(".eE") != npos`
unfoldable pub has_fraction : List ℕ → Bool
has_fraction [] = false
has_fraction (c ∷ cs) = c == b'.' || c == b'e' || c == b'E' || has_fraction cs

-- `write_float` and `write_float32`, each with its own type.
unfoldable pub append_floating : Floating → ℕ → Action
append_floating type value w =
    if not (type.is_finite value)
    then throw "json: NaN and infinity have no JSON representation"
    else (begin_value
          >> (append (type.to_chars value)
              >> append (if has_fraction (type.to_chars value) then [] else codes ".0")))
        w

unfoldable pub prefer_inline : Action
prefer_inline w = ok (tt, record w { inline_next = true })

unfoldable pub write_string : List ℕ → Action
write_string value = do begin_value; append_quoted value

unfoldable pub write_bytes : List ℕ → Action
write_bytes value = do begin_value; append (b'"' ∷ (base64_encode value ++ b'"' ∷ []))

unfoldable pub begin_array : ℕ → Action
begin_array _ = do check_depth; begin_value; append (b'[' ∷ []); push_frame false

unfoldable pub begin_object : ℕ → Action
begin_object _ = do check_depth; begin_value; append (b'{' ∷ []); push_frame true

-- `stack_.empty() || stack_.back().is_object`
abbrev pub not_in_array : List Frame → Bool
not_in_array [] = true
not_in_array (top ∷ _) = top.is_object

-- `stack_.empty() || !stack_.back().is_object || stack_.back().awaiting_value`
abbrev pub not_at_key : List Frame → Bool
not_at_key [] = true
not_at_key (top ∷ _) = not top.is_object || top.awaiting_value

unfoldable pub end_array : Action
end_array w =
    if not_in_array w.stack
    then throw "json writer: end_array without a matching begin_array"
    else close b']' w

unfoldable pub end_object : Action
end_object w =
    if not_at_key w.stack
    then throw "json writer: end_object without a matching begin_object"
    else close b'}' w

-- The part of `write_key` behind its check, with `stack_` taken apart.
write_key_in : List Frame → List ℕ → Action
write_key_in [] key = λ w. fault
write_key_in (top ∷ outer) key = do
  separate top
  append_quoted key
  λ w. append (if ltb 0 w.indent then codes ": " else codes ":") w
  set_top (record top { has_items = true; awaiting_value = true }) outer

unfoldable pub write_key : List ℕ → Action
unfolding write_key_in
write_key key w =
    if not_at_key w.stack
    then throw "json writer: write_key is only valid inside an object, before a value"
    else write_key_in w.stack key w

abbrev pub is_empty : List Frame → Bool
is_empty [] = true
is_empty (_ ∷ _) = false

abbrev pub complete : Writer → Bool
complete w = w.root_started && is_empty w.stack
