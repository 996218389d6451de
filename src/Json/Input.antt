-- ===== src/Json/Input.antt =====
-- include/reflgen/json/reader.h: the state of the input backend and its helpers. `input_` and
-- `position_` are held as the bytes before `position_`, latest first, and those from it on. An offset
-- for an error is the list of the bytes before it. At the end of the input `++position_` changes nothing
-- here; in the code it only ever comes before a failure that is reported at the end of the input.
use reflgen_cpp.Common.{
  ℕ, zero, suc, ◌+◌, Bool, true, false, not, ◌||◌, List, [], ◌∷◌, leb, ◌==◌, if◌then◌else◌, length,
  take, String, bytes_eq,
}
use reflgen_cpp.Common.Outcome.{
  Outcome, ok, err, Message, says, deeper_than, end_of_input, line_column, M,
}

pub record Frame : Type 0 where
  pub is_object : Bool
  pub first : Bool

pub record Reader : Type 0 where
  pub before : List ℕ
  pub rest : List ℕ
  pub max_depth : ℕ
  pub stack : List Frame

abbrev pub Action : Type 0 → Type 0
Action A = M Reader A

abbrev pub default_max_depth : ℕ
default_max_depth = 512

-- The reader between `before` and `rest`, and the constructor.
abbrev pub at : List ℕ → List ℕ → ℕ → List Frame → Reader
at before rest max_depth stack = record {
  before = before;
  rest = rest;
  max_depth = max_depth;
  stack = stack;
}

abbrev pub reader : List ℕ → ℕ → Reader
reader input max_depth = at [] input max_depth []

-- The loop of `fail_at`, up to an offset.
abbrev pub count_lines : List ℕ → ℕ × ℕ
count_lines [] = (1, 1)
count_lines (b ∷ earlier) =
    let (line, column) = count_lines earlier in
    if b == b'\n' then (line + 1, 1) else (line, column + 1)

unfoldable pub fail_at {ℓ} : {A : Type ℓ} → List ℕ → Message → Outcome A
fail_at before message =
    let (line, column) = count_lines before in
    err (record { message = message; place = line_column line column })

abbrev pub is_nil : List ℕ → Bool
is_nil [] = true
is_nil (_ ∷ _) = false

-- `fail(message)`
unfoldable pub failure : {A : Type 0} → Message → Action A
failure message s = fail_at s.before (if is_nil s.rest then end_of_input message else message)

abbrev pub fail : {A : Type 0} → String → Action A
fail message = failure (says message)

abbrev pub fail_if : Bool → String → Action (Unit {0})
fail_if b message s = if b then fail message s else ok (tt, s)

-- `current()`, which is '\0' at the end.
abbrev pub current_of : List ℕ → ℕ
current_of [] = 0
current_of (c ∷ _) = c

abbrev pub current : Reader → ℕ
current s = current_of s.rest

-- `++position_`, with the bytes taken apart.
abbrev pub step_over : List ℕ → List ℕ → List ℕ × List ℕ
step_over before [] = (before, [])
step_over before (c ∷ rest) = (c ∷ before, rest)

-- `position_ += n`
abbrev pub steps_over : ℕ → List ℕ → List ℕ → List ℕ × List ℕ
steps_over zero before rest = (before, rest)
steps_over (suc n) before rest = let (b, r) = step_over before rest in steps_over n b r

abbrev pub move_to : List ℕ × List ℕ → Action (Unit {0})
move_to (before, rest) s = ok (tt, record s { before = before; rest = rest })

abbrev pub skip : ℕ → Action (Unit {0})
skip n s = move_to (steps_over n s.before s.rest) s

-- `c == ' ' || c == '\t' || c == '\n' || c == '\r'`
abbrev pub is_whitespace : ℕ → Bool
is_whitespace c = c == b' ' || c == b'\t' || c == b'\n' || c == b'\r'

-- A loop that passes over bytes while they pass a test.
unfoldable pub pass_over : (ℕ → Bool) → List ℕ → List ℕ → List ℕ × List ℕ
pass_over test before [] = (before, [])
pass_over test before (c ∷ rest) =
    let more = pass_over test (c ∷ before) rest in if test c then more else (before, c ∷ rest)

unfoldable pub skip_whitespace : Action (Unit {0})
skip_whitespace s = move_to (pass_over is_whitespace s.before s.rest) s

unfoldable pub expect_literal : List ℕ → String → Action (Unit {0})
expect_literal literal message s =
    if not (bytes_eq (take (length literal) s.rest) literal)
    then fail message s
    else skip (length literal) s

unfoldable pub enter : Bool → Action (Unit {0})
enter is_object s =
    if leb s.max_depth (length s.stack)
    then failure (deeper_than s.max_depth) s
    else ok (tt, record s { stack = record { is_object = is_object; first = true } ∷ s.stack })
