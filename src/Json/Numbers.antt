-- ===== src/Json/Numbers.antt =====
-- include/reflgen/json/reader.h: `scan_number`, `is_integer_token`.
use reflgen_cpp.Common.{
  ℕ, ◌-◌, Bool, true, not, ◌&&◌, ◌||◌, List, [], ◌∷◌, leb, ◌==◌, if◌then◌else◌, length, take,
}
use reflgen_cpp.Common.Outcome.{ok, says, bind, ◌>>◌}
use reflgen_cpp.Json.Input.{Reader, Action, fail_at, current, skip, pass_over, move_to}

abbrev pub is_digit : ℕ → Bool
is_digit c = leb b'0' c && leb c b'9'

-- `find_first_of(".eE") == npos`
abbrev pub is_integer_token : List ℕ → Bool
is_integer_token [] = true
is_integer_token (c ∷ cs) = not (c == b'.' || c == b'e' || c == b'E') && is_integer_token cs

-- `fail_at(start, "invalid number")`, of a test.
abbrev pub invalid_if : Bool → List ℕ → Action (Unit {0})
invalid_if b start s = if b then fail_at start (says "invalid number") else ok (tt, s)

unfoldable pub skip_digits : Action (Unit {0})
skip_digits s = move_to (pass_over is_digit s.before s.rest) s

abbrev pub skip_if : (ℕ → Bool) → Action (Unit {0})
skip_if test s = if test (current s) then skip 1 s else ok (tt, s)

unfoldable pub scan_integer : List ℕ → Action (Unit {0})
unfolding skip_digits
scan_integer start s =
    if current s == b'0'
    then skip 1 s
    else if is_digit (current s)
    then skip_digits s
    else fail_at start (says "invalid number")

-- Digits, one at least.
unfoldable pub scan_digits : List ℕ → Action (Unit {0})
unfolding skip_digits
scan_digits start = do λ s. invalid_if (not (is_digit (current s))) start s; skip_digits

unfoldable pub scan_fraction : List ℕ → Action (Unit {0})
unfolding scan_digits
scan_fraction start s = if current s == b'.' then (skip 1 >> scan_digits start) s else ok (tt, s)

unfoldable pub scan_exponent : List ℕ → Action (Unit {0})
unfolding scan_digits
scan_exponent start s =
    if current s == b'e' || current s == b'E'
    then (skip 1 >> (skip_if (λ c. c == b'+' || c == b'-') >> scan_digits start)) s
    else ok (tt, s)

-- `input_.substr(start, position_ - start)`, of two states.
abbrev pub substr : Reader → Reader → List ℕ
substr s t = take (length t.before - length s.before) s.rest

unfoldable pub scan_number : Action (List ℕ)
unfolding scan_integer scan_fraction scan_exponent
scan_number s =
    bind
      ((skip_if (λ c. c == b'-')
          >> (scan_integer s.before >> (scan_fraction s.before >> scan_exponent s.before)))
        s)
      λ (_, t). ok (substr s t, t)
