-- ===== src/Json/Tokens.antt =====
-- The literals, numbers and strings of include/reflgen/json/reader.h on any input.
use reflgen_cpp.Common.{
  ℕ, ◌≤◌, ◌≡◌, refl, ◌∙◌, Bool, true, false, ◌||◌, List, [], ◌∷◌, ◌==◌, length, arith, Bool-cases,
  inl, inr, String,
}
use reflgen_cpp.Common.Outcome.{ok, ◌>>◌, Ensures, Ensures-bind}
use reflgen_cpp.Json.Input.{Reader, fail_if, fail_at, current, current_of, skip, pass_over, move_to}
use reflgen_cpp.Json.Numbers.{
  is_digit, invalid_if, skip_digits, skip_if, scan_integer, scan_digits, scan_fraction,
  scan_exponent, scan_number,
}
use reflgen_cpp.Json.Safety.{
  Moves, Moves-refl, Keeps, Keeps-then, Keeps-weaken, Ensures-if, fail_at-Ensures, fail-Keeps,
  skip-Keeps, skip-Moves, pass_over-Moves,
}

-- A test that fails leaves the state as it is.
pub fail_if-Keeps : (b : Bool) (message : String) → Keeps 0 (fail_if b message)
fail_if-Keeps true message s = fail-Keeps _ 0 message s
fail_if-Keeps false message s = Moves-refl s

invalid_if-Keeps : (b : Bool) (start : List ℕ) → Keeps 0 (invalid_if b start)
invalid_if-Keeps true start s = fail_at-Ensures _ start _
invalid_if-Keeps false start s = Moves-refl s

skip_if-Keeps : (test : ℕ → Bool) → Keeps 0 (skip_if test)
skip_if-Keeps test s =
    Ensures-if _ (test (current s)) (skip 1 s) (ok (tt, s)) (λ _. skip-Keeps 1 s)
      (λ _. Moves-refl s)

-- A character that is not the end of the input is there.
pub current-rest : (s : Reader) → 1 ≤ current s → 1 ≤ length s.rest
current-rest s h = go s.rest h
  where
    go : (rest : List ℕ) → 1 ≤ current_of rest → 1 ≤ length rest
    go [] h = h
    go (c ∷ cs) h = omega arith

-- Digits, one at least.
digits-Moves :
    (s : Reader) → is_digit (current s) ≡ true → Ensures (λ (v, t). Moves 1 s t) (skip_digits s)
unfolding skip_digits pass_over
digits-Moves s h = go s.before s.rest refl refl h
  where
    go :
        (before rest : List ℕ)
        → s.before ≡ before
        → s.rest ≡ rest
        → is_digit (current_of rest) ≡ true
        → Ensures (λ (v, t). Moves 1 s t) (move_to (pass_over is_digit before rest) s)
    go before [] eb er h = absurd (ground arith)
    go before (c ∷ rest) eb er h = rw h (
        let m = pass_over-Moves is_digit (record s { before = c ∷ before; rest = rest }) in
        record {
          same_input = m.same_input ∙ rw (eb, er) refl;
          further = rw er (omega (arith, m.further));
          same_depth = refl;
          same_stack = refl;
        })

scan_integer-Moves : (start : List ℕ) → Keeps 1 (scan_integer start)
unfolding scan_integer
scan_integer-Moves start s =
    Ensures-if _ (current s == b'0') (skip 1 s) _
      (λ e. skip-Moves 1 s (current-rest s (ground arith)))
      λ e.
        Ensures-if _ (is_digit (current s)) (skip_digits s) _ (digits-Moves s)
          λ d. fail_at-Ensures _ start _

scan_digits-Moves : (start : List ℕ) → Keeps 1 (scan_digits start)
unfolding scan_digits fail_at
scan_digits-Moves start s = elim (Bool-cases (is_digit (current s))) [
  | inl e ↦ rw e (digits-Moves s e)
  | inr e ↦ rw e tt
]

scan_fraction-Keeps : (start : List ℕ) → Keeps 0 (scan_fraction start)
unfolding scan_fraction
scan_fraction-Keeps start s =
    Ensures-if _ (current s == b'.') ((skip 1 >> scan_digits start) s) _
      (λ e.
        Keeps-weaken 1 0 _ (omega arith)
          (Keeps-then 0 1 (skip 1) (scan_digits start) (skip-Keeps 1) (scan_digits-Moves start)) s)
      λ e. Moves-refl s

abbrev is_sign : ℕ → Bool
is_sign c = c == b'+' || c == b'-'

scan_exponent-Keeps : (start : List ℕ) → Keeps 0 (scan_exponent start)
unfolding scan_exponent
scan_exponent-Keeps start s =
    Ensures-if _ (current s == b'e' || current s == b'E')
      ((skip 1 >> (skip_if is_sign >> scan_digits start)) s) _
      (λ e.
        Keeps-weaken 1 0 _ (omega arith)
          (Keeps-then 0 1 (skip 1) (skip_if is_sign >> scan_digits start) (skip-Keeps 1) (
            Keeps-then 0 1 (skip_if is_sign) (scan_digits start) (skip_if-Keeps is_sign)
              (scan_digits-Moves start)))
          s)
      λ e. Moves-refl s

abbrev is_minus : ℕ → Bool
is_minus c = c == b'-'

pub scan_number-Moves : Keeps 1 scan_number
unfolding scan_number
scan_number-Moves s =
    Ensures-bind (λ (v, t). Moves 1 s t) _ _ _
      (Keeps-then 0 1 (skip_if is_minus)
        (scan_integer s.before >> (scan_fraction s.before >> scan_exponent s.before))
        (skip_if-Keeps is_minus)
        (Keeps-then 1 0 (scan_integer s.before) (scan_fraction s.before >> scan_exponent s.before)
          (scan_integer-Moves s.before)
          (Keeps-then 0 0 (scan_fraction s.before) (scan_exponent s.before)
            (scan_fraction-Keeps s.before) (scan_exponent-Keeps s.before)))
        s)
      λ (v, t) m. m
