-- ===== src/Json/ScalarSkip.antt =====
-- The calls of include/reflgen/json/reader.h for one scalar, before any input.
use reflgen_cpp.Common.{
  bytes_eq, ℕ, ◌≤◌, ◌≡◌, refl, true, false, not, List, [], ◌∷◌, ◌==◌, length, take, arith, String,
}
use reflgen_cpp.Common.Outcome.{pure, Ensures, Ensures-map}
use reflgen_cpp.Json.Base64.{codes}
use reflgen_cpp.Json.Input.{Reader, failure, fail, current, skip, skip_whitespace, expect_literal}
use reflgen_cpp.Json.Safety.{
  Moves-refl, Keeps, Keeps-then, Keeps-weaken, Keeps-pure, Ensures-if, fail_at-Ensures, fail-Keeps,
  skip-Moves, skip_whitespace-Keeps,
}
use reflgen_cpp.Json.Tokens.{current-rest}
use reflgen_cpp.Json.Reader.{expect_char, read_bool_here, read_null, read_bool}

-- A character that is asked for is there.
pub expect_char-Ensures :
    (c : ℕ) (message : String) (s : Reader)
    → 1 ≤ c
    → Ensures (λ (v, t). (t ≡ s) × (1 ≤ length s.rest)) (expect_char c message s)
unfolding expect_char failure
expect_char-Ensures c message s h =
    Ensures-if _ (not (current s == c)) _ _ (λ _. fail_at-Ensures _ s.before _)
      λ e. (refl, current-rest s (ground arith))

literal_fits :
    (literal rest : List ℕ)
    → bytes_eq (take (length literal) rest) literal ≡ true
    → length literal ≤ length rest
literal_fits [] rest h = omega arith
literal_fits (c ∷ cs) [] h = absurd (ground arith)
literal_fits (c ∷ cs) (b ∷ bs) h = omega (arith, literal_fits cs bs (ground arith))

pub expect_char-Keeps : (c : ℕ) (message : String) → 1 ≤ c → Keeps 0 (expect_char c message)
expect_char-Keeps c message h s =
    Ensures-map _ _ (expect_char c message s) (λ (v, t) (e, l). rw e (Moves-refl s))
      (expect_char-Ensures c message s h)

expect_literal-Moves :
    (literal : List ℕ) (message : String) → Keeps (length literal) (expect_literal literal message)
unfolding expect_literal
expect_literal-Moves literal message s =
    Ensures-if _ (not (bytes_eq (take (length literal) s.rest) literal)) (fail message s)
      (skip (length literal) s) (λ _. fail-Keeps _ _ message s)
      λ e. skip-Moves (length literal) s (literal_fits literal s.rest (ground arith))

pub read_null-Moves : Keeps 4 read_null
unfolding read_null
read_null-Moves =
    Keeps-then 0 4 skip_whitespace (expect_literal (codes "null") "expected 'null'")
      skip_whitespace-Keeps (expect_literal-Moves (codes "null") _)

read_bool_here-Moves : Keeps 4 read_bool_here
read_bool_here-Moves s =
    Ensures-if _ (current s == b't') _ _
      (λ _.
        Keeps-then 4 0 (expect_literal (codes "true") "expected 'true'") (pure true)
          (expect_literal-Moves (codes "true") _) (Keeps-pure true) s)
      λ _.
        Ensures-if _ (current s == b'f') _ _
          (λ _.
            Keeps-weaken 5 4 _ (omega arith)
              (Keeps-then 5 0 (expect_literal (codes "false") "expected 'false'") (pure false)
                (expect_literal-Moves (codes "false") _) (Keeps-pure false))
              s)
          λ _. fail-Keeps _ 4 _ s

pub read_bool-Moves : Keeps 4 read_bool
unfolding read_bool
read_bool-Moves =
    Keeps-then 0 4 skip_whitespace read_bool_here skip_whitespace-Keeps read_bool_here-Moves
