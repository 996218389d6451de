-- ===== src/Json/Steps.antt =====
-- The moves of include/reflgen/json/reader.h over bytes that are known.
use reflgen_cpp.Common.{
  ℕ, ◌+◌, ◌≡◌, refl, Bool, true, false, List, [], ◌∷◌, ◌++◌, length, take-append, All, arith,
  String, bytes_eq_refl,
}
use reflgen_cpp.Common.Outcome.{ok}
use reflgen_cpp.Json.Input.{
  Frame, at, skip, steps_over, pass_over, skip_whitespace, is_whitespace, current_of,
  expect_literal,
}

-- The bytes before `position_`, once `text` is passed too.
abbrev pub over : List ℕ → List ℕ → List ℕ
over [] before = before
over (c ∷ text) before = over text (c ∷ before)

pub over-append : (xs ys before : List ℕ) → over (xs ++ ys) before ≡ over ys (over xs before)
over-append [] ys before = refl
over-append (x ∷ xs) ys before = over-append xs ys (x ∷ before)

pub length-over : (xs before : List ℕ) → length (over xs before) ≡ length xs + length before
length-over [] before = omega arith
length-over (x ∷ xs) before = omega (arith, length-over xs (x ∷ before))

pub steps_over-append :
    (text before rest : List ℕ)
    → steps_over (length text) before (text ++ rest) ≡ (over text before, rest)
steps_over-append [] before rest = refl
steps_over-append (c ∷ text) before rest = steps_over-append text (c ∷ before) rest

pub skip-append :
    (text before rest : List ℕ) (d : ℕ) (st : List Frame)
    → skip (length text) (at before (text ++ rest) d st) ≡ ok (tt, at (over text before) rest d st)
skip-append text before rest d st = rw (steps_over-append text before rest)

-- A run of bytes that pass the test, up to one that does not.
pub pass_over-append :
    (test : ℕ → Bool) (text before rest : List ℕ)
    → All (λ c. test c ≡ true) text
    → test (current_of rest) ≡ false
    → pass_over test before (text ++ rest) ≡ (over text before, rest)
unfolding pass_over
pass_over-append test [] before [] h stop = refl
pass_over-append test [] before (c ∷ rest) h stop = rw stop
pass_over-append test (c ∷ text) before rest (h, hs) stop =
    rw h (pass_over-append test text (c ∷ before) rest hs stop)

pub skip_whitespace-append :
    (text before rest : List ℕ) (d : ℕ) (st : List Frame)
    → All (λ c. is_whitespace c ≡ true) text
    → is_whitespace (current_of rest) ≡ false
    → skip_whitespace (at before (text ++ rest) d st) ≡ ok (tt, at (over text before) rest d st)
unfolding skip_whitespace
skip_whitespace-append text before rest d st h stop =
    rw (pass_over-append is_whitespace text before rest h stop)

pub expect_literal-append :
    (text : List ℕ) (message : String) (before rest : List ℕ) (d : ℕ) (st : List Frame)
    → expect_literal text message (at before (text ++ rest) d st)
      ≡ ok (tt, at (over text before) rest d st)
unfolding expect_literal
expect_literal-append text message before rest d st =
    rw (take-append text rest, bytes_eq_refl text, steps_over-append text before rest)
