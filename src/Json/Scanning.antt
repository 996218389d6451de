-- ===== src/Json/Scanning.antt =====
-- `scan_number` of include/reflgen/json/reader.h on the numbers of RFC 8259.
use reflgen_cpp.Common.{
  ℕ, ◌-◌, ◌≡◌, refl, Bool, true, false, ◌||◌, List, [], ◌∷◌, ◌++◌, ◌==◌, length, take-append, All,
  arith, append_assoc, Bool-cases, inl, inr, ◌⊎◌,
}
use reflgen_cpp.Common.Outcome.{ok, ◌>>◌}
use reflgen_cpp.Json.Input.{Frame, at, current_of}
use reflgen_cpp.Json.Numbers.{
  is_digit, skip_digits, skip_if, scan_integer, scan_digits, scan_fraction, scan_exponent,
  scan_number,
}
use reflgen_cpp.Json.Steps.{over, over-append, length-over, pass_over-append}

-- An exponent: the letter, the sign if there is one, and the digits.
pub data Exponent : Type 0 where
  no_exponent : Exponent
  exponent : ℕ → List ℕ → ℕ → List ℕ → Exponent

-- A number, taken apart; the fraction is its digits behind the point, if there is one.
pub record NumberText : Type 0 where
  pub minus : Bool
  pub whole : List ℕ
  pub fraction : List ℕ
  pub power : Exponent

abbrev pub minus_text : Bool → List ℕ
minus_text true = b'-' ∷ []
minus_text false = []

abbrev pub fraction_text : List ℕ → List ℕ
fraction_text [] = []
fraction_text (c ∷ cs) = b'.' ∷ c ∷ cs

abbrev pub exponent_text : Exponent → List ℕ
exponent_text no_exponent = []
exponent_text (exponent letter sign c cs) = letter ∷ (sign ++ c ∷ cs)

abbrev pub number_text : NumberText → List ℕ
number_text n =
    minus_text n.minus ++ (n.whole ++ (fraction_text n.fraction ++ exponent_text n.power))

abbrev pub AreDigits : List ℕ → Type 0
AreDigits = All (λ c. is_digit c ≡ true)

-- `0`, or digits that do not begin with it.
abbrev pub IsWhole : List ℕ → Type 0
IsWhole [] = ⊥
IsWhole (c ∷ cs) = (is_digit c ≡ true) × (((c == b'0') ≡ false) ⊎ (cs ≡ [])) × AreDigits cs

abbrev pub IsPower : Exponent → Type 0
IsPower no_exponent = Unit {0}
IsPower (exponent letter sign c cs) =
    ((letter ≡ b'e') ⊎ (letter ≡ b'E'))
    × ((sign ≡ []) ⊎ ((sign ≡ b'+' ∷ []) ⊎ (sign ≡ b'-' ∷ [])))
    × (is_digit c ≡ true)
    × AreDigits cs

pub record IsNumber (n : NumberText) : Type 0 where
  pub whole_digits : IsWhole n.whole
  pub fraction_digits : AreDigits n.fraction
  pub power_digits : IsPower n.power

-- What cannot follow a number: more of it.
pub record Stops (rest : List ℕ) : Type 0 where
  pub no_digit : is_digit (current_of rest) ≡ false
  pub no_point : (current_of rest == b'.') ≡ false
  pub no_letter : (current_of rest == b'e' || current_of rest == b'E') ≡ false

module _ (d : ℕ) (st : List Frame) where
  skip_digits-append :
      (text before rest : List ℕ)
      → AreDigits text
      → is_digit (current_of rest) ≡ false
      → skip_digits (at before (text ++ rest) d st) ≡ ok (tt, at (over text before) rest d st)
  unfolding skip_digits
  skip_digits-append text before rest h stop =
      rw (pass_over-append is_digit text before rest h stop)

  scan_digits-append :
      (start : List ℕ) (c : ℕ) (text before rest : List ℕ)
      → is_digit c ≡ true
      → AreDigits text
      → is_digit (current_of rest) ≡ false
      → scan_digits start (at before (c ∷ (text ++ rest)) d st)
        ≡ ok (tt, at (over (c ∷ text) before) rest d st)
  unfolding scan_digits
  scan_digits-append start c text before rest h hs stop =
      rw (h, skip_digits-append (c ∷ text) before rest (h, hs) stop)

  scan_integer-append :
      (start text before rest : List ℕ)
      → IsWhole text
      → is_digit (current_of rest) ≡ false
      → scan_integer start (at before (text ++ rest) d st)
        ≡ ok (tt, at (over text before) rest d st)
  unfolding scan_integer
  scan_integer-append start [] before rest h stop = absurd h
  scan_integer-append start (c ∷ cs) before rest (h, inl e, hs) stop =
      rw (e, h, skip_digits-append (c ∷ cs) before rest (h, hs) stop)
  scan_integer-append start (c ∷ cs) before rest (h, inr e, hs) stop =
      elim (Bool-cases (c == b'0')) [
        | inl z ↦ rw (z, e)
        | inr z ↦ rw (z, h, skip_digits-append (c ∷ cs) before rest (h, hs) stop)
      ]

  scan_fraction-append :
      (start text before rest : List ℕ)
      → AreDigits text
      → is_digit (current_of rest) ≡ false
      → (current_of rest == b'.') ≡ false
      → scan_fraction start (at before (fraction_text text ++ rest) d st)
        ≡ ok (tt, at (over (fraction_text text) before) rest d st)
  unfolding scan_fraction
  scan_fraction-append start [] before rest h stop point = rw point
  scan_fraction-append start (c ∷ cs) before rest (h, hs) stop point =
      scan_digits-append start c cs (b'.' ∷ before) rest h hs stop

  signed_digits :
      (start sign : List ℕ) (c : ℕ) (text before rest : List ℕ)
      → (sign ≡ []) ⊎ ((sign ≡ b'+' ∷ []) ⊎ (sign ≡ b'-' ∷ []))
      → is_digit c ≡ true
      → AreDigits text
      → is_digit (current_of rest) ≡ false
      → (skip_if (λ k. k == b'+' || k == b'-') >> scan_digits start)
          (at before ((sign ++ c ∷ text) ++ rest) d st)
        ≡ ok (tt, at (over (sign ++ c ∷ text) before) rest d st)
  signed_digits start sign c text before rest (inl e) h hs stop =
      let unsigned : (c == b'+' || c == b'-') ≡ false = ground arith in
      rw (e, unsigned, scan_digits-append start c text before rest h hs stop)
  signed_digits start sign c text before rest (inr (inl e)) h hs stop =
      rw (e, scan_digits-append start c text (b'+' ∷ before) rest h hs stop)
  signed_digits start sign c text before rest (inr (inr e)) h hs stop =
      rw (e, scan_digits-append start c text (b'-' ∷ before) rest h hs stop)

  scan_exponent-append :
      (start : List ℕ) (e : Exponent) (before rest : List ℕ)
      → IsPower e
      → Stops rest
      → scan_exponent start (at before (exponent_text e ++ rest) d st)
        ≡ ok (tt, at (over (exponent_text e) before) rest d st)
  unfolding scan_exponent
  scan_exponent-append start no_exponent before rest h stop = rw stop.no_letter
  scan_exponent-append start (exponent letter sign c cs) before rest (l, s, h, hs) stop =
      let is_letter : (letter == b'e' || letter == b'E') ≡ true = ground arith in
      rw (is_letter, signed_digits start sign c cs (letter ∷ before) rest s h hs stop.no_digit)

-- What may follow the parts.
exponent-Stops :
    (e : Exponent) (rest : List ℕ)
    → IsPower e
    → Stops rest
    → (is_digit (current_of (exponent_text e ++ rest)) ≡ false)
      × ((current_of (exponent_text e ++ rest) == b'.') ≡ false)
exponent-Stops no_exponent rest h stop = (stop.no_digit, stop.no_point)
exponent-Stops (exponent letter sign c cs) rest h stop = ground arith

fraction-no_digit :
    (text rest : List ℕ)
    → is_digit (current_of rest) ≡ false
    → is_digit (current_of (fraction_text text ++ rest)) ≡ false
fraction-no_digit [] rest h = h
fraction-no_digit (c ∷ cs) rest h = refl

skip_minus :
    (minus : Bool) (text before rest : List ℕ) (d : ℕ) (st : List Frame)
    → IsWhole text
    → skip_if (λ c. c == b'-') (at before (minus_text minus ++ (text ++ rest)) d st)
      ≡ ok (tt, at (over (minus_text minus) before) (text ++ rest) d st)
skip_minus true text before rest d st h = refl
skip_minus false [] before rest d st h = absurd h
skip_minus false (c ∷ cs) before rest d st (h, _, _) =
    let digit : (c == b'-') ≡ false = ground arith in rw digit

-- `scan_number` takes a number of RFC 8259, whole, off the front of an input that does not go on with
-- more of it.
pub scan_number-number_text :
    (n : NumberText) (before rest : List ℕ) (d : ℕ) (st : List Frame)
    → IsNumber n
    → Stops rest
    → scan_number (at before (number_text n ++ rest) d st)
      ≡ ok (number_text n, at (over (number_text n) before) rest d st)
unfolding scan_number
scan_number-number_text n before rest d st h stop =
    let m = minus_text n.minus in
    let f = fraction_text n.fraction in
    let e = exponent_text n.power in
    let passed : over (number_text n) before ≡ over e (over f (over n.whole (over m before))) =
      rw (over-append m (n.whole ++ (f ++ e)), over-append n.whole (f ++ e), over-append f e) in
    let text : m ++ (n.whole ++ (f ++ (e ++ rest))) ≡ number_text n ++ rest =
      rw (append_assoc, append_assoc, append_assoc) in
    let size : length (over (number_text n) before) - length before ≡ length (number_text n) =
      omega (arith, length-over (number_text n) before) in
    let (no_digit, no_point) = exponent-Stops n.power rest h.power_digits stop in
    rw
      (
        append_assoc m (n.whole ++ (f ++ e)) rest,
        append_assoc n.whole (f ++ e) rest,
        append_assoc f e rest,
        skip_minus n.minus n.whole before (f ++ (e ++ rest)) d st h.whole_digits,
        scan_integer-append d st before n.whole (over m before) (f ++ (e ++ rest)) h.whole_digits
            (fraction-no_digit n.fraction (e ++ rest) no_digit),
        scan_fraction-append d st before n.fraction (over n.whole (over m before)) (e ++ rest)
            h.fraction_digits no_digit no_point,
        scan_exponent-append d st before n.power (over f (over n.whole (over m before))) rest
            h.power_digits stop,
      )
      (rw (← passed, text, size, take-append (number_text n) rest) refl)
