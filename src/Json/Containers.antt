-- ===== src/Json/Containers.antt =====
-- The calls of include/reflgen/json/reader.h for arrays, objects and bytes, before the text that
-- include/reflgen/json/writer.h writes.
use reflgen_cpp.Common.{
  ℕ, zero, suc, ◌*◌, ◌<◌, ◌≡◌, refl, Bool, true, false, not, List, ◌∷◌, ◌++◌, length, leb, ◌==◌,
  replicate, All, none, some, arith, Bool-cases, inl, inr,
}
use reflgen_cpp.Common.Outcome.{ok}
use reflgen_cpp.Serial.Utf.Encoding.{utf8}
use reflgen_cpp.Serial.Utf.Strings.{flat}
use reflgen_cpp.Json.Input.{Frame, at, is_whitespace, current_of, enter}
use reflgen_cpp.Json.Steps.{over, skip_whitespace-append}
use reflgen_cpp.Json.Quoting.{quoted, parse_string-quoted}
use reflgen_cpp.Json.Encoding.{IsText, line, comma_text, last_line}
use reflgen_cpp.Json.ReadCalls.{stay, Starts}
use reflgen_cpp.Json.Reader.{
  begin_in, begin_array, begin_object, next_element, next_key, advance, advance_in, end_in,
  end_array, end_object, expect_char,
}

abbrev pub AreSpaces : List ℕ → Type 0
AreSpaces = All (λ c. is_whitespace c ≡ true)

spaces-replicate : (n : ℕ) → AreSpaces (replicate n b' ')
spaces-replicate zero = tt
spaces-replicate (suc n) = (refl, spaces-replicate n)

pub line-AreSpaces : (indent depth : ℕ) → AreSpaces (line indent depth)
line-AreSpaces indent depth = elim (Bool-cases (indent == 0)) [
  | inl e ↦ rw e tt
  | inr e ↦ rw e (refl, spaces-replicate (depth * indent))
]

pub last_line-AreSpaces : (indent depth : ℕ) (b : Bool) → AreSpaces (last_line indent depth b)
last_line-AreSpaces indent depth true = line-AreSpaces indent depth
last_line-AreSpaces indent depth false = tt

-- The innermost container, with an item behind `position_` or none.
abbrev pub inside : Bool → Bool → Frame
inside is_object behind = record { is_object = is_object; first = not behind }

module _ (d : ℕ) (st : List Frame) where
  no_deeper : length st < d → leb d (length st) ≡ false
  no_deeper h = ground arith

  pub begin_array-text :
      (before rest : List ℕ)
      → length st < d
      → begin_array (at before (b'[' ∷ rest) d st)
        ≡ ok (tt, at (b'[' ∷ before) rest d (inside false false ∷ st))
  unfolding begin_array begin_in enter expect_char
  begin_array-text before rest h = rw (stay before (b'[' ∷ rest) d st refl, no_deeper h)

  pub begin_object-text :
      (before rest : List ℕ)
      → length st < d
      → begin_object (at before (b'{' ∷ rest) d st)
        ≡ ok (tt, at (b'{' ∷ before) rest d (inside true false ∷ st))
  unfolding begin_object begin_in enter expect_char
  begin_object-text before rest h = rw (stay before (b'{' ∷ rest) d st refl, no_deeper h)

  pub end_array-text :
      (before rest : List ℕ)
      → end_array (at before (b']' ∷ rest) d (inside false true ∷ st))
        ≡ ok (tt, at (b']' ∷ before) rest d st)
  unfolding end_array end_in expect_char
  end_array-text before rest = rw (stay before (b']' ∷ rest) d (inside false true ∷ st) refl)

  pub end_object-text :
      (before rest : List ℕ)
      → end_object (at before (b'}' ∷ rest) d (inside true true ∷ st))
        ≡ ok (tt, at (b'}' ∷ before) rest d st)
  unfolding end_object end_in expect_char
  end_object-text before rest = rw (stay before (b'}' ∷ rest) d (inside true true ∷ st) refl)

  module _ (is_object : Bool) (closing : ℕ) (spaces : List ℕ) (h : AreSpaces spaces) where
    -- Before an item, with the comma that an item behind calls for.
    advance-item :
        (behind : Bool) (before rest : List ℕ)
        → is_whitespace (current_of rest) ≡ false
        → (current_of rest == closing) ≡ false
        → (b',' == closing) ≡ false
        → advance closing
            (at before (comma_text behind ++ (spaces ++ rest)) d (inside is_object behind ∷ st))
          ≡ ok (
            true,
            at (over (comma_text behind ++ spaces) before) rest d (inside is_object true ∷ st),
          )
    unfolding advance advance_in
    advance-item false before rest no_space no_closing _ = rw (
      skip_whitespace-append spaces before rest d (inside is_object false ∷ st) h no_space,
      no_closing,
    )
    advance-item true before rest no_space no_closing other = rw (
      stay before (b',' ∷ (spaces ++ rest)) d (inside is_object true ∷ st) refl,
      other,
      skip_whitespace-append spaces (b',' ∷ before) rest d (inside is_object true ∷ st) h no_space,
      no_closing,
    )

    -- Before the bracket that closes the container.
    advance-end :
        (behind : Bool) (before rest : List ℕ)
        → is_whitespace closing ≡ false
        → (closing == closing) ≡ true
        → advance closing (at before (spaces ++ closing ∷ rest) d (inside is_object behind ∷ st))
          ≡ ok (false, at (over spaces before) (closing ∷ rest) d (inside is_object true ∷ st))
    unfolding advance advance_in
    advance-end false before rest no_space same = rw (
      skip_whitespace-append spaces before (closing ∷ rest) d (inside is_object false ∷ st) h
          no_space,
      same,
    )
    advance-end true before rest no_space same = rw (
      skip_whitespace-append spaces before (closing ∷ rest) d (inside is_object true ∷ st) h
          no_space,
      same,
    )

  module _ (spaces : List ℕ) (h : AreSpaces spaces) where
    pub next_element-item :
        (behind : Bool) (before rest : List ℕ)
        → Starts rest
        → next_element
            (at before (comma_text behind ++ (spaces ++ rest)) d (inside false behind ∷ st))
          ≡ ok
              (true, at (over (comma_text behind ++ spaces) before) rest d (inside false true ∷ st))
    unfolding next_element
    next_element-item behind before rest s =
        advance-item false b']' spaces h behind before rest s.no_space s.no_bracket refl

    pub next_element-end :
        (behind : Bool) (before rest : List ℕ)
        → next_element (at before (spaces ++ b']' ∷ rest) d (inside false behind ∷ st))
          ≡ ok (false, at (over spaces before) (b']' ∷ rest) d (inside false true ∷ st))
    unfolding next_element
    next_element-end behind before rest =
        advance-end false b']' spaces h behind before rest refl refl

    pub next_key-end :
        (behind : Bool) (before rest : List ℕ)
        → next_key (at before (spaces ++ b'}' ∷ rest) d (inside true behind ∷ st))
          ≡ ok (none, at (over spaces before) (b'}' ∷ rest) d (inside true true ∷ st))
    unfolding next_key
    next_key-end behind before rest =
        rw (advance-end true b'}' spaces h behind before rest refl refl)

    pub next_key-entry :
        (behind : Bool) (k before rest : List ℕ)
        → IsText k
        → next_key (
            at before
              (comma_text behind ++ (spaces ++ (quoted k ++ b':' ∷ rest)))
              d
              (inside true behind ∷ st))
          ≡ ok (
            some k,
            at
                (b':' ∷ over (quoted k) (over (comma_text behind ++ spaces) before))
                rest
                d
                (inside true true ∷ st),
          )
    unfolding next_key expect_char
    next_key-entry behind k before rest (cs, hs, e) =
        let before' = over (comma_text behind ++ spaces) before in
        let st' = inside true true ∷ st in
        rw (
          e,
          advance-item true b'}' spaces h behind before (quoted (flat utf8 cs) ++ b':' ∷ rest) refl
              refl refl,
          parse_string-quoted cs before' (b':' ∷ rest) d st' hs,
          stay (over (quoted (flat utf8 cs)) before') (b':' ∷ rest) d st' refl,
        )
