-- ===== src/Json/Quoting.antt =====
-- `append_quoted` of include/reflgen/json/writer.h and `parse_string` of include/reflgen/json/reader.h.
pub mod RoundTrip
use reflgen_cpp.Common.{
  ℕ, zero, suc, ◌+◌, ◌-◌, ◌*◌, ◌/◌, ◌%◌, ◌^◌, ◌≤◌, ◌<◌, bit_and, bit_or, ◌≡◌, refl, ap, sym, ◌∙◌,
  Bool, true, false, List, [], ◌∷◌, ◌++◌, ltb, ◌==◌, if◌then◌else◌, length, take-append,
  length-append, All, arith, append_assoc, append-nil, some, Bool-cases, inl, inr,
}
use mathlib.Core.Path.{subst}
use reflgen_cpp.Common.Outcome.{ok}
use reflgen_cpp.Common.Bits.{bit_and-ones, bit_or-high_low}
use reflgen_cpp.Serial.Utf.{decode_utf8}
use reflgen_cpp.Serial.Utf.Encoding.{IsScalar, utf8, append_utf8-utf8, decode_utf8-utf8}
use reflgen_cpp.Serial.Utf.Strings.{flat, length-utf8_pos}
use reflgen_cpp.Json.Base64.{codes}
use reflgen_cpp.Json.Writer.{quoted_char, quoted_chars, hex}
use reflgen_cpp.Json.Input.{Frame, Reader, at}
use reflgen_cpp.Json.Strings.{
  hex_value, read_hex, read_hex4, append_unicode, append_escape, pair_up, take_sequence, parse_char,
  parse_loop, parse_string,
}
use reflgen_cpp.Json.Steps.{over, over-append, steps_over-append}

-- The digits that the writer makes are read back.
hex_value-hex : (i : ℕ) → i < 16 → hex_value (hex i) ≡ some i
unfolding hex_value
hex_value-hex i h = ground arith

add_digit :
    (value i : ℕ) → value < 2 ^ 24 → i < 16 → bit_or (value * 2 ^ 4 % 2 ^ 32) i ≡ value * 16 + i
add_digit value i hv h =
    let fits : value * 2 ^ 4 % 2 ^ 32 ≡ value * 2 ^ 4 = omega arith in
    rw fits (omega (arith, bit_or-high_low 4 value i (omega arith)))

read_hex-hex :
    (n value i next : ℕ) (before rest : List ℕ) (d : ℕ) (st : List Frame)
    → value < 2 ^ 24
    → i < 16
    → value * 16 + i ≡ next
    → read_hex (suc n) value (at before (hex i ∷ rest) d st)
      ≡ read_hex n next (at (hex i ∷ before) rest d st)
unfolding read_hex
read_hex-hex n value i next before rest d st hv h e =
    rw (hex_value-hex i h, add_digit value i hv h, e)

read_hex4-small :
    (c : ℕ) (before rest : List ℕ) (d : ℕ) (st : List Frame)
    → c < 256
    → let text = b'0' ∷ b'0' ∷ hex (c / 16) ∷ hex (c % 16) ∷ [] in
      read_hex4 (at before (text ++ rest) d st) ≡ ok (c, at (over text before) rest d st)
unfolding read_hex4
read_hex4-small c before rest d st h =
    read_hex-hex 3 0 0 0 before _ d st (omega arith) (omega arith) (omega arith)
    ∙ read_hex-hex 2 0 0 0 _ _ d st (omega arith) (omega arith) (omega arith)
    ∙ read_hex-hex 1 0 (c / 16) (c / 16) _ _ d st (omega arith) (omega arith) (omega arith)
    ∙ read_hex-hex 0 (c / 16) (c % 16) c _ _ d st (omega arith) (omega arith) (omega arith)
    ∙ unfold read_hex in refl

quoted_control : ℕ → List ℕ
quoted_control c = b'\\' ∷ b'u' ∷ b'0' ∷ b'0' ∷ hex (c / 16) ∷ hex (c % 16) ∷ []

pair_up-small : (c : ℕ) (s : Reader) → c < 0xD800 → pair_up c s ≡ ok (c, s)
pair_up-small c s h = ground arith

small-IsScalar : (c : ℕ) → c < 0xD800 → IsScalar c
small-IsScalar c h = record { in_range = omega arith; no_surrogate = ground arith }

append_unicode-control :
    (c : ℕ) (result before rest : List ℕ) (d : ℕ) (st : List Frame)
    → c < 32
    → let text = b'0' ∷ b'0' ∷ hex (c / 16) ∷ hex (c % 16) ∷ [] in
      append_unicode result (at before (text ++ rest) d st)
      ≡ ok (result ++ c ∷ [], at (over text before) rest d st)
unfolding append_unicode
append_unicode-control c result before rest d st h =
    let one : utf8 c ≡ c ∷ [] = ground arith in
    rw (
      read_hex4-small c before rest d st (omega arith),
      pair_up-small c _ (omega arith),
      append_utf8-utf8 result c (small-IsScalar c (omega arith)),
      one,
    )

-- The loop's body takes one character off, as the writer has quoted it.
abbrev Takes : List ℕ → List ℕ → Type 0
Takes quoted plain =
    (start result before rest : List ℕ) (d : ℕ) (st : List Frame)
    → parse_char start result (quoted ++ rest) (at before (quoted ++ rest) d st)
      ≡ ok (some (result ++ plain), at (over quoted before) rest d st)

Takes-control : (c : ℕ) → c < 32 → Takes (quoted_control c) (c ∷ [])
unfolding append_escape quoted_control
Takes-control c h start result before rest d st =
    rw (append_unicode-control c result (b'u' ∷ b'\\' ∷ before) rest d st h)

Takes-plain :
    (c : ℕ)
    → 32 ≤ c
    → c < 0x80
    → (c == b'"') ≡ false
    → (c == b'\\') ≡ false
    → Takes (c ∷ []) (c ∷ [])
Takes-plain c lo hi q b start result before rest d st =
    let e : ltb c 0x20 ≡ false = ground arith in
    let f : ltb c 0x80 ≡ true = ground arith in rw (q, e, b, f)

control_lem :
    (c : ℕ)
    → c < 32
    → codes "\\u00" ++ hex (bit_and (c / 2 ^ 4) 0x0F) ∷ hex (bit_and c 0x0F) ∷ [] ≡ quoted_control c
unfolding quoted_control
control_lem c h =
    let hi : bit_and (c / 2 ^ 4) 0x0F ≡ c / 16 = omega (arith, bit_and-ones 4 (c / 2 ^ 4)) in
    let lo : bit_and c 0x0F ≡ c % 16 = bit_and-ones 4 c in rw (hi, lo)

-- A branch of `append_quoted`.
Takes-if :
    (b : Bool) (x y plain : List ℕ)
    → (b ≡ true → Takes x plain)
    → (b ≡ false → Takes y plain)
    → Takes (if b then x else y) plain
Takes-if true x y plain h g = h refl
Takes-if false x y plain h g = g refl

-- A branch for one character.
Takes-case :
    (c k : ℕ) (x y : List ℕ)
    → Takes x (k ∷ [])
    → ((c == k) ≡ false → Takes y (c ∷ []))
    → Takes (if c == k then x else y) (c ∷ [])
Takes-case c k x y h g =
    Takes-if (c == k) x y (c ∷ [])
      (λ e. let same : k ≡ c = ground arith in subst (λ j. Takes x (j ∷ [])) same h) g

Takes-ascii : (c : ℕ) → c < 0x80 → Takes (quoted_char c) (c ∷ [])
unfolding append_escape
Takes-ascii c h =
    Takes-case c b'"' (codes "\\\"") _ (λ start result before rest d st. refl)
      λ q.
        Takes-case c b'\\' (codes "\\\\") _ (λ start result before rest d st. refl)
          λ b.
            Takes-case c 8 (codes "\\b") _ (λ start result before rest d st. refl)
              λ _.
                Takes-case c 12 (codes "\\f") _ (λ start result before rest d st. refl)
                  λ _.
                    Takes-case c b'\n' (codes "\\n") _ (λ start result before rest d st. refl)
                      λ _.
                        Takes-case c b'\r' (codes "\\r") _ (λ start result before rest d st. refl)
                          λ _.
                            Takes-case c b'\t' (codes "\\t") _
                              (λ start result before rest d st. refl)
                              λ _.
                                Takes-if (ltb c 0x20) _ (c ∷ []) (c ∷ [])
                                  (λ e.
                                    let small : c < 32 = ground arith in
                                    subst (λ x. Takes x (c ∷ [])) (sym (control_lem c small))
                                      (Takes-control c small))
                                  λ e. Takes-plain c (ground arith) h q b

-- Bytes that are not ASCII stand for themselves.
quoted_chars-high : (text : List ℕ) → All (λ b. 0x80 ≤ b) text → quoted_chars text ≡ text
unfolding quoted_chars
quoted_chars-high [] h = refl
quoted_chars-high (b ∷ text) (h, hs) = ground (arith, quoted_chars-high text hs)

utf8-high : (c : ℕ) → 0x80 ≤ c → All (λ b. 0x80 ≤ b) (utf8 c)
utf8-high c h = ground arith

take_sequence-append :
    (text result before rest : List ℕ) (c d : ℕ) (st : List Frame)
    → decode_utf8 (text ++ rest) ≡ ok (c, rest)
    → take_sequence result (at before (text ++ rest) d st)
      ≡ ok (result ++ text, at (over text before) rest d st)
unfolding take_sequence
take_sequence-append text result before rest c d st h =
    let n : length (text ++ rest) - length rest ≡ length text =
      omega (arith, length-append text rest) in
    rw (h, n, steps_over-append text before rest, take-append text rest)

Takes-high :
    (c b : ℕ) (more : List ℕ)
    → 0x80 ≤ b
    → ((rest : List ℕ) → decode_utf8 ((b ∷ more) ++ rest) ≡ ok (c, rest))
    → Takes (b ∷ more) (b ∷ more)
Takes-high c b more hb h start result before rest d st =
    let q : (b == b'"') ≡ false = ground arith in
    let l : ltb b 0x20 ≡ false = ground arith in
    let k : (b == b'\\') ≡ false = ground arith in
    let a : ltb b 0x80 ≡ false = ground arith in
    rw (q, l, k, a, take_sequence-append (b ∷ more) result before rest c d st (h rest))

-- One character, in whatever number of bytes.
Takes-quoted : (c : ℕ) → IsScalar c → Takes (quoted_chars (utf8 c)) (utf8 c)
unfolding quoted_chars
Takes-quoted c h = elim (Bool-cases (ltb c 0x80)) [
  | inl e ↦ let one : utf8 c ≡ c ∷ [] = rw e in rw (one, append-nil) (Takes-ascii c (ground arith))
  | inr e ↦
      let hi : 0x80 ≤ c = ground arith in
      subst (λ t. Takes t (utf8 c)) (sym (quoted_chars-high (utf8 c) (utf8-high c hi)))
        (go (utf8 c) refl (utf8-high c hi))
]
  where
    go : (text : List ℕ) → utf8 c ≡ text → All (λ b. 0x80 ≤ b) text → Takes text text
    go [] e hs = absurd (ground (arith, ap length e))
    go (b ∷ more) e (hb, _) =
        Takes-high c b more hb (λ rest.
          subst (λ t. decode_utf8 (t ++ rest) ≡ ok (c, rest)) e (decode_utf8-utf8 c rest h))

quoted_chars-append :
    (xs ys : List ℕ) → quoted_chars (xs ++ ys) ≡ quoted_chars xs ++ quoted_chars ys
unfolding quoted_chars
quoted_chars-append [] ys = refl
quoted_chars-append (x ∷ xs) ys = rw (quoted_chars-append xs ys, append_assoc)

parse_round :
    (quoted plain : List ℕ) (fuel : ℕ) (start result before rest : List ℕ) (d : ℕ) (st : List Frame)
    → Takes quoted plain
    → parse_loop (suc fuel) start result (at before (quoted ++ rest) d st)
      ≡ parse_loop fuel start (result ++ plain) (at (over quoted before) rest d st)
unfolding parse_loop
parse_round quoted plain fuel start result before rest d st h = rw (h start result before rest d st)

-- What the writer puts between its quotation marks, and the second mark.
abbrev body : List ℕ → List ℕ
body cs = quoted_chars (flat utf8 cs) ++ b'"' ∷ []

body-cons : (c : ℕ) (cs : List ℕ) → body (c ∷ cs) ≡ quoted_chars (utf8 c) ++ body cs
body-cons c cs = rw (quoted_chars-append (utf8 c) (flat utf8 cs), append_assoc)

parse_loop-body :
    (cs : List ℕ) (fuel : ℕ) (start result before rest : List ℕ) (d : ℕ) (st : List Frame)
    → All IsScalar cs
    → length cs < fuel
    → parse_loop fuel start result (at before (body cs ++ rest) d st)
      ≡ ok (result ++ flat utf8 cs, at (over (body cs) before) rest d st)
parse_loop-body cs zero start result before rest d st h hf = absurd (omega arith)
parse_loop-body [] (suc fuel) start result before rest d st h hf =
    unfold quoted_chars parse_loop in rw append-nil
parse_loop-body (c ∷ cs) (suc fuel) start result before rest d st (h, hs) hf =
    let q = quoted_chars (utf8 c) in
    rw (body-cons c cs, append_assoc q (body cs) rest, over-append q (body cs) before)
      (parse_round q (utf8 c) fuel start result before (body cs ++ rest) d st (Takes-quoted c h)
        ∙ parse_loop-body cs fuel start (result ++ utf8 c) (over q before) rest d st hs
            (omega arith)
        ∙ rw append_assoc)

length-flat : (cs : List ℕ) → length cs ≤ length (flat utf8 cs)
length-flat [] = omega arith
length-flat (c ∷ cs) =
    omega (arith, length-append (utf8 c) (flat utf8 cs), length-flat cs, length-utf8_pos c)

length-quoted_chars : (text : List ℕ) → length text ≤ length (quoted_chars text)
unfolding quoted_chars
length-quoted_chars [] = omega arith
length-quoted_chars (c ∷ text) = omega (
  arith,
  length-append (quoted_char c) (quoted_chars text),
  length-quoted_chars text,
  quoted_char_pos c,
)
  where
    quoted_char_pos : (c : ℕ) → 1 ≤ length (quoted_char c)
    quoted_char_pos c = ground arith

-- A text between quotation marks, its characters escaped.
abbrev pub quoted : List ℕ → List ℕ
quoted text = b'"' ∷ (quoted_chars text ++ b'"' ∷ [])

-- `parse_string` reads a quoted text of any scalar values, and leaves what follows it.
pub parse_string-quoted :
    (cs before rest : List ℕ) (d : ℕ) (st : List Frame)
    → All IsScalar cs
    → parse_string (at before (quoted (flat utf8 cs) ++ rest) d st)
      ≡ ok (flat utf8 cs, at (over (quoted (flat utf8 cs)) before) rest d st)
unfolding parse_string
parse_string-quoted cs before rest d st h =
    parse_loop-body cs _ before [] (b'"' ∷ before) rest d st h (
      omega (
        arith,
        length-append (body cs) rest,
        length-append (quoted_chars (flat utf8 cs)) (b'"' ∷ []),
        length-quoted_chars (flat utf8 cs),
        length-flat cs,
      ))
