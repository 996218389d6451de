-- ===== src/Json/Texts.antt =====
-- `parse_string` of include/reflgen/json/reader.h on any input.
use reflgen_cpp.Common.{
  ℕ, zero, suc, ◌+◌, ◌-◌, ◌*◌, ◌^◌, ◌%◌, ◌≤◌, ◌<◌, ◌≡◌, refl, not, ◌&&◌, ◌||◌, List, [], ◌∷◌, ltb,
  leb, ◌==◌, if◌then◌else◌, length, arith, Option, none, some, bit_and, bit_or,
}
use reflgen_cpp.Common.Outcome.{
  Outcome, ok, err, fault, out_of_fuel, pure, ◌>>=◌, ◌>>◌, Ensures, Ensures-bind, Ensures-map,
}
use reflgen_cpp.Serial.Utf.{decode_utf8, decode_long, continue_utf8, append_utf8, Lead}
use reflgen_cpp.Json.Input.{Reader, Action, fail_if, fail, current, skip}
use reflgen_cpp.Json.Strings.{
  hex_value, add_hex, read_hex, read_hex4, no_second_escape, low_surrogate, join_pair,
  expect_escape, pair_up, append_code_point, append_unicode, escape_of, append_escape, rethrow_at,
  take_sequence, parse_char, parse_on, parse_loop, parse_string,
}
use reflgen_cpp.Json.Safety.{
  Moves, Moves-refl, Moves-weaken, Moves-bind, Keeps, Keeps-bind, Keeps-then, Keeps-pure, Keeps-if,
  Ensures-if, fail_at-Ensures, fail-Keeps, skip-Keeps, skip-Moves,
}
use reflgen_cpp.Json.Tokens.{fail_if-Keeps}

add_hex-Keeps : (value : ℕ) (d : Option ℕ) → Keeps 0 (add_hex value d)
add_hex-Keeps value none = fail-Keeps _ 0 _
add_hex-Keeps value (some d) =
    let value' = bit_or (value * 2 ^ 4 % 2 ^ 32) d in
    Keeps-then 0 0 (skip 1) (pure value') (skip-Keeps 1) (Keeps-pure value')

read_hex-Keeps : (n value : ℕ) → Keeps 0 (read_hex n value)
unfolding read_hex
read_hex-Keeps zero value = Keeps-pure value
read_hex-Keeps (suc n) value =
    Keeps-bind 0 0 (λ s. add_hex value (hex_value (current s)) s) (read_hex n)
      (λ s. add_hex-Keeps value (hex_value (current s)) s) (read_hex-Keeps n)

read_hex4-Keeps : Keeps 0 read_hex4
unfolding read_hex4
read_hex4-Keeps = read_hex-Keeps 4 0

join_pair-Keeps : (c low : ℕ) → Keeps 0 (join_pair c low)
join_pair-Keeps c low =
    let code_point = 0x10000 + (c - 0xD800) * 2 ^ 10 + (low - 0xDC00) in
    Keeps-then 0 0
      (fail_if (ltb low 0xDC00 || ltb 0xDFFF low) "unpaired UTF-16 surrogate in \\u escape")
      (pure code_point) (fail_if-Keeps _ _) (Keeps-pure code_point)

low_surrogate-Keeps : (c : ℕ) → Keeps 0 (low_surrogate c)
low_surrogate-Keeps c =
    Keeps-then 0 0 expect_escape (skip 2 >> (read_hex4 >>= join_pair c))
      (λ s. fail_if-Keeps (no_second_escape s.rest) _ s)
      (Keeps-then 0 0 (skip 2) (read_hex4 >>= join_pair c) (skip-Keeps 2)
        (Keeps-bind 0 0 read_hex4 (join_pair c) read_hex4-Keeps (join_pair-Keeps c)))

pair_up-Keeps : (c : ℕ) → Keeps 0 (pair_up c)
pair_up-Keeps c s =
    Keeps-if 0 (leb 0xD800 c && leb c 0xDBFF) (low_surrogate c)
      (if leb 0xDC00 c && leb c 0xDFFF
        then fail "unpaired UTF-16 surrogate in \\u escape"
        else pure c)
      s (λ _. low_surrogate-Keeps c s)
      λ _.
        Keeps-if 0 (leb 0xDC00 c && leb c 0xDFFF) (fail "unpaired UTF-16 surrogate in \\u escape")
          (pure c) s (λ _. fail-Keeps _ 0 _ s) λ _. Moves-refl s

append_utf8-Ensures : (out : List ℕ) (c : ℕ) → Ensures (λ _. Unit {0}) (append_utf8 out c)
unfolding append_utf8
append_utf8-Ensures out c = ground arith

append_code_point-Keeps : (result : List ℕ) (c : ℕ) → Keeps 0 (append_code_point result c)
append_code_point-Keeps result c s =
    Ensures-bind (λ _. Unit {0}) _ (append_utf8 result c) _ (append_utf8-Ensures result c)
      λ _ _. Moves-refl s

append_unicode-Keeps : (result : List ℕ) → Keeps 0 (append_unicode result)
unfolding append_unicode
append_unicode-Keeps result =
    Keeps-bind 0 0 read_hex4 (λ c. pair_up c >>= append_code_point result) read_hex4-Keeps
      λ c.
        Keeps-bind 0 0 (pair_up c) (append_code_point result) (pair_up-Keeps c)
          (append_code_point-Keeps result)

escape_of-Keeps : (result : List ℕ) (c : ℕ) → Keeps 0 (escape_of result c)
escape_of-Keeps result c s =
    Keeps-if 0 (c == b'"') _ _ s (λ _. Moves-refl s)
      λ _.
        Keeps-if 0 (c == b'\\') _ _ s (λ _. Moves-refl s)
          λ _.
            Keeps-if 0 (c == b'/') _ _ s (λ _. Moves-refl s)
              λ _.
                Keeps-if 0 (c == b'b') _ _ s (λ _. Moves-refl s)
                  λ _.
                    Keeps-if 0 (c == b'f') _ _ s (λ _. Moves-refl s)
                      λ _.
                        Keeps-if 0 (c == b'n') _ _ s (λ _. Moves-refl s)
                          λ _.
                            Keeps-if 0 (c == b'r') _ _ s (λ _. Moves-refl s)
                              λ _.
                                Keeps-if 0 (c == b't') _ _ s (λ _. Moves-refl s)
                                  λ _.
                                    Keeps-if 0 (c == b'u') _ _ s
                                      (λ _. append_unicode-Keeps result s) λ _. fail-Keeps _ 0 _ s

append_escape-Keeps : (result : List ℕ) → Keeps 0 (append_escape result)
unfolding append_escape
append_escape-Keeps result s =
    Keeps-then 0 0 (skip 1) (escape_of result (current s)) (skip-Keeps 1)
      (escape_of-Keeps result (current s)) s

-- Decoding takes a byte at least.
continue_utf8-Ensures :
    (n c : ℕ) (rest : List ℕ)
    → n ≤ length rest
    → Ensures (λ (v, r). length r ≤ length rest) (continue_utf8 n c rest)
continue_utf8-Ensures zero c rest h = omega arith
continue_utf8-Ensures (suc n) c [] h = absurd (omega arith)
continue_utf8-Ensures (suc n) c (b ∷ rest) h =
    Ensures-if _ (not (bit_and b 0xC0 == 0x80)) _ _ (λ _. tt)
      λ _.
        Ensures-map _ _ (continue_utf8 n _ rest) (λ (v, r) l. omega arith)
          (continue_utf8-Ensures n _ rest (omega arith))

decode_long-Ensures :
    (l : Lead) (rest : List ℕ) → Ensures (λ (v, r). length r ≤ length rest) (decode_long l rest)
decode_long-Ensures l rest =
    Ensures-if _ (ltb (length rest) l.continuations) _ _ (λ _. tt)
      λ e.
        Ensures-bind (λ (v, r). length r ≤ length rest) _
          (continue_utf8 l.continuations l.bits rest) _
          (continue_utf8-Ensures l.continuations l.bits rest (ground arith))
          λ (c, r) h. Ensures-if _ (ltb c l.minimum || ltb 0x10FFFF c || _) _ _ (λ _. tt) λ _. h

pub decode_utf8-shorter :
    (b : ℕ) (rest : List ℕ) → Ensures (λ (v, r). length r ≤ length rest) (decode_utf8 (b ∷ rest))
unfolding decode_utf8
decode_utf8-shorter b rest = grind (arith, decode_long-Ensures)

rethrow_at-Ensures :
    {A : Type 0} (P : A → Type 0) (before : List ℕ) (m : Outcome A)
    → Ensures P m
    → Ensures P (rethrow_at before m)
rethrow_at-Ensures P before (ok a) h = h
rethrow_at-Ensures P before (err e) h = fail_at-Ensures P before e.message
rethrow_at-Ensures P before fault h = h
rethrow_at-Ensures P before out_of_fuel h = h

take_sequence-Moves :
    (result : List ℕ) (b : ℕ) (rest : List ℕ) (s : Reader)
    → s.rest ≡ b ∷ rest
    → Ensures (λ (v, t). Moves 1 s t) (take_sequence result s)
unfolding take_sequence
take_sequence-Moves result b rest s e =
    Ensures-bind (λ (c, r). length r ≤ length rest) _ (rethrow_at s.before (decode_utf8 s.rest)) _
      (rethrow_at-Ensures _ s.before (decode_utf8 s.rest) (rw e (decode_utf8-shorter b rest)))
      λ (c, after) h.
        let n = length s.rest - length after in
        let whole : length s.rest ≡ suc (length rest) = rw e refl in
        let enough : 1 ≤ n = omega (arith, whole, h) in
        Ensures-map _ _ (skip n s) (λ (v, t) m. Moves-weaken {n = n} {s = s} {t = t} 1 enough m)
          (skip-Moves n s (omega arith))

abbrev plain : Action (List ℕ) → Action (Option (List ℕ))
plain m = m >>= λ out. pure (some out)

plain-Keeps :
    (n : ℕ) (m : Action (List ℕ)) (s : Reader)
    → Ensures (λ (v, t). Moves n s t) (m s)
    → Ensures (λ (v, t). Moves n s t) (plain m s)
plain-Keeps n m s h = Ensures-bind (λ (v, t). Moves n s t) _ (m s) _ h λ (v, t) p. p

parse_char-Moves :
    (start result rest : List ℕ) (s : Reader)
    → s.rest ≡ rest
    → Ensures (λ (v, t). Moves 1 s t) (parse_char start result rest s)
parse_char-Moves start result [] s e = fail_at-Ensures _ start _
parse_char-Moves start result (c ∷ rest) s e =
    let one = skip-Moves 1 s (rw e (omega arith)) in
    Keeps-if 1 (c == b'"') _ _ s (λ _. one)
      λ _.
        Keeps-if 1 (ltb c 0x20) _ _ s (λ _. fail-Keeps _ 1 _ s)
          λ _.
            Keeps-if 1 (c == b'\\') (skip 1 >> plain (append_escape result)) _ s
              (λ _.
                Moves-bind 1 0 (skip 1) (λ _. plain (append_escape result)) s one
                  λ v t p. plain-Keeps 0 (append_escape result) t (append_escape-Keeps result t))
              λ _.
                Keeps-if 1 (ltb c 0x80) _ (plain (take_sequence result)) s (λ _. one)
                  λ _.
                    plain-Keeps 1 (take_sequence result) s (take_sequence-Moves result c rest s e)

parse_on-Moves :
    (result : List ℕ) (again : List ℕ → Action (List ℕ)) (next : Option (List ℕ)) (t : Reader)
    → ((out : List ℕ) → Ensures (λ (v, u). Moves 1 t u) (again out t))
    → Ensures (λ (v, u). Moves 0 t u) (parse_on result again next t)
parse_on-Moves result again none t h = Moves-refl t
parse_on-Moves result again (some out) t h =
    Ensures-map _ _ (again out t)
      (λ (v, u) q. Moves-weaken {n = 1} {s = t} {t = u} 0 (omega arith) q) (h out)

parse_loop-Moves :
    (fuel : ℕ) (start result : List ℕ) (s : Reader)
    → length s.rest < fuel
    → Ensures (λ (v, t). Moves 1 s t) (parse_loop fuel start result s)
unfolding parse_loop
parse_loop-Moves zero start result s h = absurd (omega arith)
parse_loop-Moves (suc fuel) start result s h =
    Moves-bind 1 0 (λ t. parse_char start result t.rest t) (parse_on result (parse_loop fuel start))
      s (parse_char-Moves start result s.rest s refl)
      λ next t p.
        parse_on-Moves result (parse_loop fuel start) next t
          λ out. parse_loop-Moves fuel start out t (omega (arith, p.further))

-- The opening quote is passed without a look at it.
pub parse_string-Moves : Keeps 1 parse_string
unfolding parse_string
parse_string-Moves s =
    Moves-bind 0 1 (skip 1) (λ _. parse_loop (length s.rest + 1) s.before []) s (skip-Keeps 1 s)
      λ v t p. parse_loop-Moves (length s.rest + 1) s.before [] t (omega (arith, p.further))
