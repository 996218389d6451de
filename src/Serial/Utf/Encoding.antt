-- ===== src/Serial/Utf/Encoding.antt =====
-- `append_utf8` and `decode_utf8` of include/reflgen/serial/detail/utf.h against UTF-8 in plain arithmetic.
use reflgen_cpp.Common.{
  ℕ, suc, ◌+◌, ◌*◌, ◌/◌, ◌%◌, ◌^◌, ◌≤◌, ◌<◌, bit_and, bit_or, ◌≡◌, refl, ◌⊎◌, inl, inr, ◌∙◌, true,
  false, List, [], ◌∷◌, ◌++◌, ltb, ◌==◌, ==_iff, if◌then◌else◌, length, arith,
}
use reflgen_cpp.Common.Bits.{bit_or-high_low, bit_and-ones, below, below→}
use reflgen_cpp.Common.Outcome.{ok}
use reflgen_cpp.Serial.Utf.{
  append_utf8, decode_utf8, is_surrogate, lead_of, continue_utf8, check_code_point,
}

-- A Unicode scalar value.
pub record IsScalar (c : ℕ) : Type 0 where
  pub in_range : c ≤ 0x10FFFF
  pub no_surrogate : is_surrogate c ≡ false

-- The bytes of a scalar value.
abbrev pub utf8 : ℕ → List ℕ
utf8 c =
    if ltb c 0x80
    then c ∷ []
    else if ltb c 0x800
    then (0xC0 + c / 64) ∷ (0x80 + c % 64) ∷ []
    else if ltb c 0x10000
    then (0xE0 + c / 4096) ∷ (0x80 + c / 64 % 64) ∷ (0x80 + c % 64) ∷ []
    else (0xF0 + c / 262144) ∷ (0x80 + c / 4096 % 64) ∷ (0x80 + c / 64 % 64) ∷ (0x80 + c % 64) ∷ []

low_six : (n : ℕ) → bit_and n 0x3F ≡ n % 64
low_six n = bit_and-ones 6 n

trail : (n : ℕ) → bit_or 0x80 (bit_and n 0x3F) % 256 ≡ 0x80 + n % 64
trail n = omega (arith, low_six n, bit_or-high_low 6 2 (bit_and n 0x3F) (omega (arith, low_six n)))

-- `append_utf8` of a scalar value appends its UTF-8 encoding.
pub append_utf8-utf8 : (out : List ℕ) (c : ℕ) → IsScalar c → append_utf8 out c ≡ ok (out ++ utf8 c)
unfolding append_utf8
append_utf8-utf8 out c h = ground (
  arith,
  trail c,
  trail (c / 64),
  trail (c / 4096),
  bit_or-high_low 6 3 (c / 64),
  bit_or-high_low 5 7 (c / 4096),
  bit_or-high_low 4 15 (c / 262144),
)

table_E0 : below 256 (λ b. bit_and b 0xE0 == b / 32 * 32) ≡ true
unfolding below
table_E0 = refl

table_F0 : below 256 (λ b. bit_and b 0xF0 == b / 16 * 16) ≡ true
unfolding below
table_F0 = refl

table_F8 : below 256 (λ b. bit_and b 0xF8 == b / 8 * 8) ≡ true
unfolding below
table_F8 = refl

table_C0 : below 256 (λ b. bit_and b 0xC0 == b / 64 * 64) ≡ true
unfolding below
table_C0 = refl

pub high_three : (b : ℕ) → b < 256 → bit_and b 0xE0 ≡ b / 32 * 32
high_three b h = (==_iff _ _).0 (below→ 256 _ b table_E0 h)

pub high_four : (b : ℕ) → b < 256 → bit_and b 0xF0 ≡ b / 16 * 16
high_four b h = (==_iff _ _).0 (below→ 256 _ b table_F0 h)

pub high_five : (b : ℕ) → b < 256 → bit_and b 0xF8 ≡ b / 8 * 8
high_five b h = (==_iff _ _).0 (below→ 256 _ b table_F8 h)

pub high_two : (b : ℕ) → b < 256 → bit_and b 0xC0 ≡ b / 64 * 64
high_two b h = (==_iff _ _).0 (below→ 256 _ b table_C0 h)

-- One round over a continuation byte `0x80 + d`.
pub continue_round :
    (n c d : ℕ) (rest : List ℕ)
    → d < 64
    → c < 2 ^ 26
    → continue_utf8 (suc n) c ((0x80 + d) ∷ rest) ≡ continue_utf8 n (c * 64 + d) rest
continue_round n c d rest hd hc =
    ground (arith, high_two (0x80 + d), low_six (0x80 + d), bit_or-high_low 6 c d)

pub lead_two :
    (d : ℕ)
    → d < 32
    → lead_of (0xC0 + d) ≡ ok (record { continuations = 1; bits = d; minimum = 0x80 })
lead_two d h = ground (arith, high_three (0xC0 + d), bit_and-ones 5 (0xC0 + d))

pub lead_three :
    (d : ℕ)
    → d < 16
    → lead_of (0xE0 + d) ≡ ok (record { continuations = 2; bits = d; minimum = 0x800 })
lead_three d h =
    ground (arith, high_three (0xE0 + d), high_four (0xE0 + d), bit_and-ones 4 (0xE0 + d))

pub lead_four :
    (d : ℕ)
    → d < 8
    → lead_of (0xF0 + d) ≡ ok (record { continuations = 3; bits = d; minimum = 0x10000 })
lead_four d h = ground (
  arith,
  high_three (0xF0 + d),
  high_four (0xF0 + d),
  high_five (0xF0 + d),
  bit_and-ones 3 (0xF0 + d),
)

pub decode_two :
    (a b : ℕ) (rest : List ℕ)
    → a < 32
    → b < 64
    → decode_utf8 ((0xC0 + a) ∷ (0x80 + b) ∷ rest) ≡ check_code_point 0x80 (a * 64 + b, rest)
unfolding decode_utf8
decode_two a b rest ha hb =
    let e : ltb (0xC0 + a) 0x80 ≡ false = ground arith in
    let e' : ltb (suc (length rest)) 1 ≡ false = ground arith in
    rw (e, lead_two a ha, e', continue_round 0 a b rest hb (omega arith))

pub decode_three :
    (a b c : ℕ) (rest : List ℕ)
    → a < 16
    → b < 64
    → c < 64
    → decode_utf8 ((0xE0 + a) ∷ (0x80 + b) ∷ (0x80 + c) ∷ rest)
      ≡ check_code_point 0x800 ((a * 64 + b) * 64 + c, rest)
unfolding decode_utf8
decode_three a b c rest ha hb hc =
    let e : ltb (0xE0 + a) 0x80 ≡ false = ground arith in
    let e' : ltb (suc (suc (length rest))) 2 ≡ false = ground arith in
    rw (
      e,
      lead_three a ha,
      e',
      continue_round 1 a b ((0x80 + c) ∷ rest) hb (omega arith),
      continue_round 0 (a * 64 + b) c rest hc (omega arith),
    )

pub decode_four :
    (a b c d : ℕ) (rest : List ℕ)
    → a < 8
    → b < 64
    → c < 64
    → d < 64
    → decode_utf8 ((0xF0 + a) ∷ (0x80 + b) ∷ (0x80 + c) ∷ (0x80 + d) ∷ rest)
      ≡ check_code_point 0x10000 (((a * 64 + b) * 64 + c) * 64 + d, rest)
unfolding decode_utf8
decode_four a b c d rest ha hb hc hd =
    let e : ltb (0xF0 + a) 0x80 ≡ false = ground arith in
    let e' : ltb (suc (suc (suc (length rest)))) 3 ≡ false = ground arith in
    rw (
      e,
      lead_four a ha,
      e',
      continue_round 2 a b ((0x80 + c) ∷ (0x80 + d) ∷ rest) hb (omega arith),
      continue_round 1 (a * 64 + b) c ((0x80 + d) ∷ rest) hc (omega arith),
      continue_round 0 ((a * 64 + b) * 64 + c) d rest hd (omega arith),
    )

check_passes :
    (m c k : ℕ) (rest : List ℕ)
    → IsScalar c
    → m ≤ c
    → k ≡ c
    → check_code_point m (k, rest) ≡ ok (c, rest)
check_passes m c k rest h hm e =
    let low : ltb c m ≡ false = ground arith in
    let high : ltb 0x10FFFF c ≡ false = ground arith in rw (e, low, high, h.no_surrogate)

-- The four lengths of an encoding.
utf8_cases :
    (c : ℕ)
    → ((c < 0x80) × (utf8 c ≡ c ∷ []))
      ⊎ ((0x80 ≤ c) × (c < 0x800) × (utf8 c ≡ (0xC0 + c / 64) ∷ (0x80 + c % 64) ∷ []))
      ⊎ ((0x800 ≤ c)
          × (c < 0x10000)
          × (utf8 c ≡ (0xE0 + c / 4096) ∷ (0x80 + c / 64 % 64) ∷ (0x80 + c % 64) ∷ []))
      ⊎ ((0x10000 ≤ c)
          × (utf8 c
              ≡ (0xF0 + c / 262144)
                ∷ (0x80 + c / 4096 % 64)
                ∷ (0x80 + c / 64 % 64)
                ∷ (0x80 + c % 64)
                ∷ []))
utf8_cases c = ground arith

-- `decode_utf8` reads the UTF-8 encoding of a scalar value as that value, whatever follows, and leaves
-- what follows.
pub decode_utf8-utf8 :
    (c : ℕ) (rest : List ℕ) → IsScalar c → decode_utf8 (utf8 c ++ rest) ≡ ok (c, rest)
decode_utf8-utf8 c rest h = elim (utf8_cases c) [
  | inl (lo, e) ↦ rw e (unfold decode_utf8 in ground arith)
  | inr (inl (lo, hi, e)) ↦ rw e (
      decode_two (c / 64) (c % 64) rest (omega arith) (omega arith)
      ∙ check_passes 0x80 c (c / 64 * 64 + c % 64) rest h lo (omega arith))
  | inr (inr (inl (lo, hi, e))) ↦ rw e (
      decode_three (c / 4096) (c / 64 % 64) (c % 64) rest (omega arith) (omega arith) (omega arith)
      ∙ check_passes 0x800 c ((c / 4096 * 64 + c / 64 % 64) * 64 + c % 64) rest h lo (omega arith))
  | inr (inr (inr (lo, e))) ↦ rw e (
      decode_four (c / 262144) (c / 4096 % 64) (c / 64 % 64) (c % 64) rest
        (let r = h.in_range in omega arith) (omega arith) (omega arith) (omega arith)
      ∙ check_passes 0x10000 c
          (((c / 262144 * 64 + c / 4096 % 64) * 64 + c / 64 % 64) * 64 + c % 64) rest h lo
          (omega arith))
]
