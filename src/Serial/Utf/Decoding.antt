-- ===== src/Serial/Utf/Decoding.antt =====
-- `decode_utf8` of include/reflgen/serial/detail/utf.h on any bytes: what it accepts is well-formed UTF-8.
use reflgen_cpp.Common.{
  ℕ, suc, ◌+◌, ◌-◌, ◌*◌, ◌/◌, ◌≤◌, ◌<◌, bit_and, ◌≡◌, ◌⊎◌, inl, inr, ◌∙◌, false, ◌||◌, List, [],
  ◌∷◌, ◌++◌, ltb, ◌==◌, ==_iff, length, arith, All, Bool-cases,
}
use reflgen_cpp.Common.Outcome.{ok, throw, Ensures}
use reflgen_cpp.Serial.Utf.{
  decode_utf8, is_surrogate, lead_of, Lead, continue_utf8, decode_long, check_code_point,
}
use reflgen_cpp.Serial.Utf.Encoding.{
  IsScalar, utf8, high_two, high_three, high_four, high_five, lead_two, lead_three, lead_four,
  continue_round,
}

abbrev pub IsByte : ℕ → Type 0
IsByte b = b < 256

-- A byte is a continuation byte or is refused as one.
trail_cases :
    (b : ℕ) → IsByte b → ((d : ℕ) × (d < 64) × (b ≡ 0x80 + d)) ⊎ ((bit_and b 0xC0 == 0x80) ≡ false)
trail_cases b h = elim (Bool-cases (bit_and b 0xC0 == 0x80)) [
  | inl e ↦
      let e' : bit_and b 0xC0 ≡ 0x80 = (==_iff _ _).0 e in
      inl (b - 0x80, omega (arith, high_two b h), omega (arith, high_two b h))
  | inr e ↦ inr e
]

continue_refused :
    (n c b : ℕ) (rest : List ℕ)
    → (bit_and b 0xC0 == 0x80) ≡ false
    → continue_utf8 (suc n) c (b ∷ rest) ≡ throw "invalid UTF-8 continuation byte"
continue_refused n c b rest e = rw e

lead_cases :
    (b : ℕ)
    → IsByte b
    → 0x80 ≤ b
    → ((a : ℕ) × (a < 32) × (b ≡ 0xC0 + a))
      ⊎ ((a : ℕ) × (a < 16) × (b ≡ 0xE0 + a))
      ⊎ ((a : ℕ) × (a < 8) × (b ≡ 0xF0 + a))
      ⊎ (lead_of b ≡ throw "invalid UTF-8 lead byte")
lead_cases b h hi = elim (Bool-cases (b / 32 == 6)) [
  | inl e ↦ let e' : b / 32 ≡ 6 = (==_iff _ _).0 e in inl (b - 0xC0, omega arith, omega arith)
  | inr e ↦ elim (Bool-cases (b / 16 == 14)) [
    | inl e1 ↦
        let e' : b / 16 ≡ 14 = (==_iff _ _).0 e1 in inr (inl (b - 0xE0, omega arith, omega arith))
    | inr e1 ↦ elim (Bool-cases (b / 8 == 30)) [
      | inl e2 ↦
          let e' : b / 8 ≡ 30 = (==_iff _ _).0 e2 in
          inr (inr (inl (b - 0xF0, omega arith, omega arith)))
      | inr e2 ↦ inr (inr (inr (ground (arith, high_three b h, high_four b h, high_five b h))))
    ]
  ]
]

-- A scalar value was read, and its encoding is what was taken off the text.
abbrev Decoded : List ℕ → ℕ × List ℕ → Type 0
Decoded text (c, rest) = IsScalar c × (text ≡ utf8 c ++ rest)

check-Ensures :
    (m k : ℕ) (rest text : List ℕ)
    → (m ≤ k → k ≤ 0x10FFFF → text ≡ utf8 k ++ rest)
    → Ensures (Decoded text) (check_code_point m (k, rest))
check-Ensures m k rest text h = elim (Bool-cases (ltb k m || ltb 0x10FFFF k || is_surrogate k)) [
  | inl e ↦ rw e tt
  | inr e ↦
      let lo : m ≤ k = ground arith in
      let hi : k ≤ 0x10FFFF = ground arith in
      let no : is_surrogate k ≡ false = ground arith in
      rw e (record { in_range = hi; no_surrogate = no }, h lo hi)
]

utf8_two :
    (a b : ℕ) (rest : List ℕ)
    → a < 32
    → b < 64
    → 0x80 ≤ a * 64 + b
    → (0xC0 + a) ∷ (0x80 + b) ∷ rest ≡ utf8 (a * 64 + b) ++ rest
utf8_two a b rest ha hb lo = ground arith

utf8_three :
    (a b c : ℕ) (rest : List ℕ)
    → a < 16
    → b < 64
    → c < 64
    → 0x800 ≤ (a * 64 + b) * 64 + c
    → (0xE0 + a) ∷ (0x80 + b) ∷ (0x80 + c) ∷ rest ≡ utf8 ((a * 64 + b) * 64 + c) ++ rest
utf8_three a b c rest ha hb hc lo = ground arith

utf8_four :
    (a b c d : ℕ) (rest : List ℕ)
    → a < 8
    → b < 64
    → c < 64
    → d < 64
    → 0x10000 ≤ ((a * 64 + b) * 64 + c) * 64 + d
    → (0xF0 + a) ∷ (0x80 + b) ∷ (0x80 + c) ∷ (0x80 + d) ∷ rest
      ≡ utf8 (((a * 64 + b) * 64 + c) * 64 + d) ++ rest
utf8_four a b c d rest ha hb hc hd lo = ground arith

-- A long sequence with enough bytes left.
decode_step :
    (b : ℕ) (rest : List ℕ) (l : Lead)
    → 0x80 ≤ b
    → lead_of b ≡ ok l
    → decode_utf8 (b ∷ rest) ≡ decode_long l rest
unfolding decode_utf8
decode_step b rest l h e = let e' : ltb b 0x80 ≡ false = ground arith in rw (e', e)

abbrev lead : ℕ → ℕ → ℕ → Lead
lead n a m = record { continuations = n; bits = a; minimum = m }

-- A byte that is no continuation byte ends the sequence, in whichever place it stands.
two-Ensures :
    (a : ℕ) (rest text : List ℕ)
    → All IsByte rest
    → a < 32
    → text ≡ (0xC0 + a) ∷ rest
    → Ensures (Decoded text) (decode_long (lead 1 a 0x80) rest)
two-Ensures a [] text h ha et = tt
two-Ensures a (b ∷ rest) text (hb, hs) ha et =
    let enough : ltb (suc (length rest)) 1 ≡ false = ground arith in
    rw enough (elim (trail_cases b hb) [
      | inl (d, hd, e) ↦
          rw (e, continue_round 0 a d rest hd (omega arith))
            (check-Ensures 0x80 (a * 64 + d) rest text
              (λ lo hi. et ∙ rw e (utf8_two a d rest ha hd lo)))
      | inr bad ↦ rw bad tt
    ])

three-Ensures :
    (a : ℕ) (rest text : List ℕ)
    → All IsByte rest
    → a < 16
    → text ≡ (0xE0 + a) ∷ rest
    → Ensures (Decoded text) (decode_long (lead 2 a 0x800) rest)
three-Ensures a [] text h ha et = tt
three-Ensures a (b ∷ []) text h ha et = tt
three-Ensures a (b ∷ c ∷ rest) text (hb, (hc, hs)) ha et =
    let enough : ltb (suc (suc (length rest))) 2 ≡ false = ground arith in
    rw enough (elim (trail_cases b hb) [
      | inr bad ↦ rw bad tt
      | inl (d, hd, e) ↦ elim (trail_cases c hc) [
        | inr bad ↦ rw (e, continue_round 1 a d (c ∷ rest) hd (omega arith), bad) tt
        | inl (d', hd', e') ↦
            rw
              (
                e,
                e',
                continue_round 1 a d ((0x80 + d') ∷ rest) hd (omega arith),
                continue_round 0 (a * 64 + d) d' rest hd' (omega arith),
              )
              (check-Ensures 0x800 ((a * 64 + d) * 64 + d') rest text
                (λ lo hi. et ∙ rw (e, e') (utf8_three a d d' rest ha hd hd' lo)))
      ]
    ])

four-Ensures :
    (a : ℕ) (rest text : List ℕ)
    → All IsByte rest
    → a < 8
    → text ≡ (0xF0 + a) ∷ rest
    → Ensures (Decoded text) (decode_long (lead 3 a 0x10000) rest)
four-Ensures a [] text h ha et = tt
four-Ensures a (b ∷ []) text h ha et = tt
four-Ensures a (b ∷ c ∷ []) text h ha et = tt
four-Ensures a (b ∷ c ∷ d ∷ rest) text (hb, (hc, (hd, hs))) ha et =
    let enough : ltb (suc (suc (suc (length rest)))) 3 ≡ false = ground arith in
    rw enough (elim (trail_cases b hb) [
      | inr bad ↦ rw bad tt
      | inl (x, hx, ex) ↦ elim (trail_cases c hc) [
        | inr bad ↦ rw (ex, continue_round 2 a x (c ∷ d ∷ rest) hx (omega arith), bad) tt
        | inl (y, hy, ey) ↦ elim (trail_cases d hd) [
          | inr bad ↦
              rw
                (
                  ex,
                  ey,
                  continue_round 2 a x ((0x80 + y) ∷ d ∷ rest) hx (omega arith),
                  continue_round 1 (a * 64 + x) y (d ∷ rest) hy (omega arith),
                  bad,
                )
                tt
          | inl (z, hz, ez) ↦
              rw
                (
                  ex,
                  ey,
                  ez,
                  continue_round 2 a x ((0x80 + y) ∷ (0x80 + z) ∷ rest) hx (omega arith),
                  continue_round 1 (a * 64 + x) y ((0x80 + z) ∷ rest) hy (omega arith),
                  continue_round 0 ((a * 64 + x) * 64 + y) z rest hz (omega arith),
                )
                (check-Ensures 0x10000 (((a * 64 + x) * 64 + y) * 64 + z) rest text
                  (λ lo hi. et ∙ rw (ex, ey, ez) (utf8_four a x y z rest ha hx hy hz lo)))
        ]
      ]
    ])

-- `decode_utf8` before the end of a text of bytes throws, or reads a Unicode scalar value (no
-- surrogate, at most 0x10FFFF) whose only UTF-8 encoding is what it takes off the text: longer forms
-- are refused, and nothing is read past the end.
pub decode_utf8-Ensures :
    (b : ℕ) (rest : List ℕ)
    → All IsByte (b ∷ rest)
    → Ensures (λ (c, r). IsScalar c × (b ∷ rest ≡ utf8 c ++ r)) (decode_utf8 (b ∷ rest))
decode_utf8-Ensures b rest (hb, hs) = elim (Bool-cases (ltb b 0x80)) [
  | inl e ↦
      unfold decode_utf8 in
      rw e (record { in_range = ground arith; no_surrogate = ground arith }, rw e)
  | inr e ↦
      let hi : 0x80 ≤ b = ground arith in
      elim (lead_cases b hb hi) [
        | inl (a, ha, ea) ↦
            rw (decode_step b rest (lead 1 a 0x80) hi (rw ea (lead_two a ha)))
              (two-Ensures a rest (b ∷ rest) hs ha (rw ea))
        | inr (inl (a, ha, ea)) ↦
            rw (decode_step b rest (lead 2 a 0x800) hi (rw ea (lead_three a ha)))
              (three-Ensures a rest (b ∷ rest) hs ha (rw ea))
        | inr (inr (inl (a, ha, ea))) ↦
            rw (decode_step b rest (lead 3 a 0x10000) hi (rw ea (lead_four a ha)))
              (four-Ensures a rest (b ∷ rest) hs ha (rw ea))
        | inr (inr (inr bad)) ↦ unfold decode_utf8 in rw (e, bad) tt
      ]
]
