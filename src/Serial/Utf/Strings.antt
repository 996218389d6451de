-- ===== src/Serial/Utf/Strings.antt =====
-- The conversions of whole strings in include/reflgen/serial/detail/utf.h.
use reflgen_cpp.Common.{
  ℕ, zero, suc, ◌+◌, ◌-◌, ◌*◌, ◌/◌, ◌%◌, ◌^◌, ◌≤◌, ◌<◌, ◌≡◌, refl, ◌⊎◌, inl, inr, ◌∙◌, ap, true,
  false, ◌&&◌, ◌||◌, List, [], ◌∷◌, ◌++◌, append_assoc, append-nil, length-append, ltb, leb, length,
  arith, All, Bool-cases,
}
use mathlib.Core.Path.{subst}
use mathlib.Core.Logic.{◌↔◌, ◌≢◌}
use reflgen_cpp.Common.Bits.{bit_and-ones}
use reflgen_cpp.Common.Outcome.{
  ok, fault, out_of_fuel, bind, Ensures, Ensures-bind, Ensures-map, Ensures-ok, Ensures-ne-fault,
  Ensures-ne-out_of_fuel,
}
use reflgen_cpp.Serial.Utf.{
  decode_utf8, validate_utf8, validate_utf8_loop, to_utf8_16, to_utf8_32, units_16, units_32,
  from_utf8, from_utf8_loop,
}
use reflgen_cpp.Serial.Utf.Encoding.{IsScalar, utf8, append_utf8-utf8, decode_utf8-utf8}
use reflgen_cpp.Serial.Utf.Decoding.{IsByte, decode_utf8-Ensures}

-- Code points as UTF-8, and as units of another width.
abbrev pub flat : (ℕ → List ℕ) → List ℕ → List ℕ
flat f [] = []
flat f (c ∷ cs) = f c ++ flat f cs

pub length-utf8_pos : (c : ℕ) → 1 ≤ length (utf8 c)
length-utf8_pos c = ground arith

-- A round of a loop that decodes needs a byte to be there.
from_round :
    (units : ℕ → List ℕ) (fuel : ℕ) (result : List ℕ) (c : ℕ) (rest : List ℕ)
    → IsScalar c
    → from_utf8_loop units (suc fuel) result (utf8 c ++ rest)
      ≡ from_utf8_loop units fuel (result ++ units c) rest
from_round units fuel result c rest h = go (utf8 c ++ rest) refl
  where
    go :
        (text : List ℕ)
        → utf8 c ++ rest ≡ text
        → from_utf8_loop units (suc fuel) result text
          ≡ from_utf8_loop units fuel (result ++ units c) rest
    go [] e = absurd (omega (arith, ap length e, length-append (utf8 c) rest, length-utf8_pos c))
    go (b ∷ bs) e = unfold from_utf8_loop in rw (← e, decode_utf8-utf8 c rest h)

from_utf8_loop-flat :
    (units : ℕ → List ℕ) (cs : List ℕ) (fuel : ℕ) (result : List ℕ)
    → All IsScalar cs
    → length (flat utf8 cs) ≤ fuel
    → from_utf8_loop units fuel result (flat utf8 cs) ≡ ok (result ++ flat units cs)
from_utf8_loop-flat units [] fuel result h hf = unfold from_utf8_loop in rw append-nil
from_utf8_loop-flat units (c ∷ cs) zero result h hf =
    absurd (omega (arith, length-append (utf8 c) (flat utf8 cs), length-utf8_pos c))
from_utf8_loop-flat units (c ∷ cs) (suc fuel) result (h, hs) hf =
    from_round units fuel result c (flat utf8 cs) h
    ∙ from_utf8_loop-flat units cs fuel (result ++ units c) hs
        (omega (arith, length-append (utf8 c) (flat utf8 cs), length-utf8_pos c))
    ∙ rw append_assoc

-- `from_utf8` of the UTF-8 encoding of scalar values writes the units of each in turn.
pub from_utf8-flat :
    (units : ℕ → List ℕ) (cs : List ℕ)
    → All IsScalar cs
    → from_utf8 units (flat utf8 cs) ≡ ok (flat units cs)
unfolding from_utf8
from_utf8-flat units cs h = from_utf8_loop-flat units cs (length (flat utf8 cs)) [] h (omega arith)

to_utf8_32-flat : (cs out : List ℕ) → All IsScalar cs → to_utf8_32 out cs ≡ ok (out ++ flat utf8 cs)
unfolding to_utf8_32
to_utf8_32-flat [] out h = rw append-nil
to_utf8_32-flat (c ∷ cs) out (h, hs) =
    rw (append_utf8-utf8 out c h) (to_utf8_32-flat cs (out ++ utf8 c) hs ∙ rw append_assoc)

no_high_surrogate : (c : ℕ) → IsScalar c → (leb 0xD800 c && leb c 0xDBFF) ≡ false
no_high_surrogate c h = let e = h.no_surrogate in ground arith

-- One code point of a char16_t string, in one unit or in two.
single_round :
    (c : ℕ) (rest out : List ℕ)
    → IsScalar c
    → to_utf8_16 out (c ∷ rest) ≡ to_utf8_16 (out ++ utf8 c) rest
unfolding to_utf8_16
single_round c [] out h = rw (no_high_surrogate c h, append_utf8-utf8 out c h)
single_round c (low ∷ rest) out h = rw (no_high_surrogate c h, append_utf8-utf8 out c h)

pair_round :
    (c hi lo : ℕ) (rest out : List ℕ)
    → IsScalar c
    → hi < 0x400
    → lo < 0x400
    → c ≡ 0x10000 + hi * 2 ^ 10 + lo
    → to_utf8_16 out ((0xD800 + hi) ∷ (0xDC00 + lo) ∷ rest) ≡ to_utf8_16 (out ++ utf8 c) rest
unfolding to_utf8_16
pair_round c hi lo rest out h hhi hlo e =
    let high : (leb 0xD800 (0xD800 + hi) && leb (0xD800 + hi) 0xDBFF) ≡ true = ground arith in
    let low : (ltb (0xDC00 + lo) 0xDC00 || ltb 0xDFFF (0xDC00 + lo)) ≡ false = ground arith in
    let value : 0x10000 + (0xD800 + hi - 0xD800) * 2 ^ 10 + (0xDC00 + lo - 0xDC00) ≡ c =
      omega arith in
    rw (high, low, value, append_utf8-utf8 out c h)

units_16_cases :
    (c : ℕ)
    → IsScalar c
    → (units_16 c ≡ c ∷ [])
      ⊎ ((hi : ℕ) × (lo : ℕ) × (hi < 0x400)
          × (lo < 0x400)
          × (c ≡ 0x10000 + hi * 2 ^ 10 + lo)
          × (units_16 c ≡ (0xD800 + hi) ∷ (0xDC00 + lo) ∷ []))
units_16_cases c h = elim (Bool-cases (leb 0x10000 c)) [
  | inl e ↦
      let r = h.in_range in
      let k : ℕ = c - 0x10000 in
      inr (
        k / 2 ^ 10,
        k % 2 ^ 10,
        ground arith,
        ground arith,
        ground arith,
        rw (e, bit_and-ones 10 (c - 0x10000)) (ground arith),
      )
  | inr e ↦ inl (ground arith)
]

to_utf8_16_round :
    (c : ℕ) (rest out : List ℕ)
    → IsScalar c
    → to_utf8_16 out (units_16 c ++ rest) ≡ to_utf8_16 (out ++ utf8 c) rest
to_utf8_16_round c rest out h = elim (units_16_cases c h) [
  | inl e ↦ rw e (single_round c rest out h)
  | inr (hi, lo, hhi, hlo, ec, e) ↦ rw e (pair_round c hi lo rest out h hhi hlo ec)
]

to_utf8_16-flat :
    (cs out : List ℕ)
    → All IsScalar cs
    → to_utf8_16 out (flat units_16 cs) ≡ ok (out ++ flat utf8 cs)
to_utf8_16-flat [] out h = unfold to_utf8_16 in rw append-nil
to_utf8_16-flat (c ∷ cs) out (h, hs) =
    to_utf8_16_round c (flat units_16 cs) out h
    ∙ to_utf8_16-flat cs (out ++ utf8 c) hs
    ∙ rw append_assoc

-- The UTF-8 encoding of any scalar values, taken to char16_t units by `from_utf8` and back by
-- `to_utf8`, comes out as it was, and so it does by way of char32_t units.
pub to_utf8-from_utf8 :
    (cs : List ℕ)
    → All IsScalar cs
    → (bind (from_utf8 units_16 (flat utf8 cs)) (to_utf8_16 []) ≡ ok (flat utf8 cs))
      × (bind (from_utf8 units_32 (flat utf8 cs)) (to_utf8_32 []) ≡ ok (flat utf8 cs))
to_utf8-from_utf8 cs h = (
  rw (from_utf8-flat units_16 cs h) (to_utf8_16-flat cs [] h),
  rw (from_utf8-flat units_32 cs h, flat_32 cs) (to_utf8_32-flat cs [] h),
)
  where
    flat_32 : (xs : List ℕ) → flat units_32 xs ≡ xs
    flat_32 [] = refl
    flat_32 (x ∷ xs) = ap (λ t. x ∷ t) (flat_32 xs)

-- The scalar values of a text.
abbrev Decodes : List ℕ → Unit {0} → Type 0
Decodes text _ = (cs : List ℕ) × All IsScalar cs × (text ≡ flat utf8 cs)

validate_loop-Ensures :
    (fuel : ℕ) (text : List ℕ)
    → All IsByte text
    → length text ≤ fuel
    → Ensures (Decodes text) (validate_utf8_loop fuel text)
unfolding validate_utf8_loop
validate_loop-Ensures fuel [] h hf = ([], tt, refl)
validate_loop-Ensures zero (b ∷ bs) h hf = absurd (omega arith)
validate_loop-Ensures (suc fuel) (b ∷ bs) h hf =
    Ensures-bind (λ (c, r). IsScalar c × (b ∷ bs ≡ utf8 c ++ r)) _ (decode_utf8 (b ∷ bs)) _
      (decode_utf8-Ensures b bs h)
      λ (c, r) (hc, e).
        Ensures-map (Decodes r) _ (validate_utf8_loop fuel r)
          (λ _ (cs, hs, e'). (c ∷ cs, (hc, hs), e ∙ ap (λ t. utf8 c ++ t) e'))
          (validate_loop-Ensures fuel r (All-suffix (utf8 c) r (subst (All IsByte) e h))
            (omega (arith, ap length e, length-append (utf8 c) r, length-utf8_pos c)))
  where
    All-suffix : (xs ys : List ℕ) → All IsByte (xs ++ ys) → All IsByte ys
    All-suffix [] ys k = k
    All-suffix (x ∷ xs) ys (_, k) = All-suffix xs ys k

pub validate_loop-flat :
    (cs : List ℕ) (fuel : ℕ)
    → All IsScalar cs
    → length (flat utf8 cs) ≤ fuel
    → validate_utf8_loop fuel (flat utf8 cs) ≡ ok tt
validate_loop-flat [] fuel h hf = unfold validate_utf8_loop in refl
validate_loop-flat (c ∷ cs) zero h hf =
    absurd (omega (arith, length-append (utf8 c) (flat utf8 cs), length-utf8_pos c))
validate_loop-flat (c ∷ cs) (suc fuel) (h, hs) hf =
    round (utf8 c ++ flat utf8 cs) refl
    ∙ validate_loop-flat cs fuel hs
        (omega (arith, length-append (utf8 c) (flat utf8 cs), length-utf8_pos c))
  where
    round :
        (text : List ℕ)
        → utf8 c ++ flat utf8 cs ≡ text
        → validate_utf8_loop (suc fuel) text ≡ validate_utf8_loop fuel (flat utf8 cs)
    round [] e =
        absurd
          (omega (arith, ap length e, length-append (utf8 c) (flat utf8 cs), length-utf8_pos c))
    round (b ∷ bs) e = unfold validate_utf8_loop in rw (← e, decode_utf8-utf8 c (flat utf8 cs) h)

-- `validate_utf8` runs to its end on every text of bytes, and it passes exactly the texts that are
-- the UTF-8 encoding of scalar values.
pub validate_utf8_iff :
    (text : List ℕ)
    → All IsByte text
    → ((validate_utf8 text ≡ ok tt) ↔ ((cs : List ℕ) × All IsScalar cs × (text ≡ flat utf8 cs)))
      × (validate_utf8 text ≢ out_of_fuel)
      × (validate_utf8 text ≢ fault)
unfolding validate_utf8
validate_utf8_iff text h =
    let runs = validate_loop-Ensures (length text) text h (omega arith) in
    let m = validate_utf8_loop (length text) text in
    (
      (
        Ensures-ok (Decodes text) m runs tt,
        λ (cs, hs, e). rw e (validate_loop-flat cs (length (flat utf8 cs)) hs (omega arith)),
      ),
      Ensures-ne-out_of_fuel (Decodes text) m runs,
      Ensures-ne-fault (Decodes text) m runs,
    )
