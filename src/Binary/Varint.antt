-- ===== src/Binary/Varint.antt =====
-- The LEB128 numbers of include/reflgen/binary/writer.h (`put_varint`) and reader.h (`take_varint`).
use reflgen_cpp.Common.{
  ℕ, zero, suc, ◌+◌, ◌*◌, ◌/◌, ◌%◌, ◌^◌, ◌≤◌, ◌<◌, bit_and, bit_or, ◌≡◌, refl, ap, ◌∙◌, true, inl,
  inr, List, [], ◌∷◌, ◌++◌, append_assoc, ltb, ◌==◌, ==_iff, if◌then◌else◌, length, All, Bool-cases,
  ltb→lt, arith,
}
use reflgen_cpp.Common.Bits.{bit_and-ones, bit_or-low_high, below, below→}
use reflgen_cpp.Common.Outcome.{ok}
use reflgen_cpp.Common.Order.{lt_wf}
use reflgen_cpp.Binary.Wire.{IsByte, IsU64}
use reflgen_cpp.Binary.Writer.{Writer, varint_loop, put_varint}
use reflgen_cpp.Binary.Reader.{Frame, at, take_varint_loop, take_varint}
use mathlib.Core.WellFounded.{Acc}
use native.Mathlib.Nat.{div-add-mod}
use native.Mathlib.Numerals.{towards_suc}

-- The groups of seven bits of `v`, lowest first, all but the last with 128 added, for `v` below
-- 128 ^ (k + 1).
unfoldable pub groups : ℕ → ℕ → List ℕ
groups zero v = v ∷ []
groups (suc k) v =
    let later = groups k (v / 128) in if ltb v 128 then v ∷ [] else (v % 128 + 128) ∷ later

-- The encoding of a uint64.
abbrev pub leb128 : ℕ → List ℕ
leb128 v = groups 9 v

pub low_seven : (v : ℕ) → bit_and v 0x7f ≡ v % 128
low_seven v = bit_and-ones 7 v

with_top_bit : (v : ℕ) → bit_or (bit_and v 0x7f) 0x80 % 256 ≡ v % 128 + 128
with_top_bit v =
    omega (arith, low_seven v, bit_or-low_high 7 1 (bit_and v 0x7f) (omega (arith, low_seven v)))

top_bit_table : below 256 (λ b. bit_and b 0x80 == b / 128 * 128) ≡ true
unfolding below
top_bit_table = refl

pub top_bit : (b : ℕ) → b < 256 → bit_and b 0x80 ≡ b / 128 * 128
top_bit b h = (==_iff _ _).0 (below→ 256 _ b top_bit_table h)

varint_loop-groups :
    (k : ℕ) (out : List ℕ) (v : ℕ) (w : Acc ◌<◌ v)
    → v < 128 ^ suc k
    → varint_loop out v w ≡ out ++ groups k v
unfolding varint_loop groups
varint_loop-groups zero out v (Acc.intro _ smaller) h = grind arith
varint_loop-groups (suc k) out v (Acc.intro _ smaller) h =
    let head : List ℕ = (v % 128 + 128) ∷ [] in
    grind (
      arith,
      with_top_bit v,
      λ (w : Acc ◌<◌ (v / 128)). varint_loop-groups k (out ++ head) (v / 128) w (omega arith),
      append_assoc out head (groups k (v / 128)),
    )

-- `put_varint` of a uint64 appends its LEB128 encoding to the output and changes nothing else.
pub put_varint-leb128 :
    (v : ℕ) (w : Writer)
    → IsU64 v
    → put_varint v w ≡ ok (tt, record w { output = w.output ++ leb128 v })
unfolding put_varint
put_varint-leb128 v w h = rw (varint_loop-groups 9 w.output v (lt_wf.apply v) (omega arith))

pub groups-IsByte : (k v : ℕ) → v < 128 ^ suc k → All IsByte (groups k v)
unfolding groups
groups-IsByte zero v h = omega arith
groups-IsByte (suc k) v h = ground (arith, groups-IsByte k (v / 128) (omega arith))

pub length-groups : (k v : ℕ) → (1 ≤ length (groups k v)) × (length (groups k v) ≤ k + 1)
unfolding groups
length-groups zero v = omega arith
length-groups (suc k) v = ground (arith, length-groups k (v / 128))

-- One round of the loop on a last byte.
last_round :
    (n b shift value p d : ℕ) (rest : List ℕ) (st : List Frame)
    → b < 128
    → value < 2 ^ shift
    → value + b * 2 ^ shift < 2 ^ 64
    → take_varint_loop (suc n) shift value (at p (b ∷ rest) d st)
      ≡ ok (value + b * 2 ^ shift, at (p + 1) rest d st)
unfolding take_varint_loop
last_round n b shift value p d rest st hb hv fits =
    ground (arith, low_seven b, top_bit b, bit_or-low_high shift b value)

inner_round :
    (n g shift value p d : ℕ) (rest : List ℕ) (st : List Frame)
    → g < 128
    → shift < 63
    → value < 2 ^ shift
    → value + g * 2 ^ shift < 2 ^ 64
    → take_varint_loop (suc n) shift value (at p ((g + 128) ∷ rest) d st)
      ≡ take_varint_loop n (shift + 7) (value + g * 2 ^ shift) (at (p + 1) rest d st)
unfolding take_varint_loop
inner_round n g shift value p d rest st hg hs hv fits =
    ground (arith, low_seven (g + 128), top_bit (g + 128), bit_or-low_high shift g value)

pub shift_seven : (j : ℕ) → 2 ^ j * 128 ≡ 2 ^ (j + 7)
shift_seven j = simp towards_suc (omega arith)

-- The seven low bits of a number that stands at bit `j`, beside the bits above them.
regroup : (j n : ℕ) → n % 128 * 2 ^ j + n / 128 * 2 ^ (j + 7) ≡ n * 2 ^ j
regroup j n =
    let above = ap (λ (unit : ℕ). n / 128 * unit) (shift_seven j) in
    let both = ap (λ (whole : ℕ). whole * 2 ^ j) (div-add-mod n 128) in omega (above, both, arith)

pub group_fits : (g s : ℕ) → g < 128 → g * 2 ^ s + 2 ^ s ≤ 128 * 2 ^ s
group_fits g s h = grind arith

-- `w` is what is still to be read, counted from bit `shift` on.
take_varint_loop-groups :
    (k n w shift value p d : ℕ) (rest : List ℕ) (st : List Frame)
    → k < n
    → shift + 7 * k ≤ 63
    → w < 128 ^ suc k
    → value < 2 ^ shift
    → value + w * 2 ^ shift < 2 ^ 64
    → take_varint_loop n shift value (at p (groups k w ++ rest) d st)
      ≡ ok (value + w * 2 ^ shift, at (p + length (groups k w)) rest d st)
unfolding groups
take_varint_loop-groups k zero w shift value p d rest st hk hs hw hv fits = absurd (omega arith)
take_varint_loop-groups zero (suc n) w shift value p d rest st hk hs hw hv fits =
    last_round n w shift value p d rest st (omega arith) hv fits
take_varint_loop-groups (suc k) (suc n) w shift value p d rest st hk hs hw hv fits =
    let value' : ℕ = value + w % 128 * 2 ^ shift in
    let later =
      take_varint_loop-groups k n (w / 128) (shift + 7) value' (p + 1) d rest st (omega arith)
        (omega arith) (omega arith)
        (omega (arith, shift_seven shift, group_fits (w % 128) shift (omega arith)))
        (omega (arith, regroup shift w)) in
    elim (Bool-cases (ltb w 128)) [
      | inl e ↦ rw e (last_round n w shift value p d rest st (ltb→lt w 128 e) hv fits)
      | inr e ↦ rw e (
          inner_round n (w % 128) shift value p d _ st (omega arith) (omega arith) hv
            (omega (arith, regroup shift w))
          ∙ later
          ∙ ground (arith, regroup shift w))
    ]

-- `take_varint` reads the LEB128 encoding of a uint64 off the front of any input, and leaves the input
-- behind it and the open containers as they were.
pub take_varint-leb128 :
    (v p d : ℕ) (rest : List ℕ) (st : List Frame)
    → IsU64 v
    → take_varint (at p (leb128 v ++ rest) d st) ≡ ok (v, at (p + length (leb128 v)) rest d st)
unfolding take_varint
take_varint-leb128 v p d rest st h = ground (arith, take_varint_loop-groups 9 10 v 0 0 p d rest st)
