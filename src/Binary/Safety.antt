-- ===== src/Binary/Safety.antt =====
-- include/reflgen/binary/reader.h on any input, well formed or not.
use reflgen_cpp.Common.{
  ℕ, zero, suc, ◌+◌, ◌*◌, ◌%◌, ◌^◌, ◌≤◌, ◌<◌, bit_and, bit_or, ◌≡◌, false, ◌&&◌, inl, inr, List, [],
  ◌∷◌, ltb, ◌==◌, if◌then◌else◌, length, Bool-cases, arith,
}
use reflgen_cpp.Common.Bits.{bit_or-low_high}
use reflgen_cpp.Binary.Varint.{low_seven, shift_seven, group_fits}
use native.Mathlib.Nat.{pow-le-pow_right}
use reflgen_cpp.Common.Outcome.{ok, Ensures, Ensures-map}
use reflgen_cpp.Binary.Wire.{IsU64}
use reflgen_cpp.Binary.Reader.{Reader, Frame, at, fail_at, peek_tag, take_tag, take_varint_loop}

-- `t` stands at least `n` bytes further than `s` in the same input, with the same containers open.
pub record Moves (n : ℕ) (s t : Reader) : Type 0 where
  pub same_input : t.position + length t.rest ≡ s.position + length s.rest
  pub further : length t.rest + n ≤ length s.rest
  pub same_depth : t.max_depth ≡ s.max_depth
  pub same_stack : t.stack ≡ s.stack

pub peek_tag-Ensures : (s : Reader) → Ensures (λ (v, t). (t ≡ s) × (1 ≤ length s.rest)) (peek_tag s)
unfolding peek_tag
peek_tag-Ensures s = ground arith

pub take_tag-Ensures : (s : Reader) → Ensures (λ (v, t). Moves 1 s t) (take_tag s)
unfolding take_tag peek_tag
take_tag-Ensures s = ground arith

-- One round keeps the bits read so far below bit `shift + 7`, and all of them in a uint64.
round_fits :
    (n shift value b : ℕ)
    → shift + 7 * suc n ≡ 70
    → value < 2 ^ shift
    → (shift == 63 && ltb 1 b) ≡ false
    → (bit_or value (bit_and b 0x7f * 2 ^ shift % 2 ^ 64) < 2 ^ (shift + 7))
      × IsU64 (bit_or value (bit_and b 0x7f * 2 ^ shift % 2 ^ 64))
round_fits zero shift value b hs hv ht =
    let e : shift ≡ 63 = omega arith in
    let hb : b ≤ 1 = ground arith in
    rw e (ground (arith, low_seven b, bit_or-low_high 63 (b % 128) value))
round_fits (suc n) shift value b hs hv ht = ground (
  arith,
  low_seven b,
  bit_or-low_high shift (b % 128) value,
  shift_seven shift,
  group_fits (b % 128) shift,
  pow-le-pow_right {n = 2} (omega arith) {i = shift + 7} {j = 63} (omega arith),
)

-- One round before a byte `b`.
take_varint_loop_round :
    (n shift value p b : ℕ) (rest : List ℕ) (d : ℕ) (st : List Frame)
    → let value' = bit_or value (bit_and b 0x7f * 2 ^ shift % 2 ^ 64) in
      take_varint_loop (suc n) shift value (at p (b ∷ rest) d st) ≡ (
        if shift == 63 && ltb 1 b
        then fail_at (p + 1) "varint overflows 64 bits"
        else if bit_and b 0x80 == 0
        then ok (value', at (p + 1) rest d st)
        else take_varint_loop n (shift + 7) value' (at (p + 1) rest d st))
unfolding take_varint_loop
take_varint_loop_round n shift value p b rest d st = ground arith

pub take_varint_loop-Ensures :
    (n shift value p : ℕ) (rest : List ℕ) (d : ℕ) (st : List Frame)
    → shift + 7 * n ≡ 70
    → value < 2 ^ shift
    → Ensures
        (λ (v, t). IsU64 v × Moves 1 (at p rest d st) t)
        (take_varint_loop n shift value (at p rest d st))
take_varint_loop-Ensures zero shift value p rest d st hs hv = unfold take_varint_loop in tt
take_varint_loop-Ensures (suc n) shift value p [] d st hs hv = unfold take_varint_loop in tt
take_varint_loop-Ensures (suc n) shift value p (b ∷ rest) d st hs hv =
    let value' : ℕ = bit_or value (bit_and b 0x7f * 2 ^ shift % 2 ^ 64) in
    rw take_varint_loop_round (elim (Bool-cases (shift == 63 && ltb 1 b)) [
      | inl e ↦ rw e tt
      | inr e ↦
          let fits = round_fits n shift value b hs hv e in
          rw e (elim (Bool-cases (bit_and b 0x80 == 0)) [
            | inl last ↦ rw last (fits.1, ground arith)
            | inr more ↦ rw more (
                Ensures-map _ _ (take_varint_loop n (shift + 7) value' (at (p + 1) rest d st))
                  (λ (v, t) (u, m). (u, ground arith))
                  (take_varint_loop-Ensures n (shift + 7) value' (p + 1) rest d st (omega arith)
                    fits.0))
          ])
    ])
