-- ===== src/Json/Base64/RoundTrip.antt =====
-- Decoding undoes encoding, for include/reflgen/json/base64.h.
use reflgen_cpp.Common.{
  ℕ, ◌+◌, ◌-◌, ◌*◌, ◌/◌, ◌%◌, ◌^◌, ◌<◌, ◌≤◌, bit_and, bit_or, ◌≡◌, refl, ap, ◌∙◌, Bool, true, false,
  not, ◌&&◌, List, [], ◌∷◌, ◌++◌, append_assoc, append-nil, Option, none, some, leb, ◌==◌, ==_iff,
  length, arith, All,
}
use reflgen_cpp.Common.Bits.{below, below→, bit_and-ones, bit_or-high_low}
use reflgen_cpp.Common.Outcome.{ok}
use native.Mathlib.Nat.{mod-eq_of_lt}
use reflgen_cpp.Json.Base64.{
  digit, base64_value, base64_encode, base64_decode, decode_groups, read_chunk, padding_of, is_last,
  chunk_bytes, shl,
}

-- The test of `base64_value` on a digit.
value_is : Option ℕ → ℕ → Bool
value_is none i = false
value_is (some v) i = v == i

digit_table : below 64 (λ i. value_is (base64_value (digit i)) i && not (digit i == b'=')) ≡ true
unfolding below digit base64_value value_is
digit_table = refl

value_is→ : (o : Option ℕ) (i : ℕ) → value_is o i ≡ true → o ≡ some i
unfolding value_is
value_is→ none i h = cc
value_is→ (some v) i h = ap some ((==_iff v i).0 h)

and_parts : (a b : Bool) → (a && b) ≡ true → (a ≡ true) × (b ≡ true)
and_parts a b h = ground arith

base64_value-digit : (i : ℕ) → i < 64 → base64_value (digit i) ≡ some i
base64_value-digit i h = value_is→ _ i (and_parts _ _ (below→ 64 _ i digit_table h)).0

digit-ne-pad : (i : ℕ) → i < 64 → (digit i == b'=') ≡ false
digit-ne-pad i h =
    let e : not (digit i == b'=') ≡ true =
      (and_parts (value_is (base64_value (digit i)) i) _ (below→ 64 _ i digit_table h)).1 in
    ground arith

sextet-lt : (chunk k : ℕ) → bit_and (chunk / 2 ^ k) 0x3F < 64
sextet-lt chunk k = omega (arith, bit_and-ones 6 (chunk / 2 ^ k))

-- One character of a group that is a digit, and one that is padding: `next` is the chunk behind it.
digit_round :
    (p j chunk i next : ℕ) (cs : List ℕ)
    → i < 64
    → chunk < 2 ^ 26
    → leb (4 - p) j ≡ false
    → next ≡ chunk * 64 + i
    → read_chunk p j chunk (digit i ∷ cs) ≡ read_chunk p (j + 1) next cs
unfolding read_chunk
digit_round p j chunk i next cs h hc e en = rw (
  e,
  base64_value-digit i h,
  mod-eq_of_lt {n = chunk * 64} {m = 2 ^ 32} (omega arith),
  bit_or-high_low 6 chunk i h,
  en,
)

pad_round :
    (p j chunk c : ℕ) (cs : List ℕ)
    → chunk < 2 ^ 26
    → leb (4 - p) j ≡ true
    → read_chunk p j chunk (c ∷ cs) ≡ read_chunk p (j + 1) (chunk * 64) cs
unfolding read_chunk
pad_round p j chunk c cs hc e = rw (e, mod-eq_of_lt {n = chunk * 64} {m = 2 ^ 32} (omega arith))

module _ (a b : ℕ) (ha : a < 64) (hb : b < 64) where
  two_digits :
      (p : ℕ) (cs : List ℕ)
      → p ≤ 2
      → read_chunk p 0 0 (digit a ∷ digit b ∷ cs) ≡ read_chunk p 2 (a * 64 + b) cs
  two_digits p cs h =
      digit_round p 0 0 a a _ ha (omega arith) (ground arith) (omega arith)
      ∙ digit_round p 1 a b (a * 64 + b) cs hb (omega arith) (ground arith) refl

  read_two :
      (c d : ℕ) → read_chunk 2 0 0 (digit a ∷ digit b ∷ c ∷ d ∷ []) ≡ ok ((a * 64 + b) * 64 * 64)
  read_two c d =
      two_digits 2 (c ∷ d ∷ []) (omega arith)
      ∙ pad_round 2 2 (a * 64 + b) c (d ∷ []) (omega arith) refl
      ∙ pad_round 2 3 ((a * 64 + b) * 64) d [] (omega arith) refl
      ∙ (unfold read_chunk in refl)

  read_three :
      (c d : ℕ)
      → c < 64
      → read_chunk 1 0 0 (digit a ∷ digit b ∷ digit c ∷ d ∷ []) ≡ ok (((a * 64 + b) * 64 + c) * 64)
  read_three c d hc =
      two_digits 1 (digit c ∷ d ∷ []) (omega arith)
      ∙ digit_round 1 2 (a * 64 + b) c ((a * 64 + b) * 64 + c) (d ∷ []) hc (omega arith) refl refl
      ∙ pad_round 1 3 ((a * 64 + b) * 64 + c) d [] (omega arith) refl
      ∙ (unfold read_chunk in refl)

  read_four :
      (c d : ℕ)
      → c < 64
      → d < 64
      → read_chunk 0 0 0 (digit a ∷ digit b ∷ digit c ∷ digit d ∷ [])
        ≡ ok (((a * 64 + b) * 64 + c) * 64 + d)
  read_four c d hc hd =
      two_digits 0 (digit c ∷ digit d ∷ []) (omega arith)
      ∙ digit_round 0 2 (a * 64 + b) c ((a * 64 + b) * 64 + c) (digit d ∷ []) hc (omega arith) refl
          refl
      ∙ digit_round 0 3 ((a * 64 + b) * 64 + c) d (((a * 64 + b) * 64 + c) * 64 + d) [] hd
          (omega arith) refl refl
      ∙ (unfold read_chunk in refl)

-- The chunk of a group, and what its sextets and its bytes are.
chunk_of_two : (a b : ℕ) → a < 256 → b < 256 → bit_or (shl a 16) (shl b 8) ≡ (a * 256 + b) * 256
chunk_of_two a b ha hb =
    rw
      (
        mod-eq_of_lt {n = a * 2 ^ 16} {m = 2 ^ 32} (omega arith),
        mod-eq_of_lt {n = b * 2 ^ 8} {m = 2 ^ 32} (omega arith),
        bit_or-high_low 16 a (b * 2 ^ 8) (omega arith),
      )
      (omega arith)

chunk_of_three :
    (a b c : ℕ)
    → a < 256
    → b < 256
    → c < 256
    → bit_or (bit_or (shl a 16) (shl b 8)) c ≡ (a * 256 + b) * 256 + c
chunk_of_three a b c ha hb hc = rw (chunk_of_two a b ha hb) (bit_or-high_low 8 (a * 256 + b) c hc)

byte_of : (n : ℕ) → bit_and n 0xFF ≡ n % 256
byte_of n = bit_and-ones 8 n

encode_three :
    (a b c : ℕ) (rest : List ℕ)
    → a < 256
    → b < 256
    → c < 256
    → let v = (a * 256 + b) * 256 + c in
      base64_encode (a ∷ b ∷ c ∷ rest)
      ≡ digit (v / 2 ^ 18 % 64)
        ∷ digit (v / 2 ^ 12 % 64)
        ∷ digit (v / 2 ^ 6 % 64)
        ∷ digit (v / 2 ^ 0 % 64)
        ∷ base64_encode rest
unfolding base64_encode
encode_three a b c rest ha hb hc =
    let v : ℕ = (a * 256 + b) * 256 + c in
    rw (
      chunk_of_three a b c ha hb hc,
      bit_and-ones 6 (v / 2 ^ 18),
      bit_and-ones 6 (v / 2 ^ 12),
      bit_and-ones 6 (v / 2 ^ 6),
      bit_and-ones 6 (v / 2 ^ 0),
    )

full_group :
    (a b c d : ℕ) (rest result : List ℕ)
    → a < 64
    → b < 64
    → c < 64
    → d < 64
    → decode_groups result (digit a ∷ digit b ∷ digit c ∷ digit d ∷ rest)
      ≡ decode_groups (result ++ chunk_bytes 0 (((a * 64 + b) * 64 + c) * 64 + d)) rest
unfolding decode_groups
full_group a b c d rest result ha hb hc hd =
    let none_left : padding_of (is_last rest) (digit c) (digit d) ≡ 0 =
      rw (digit-ne-pad d hd) (ground arith) in
    rw (none_left, read_four a b ha hb c d hc hd)

three_bytes :
    (a b c : ℕ)
    → a < 256
    → b < 256
    → c < 256
    → chunk_bytes 0 ((a * 256 + b) * 256 + c) ≡ a ∷ b ∷ c ∷ []
three_bytes a b c ha hb hc =
    let v : ℕ = (a * 256 + b) * 256 + c in
    ground (arith, byte_of (v / 2 ^ 16), byte_of (v / 2 ^ 8), byte_of v)

-- The last group, of two bytes or of one.
last_two :
    (a b : ℕ) (result : List ℕ)
    → a < 256
    → b < 256
    → decode_groups result (base64_encode (a ∷ b ∷ [])) ≡ ok (result ++ a ∷ b ∷ [])
unfolding decode_groups base64_encode
last_two a b result ha hb =
    let v : ℕ = (a * 256 + b) * 256 in
    let x : ℕ = v / 2 ^ 18 % 64 in
    let y : ℕ = v / 2 ^ 12 % 64 in
    let z : ℕ = v / 2 ^ 6 % 64 in
    let whole : ((x * 64 + y) * 64 + z) * 64 ≡ v = omega arith in
    rw
      (
        chunk_of_two a b ha hb,
        bit_and-ones 6 (v / 2 ^ 18),
        bit_and-ones 6 (v / 2 ^ 12),
        bit_and-ones 6 (v / 2 ^ 6),
        digit-ne-pad z (omega arith),
        read_three x y (omega arith) (omega arith) z b'=' (omega arith),
        whole,
      )
      (ap (λ t. ok (result ++ t)) (ground (arith, byte_of (v / 2 ^ 16), byte_of (v / 2 ^ 8))))

last_one :
    (a : ℕ) (result : List ℕ)
    → a < 256
    → decode_groups result (base64_encode (a ∷ [])) ≡ ok (result ++ a ∷ [])
unfolding decode_groups base64_encode
last_one a result ha =
    let v : ℕ = a * 65536 in
    let x : ℕ = v / 2 ^ 18 % 64 in
    let y : ℕ = v / 2 ^ 12 % 64 in
    let whole : (x * 64 + y) * 64 * 64 ≡ v = omega arith in
    rw
      (
        mod-eq_of_lt {n = a * 2 ^ 16} {m = 2 ^ 32} (omega arith),
        bit_and-ones 6 (v / 2 ^ 18),
        bit_and-ones 6 (v / 2 ^ 12),
        read_two x y (omega arith) (omega arith) b'=' b'=',
        whole,
      )
      (ap (λ t. ok (result ++ t)) (ground (arith, byte_of (v / 2 ^ 16))))

decode_groups-base64_encode :
    (bs result : List ℕ)
    → All (λ b. b < 256) bs
    → decode_groups result (base64_encode bs) ≡ ok (result ++ bs)
decode_groups-base64_encode [] result h = unfold decode_groups base64_encode in rw append-nil
decode_groups-base64_encode (a ∷ []) result (ha, _) = last_one a result ha
decode_groups-base64_encode (a ∷ b ∷ []) result (ha, (hb, _)) = last_two a b result ha hb
decode_groups-base64_encode (a ∷ b ∷ c ∷ rest) result (ha, (hb, (hc, hs))) =
    let v : ℕ = (a * 256 + b) * 256 + c in
    rw (encode_three a b c rest ha hb hc) (
      full_group (v / 2 ^ 18 % 64) (v / 2 ^ 12 % 64) (v / 2 ^ 6 % 64) (v / 2 ^ 0 % 64)
        (base64_encode rest) result (omega arith) (omega arith) (omega arith) (omega arith)
      ∙ rw (whole v (omega arith), three_bytes a b c ha hb hc)
          (decode_groups-base64_encode rest (result ++ a ∷ b ∷ c ∷ []) hs ∙ rw append_assoc))
  where
    whole :
        (v : ℕ)
        → v < 2 ^ 24
        → ((v / 2 ^ 18 % 64 * 64 + v / 2 ^ 12 % 64) * 64 + v / 2 ^ 6 % 64) * 64 + v / 2 ^ 0 % 64 ≡ v
    whole v h = omega arith

length-base64_encode : (bs : List ℕ) → length (base64_encode bs) % 4 ≡ 0
unfolding base64_encode
length-base64_encode [] = refl
length-base64_encode (a ∷ []) = refl
length-base64_encode (a ∷ b ∷ []) = refl
length-base64_encode (a ∷ b ∷ c ∷ rest) = omega (arith, length-base64_encode rest)

-- `base64_decode` gives back every byte sequence that `base64_encode` was given.
pub base64_decode-base64_encode :
    (bs : List ℕ) → All (λ b. b < 256) bs → base64_decode (base64_encode bs) ≡ ok bs
unfolding base64_decode
base64_decode-base64_encode bs h =
    rw (length-base64_encode bs) (decode_groups-base64_encode bs [] h)
