-- ===== src/Json/BytesText.antt =====
-- The base64 text of include/reflgen/json/base64.h needs no escape, and `read_bytes` of
-- include/reflgen/json/reader.h before it.
use reflgen_cpp.Common.{
  ℕ, ◌/◌, ◌%◌, ◌^◌, ◌<◌, ◌≡◌, refl, sym, Bool, true, not, ◌&&◌, List, [], ◌∷◌, ◌++◌, All, ltb, leb,
  ◌==◌, arith,
}
use mathlib.Core.Path.{subst}
use reflgen_cpp.Common.Bits.{bit_and-ones, below, below→}
use reflgen_cpp.Common.Outcome.{ok}
use reflgen_cpp.Serial.Utf.Encoding.{IsScalar, utf8}
use reflgen_cpp.Serial.Utf.Strings.{flat}
use reflgen_cpp.Json.Base64.{digit, sextet, base64_encode}
use reflgen_cpp.Json.Base64.RoundTrip.{base64_decode-base64_encode}
use reflgen_cpp.Json.Input.{Frame, at}
use reflgen_cpp.Json.Steps.{over}
use reflgen_cpp.Json.Writer.{quoted_chars}
use reflgen_cpp.Json.Quoting.{quoted}
use reflgen_cpp.Json.Encoding.{IsText}
use reflgen_cpp.Json.ReadCalls.{stay, read_string-text}
use reflgen_cpp.Json.Reader.{read_bytes}

-- ASCII that `append_quoted` copies.
abbrev is_plain : ℕ → Bool
is_plain c = ltb c 0x80 && leb 0x20 c && not (c == b'"') && not (c == b'\\')

digits_plain : below 64 (λ i. is_plain (digit i)) ≡ true
unfolding below digit
digits_plain = refl

sextet-plain : (chunk k : ℕ) → is_plain (sextet chunk k) ≡ true
sextet-plain chunk k =
    rw (bit_and-ones 6 (chunk / 2 ^ k))
      (below→ 64 (λ i. is_plain (digit i)) (chunk / 2 ^ k % 64) digits_plain (omega arith))

abbrev ArePlain : List ℕ → Type 0
ArePlain = All (λ c. is_plain c ≡ true)

base64_encode-ArePlain : (s : List ℕ) → ArePlain (base64_encode s)
unfolding base64_encode
base64_encode-ArePlain [] = tt
base64_encode-ArePlain (a ∷ []) = (sextet-plain _ 18, (sextet-plain _ 12, (refl, (refl, tt))))
base64_encode-ArePlain (a ∷ b ∷ []) =
    (sextet-plain _ 18, (sextet-plain _ 12, (sextet-plain _ 6, (refl, tt))))
base64_encode-ArePlain (a ∷ b ∷ c ∷ rest) = (
  sextet-plain _ 18,
  (sextet-plain _ 12, (sextet-plain _ 6, (sextet-plain _ 0, base64_encode-ArePlain rest))),
)

quoted_chars-plain : (text : List ℕ) → ArePlain text → quoted_chars text ≡ text
unfolding quoted_chars
quoted_chars-plain [] h = refl
quoted_chars-plain (c ∷ cs) (h, hs) = ground (arith, quoted_chars-plain cs hs)

flat-plain : (text : List ℕ) → ArePlain text → flat utf8 text ≡ text
flat-plain [] h = refl
flat-plain (c ∷ cs) (h, hs) = ground (arith, flat-plain cs hs)

scalar : (c : ℕ) → is_plain c ≡ true → IsScalar c
scalar c h = record { in_range = ground arith; no_surrogate = ground arith }

scalars : (text : List ℕ) → ArePlain text → All IsScalar text
scalars [] h = tt
scalars (c ∷ cs) (h, hs) = (scalar c h, scalars cs hs)

-- A text that needs no escape is UTF-8, and is copied between the quotation marks.
abbrev pub marked : List ℕ → List ℕ
marked text = b'"' ∷ (text ++ b'"' ∷ [])

marked-quoted : (text : List ℕ) → ArePlain text → marked text ≡ quoted text
marked-quoted text h = rw (quoted_chars-plain text h)

IsText-plain : (text : List ℕ) → ArePlain text → IsText text
IsText-plain text h = (text, scalars text h, sym (flat-plain text h))

module _ (before rest : List ℕ) (d : ℕ) (st : List Frame) (s : List ℕ)
    (h : All (λ b. b < 256) s) where
  read_bytes-quoted :
      read_bytes (at before (quoted (base64_encode s) ++ rest) d st)
      ≡ ok (s, at (over (quoted (base64_encode s)) before) rest d st)
  unfolding read_bytes
  read_bytes-quoted =
      let text = base64_encode s in
      rw (
        stay before (quoted text ++ rest) d st refl,
        read_string-text before rest d st text (IsText-plain text (base64_encode-ArePlain s)),
        base64_decode-base64_encode s h,
      )

  pub read_bytes-text :
      read_bytes (at before (marked (base64_encode s) ++ rest) d st)
      ≡ ok (s, at (over (marked (base64_encode s)) before) rest d st)
  read_bytes-text =
      subst
        (λ text.
          read_bytes (at before (text ++ rest) d st) ≡ ok (s, at (over text before) rest d st))
        (sym (marked-quoted (base64_encode s) (base64_encode-ArePlain s))) read_bytes-quoted
