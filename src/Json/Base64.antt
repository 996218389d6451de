-- ===== src/Json/Base64.antt =====
-- include/reflgen/json/base64.h.
pub mod RoundTrip
use reflgen_cpp.Common.{
  ℕ, zero, suc, ◌+◌, ◌-◌, ◌*◌, ◌/◌, ◌%◌, ◌^◌, bit_and, bit_or, Bool, true, false, not, ◌&&◌, List,
  [], ◌∷◌, ◌++◌, Option, none, some, ltb, leb, ◌==◌, if◌then◌else◌, length, String,
}
use reflgen_cpp.Common.Outcome.{Outcome, ok, fault, throw, bind}
use Prim.Native.Char.{code}

-- The bytes of an ASCII literal.
abbrev pub codes : String → List ℕ
codes String.[] = []
codes (String.◌∷◌ c s) = code c ∷ codes s

abbrev base64_alphabet : List ℕ
base64_alphabet = codes "ABCDEFGHIJKLMNOPQRSTUVWXYZabcdefghijklmnopqrstuvwxyz0123456789+/"

-- `base64_alphabet[i]`; every index that the code uses is below 64.
abbrev element : List ℕ → ℕ → ℕ
element [] i = 0
element (c ∷ cs) zero = c
element (c ∷ cs) (suc i) = element cs i

unfoldable pub digit : ℕ → ℕ
digit i = element base64_alphabet i

abbrev pub shl : ℕ → ℕ → ℕ
shl x k = x * 2 ^ k % 2 ^ 32

-- `base64_alphabet[(chunk >> k) & 0x3F]`
abbrev pub sextet : ℕ → ℕ → ℕ
sextet chunk k = digit (bit_and (chunk / 2 ^ k) 0x3F)

unfoldable pub base64_encode : List ℕ → List ℕ
base64_encode (a ∷ b ∷ c ∷ rest) =
    let chunk : ℕ = bit_or (bit_or (shl a 16) (shl b 8)) c in
    sextet chunk 18 ∷ sextet chunk 12 ∷ sextet chunk 6 ∷ sextet chunk 0 ∷ base64_encode rest
base64_encode (a ∷ b ∷ []) =
    let chunk : ℕ = bit_or (shl a 16) (shl b 8) in
    sextet chunk 18 ∷ sextet chunk 12 ∷ sextet chunk 6 ∷ b'=' ∷ []
base64_encode (a ∷ []) =
    let chunk : ℕ = shl a 16 in sextet chunk 18 ∷ sextet chunk 12 ∷ b'=' ∷ b'=' ∷ []
base64_encode [] = []

-- `none` is the answer -1.
unfoldable pub base64_value : ℕ → Option ℕ
base64_value c =
    if leb b'A' c && leb c b'Z'
    then some (c - b'A')
    else if leb b'a' c && leb c b'z'
    then some (c - b'a' + 26)
    else if leb b'0' c && leb c b'9'
    then some (c - b'0' + 52)
    else if c == b'+'
    then some 62
    else if c == b'/'
    then some 63
    else none

abbrev add_value : ℕ → Option ℕ → Outcome ℕ
add_value chunk none = throw "invalid base64 character"
add_value chunk (some value) = ok (bit_or (shl chunk 6) value)

-- The inner loop, over the characters from `j` on.
unfoldable pub read_chunk : ℕ → ℕ → ℕ → List ℕ → Outcome ℕ
unfolding base64_value
read_chunk padding j chunk [] = ok chunk
read_chunk padding j chunk (c ∷ cs) =
    bind (if leb (4 - padding) j then ok (shl chunk 6) else add_value chunk (base64_value c))
      λ chunk'. read_chunk padding (j + 1) chunk' cs

abbrev pub is_last : List ℕ → Bool
is_last [] = true
is_last (_ ∷ _) = false

-- How many of the four characters are padding; `c` and `d` are the third and the fourth.
abbrev pub padding_of : Bool → ℕ → ℕ → ℕ
padding_of last c d = if last then (if d == b'=' then (if c == b'=' then 2 else 1) else 0) else 0

-- The bytes that a group appends.
abbrev pub chunk_bytes : ℕ → ℕ → List ℕ
chunk_bytes padding chunk =
    bit_and (chunk / 2 ^ 16) 0xFF
    ∷ (if ltb padding 2
        then bit_and (chunk / 2 ^ 8) 0xFF ∷ (if ltb padding 1 then bit_and chunk 0xFF ∷ [] else [])
        else [])

-- The outer loop, on what is decoded so far. It is entered with a multiple of four characters.
unfoldable pub decode_groups : List ℕ → List ℕ → Outcome (List ℕ)
decode_groups result [] = ok result
decode_groups result (a ∷ b ∷ c ∷ d ∷ rest) =
    let padding = padding_of (is_last rest) c d in
    bind (read_chunk padding 0 0 (a ∷ b ∷ c ∷ d ∷ []))
      λ chunk. decode_groups (result ++ chunk_bytes padding chunk) rest
decode_groups result _ = fault

unfoldable pub base64_decode : List ℕ → Outcome (List ℕ)
base64_decode text =
    if not (length text % 4 == 0) then throw "invalid base64 length" else decode_groups [] text
