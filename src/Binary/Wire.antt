-- ===== src/Binary/Wire.antt =====
-- include/reflgen/binary/format.h and include/reflgen/binary/detail/endian.h: tags, and the eight
-- bytes of a double. A byte is a number below 256, a uint64 a number below 2 ^ 64.
use reflgen_cpp.Common.{ℕ, zero, suc, ◌+◌, ◌*◌, ◌/◌, ◌%◌, ◌^◌, ◌<◌, bit_and, bit_or}
use reflgen_cpp.Common.{List, [], ◌∷◌, ◌==◌, if◌then◌else◌}

abbrev pub IsByte : ℕ → Type 0
IsByte b = b < 256

abbrev pub IsU64 : ℕ → Type 0
IsU64 v = v < 2 ^ 64

-- `enum class tag : std::uint8_t`.
pub data Tag : Type 0 where
  null false_value true_value signed_integer unsigned_integer : Tag
  floating string bytes array object : Tag

abbrev pub tag_byte : Tag → ℕ
tag_byte null = 0x00
tag_byte false_value = 0x01
tag_byte true_value = 0x02
tag_byte signed_integer = 0x03
tag_byte unsigned_integer = 0x04
tag_byte floating = 0x05
tag_byte string = 0x06
tag_byte bytes = 0x07
tag_byte array = 0x08
tag_byte object = 0x09

-- `static_cast<tag>(value)`, of a value that is at most `tag::object`.
abbrev pub cast_tag : ℕ → Tag
cast_tag v =
    if v == 0
    then null
    else if v == 1
    then false_value
    else if v == 2
    then true_value
    else if v == 3
    then signed_integer
    else if v == 4
    then unsigned_integer
    else if v == 5
    then floating
    else if v == 6
    then string
    else if v == 7
    then bytes
    else if v == 8
    then array
    else object

-- The loop of `little_bytes`: `n` bytes from byte `i` on.
abbrev little_bytes_from : ℕ → ℕ → ℕ → List ℕ
little_bytes_from zero i value = []
little_bytes_from (suc n) i value =
    bit_and (value / 2 ^ (i * 8)) 0xff ∷ little_bytes_from n (i + 1) value

unfoldable pub little_bytes : ℕ → List ℕ
little_bytes value = little_bytes_from 8 0 value

-- The loop of `little_value`, over the bytes from `i` on.
abbrev little_value_from : ℕ → ℕ → List ℕ → ℕ
little_value_from i value [] = value
little_value_from i value (b ∷ bs) =
    little_value_from (i + 1) (bit_or value (b * 2 ^ (i * 8) % 2 ^ 64)) bs

unfoldable pub little_value : List ℕ → ℕ
little_value bs = little_value_from 0 0 bs
