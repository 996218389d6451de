-- ===== src/Json/Decimal.antt =====
-- `std::to_chars` and `std::from_chars` on 64-bit integers, as include/reflgen/json uses them.
pub mod RoundTrip
use reflgen_cpp.Common.{
  ℕ, zero, suc, ◌+◌, ◌-◌, ◌*◌, ◌/◌, ◌%◌, ◌^◌, List, [], ◌∷◌, Option, none, some, ltb, leb, ◌==◌,
  if◌then◌else◌,
}

-- The decimal digits of `n`; a uint64 has 20 at most.
abbrev pub digits_from : ℕ → ℕ → List ℕ → List ℕ
digits_from zero n later = later
digits_from (suc fuel) n later =
    let here = (b'0' + n % 10) ∷ later in
    let earlier = digits_from fuel (n / 10) here in if ltb n 10 then here else earlier

unfoldable pub to_chars_uint : ℕ → List ℕ
to_chars_uint n = digits_from 20 n []

-- An int64_t is its 64-bit pattern.
unfoldable pub to_chars_int : ℕ → List ℕ
unfolding to_chars_uint
to_chars_int n = if ltb n (2 ^ 63) then to_chars_uint n else b'-' ∷ to_chars_uint (2 ^ 64 - n)

-- The number that decimal digits stand for.
abbrev pub value_from : ℕ → List ℕ → ℕ
value_from acc [] = acc
value_from acc (c ∷ cs) = value_from (acc * 10 + (c - b'0')) cs

-- `none` is `errc::result_out_of_range`. The token is `-?` and digits.
unfoldable pub from_chars_uint : List ℕ → Option ℕ
from_chars_uint token = let n = value_from 0 token in if ltb n (2 ^ 64) then some n else none

abbrev negative : ℕ → Option ℕ
negative n = if leb n (2 ^ 63) then some ((2 ^ 64 - n) % 2 ^ 64) else none

unfoldable pub from_chars_int : List ℕ → Option ℕ
from_chars_int [] = none
from_chars_int (c ∷ cs) =
    if c == b'-'
    then negative (value_from 0 cs)
    else if ltb (value_from 0 (c ∷ cs)) (2 ^ 63)
    then some (value_from 0 (c ∷ cs))
    else none
