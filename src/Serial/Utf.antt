-- ===== src/Serial/Utf.antt =====
-- include/reflgen/serial/detail/utf.h. A `std::string` is its list of bytes, a char16_t or char32_t
-- string its list of units. What a function reads from `position` on is the list that it is given,
-- and it answers the rest of that list for the new `position`.
pub mod Encoding
pub mod Decoding
pub mod Strings
use reflgen_cpp.Common.{
  ℕ, zero, suc, ◌+◌, ◌-◌, ◌*◌, ◌/◌, ◌%◌, ◌^◌, bit_and, bit_or, Bool, true, false, not, ◌&&◌, ◌||◌,
  List, [], ◌∷◌, ◌++◌, ltb, leb, ◌==◌, if◌then◌else◌, length, String,
}
use reflgen_cpp.Common.Outcome.{Outcome, ok, fault, out_of_fuel, throw, bind}

abbrev pub is_surrogate : ℕ → Bool
is_surrogate code_point = leb 0xD800 code_point && leb code_point 0xDFFF

-- `static_cast<char>`
abbrev char : ℕ → ℕ
char n = n % 256

unfoldable pub append_utf8 : List ℕ → ℕ → Outcome (List ℕ)
append_utf8 out code_point =
    if ltb 0x10FFFF code_point || is_surrogate code_point
    then throw "invalid Unicode code point"
    else if ltb code_point 0x80
    then ok (out ++ char code_point ∷ [])
    else if ltb code_point 0x800
    then ok (
        out
        ++ char (bit_or 0xC0 (code_point / 2 ^ 6))
          ∷ char (bit_or 0x80 (bit_and code_point 0x3F))
          ∷ [])
    else if ltb code_point 0x10000
    then ok (
        out
        ++ char (bit_or 0xE0 (code_point / 2 ^ 12))
          ∷ char (bit_or 0x80 (bit_and (code_point / 2 ^ 6) 0x3F))
          ∷ char (bit_or 0x80 (bit_and code_point 0x3F))
          ∷ [])
    else ok (
        out
        ++ char (bit_or 0xF0 (code_point / 2 ^ 18))
          ∷ char (bit_or 0x80 (bit_and (code_point / 2 ^ 12) 0x3F))
          ∷ char (bit_or 0x80 (bit_and (code_point / 2 ^ 6) 0x3F))
          ∷ char (bit_or 0x80 (bit_and code_point 0x3F))
          ∷ [])

-- What the lead byte of a longer sequence says: its length, its bits, and the least code point.
pub record Lead : Type 0 where
  pub continuations : ℕ
  pub bits : ℕ
  pub minimum : ℕ

abbrev pub lead_of : ℕ → Outcome Lead
lead_of lead =
    if bit_and lead 0xE0 == 0xC0
    then ok (record { continuations = 1; bits = bit_and lead 0x1F; minimum = 0x80 })
    else if bit_and lead 0xF0 == 0xE0
    then ok (record { continuations = 2; bits = bit_and lead 0x0F; minimum = 0x800 })
    else if bit_and lead 0xF8 == 0xF0
    then ok (record { continuations = 3; bits = bit_and lead 0x07; minimum = 0x10000 })
    else throw "invalid UTF-8 lead byte"

-- The loop over the continuation bytes.
abbrev pub continue_utf8 : ℕ → ℕ → List ℕ → Outcome (ℕ × List ℕ)
continue_utf8 zero code_point rest = ok (code_point, rest)
continue_utf8 (suc n) code_point [] = fault
continue_utf8 (suc n) code_point (b ∷ rest) =
    let more = continue_utf8 n (bit_or (code_point * 2 ^ 6 % 2 ^ 32) (bit_and b 0x3F)) rest in
    if not (bit_and b 0xC0 == 0x80) then throw "invalid UTF-8 continuation byte" else more

abbrev pub check_code_point : ℕ → ℕ × List ℕ → Outcome (ℕ × List ℕ)
check_code_point minimum (code_point, rest) =
    if ltb code_point minimum || ltb 0x10FFFF code_point || is_surrogate code_point
    then throw "invalid UTF-8 sequence"
    else ok (code_point, rest)

abbrev pub decode_long : Lead → List ℕ → Outcome (ℕ × List ℕ)
decode_long lead rest =
    if ltb (length rest) lead.continuations
    then throw "truncated UTF-8 sequence"
    else bind (continue_utf8 lead.continuations lead.bits rest) (check_code_point lead.minimum)

-- It is called before the end of the text.
unfoldable pub decode_utf8 : List ℕ → Outcome (ℕ × List ℕ)
decode_utf8 [] = fault
decode_utf8 (lead ∷ rest) =
    if ltb lead 0x80 then ok (lead, rest) else bind (lead_of lead) λ l. decode_long l rest

-- The loop of `validate_utf8`. Each round takes a byte at least.
unfoldable pub validate_utf8_loop : ℕ → List ℕ → Outcome (Unit {0})
validate_utf8_loop fuel [] = ok tt
validate_utf8_loop zero (b ∷ bs) = out_of_fuel
validate_utf8_loop (suc fuel) (b ∷ bs) =
    bind (decode_utf8 (b ∷ bs)) λ (_, rest). validate_utf8_loop fuel rest

unfoldable pub validate_utf8 : List ℕ → Outcome (Unit {0})
unfolding validate_utf8_loop
validate_utf8 text = validate_utf8_loop (length text) text

-- `to_utf8` of a char16_t string: the loop, on what is written so far. Behind the last unit the code
-- takes 0 for the second of a pair, which is no low surrogate.
unfoldable pub to_utf8_16 : List ℕ → List ℕ → Outcome (List ℕ)
to_utf8_16 result [] = ok result
to_utf8_16 result (unit ∷ []) =
    if leb 0xD800 unit && leb unit 0xDBFF
    then throw "unpaired UTF-16 surrogate"
    else append_utf8 result unit
to_utf8_16 result (unit ∷ low ∷ rest) =
    let pair =
      bind (append_utf8 result (0x10000 + (unit - 0xD800) * 2 ^ 10 + (low - 0xDC00)))
        λ out. to_utf8_16 out rest in
    let single = bind (append_utf8 result unit) λ out. to_utf8_16 out (low ∷ rest) in
    if leb 0xD800 unit && leb unit 0xDBFF
    then if ltb low 0xDC00 || ltb 0xDFFF low then throw "unpaired UTF-16 surrogate" else pair
    else single

-- `to_utf8` of a char32_t string.
unfoldable pub to_utf8_32 : List ℕ → List ℕ → Outcome (List ℕ)
to_utf8_32 result [] = ok result
to_utf8_32 result (unit ∷ rest) = bind (append_utf8 result unit) λ out. to_utf8_32 out rest

-- The units that `from_utf8` writes for a code point, where a unit has 16 or 32 bits.
abbrev pub units_16 : ℕ → List ℕ
units_16 code_point =
    if leb 0x10000 code_point
    then ((0xD800 + (code_point - 0x10000) / 2 ^ 10) % 2 ^ 16)
      ∷ ((0xDC00 + bit_and (code_point - 0x10000) 0x3FF) % 2 ^ 16)
      ∷ []
    else (code_point % 2 ^ 16) ∷ []

abbrev pub units_32 : ℕ → List ℕ
units_32 code_point = code_point ∷ []

-- The loop of `from_utf8`, on what is written so far.
unfoldable pub from_utf8_loop : (ℕ → List ℕ) → ℕ → List ℕ → List ℕ → Outcome (List ℕ)
from_utf8_loop units fuel result [] = ok result
from_utf8_loop units zero result (b ∷ bs) = out_of_fuel
from_utf8_loop units (suc fuel) result (b ∷ bs) =
    bind (decode_utf8 (b ∷ bs))
      λ (code_point, rest). from_utf8_loop units fuel (result ++ units code_point) rest

unfoldable pub from_utf8 : (ℕ → List ℕ) → List ℕ → Outcome (List ℕ)
unfolding from_utf8_loop
from_utf8 units text = from_utf8_loop units (length text) [] text
