-- ===== src/Serial/Scalars/Characters.antt =====
-- The characters of include/reflgen/serial/detail/scalar.h.
use reflgen_cpp.Common.{ℕ, ◌<◌, ◌^◌, ◌≡◌, refl, ap, ◌∙◌, List, [], ◌∷◌, append-nil, arith}
use mathlib.Core.Path.{subst}
use reflgen_cpp.Common.Outcome.{ok}
use reflgen_cpp.Serial.Calls.{WriterCalls, ReaderCalls}
use reflgen_cpp.Serial.Contract.{write_value}
use reflgen_cpp.Serial.Value.{string}
use reflgen_cpp.Serial.Utf.{from_utf8, units_16, units_32}
use reflgen_cpp.Serial.Utf.Encoding.{IsScalar, utf8, append_utf8-utf8}
use reflgen_cpp.Serial.Utf.Strings.{from_utf8-flat}
use reflgen_cpp.Serial.Scalars.{
  CharacterType, char_8, char_16, char_32, write_character, read_character,
}

-- The values of a character type that are a character of their own: a byte, a scalar value in one unit
-- of 16 bits, a scalar value.
abbrev pub IsCharacter : CharacterType → ℕ → Type 0
IsCharacter char_8 c = c < 256
IsCharacter char_16 c = IsScalar c × (c < 2 ^ 16)
IsCharacter char_32 c = IsScalar c

-- The string that a character is written as.
abbrev pub character_text : CharacterType → ℕ → List ℕ
character_text char_8 c = c ∷ []
character_text char_16 c = utf8 c
character_text char_32 c = utf8 c

pub write_character-value :
    {S : Type 0} (out : WriterCalls S) (type : CharacterType) (c : ℕ)
    → IsCharacter type c
    → write_character out type c ≡ write_value out (string (character_text type c))
unfolding write_character write_value
write_character-value out char_8 c h = refl
write_character-value out char_16 c (h, _) = rw (append_utf8-utf8 [] c h)
write_character-value out char_32 c h = rw (append_utf8-utf8 [] c h)

from_utf8-utf8 : (units : ℕ → List ℕ) (c : ℕ) → IsScalar c → from_utf8 units (utf8 c) ≡ ok (units c)
from_utf8-utf8 units c h =
    subst (λ t. from_utf8 units t ≡ ok (units c)) (append-nil (utf8 c))
      (from_utf8-flat units (c ∷ []) (h, tt) ∙ ap ok (append-nil (units c)))

one_unit : (c : ℕ) → c < 2 ^ 16 → units_16 c ≡ c ∷ []
one_unit c h = ground arith

-- `read_character` takes the string of a character as that character.
pub read_character-text :
    {S : Type 0} (in' : ReaderCalls S) (type : CharacterType) (s t : S) (c : ℕ)
    → IsCharacter type c
    → in'.read_string s ≡ ok (character_text type c, t)
    → read_character in' type s ≡ ok (c, t)
unfolding read_character
read_character-text in' char_8 s t c h e = rw e
read_character-text in' char_16 s t c (h, small) e =
    rw (e, from_utf8-utf8 units_16 c h, one_unit c small)
read_character-text in' char_32 s t c h e = rw (e, from_utf8-utf8 units_32 c h)
