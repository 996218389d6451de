-- ===== src/Examples/Serial.antt =====
-- The theorems on include/reflgen/serial/detail at concrete inputs.
use reflgen_cpp.Common.{
  ℕ, zero, suc, ◌+◌, ◌^◌, ◌<◌, ◌≡◌, refl, List, [], ◌∷◌, ◌==◌, if◌then◌else◌, Option, none, some,
  length, All, arith, ◌++◌,
}
use reflgen_cpp.Common.Outcome.{ok, err, SerializationError}
use reflgen_cpp.Json.Base64.{codes}
use reflgen_cpp.Serial.Scalars.{
  w8, w16, signed_type, unsigned_type, char_16, read_integer, write_integer, read_character,
  write_character,
}
use reflgen_cpp.Serial.Scalars.Bounds.{InRange, read_integer-InRange}
use reflgen_cpp.Serial.Enums.{
  EnumEntry, enum_name, count_named_values, collect_named_values, scanned_values, read_enum,
  write_enum,
}
use reflgen_cpp.Serial.Enums.Tables.{scanned_name, collect_named_values_lem}
use reflgen_cpp.Serial.Cycle.{write_object, write_pointer}
use reflgen_cpp.Serial.Cycle.Termination.{IsMember, Tidy, write_object-ends}
use reflgen_cpp.Serial.Cycle.Detection.{
  GoesDown, points, leads, write_object-acyclic, write_pointer-cyclic,
}
use reflgen_cpp.Binary.Reader.{Casts, Reader, at}
use reflgen_cpp.Binary.Encoding.{encode, writer_calls, reader_calls}
use reflgen_cpp.Binary.ReadCalls.{read_int-encode}
use reflgen_cpp.Serial.Value.{signed}
use reflgen_cpp.Binary.ScalarTrip.{
  Trip, read_integer-write_integer, read_character-write_character, read_enum-write_enum,
}

abbrev casts : Casts
casts = record { int64_to_double = λ n. n; uint64_to_double = λ n. n }

-- 300 as an int64_t, which no signed char holds.
abbrev before_300 : Reader
before_300 = at 5 (encode (signed 300) ++ []) 3 []

read_integer-InRange_example :
    InRange
      (signed_type w8)
      300
      (at (5 + length (encode (signed 300))) [] 3 [])
      (read_integer (reader_calls casts) (signed_type w8) before_300)
read_integer-InRange_example =
    read_integer-InRange (reader_calls casts) (signed_type w8) before_300
      (at (5 + length (encode (signed 300))) [] 3 []) 300
      (read_int-encode 5 3 [] [] 300 (ground arith)) (ground arith)

-- -2 as a signed char.
read_integer-write_integer_example :
    Trip
      (write_integer writer_calls (signed_type w8) 254)
      (read_integer (reader_calls casts) (signed_type w8))
      2
      254
read_integer-write_integer_example =
    read_integer-write_integer casts (signed_type w8) 254 2 (ground arith)

read_character-write_character_example :
    Trip
      (write_character writer_calls char_16 0x20AC)
      (read_character (reader_calls casts) char_16)
      2
      0x20AC
read_character-write_character_example =
    read_character-write_character casts char_16 0x20AC 2
      (record { in_range = ground arith; no_surrogate = refl }, ground arith)

-- What the compiler spells for the values of an enumeration over signed char: -2 and 5 have names. The
-- scan goes from -3 to 6.
abbrev spelled : ℕ → List ℕ
spelled n = if n == 254 then codes "red" else if n == 5 then codes "blue" else []

collect_named_values_lem_example :
    (enum_name (collect_named_values (scanned_values 256 spelled 253 10)) 5
      ≡ scanned_name 256 spelled 253 10 5)
    × (length (collect_named_values (scanned_values 256 spelled 253 10))
        ≡ count_named_values (scanned_values 256 spelled 253 10))
collect_named_values_lem_example =
    collect_named_values_lem 256 spelled 253 10 5 (ground arith) (ground arith) (ground arith)

abbrev colors : List EnumEntry
colors = record { name = codes "red"; value = 2 } ∷ record { name = codes "blue"; value = 5 } ∷ []

short_name : length (enum_name colors 5) < 2 ^ 64
unfolding enum_name
short_name = ground arith

read_enum-write_enum_example :
    Trip
      (write_enum colors (unsigned_type w16) writer_calls 5)
      (read_enum colors (unsigned_type w16) (reader_calls casts))
      2
      5
read_enum-write_enum_example =
    read_enum-write_enum casts colors (unsigned_type w16) 5 2 ((refl, tt), (tt, tt)) (ground arith)
      short_name

-- 0 and 1 point at each other, and 2 at both.
abbrev ring : ℕ → List (Option ℕ)
ring zero = some 1 ∷ []
ring (suc zero) = none ∷ some 0 ∷ []
ring (suc (suc zero)) = some 0 ∷ some 1 ∷ []
ring _ = []

ring-AreMembers : (b : ℕ) → All (IsMember 3) (ring b)
ring-AreMembers zero = (ground arith, tt)
ring-AreMembers (suc zero) = (tt, (ground arith, tt))
ring-AreMembers (suc (suc zero)) = (ground arith, (ground arith, tt))
ring-AreMembers (suc (suc (suc n))) = tt

write_object-ends_example : Tidy [] (write_object ring (3 + 1) 2 [])
write_object-ends_example = write_object-ends ring 3 2 ring-AreMembers

write_pointer-cyclic_example :
    (e : SerializationError) × (write_pointer (write_object ring (3 + 1)) (some 1) [] ≡ (err e, []))
write_pointer-cyclic_example =
    write_pointer-cyclic ring 3 1 ring-AreMembers (ground arith)
      (leads (none ∷ []) [] 0 refl (points [] [] 1 refl))

-- 2 points at 0 and twice at 1, and 1 at 0.
abbrev shared : ℕ → List (Option ℕ)
shared (suc zero) = some 0 ∷ []
shared (suc (suc zero)) = some 0 ∷ some 1 ∷ some 1 ∷ []
shared _ = []

shared-GoesDown : (b : ℕ) → All (GoesDown (λ n. n) b) (shared b)
shared-GoesDown zero = tt
shared-GoesDown (suc zero) = (ground arith, tt)
shared-GoesDown (suc (suc zero)) = (ground arith, (ground arith, (ground arith, tt)))
shared-GoesDown (suc (suc (suc n))) = tt

write_object-acyclic_example : write_object shared (2 + 1) 2 [] ≡ (ok tt, [])
write_object-acyclic_example = write_object-acyclic shared (λ n. n) 2 shared-GoesDown
