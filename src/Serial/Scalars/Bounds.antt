-- ===== src/Serial/Scalars/Bounds.antt =====
-- The range checks of include/reflgen/serial/detail/scalar.h.
use reflgen_cpp.Common.{
  ℕ, ◌+◌, ◌-◌, ◌^◌, ◌%◌, ◌<◌, ◌≡◌, refl, sym, ap, ◌∙◌, Bool, true, false, ◌||◌, ltb, ◌==◌,
  if◌then◌else◌, arith, Bool-cases, inl, inr,
}
use mathlib.Core.Path.{subst}
use reflgen_cpp.Common.Outcome.{Outcome, ok, err, bind, bind-eq-ok, out_of_range, nowhere}
use reflgen_cpp.Serial.Calls.{WriterCalls, ReaderCalls}
use reflgen_cpp.Serial.Contract.{write_value}
use reflgen_cpp.Serial.Value.{Value, signed, unsigned}
use reflgen_cpp.Serial.Scalars.{
  w8, w16, w32, w64, bits, IntegerType, boolean, signed_type, unsigned_type, sign_extend, int64_lt,
  signed_min, signed_max, unsigned_max, range_check, write_integer, read_integer,
}

-- The patterns of a type.
abbrev pub limit : IntegerType → ℕ
limit boolean = 2
limit (signed_type w) = 2 ^ bits w
limit (unsigned_type w) = 2 ^ bits w

-- A pattern in 64 bits, as the data model has it.
abbrev pub widen : IntegerType → ℕ → ℕ
widen (signed_type w) v = sign_extend w v
widen _ v = v

-- The call of the format that an integer type is read by.
abbrev pub wide_call : {S : Type 0} → ReaderCalls S → IntegerType → S → Outcome (ℕ × S)
wide_call in' (signed_type w) = in'.read_int
wide_call in' _ = in'.read_uint

-- What the range check answers for a 64-bit pattern.
abbrev pub checked : {S : Type 0} → IntegerType → ℕ → S → Outcome (ℕ × S)
checked boolean n = range_check (ltb 1 n) n (if n == 0 then 0 else 1)
checked (signed_type w) n =
    range_check (int64_lt n (signed_min w) || int64_lt (signed_max w) n) n (n % 2 ^ bits w)
checked (unsigned_type w) n = range_check (ltb (unsigned_max w) n) n (n % 2 ^ bits w)

read_integer-checked :
    {S : Type 0} (in' : ReaderCalls S) (type : IntegerType) (s t : S) (n : ℕ)
    → wide_call in' type s ≡ ok (n, t)
    → read_integer in' type s ≡ checked type n t
unfolding read_integer
read_integer-checked in' boolean s t n e = rw e
read_integer-checked in' (signed_type w) s t n e = rw e
read_integer-checked in' (unsigned_type w) s t n e = rw e

checked-widen :
    {S : Type 0} (type : IntegerType) (t : S) (v : ℕ)
    → v < limit type
    → checked type (widen type v) t ≡ ok (v, t)
unfolding sign_extend
checked-widen boolean t v h = ground arith
checked-widen (signed_type w8) t v h = ground arith
checked-widen (signed_type w16) t v h = ground arith
checked-widen (signed_type w32) t v h = ground arith
checked-widen (signed_type w64) t v h = ground arith
checked-widen (unsigned_type w8) t v h = ground arith
checked-widen (unsigned_type w16) t v h = ground arith
checked-widen (unsigned_type w32) t v h = ground arith
checked-widen (unsigned_type w64) t v h = ground arith

-- The pattern that a 64-bit pattern is cut to.
abbrev cut : IntegerType → ℕ → ℕ
cut boolean n = if n == 0 then 0 else 1
cut (signed_type w) n = n % 2 ^ bits w
cut (unsigned_type w) n = n % 2 ^ bits w

abbrev outside : IntegerType → ℕ → Bool
outside boolean n = ltb 1 n
outside (signed_type w) n = int64_lt n (signed_min w) || int64_lt (signed_max w) n
outside (unsigned_type w) n = ltb (unsigned_max w) n

checked-outside :
    {S : Type 0} (type : IntegerType) (n : ℕ) (t : S)
    → checked type n t ≡ range_check (outside type n) n (cut type n) t
checked-outside boolean n t = refl
checked-outside (signed_type w) n t = refl
checked-outside (unsigned_type w) n t = refl

-- A pattern inside the range is not changed by the cut.
cut-inside :
    (type : IntegerType) (n : ℕ)
    → n < 2 ^ 64
    → outside type n ≡ false
    → (cut type n < limit type) × (n ≡ widen type (cut type n))
unfolding sign_extend
cut-inside boolean n h e = ground arith
cut-inside (signed_type w8) n h e = ground arith
cut-inside (signed_type w16) n h e = ground arith
cut-inside (signed_type w32) n h e = ground arith
cut-inside (signed_type w64) n h e = ground arith
cut-inside (unsigned_type w8) n h e = ground arith
cut-inside (unsigned_type w16) n h e = ground arith
cut-inside (unsigned_type w32) n h e = ground arith
cut-inside (unsigned_type w64) n h e = ground arith

refused :
    {A : Type 0} {a : A} {e : reflgen_cpp.Common.Outcome.SerializationError} → ¬ (err e ≡ ok a)
refused h = cc

-- What comes of an integer of a type, once the format has answered a 64-bit pattern.
pub data InRange {S : Type 0} (type : IntegerType) (n : ℕ) (t : S) : Outcome (ℕ × S) → Type 0 where
  fits : (v : ℕ) → v < limit type → n ≡ widen type v → InRange type n t (ok (v, t))
  too_large :
      ((v : ℕ) → v < limit type → ¬ (n ≡ widen type v))
      → InRange type n t (err (record { message = out_of_range n; place = nowhere }))

checked-InRange :
    {S : Type 0} (type : IntegerType) (n : ℕ) (t : S)
    → n < 2 ^ 64
    → InRange type n t (checked type n t)
checked-InRange type n t h = elim (Bool-cases (outside type n)) [
  | inl e ↦
      let run = checked-outside type n t ∙ rw e in
      subst (InRange type n t) (sym run) (
        too_large λ v hv same.
          refused (sym run ∙ ap (λ m. checked type m t) same ∙ checked-widen type t v hv))
  | inr e ↦
      let (small, same) = cut-inside type n h e in
      subst (InRange type n t) (sym (checked-outside type n t ∙ rw e))
        (fits (cut type n) small same)
]

-- Whatever 64-bit pattern the format answers for an integer of a type of any width and sign: if it is one
-- that a value of the type is widened to, `read_integer` returns that value, and if there is none it
-- throws the error that names the pattern, so that no bit of it is lost.
pub read_integer-InRange :
    {S : Type 0} (in' : ReaderCalls S) (type : IntegerType) (s t : S) (n : ℕ)
    → wide_call in' type s ≡ ok (n, t)
    → n < 2 ^ 64
    → InRange type n t (read_integer in' type s)
read_integer-InRange in' type s t n e h =
    subst (InRange type n t) (sym (read_integer-checked in' type s t n e))
      (checked-InRange type n t h)

-- The value of the data model that an integer is written as.
abbrev pub integer_value : IntegerType → ℕ → Value
integer_value (signed_type w) v = signed (sign_extend w v)
integer_value boolean v = unsigned v
integer_value (unsigned_type w) v = unsigned v

pub write_integer-value :
    {S : Type 0} (out : WriterCalls S) (type : IntegerType) (v : ℕ)
    → write_integer out type v ≡ write_value out (integer_value type v)
unfolding write_integer write_value
write_integer-value out boolean v = refl
write_integer-value out (signed_type w) v = refl
write_integer-value out (unsigned_type w) v = refl

-- What `read_integer` makes of the 64-bit pattern that a value of the type is widened to: the value.
pub read_integer-widen :
    {S : Type 0} (in' : ReaderCalls S) (type : IntegerType) (s t : S) (v : ℕ)
    → v < limit type
    → wide_call in' type s ≡ ok (widen type v, t)
    → read_integer in' type s ≡ ok (v, t)
read_integer-widen in' type s t v h e =
    read_integer-checked in' type s t (widen type v) e ∙ checked-widen type t v h

pub widen-lt : (type : IntegerType) (v : ℕ) → v < limit type → widen type v < 2 ^ 64
unfolding sign_extend
widen-lt boolean v h = omega arith
widen-lt (signed_type w8) v h = ground arith
widen-lt (signed_type w16) v h = ground arith
widen-lt (signed_type w32) v h = ground arith
widen-lt (signed_type w64) v h = ground arith
widen-lt (unsigned_type w8) v h = omega arith
widen-lt (unsigned_type w16) v h = omega arith
widen-lt (unsigned_type w32) v h = omega arith
widen-lt (unsigned_type w64) v h = omega arith
