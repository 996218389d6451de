-- ===== src/Binary/ScalarSkip.antt =====
-- The calls of include/reflgen/binary/reader.h for one scalar, before any input.
use reflgen_cpp.Common.{ℕ, ◌+◌, ◌/◌, ◌≤◌, ◌≡◌, refl, length, length-drop, arith, String}
use reflgen_cpp.Common.Outcome.{Outcome, ◌>>=◌, Ensures, Ensures-map, Ensures-bind}
use reflgen_cpp.Binary.Wire.{IsU64, Tag, signed_integer, unsigned_integer, floating, string}
use reflgen_cpp.Binary.Reader.{
  Reader, Action, advance, peek_tag, take_tag, expect_tag, take_varint, take_length,
}
use reflgen_cpp.Binary.Reader.{
  read_bool, read_int, read_uint, read_float, read_string, take_text, read_uint_tagged,
  read_int_tagged, read_float_tagged, Casts,
}
use reflgen_cpp.Binary.Safety.{Moves, take_tag-Ensures, peek_tag-Ensures, take_varint_loop-Ensures}

take_varint-Ensures : (s : Reader) → Ensures (λ (v, t). IsU64 v × Moves 1 s t) (take_varint s)
unfolding take_varint
take_varint-Ensures s =
    take_varint_loop-Ensures 10 0 0 s.position s.rest s.max_depth s.stack refl (omega arith)

-- A length that is accepted fits into the input behind it.
pub take_length-Ensures :
    (m : ℕ) (s : Reader)
    → Ensures (λ (v, t). Moves 1 s t × (v ≤ length t.rest / m)) (take_length m s)
unfolding take_length
take_length-Ensures m s = grind (arith, take_varint-Ensures)

pub expect_tag-Ensures :
    (e : Tag) (m : String) (s : Reader) → Ensures (λ (v, t). Moves 1 s t) (expect_tag e m s)
unfolding expect_tag
expect_tag-Ensures e m s = grind (arith, peek_tag-Ensures)

pub take_text-Ensures : (s : Reader) → Ensures (λ (v, t). Moves 1 s t) (take_text s)
unfolding take_text
take_text-Ensures s = grind (arith, take_length-Ensures, length-drop)

Moves-trans : (n k : ℕ) (s t u : Reader) → Moves n s t → Moves k t u → Moves (n + k) s u
Moves-trans n k s t u h g = ground arith

read_uint_tagged-Ensures :
    (tag : Tag) (start : ℕ) (s : Reader)
    → Ensures (λ (v, t). IsU64 v × Moves 0 s t) (read_uint_tagged tag start s)
read_uint_tagged-Ensures unsigned_integer start s = grind (arith, take_varint-Ensures)
read_uint_tagged-Ensures signed_integer start s = grind (arith, take_varint-Ensures)
read_uint_tagged-Ensures _ start s = tt

read_uint-Ensures : (s : Reader) → Ensures (λ (v, t). IsU64 v × Moves 1 s t) (read_uint s)
unfolding read_uint
read_uint-Ensures s =
    Ensures-bind (λ (tag, t). Moves 1 s t) _ (take_tag s) _ (take_tag-Ensures s)
      λ (tag, t) h.
        Ensures-map _ _ (read_uint_tagged tag s.position t)
          (λ (v, u) (b, g). (b, Moves-trans 1 0 s t u h g))
          (read_uint_tagged-Ensures tag s.position t)

read_int_tagged-Ensures :
    (tag : Tag) (start : ℕ) (s : Reader)
    → Ensures (λ (v, t). Moves 0 s t) (read_int_tagged tag start s)
read_int_tagged-Ensures unsigned_integer start s = grind (arith, take_varint-Ensures)
read_int_tagged-Ensures signed_integer start s = grind (arith, take_varint-Ensures)
read_int_tagged-Ensures _ start s = tt

-- A call that moves, then another.
pub Moves-bind :
    {A B : Type 0} (n k : ℕ) (s : Reader) (m : Action A) (f : A → Action B)
    → Ensures (λ (v, t). Moves n s t) (m s)
    → ((a : A) (t : Reader) → Ensures (λ (v, u). Moves k t u) (f a t))
    → Ensures (λ (v, u). Moves (n + k) s u) ((m >>= f) s)
Moves-bind n k s m f h g =
    Ensures-bind (λ (v, t). Moves n s t) _ (m s) _ h
      λ (a, t) p. Ensures-map _ _ (f a t) (λ (v, u) q. Moves-trans n k s t u p q) (g a t)

read_int-Ensures : (s : Reader) → Ensures (λ (v, t). Moves 1 s t) (read_int s)
unfolding read_int
read_int-Ensures s =
    Moves-bind 1 0 s take_tag (λ tag. read_int_tagged tag s.position) (take_tag-Ensures s)
      λ tag t. read_int_tagged-Ensures tag s.position t

read_float_tagged-Ensures :
    (casts : Casts) (tag : Tag) (start : ℕ) (s : Reader)
    → 1 ≤ length s.rest
    → Ensures (λ (v, t). Moves 1 s t) (read_float_tagged casts tag start s)
read_float_tagged-Ensures casts signed_integer start s h = grind (arith, read_int-Ensures)
read_float_tagged-Ensures casts unsigned_integer start s h = grind (arith, read_uint-Ensures)
read_float_tagged-Ensures casts floating start s h = grind (arith, length-drop)
read_float_tagged-Ensures casts _ start s h = tt

pub read_float-Ensures :
    (casts : Casts) (s : Reader) → Ensures (λ (v, t). Moves 1 s t) (read_float casts s)
unfolding read_float
read_float-Ensures casts s =
    Ensures-bind (λ (v, t). (t ≡ s) × (1 ≤ length s.rest)) _ (peek_tag s) _ (peek_tag-Ensures s)
      λ (v, t) (e, h). rw e (read_float_tagged-Ensures casts v s.position s h)

pub read_bool-Ensures : (s : Reader) → Ensures (λ (v, t). Moves 1 s t) (read_bool s)
unfolding read_bool
read_bool-Ensures s = grind (arith, take_tag-Ensures)

pub read_string-Ensures : (s : Reader) → Ensures (λ (v, t). Moves 2 s t) (read_string s)
unfolding read_string
read_string-Ensures s =
    Moves-bind 1 1 s (expect_tag string "expected a string") (λ _. take_text)
      (expect_tag-Ensures string _ s) λ _ t. take_text-Ensures t

pub skip_bytes-Ensures :
    (s : Reader) → Ensures (λ (v, t). Moves 1 s t) ((take_length 1 >>= advance) s)
skip_bytes-Ensures s = grind (arith, take_length-Ensures, length-drop)

pub weaken :
    {A : Type 0} (s : Reader) (m : Outcome (A × Reader))
    → Ensures (λ (v, t). Moves 2 s t) m
    → Ensures (λ (v, t). Moves 1 s t) m
weaken s m = Ensures-map _ _ m (λ (v, t) h. ground arith)
