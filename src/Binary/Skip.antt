-- ===== src/Binary/Skip.antt =====
-- `skip_value` of include/reflgen/binary/reader.h, and the calls that it makes, on any input.
use reflgen_cpp.Common.{
  ℕ, zero, suc, ◌+◌, ◌-◌, ◌*◌, ◌≤◌, ◌<◌, ◌≡◌, ◌∙◌, true, false, Bool, not, List, ◌∷◌, ◌==◌, length,
  arith,
}
use reflgen_cpp.Common.Outcome.{◌>>=◌, ◌>>◌, Ensures, Ensures-map, Ensures-bind}
use reflgen_cpp.Binary.Wire.{null, bytes}
use reflgen_cpp.Binary.Reader.{Reader, Frame, Action, advance, expect_tag, take_length}
use reflgen_cpp.Binary.Reader.{
  read_null, Casts, enter, begin_array, begin_object, next_element, next_key, is_some, skip_round,
  consume_slot, end_array, end_object, leave, skip_kind, skip_value, skip_elements, skip_entries,
  peek,
}
use reflgen_cpp.Serial.Calls.{ValueKind}
use reflgen_cpp.Binary.Safety.{Moves, peek_tag-Ensures}
use reflgen_cpp.Binary.ScalarSkip.{
  take_length-Ensures, expect_tag-Ensures, take_text-Ensures, Moves-bind, read_float-Ensures,
  read_bool-Ensures, read_string-Ensures, skip_bytes-Ensures, weaken,
}

-- As `Moves`, and the containers open in `t` are `st`.
record Opens (n : ℕ) (s t : Reader) (st : List Frame) : Type 0 where
  same_input : t.position + length t.rest ≡ s.position + length s.rest
  further : length t.rest + n ≤ length s.rest
  same_depth : t.max_depth ≡ s.max_depth
  opened : t.stack ≡ st

abbrev frame : Bool → ℕ → Frame
frame is_object remaining = record { is_object = is_object; remaining = remaining }

begin_array-Ensures :
    (s : Reader)
    → Ensures
        (λ (n, t). Opens 2 s t (frame false n ∷ s.stack) × (length s.stack < s.max_depth))
        (begin_array s)
unfolding begin_array enter
begin_array-Ensures s = grind (arith, expect_tag-Ensures, take_length-Ensures)

begin_object-Ensures :
    (s : Reader)
    → Ensures
        (λ (n, t). Opens 2 s t (frame true n ∷ s.stack) × (length s.stack < s.max_depth))
        (begin_object s)
unfolding begin_object enter
begin_object-Ensures s = grind (arith, expect_tag-Ensures, take_length-Ensures)

-- What a round of a loop starts with: the next item, if one is left, else the end.
next_element-Ensures :
    (s : Reader) (n : ℕ) (outer : List Frame)
    → s.stack ≡ frame false n ∷ outer
    → Ensures
        (λ (b, t). Opens 0 s t (frame false (n - 1) ∷ outer) × (b ≡ not (n == 0)))
        (next_element s)
unfolding next_element consume_slot
next_element-Ensures s n outer h = ground arith

next_key-Ensures :
    (s : Reader) (n : ℕ) (outer : List Frame)
    → s.stack ≡ frame true n ∷ outer
    → Ensures
        (λ (b, t). Opens 0 s t (frame true (n - 1) ∷ outer) × (is_some b ≡ not (n == 0)))
        (next_key s)
unfolding next_key consume_slot
next_key-Ensures s n outer h = grind (arith, take_text-Ensures)

abbrev Skips : (Reader → Type 0) → Action (Unit {0}) → Type 0
Skips P m = (s : Reader) → P s → Ensures (λ (v, t). Moves 1 s t) (m s)

-- A loop that leaves its container with nothing in it.
abbrev Empties : Bool → ℕ → Action (Unit {0}) → Type 0
Empties is_object size m =
    (s : Reader) (n : ℕ) (outer : List Frame)
    → s.stack ≡ frame is_object n ∷ outer
    → length s.rest ≤ size
    → Ensures (λ (v, t). Opens 0 s t (frame is_object 0 ∷ outer)) (m s)

-- `begin_*`, then a loop, then `end_*`.
container-Ensures :
    (is_object : Bool) (size : ℕ) (begin : Action ℕ) (loop end : Action (Unit {0})) (s : Reader)
    → Ensures
        (λ (n, t). Opens 2 s t (frame is_object n ∷ s.stack) × (length s.stack < s.max_depth))
        (begin s)
    → Empties is_object size loop
    → ((t : Reader) (outer : List Frame)
        → t.stack ≡ frame is_object 0 ∷ outer
        → Ensures (λ (v, u). Opens 0 t u outer) (end t))
    → length s.rest ≤ suc (suc size)
    → Ensures (λ (v, t). Moves 2 s t) ((begin >> (loop >> end)) s)
container-Ensures is_object size begin loop end s hb hl he h =
    Ensures-bind
      (λ (n, t). Opens 2 s t (frame is_object n ∷ s.stack) × (length s.stack < s.max_depth)) _
      (begin s) _ hb
      λ (n, t) (p, _).
        Ensures-bind (λ (v, u). Opens 0 t u (frame is_object 0 ∷ s.stack)) _ (loop t) _
          (hl t n s.stack p.opened (omega arith))
          λ (v, u) q. Ensures-map _ _ (end u) (λ (v, w) r. ground arith) (he u s.stack q.opened)

end_array-Ensures :
    (t : Reader) (outer : List Frame)
    → t.stack ≡ frame false 0 ∷ outer
    → Ensures (λ (v, u). Opens 0 t u outer) (end_array t)
unfolding end_array leave
end_array-Ensures t outer h = ground arith

end_object-Ensures :
    (t : Reader) (outer : List Frame)
    → t.stack ≡ frame true 0 ∷ outer
    → Ensures (λ (v, u). Opens 0 t u outer) (end_object t)
unfolding end_object leave
end_object-Ensures t outer h = ground arith

skip_kind-Ensures :
    (casts : Casts) (elements entries : Action (Unit {0})) (size : ℕ) (kind : ValueKind)
    → Empties false size elements
    → Empties true size entries
    → (s : Reader) → length s.rest ≤ suc (suc size)
    → Ensures (λ (v, t). Moves 1 s t) (skip_kind casts elements entries kind s)
unfolding skip_kind
skip_kind-Ensures casts elements entries size ValueKind.null hs ho s h =
    unfold read_null in expect_tag-Ensures null "expected null" s
skip_kind-Ensures casts elements entries size ValueKind.boolean hs ho s h =
    grind (arith, read_bool-Ensures)
skip_kind-Ensures casts elements entries size ValueKind.integer hs ho s h =
    grind (arith, read_float-Ensures)
skip_kind-Ensures casts elements entries size ValueKind.floating hs ho s h =
    grind (arith, read_float-Ensures)
skip_kind-Ensures casts elements entries size ValueKind.string hs ho s h =
    grind (arith, read_string-Ensures)
skip_kind-Ensures casts elements entries size ValueKind.bytes hs ho s h = weaken s _ (
    Moves-bind 1 1 s (expect_tag bytes "expected bytes") (λ _. take_length 1 >>= advance)
      (expect_tag-Ensures bytes _ s) λ _ t. skip_bytes-Ensures t)
skip_kind-Ensures casts elements entries size ValueKind.array hs ho s h = weaken s _ (
    container-Ensures false size begin_array elements end_array s (begin_array-Ensures s) hs
      end_array-Ensures h)
skip_kind-Ensures casts elements entries size ValueKind.object hs ho s h = weaken s _ (
    container-Ensures true size begin_object entries end_object s (begin_object-Ensures s) ho
      end_object-Ensures h)

peek-Ensures : (s : Reader) → Ensures (λ (v, t). (t ≡ s) × (1 ≤ length s.rest)) (peek s)
unfolding peek
peek-Ensures s = grind (arith, peek_tag-Ensures)

round-Ensures :
    (is_object more : Bool) (value loop : Action (Unit {0})) (size n : ℕ) (outer : List Frame)
    (s t : Reader)
    → ((u : Reader) → length u.rest ≤ size → Ensures (λ (v, w). Moves 1 u w) (value u))
    → ((u : Reader)
        → length u.rest < size
        → u.stack ≡ frame is_object (n - 1) ∷ outer
        → Ensures (λ (v, w). Opens 0 u w (frame is_object 0 ∷ outer)) (loop u))
    → length s.rest ≤ size
    → Opens 0 s t (frame is_object (n - 1) ∷ outer)
    → more ≡ not (n == 0)
    → Ensures (λ (v, w). Opens 0 s w (frame is_object 0 ∷ outer)) (skip_round more value loop t)
round-Ensures is_object false value loop size n outer s t hv hl hs p q = ground arith
round-Ensures is_object true value loop size n outer s t hv hl hs p q =
    Ensures-bind (λ (v, u). Moves 1 t u) _ (value t) _ (hv t (omega arith))
      λ (v, u) m.
        Ensures-map _ _ (loop u) (λ (v, w) r. ground arith)
          (hl u (omega arith) (m.same_stack ∙ p.opened))

-- Two units of fuel for each byte that is left are enough.
mutual
  unfolding skip_value

  skip_value_fuel :
      (casts : Casts) (fuel : ℕ) (s : Reader)
      → 2 * length s.rest < fuel
      → Ensures (λ (v, t). Moves 1 s t) (skip_value casts fuel s)
  skip_value_fuel casts zero s h = absurd (omega arith)
  skip_value_fuel casts (suc fuel) s h =
      Ensures-bind (λ (v, t). (t ≡ s) × (1 ≤ length s.rest)) _ (peek s) _ (peek-Ensures s)
        λ (kind, t) (e, b). rw e (
          skip_kind-Ensures casts (skip_elements casts fuel) (skip_entries casts fuel)
            (length s.rest - 2) kind
            (λ t n outer. skip_elements_fuel casts fuel (length s.rest - 2) t n outer (omega arith))
            (λ t n outer. skip_entries_fuel casts fuel (length s.rest - 2) t n outer (omega arith))
            s (omega arith))

  skip_elements_fuel :
      (casts : Casts) (fuel size : ℕ) (s : Reader) (n : ℕ) (outer : List Frame)
      → 2 * size + 1 < fuel
      → s.stack ≡ frame false n ∷ outer
      → length s.rest ≤ size
      → Ensures (λ (v, t). Opens 0 s t (frame false 0 ∷ outer)) (skip_elements casts fuel s)
  skip_elements_fuel casts zero size s n outer h e hs = absurd (omega arith)
  skip_elements_fuel casts (suc fuel) size s n outer h e hs =
      Ensures-bind (λ (b, t). Opens 0 s t (frame false (n - 1) ∷ outer) × (b ≡ not (n == 0))) _
        (next_element s) _ (next_element-Ensures s n outer e)
        λ (b, t) (p, q).
          round-Ensures false b (skip_value casts fuel) (skip_elements casts fuel) size n outer s t
            (λ u hu. skip_value_fuel casts fuel u (omega arith))
            (λ u hu eu.
              skip_elements_fuel casts fuel (size - 1) u (n - 1) outer (omega arith) eu
                (omega arith))
            hs p q

  skip_entries_fuel :
      (casts : Casts) (fuel size : ℕ) (s : Reader) (n : ℕ) (outer : List Frame)
      → 2 * size + 1 < fuel
      → s.stack ≡ frame true n ∷ outer
      → length s.rest ≤ size
      → Ensures (λ (v, t). Opens 0 s t (frame true 0 ∷ outer)) (skip_entries casts fuel s)
  skip_entries_fuel casts zero size s n outer h e hs = absurd (omega arith)
  skip_entries_fuel casts (suc fuel) size s n outer h e hs =
      Ensures-bind (λ (b, t). Opens 0 s t (frame true (n - 1) ∷ outer) × (is_some b ≡ not (n == 0)))
        _ (next_key s) _ (next_key-Ensures s n outer e)
        λ (b, t) (p, q).
          round-Ensures true (is_some b) (skip_value casts fuel) (skip_entries casts fuel) size n
            outer s t (λ u hu. skip_value_fuel casts fuel u (omega arith))
            (λ u hu eu.
              skip_entries_fuel casts fuel (size - 1) u (n - 1) outer (omega arith) eu
                (omega arith))
            hs p q

-- On any input, `skip_value` neither reads outside the input nor runs on: with two units of fuel for
-- each byte that is left and one more it throws, or returns with one byte or more skipped, the
-- position and the bytes that are left adding up as before, with the same containers open.
pub skip_value-Ensures :
    (casts : Casts) (s : Reader) (fuel : ℕ)
    → 2 * length s.rest < fuel
    → Ensures (λ (v, t). Moves 1 s t) (skip_value casts fuel s)
skip_value-Ensures casts s fuel h = skip_value_fuel casts fuel s h
