-- ===== src/Json/Skip/Value.antt =====
-- `skip_value` of include/reflgen/json/reader.h on any input.
use reflgen_cpp.Common.{
  ℕ, zero, suc, ◌+◌, ◌-◌, ◌*◌, ◌≤◌, ◌<◌, ◌≡◌, refl, Bool, true, false, ◌||◌, List, [], ◌∷◌, ◌==◌,
  if◌then◌else◌, length, arith, String,
}
use reflgen_cpp.Common.Outcome.{Outcome, pure, ◌>>=◌, ◌>>◌, Ensures, Ensures-bind, Ensures-map}
use reflgen_cpp.Serial.Calls.{ValueKind}
use reflgen_cpp.Json.Input.{Reader, Frame, Action, skip_whitespace, failure, fail}
use reflgen_cpp.Json.Numbers.{scan_number, is_digit, is_integer_token}
use reflgen_cpp.Json.Strings.{parse_string}
use reflgen_cpp.Json.Safety.{
  Moves, Moves-refl, Moves-trans, Moves-weaken, Keeps, Keeps-weaken, fail_at-Ensures,
  skip_whitespace-Keeps,
}
use reflgen_cpp.Json.Tokens.{scan_number-Moves}
use reflgen_cpp.Json.Texts.{parse_string-Moves}
use reflgen_cpp.Json.Reader.{
  look_ahead, peek_at, peek, read_null, read_bool, begin_array, begin_object, next_element,
  next_key, end_array, end_object, discard, skip_kind, skip_round, is_some, skip_value,
  skip_elements, skip_entries,
}
use reflgen_cpp.Json.ScalarSkip.{read_null-Moves, read_bool-Moves}
use reflgen_cpp.Json.Skip.{
  Opens, frame, Opens-trans, Opens-Moves, begin_in-Ensures, next_element-Ensures, next_key-Ensures,
  end_array-Ensures, end_object-Ensures,
}

-- The call looks at the input and leaves it, and there is some.
abbrev Looks : {A : Type 0} → Reader → Outcome (A × Reader) → Type 0
Looks s m = Ensures (λ (v, t). Moves 0 s t × (1 ≤ length t.rest)) m

Looks-if :
    {A : Type 0} (b : Bool) (m k : Action A) (s : Reader)
    → Looks s (m s)
    → Looks s (k s)
    → Looks s ((if b then m else k) s)
Looks-if true m k s h g = h
Looks-if false m k s h g = g

abbrev kind_of_token : List ℕ → Action ValueKind
kind_of_token token =
    pure (if is_integer_token token then ValueKind.integer else ValueKind.floating)

look_ahead-Looks : (s : Reader) → 1 ≤ length s.rest → Looks s ((look_ahead >>= kind_of_token) s)
look_ahead-Looks s h =
    Ensures-bind (λ (v, t). t ≡ s) _ (look_ahead s) _
      (Ensures-bind (λ (v, t). Moves 1 s t) _ (scan_number s) _ (scan_number-Moves s) λ _ _. refl)
      λ (v, t) e. rw e (Moves-refl s, h)

fail-Looks : (message : String) (s : Reader) → Looks s (fail {A = ValueKind} message s)
unfolding failure
fail-Looks message s = fail_at-Ensures _ s.before _

peek_at-Looks : (rest : List ℕ) (s : Reader) → s.rest ≡ rest → Looks s (peek_at rest s)
unfolding peek_at
peek_at-Looks [] s e = fail-Looks "expected a value" s
peek_at-Looks (c ∷ rest) s e =
    let some' : 1 ≤ length s.rest = rw e (omega arith) in
    let here : Moves 0 s s × (1 ≤ length s.rest) = (Moves-refl s, some') in
    Looks-if (c == b'n') _ _ s here (
      Looks-if (c == b't' || c == b'f') _ _ s here (
        Looks-if (c == b'"') _ _ s here (
          Looks-if (c == b'[') _ _ s here (
            Looks-if (c == b'{') _ _ s here (
              Looks-if (c == b'-' || is_digit c) (look_ahead >>= kind_of_token) _ s
                (look_ahead-Looks s some') (fail-Looks "unexpected character" s))))))

peek-Looks : (s : Reader) → Looks s (peek s)
unfolding peek
peek-Looks s =
    Ensures-bind (λ (v, t). Moves 0 s t) _ (skip_whitespace s) _ (skip_whitespace-Keeps s)
      λ (v, t) p.
        Ensures-map _ _ (peek_at t.rest t) (λ (k, u) (q, h). (Moves-trans p q, h))
          (peek_at-Looks t.rest t refl)

-- A loop that reads its container to the end.
abbrev Empties : Bool → ℕ → Action (Unit {0}) → Type 0
Empties is_object size m =
    (s : Reader) (first : Bool) (outer : List Frame)
    → s.stack ≡ frame is_object first ∷ outer
    → length s.rest ≤ size
    → Ensures (λ (v, t). Opens 0 s t (frame is_object false ∷ outer)) (m s)

-- `begin_*`, then a loop, then `end_*`.
container-Moves :
    (is_object : Bool) (size : ℕ) (begin loop end : Action (Unit {0})) (s : Reader)
    → Ensures (λ (v, t). Opens 1 s t (frame is_object true ∷ s.stack)) (begin s)
    → Empties is_object size loop
    → ((t : Reader) (first : Bool) (outer : List Frame)
        → t.stack ≡ frame is_object first ∷ outer
        → Ensures (λ (v, u). Opens 0 t u outer) (end t))
    → length s.rest ≤ suc size
    → Ensures (λ (v, t). Moves 1 s t) ((begin >> (loop >> end)) s)
container-Moves is_object size begin loop end s hb hl he h =
    Ensures-bind (λ (v, t). Opens 1 s t (frame is_object true ∷ s.stack)) _ (begin s) _ hb
      λ (v, t) p.
        Ensures-bind (λ (w, u). Opens 0 t u (frame is_object false ∷ s.stack)) _ (loop t) _
          (hl t true s.stack p.opened (omega (arith, p.further)))
          λ (w, u) q.
            Ensures-map _ _ (end u) (λ (x, y) r. closed (Opens-trans (Opens-trans p q) r))
              (he u false s.stack q.opened)
  where
    closed : {t : Reader} → Opens 1 s t s.stack → Moves 1 s t
    closed o = record {
      same_input = o.same_input;
      further = o.further;
      same_depth = o.same_depth;
      same_stack = o.opened;
    }

discard-Moves : {A : Type 0} (n : ℕ) (m : Action A) → 1 ≤ n → Keeps n m → Keeps 1 (discard m)
discard-Moves n m h k s =
    Ensures-bind (λ (v, t). Moves n s t) _ (m s) _ (k s) λ (v, t) p. Moves-weaken 1 h p

skip_kind-Moves :
    (elements entries : Action (Unit {0})) (size : ℕ) (kind : ValueKind)
    → Empties false size elements
    → Empties true size entries
    → (s : Reader) → length s.rest ≤ suc size
    → Ensures (λ (v, t). Moves 1 s t) (skip_kind elements entries kind s)
unfolding skip_kind begin_array begin_object
skip_kind-Moves elements entries size ValueKind.null hs ho s h =
    Keeps-weaken 4 1 read_null (omega arith) read_null-Moves s
skip_kind-Moves elements entries size ValueKind.boolean hs ho s h =
    discard-Moves 4 read_bool (omega arith) read_bool-Moves s
skip_kind-Moves elements entries size ValueKind.integer hs ho s h =
    discard-Moves 1 scan_number (omega arith) scan_number-Moves s
skip_kind-Moves elements entries size ValueKind.floating hs ho s h =
    discard-Moves 1 scan_number (omega arith) scan_number-Moves s
skip_kind-Moves elements entries size ValueKind.string hs ho s h =
    discard-Moves 1 parse_string (omega arith) parse_string-Moves s
skip_kind-Moves elements entries size ValueKind.bytes hs ho s h =
    discard-Moves 1 parse_string (omega arith) parse_string-Moves s
skip_kind-Moves elements entries size ValueKind.array hs ho s h =
    container-Moves false size begin_array elements end_array s
      (begin_in-Ensures false b'[' _ s (omega arith)) hs end_array-Ensures h
skip_kind-Moves elements entries size ValueKind.object hs ho s h =
    container-Moves true size begin_object entries end_object s
      (begin_in-Ensures true b'{' _ s (omega arith)) ho end_object-Ensures h

-- A round of a loop: `value` takes a byte at least, so that less is left for the rounds to come.
round-Opens :
    (is_object more : Bool) (value loop : Action (Unit {0})) (size : ℕ) (outer : List Frame)
    (s t : Reader)
    → ((u : Reader) → length u.rest ≤ size → Ensures (λ (v, w). Moves 1 u w) (value u))
    → ((u : Reader)
        → length u.rest < size
        → u.stack ≡ frame is_object false ∷ outer
        → Ensures (λ (v, w). Opens 0 u w (frame is_object false ∷ outer)) (loop u))
    → length s.rest ≤ size
    → Opens 0 s t (frame is_object false ∷ outer)
    → Ensures (λ (v, w). Opens 0 s w (frame is_object false ∷ outer)) (skip_round more value loop t)
round-Opens is_object false value loop size outer s t hv hl hs p = p
round-Opens is_object true value loop size outer s t hv hl hs p =
    Ensures-bind (λ (v, u). Moves 1 t u) _ (value t) _ (hv t (omega (arith, p.further)))
      λ (v, u) m.
        let o = Opens-Moves p m in
        Ensures-map _ _ (loop u)
          (λ (v, w) r.
            let whole = Opens-trans o r in
            record {
              same_input = whole.same_input;
              further = omega (arith, whole.further);
              same_depth = whole.same_depth;
              opened = whole.opened;
            })
          (hl u (omega (arith, o.further)) o.opened)

mutual
  unfolding skip_value

  skip_value_fuel :
      (fuel : ℕ) (s : Reader)
      → 2 * length s.rest < fuel
      → Ensures (λ (v, t). Moves 1 s t) (skip_value fuel s)
  skip_value_fuel zero s h = absurd (omega arith)
  skip_value_fuel (suc fuel) s h =
      Ensures-bind (λ (v, t). Moves 0 s t × (1 ≤ length t.rest)) _ (peek s) _ (peek-Looks s)
        λ (kind, t) (p, b).
          let less = p.further in
          Ensures-map _ _ (skip_kind (skip_elements fuel) (skip_entries fuel) kind t)
            (λ (v, u) q. Moves-trans p q)
            (skip_kind-Moves (skip_elements fuel) (skip_entries fuel) (length t.rest - 1) kind
              (λ u first outer.
                skip_elements_fuel fuel (length t.rest - 1) u first outer (omega arith))
              (λ u first outer.
                skip_entries_fuel fuel (length t.rest - 1) u first outer (omega arith))
              t (omega arith))

  skip_elements_fuel :
      (fuel size : ℕ) (s : Reader) (first : Bool) (outer : List Frame)
      → 2 * size + 1 < fuel
      → s.stack ≡ frame false first ∷ outer
      → length s.rest ≤ size
      → Ensures (λ (v, t). Opens 0 s t (frame false false ∷ outer)) (skip_elements fuel s)
  skip_elements_fuel zero size s first outer h e hs = absurd (omega arith)
  skip_elements_fuel (suc fuel) size s first outer h e hs =
      Ensures-bind (λ (b, t). Opens 0 s t (frame false false ∷ outer)) _ (next_element s) _
        (next_element-Ensures s first outer e)
        λ (b, t) p.
          round-Opens false b (skip_value fuel) (skip_elements fuel) size outer s t
            (λ u hu. skip_value_fuel fuel u (omega arith))
            (λ u hu eu.
              skip_elements_fuel fuel (size - 1) u false outer (omega arith) eu (omega arith))
            hs p

  skip_entries_fuel :
      (fuel size : ℕ) (s : Reader) (first : Bool) (outer : List Frame)
      → 2 * size + 1 < fuel
      → s.stack ≡ frame true first ∷ outer
      → length s.rest ≤ size
      → Ensures (λ (v, t). Opens 0 s t (frame true false ∷ outer)) (skip_entries fuel s)
  skip_entries_fuel zero size s first outer h e hs = absurd (omega arith)
  skip_entries_fuel (suc fuel) size s first outer h e hs =
      Ensures-bind (λ (b, t). Opens 0 s t (frame true false ∷ outer)) _ (next_key s) _
        (next_key-Ensures s first outer e)
        λ (key, t) p.
          round-Opens true (is_some key) (skip_value fuel) (skip_entries fuel) size outer s t
            (λ u hu. skip_value_fuel fuel u (omega arith))
            (λ u hu eu.
              skip_entries_fuel fuel (size - 1) u false outer (omega arith) eu (omega arith))
            hs p

-- On any input and with any containers open, the JSON `skip_value` neither reads outside the input nor
-- runs on: with two units of fuel for each byte that is left and one more it throws, or returns with one
-- byte or more skipped, in the same input, with the same containers open.
pub skip_value-Moves :
    (s : Reader) (fuel : ℕ)
    → 2 * length s.rest < fuel
    → Ensures (λ (v, t). Moves 1 s t) (skip_value fuel s)
skip_value-Moves s fuel h = skip_value_fuel fuel s h
