-- ===== src/Json/Skip.antt =====
-- The calls of include/reflgen/json/reader.h that `skip_value` makes, on any input; Value is about
-- `skip_value` itself.
pub mod Value
use reflgen_cpp.Common.{
  bytes_eq, ℕ, zero, suc, ◌+◌, ◌-◌, ◌*◌, ◌≤◌, ◌<◌, ◌≡◌, refl, ◌∙◌, Bool, true, false, not, ◌&&◌,
  ◌||◌, List, [], ◌∷◌, ltb, leb, ◌==◌, if◌then◌else◌, length, take, arith, Bool-cases, inl, inr,
  String, Option, none, some,
}
use reflgen_cpp.Common.Outcome.{
  Outcome, ok, err, fault, out_of_fuel, bind, pure, ◌>>=◌, ◌>>◌, Ensures, Ensures-bind, Ensures-map,
  says,
}
use mathlib.Core.Path.{subst, sym}
use reflgen_cpp.Serial.Calls.{ValueKind}
use reflgen_cpp.Json.Base64.{codes}
use reflgen_cpp.Json.Input.{
  Reader, Frame, Action, fail_if, fail_at, failure, fail, current, skip, skip_whitespace,
  expect_literal, enter,
}
use reflgen_cpp.Json.Numbers.{scan_number}
use reflgen_cpp.Json.Strings.{parse_string}
use reflgen_cpp.Json.Safety.{
  unread, Moves, Moves-refl, Moves-trans, Moves-weaken, Moves-bind, Keeps, Keeps-bind, Keeps-then,
  Keeps-weaken, Keeps-pure, Keeps-if, Ensures-if, fail_at-Ensures, fail-Keeps, skip-Keeps,
  skip-Moves, skip_whitespace-Keeps,
}
use reflgen_cpp.Json.Tokens.{fail_if-Keeps, scan_number-Moves, current-rest}
use reflgen_cpp.Json.Texts.{parse_string-Moves}
use reflgen_cpp.Json.Reader.{
  expect_char, read_bool_here, peek_at, peek, read_null, read_bool, begin_in, begin_array,
  begin_object, not_in_array, not_in_object, advance_comma, advance_in, advance, next_element,
  next_key_after, next_key, pop_back, end_in, end_array, end_object, discard, skip_kind, skip_round,
  is_some, skip_value, skip_elements, skip_entries,
}
use reflgen_cpp.Json.ScalarSkip.{expect_char-Ensures, expect_char-Keeps}

-- As `Moves`, and the containers open in `t` are `st`.
record Opens (n : ℕ) (s t : Reader) (st : List Frame) : Type 0 where
  same_input : unread t.before t.rest ≡ unread s.before s.rest
  further : length t.rest + n ≤ length s.rest
  same_depth : t.max_depth ≡ s.max_depth
  opened : t.stack ≡ st

abbrev frame : Bool → Bool → Frame
frame is_object first = record { is_object = is_object; first = first }

Moves-Opens :
    {n k : ℕ} {s t u : Reader} {st : List Frame}
    → Moves n s t
    → Opens k t u st
    → Opens (n + k) s u st
Moves-Opens m o = record {
  same_input = o.same_input ∙ m.same_input;
  further = omega (arith, m.further, o.further);
  same_depth = o.same_depth ∙ m.same_depth;
  opened = o.opened;
}

Opens-trans :
    {n k : ℕ} {s t u : Reader} {st st' : List Frame}
    → Opens n s t st
    → Opens k t u st'
    → Opens (n + k) s u st'
Opens-trans m o = record {
  same_input = o.same_input ∙ m.same_input;
  further = omega (arith, m.further, o.further);
  same_depth = o.same_depth ∙ m.same_depth;
  opened = o.opened;
}

Opens-Moves :
    {n k : ℕ} {s t u : Reader} {st : List Frame}
    → Opens n s t st
    → Moves k t u
    → Opens (n + k) s u st
Opens-Moves m o = record {
  same_input = o.same_input ∙ m.same_input;
  further = omega (arith, m.further, o.further);
  same_depth = o.same_depth ∙ m.same_depth;
  opened = o.same_stack ∙ m.opened;
}

-- A run of calls: the first moves, then the others open.
Opens-bind :
    {A B : Type 0} (n k : ℕ) (m : Action A) (f : A → Action B) (s : Reader) (st : List Frame)
    → Ensures (λ (v, t). Moves n s t) (m s)
    → ((a : A) (t : Reader) → Moves n s t → Ensures (λ (v, u). Opens k t u st) (f a t))
    → Ensures (λ (v, u). Opens (n + k) s u st) ((m >>= f) s)
Opens-bind n k m f s st h g =
    Ensures-bind (λ (v, t). Moves n s t) _ (m s) _ h
      λ (a, t) p. Ensures-map _ _ (f a t) (λ (v, u) q. Moves-Opens p q) (g a t p)

enter_open-Ensures :
    (is_object : Bool) (s : Reader)
    → 1 ≤ length s.rest
    → Ensures
        (λ (v, t). Opens 1 s t (frame is_object true ∷ s.stack))
        ((enter is_object >> skip 1) s)
unfolding enter failure
enter_open-Ensures is_object s h =
    Ensures-bind (λ (v, t). Opens 0 s t (frame is_object true ∷ s.stack) × (t.rest ≡ s.rest)) _
      (enter is_object s) _
      (Ensures-if _ (leb s.max_depth (length s.stack)) _ _ (λ _. fail_at-Ensures _ s.before _)
        λ _. (
          record { same_input = refl; further = omega arith; same_depth = refl; opened = refl },
          refl,
        ))
      λ (v, t) (o, e). Opens-Moves o (skip-Moves 1 t (rw e h))

begin_in-Ensures :
    (is_object : Bool) (opening : ℕ) (message : String) (s : Reader)
    → 1 ≤ opening
    → Ensures
        (λ (v, t). Opens 1 s t (frame is_object true ∷ s.stack))
        (begin_in is_object opening message s)
unfolding begin_in
begin_in-Ensures is_object opening message s h =
    Opens-bind 0 1 skip_whitespace (λ _. expect_char opening message >> (enter is_object >> skip 1))
      s (frame is_object true ∷ s.stack) (skip_whitespace-Keeps s)
      λ v t p.
        Ensures-bind (λ (v, u). (u ≡ t) × (1 ≤ length t.rest)) _ (expect_char opening message t) _
          (expect_char-Ensures opening message t h)
          λ (w, u) (e, l). rw (e, ← p.same_stack) (enter_open-Ensures is_object t l)

-- What `advance` does behind a comma.
abbrev behind_comma : ℕ → Action Bool
behind_comma closing =
    skip_whitespace >> ((λ t. fail_if (current t == closing) "trailing comma" t) >> pure true)

advance_comma-Keeps : (closing : ℕ) → Keeps 0 (advance_comma closing)
unfolding failure
advance_comma-Keeps closing s =
    Ensures-if _ (current s == closing) _ _ (λ _. Moves-refl s)
      λ _.
        Ensures-if _ (not (current s == b',')) _ _ (λ _. fail_at-Ensures _ s.before _)
          λ _.
            Keeps-then 0 0 (skip 1) (behind_comma closing) (skip-Keeps 1)
              (Keeps-then 0 0 skip_whitespace
                ((λ t. fail_if (current t == closing) "trailing comma" t) >> pure true)
                skip_whitespace-Keeps
                (Keeps-then 0 0 (λ t. fail_if (current t == closing) "trailing comma" t) (pure true)
                  (λ t. fail_if-Keeps (current t == closing) _ t) (Keeps-pure true)))
              s

advance_in-Ensures :
    (closing : ℕ) (is_object first : Bool) (outer : List Frame) (s : Reader)
    → s.stack ≡ frame is_object first ∷ outer
    → Ensures
        (λ (v, t). Opens 0 s t (frame is_object false ∷ outer))
        (advance_in closing (frame is_object first ∷ outer) s)
unfolding advance_in
advance_in-Ensures closing is_object true outer s h = record {
  same_input = refl;
  further = omega arith;
  same_depth = refl;
  opened = refl;
}
advance_in-Ensures closing is_object false outer s h =
    Ensures-map _ _ (advance_comma closing s)
      (λ (v, t) m. record {
        same_input = m.same_input;
        further = m.further;
        same_depth = m.same_depth;
        opened = m.same_stack ∙ h;
      })
      (advance_comma-Keeps closing s)

advance-Ensures :
    (closing : ℕ) (is_object first : Bool) (outer : List Frame) (s : Reader)
    → s.stack ≡ frame is_object first ∷ outer
    → Ensures (λ (v, t). Opens 0 s t (frame is_object false ∷ outer)) (advance closing s)
unfolding advance
advance-Ensures closing is_object first outer s h =
    Opens-bind 0 0 skip_whitespace (λ _ t. advance_in closing t.stack t) s
      (frame is_object false ∷ outer) (skip_whitespace-Keeps s)
      λ v t p.
        let e = p.same_stack ∙ h in
        subst
          (λ st.
            Ensures (λ (w, u). Opens 0 t u (frame is_object false ∷ outer))
              (advance_in closing st t))
          (sym e) (advance_in-Ensures closing is_object first outer t e)

next_element-Ensures :
    (s : Reader) (first : Bool) (outer : List Frame)
    → s.stack ≡ frame false first ∷ outer
    → Ensures (λ (v, t). Opens 0 s t (frame false false ∷ outer)) (next_element s)
unfolding next_element
next_element-Ensures s first outer h =
    Opens-bind 0 0 (λ t. fail_if (not_in_array t.stack) "next_element outside of an array" t)
      (λ _. advance b']') s (frame false false ∷ outer) (fail_if-Keeps (not_in_array s.stack) _ s)
      λ v t p. advance-Ensures b']' false first outer t (p.same_stack ∙ h)

abbrev colon : List ℕ → Action (Option (List ℕ))
colon key = skip_whitespace >> (expect_char b':' "expected ':'" >> (skip 1 >> pure (some key)))

-- A key and its colon.
next_key_after-Keeps : (more : Bool) → Keeps 0 (next_key_after more)
next_key_after-Keeps false = Keeps-pure {A = Option (List ℕ)} none
next_key_after-Keeps true =
    Keeps-then 0 0 (expect_char b'"' "expected a string key") (parse_string >>= colon)
      (expect_char-Keeps b'"' _ (omega arith))
      (Keeps-weaken 1 0 _ (omega arith) (
        Keeps-bind 1 0 parse_string colon parse_string-Moves λ key.
          Keeps-then 0 0 skip_whitespace
            (expect_char b':' "expected ':'" >> (skip 1 >> pure (some key))) skip_whitespace-Keeps
            (Keeps-then 0 0 (expect_char b':' "expected ':'") (skip 1 >> pure (some key))
              (expect_char-Keeps b':' _ (omega arith))
              (Keeps-then 0 0 (skip 1) (pure (some key)) (skip-Keeps 1) (Keeps-pure (some key))))))

next_key-Ensures :
    (s : Reader) (first : Bool) (outer : List Frame)
    → s.stack ≡ frame true first ∷ outer
    → Ensures (λ (v, t). Opens 0 s t (frame true false ∷ outer)) (next_key s)
unfolding next_key
next_key-Ensures s first outer h =
    Opens-bind 0 0 (λ t. fail_if (not_in_object t.stack) "next_key outside of an object" t)
      (λ _. advance b'}' >>= next_key_after) s (frame true false ∷ outer)
      (fail_if-Keeps (not_in_object s.stack) _ s)
      λ v t p.
        Ensures-bind (λ (more, u). Opens 0 t u (frame true false ∷ outer)) _ (advance b'}' t) _
          (advance-Ensures b'}' true first outer t (p.same_stack ∙ h))
          λ (more, u) o.
            Ensures-map _ _ (next_key_after more u) (λ (w, x) m. Opens-Moves o m)
              (next_key_after-Keeps more u)

pop_back-Ensures :
    (s : Reader) (st : List Frame) (is_object first : Bool) (outer : List Frame)
    → st ≡ frame is_object first ∷ outer
    → Ensures (λ (v, t). Opens 0 s t outer) (pop_back st s)
pop_back-Ensures s st is_object first outer e =
    subst (λ x. Ensures (λ (v, t). Opens 0 s t outer) (pop_back x s)) (sym e)
      (record { same_input = refl; further = omega arith; same_depth = refl; opened = refl })

end_in-Ensures :
    (closing : ℕ) (message : String) (s : Reader) (is_object first : Bool) (outer : List Frame)
    → 1 ≤ closing
    → s.stack ≡ frame is_object first ∷ outer
    → Ensures (λ (v, t). Opens 0 s t outer) (end_in closing message s)
unfolding end_in
end_in-Ensures closing message s is_object first outer c h =
    Opens-bind 0 0 skip_whitespace
      (λ _. expect_char closing message >> (skip 1 >> λ t. pop_back t.stack t)) s outer
      (skip_whitespace-Keeps s)
      λ v t p.
        Opens-bind 0 0 (expect_char closing message) (λ _. skip 1 >> λ u. pop_back u.stack u) t
          outer (expect_char-Keeps closing message c t)
          λ w u q.
            Opens-bind 0 0 (skip 1) (λ _ x. pop_back x.stack x) u outer (skip-Keeps 1 u)
              λ y x r.
                pop_back-Ensures x x.stack is_object first outer
                  (r.same_stack ∙ q.same_stack ∙ p.same_stack ∙ h)

end_array-Ensures :
    (s : Reader) (first : Bool) (outer : List Frame)
    → s.stack ≡ frame false first ∷ outer
    → Ensures (λ (v, t). Opens 0 s t outer) (end_array s)
unfolding end_array
end_array-Ensures s first outer h =
    Opens-bind 0 0 (λ t. fail_if (not_in_array t.stack) "end_array outside of an array" t)
      (λ _. end_in b']' "expected ']'") s outer (fail_if-Keeps (not_in_array s.stack) _ s)
      λ v t p. end_in-Ensures b']' _ t false first outer (omega arith) (p.same_stack ∙ h)

end_object-Ensures :
    (s : Reader) (first : Bool) (outer : List Frame)
    → s.stack ≡ frame true first ∷ outer
    → Ensures (λ (v, t). Opens 0 s t outer) (end_object s)
unfolding end_object
end_object-Ensures s first outer h =
    Opens-bind 0 0 (λ t. fail_if (not_in_object t.stack) "end_object outside of an object" t)
      (λ _. end_in b'}' "expected '}'") s outer (fail_if-Keeps (not_in_object s.stack) _ s)
      λ v t p. end_in-Ensures b'}' _ t true first outer (omega arith) (p.same_stack ∙ h)
