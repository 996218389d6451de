-- ===== src/Json/Safety.antt =====
-- include/reflgen/json/reader.h on any input: what a call does to the position, and the calls that
-- move it. `Moves n s t` says that `t` is `n` bytes or more behind `s` in the same input, with the same
-- containers open.
use reflgen_cpp.Common.{
  ℕ, zero, suc, ◌+◌, ◌≤◌, ◌≡◌, refl, ◌∙◌, Bool, true, false, List, [], ◌∷◌, if◌then◌else◌, length,
  arith, Bool-cases, inl, inr, String,
}
use reflgen_cpp.Common.Outcome.{
  Outcome, Message, pure, ◌>>=◌, ◌>>◌, Ensures, Ensures-bind, Ensures-map,
}
use reflgen_cpp.Json.Input.{
  Reader, Action, fail_at, failure, fail, skip, step_over, steps_over, pass_over, move_to,
  skip_whitespace, is_whitespace,
}

-- `input_`.
abbrev pub unread : List ℕ → List ℕ → List ℕ
unread [] rest = rest
unread (b ∷ before) rest = unread before (b ∷ rest)

pub record Moves (n : ℕ) (s t : Reader) : Type 0 where
  pub same_input : unread t.before t.rest ≡ unread s.before s.rest
  pub further : length t.rest + n ≤ length s.rest
  pub same_depth : t.max_depth ≡ s.max_depth
  pub same_stack : t.stack ≡ s.stack

pub Moves-refl : (s : Reader) → Moves 0 s s
Moves-refl s = record {
  same_input = refl;
  further = omega arith;
  same_depth = refl;
  same_stack = refl;
}

pub Moves-trans : {n k : ℕ} {s t u : Reader} → Moves n s t → Moves k t u → Moves (n + k) s u
Moves-trans h g = record {
  same_input = g.same_input ∙ h.same_input;
  further = omega (arith, h.further, g.further);
  same_depth = g.same_depth ∙ h.same_depth;
  same_stack = g.same_stack ∙ h.same_stack;
}

pub Moves-weaken : {n : ℕ} {s t : Reader} (k : ℕ) → k ≤ n → Moves n s t → Moves k s t
Moves-weaken k h m = record {
  same_input = m.same_input;
  further = omega (arith, m.further);
  same_depth = m.same_depth;
  same_stack = m.same_stack;
}

-- A call that throws, or returns after `n` bytes or more, from every state.
abbrev pub Keeps : {A : Type 0} → ℕ → Action A → Type 0
Keeps n m = (s : Reader) → Ensures (λ (v, t). Moves n s t) (m s)

module _ {A B : Type 0} where
  pub Moves-bind :
      (n k : ℕ) (m : Action A) (f : A → Action B) (s : Reader)
      → Ensures (λ (v, t). Moves n s t) (m s)
      → ((a : A) (t : Reader) → Moves n s t → Ensures (λ (v, u). Moves k t u) (f a t))
      → Ensures (λ (v, u). Moves (n + k) s u) ((m >>= f) s)
  Moves-bind n k m f s h g =
      Ensures-bind (λ (v, t). Moves n s t) _ (m s) _ h
        λ (a, t) p. Ensures-map _ _ (f a t) (λ (v, u) q. Moves-trans p q) (g a t p)

  pub Keeps-bind :
      (n k : ℕ) (m : Action A) (f : A → Action B)
      → Keeps n m
      → ((a : A) → Keeps k (f a))
      → Keeps (n + k) (m >>= f)
  Keeps-bind n k m f h g s = Moves-bind n k m f s (h s) λ a t p. g a t

  pub Keeps-then :
      (n k : ℕ) (m : Action A) (f : Action B) → Keeps n m → Keeps k f → Keeps (n + k) (m >> f)
  Keeps-then n k m f h g = Keeps-bind n k m (λ _. f) h λ _. g

module _ {A : Type 0} where
  pub Keeps-weaken : (n k : ℕ) (m : Action A) → k ≤ n → Keeps n m → Keeps k m
  Keeps-weaken n k m h g s = Ensures-map _ _ (m s) (λ (v, t) p. Moves-weaken k h p) (g s)

  pub Keeps-pure : (a : A) → Keeps 0 (pure a)
  Keeps-pure a s = Moves-refl s

  pub Keeps-if :
      (n : ℕ) (b : Bool) (m k : Action A) (s : Reader)
      → (b ≡ true → Ensures (λ (v, t). Moves n s t) (m s))
      → (b ≡ false → Ensures (λ (v, t). Moves n s t) (k s))
      → Ensures (λ (v, t). Moves n s t) ((if b then m else k) s)
  Keeps-if n b m k s h g = elim (Bool-cases b) [ inl e ↦ rw e (h e) | inr e ↦ rw e (g e) ]

step_over_lem :
    (before rest : List ℕ)
    → let (b, r) = step_over before rest in
      (unread b r ≡ unread before rest) × (length r ≤ length rest)
step_over_lem before [] = (refl, omega arith)
step_over_lem before (c ∷ rest) = (refl, omega arith)

skip_lem :
    (n : ℕ) (before rest : List ℕ)
    → let (b, r) = steps_over n before rest in
      (unread b r ≡ unread before rest)
      × (length r ≤ length rest)
      × (n ≤ length rest → length r + n ≤ length rest)
skip_lem zero before rest = (refl, omega arith, λ h. omega arith)
skip_lem (suc n) before [] =
    let (e, l, _) = skip_lem n before [] in (e, l, λ h. absurd (omega arith))
skip_lem (suc n) before (c ∷ rest) =
    let (e, l, f) = skip_lem n (c ∷ before) rest in
    (e, omega arith, λ h. omega (arith, f (omega arith)))

pub skip-Keeps : (n : ℕ) → Keeps 0 (skip n)
skip-Keeps n s =
    let (e, l, _) = skip_lem n s.before s.rest in
    record { same_input = e; further = omega arith; same_depth = refl; same_stack = refl }

pub skip-Moves :
    (n : ℕ) (s : Reader) → n ≤ length s.rest → Ensures (λ (v, t). Moves n s t) (skip n s)
skip-Moves n s h =
    let (e, _, f) = skip_lem n s.before s.rest in
    record { same_input = e; further = f h; same_depth = refl; same_stack = refl }

pass_over_lem :
    (test : ℕ → Bool) (before rest : List ℕ)
    → let (b, r) = pass_over test before rest in
      (unread b r ≡ unread before rest) × (length r ≤ length rest)
unfolding pass_over
pass_over_lem test before [] = (refl, omega arith)
pass_over_lem test before (c ∷ rest) = elim (Bool-cases (test c)) [
  | inl e ↦ rw e (let (p, l) = pass_over_lem test (c ∷ before) rest in (p, omega arith))
  | inr e ↦ rw e (refl, omega arith)
]

pub pass_over-Moves :
    (test : ℕ → Bool) (s : Reader)
    → Ensures (λ (v, t). Moves 0 s t) (move_to (pass_over test s.before s.rest) s)
pass_over-Moves test s =
    let (e, l) = pass_over_lem test s.before s.rest in
    record { same_input = e; further = omega arith; same_depth = refl; same_stack = refl }

pub skip_whitespace-Keeps : Keeps 0 skip_whitespace
unfolding skip_whitespace
skip_whitespace-Keeps s = pass_over-Moves is_whitespace s

pub Ensures-if :
    {X : Type 0} (P : X → Type 0) (b : Bool) (m k : Outcome X)
    → (b ≡ true → Ensures P m)
    → (b ≡ false → Ensures P k)
    → Ensures P (if b then m else k)
Ensures-if P b m k h g = elim (Bool-cases b) [ inl e ↦ rw e (h e) | inr e ↦ rw e (g e) ]

module _ {A : Type 0} (P : A → Type 0) where
  pub fail_at-Ensures : (before : List ℕ) (message : Message) → Ensures P (fail_at before message)
  unfolding fail_at
  fail_at-Ensures before message = tt

pub fail-Keeps : (A : Type 0) (n : ℕ) (message : String) → Keeps n (fail {A = A} message)
unfolding failure
fail-Keeps A n message s = fail_at-Ensures _ s.before _
