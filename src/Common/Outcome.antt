-- ===== src/Common/Outcome.antt =====
-- What a call comes to: a value, a thrown serialization_error, a read outside the input, or no
-- fuel left in a loop of the model.
use Prim.Native.Nat.{ℕ}
use Prim.Native.String.{String}
use mathlib.Core.Path.{◌≡◌, refl, subst}
use mathlib.Core.List.{List}

-- The text of an error; numbers and characters that the code splices in are kept as they are.
pub data Message : Type 0 where
  says : String → Message
  deeper_than : ℕ → Message
  comma_or : ℕ → Message
  end_of_input : Message → Message
  out_of_range : ℕ → Message
  string_of_length : ℕ → Message
  unknown_enumerator : List ℕ → Message

-- Where the text says the error is.
pub data Place : Type 0 where
  nowhere : Place
  offset : ℕ → Place
  line_column : ℕ → ℕ → Place

pub record SerializationError : Type 0 where
  pub message : Message
  pub place : Place

pub data Outcome {ℓ} (A : Type ℓ) : Type ℓ where
  ok : A → Outcome A
  err : SerializationError → Outcome A
  fault out_of_fuel : Outcome A

abbrev pub throw {ℓ} : {A : Type ℓ} → String → Outcome A
throw m = err (record { message = says m; place = nowhere })

abbrev pub bind {ℓ κ} : {A : Type ℓ} {B : Type κ} → Outcome A → (A → Outcome B) → Outcome B
bind (ok a) f = f a
bind (err e) f = err e
bind fault f = fault
bind out_of_fuel f = out_of_fuel

-- A method of an object with state `S`. What a method leaves behind when it throws is not kept.
abbrev pub M : Type 0 → Type 0 → Type 0
M S A = S → Outcome (A × S)

module _ {S A : Type 0} where
  abbrev pub pure : A → M S A
  pure a s = ok (a, s)

module _ {S A B : Type 0} where
  infixl 1 ◌>>=◌ ◌>>◌
  abbrev pub ◌>>=◌ : M S A → (A → M S B) → M S B
  ◌>>=◌ m f s = bind (m s) λ (a, t). f a t

  abbrev pub ◌>>◌ : M S A → M S B → M S B
  ◌>>◌ m k s = bind (m s) λ (_, t). k t

pub bind-eq-ok {ℓ κ} :
    {A : Type ℓ} {B : Type κ} (m : Outcome A) (f : A → Outcome B) {b : B}
    → bind m f ≡ ok b
    → (a : A) × (m ≡ ok a) × (f a ≡ ok b)
bind-eq-ok (ok a) f h = (a, refl, h)
bind-eq-ok (err e) f h = cc
bind-eq-ok fault f h = cc
bind-eq-ok out_of_fuel f h = cc

-- A run that neither reads outside the input nor spends its fuel, with `P` of the value that it
-- returns, if it returns one.
abbrev pub Ensures : {A : Type 0} → (A → Type 0) → Outcome A → Type 0
Ensures P (ok a) = P a
Ensures P (err e) = Unit {0}
Ensures P fault = ⊥
Ensures P out_of_fuel = ⊥

pub Ensures-bind :
    {A B : Type 0} (P : A → Type 0) (Q : B → Type 0) (m : Outcome A) (f : A → Outcome B)
    → Ensures P m
    → ((a : A) → P a → Ensures Q (f a))
    → Ensures Q (bind m f)
Ensures-bind P Q (ok a) f h k = k a h
Ensures-bind P Q (err e) f h k = tt
Ensures-bind P Q fault f h k = absurd h
Ensures-bind P Q out_of_fuel f h k = absurd h

pub Ensures-map :
    {A : Type 0} (P Q : A → Type 0) (m : Outcome A)
    → ((a : A) → P a → Q a)
    → Ensures P m
    → Ensures Q m
Ensures-map P Q (ok a) k h = k a h
Ensures-map P Q (err e) k h = tt
Ensures-map P Q fault k h = absurd h
Ensures-map P Q out_of_fuel k h = absurd h

module _ {A : Type 0} (P : A → Type 0) (m : Outcome A) (h : Ensures P m) where
  pub Ensures-ok : (a : A) → m ≡ ok a → P a
  Ensures-ok a e = subst (Ensures P) e h

  pub Ensures-ne-fault : ¬ (m ≡ fault)
  Ensures-ne-fault e = subst (Ensures P) e h

  pub Ensures-ne-out_of_fuel : ¬ (m ≡ out_of_fuel)
  Ensures-ne-out_of_fuel e = subst (Ensures P) e h
