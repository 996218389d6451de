-- ===== src/Common/Bytes.antt =====
-- Strings of bytes compared, and the maps of the C++ library as lists of entries.
use Prim.Native.Nat.{ℕ}
use mathlib.Core.Path.{◌≡◌, refl, ap, ◌∙◌}
use mathlib.Core.Bool.{Bool, true, false, ◌&&◌}
use mathlib.Core.Option.{Option, none, some}
use mathlib.Core.List.{List, [], ◌∷◌, ◌++◌}
use mathlib.Core.Logic.{◌⊎◌, inl, inr}
use native.Mathlib.Omega.{arith}
use reflgen_cpp.Common.Tests.{◌==◌, if◌then◌else◌, Bool-cases}

abbrev pub bytes_eq : List ℕ → List ℕ → Bool
bytes_eq [] [] = true
bytes_eq (a ∷ as') (b ∷ bs) = a == b && bytes_eq as' bs
bytes_eq _ _ = false

pub bytes_eq_refl : (text : List ℕ) → bytes_eq text text ≡ true
bytes_eq_refl [] = refl
bytes_eq_refl (c ∷ text) = ground (arith, bytes_eq_refl text)

pub bytes_eq→ : (s t : List ℕ) → bytes_eq s t ≡ true → s ≡ t
bytes_eq→ [] [] h = refl
bytes_eq→ [] (b ∷ bs) h = cc
bytes_eq→ (a ∷ as') [] h = cc
bytes_eq→ (a ∷ as') (b ∷ bs) h = ground (arith, bytes_eq→ as' bs)

abbrev pub or_else : {A : Type 0} → Option A → Option A → Option A
or_else none y = y
or_else (some a) y = some a

pub or_else-none : {A : Type 0} (x : Option A) → or_else x none ≡ x
or_else-none none = refl
or_else-none (some a) = refl

pub Option-cases : {A : Type 0} (x : Option A) → (x ≡ none) ⊎ ((a : A) × (x ≡ some a))
Option-cases none = inl refl
Option-cases (some a) = inr (a, refl)

-- The first element that passes the test.
abbrev pub first_with : {A : Type 0} → (A → Bool) → List A → Option A
first_with p [] = none
first_with p (x ∷ xs) = if p x then some x else first_with p xs

pub first_with-append :
    {A : Type 0} (p : A → Bool) (xs : List A) (a : A)
    → first_with p (xs ++ a ∷ []) ≡ or_else (first_with p xs) (if p a then some a else none)
first_with-append p [] a = refl
first_with-append p (x ∷ xs) a = elim (Bool-cases (p x)) [
  | inl e ↦ rw e
  | inr e ↦ rw e (first_with-append p xs a)
]

module _ {K V : Type 0} (eq : K → K → Bool) where
  -- `find`, of a key that occurs once at most.
  abbrev pub lookup : K → List (K × V) → Option V
  lookup k [] = none
  lookup k ((k', v) ∷ m) = if eq k k' then some v else lookup k m

  abbrev add_entry : K → V → List (K × V) → Option V → List (K × V)
  add_entry k v m none = (k, v) ∷ m
  add_entry k v m (some _) = m

  -- `emplace`, which leaves an entry that is there.
  abbrev pub emplace : K → V → List (K × V) → List (K × V)
  emplace k v m = add_entry k v m (lookup k m)

  module _ (eq→ : (a b : K) → eq a b ≡ true → a ≡ b) where
    pub lookup-emplace :
        (k' k : K) (v : V) (m : List (K × V))
        → lookup k' (emplace k v m) ≡ or_else (lookup k' m) (if eq k' k then some v else none)
    lookup-emplace k' k v m = entry_added (lookup k m) refl
      where
        entry_added :
            (there : Option V)
            → lookup k m ≡ there
            → lookup k' (add_entry k v m there)
              ≡ or_else (lookup k' m) (if eq k' k then some v else none)
        entry_added none e = elim (Bool-cases (eq k' k)) [
          | inl h ↦ rw (h, ap (λ z. lookup z m) (eq→ k' k h) ∙ e)
          | inr h ↦ rw (h, or_else-none (lookup k' m))
        ]
        entry_added (some x) e = elim (Bool-cases (eq k' k)) [
          | inl h ↦ rw (h, ap (λ z. lookup z m) (eq→ k' k h) ∙ e)
          | inr h ↦ rw (h, or_else-none (lookup k' m))
        ]
