-- ===== src/Runtime/Registry/Reachable.antt =====
-- What every sequence of calls makes of a registry of include/reflgen/runtime/registry.h.
use reflgen_cpp.Common.{
  ℕ, ◌≤◌, ◌≡◌, refl, sym, ap, ◌∙◌, Bool, true, false, List, [], ◌∷◌, ◌++◌, ◌==◌, ==_iff,
  if◌then◌else◌, Option, none, some, length-append, All, All-append, All-map, bytes_eq, bytes_eq→,
  bytes_eq_refl, lookup, lookup-emplace, first_with, first_with-append, or_else, or_else-none,
  Option-cases, Bool-cases, inl, inr, arith,
}
use mathlib.Core.Path.{subst}
use reflgen_cpp.Runtime.Registry.{
  TypeDescriptor, Registry, empty_registry, Added, added, without_name, different_type, is_empty,
  emplace_rtti, insert, add, find_name, find_id, find_rtti, size,
}

module _ (describe : ℕ → TypeDescriptor) where
  -- A call that returns.
  pub data Step : Registry → Registry → Type 0 where
    call : {r s : Registry} (address : ℕ) → add describe address r ≡ added s → Step r s

  pub data Reachable : Registry → Type 0 where
    start : Reachable empty_registry
    step : {r s : Registry} → Reachable r → Step r s → Reachable s

  abbrev pub has_name : List ℕ → ℕ → Bool
  has_name name a = bytes_eq name (describe a).name

  abbrev pub has_id : ℕ → ℕ → Bool
  has_id id a = id == (describe a).id

  abbrev rtti_is : ℕ → Option ℕ → Bool
  rtti_is rtti none = false
  rtti_is rtti (some there) = rtti == there

  abbrev pub has_rtti : ℕ → ℕ → Bool
  has_rtti rtti a = rtti_is rtti (describe a).rtti

  -- The three indices answer what a search of the list of types answers, and the types have names, each
  -- of its own.
  pub record IsIndexed (r : Registry) : Type 0 where
    pub names : (name : List ℕ) → find_name name r ≡ first_with (has_name name) r.types
    pub ids : (id : ℕ) → find_id id r ≡ first_with (has_id id) r.types
    pub rttis : (rtti : ℕ) → find_rtti rtti r ≡ first_with (has_rtti rtti) r.types
    pub named : All (λ a. is_empty (describe a).name ≡ false) r.types
    pub own : All (λ a. find_name (describe a).name r ≡ some a) r.types

  ==→ : (a b : ℕ) → (a == b) ≡ true → a ≡ b
  ==→ a b h = (==_iff a b).0 h

  lookup-emplace_rtti :
      (there : Option ℕ) (rtti a : ℕ) (m : List (ℕ × ℕ))
      → lookup ◌==◌ rtti (emplace_rtti there a m)
        ≡ or_else (lookup ◌==◌ rtti m) (if rtti_is rtti there then some a else none)
  lookup-emplace_rtti none rtti a m = sym (or_else-none (lookup ◌==◌ rtti m))
  lookup-emplace_rtti (some there) rtti a m = lookup-emplace ◌==◌ ==→ rtti there a m

  -- What one search answers, in a registry and in a later one: a type that is found stays.
  abbrev Stays : Option ℕ → Option ℕ → Type 0
  Stays before after = (a : ℕ) → before ≡ some a → after ≡ some a

  or_else-Stays : (x y : Option ℕ) → Stays x (or_else x y)
  or_else-Stays x y a e = rw e

  -- All three searches answer later what they answer now, unless that is the null pointer.
  pub record Extends (r s : Registry) : Type 0 where
    pub stays_name : (name : List ℕ) → Stays (find_name name r) (find_name name s)
    pub stays_id : (id : ℕ) → Stays (find_id id r) (find_id id s)
    pub stays_rtti : (rtti : ℕ) → Stays (find_rtti rtti r) (find_rtti rtti s)
    pub stays_size : size r ≤ size s

  insert-Extends : (r : Registry) (a : ℕ) → Extends r (insert (describe a) a r)
  unfolding insert find_name find_id find_rtti
  insert-Extends r a = record {
    stays_name = λ name b e.
        rw (lookup-emplace bytes_eq bytes_eq→ name (describe a).name a r.by_name)
          (or_else-Stays _ _ b e);
    stays_id =
        λ id b e. rw (lookup-emplace ◌==◌ ==→ id (describe a).id a r.by_id) (or_else-Stays _ _ b e);
    stays_rtti = λ rtti b e.
        rw (lookup-emplace_rtti (describe a).rtti rtti a r.by_rtti) (or_else-Stays _ _ b e);
    stays_size = omega (arith, length-append r.types (a ∷ []));
  }

  find_name-insert :
      (r : Registry) (a : ℕ)
      → find_name (describe a).name r ≡ none
      → find_name (describe a).name (insert (describe a) a r) ≡ some a
  unfolding insert find_name
  find_name-insert r a fresh = rw (
    lookup-emplace bytes_eq bytes_eq→ (describe a).name (describe a).name a r.by_name,
    fresh,
    bytes_eq_refl (describe a).name,
  )

  types-insert : (r : Registry) (a : ℕ) → (insert (describe a) a r).types ≡ r.types ++ a ∷ []
  unfolding insert
  types-insert r a = refl

  insert-IsIndexed :
      (r : Registry) (a : ℕ)
      → IsIndexed r
      → is_empty (describe a).name ≡ false
      → find_name (describe a).name r ≡ none
      → IsIndexed (insert (describe a) a r)
  unfolding insert find_name find_id find_rtti
  insert-IsIndexed r a i named fresh = record {
    names = λ name. rw (
      lookup-emplace bytes_eq bytes_eq→ name (describe a).name a r.by_name,
      i.names name,
      first_with-append (has_name name) r.types a,
    );
    ids = λ id. rw (
      lookup-emplace ◌==◌ ==→ id (describe a).id a r.by_id,
      i.ids id,
      first_with-append (has_id id) r.types a,
    );
    rttis = λ rtti. rw (
      lookup-emplace_rtti (describe a).rtti rtti a r.by_rtti,
      i.rttis rtti,
      first_with-append (has_rtti rtti) r.types a,
    );
    named =
        All-append (λ b. is_empty (describe b).name ≡ false) r.types (a ∷ []) i.named (named, tt);
    own =
        All-append (λ b. find_name (describe b).name (insert (describe a) a r) ≡ some b) r.types
          (a ∷ [])
          (All-map _ _ (λ b. (insert-Extends r a).stays_name (describe b).name b) r.types i.own)
          (find_name-insert r a fresh, tt);
  }

  -- A call that returns leaves the registry as it is, because the type is there, or inserts a type with a
  -- new name.
  pub data Outcomes (r : Registry) (a : ℕ) (s : Registry) : Type 0 where
    was_there : find_name (describe a).name r ≡ some a → s ≡ r → Outcomes r a s
    is_new :
        is_empty (describe a).name ≡ false
        → find_name (describe a).name r ≡ none
        → s ≡ insert (describe a) a r
        → Outcomes r a s

  added-inj : {r s : Registry} → added r ≡ added s → r ≡ s
  added-inj e = cc

  not_added : {s : Registry} → ¬ (without_name ≡ added s)
  not_added e = cc

  not_added_twice : {name : List ℕ} {s : Registry} → ¬ (different_type name ≡ added s)
  not_added_twice e = cc

  -- The three ways of a call: a type without a name, one with a new name, and one with a name that is
  -- taken, by this type or by another one.
  add-without_name :
      (r : Registry) (a : ℕ) → is_empty (describe a).name ≡ true → add describe a r ≡ without_name
  unfolding add
  add-without_name r a e = rw e

  add-new :
      (r : Registry) (a : ℕ)
      → is_empty (describe a).name ≡ false
      → find_name (describe a).name r ≡ none
      → add describe a r ≡ added (insert (describe a) a r)
  unfolding add find_name
  add-new r a e fresh = rw (e, fresh)

  add-taken :
      (r : Registry) (a b : ℕ)
      → is_empty (describe a).name ≡ false
      → find_name (describe a).name r ≡ some b
      → add describe a r ≡ (if b == a then added r else different_type (describe a).name)
  unfolding add find_name
  add-taken r a b e there = rw (e, there)

  add-Outcomes : (r s : Registry) (a : ℕ) → add describe a r ≡ added s → Outcomes r a s
  add-Outcomes r s a h = elim (Bool-cases (is_empty (describe a).name)) [
    | inl e ↦ absurd (not_added (sym (add-without_name r a e) ∙ h))
    | inr e ↦ elim (Option-cases (find_name (describe a).name r)) [
      | inl fresh ↦ is_new e fresh (added-inj (sym h ∙ add-new r a e fresh))
      | inr (b, there) ↦ elim (Bool-cases (b == a)) [
        | inl same ↦
            let run : add describe a r ≡ added r = add-taken r a b e there ∙ rw same in
            was_there (there ∙ ap some (==→ b a same)) (added-inj (sym h ∙ run))
        | inr other ↦
            let run : add describe a r ≡ different_type (describe a).name =
              add-taken r a b e there ∙ rw other in
            absurd (not_added_twice (sym run ∙ h))
      ]
    ]
  ]

  Step-IsIndexed : {r s : Registry} → Step r s → IsIndexed r → IsIndexed s
  Step-IsIndexed (call {r} {s} a h) i = elim (add-Outcomes r s a h) [
    | was_there there e ↦ rw e i
    | is_new named fresh e ↦ rw e (insert-IsIndexed r a i named fresh)
  ]

  -- What a call does, by what it finds.
  pub data Branch (r : Registry) (a : ℕ) : Added → Type 0 where
    no_name : (describe a).name ≡ [] → Branch r a without_name
    other_type :
        (b : ℕ)
        → ¬ ((describe a).name ≡ [])
        → find_name (describe a).name r ≡ some b
        → ¬ (b ≡ a)
        → Branch r a (different_type (describe a).name)
    same_type :
        ¬ ((describe a).name ≡ []) → find_name (describe a).name r ≡ some a → Branch r a (added r)
    new_type :
        (s : Registry)
        → ¬ ((describe a).name ≡ [])
        → find_name (describe a).name r ≡ none
        → find_name (describe a).name s ≡ some a
        → s.types ≡ r.types ++ a ∷ []
        → Branch r a (added s)

  is_empty→ : (name : List ℕ) → is_empty name ≡ true → name ≡ []
  is_empty→ [] e = refl
  is_empty→ (c ∷ cs) e = cc

  not_empty : (name : List ℕ) → is_empty name ≡ false → ¬ (name ≡ [])
  not_empty [] e = cc
  not_empty (c ∷ cs) e = λ k. cc

  branch_lem : (r : Registry) (a : ℕ) → Branch r a (add describe a r)
  branch_lem r a = elim (Bool-cases (is_empty (describe a).name)) [
    | inl e ↦
        subst (Branch r a) (sym (add-without_name r a e)) (no_name (is_empty→ (describe a).name e))
    | inr e ↦ elim (Option-cases (find_name (describe a).name r)) [
      | inl fresh ↦ subst (Branch r a) (sym (add-new r a e fresh)) (
          new_type (insert (describe a) a r) (not_empty (describe a).name e) fresh
            (find_name-insert r a fresh) (types-insert r a))
      | inr (b, there) ↦ elim (Bool-cases (b == a)) [
        | inl same ↦
            subst (Branch r a) (sym (add-taken r a b e there ∙ rw same))
              (same_type (not_empty (describe a).name e) (there ∙ ap some (==→ b a same)))
        | inr other ↦
            subst (Branch r a) (sym (add-taken r a b e there ∙ rw other))
              (other_type b (not_empty (describe a).name e) there λ same. ground arith)
      ]
    ]
  ]

  again_lem :
      (r s : Registry) (a : ℕ)
      → add describe a r ≡ added s
      → find_name (describe a).name s ≡ some a
      → add describe a s ≡ added s
  again_lem r s a h there = elim (Bool-cases (is_empty (describe a).name)) [
    | inl e ↦ absurd (not_added (sym (add-without_name r a e) ∙ h))
    | inr e ↦ add-taken s a a e there ∙ rw ((==_iff a a).1 refl)
  ]

  empty-IsIndexed : IsIndexed empty_registry
  unfolding find_name find_id find_rtti
  empty-IsIndexed = record {
    names = λ name. refl;
    ids = λ id. refl;
    rttis = λ rtti. refl;
    named = tt;
    own = tt;
  }

  reachable_lem : {r : Registry} → Reachable r → IsIndexed r
  reachable_lem start = empty-IsIndexed
  reachable_lem (step run s) = Step-IsIndexed s (reachable_lem run)

  add_lem :
      (r s : Registry) (a : ℕ) → add describe a r ≡ added s → find_name (describe a).name s ≡ some a
  add_lem r s a h = elim (add-Outcomes r s a h) [
    | was_there there e ↦ rw e there
    | is_new named fresh e ↦ rw e (find_name-insert r a fresh)
  ]

  Step-Extends : {r s : Registry} → Step r s → Extends r s
  Step-Extends (call {r} {s} a h) = elim (add-Outcomes r s a h) [
    | was_there there e ↦ rw e (record {
      stays_name = λ name b k. k;
      stays_id = λ id b k. k;
      stays_rtti = λ rtti b k. k;
      stays_size = omega arith;
    })
    | is_new named fresh e ↦ rw e (insert-Extends r a)
  ]

-- Every registry that calls of `add` make of an empty one, in any order and on any descriptors, is
-- indexed: a search by name, by identifier or by dynamic type answers the type that was registered first
-- among those that have it, and the null pointer if none does; every registered type has a name that is
-- not empty, and a search for its name answers this type itself, so that no two types share a name.
pub Reachable-IsIndexed :
    (describe : ℕ → TypeDescriptor) (r : Registry) → Reachable describe r → IsIndexed describe r
Reachable-IsIndexed describe r run = reachable_lem describe run

-- A call of `add` that returns leaves a registry where every type that was found by name, by identifier
-- or by dynamic type is found as before, which has not become smaller, where the type is found by its
-- name, and to which it can be added again without any effect.
pub add-Extends :
    (describe : ℕ → TypeDescriptor) (r s : Registry) (a : ℕ)
    → add describe a r ≡ added s
    → Extends describe r s × (find_name (describe a).name s ≡ some a) × (add describe a s ≡ added s)
add-Extends describe r s a h =
    let found = add_lem describe r s a h in
    (Step-Extends describe (call a h), found, again_lem describe r s a h found)

-- On any registry, `add` throws `without_name` exactly for a type with an empty name; for any other type, it
-- throws if the name is taken by another type, changes nothing if the name is found to be this type's, and
-- else puts the type behind the others, where a search for its name finds it.
pub add-Branch :
    (describe : ℕ → TypeDescriptor) (r : Registry) (a : ℕ) → Branch describe r a (add describe a r)
add-Branch describe r a = branch_lem describe r a
