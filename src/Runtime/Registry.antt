-- ===== src/Runtime/Registry.antt =====
-- include/reflgen/runtime/registry.h: `class registry`. A pointer to a descriptor is its address, and
-- `describe` is what stands there, which does not change. The mutex makes every call a whole, so that
-- calls of several threads come in some order; it is not part of the state.
pub mod Reachable
use reflgen_cpp.Common.{
  ℕ, Bool, true, false, List, [], ◌∷◌, ◌++◌, ◌==◌, if◌then◌else◌, Option, none, some, length,
  bytes_eq, lookup, emplace,
}

-- What the registry reads of a `type_descriptor`. A `type_id` and a `type_index` are numbers.
pub record TypeDescriptor : Type 0 where
  pub name : List ℕ
  pub id : ℕ
  pub rtti : Option ℕ

pub record Registry : Type 0 where
  pub by_name : List (List ℕ × ℕ)
  pub by_id : List (ℕ × ℕ)
  pub by_rtti : List (ℕ × ℕ)
  pub types : List ℕ

abbrev pub empty_registry : Registry
empty_registry = record { by_name = []; by_id = []; by_rtti = []; types = [] }

-- `add` returns with the registry that it leaves, or throws `std::invalid_argument`.
pub data Added : Type 0 where
  added : Registry → Added
  without_name : Added
  different_type : List ℕ → Added

abbrev pub is_empty : List ℕ → Bool
is_empty [] = true
is_empty (_ ∷ _) = false

abbrev pub emplace_rtti : Option ℕ → ℕ → List (ℕ × ℕ) → List (ℕ × ℕ)
emplace_rtti none address m = m
emplace_rtti (some rtti) address m = emplace ◌==◌ rtti address m

-- The part behind the search by name.
unfoldable pub insert : TypeDescriptor → ℕ → Registry → Registry
insert type address r = record {
  by_name = emplace bytes_eq type.name address r.by_name;
  by_id = emplace ◌==◌ type.id address r.by_id;
  by_rtti = emplace_rtti type.rtti address r.by_rtti;
  types = r.types ++ address ∷ [];
}

-- What `add` does with what `by_name_.find` answers.
abbrev pub add_found : TypeDescriptor → ℕ → Registry → Option ℕ → Added
add_found type address r (some there) =
    if there == address then added r else different_type type.name
add_found type address r none = added (insert type address r)

unfoldable pub add : (ℕ → TypeDescriptor) → ℕ → Registry → Added
add describe address r =
    let type : TypeDescriptor = describe address in
    if is_empty type.name
    then without_name
    else add_found type address r (lookup bytes_eq type.name r.by_name)

-- `none` is the null pointer.
unfoldable pub find_name : List ℕ → Registry → Option ℕ
find_name name r = lookup bytes_eq name r.by_name

unfoldable pub find_id : ℕ → Registry → Option ℕ
find_id id r = lookup ◌==◌ id r.by_id

unfoldable pub find_rtti : ℕ → Registry → Option ℕ
find_rtti rtti r = lookup ◌==◌ rtti r.by_rtti

abbrev pub size : Registry → ℕ
size r = length r.types
