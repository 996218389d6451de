-- ===== src/Examples/Runtime.antt =====
-- The theorems on include/reflgen/runtime at concrete inputs.
use reflgen_cpp.Common.{ℕ, ◌≡◌, refl, [], ◌==◌, if◌then◌else◌, none, some}
use reflgen_cpp.Json.Base64.{codes}
use reflgen_cpp.Runtime.Registry.{
  TypeDescriptor, Registry, empty_registry, added, different_type, insert, add, find_name,
}
use reflgen_cpp.Runtime.Registry.Reachable.{
  call, Reachable, start, step, IsIndexed, Extends, Branch, Reachable-IsIndexed, add-Extends,
  add-Branch,
}

-- At 1 and at 2 two types, at 3 another type with the name of the first one; at 4 one without a name.
abbrev describe : ℕ → TypeDescriptor
describe a =
    if a == 1
    then record { name = codes "game.fireball"; id = 10; rtti = some 7 }
    else if a == 2
    then record { name = codes "game.shield"; id = 20; rtti = none }
    else if a == 3
    then record { name = codes "game.fireball"; id = 30; rtti = none }
    else record { name = []; id = 0; rtti = none }

abbrev one : Registry
one = insert (describe 1) 1 empty_registry

abbrev two : Registry
two = insert (describe 2) 2 one

add-one : add describe 1 empty_registry ≡ added one
unfolding add
add-one = refl

add-two : add describe 2 one ≡ added two
unfolding add insert
add-two = refl

two-Reachable : Reachable describe two
two-Reachable = step (step start (call 1 add-one)) (call 2 add-two)

add-three : add describe 3 two ≡ different_type (codes "game.fireball")
unfolding add insert
add-three = refl

Reachable-IsIndexed_example : IsIndexed describe two
Reachable-IsIndexed_example = Reachable-IsIndexed describe two two-Reachable

add-Extends_example :
    Extends describe one two
    × (find_name (describe 2).name two ≡ some 2)
    × (add describe 2 two ≡ added two)
add-Extends_example = add-Extends describe one two 2 add-two

add-Branch_example : Branch describe two 3 (add describe 3 two)
add-Branch_example = add-Branch describe two 3
