-- ===== src/Serial/Cycle.antt =====
-- include/reflgen/serial/detail/cycle.h, and `write_pointer` of include/reflgen/serial/detail/pointer.h. An
-- object is its address, `heap` holds the pointers that are the members of each object, and the
-- thread-local list of the addresses on the path is the state, which outlives a throw.
pub mod Termination
pub mod Detection
use reflgen_cpp.Common.{
  ℕ, zero, suc, Bool, true, false, ◌||◌, List, [], ◌∷◌, ◌==◌, if◌then◌else◌, Option, none, some,
}
use reflgen_cpp.Common.Outcome.{Outcome, ok, err, fault, out_of_fuel, throw}

-- What a function on a thread answers, and the addresses that are active behind it.
abbrev pub Thread : Type 0
Thread = List ℕ → Outcome (Unit {0}) × List ℕ

abbrev pub done : Thread
done active = (ok tt, active)

-- The second run, if the first one does not throw.
abbrev pub and_then : Thread → Outcome (Unit {0}) × List ℕ → Outcome (Unit {0}) × List ℕ
and_then k (ok _, active) = k active
and_then k (err e, active) = (err e, active)
and_then k (fault, active) = (fault, active)
and_then k (out_of_fuel, active) = (out_of_fuel, active)

-- The loop of the constructor of `indirection_guard`.
abbrev pub is_active : ℕ → List ℕ → Bool
is_active address [] = false
is_active address (active ∷ more) = active == address || is_active address more

-- The destructor.
abbrev pub pop_back : List ℕ → List ℕ
pop_back [] = []
pop_back (_ ∷ outer) = outer

abbrev pub leave : Outcome (Unit {0}) × List ℕ → Outcome (Unit {0}) × List ℕ
leave (r, active) = (r, pop_back active)

-- A scope with an `indirection_guard`: where the constructor throws there is nothing to destroy, and the
-- destructor runs behind the rest of the scope, whether it returns or throws.
unfoldable pub guarded : ℕ → Thread → Thread
guarded address scope active =
    let inside = leave (scope (address ∷ active)) in
    if is_active address active
    then (throw "cyclic reference: the object is already being serialized on this path", active)
    else inside

-- `write_pointer`, with the call that writes what the pointer holds. `none` is the null pointer, for
-- which the call of the writer does not touch the list.
unfoldable pub write_pointer : (ℕ → Thread) → Option ℕ → Thread
write_pointer serialize none = done
write_pointer serialize (some address) = guarded address (serialize address)

-- The members in turn.
unfoldable pub write_members : (Option ℕ → Thread) → List (Option ℕ) → Thread
write_members write [] = done
write_members write (member ∷ members) =
    λ active. and_then (write_members write members) (write member active)

-- Each object inside another costs a unit of fuel.
unfoldable pub write_object : (ℕ → List (Option ℕ)) → ℕ → ℕ → Thread
write_object heap zero address active = (out_of_fuel, active)
write_object heap (suc fuel) address active =
    write_members (write_pointer (write_object heap fuel)) (heap address) active
