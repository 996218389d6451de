-- ===== src/Serial/Cycle/Termination.antt =====
-- The writing of any graph of objects through include/reflgen/serial/detail/cycle.h comes to an end.
use reflgen_cpp.Common.{
  ℕ, zero, suc, ◌+◌, ◌≤◌, ◌<◌, ◌≡◌, refl, sym, ap, false, List, [], ◌∷◌, ◌==◌, ==_iff,
  if◌then◌else◌, Option, none, some, length, All, arith, Bool-cases, inl, inr,
}
use mathlib.Core.Path.{subst}
use reflgen_cpp.Common.Outcome.{Outcome, ok, err, fault, out_of_fuel, Ensures}
use reflgen_cpp.Serial.Cycle.{
  Thread, and_then, is_active, pop_back, guarded, write_pointer, write_members, write_object,
}

-- No address is on the path twice.
abbrev pub AreDistinct : List ℕ → Type 0
AreDistinct [] = Unit {0}
AreDistinct (a ∷ active) = (is_active a active ≡ false) × AreDistinct active

abbrev remove : ℕ → List ℕ → List ℕ
remove k [] = []
remove k (a ∷ as') = if a == k then remove k as' else a ∷ remove k as'

remove-absent : (k : ℕ) (as' : List ℕ) → is_active k as' ≡ false → remove k as' ≡ as'
remove-absent k [] h = refl
remove-absent k (a ∷ as') h = ground (arith, remove-absent k as')

is_active-remove :
    (b k : ℕ) (as' : List ℕ) → is_active b as' ≡ false → is_active b (remove k as') ≡ false
is_active-remove b k [] h = refl
is_active-remove b k (a ∷ as') h = ground (arith, is_active-remove b k as')

remove-AreDistinct : (k : ℕ) (as' : List ℕ) → AreDistinct as' → AreDistinct (remove k as')
remove-AreDistinct k [] h = tt
remove-AreDistinct k (a ∷ as') (h, hs) = elim (Bool-cases (a == k)) [
  | inl e ↦ rw e (remove-AreDistinct k as' hs)
  | inr e ↦ rw e (is_active-remove a k as' h, remove-AreDistinct k as' hs)
]

length-remove : (k : ℕ) (as' : List ℕ) → AreDistinct as' → length as' ≤ suc (length (remove k as'))
length-remove k [] h = omega arith
length-remove k (a ∷ as') (h, hs) = elim (Bool-cases (a == k)) [
  | inl e ↦
      let same : a ≡ k = (==_iff a k).0 e in
      let kept : remove k as' ≡ as' =
        remove-absent k as' (subst (λ z. is_active z as' ≡ false) same h) in
      rw (e, kept) (omega arith)
  | inr e ↦ rw e (omega (arith, length-remove k as' hs))
]

remove-below : (n : ℕ) (as' : List ℕ) → All (λ a. a < suc n) as' → All (λ a. a < n) (remove n as')
remove-below n [] h = tt
remove-below n (a ∷ as') (h, hs) = elim (Bool-cases (a == n)) [
  | inl e ↦ rw e (remove-below n as' hs)
  | inr e ↦ rw e (ground arith, remove-below n as' hs)
]

-- Addresses that are all different are no more than there are.
length-AreDistinct :
    (n : ℕ) (as' : List ℕ) → AreDistinct as' → All (λ a. a < n) as' → length as' ≤ n
length-AreDistinct zero [] d h = omega arith
length-AreDistinct zero (a ∷ as') d (h, hs) = absurd (omega arith)
length-AreDistinct (suc n) as' d h = omega (
  arith,
  length-remove n as' d,
  length-AreDistinct n (remove n as') (remove-AreDistinct n as' d) (remove-below n as' h),
)

-- The run returns or throws, and leaves the path as it found it.
pub record Tidy (active : List ℕ) (m : Outcome (Unit {0}) × List ℕ) : Type 0 where
  pub ends : Ensures (λ x. Unit {0}) m.0
  pub restored : m.1 ≡ active

and_then-Tidy :
    (active : List ℕ) (k : Thread) (r : Outcome (Unit {0})) (after : List ℕ)
    → Tidy active (r, after)
    → Tidy active (k active)
    → Tidy active (and_then k (r, after))
and_then-Tidy active k (ok tt) after h hk = subst (λ a. Tidy active (k a)) (sym h.restored) hk
and_then-Tidy active k (err e) after h hk = h
and_then-Tidy active k fault after h hk = absurd h.ends
and_then-Tidy active k out_of_fuel after h hk = absurd h.ends

-- A member that is null, or one of the `n` objects.
abbrev pub IsMember : ℕ → Option ℕ → Type 0
IsMember n none = Unit {0}
IsMember n (some a) = a < n

write_members-Tidy :
    (n : ℕ) (write : Option ℕ → Thread) (active : List ℕ)
    → ((m : Option ℕ) → IsMember n m → Tidy active (write m active))
    → (ms : List (Option ℕ)) → All (IsMember n) ms
    → Tidy active (write_members write ms active)
unfolding write_members
write_members-Tidy n write active h [] _ = record { ends = tt; restored = refl }
write_members-Tidy n write active h (m ∷ ms) (hm, hs) =
    let (r, after) = write m active in
    and_then-Tidy active (write_members write ms) _ _ (h m hm)
      (write_members-Tidy n write active h ms hs)

guarded-Tidy :
    (a : ℕ) (scope : Thread) (active : List ℕ)
    → (is_active a active ≡ false → Tidy (a ∷ active) (scope (a ∷ active)))
    → Tidy active (guarded a scope active)
unfolding guarded
guarded-Tidy a scope active h = elim (Bool-cases (is_active a active)) [
  | inl e ↦ rw e (record { ends = tt; restored = refl })
  | inr e ↦ rw e (record { ends = (h e).ends; restored = ap pop_back (h e).restored })
]

pub write_pointer-Tidy :
    (n : ℕ) (serialize : ℕ → Thread) (active : List ℕ)
    → ((b : ℕ) → b < n → is_active b active ≡ false → Tidy (b ∷ active) (serialize b (b ∷ active)))
    → (m : Option ℕ) → IsMember n m
    → Tidy active (write_pointer serialize m active)
unfolding write_pointer
write_pointer-Tidy n serialize active h none _ = record { ends = tt; restored = refl }
write_pointer-Tidy n serialize active h (some b) hb = guarded-Tidy b (serialize b) active (h b hb)

pub write_object-Tidy :
    (heap : ℕ → List (Option ℕ)) (n : ℕ) (closed : (a : ℕ) → All (IsMember n) (heap a)) (fuel a : ℕ)
    (active : List ℕ)
    → AreDistinct active
    → All (λ b. b < n) active
    → n < fuel + length active
    → Tidy active (write_object heap fuel a active)
unfolding write_object
write_object-Tidy heap n closed zero a active d h few =
    absurd (omega (arith, length-AreDistinct n active d h))
write_object-Tidy heap n closed (suc fuel) a active d h few =
    write_members-Tidy n (write_pointer (write_object heap fuel)) active
      (write_pointer-Tidy n (write_object heap fuel) active λ b hb fresh.
        write_object-Tidy heap n closed fuel b (b ∷ active) (fresh, d) (hb, h) (omega arith))
      (heap a) (closed a)

-- Among `n` objects that point at each other in any way, cycles included, the writing of any of them on a
-- thread with nothing on its path returns or throws within `n + 1` objects inside each other, and the
-- path is empty again behind it, after a throw too.
pub write_object-ends :
    (heap : ℕ → List (Option ℕ)) (n a : ℕ)
    → ((b : ℕ) → All (IsMember n) (heap b))
    → Tidy [] (write_object heap (n + 1) a [])
write_object-ends heap n a closed = write_object-Tidy heap n closed (n + 1) a [] tt tt (omega arith)
