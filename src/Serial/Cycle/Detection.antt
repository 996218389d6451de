-- ===== src/Serial/Cycle/Detection.antt =====
-- What include/reflgen/serial/detail/cycle.h throws for, and what it lets pass.
use reflgen_cpp.Common.{
  ℕ, zero, suc, ◌+◌, ◌≤◌, ◌<◌, ◌≡◌, refl, sym, ap, ◌∙◌, Bool, true, false, List, [], ◌∷◌, ◌++◌,
  ◌==◌, ==_iff, Option, none, some, All, arith, Bool-cases, inl, inr,
}
use mathlib.Core.Path.{subst}
use reflgen_cpp.Common.Outcome.{
  Outcome, ok, err, fault, out_of_fuel, throw, Ensures, SerializationError,
}
use reflgen_cpp.Serial.Cycle.{
  Thread, and_then, is_active, pop_back, guarded, write_pointer, write_members, write_object,
}
use reflgen_cpp.Serial.Cycle.Termination.{IsMember, write_pointer-Tidy, write_object-Tidy}

-- A value in which every pointer goes to a smaller one cannot come back to itself, although objects may be
-- shared.
abbrev pub GoesDown : (ℕ → ℕ) → ℕ → Option ℕ → Type 0
GoesDown rank a none = Unit {0}
GoesDown rank a (some b) = rank b < rank a

-- Every address on the path is of an object with a greater rank.
abbrev AreAbove : (ℕ → ℕ) → ℕ → List ℕ → Type 0
AreAbove rank bound active = All (λ b. bound < rank b) active

absent :
    (rank : ℕ → ℕ) (a : ℕ) (active : List ℕ)
    → AreAbove rank (rank a) active
    → is_active a active ≡ false
absent rank a [] h = refl
absent rank a (b ∷ active) (h, hs) =
    let other : (b == a) ≡ false = elim (Bool-cases (b == a)) [
      | inl e ↦ absurd (omega (arith, ap rank ((==_iff b a).0 e)))
      | inr e ↦ e
    ] in
    rw other (absent rank a active hs)

write_members-done :
    (write : Option ℕ → Thread) (active : List ℕ) (P : Option ℕ → Type 0)
    → ((m : Option ℕ) → P m → write m active ≡ (ok tt, active))
    → (ms : List (Option ℕ)) → All P ms
    → write_members write ms active ≡ (ok tt, active)
unfolding write_members
write_members-done write active P h [] _ = refl
write_members-done write active P h (m ∷ ms) (hm, hs) =
    rw (h m hm) (write_members-done write active P h ms hs)

higher :
    (rank : ℕ → ℕ) (a b : ℕ) (bs : List ℕ)
    → rank b < rank a
    → All (λ c. rank a ≤ rank c) bs
    → AreAbove rank (rank b) bs
higher rank a b [] hb k = tt
higher rank a b (c ∷ bs) hb (k, ks) = (omega arith, higher rank a b bs hb ks)

least :
    (rank : ℕ → ℕ) (b : ℕ) (bs : List ℕ) → AreAbove rank (rank b) bs → All (λ c. rank b ≤ rank c) bs
least rank b [] k = tt
least rank b (c ∷ bs) (k, ks) = (omega arith, least rank b bs ks)

write_pointer-done :
    (rank : ℕ → ℕ) (serialize : ℕ → Thread) (a : ℕ) (active : List ℕ)
    → All (λ c. rank a ≤ rank c) active
    → ((b : ℕ)
        → rank b < rank a
        → All (λ c. rank b ≤ rank c) (b ∷ active)
        → serialize b (b ∷ active) ≡ (ok tt, b ∷ active))
    → (m : Option ℕ) → GoesDown rank a m
    → write_pointer serialize m active ≡ (ok tt, active)
unfolding write_pointer guarded
write_pointer-done rank serialize a active h run none _ = refl
write_pointer-done rank serialize a active h run (some b) hb =
    let above = higher rank a b active hb h in
    rw (absent rank b active above, run b hb (omega arith, least rank b active above))

write_object-done :
    (heap : ℕ → List (Option ℕ)) (rank : ℕ → ℕ) (down : (a : ℕ) → All (GoesDown rank a) (heap a))
    (fuel a : ℕ) (active : List ℕ)
    → rank a < fuel
    → All (λ b. rank a ≤ rank b) active
    → write_object heap fuel a active ≡ (ok tt, active)
unfolding write_object
write_object-done heap rank down zero a active few h = absurd (omega arith)
write_object-done heap rank down (suc fuel) a active few h =
    write_members-done (write_pointer (write_object heap fuel)) active (GoesDown rank a)
      (write_pointer-done rank (write_object heap fuel) a active h
        λ b hb k. write_object-done heap rank down fuel b (b ∷ active) (omega arith) k)
      (heap a) (down a)

-- One object points at another, or at one that leads there.
pub data Reaches (heap : ℕ → List (Option ℕ)) : ℕ → ℕ → Type 0 where
  points :
      {a : ℕ} (before after : List (Option ℕ)) (b : ℕ)
      → heap a ≡ before ++ some b ∷ after
      → Reaches heap a b
  leads :
      {a c : ℕ} (before after : List (Option ℕ)) (b : ℕ)
      → heap a ≡ before ++ some b ∷ after
      → Reaches heap b c
      → Reaches heap a c

-- Where no pointer leads back to the object that it comes from, because every one goes to an object with a
-- smaller rank, the writing of an object throws for no cycle, shared objects included, and leaves the path
-- empty; a call for each rank is enough fuel.
pub write_object-acyclic :
    (heap : ℕ → List (Option ℕ)) (rank : ℕ → ℕ) (a : ℕ)
    → ((b : ℕ) → All (GoesDown rank b) (heap b))
    → write_object heap (rank a + 1) a [] ≡ (ok tt, [])
write_object-acyclic heap rank a down =
    write_object-done heap rank down (rank a + 1) a [] (omega arith) tt

-- No run ends with another path than it began with.
Restores : Thread → Type 0
Restores f = (active : List ℕ) → (f active).1 ≡ active

and_then-restores :
    (k : Thread) (r : Outcome (Unit {0})) (after active : List ℕ)
    → after ≡ active
    → (k active).1 ≡ active
    → (and_then k (r, after)).1 ≡ active
and_then-restores k (ok tt) after active h hk = rw h hk
and_then-restores k (err e) after active h hk = h
and_then-restores k fault after active h hk = h
and_then-restores k out_of_fuel after active h hk = h

write_members-Restores :
    (write : Option ℕ → Thread)
    → ((m : Option ℕ) → Restores (write m))
    → (ms : List (Option ℕ)) → Restores (write_members write ms)
unfolding write_members Restores
write_members-Restores write h [] active = refl
write_members-Restores write h (m ∷ ms) active =
    and_then-restores (write_members write ms) _ _ active (h m active)
      (write_members-Restores write h ms active)

write_pointer-Restores :
    (serialize : ℕ → Thread)
    → ((a : ℕ) → Restores (serialize a))
    → (m : Option ℕ) → Restores (write_pointer serialize m)
unfolding write_pointer guarded Restores
write_pointer-Restores serialize h none active = refl
write_pointer-Restores serialize h (some b) active = elim (Bool-cases (is_active b active)) [
  | inl e ↦ rw e
  | inr e ↦ rw e (ap pop_back (h b (b ∷ active)))
]

write_object-Restores :
    (heap : ℕ → List (Option ℕ)) (fuel a : ℕ) → Restores (write_object heap fuel a)
unfolding write_object Restores
write_object-Restores heap zero a active = refl
write_object-Restores heap (suc fuel) a active =
    write_members-Restores (write_pointer (write_object heap fuel))
      (write_pointer-Restores (write_object heap fuel) (write_object-Restores heap fuel)) (heap a)
      active

ok_first :
    (k : Thread) (r : Outcome (Unit {0})) (after : List ℕ)
    → (and_then k (r, after)).0 ≡ ok tt
    → (r ≡ ok tt) × ((k after).0 ≡ ok tt)
ok_first k (ok tt) after h = (refl, h)
ok_first k (err e) after h = cc
ok_first k fault after h = cc
ok_first k out_of_fuel after h = cc

-- Every member of a list that is written without a throw is.
ok_member :
    (write : Option ℕ → Thread) (restores : (m : Option ℕ) → Restores (write m))
    (before after : List (Option ℕ)) (m : Option ℕ) (active : List ℕ)
    → (write_members write (before ++ m ∷ after) active).0 ≡ ok tt
    → (write m active).0 ≡ ok tt
unfolding write_members Restores
ok_member write restores [] after m active h = (ok_first (write_members write after) _ _ h).0
ok_member write restores (x ∷ before) after m active h =
    let later = (ok_first (write_members write (before ++ m ∷ after)) _ _ h).1 in
    ok_member write restores before after m active (
      subst (λ t. (write_members write (before ++ m ∷ after) t).0 ≡ ok tt) (restores x active)
        later)

-- The error of the guard.
abbrev pub cyclic : Outcome (Unit {0})
cyclic = throw "cyclic reference: the object is already being serialized on this path"

not_ok : ¬ (cyclic ≡ ok tt)
not_ok e = cc

ok_pointer :
    (serialize : ℕ → Thread) (b : ℕ) (active : List ℕ)
    → (write_pointer serialize (some b) active).0 ≡ ok tt
    → (is_active b active ≡ false) × ((serialize b (b ∷ active)).0 ≡ ok tt)
unfolding write_pointer guarded
ok_pointer serialize b active h = elim (Bool-cases (is_active b active)) [
  | inl e ↦
      let run : (write_pointer serialize (some b) active).0 ≡ cyclic = rw e in
      absurd (not_ok (sym run ∙ h))
  | inr e ↦
      let run : (write_pointer serialize (some b) active).0 ≡ (serialize b (b ∷ active)).0 = rw e in
      (e, sym run ∙ h)
]

no_fuel : {r : Unit {0}} → ¬ (out_of_fuel ≡ ok r)
no_fuel e = cc

not_both : (b : Bool) → b ≡ true → ¬ (b ≡ false)
not_both b h k = cc

written_member :
    (heap : ℕ → List (Option ℕ)) (a b fuel : ℕ) (active : List ℕ) (before after : List (Option ℕ))
    → heap a ≡ before ++ some b ∷ after
    → (write_object heap (suc fuel) a active).0 ≡ ok tt
    → (is_active b active ≡ false) × ((write_object heap fuel b (b ∷ active)).0 ≡ ok tt)
unfolding write_object
written_member heap a b fuel active before after e run =
    let write = write_pointer (write_object heap fuel) in
    ok_pointer (write_object heap fuel) b active (
      ok_member write
        (write_pointer-Restores (write_object heap fuel) (write_object-Restores heap fuel)) before
        after (some b) active (subst (λ ms. (write_members write ms active).0 ≡ ok tt) e run))

-- An object from which one on the path is reached is not written without a throw.
reaches_lem :
    (heap : ℕ → List (Option ℕ)) (a c fuel : ℕ) (active : List ℕ)
    → Reaches heap a c
    → is_active c active ≡ true
    → ¬ ((write_object heap fuel a active).0 ≡ ok tt)
unfolding write_object
reaches_lem heap a c zero active r h run = no_fuel run
reaches_lem heap a c (suc fuel) active (points before after b e) h run =
    not_both (is_active c active) h (written_member heap a c fuel active before after e run).0
reaches_lem heap a c (suc fuel) active (leads before after b e r) h run =
    let (fresh, inside) = written_member heap a b fuel active before after e run in
    reaches_lem heap b c fuel (b ∷ active) r (ground arith) inside

refused_lem :
    (r : Outcome (Unit {0}))
    → Ensures (λ x. Unit {0}) r
    → ¬ (r ≡ ok tt)
    → (e : SerializationError) × (r ≡ err e)
refused_lem (ok tt) h k = absurd (k refl)
refused_lem (err e) h k = (e, refl)
refused_lem fault h k = absurd h
refused_lem out_of_fuel h k = absurd h

-- Among `n` objects, the writing of a pointer to one from which its own pointers lead back to it throws,
-- and leaves the path empty.
pub write_pointer-cyclic :
    (heap : ℕ → List (Option ℕ)) (n a : ℕ)
    → ((b : ℕ) → All (IsMember n) (heap b))
    → a < n
    → Reaches heap a a
    → (e : SerializationError) × (write_pointer (write_object heap (n + 1)) (some a) []
        ≡ (err e, []))
write_pointer-cyclic heap n a closed h r =
    let write = write_object heap (n + 1) in
    let tidy =
      write_pointer-Tidy n write []
        (λ b hb fresh.
          write_object-Tidy heap n closed (n + 1) b (b ∷ []) (refl, tt) (hb, tt) (omega arith))
        (some a) h in
    let same : is_active a (a ∷ []) ≡ true = ground arith in
    let (e, run) =
      refused_lem (write_pointer write (some a) []).0 tidy.ends
        λ done'. reaches_lem heap a a (n + 1) (a ∷ []) r same (ok_pointer write a [] done').1 in
    (e, ap (λ x. (x, (write_pointer write (some a) []).1)) run ∙ ap (λ x. (err e, x)) tidy.restored)
