-- ===== src/Generator/AttributeScan/Text/Lists.antt =====
-- `declares_attribute` of generator/src/attribute_scan.cpp: the lists of attributes in the text of a header.
use reflgen_cpp.Common.{
  ℕ, zero, suc, ◌+◌, ◌≤◌, ◌<◌, ◌≡◌, refl, sym, ap, ◌∙◌, ◌↔◌, ◌⊎◌, Bool, true, false, List, [], ◌++◌,
  Option, none, some, length, drop, drop-append, arith, Bool-cases, inl, inr,
}
use mathlib.Core.Path.{subst}
use reflgen_cpp.Common.Outcome.{Outcome, ok}
use reflgen_cpp.Json.Base64.{codes}
use reflgen_cpp.Generator.AttributeScan.Text.{
  starts_with, contains_word, find_text, compact, list_declares, using_reflgen, declared, opened,
  declares_from, declares_attribute,
}
use reflgen_cpp.Generator.AttributeScan.Text.Words.{
  Leaves, starts_with-append, starts_with→, Occurs, contains_word_iff, find_text-Leaves,
}
use reflgen_cpp.Generator.AttributeScan.Text.Places.{
  FirstAt, Strips, IsFound, find_text-IsFound, FirstAt→, Strips-compact, Strips→, starts_with-not,
  not-starts_with,
}

-- A list of attributes that has the name, blanks left out: it begins with `usingreflgen:` and the name
-- occurs behind that, or it does not and the name occurs with `reflgen::` in front of it.
pub data HasName (name inside : List ℕ) : Type 0 where
  with_using :
      (list rest : List ℕ)
      → Strips inside list
      → list ≡ codes "usingreflgen:" ++ rest
      → Occurs none name rest
      → HasName name inside
  with_scope :
      (list : List ℕ)
      → Strips inside list
      → ((rest : List ℕ) → ¬ (list ≡ codes "usingreflgen:" ++ rest))
      → Occurs none (codes "reflgen::" ++ name) list
      → HasName name inside

-- A text whose first list, from the first `[[` to the first `]]` behind it, has the name, or which
-- declares it behind that `[[`.
pub data Declares (name : List ℕ) : List ℕ → Type 0 where
  here :
      {text : List ℕ} (before tail inside behind : List ℕ)
      → FirstAt (codes "[[") text before tail
      → FirstAt (codes "]]") tail inside behind
      → HasName name inside
      → Declares name text
  later :
      {text : List ℕ} (before tail inside behind : List ℕ)
      → FirstAt (codes "[[") text before tail
      → FirstAt (codes "]]") tail inside behind
      → Declares name tail
      → Declares name text

list_declares-using :
    (list name : List ℕ)
    → starts_with using_reflgen list ≡ true
    → list_declares list name ≡ contains_word (drop (length using_reflgen) list) name
unfolding list_declares
list_declares-using list name e = rw e

list_declares-scope :
    (list name : List ℕ)
    → starts_with using_reflgen list ≡ false
    → list_declares list name ≡ contains_word list (codes "reflgen::" ++ name)
unfolding list_declares
list_declares-scope list name e = rw e

list_declares→ :
    (name inside : List ℕ) → list_declares (compact inside) name ≡ true → HasName name inside
list_declares→ name inside h =
    let list : List ℕ = compact inside in
    elim (Bool-cases (starts_with using_reflgen list)) [
      | inl e ↦
          let rest : List ℕ = drop (length using_reflgen) list in
          with_using list rest (Strips-compact inside) (starts_with→ using_reflgen list e)
            ((contains_word_iff rest name).0 (sym (list_declares-using list name e) ∙ h))
      | inr e ↦ with_scope list (Strips-compact inside) (starts_with-not using_reflgen list e) (
          (contains_word_iff list (codes "reflgen::" ++ name)).0
            (sym (list_declares-scope list name e) ∙ h))
    ]

HasName→ : (name inside : List ℕ) → HasName name inside → list_declares (compact inside) name ≡ true
HasName→ name inside (with_using list rest s e o) =
    let front = ap (starts_with using_reflgen) e ∙ starts_with-append using_reflgen rest in
    let behind = ap (drop (length using_reflgen)) e ∙ drop-append using_reflgen rest in
    ap (λ l. list_declares l name) (Strips→ s)
    ∙ list_declares-using list name front
    ∙ ap (λ l. contains_word l name) behind
    ∙ (contains_word_iff rest name).1 o
HasName→ name inside (with_scope list s h o) =
    ap (λ l. list_declares l name) (Strips→ s)
    ∙ list_declares-scope list name (not-starts_with using_reflgen list h)
    ∙ (contains_word_iff list (codes "reflgen::" ++ name)).1 o

-- The places that the code finds are those of the relation.
pub record Marks (name text : List ℕ) : Type 0 where
  pub before : List ℕ
  pub tail : List ℕ
  pub inside : List ℕ
  pub behind : List ℕ
  pub first : find_text (codes "[[") text ≡ some (before, tail)
  pub last : find_text (codes "]]") tail ≡ some (inside, behind)
  pub found : HasName name inside ⊎ Declares name tail

Declares→ : (name : List ℕ) {text : List ℕ} → Declares name text → Marks name text
Declares→ name (here {text} before tail inside behind f l h) = record {
  before = before;
  tail = tail;
  inside = inside;
  behind = behind;
  first = FirstAt→ (codes "[[") f;
  last = FirstAt→ (codes "]]") l;
  found = inl h;
}
Declares→ name (later {text} before tail inside behind f l d) = record {
  before = before;
  tail = tail;
  inside = inside;
  behind = behind;
  first = FirstAt→ (codes "[[") f;
  last = FirstAt→ (codes "]]") l;
  found = inr d;
}

-- An answer that tells whether the text declares the name.
abbrev pub Tells : List ℕ → List ℕ → Outcome Bool → Type 0
Tells name text m = (b : Bool) × (m ≡ ok b) × ((b ≡ true) ↔ Declares name text)

front_of : Option (List ℕ × List ℕ) → List ℕ
front_of none = []
front_of (some (before, behind)) = before

back_of : Option (List ℕ × List ℕ) → List ℕ
back_of none = []
back_of (some (before, behind)) = behind

none-some : (p : List ℕ × List ℕ) → ¬ (none ≡ some p)
none-some p e = cc

true-false : {b : Bool} → b ≡ true → b ≡ false → ⊥
true-false h k = cc

find_text→ :
    (pattern text before behind : List ℕ)
    → find_text pattern text ≡ some (before, behind)
    → FirstAt pattern text before behind
find_text→ pattern text before behind e =
    subst (IsFound pattern text) e (find_text-IsFound pattern text)

module _ (name text before tail : List ℕ)
    (opening : find_text (codes "[[") text ≡ some (before, tail)) where
  same_tail : (m : Marks name text) → tail ≡ m.tail
  unfolding back_of
  same_tail m = ap back_of (sym opening ∙ m.first)

  same_last : (m : Marks name text) → find_text (codes "]]") tail ≡ some (m.inside, m.behind)
  same_last m = ap (find_text (codes "]]")) (same_tail m) ∙ m.last

  declared-Tells :
      (o : Option (List ℕ × List ℕ)) (more : Outcome Bool)
      → find_text (codes "]]") tail ≡ o
      → Tells name tail more
      → Tells name text (declared name o more)
  unfolding front_of
  declared-Tells none more e h =
      (false, refl, (λ k. cc, λ d. absurd (none-some _ (sym e ∙ same_last (Declares→ name d)))))
  declared-Tells (some (inside, behind)) more e (b, answer, i) =
      let first = find_text→ (codes "[[") text before tail opening in
      let last = find_text→ (codes "]]") tail inside behind e in
      elim (Bool-cases (list_declares (compact inside) name)) [
        | inl t ↦ (
          true,
          rw t,
          (
            λ _. here before tail inside behind first last (list_declares→ name inside t),
            λ _. refl,
          ),
        )
        | inr t ↦ (
          b,
          rw t answer,
          (
            λ k. later before tail inside behind first last (i.0 k),
            λ d.
                let m = Declares→ name d in
                let same : inside ≡ m.inside = ap front_of (sym e ∙ same_last m) in
                elim m.found [
                  | inl n ↦
                      absurd
                        (true-false (HasName→ name inside (subst (HasName name) (sym same) n)) t)
                  | inr k ↦ i.1 (subst (Declares name) (sym (same_tail m)) k)
                ],
          ),
        )
      ]

opened-Tells :
    (name text : List ℕ) (o : Option (List ℕ × List ℕ)) (loop : List ℕ → Outcome Bool)
    → find_text (codes "[[") text ≡ o
    → ((before tail : List ℕ) → o ≡ some (before, tail) → Tells name tail (loop tail))
    → Tells name text (opened name o loop)
opened-Tells name text none loop e h =
    (false, refl, (λ k. cc, λ d. absurd (none-some _ (sym e ∙ (Declares→ name d).first))))
opened-Tells name text (some (before, tail)) loop e h =
    declared-Tells name text before tail e (find_text (codes "]]") tail) (loop tail) refl
      (h before tail refl)

declares_from-Tells :
    (fuel : ℕ) (text name : List ℕ)
    → length text < fuel
    → Tells name text (declares_from fuel text name)
unfolding declares_from
declares_from-Tells zero text name h = absurd (omega arith)
declares_from-Tells (suc fuel) text name h =
    opened-Tells name text (find_text (codes "[[") text) _ refl λ before tail e.
      let shorter : length tail + 2 ≤ length text =
        subst (Leaves (length text) 2) e (find_text-Leaves (codes "[[") text) in
      declares_from-Tells fuel tail name (omega arith)

-- On any text, `declares_attribute` comes to an answer, and it is true exactly if a list of the text has
-- the name. A list stands between a `[[` and the first `]]` behind it, and each search for a `[[` goes on
-- behind the one before; a text without a `]]` there has no list any more. Without its blanks, a list has
-- the name if it begins with `usingreflgen:` and the name is a word of what follows, or if it does not
-- and the name with `reflgen::` in front of it is a word of the list.
pub declares_attribute_iff :
    (text name : List ℕ)
    → (b : Bool) × (declares_attribute text name ≡ ok b) × ((b ≡ true) ↔ Declares name text)
unfolding declares_attribute
declares_attribute_iff text name = declares_from-Tells (suc (length text)) text name (omega arith)
