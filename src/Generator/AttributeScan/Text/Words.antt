-- ===== src/Generator/AttributeScan/Text/Words.antt =====
-- The words and the marks that generator/src/attribute_scan.cpp finds in the text of a header.
use reflgen_cpp.Common.{
  ℕ, suc, ◌+◌, ◌≤◌, ◌≡◌, refl, sym, ap, ◌↔◌, Bool, true, false, ◌&&◌, ◌||◌, List, [], ◌∷◌, ◌++◌,
  if◌then◌else◌, Option, none, some, length, length-drop, drop, drop-append, arith, Bool-cases, inl,
  inr,
}
use mathlib.Core.Path.{subst}
use reflgen_cpp.Generator.AttributeScan.Text.{
  starts_with, is_edge, front, is_word_at, contains_word_from, contains_word, find_text, put_before,
}

pub starts_with-append : (word after : List ℕ) → starts_with word (word ++ after) ≡ true
starts_with-append [] after = refl
starts_with-append (w ∷ ws) after = ground (arith, starts_with-append ws after)

pub starts_with→ :
    (word text : List ℕ) → starts_with word text ≡ true → text ≡ word ++ drop (length word) text
starts_with→ [] text h = refl
starts_with→ (w ∷ ws) [] h = cc
starts_with→ (w ∷ ws) (c ∷ cs) h = ground (arith, starts_with→ ws cs)

-- The character before a position: the last of a text, or the one before the text.
abbrev pub last_of : Option ℕ → List ℕ → Option ℕ
last_of previous [] = previous
last_of previous (c ∷ cs) = last_of (some c) cs

-- The word stands in the text, with no character of an identifier on either side.
pub record Occurs (previous : Option ℕ) (word text : List ℕ) : Type 0 where
  pub before : List ℕ
  pub after : List ℕ
  pub whole : text ≡ before ++ (word ++ after)
  pub starts : is_edge (last_of previous before) ≡ true
  pub ends : is_edge (front after) ≡ true

both : (p q : Bool) → (p && q) ≡ true → (p ≡ true) × (q ≡ true)
both true true h = (refl, refl)
both true false h = cc
both false q h = cc

is_word_at→ :
    (p : Option ℕ) (word text : List ℕ) → is_word_at p word text ≡ true → Occurs p word text
is_word_at→ p word text h =
    let (found, edges) = both (starts_with word text) _ h in
    let (starts, ends) = both (is_edge p) _ edges in
    record {
      before = [];
      after = drop (length word) text;
      whole = starts_with→ word text found;
      starts = starts;
      ends = ends;
    }

is_word_at-append :
    (p : Option ℕ) (word after : List ℕ)
    → is_edge p ≡ true
    → is_edge (front after) ≡ true
    → is_word_at p word (word ++ after) ≡ true
is_word_at-append p word after h k =
    rw (starts_with-append word after, drop-append word after, h, k)

contains→ :
    (p : Option ℕ) (word text : List ℕ) → contains_word_from p word text ≡ true → Occurs p word text
unfolding contains_word_from
contains→ p word [] h = is_word_at→ p word [] h
contains→ p word (c ∷ cs) h = elim (Bool-cases (is_word_at p word (c ∷ cs))) [
  | inl e ↦ is_word_at→ p word (c ∷ cs) e
  | inr e ↦
      let o =
        contains→ (some c) word cs
          (later (is_word_at p word (c ∷ cs)) (contains_word_from (some c) word cs) e h) in
      record {
        before = c ∷ o.before;
        after = o.after;
        whole = ap (λ t. c ∷ t) o.whole;
        starts = o.starts;
        ends = o.ends;
      }
]
  where
    later : (x y : Bool) → x ≡ false → (x || y) ≡ true → y ≡ true
    later true y k l = cc
    later false y k l = l

contains-append :
    (p : Option ℕ) (word before after : List ℕ)
    → is_edge (last_of p before) ≡ true
    → is_edge (front after) ≡ true
    → contains_word_from p word (before ++ (word ++ after)) ≡ true
unfolding contains_word_from
contains-append p word [] after h k = here (word ++ after) (is_word_at-append p word after h k)
  where
    here : (text : List ℕ) → is_word_at p word text ≡ true → contains_word_from p word text ≡ true
    here [] e = e
    here (c ∷ cs) e = rw e
contains-append p word (c ∷ before) after h k =
    rw (contains-append (some c) word before after h k)
      (or_true (is_word_at p word (c ∷ (before ++ (word ++ after)))))
  where
    or_true : (x : Bool) → (x || true) ≡ true
    or_true true = refl
    or_true false = refl

-- `contains_word` is true exactly for a text where the word stands with no character of an identifier
-- directly before it and none directly behind it.
pub contains_word_iff :
    (text word : List ℕ) → (contains_word text word ≡ true) ↔ Occurs none word text
unfolding contains_word
contains_word_iff text word = (
  contains→ none word text,
  λ o.
      subst (λ t. contains_word_from none word t ≡ true) (sym o.whole)
        (contains-append none word o.before o.after o.starts o.ends),
)

-- What is found leaves a text that is shorter by the pattern.
abbrev pub Leaves : ℕ → ℕ → Option (List ℕ × List ℕ) → Type 0
Leaves n k none = Unit {0}
Leaves n k (some (before, behind)) = length behind + k ≤ n

put_before-Leaves :
    (n k c : ℕ) (o : Option (List ℕ × List ℕ)) → Leaves n k o → Leaves (suc n) k (put_before c o)
put_before-Leaves n k c none h = tt
put_before-Leaves n k c (some (before, behind)) h = omega arith

if-Leaves :
    (n k : ℕ) (b : Bool) (x y : Option (List ℕ × List ℕ))
    → (b ≡ true → Leaves n k x)
    → Leaves n k y
    → Leaves n k (if b then x else y)
if-Leaves n k true x y h l = h refl
if-Leaves n k false x y h l = l

starts_with-le : (word text : List ℕ) → starts_with word text ≡ true → length word ≤ length text
starts_with-le [] text h = omega arith
starts_with-le (w ∷ ws) [] h = cc
starts_with-le (w ∷ ws) (c ∷ cs) h = ground (arith, starts_with-le ws cs)

pub find_text-Leaves :
    (pattern text : List ℕ) → Leaves (length text) (length pattern) (find_text pattern text)
unfolding find_text
find_text-Leaves pattern [] =
    if-Leaves 0 (length pattern) (starts_with pattern []) (some ([], [])) none
      (λ e. omega (arith, starts_with-le pattern [] e)) tt
find_text-Leaves pattern (c ∷ cs) =
    if-Leaves (suc (length cs)) (length pattern) (starts_with pattern (c ∷ cs)) _ _
      (λ e. omega (arith, starts_with-le pattern (c ∷ cs) e, length-drop (length pattern) (c ∷ cs)))
      (put_before-Leaves (length cs) (length pattern) c (find_text pattern cs)
        (find_text-Leaves pattern cs))
