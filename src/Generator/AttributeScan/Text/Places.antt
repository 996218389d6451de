-- ===== src/Generator/AttributeScan/Text/Places.antt =====
-- generator/src/attribute_scan.cpp: where the first search for a pattern ends in a text, and texts without
-- their blanks.
use reflgen_cpp.Common.{
  ℕ, ◌≤◌, ◌≡◌, refl, sym, ap, ◌∙◌, ◌↔◌, ◌⊎◌, true, false, List, [], ◌∷◌, ◌++◌, Option, none, some,
  length, drop, drop-append, arith, Bool-cases, inl, inr,
}
use reflgen_cpp.Generator.AttributeScan.Text.{starts_with, find_text, put_before, is_blank, compact}
use reflgen_cpp.Generator.AttributeScan.Text.Words.{starts_with-append, starts_with→}

-- The first place of a pattern in a text, between what is before it and what is behind it.
pub data FirstAt (pattern : List ℕ) : List ℕ → List ℕ → List ℕ → Type 0 where
  at_front :
      {text : List ℕ} (behind : List ℕ) → text ≡ pattern ++ behind → FirstAt pattern text [] behind
  further :
      {text before behind : List ℕ} (c : ℕ)
      → ((rest : List ℕ) → ¬ (c ∷ text ≡ pattern ++ rest))
      → FirstAt pattern text before behind
      → FirstAt pattern (c ∷ text) (c ∷ before) behind

-- Space, and the characters from tab to carriage return.
abbrev pub IsBlank : ℕ → Type 0
IsBlank c = (c ≡ b' ') ⊎ ((9 ≤ c) × (c ≤ 13))

-- A text and the same text without its blanks.
pub data Strips : List ℕ → List ℕ → Type 0 where
  end_of_text : Strips [] []
  skip : {text list : List ℕ} (c : ℕ) → IsBlank c → Strips text list → Strips (c ∷ text) list
  keep :
      {text list : List ℕ} (c : ℕ) → ¬ (IsBlank c) → Strips text list → Strips (c ∷ text) (c ∷ list)

pub starts_with-not :
    (word text : List ℕ) → starts_with word text ≡ false → (rest : List ℕ) → ¬ (text ≡ word ++ rest)
starts_with-not word text h rest e =
    true_false (sym (ap (starts_with word) e ∙ starts_with-append word rest) ∙ h)
  where
    true_false : ¬ (true ≡ false)
    true_false k = cc

pub not-starts_with :
    (word text : List ℕ)
    → ((rest : List ℕ) → ¬ (text ≡ word ++ rest))
    → starts_with word text ≡ false
not-starts_with word text h = elim (Bool-cases (starts_with word text)) [
  | inl e ↦ absurd (h (drop (length word) text) (starts_with→ word text e))
  | inr e ↦ e
]

-- `find_text` finds the first place.
abbrev pub IsFound : List ℕ → List ℕ → Option (List ℕ × List ℕ) → Type 0
IsFound pattern text none = Unit {0}
IsFound pattern text (some (before, behind)) = FirstAt pattern text before behind

put_before-IsFound :
    (pattern text : List ℕ) (c : ℕ) (o : Option (List ℕ × List ℕ))
    → starts_with pattern (c ∷ text) ≡ false
    → IsFound pattern text o
    → IsFound pattern (c ∷ text) (put_before c o)
put_before-IsFound pattern text c none h k = tt
put_before-IsFound pattern text c (some (before, behind)) h k =
    further c (starts_with-not pattern (c ∷ text) h) k

pub find_text-IsFound : (pattern text : List ℕ) → IsFound pattern text (find_text pattern text)
unfolding find_text
find_text-IsFound [] [] = at_front [] refl
find_text-IsFound (w ∷ ws) [] = tt
find_text-IsFound pattern (c ∷ cs) = elim (Bool-cases (starts_with pattern (c ∷ cs))) [
  | inl e ↦ rw e (at_front (drop (length pattern) (c ∷ cs)) (starts_with→ pattern (c ∷ cs) e))
  | inr e ↦
      rw e (put_before-IsFound pattern cs c (find_text pattern cs) e (find_text-IsFound pattern cs))
]

find_text-front :
    (pattern text : List ℕ)
    → starts_with pattern text ≡ true
    → find_text pattern text ≡ some ([], drop (length pattern) text)
unfolding find_text
find_text-front [] [] h = refl
find_text-front (w ∷ ws) [] h = cc
find_text-front pattern (c ∷ cs) h = rw h

pub FirstAt→ :
    (pattern : List ℕ) {text before behind : List ℕ}
    → FirstAt pattern text before behind
    → find_text pattern text ≡ some (before, behind)
unfolding find_text
FirstAt→ pattern (at_front {text} behind e) =
    find_text-front pattern text (ap (starts_with pattern) e ∙ starts_with-append pattern behind)
    ∙ ap (λ t. some ([], t)) (ap (drop (length pattern)) e ∙ drop-append pattern behind)
FirstAt→ pattern (further {text} {before} {behind} c h f) =
    rw (not-starts_with pattern (c ∷ text) h, FirstAt→ pattern f)

-- `compact` leaves the blanks out.
is_blank_iff : (c : ℕ) → (is_blank c ≡ true) ↔ IsBlank c
is_blank_iff c = (λ h. grind arith, λ h. grind arith)

pub Strips-compact : (text : List ℕ) → Strips text (compact text)
unfolding compact
Strips-compact [] = end_of_text
Strips-compact (c ∷ cs) = elim (Bool-cases (is_blank c)) [
  | inl e ↦ rw e (skip c ((is_blank_iff c).0 e) (Strips-compact cs))
  | inr e ↦ rw e (keep c (λ b. cc ((is_blank_iff c).1 b, e)) (Strips-compact cs))
]

pub Strips→ : {text list : List ℕ} → Strips text list → compact text ≡ list
unfolding compact
Strips→ end_of_text = refl
Strips→ (skip {text} {list} c b s) = rw ((is_blank_iff c).1 b, Strips→ s)
Strips→ (keep {text} {list} c b s) = elim (Bool-cases (is_blank c)) [
  | inl e ↦ absurd (b ((is_blank_iff c).0 e))
  | inr e ↦ rw (e, Strips→ s)
]
