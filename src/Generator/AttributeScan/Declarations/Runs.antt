-- ===== src/Generator/AttributeScan/Declarations/Runs.antt =====
-- The runs of groups that generator/src/attribute_scan.cpp picks for a declaration.
use reflgen_cpp.Common.{
  ℕ, zero, suc, ◌+◌, ◌≤◌, ◌<◌, ◌≡◌, refl, sym, ap, ◌∙◌, false, List, [], ◌∷◌, ◌==◌, ==_iff, ltb,
  if◌then◌else◌, Option, none, some, length, All, arith, Bool-cases, inl, inr,
}
use mathlib.Core.Path.{subst}
use reflgen_cpp.Common.Outcome.{Outcome, ok}
use reflgen_cpp.Generator.AttributeScan.{Token, AttributeGroup}
use reflgen_cpp.Generator.AttributeScan.Declarations.{
  first_token_from, first_group_from, run_behind, run_from, groups_run_at,
}

-- One of the groups.
pub data IsOneOf (group : AttributeGroup) : List AttributeGroup → Type 0 where
  here : {groups : List AttributeGroup} → IsOneOf group (group ∷ groups)
  there :
      {other : AttributeGroup} {groups : List AttributeGroup}
      → IsOneOf group groups
      → IsOneOf group (other ∷ groups)

-- The groups that the two searches find round by round.
pub data Picks (tokens : List Token) (groups : List AttributeGroup)
    : ℕ → List AttributeGroup → Type 0 where
  none_left :
      {offset : ℕ}
      → ((group : AttributeGroup)
          → first_group_from groups offset ≡ some group
          → ¬ (group.begin ≡ offset))
      → Picks tokens groups offset []
  last :
      (group : AttributeGroup)
      → first_group_from groups group.begin ≡ some group
      → first_token_from tokens group.end ≡ []
      → Picks tokens groups group.begin (group ∷ [])
  follows :
      (group : AttributeGroup) (next : Token) (later : List Token) (run : List AttributeGroup)
      → first_group_from groups group.begin ≡ some group
      → first_token_from tokens group.end ≡ next ∷ later
      → Picks tokens groups next.begin run
      → Picks tokens groups group.begin (group ∷ run)

-- How many groups begin at an offset or behind it.
abbrev left : List AttributeGroup → ℕ → ℕ
left [] offset = 0
left (group ∷ groups) offset = (if ltb group.begin offset then 0 else 1) + left groups offset

left-le : (groups : List AttributeGroup) (offset : ℕ) → left groups offset ≤ length groups
left-le [] offset = omega arith
left-le (group ∷ groups) offset = ground (arith, left-le groups offset)

left_mono : (groups : List AttributeGroup) (a b : ℕ) → a ≤ b → left groups b ≤ left groups a
left_mono [] a b h = omega arith
left_mono (group ∷ groups) a b h = ground (arith, left_mono groups a b h)

left-less :
    (group : AttributeGroup) (groups : List AttributeGroup) (b : ℕ)
    → IsOneOf group groups
    → group.begin < b
    → left groups b < left groups group.begin
left-less group _ b (here {groups}) h = ground (arith, left_mono groups group.begin b)
left-less group _ b (there {other} {groups} k) h = ground (arith, left-less group groups b k h)

first_token_from-ge :
    (tokens : List Token) (offset : ℕ) (next : Token) (later : List Token)
    → first_token_from tokens offset ≡ next ∷ later
    → offset ≤ next.begin
unfolding first_token_from
first_token_from-ge [] offset next later e = cc
first_token_from-ge (item ∷ tokens) offset next later e =
    elim (Bool-cases (ltb item.begin offset)) [
      | inl h ↦
          let same : first_token_from (item ∷ tokens) offset ≡ first_token_from tokens offset =
            rw h in
          first_token_from-ge tokens offset next later (sym same ∙ e)
      | inr h ↦
          let same : first_token_from (item ∷ tokens) offset ≡ item ∷ tokens = rw h in
          let at : item ≡ next = head_eq item next tokens later (sym same ∙ e) in
          omega (arith, ap (λ t. t.begin) at, ltb_le item.begin offset h)
    ]
  where
    head_eq : (x y : Token) (xs ys : List Token) → x ∷ xs ≡ y ∷ ys → x ≡ y
    head_eq x y xs ys k = cc

    ltb_le : (a b : ℕ) → ltb a b ≡ false → b ≤ a
    ltb_le a b k = ground arith

pub first_group_from-IsOneOf :
    (groups : List AttributeGroup) (offset : ℕ) (group : AttributeGroup)
    → first_group_from groups offset ≡ some group
    → IsOneOf group groups
unfolding first_group_from
first_group_from-IsOneOf [] offset group e = cc
first_group_from-IsOneOf (other ∷ groups) offset group e =
    elim (Bool-cases (ltb other.begin offset)) [
      | inl h ↦
          let same : first_group_from (other ∷ groups) offset ≡ first_group_from groups offset =
            rw h in
          there (first_group_from-IsOneOf groups offset group (sym same ∙ e))
      | inr h ↦
          let same : first_group_from (other ∷ groups) offset ≡ some other = rw h in
          subst (λ g. IsOneOf g (other ∷ groups)) (some_eq other group (sym same ∙ e)) here
    ]
  where
    some_eq : (x y : AttributeGroup) → some x ≡ some y → x ≡ y
    some_eq x y k = cc

-- An answer that is what the searches find.
abbrev pub AnswersPicks :
    List Token → List AttributeGroup → ℕ → Outcome (List AttributeGroup) → Type 0
AnswersPicks tokens groups offset m =
    (run : List AttributeGroup) × (m ≡ ok run) × Picks tokens groups offset run

All-IsOneOf :
    (P : AttributeGroup → Type 0) (group : AttributeGroup) (groups : List AttributeGroup)
    → All P groups
    → IsOneOf group groups
    → P group
All-IsOneOf P group _ h (here {groups}) = h.0
All-IsOneOf P group _ h (there {other} {groups} k) = All-IsOneOf P group groups h.1 k

none-some : (group : AttributeGroup) → ¬ (none ≡ some group)
none-some group e = cc

elsewhere :
    (group found : AttributeGroup) (offset : ℕ)
    → (group.begin == offset) ≡ false
    → some group ≡ some found
    → ¬ (found.begin ≡ offset)
elsewhere group found offset other e at = not_same group.begin offset other (ap begin_of e ∙ at)
  where
    begin_of : Option AttributeGroup → ℕ
    begin_of none = 0
    begin_of (some g) = g.begin

    not_same : (a b : ℕ) → (a == b) ≡ false → ¬ (a ≡ b)
    not_same a b h k = ground arith

module _ (tokens : List Token) (groups : List AttributeGroup) where
  run_behind_lem :
      (group : AttributeGroup) (behind : List Token) (loop : ℕ → Outcome (List AttributeGroup))
      → first_group_from groups group.begin ≡ some group
      → first_token_from tokens group.end ≡ behind
      → ((offset : ℕ) → group.end ≤ offset → AnswersPicks tokens groups offset (loop offset))
      → AnswersPicks tokens groups group.begin (run_behind group behind loop)
  run_behind_lem group [] loop k e h = (group ∷ [], refl, last group k e)
  run_behind_lem group (next ∷ later) loop k e h =
      let (run, answer, linked) =
        h next.begin (first_token_from-ge tokens group.end next later e) in
      (group ∷ run, rw answer, follows group next later run k e linked)

  run_from_lem :
      (o : Option AttributeGroup) (offset : ℕ) (loop : ℕ → Outcome (List AttributeGroup))
      → first_group_from groups offset ≡ o
      → ((group : AttributeGroup)
          → IsOneOf group groups
          → group.begin ≡ offset
          → (later : ℕ) → group.end ≤ later
          → AnswersPicks tokens groups later (loop later))
      → AnswersPicks tokens groups offset (run_from tokens o offset loop)
  run_from_lem none offset loop e h =
      ([], refl, none_left λ group found. absurd (none-some group (sym e ∙ found)))
  run_from_lem (some group) offset loop e h = elim (Bool-cases (group.begin == offset)) [
    | inl same ↦
        let at : group.begin ≡ offset = (==_iff group.begin offset).0 same in
        let k = first_group_from-IsOneOf groups offset group e in
        rw same (
          subst
            (λ z.
              AnswersPicks tokens groups z
                (run_behind group (first_token_from tokens group.end) loop))
            at
            (run_behind_lem group (first_token_from tokens group.end) loop
              (ap (first_group_from groups) at ∙ e) refl (h group k at)))
    | inr other ↦
        rw other
          ([], refl, none_left λ found k at. elsewhere group found offset other (sym e ∙ k) at)
  ]

  groups_run_at-Picks :
      (fuel offset : ℕ)
      → All (λ g. g.begin < g.end) groups
      → left groups offset < fuel
      → AnswersPicks tokens groups offset (groups_run_at fuel tokens groups offset)
  unfolding groups_run_at
  groups_run_at-Picks zero offset h few = absurd (omega arith)
  groups_run_at-Picks (suc fuel) offset h few =
      run_from_lem (first_group_from groups offset) offset (groups_run_at fuel tokens groups) refl
        λ group k at later behind.
          let long : group.begin < group.end =
            All-IsOneOf (λ g. g.begin < g.end) group groups h k in
          let less = left-less group groups later k (omega arith) in
          let same : left groups group.begin ≡ left groups offset = ap (left groups) at in
          groups_run_at-Picks fuel later h (omega arith)

pub groups_run_at-AnswersPicks :
    (tokens : List Token) (groups : List AttributeGroup) (offset : ℕ)
    → All (λ g. g.begin < g.end) groups
    → AnswersPicks tokens groups offset (groups_run_at (length groups + 1) tokens groups offset)
groups_run_at-AnswersPicks tokens groups offset h =
    groups_run_at-Picks tokens groups (length groups + 1) offset h
      (omega (arith, left-le groups offset))
