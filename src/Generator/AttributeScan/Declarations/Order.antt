-- ===== src/Generator/AttributeScan/Declarations/Order.antt =====
-- The runs of groups of generator/src/attribute_scan.cpp, on tokens and groups in the order of their
-- offsets.
use reflgen_cpp.Common.{
  ℕ, ◌+◌, ◌≤◌, ◌<◌, ◌≡◌, sym, ap, ◌∙◌, List, [], ◌∷◌, ◌++◌, append-nil, ltb, some, length, All,
  All-map, arith, true, false, Bool-cases, inl, inr,
}
use reflgen_cpp.Common.Outcome.{Outcome, ok}
use reflgen_cpp.Generator.AttributeScan.{Token, AttributeGroup}
use reflgen_cpp.Generator.AttributeScan.Declarations.{
  first_token_from, first_group_from, groups_run_at,
}
use reflgen_cpp.Generator.AttributeScan.Declarations.Runs.{
  IsOneOf, Picks, none_left, last, follows, first_group_from-IsOneOf, groups_run_at-AnswersPicks,
}

-- Each offset lies before all the later ones, as `std::lower_bound` asks for.
abbrev pub InOrder : {A : Type 0} → (A → ℕ) → List A → Type 0
InOrder begin [] = Unit {0}
InOrder begin (x ∷ xs) = All (λ y. begin x < begin y) xs × InOrder begin xs

-- Groups one behind the other, as many as there are: the first begins at the offset, each other one at the
-- first of the tokens that do not begin before the end of the group before it, and behind the last one
-- there is no token, or one at which no group begins.
pub data Run (tokens : List Token) (groups : List AttributeGroup)
    : ℕ → List AttributeGroup → Type 0 where
  no_group : {offset : ℕ} → All (λ g. ¬ (g.begin ≡ offset)) groups → Run tokens groups offset []
  no_token :
      (group : AttributeGroup)
      → IsOneOf group groups
      → All (λ t. t.begin < group.end) tokens
      → Run tokens groups group.begin (group ∷ [])
  group_behind :
      (group : AttributeGroup) (before : List Token) (next : Token) (later : List Token)
      (run : List AttributeGroup)
      → IsOneOf group groups
      → tokens ≡ before ++ next ∷ later
      → All (λ t. t.begin < group.end) before
      → All (λ t. group.end ≤ t.begin) (next ∷ later)
      → Run tokens groups next.begin run
      → Run tokens groups group.begin (group ∷ run)

-- An answer that is a run.
abbrev pub AnswersRun :
    List Token → List AttributeGroup → ℕ → Outcome (List AttributeGroup) → Type 0
AnswersRun tokens groups offset m =
    (run : List AttributeGroup) × (m ≡ ok run) × Run tokens groups offset run

ltb→ : (a b : ℕ) → ltb a b ≡ true → a < b
ltb→ a b e = ground arith

ltb_le : (a b : ℕ) → ltb a b ≡ false → b ≤ a
ltb_le a b e = ground arith

-- Where the search finds no group that begins at the offset, there is none.
first_group_from-All :
    (groups : List AttributeGroup) (offset : ℕ)
    → InOrder (λ g. g.begin) groups
    → ((group : AttributeGroup)
        → first_group_from groups offset ≡ some group
        → ¬ (group.begin ≡ offset))
    → All (λ g. ¬ (g.begin ≡ offset)) groups
unfolding first_group_from
first_group_from-All [] offset h k = tt
first_group_from-All (group ∷ groups) offset (h, hs) k =
    elim (Bool-cases (ltb group.begin offset)) [
      | inl e ↦
          let before = ltb→ group.begin offset e in
          let same : first_group_from (group ∷ groups) offset ≡ first_group_from groups offset =
            rw e in
          (λ at. omega arith, first_group_from-All groups offset hs λ found f. k found (same ∙ f))
      | inr e ↦
          let behind = ltb_le group.begin offset e in
          let other : ¬ (group.begin ≡ offset) = k group (rw e) in
          (
            other,
            All-map (λ g. group.begin < g.begin) (λ g. ¬ (g.begin ≡ offset))
                (λ g later at. other (omega arith)) groups h,
          )
    ]

-- The tokens from the first one on that does not begin before the offset.
first_token_from-All :
    (tokens : List Token) (offset : ℕ) (behind : List Token)
    → InOrder (λ t. t.begin) tokens
    → first_token_from tokens offset ≡ behind
    → (before : List Token) × (tokens ≡ before ++ behind)
      × All (λ t. t.begin < offset) before
      × All (λ t. offset ≤ t.begin) behind
unfolding first_token_from
first_token_from-All [] offset behind h e = ([], e, tt, rw (sym e) tt)
first_token_from-All (item ∷ tokens) offset behind (h, hs) e =
    elim (Bool-cases (ltb item.begin offset)) [
      | inl f ↦
          let same : first_token_from (item ∷ tokens) offset ≡ first_token_from tokens offset =
            rw f in
          let (before, split, less, more) =
            first_token_from-All tokens offset behind hs (sym same ∙ e) in
          (item ∷ before, ap (λ ts. item ∷ ts) split, (ltb→ item.begin offset f, less), more)
      | inr f ↦
          let same : first_token_from (item ∷ tokens) offset ≡ item ∷ tokens = rw f in
          let at = ltb_le item.begin offset f in
          (
            [],
            sym same ∙ e,
            tt,
            rw (sym (sym same ∙ e)) (
              at,
              All-map (λ t. item.begin < t.begin) (λ t. offset ≤ t.begin) (λ t l. omega arith)
                  tokens h,
            ),
          )
    ]

module _ (tokens : List Token) (groups : List AttributeGroup) (ts : InOrder (λ t. t.begin) tokens)
    (gs : InOrder (λ g. g.begin) groups) where
  Picks→ :
      {offset : ℕ} {run : List AttributeGroup}
      → Picks tokens groups offset run
      → Run tokens groups offset run
  Picks→ (none_left {offset} h) = no_group (first_group_from-All groups offset gs h)
  Picks→ (last group found e) =
      let (before, split, less, _) = first_token_from-All tokens group.end [] ts e in
      no_token group (first_group_from-IsOneOf groups group.begin group found)
        (rw (split ∙ append-nil before) less)
  Picks→ (follows group next later run found e p) =
      let (before, split, less, more) = first_token_from-All tokens group.end (next ∷ later) ts e in
      group_behind group before next later run
        (first_group_from-IsOneOf groups group.begin group found) split less more (Picks→ p)

-- On tokens and groups in the order of their offsets, where each group ends behind where it begins,
-- `groups_run_at` returns the run of groups that stand one behind the other from the offset on: the first
-- of them begins at the offset, each other one at the first token that does not begin before the end of
-- the group before it, and the run ends where there is no such token or no group begins at it. A round for
-- each group, and one more, are enough.
pub groups_run_at_lem :
    (tokens : List Token) (groups : List AttributeGroup) (offset : ℕ)
    → InOrder (λ t. t.begin) tokens
    → InOrder (λ g. g.begin) groups
    → All (λ g. g.begin < g.end) groups
    → AnswersRun tokens groups offset (groups_run_at (length groups + 1) tokens groups offset)
groups_run_at_lem tokens groups offset ts gs h =
    let (run, answer, picks) = groups_run_at-AnswersPicks tokens groups offset h in
    (run, answer, Picks→ tokens groups ts gs picks)
