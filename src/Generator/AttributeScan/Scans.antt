-- ===== src/Generator/AttributeScan/Scans.antt =====
-- `scan_attribute_groups` of generator/src/attribute_scan.cpp on a source with attribute lists.
use reflgen_cpp.Common.{
  Bool-cases, inl, inr, bytes_eq, none, ℕ, zero, suc, ◌≤◌, ◌≡◌, refl, true, false, ◌&&◌, List, [],
  ◌∷◌, length, All, arith, Bool,
}
use mathlib.Core.Path.{subst}
use reflgen_cpp.Common.Outcome.{Outcome, ok}
use reflgen_cpp.Json.Base64.{codes}
use reflgen_cpp.Generator.AttributeScan.{
  TokenKind, named_kind, is_keyword, is_name, ends_group, parse_attributes, parse_group, Token,
  AttributeGroup, is, scan_groups, scan_attribute_groups,
}
use reflgen_cpp.Generator.AttributeScan.Groups.{
  parse_group-list_tokens, is_using, default_scope_of-plain,
}
use reflgen_cpp.Generator.AttributeScan.Termination.{scan_groups-Ends, Ends→}
use reflgen_cpp.Generator.AttributeScan.Places.{Placed, Gives, scan_groups-Placed}
use reflgen_cpp.Generator.AttributeScan.Pieces.{
  Group, Piece, plain_token, broken, IsBroken, bracket, group, inner_tokens, piece_tokens,
  source_tokens, group_of, source_groups, IsGroup, IsPiece, inner_tokens-le,
}

-- A position where no two brackets open.
abbrev NotOpened : Token → List Token → Type 0
NotOpened first [] = Unit {0}
NotOpened first (second ∷ later) = (is first (codes "[") && is second (codes "[")) ≡ false

plain-NotOpened :
    (item : Token) (later : List Token) → is item (codes "[") ≡ false → NotOpened item later
plain-NotOpened item [] h = tt
plain-NotOpened item (next ∷ later) h = rw h

and_false : (b : Bool) → (b && false) ≡ false
and_false true = refl
and_false false = refl

bracket-NotOpened :
    (item next : Token) (later : List Token)
    → is next (codes "[") ≡ false
    → NotOpened item (next ∷ later)
bracket-NotOpened item next later h = rw h (and_false (is item (codes "[")))

scan_groups-other :
    (fuel : ℕ) (first : Token) (later : List Token) (groups : List AttributeGroup)
    → NotOpened first later
    → scan_groups fuel later ≡ ok groups
    → scan_groups (suc fuel) (first ∷ later) ≡ ok groups
unfolding scan_groups
scan_groups-other fuel first [] groups h k = k
scan_groups-other fuel first (second ∷ later) groups h k = rw (h, k)

scan_groups-group :
    (fuel : ℕ) (g : Group) (later : List Token) (groups : List AttributeGroup)
    → IsGroup g
    → scan_groups fuel later ≡ ok groups
    → scan_groups (suc fuel) (piece_tokens (group g) later) ≡ ok (group_of g ∷ groups)
unfolding scan_groups is
scan_groups-group fuel g later groups h e = rw (
  parse_group-list_tokens g.prefix g.attributes (suc (length (inner_tokens g later))) g.first.begin
      g.third.begin g.third.end g.last.begin g.last.end later h.arguments_match (h.prefixed later)
      (omega (arith, inner_tokens-le g later h)),
  e,
)

named-is_using :
    (third : Token) (later : List Token) → is_name third ≡ false → is_using (third ∷ later) ≡ false
unfolding is_name
named-is_using third later h = kinds third.kind third.spelling h
  where
    kinds :
        (k : TokenKind) (s : List ℕ)
        → named_kind k ≡ false
        → (is_keyword k && bytes_eq s (codes "using")) ≡ false
    kinds TokenKind.punctuation s e = refl
    kinds TokenKind.keyword s e = cc
    kinds TokenKind.identifier s e = cc
    kinds TokenKind.literal s e = refl
    kinds TokenKind.comment s e = refl

IsBroken-ends_group :
    (third fourth : Token) (later : List Token)
    → IsBroken third fourth
    → ends_group (third ∷ fourth ∷ later) ≡ none
IsBroken-ends_group third fourth later h = elim h.not_closed [
  | inl e ↦ rw e
  | inr e ↦ rw (e, and_false (is third (codes "]")))
]

IsBroken-parse_group :
    (fuel start : ℕ) (third fourth : Token) (later : List Token)
    → IsBroken third fourth
    → parse_group (suc fuel) start (third ∷ fourth ∷ later) ≡ ok none
unfolding parse_group parse_attributes
IsBroken-parse_group fuel start third fourth later h = rw (
  default_scope_of-plain (third ∷ fourth ∷ later) (named-is_using third (fourth ∷ later) h.no_name),
  IsBroken-ends_group third fourth later h,
  h.no_comma,
  h.no_name,
)

-- A position where a group is tried, and is none.
scan_groups-broken :
    (fuel : ℕ) (first second third fourth : Token) (later : List Token)
    (groups : List AttributeGroup)
    → IsBroken third fourth
    → scan_groups fuel (second ∷ third ∷ fourth ∷ later) ≡ ok groups
    → scan_groups (suc fuel) (first ∷ second ∷ third ∷ fourth ∷ later) ≡ ok groups
unfolding scan_groups
scan_groups-broken fuel first second third fourth later groups h e =
    elim (Bool-cases (is first (codes "[") && is second (codes "["))) [
      | inl b ↦
          rw
            (b, IsBroken-parse_group (suc (suc (length later))) first.begin third fourth later h, e)
      | inr b ↦ rw (b, e)
    ]

-- What the scan makes of a source with any tokens behind it.
abbrev Scans : List Piece → List Token → Outcome (List AttributeGroup) → Type 0
Scans pieces rest m =
    (more : List AttributeGroup) × (m ≡ ok (source_groups pieces more)) × Placed rest more

scan_groups-Scans :
    (rest : List Token) (pieces : List Piece) (fuel : ℕ)
    → All IsPiece pieces
    → length (source_tokens pieces rest) ≤ fuel
    → Scans pieces rest (scan_groups fuel (source_tokens pieces rest))
scan_groups-Scans rest [] fuel h few =
    let (groups, e) = Ends→ (scan_groups fuel rest) (scan_groups-Ends fuel rest few) in
    (groups, e, subst (Gives (Placed rest)) e (scan_groups-Placed fuel rest))
scan_groups-Scans rest (plain_token item ∷ pieces) zero h few = absurd (omega arith)
scan_groups-Scans rest (plain_token item ∷ pieces) (suc fuel) (h, hs) few =
    let later = source_tokens pieces rest in
    let (more, e, p) = scan_groups-Scans rest pieces fuel hs (omega arith) in
    (more, scan_groups-other fuel item later _ (plain-NotOpened item later h) e, p)
scan_groups-Scans rest (bracket item next ∷ pieces) zero h few = absurd (omega arith)
scan_groups-Scans rest (bracket item next ∷ pieces) (suc zero) h few = absurd (omega arith)
scan_groups-Scans rest (bracket item next ∷ pieces) (suc (suc fuel)) (h, hs) few =
    let later = source_tokens pieces rest in
    let (more, e, p) = scan_groups-Scans rest pieces fuel hs (omega arith) in
    (
      more,
      scan_groups-other (suc fuel) item (next ∷ later) _ (bracket-NotOpened item next later h)
          (scan_groups-other fuel next later _ (plain-NotOpened next later h) e),
      p,
    )
scan_groups-Scans rest (broken a b c d ∷ pieces) zero h few = absurd (omega arith)
scan_groups-Scans rest (broken a b c d ∷ pieces) (suc zero) h few = absurd (omega arith)
scan_groups-Scans rest (broken a b c d ∷ pieces) (suc (suc zero)) h few = absurd (omega arith)
scan_groups-Scans rest (broken a b c d ∷ pieces) (suc (suc (suc zero))) h few = absurd (omega arith)
scan_groups-Scans rest (broken a b c d ∷ pieces) (suc (suc (suc (suc fuel)))) (h, hs) few =
    let later = source_tokens pieces rest in
    let (more, e, p) = scan_groups-Scans rest pieces fuel hs (omega arith) in
    (
      more,
      scan_groups-broken (suc (suc (suc fuel))) a b c d later _ h (
          scan_groups-other (suc (suc fuel)) b (c ∷ d ∷ later) _
            (bracket-NotOpened b c (d ∷ later) h.not_opened)
            (scan_groups-other (suc fuel) c (d ∷ later) _
              (plain-NotOpened c (d ∷ later) h.not_opened)
              (scan_groups-other fuel d later _ (plain-NotOpened d later h.not_opened_next) e))),
      p,
    )
scan_groups-Scans rest (group g ∷ pieces) zero h few = absurd (omega arith)
scan_groups-Scans rest (group g ∷ pieces) (suc fuel) (h, hs) few =
    let later = source_tokens pieces rest in
    let (more, e, p) =
      scan_groups-Scans rest pieces fuel hs (omega (arith, inner_tokens-le g later h)) in
    (more, scan_groups-group fuel g later _ h e, p)

-- On a source with any tokens behind it, `scan_attribute_groups` returns, and begins with exactly the
-- groups of the source: one for each list of attributes that have commas between them and matching
-- brackets in their arguments, behind `using name:` or without the keyword `using` as the first name, with
-- its offsets and its attributes, and none for other tokens. Those are
-- tokens other than `[`, a token in front of one that is not `[`, and two tokens in front of one that is
-- no name, no `,`, no `[` and not the first of two `]`, if the one behind that is not `[`. The groups that
-- it finds in the tokens behind the source stand there in their order, none over another, each from two
-- tokens `[` to two tokens `]`.
pub scan_attribute_groups-source_tokens :
    (pieces : List Piece) (rest : List Token)
    → All IsPiece pieces
    → (more : List AttributeGroup) × (scan_attribute_groups (source_tokens pieces rest)
        ≡ ok (source_groups pieces more))
      × Placed rest more
unfolding scan_attribute_groups
scan_attribute_groups-source_tokens pieces rest h =
    scan_groups-Scans rest pieces (length (source_tokens pieces rest)) h (omega arith)
