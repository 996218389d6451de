-- ===== src/Generator/AttributeScan/Declarations.antt =====
-- generator/src/attribute_scan.cpp: the groups of one declaration, and the text of arguments. Tokens and
-- groups come in the order of their offsets, as `std::lower_bound` asks for: on these the searches from the
-- front stop where it does.
pub mod Runs
pub mod Order
use reflgen_cpp.Common.{
  ℕ, zero, suc, Bool, true, false, not, ◌&&◌, ◌||◌, List, [], ◌∷◌, ◌++◌, ◌==◌, ltb, leb,
  if◌then◌else◌, Option, none, some, length, bytes_eq,
}
use reflgen_cpp.Common.Outcome.{Outcome, ok, out_of_fuel, bind}
use reflgen_cpp.Json.Base64.{codes}
use reflgen_cpp.Generator.AttributeScan.{TokenKind, Token, AttributeGroup, is_punctuation}

-- `first_token_from`: the tokens from the one on that it points to, none if it is `end()`.
unfoldable pub first_token_from : List Token → ℕ → List Token
first_token_from [] offset = []
first_token_from (item ∷ later) offset =
    if ltb item.begin offset then first_token_from later offset else item ∷ later

-- The same, with the tokens before, the nearest first.
abbrev pub tokens_around : List Token → List Token → ℕ → List Token × List Token
tokens_around before [] offset = (before, [])
tokens_around before (item ∷ later) offset =
    if ltb item.begin offset
    then tokens_around (item ∷ before) later offset
    else (before, item ∷ later)

-- `std::lower_bound` on groups.
unfoldable pub first_group_from : List AttributeGroup → ℕ → Option AttributeGroup
first_group_from [] offset = none
first_group_from (group ∷ later) offset =
    if ltb group.begin offset then first_group_from later offset else some group

abbrev next_begin : List Token → Option ℕ
next_begin [] = none
next_begin (next ∷ _) = some next.begin

abbrev next_of : List Token → ℕ → Option ℕ
next_of [] offset = none
next_of (found ∷ later) offset = if not (found.begin == offset) then none else next_begin later

unfoldable pub next_token_offset : List Token → ℕ → Option ℕ
next_token_offset tokens offset = next_of (first_token_from tokens offset) offset

-- A round of `groups_run_at`, with the rounds to come from the offset of the next token on.
abbrev pub run_behind :
    AttributeGroup
    → List Token
    → (ℕ → Outcome (List AttributeGroup))
    → Outcome (List AttributeGroup)
run_behind group [] loop = ok (group ∷ [])
run_behind group (next ∷ _) loop = bind (loop next.begin) λ run. ok (group ∷ run)

abbrev pub run_from :
    List Token
    → Option AttributeGroup
    → ℕ
    → (ℕ → Outcome (List AttributeGroup))
    → Outcome (List AttributeGroup)
run_from tokens none offset loop = ok []
run_from tokens (some group) offset loop =
    if not (group.begin == offset)
    then ok []
    else run_behind group (first_token_from tokens group.end) loop

-- `groups_run_at`. Each round costs a unit of fuel.
unfoldable pub groups_run_at :
    ℕ → List Token → List AttributeGroup → ℕ → Outcome (List AttributeGroup)
groups_run_at zero tokens groups offset = out_of_fuel
groups_run_at (suc fuel) tokens groups offset =
    run_from tokens (first_group_from groups offset) offset (groups_run_at fuel tokens groups)

abbrev is_comment : TokenKind → Bool
is_comment TokenKind.comment = true
is_comment _ = false

-- `while (at != tokens.begin() && (at - 1)->kind == token_kind::comment) --at;`
abbrev skip_comments : List Token → List Token
skip_comments [] = []
skip_comments (item ∷ before) =
    let more = skip_comments before in if is_comment item.kind then more else item ∷ before

-- `std::find_if` on the offset where a group ends.
abbrev group_ending : List AttributeGroup → ℕ → Option AttributeGroup
group_ending [] offset = none
group_ending (group ∷ groups) offset =
    if group.end == offset then some group else group_ending groups offset

abbrev run_before :
    List Token
    → List AttributeGroup
    → List AttributeGroup
    → (List AttributeGroup → List Token → Outcome (List AttributeGroup))
    → List Token
    → Outcome (List AttributeGroup)
run_before tokens groups run loop [] = ok run
run_before tokens groups run loop (previous ∷ _) = elim (group_ending groups previous.end) [
  | none ↦ ok run
  | some group ↦ loop (group ∷ run) (tokens_around [] tokens group.begin).0
]

-- The loop of `groups_run_before`, on the run so far and the tokens before `at`.
unfoldable pub run_before_loop :
    ℕ
    → List Token
    → List AttributeGroup
    → List AttributeGroup
    → List Token
    → Outcome (List AttributeGroup)
run_before_loop zero tokens groups run before = out_of_fuel
run_before_loop (suc fuel) tokens groups run before =
    run_before tokens groups run (run_before_loop fuel tokens groups) (skip_comments before)

abbrev starts_at : List Token → ℕ → Bool
starts_at [] offset = false
starts_at (item ∷ _) offset = item.begin == offset

unfoldable pub groups_run_before :
    ℕ → List Token → List AttributeGroup → ℕ → Outcome (List AttributeGroup)
groups_run_before fuel tokens groups offset =
    let (before, at) = tokens_around [] tokens offset in
    if not (starts_at at offset) then ok [] else run_before_loop fuel tokens groups [] before

unfoldable pub groups_between : List AttributeGroup → ℕ → ℕ → List AttributeGroup
groups_between [] begin end = []
groups_between (group ∷ groups) begin end =
    if leb begin group.begin && leb group.end end
    then group ∷ groups_between groups begin end
    else groups_between groups begin end

abbrev is_access : List ℕ → Bool
is_access spelling =
    bytes_eq spelling (codes "::")
    || bytes_eq spelling (codes ".")
    || bytes_eq spelling (codes "->")
    || bytes_eq spelling (codes ".*")
    || bytes_eq spelling (codes "->*")

-- `none` is the null pointer.
abbrev pub follows_member_access : Option Token → Bool
follows_member_access none = false
follows_member_access (some previous) = is_punctuation previous.kind && is_access previous.spelling

abbrev is_identifier_kind : TokenKind → Bool
is_identifier_kind TokenKind.identifier = true
is_identifier_kind _ = false

abbrev gap_before : Option Token → Token → List ℕ
gap_before none item = []
gap_before (some previous) item = if ltb previous.end item.begin then codes " " else []

-- The loop of `argument_text`, with `qualifier_of`.
unfoldable pub argument_text_from : (List ℕ → List ℕ) → ℕ → Option Token → List Token → List ℕ
argument_text_from qualifier_of end previous [] = []
argument_text_from qualifier_of end previous (item ∷ later) =
    let text =
      gap_before previous item
      ++ ((if is_identifier_kind item.kind && not (follows_member_access previous)
            then qualifier_of item.spelling
            else [])
          ++ (item.spelling ++ argument_text_from qualifier_of end (some item) later)) in
    let skipped = argument_text_from qualifier_of end previous later in
    if not (leb item.end end) then [] else if is_comment item.kind then skipped else text

unfoldable pub argument_text : List Token → ℕ → ℕ → (List ℕ → List ℕ) → List ℕ
argument_text tokens begin end qualifier_of =
    argument_text_from qualifier_of end none (first_token_from tokens begin)

abbrev contains_name : List ℕ → List (List ℕ) → Bool
contains_name name [] = false
contains_name name (other ∷ names) = bytes_eq other name || contains_name name names

abbrev is_empty_text : List ℕ → Bool
is_empty_text [] = true
is_empty_text (_ ∷ _) = false

-- The body of the loop of `external_identifiers`, on the names so far.
unfoldable pub with_identifier :
    (List ℕ → List ℕ) → List (List ℕ) → Option Token → Token → List (List ℕ)
with_identifier qualifier_of names previous item =
    if (is_identifier_kind item.kind && not (follows_member_access previous))
      && (not (bytes_eq item.spelling (codes "reflgen"))
          && (not (bytes_eq item.spelling (codes "std"))
              && (is_empty_text (qualifier_of item.spelling)
                  && not (contains_name item.spelling names))))
    then names ++ item.spelling ∷ []
    else names

unfoldable pub external_identifiers_from :
    (List ℕ → List ℕ) → ℕ → List (List ℕ) → Option Token → List Token → List (List ℕ)
external_identifiers_from qualifier_of end names previous [] = names
external_identifiers_from qualifier_of end names previous (item ∷ later) =
    let skipped = external_identifiers_from qualifier_of end names previous later in
    let next =
      external_identifiers_from qualifier_of end (with_identifier qualifier_of names previous item)
        (some item) later in
    if not (leb item.end end) then names else if is_comment item.kind then skipped else next

unfoldable pub external_identifiers : List Token → ℕ → ℕ → (List ℕ → List ℕ) → List (List ℕ)
external_identifiers tokens begin end qualifier_of =
    external_identifiers_from qualifier_of end [] none (first_token_from tokens begin)
