-- ===== src/Generator/AttributeScan.antt =====
-- generator/src/attribute_scan.cpp and attribute_scan.h. A position in `tokens` is the list of the tokens
-- from it on.
pub mod Parentheses
pub mod Syntax
pub mod Groups
pub mod Termination
pub mod Places
pub mod Pieces
pub mod Scans
pub mod Text
pub mod Declarations
use reflgen_cpp.Common.{
  ℕ, zero, suc, Bool, true, false, not, ◌&&◌, ◌||◌, List, [], ◌∷◌, ◌++◌, ◌==◌, ltb, leb,
  if◌then◌else◌, Option, none, some, length, bytes_eq,
}
use reflgen_cpp.Common.Outcome.{Outcome, ok, out_of_fuel, bind}
use reflgen_cpp.Json.Base64.{codes}

pub data TokenKind : Type 0 where
  punctuation keyword identifier literal comment : TokenKind

pub record Token : Type 0 where
  pub kind : TokenKind
  pub spelling : List ℕ
  pub begin : ℕ
  pub end : ℕ

pub record ScannedAttribute : Type 0 where
  pub scope : List ℕ
  pub name : List ℕ
  pub has_arguments : Bool
  pub arguments_begin : ℕ
  pub arguments_end : ℕ
  pub begin : ℕ

pub record AttributeGroup : Type 0 where
  pub begin : ℕ
  pub end : ℕ
  pub attributes : List ScannedAttribute

abbrev pub is_punctuation : TokenKind → Bool
is_punctuation TokenKind.punctuation = true
is_punctuation _ = false

abbrev pub is_keyword : TokenKind → Bool
is_keyword TokenKind.keyword = true
is_keyword _ = false

unfoldable pub is : Token → List ℕ → Bool
is item spelling = is_punctuation item.kind && bytes_eq item.spelling spelling

abbrev pub named_kind : TokenKind → Bool
named_kind TokenKind.identifier = true
named_kind TokenKind.keyword = true
named_kind _ = false

unfoldable pub is_name : Token → Bool
is_name item = named_kind item.kind

-- The bracket that closes what a token opens, and the bracket that a token closes with.
abbrev pub closer : Token → Option ℕ
closer item =
    if is item (codes "(")
    then some b')'
    else if is item (codes "[")
    then some b']'
    else if is item (codes "{")
    then some b'}'
    else none

abbrev pub closing : Token → Option ℕ
closing item =
    if is item (codes ")")
    then some b')'
    else if is item (codes "]")
    then some b']'
    else if is item (codes "}")
    then some b'}'
    else none

-- The two branches of the loop of `matching_parenthesis`, with the rest of it: `expected` is a stack, its
-- top first.
abbrev pub close_bracket :
    Option ℕ
    → List ℕ
    → Token
    → List Token
    → (List ℕ → Option (Token × List Token))
    → Option (Token × List Token)
close_bracket none expected item later loop = loop expected
close_bracket (some c) [] item later loop = none
close_bracket (some c) (e ∷ []) item later loop = if e == c then some (item, later) else none
close_bracket (some c) (e ∷ outer) item later loop = if e == c then loop outer else none

abbrev pub open_bracket :
    Option ℕ
    → List ℕ
    → (List ℕ → Option (Token × List Token))
    → Option (Token × List Token)
    → Option (Token × List Token)
open_bracket (some c) expected loop other = loop (c ∷ expected)
open_bracket none expected loop other = other

-- `matching_parenthesis` from a position on, under the brackets that are open. The answer is the token
-- that closes the outermost one, with the tokens behind it.
unfoldable pub matching_parenthesis : List ℕ → List Token → Option (Token × List Token)
matching_parenthesis expected [] = none
matching_parenthesis expected (item ∷ later) =
    open_bracket (closer item) expected (λ stack. matching_parenthesis stack later)
      (close_bracket (closing item) expected item later (λ stack. matching_parenthesis stack later))

-- `attribute.scope` and `attribute.name`, and the tokens behind them.
abbrev pub scoped : List ℕ → Token → List Token → ScannedAttribute × List Token
scoped default_scope item (colons ∷ name ∷ later) =
    if is colons (codes "::") && is_name name
    then (
      record {
        scope = item.spelling;
        name = name.spelling;
        has_arguments = false;
        arguments_begin = 0;
        arguments_end = 0;
        begin = item.begin;
      },
      later,
    )
    else (
      record {
        scope = default_scope;
        name = item.spelling;
        has_arguments = false;
        arguments_begin = 0;
        arguments_end = 0;
        begin = item.begin;
      },
      colons ∷ name ∷ later,
    )
scoped default_scope item later = (
  record {
    scope = default_scope;
    name = item.spelling;
    has_arguments = false;
    arguments_begin = 0;
    arguments_end = 0;
    begin = item.begin;
  },
  later,
)

-- The arguments, if there are any: `none` where the parenthesis is not closed.
abbrev closed :
    Token → ScannedAttribute → Option (Token × List Token) → Option (ScannedAttribute × List Token)
closed opening attribute none = none
closed opening attribute (some (close, later)) = some (
  record attribute {
    has_arguments = true;
    arguments_begin = opening.end;
    arguments_end = close.begin;
  },
  later,
)

unfoldable pub parse_arguments :
    ScannedAttribute × List Token → Option (ScannedAttribute × List Token)
parse_arguments (attribute, []) = some (attribute, [])
parse_arguments (attribute, item ∷ later) =
    if is item (codes "(")
    then closed item attribute (matching_parenthesis [] (item ∷ later))
    else some (attribute, item ∷ later)

abbrev pub ends_group : List Token → Option (Token × List Token)
ends_group (first ∷ second ∷ later) =
    if is first (codes "]") && is second (codes "]") then some (second, later) else none
ends_group _ = none

-- What a round of the loop of `parse_group` goes on with.
abbrev pub attribute_behind :
    List ScannedAttribute
    → Option (ScannedAttribute × List Token)
    → (List ScannedAttribute → List Token → Outcome (Option (AttributeGroup × List Token)))
    → Outcome (Option (AttributeGroup × List Token))
attribute_behind attributes none loop = ok none
attribute_behind attributes (some (attribute, later)) loop =
    loop (attributes ++ attribute ∷ []) later

abbrev pub group_ended :
    ℕ
    → List ScannedAttribute
    → Option (Token × List Token)
    → Outcome (Option (AttributeGroup × List Token))
    → Outcome (Option (AttributeGroup × List Token))
group_ended start attributes (some (last, later)) other =
    ok (some (record { begin = start; end = last.end; attributes = attributes }, later))
group_ended start attributes none other = other

-- The loop of `parse_group`. Each round costs a unit of fuel.
unfoldable pub parse_attributes :
    ℕ
    → List ℕ
    → ℕ
    → List ScannedAttribute
    → List Token
    → Outcome (Option (AttributeGroup × List Token))
parse_attributes zero default_scope start attributes tokens = out_of_fuel
parse_attributes (suc fuel) default_scope start attributes [] = ok none
parse_attributes (suc fuel) default_scope start attributes (item ∷ later) =
    let more = parse_attributes fuel default_scope start attributes later in
    group_ended start attributes (ends_group (item ∷ later)) (
      if is item (codes ",")
      then more
      else if not (is_name item)
      then ok none
      else attribute_behind attributes (parse_arguments (scoped default_scope item later))
          (parse_attributes fuel default_scope start))

-- `[[using name:`, and the tokens behind it.
abbrev pub default_scope_of : List Token → List ℕ × List Token
default_scope_of (using' ∷ name ∷ colon ∷ later) =
    if is_keyword using'.kind
      && bytes_eq using'.spelling (codes "using")
      && is_name name
      && is colon (codes ":")
    then (name.spelling, later)
    else ([], using' ∷ name ∷ colon ∷ later)
default_scope_of tokens = ([], tokens)

-- `parse_group`, of the tokens behind its two brackets, which begin at an offset.
unfoldable pub parse_group : ℕ → ℕ → List Token → Outcome (Option (AttributeGroup × List Token))
parse_group fuel start tokens =
    let (scope, later) = default_scope_of tokens in parse_attributes fuel scope start [] later

abbrev pub group_found :
    Outcome (List AttributeGroup)
    → (List Token → Outcome (List AttributeGroup))
    → Option (AttributeGroup × List Token)
    → Outcome (List AttributeGroup)
group_found other loop none = other
group_found other loop (some (group, later)) = bind (loop later) λ more. ok (group ∷ more)

-- `scan_attribute_groups`. Each round costs a unit of fuel.
unfoldable pub scan_groups : ℕ → List Token → Outcome (List AttributeGroup)
scan_groups fuel [] = ok []
scan_groups fuel (item ∷ []) = ok []
scan_groups zero (first ∷ second ∷ later) = out_of_fuel
scan_groups (suc fuel) (first ∷ second ∷ later) =
    let next = scan_groups fuel (second ∷ later) in
    if is first (codes "[") && is second (codes "[")
    then bind (parse_group (suc (length later)) first.begin later)
        (group_found next (scan_groups fuel))
    else next

unfoldable pub scan_attribute_groups : List Token → Outcome (List AttributeGroup)
scan_attribute_groups tokens = scan_groups (length tokens) tokens
