-- ===== src/Generator/AttributeScan/Pieces.antt =====
-- Sources with attribute lists, and the groups that generator/src/attribute_scan.cpp is to find in them.
use reflgen_cpp.Common.{
  ◌⊎◌, ℕ, suc, ◌+◌, ◌*◌, ◌≤◌, ◌<◌, ◌≡◌, false, List, [], ◌∷◌, length, length-append, All, arith,
}
use reflgen_cpp.Json.Base64.{codes}
use reflgen_cpp.Generator.AttributeScan.{is_name, Token, AttributeGroup, is}
use reflgen_cpp.Generator.AttributeScan.Syntax.{
  symbol, word, Scope, no_scope, scope, Arguments, no_arguments, arguments, Comma, no_comma, comma,
  Attribute, scope_tokens, argument_tokens, comma_tokens, attribute_tokens, list_tokens, end_tokens,
  AreArguments, scanned_list,
}
use reflgen_cpp.Generator.AttributeScan.Groups.{
  Prefix, no_prefix, using_name, prefix_tokens, prefix_scope, IsPrefixed,
}

-- Where a bracket stands in the source.
pub record Span : Type 0 where
  pub begin : ℕ
  pub end : ℕ

-- A list of attributes between its brackets.
pub record Group : Type 0 where
  pub first : Span
  pub second : Span
  pub prefix : Prefix
  pub attributes : List Attribute
  pub third : Span
  pub last : Span

-- What a source consists of: tokens that open no list, a token in front of one that is not `[`, two tokens
-- with what no list of attributes begins with behind them, and lists of attributes.
pub data Piece : Type 0 where
  plain_token : Token → Piece
  bracket : Token → Token → Piece
  broken : Token → Token → Token → Token → Piece
  group : Group → Piece

abbrev pub closing_tokens : Group → List Token → List Token
closing_tokens g = end_tokens g.third.begin g.third.end g.last.begin g.last.end

abbrev pub inner_tokens : Group → List Token → List Token
inner_tokens g later = prefix_tokens g.prefix (list_tokens g.attributes (closing_tokens g later))

abbrev pub piece_tokens : Piece → List Token → List Token
piece_tokens (plain_token item) later = item ∷ later
piece_tokens (bracket item next) later = item ∷ next ∷ later
piece_tokens (broken first second third fourth) later = first ∷ second ∷ third ∷ fourth ∷ later
piece_tokens (group g) later =
    symbol (codes "[") g.first.begin g.first.end
    ∷ symbol (codes "[") g.second.begin g.second.end
    ∷ inner_tokens g later

-- The tokens of a source, with any tokens behind it.
abbrev pub source_tokens : List Piece → List Token → List Token
source_tokens [] rest = rest
source_tokens (p ∷ pieces) rest = piece_tokens p (source_tokens pieces rest)

-- A list as it is scanned.
abbrev pub group_of : Group → AttributeGroup
group_of g = record {
  begin = g.first.begin;
  end = g.last.end;
  attributes = scanned_list (prefix_scope g.prefix) g.attributes;
}

-- The groups of a source, with more behind them.
abbrev pub source_groups : List Piece → List AttributeGroup → List AttributeGroup
source_groups [] more = more
source_groups (plain_token item ∷ pieces) more = source_groups pieces more
source_groups (bracket item next ∷ pieces) more = source_groups pieces more
source_groups (broken first second third fourth ∷ pieces) more = source_groups pieces more
source_groups (group g ∷ pieces) more = group_of g ∷ source_groups pieces more

-- Commas between the attributes of a list.
abbrev IsComma : Comma → Type 0
IsComma no_comma = ⊥
IsComma (comma b e) = Unit {0}

abbrev pub AreSeparated : List Attribute → Type 0
AreSeparated [] = Unit {0}
AreSeparated (a ∷ []) = Unit {0}
AreSeparated (a ∷ b ∷ as') = IsComma a.comma' × AreSeparated (b ∷ as')

-- A list in the grammar of C++: matching brackets in the arguments, commas between the attributes, and no
-- attribute that makes the list begin like one with `using`.
pub record IsGroup (g : Group) : Type 0 where
  pub arguments_match : All (λ a. AreArguments a.arguments') g.attributes
  pub separated : AreSeparated g.attributes
  pub prefixed :
      (later : List Token) → IsPrefixed g.prefix (list_tokens g.attributes (closing_tokens g later))

-- What no list of attributes begins with.
pub record IsBroken (third fourth : Token) : Type 0 where
  pub no_name : is_name third ≡ false
  pub no_comma : is third (codes ",") ≡ false
  pub not_opened : is third (codes "[") ≡ false
  pub not_opened_next : is fourth (codes "[") ≡ false
  pub not_closed : (is third (codes "]") ≡ false) ⊎ (is fourth (codes "]") ≡ false)

abbrev pub IsPiece : Piece → Type 0
IsPiece (plain_token item) = is item (codes "[") ≡ false
IsPiece (bracket item next) = is next (codes "[") ≡ false
IsPiece (broken first second third fourth) = IsBroken third fourth
IsPiece (group g) = IsGroup g

scope_tokens-le : (x : Scope) (later : List Token) → length later ≤ length (scope_tokens x later)
scope_tokens-le no_scope later = omega arith
scope_tokens-le (scope w b e) later = omega arith

argument_tokens-le :
    (x : Arguments) (later : List Token) → length later ≤ length (argument_tokens x later)
argument_tokens-le no_arguments later = omega arith
argument_tokens-le (arguments b e inner b' e') later =
    omega (arith, length-append inner (symbol (codes ")") b' e' ∷ later))

comma_tokens-le : (x : Comma) (later : List Token) → length later ≤ length (comma_tokens x later)
comma_tokens-le no_comma later = omega arith
comma_tokens-le (comma b e) later = omega arith

attribute_tokens-le :
    (a : Attribute) (later : List Token)
    → suc (length (comma_tokens a.comma' later)) ≤ length (attribute_tokens a later)
attribute_tokens-le a later = omega (
  arith,
  scope_tokens-le a.namespace'
      (word a.name ∷ argument_tokens a.arguments' (comma_tokens a.comma' later)),
  argument_tokens-le a.arguments' (comma_tokens a.comma' later),
)

comma_tokens-less :
    (x : Comma) (later : List Token)
    → IsComma x
    → suc (length later) ≤ length (comma_tokens x later)
comma_tokens-less no_comma later h = absurd h
comma_tokens-less (comma b e) later h = omega arith

-- A round for each attribute and each comma.
list_tokens-le :
    (as' : List Attribute) (later : List Token)
    → AreSeparated as'
    → 2 * length as' + length later ≤ suc (length (list_tokens as' later))
list_tokens-le [] later h = omega arith
list_tokens-le (a ∷ []) later h =
    omega (arith, attribute_tokens-le a later, comma_tokens-le a.comma' later)
list_tokens-le (a ∷ b ∷ as') later (h, hs) = omega (
  arith,
  attribute_tokens-le a (list_tokens (b ∷ as') later),
  comma_tokens-less a.comma' (list_tokens (b ∷ as') later) h,
  list_tokens-le (b ∷ as') later hs,
)

prefix_tokens-le : (u : Prefix) (later : List Token) → length later ≤ length (prefix_tokens u later)
prefix_tokens-le no_prefix later = omega arith
prefix_tokens-le (using_name b e name c c') later = omega arith

pub inner_tokens-le :
    (g : Group) (later : List Token)
    → IsGroup g
    → 2 * length g.attributes + length later < length (inner_tokens g later)
inner_tokens-le g later h = omega (
  arith,
  prefix_tokens-le g.prefix (list_tokens g.attributes (closing_tokens g later)),
  list_tokens-le g.attributes (closing_tokens g later) h.separated,
)
