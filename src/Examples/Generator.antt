-- ===== src/Examples/Generator.antt =====
-- The theorems on generator/src at concrete inputs.
use reflgen_cpp.Common.{
  inr, ◌+◌, ℕ, ◌≡◌, ◌↔◌, refl, Bool, true, false, List, [], ◌∷◌, ◌++◌, none, some, length, arith,
  All,
}
use reflgen_cpp.Common.Outcome.{ok}
use reflgen_cpp.Json.Base64.{codes}
use reflgen_cpp.Generator.AttributeScan.{
  TokenKind, Token, AttributeGroup, matching_parenthesis, parse_group, scan_attribute_groups,
}
use reflgen_cpp.Generator.AttributeScan.Parentheses.{
  Balanced, empty, plain, nested, matching_parenthesis_lem,
}
use reflgen_cpp.Generator.AttributeScan.Syntax.{
  symbol, Word, word, no_scope, scope, no_arguments, arguments, no_comma, comma, Attribute,
  list_tokens, end_tokens, scanned_list,
}
use reflgen_cpp.Generator.AttributeScan.Groups.{using_name, prefix_tokens, parse_group-list_tokens}
use reflgen_cpp.Generator.AttributeScan.Places.{Placed}
use reflgen_cpp.Generator.AttributeScan.Pieces.{
  Group, Piece, plain_token, broken, bracket, group, source_tokens, source_groups, IsPiece,
}
use reflgen_cpp.Generator.AttributeScan.Scans.{scan_attribute_groups-source_tokens}
use reflgen_cpp.Generator.AttributeScan.Declarations.{groups_run_at}
use reflgen_cpp.Generator.AttributeScan.Declarations.Order.{AnswersRun, groups_run_at_lem}
use reflgen_cpp.Generator.AttributeScan.Text.{contains_word, declares_attribute}
use reflgen_cpp.Generator.AttributeScan.Text.Words.{Occurs, contains_word_iff}
use reflgen_cpp.Generator.AttributeScan.Text.Lists.{Declares, declares_attribute_iff}

-- `(1, [x])`, with two of its tokens left out.
abbrev open_token : Token
open_token = symbol (codes "(") 20 21

abbrev close_token : Token
close_token = symbol (codes ")") 25 26

abbrev one_token : Token
one_token = record { kind = TokenKind.literal; spelling = codes "1"; begin = 21; end = 22 }

abbrev inner : List Token
inner = one_token ∷ symbol (codes "[") 22 23 ∷ symbol (codes "]") 23 24 ∷ []

inner-Balanced : Balanced inner
unfolding reflgen_cpp.Generator.AttributeScan.is
inner-Balanced = plain one_token _ refl refl (
    nested (symbol (codes "[") 22 23) [] (symbol (codes "]") 23 24) [] b']' refl refl refl empty
      empty)

opens : reflgen_cpp.Generator.AttributeScan.closer open_token ≡ some b')'
unfolding reflgen_cpp.Generator.AttributeScan.is
opens = refl

opens_none : reflgen_cpp.Generator.AttributeScan.closer close_token ≡ none
unfolding reflgen_cpp.Generator.AttributeScan.is
opens_none = refl

closes : reflgen_cpp.Generator.AttributeScan.closing close_token ≡ some b')'
unfolding reflgen_cpp.Generator.AttributeScan.is
closes = refl

matching_parenthesis_lem_example :
    matching_parenthesis [] (open_token ∷ (inner ++ close_token ∷ one_token ∷ []))
    ≡ some (close_token, one_token ∷ [])
matching_parenthesis_lem_example =
    matching_parenthesis_lem open_token close_token inner (one_token ∷ []) b')' opens opens_none
      closes inner-Balanced

abbrev name_at : List ℕ → ℕ → ℕ → Word
name_at spelling begin end = record {
  keyword = false;
  spelling = spelling;
  begin = begin;
  end = end;
}

-- `[[using mygame: range(1, [x]), reflgen::transient]]`
abbrev attributes : List Attribute
attributes =
    record {
      namespace' = no_scope;
      name = name_at (codes "range") 15 20;
      arguments' = arguments 20 21 inner 25 26;
      comma' = comma 26 27;
    }
    ∷ record {
      namespace' = scope (name_at (codes "reflgen") 28 35) 35 37;
      name = name_at (codes "transient") 37 46;
      arguments' = no_arguments;
      comma' = no_comma;
    }
    ∷ []

parse_group-list_tokens_example :
    parse_group 5 0 (
      prefix_tokens
        (using_name 2 7 (name_at (codes "mygame") 8 14) 14 15)
        (list_tokens attributes (end_tokens 46 47 47 48 (one_token ∷ []))))
    ≡ ok (
        some (
          record { begin = 0; end = 48; attributes = scanned_list (codes "mygame") attributes },
          one_token ∷ [],
        ))
parse_group-list_tokens_example =
    parse_group-list_tokens (using_name 2 7 (name_at (codes "mygame") 8 14) 14 15) attributes 5 0 46
      47 47 48 (one_token ∷ []) (inner-Balanced, (tt, tt)) tt (ground arith)

-- `[[x`, which is no group.
abbrev unfinished : List Token
unfinished = symbol (codes "[") 0 1 ∷ symbol (codes "[") 1 2 ∷ word (name_at (codes "x") 2 3) ∷ []

-- The attributes above between their brackets.
abbrev list : Group
list = record {
  first = record { begin = 0; end = 1 };
  second = record { begin = 1; end = 2 };
  prefix = using_name 2 7 (name_at (codes "mygame") 8 14) 14 15;
  attributes = attributes;
  third = record { begin = 46; end = 47 };
  last = record { begin = 47; end = 48 };
}

-- `x[1`, `[[]{`, and the list.
abbrev pieces : List Piece
pieces =
    plain_token (word (name_at (codes "x") 0 1))
    ∷ bracket (symbol (codes "[") 20 21) one_token
    ∷ broken (symbol (codes "[") 30 31) (symbol (codes "[") 31 32) (symbol (codes "]") 32 33)
        (symbol (codes "{") 33 34)
    ∷ group list
    ∷ []

pieces-All : All IsPiece pieces
unfolding reflgen_cpp.Generator.AttributeScan.is reflgen_cpp.Generator.AttributeScan.is_name
pieces-All = (
  refl,
  (
    refl,
    (
      record {
        no_name = refl;
        no_comma = refl;
        not_opened = refl;
        not_opened_next = refl;
        not_closed = inr refl;
      },
      (
        record {
          arguments_match = (inner-Balanced, (tt, tt));
          separated = (tt, tt);
          prefixed = λ later. tt;
        },
        tt,
      ),
    ),
  ),
)

scan_attribute_groups-source_tokens_example :
    (more : List AttributeGroup) × (scan_attribute_groups (source_tokens pieces unfinished)
      ≡ ok (source_groups pieces more))
    × Placed unfinished more
scan_attribute_groups-source_tokens_example =
    scan_attribute_groups-source_tokens pieces unfinished pieces-All

contains_word_iff_example :
    (contains_word (codes "reflected, reflect") (codes "reflect") ≡ true)
    ↔ Occurs none (codes "reflect") (codes "reflected, reflect")
contains_word_iff_example = contains_word_iff (codes "reflected, reflect") (codes "reflect")

declares_attribute_iff_example :
    (b : Bool) × (declares_attribute (codes "x[[0] [[ reflgen :: reflect ]]") (codes "reflect")
      ≡ ok b)
    × ((b ≡ true) ↔ Declares (codes "reflect") (codes "x[[0] [[ reflgen :: reflect ]]"))
declares_attribute_iff_example =
    declares_attribute_iff (codes "x[[0] [[ reflgen :: reflect ]]") (codes "reflect")

-- Two groups with a comment's width between them, and a name behind them.
abbrev group_at : ℕ → ℕ → AttributeGroup
group_at begin end = record { begin = begin; end = end; attributes = [] }

abbrev groups : List AttributeGroup
groups = group_at 0 10 ∷ group_at 20 30 ∷ []

abbrev around : List Token
around = symbol (codes "[") 0 1 ∷ symbol (codes "[") 20 21 ∷ word (name_at (codes "x") 31 32) ∷ []

groups_run_at_lem_example :
    AnswersRun around groups 0 (groups_run_at (length groups + 1) around groups 0)
groups_run_at_lem_example =
    groups_run_at_lem around groups 0
      ((ground arith, (ground arith, tt)), ((ground arith, tt), (tt, tt)))
      ((ground arith, tt), (tt, tt)) (ground arith, (ground arith, tt))
