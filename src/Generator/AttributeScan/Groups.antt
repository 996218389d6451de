-- ===== src/Generator/AttributeScan/Groups.antt =====
-- `parse_group` of generator/src/attribute_scan.cpp on the attribute lists of C++.
use reflgen_cpp.Common.{
  ℕ, zero, suc, ◌*◌, ◌<◌, ◌≡◌, refl, ◌∙◌, Bool, true, false, ◌&&◌, List, [], ◌∷◌, ◌++◌,
  append_assoc, append-nil, Option, none, some, length, All, arith, bytes_eq,
}
use reflgen_cpp.Common.Outcome.{Outcome, ok}
use reflgen_cpp.Json.Base64.{codes}
use reflgen_cpp.Generator.AttributeScan.{
  TokenKind, Token, ScannedAttribute, AttributeGroup, is, is_name, is_keyword, is_punctuation,
  named_kind, scoped, parse_arguments, ends_group, parse_attributes, default_scope_of, parse_group,
}
use reflgen_cpp.Generator.AttributeScan.Parentheses.{matching_parenthesis_lem}
use reflgen_cpp.Generator.AttributeScan.Syntax.{
  symbol, word_kind, Word, word, Scope, no_scope, scope, Arguments, no_arguments, arguments, Comma,
  no_comma, comma, Attribute, scope_tokens, argument_tokens, comma_tokens, list_tokens, end_tokens,
  AreArguments, scope_of, begin_of, with_arguments, scanned, scanned_list,
}

word-is : (w : Word) (s : List ℕ) → is (word w) s ≡ false
unfolding is
word-is w s = kinds w.keyword
  where
    kinds : (b : Bool) → (is_punctuation (word_kind b) && bytes_eq w.spelling s) ≡ false
    kinds true = refl
    kinds false = refl

word-is_name : (w : Word) → is_name (word w) ≡ true
unfolding is_name
word-is_name w = kinds w.keyword
  where
    kinds : (b : Bool) → named_kind (word_kind b) ≡ true
    kinds true = refl
    kinds false = refl

-- What can follow a name: neither `::` nor a parenthesis.
abbrev Follows : List ℕ → List Token → Type 0
Follows s [] = Unit {0}
Follows s (item ∷ later) = is item s ≡ false

scoped-plain :
    (d : List ℕ) (w : Word) (later : List Token)
    → Follows (codes "::") later
    → scoped d (word w) later ≡ (
      record {
        scope = d;
        name = w.spelling;
        has_arguments = false;
        arguments_begin = 0;
        arguments_end = 0;
        begin = w.begin;
      },
      later,
    )
scoped-plain d w [] h = refl
scoped-plain d w (a ∷ []) h = refl
scoped-plain d w (a ∷ b ∷ later) h = rw h

parse_arguments-none :
    (attribute : ScannedAttribute) (later : List Token)
    → Follows (codes "(") later
    → parse_arguments (attribute, later) ≡ some (attribute, later)
unfolding parse_arguments
parse_arguments-none attribute [] h = refl
parse_arguments-none attribute (a ∷ later) h = rw h

module _ (b e b' e' : ℕ) (later : List Token) where
  -- The rest of a list, behind an attribute.
  abbrev rest_of : List Attribute → List Token
  rest_of as' = list_tokens as' (end_tokens b e b' e' later)

  rest-Follows :
      (as' : List Attribute) (s : List ℕ) → bytes_eq (codes "]") s ≡ false → Follows s (rest_of as')
  unfolding is
  rest-Follows [] s h = h
  rest-Follows (a ∷ as') s h = scope_lem a.namespace'
    where
      scope_lem :
          (x : Scope)
          → Follows s (
              scope_tokens x
                (word a.name ∷ argument_tokens a.arguments' (comma_tokens a.comma' (rest_of as'))))
      scope_lem no_scope = word-is a.name s
      scope_lem (scope w c c') = word-is w s

  comma-Follows :
      (x : Comma) (as' : List Attribute) (s : List ℕ)
      → bytes_eq (codes "]") s ≡ false
      → bytes_eq (codes ",") s ≡ false
      → Follows s (comma_tokens x (rest_of as'))
  unfolding is
  comma-Follows no_comma as' s h k = rest-Follows as' s h
  comma-Follows (comma c c') as' s h k = k

  argument-Follows :
      (x : Arguments) (c : Comma) (as' : List Attribute)
      → Follows (codes "::") (argument_tokens x (comma_tokens c (rest_of as')))
  unfolding is
  argument-Follows no_arguments c as' = comma-Follows c as' (codes "::") refl refl
  argument-Follows (arguments _ _ inner _ _) c as' = refl

  -- The name of an attribute, with its scope.
  scoped_lem :
      (d : List ℕ) (x : Scope) (w : Word) (tokens : List Token)
      → Follows (codes "::") tokens
      → (item : Token) × (more : List Token) × (scope_tokens x (word w ∷ tokens) ≡ item ∷ more)
        × (is_name item ≡ true)
        × ((s : List ℕ) → is item s ≡ false)
        × (scoped d item more ≡ (
          record {
            scope = scope_of d x;
            name = w.spelling;
            has_arguments = false;
            arguments_begin = 0;
            arguments_end = 0;
            begin = begin_of x w;
          },
          tokens,
        ))
  unfolding is
  scoped_lem d no_scope w tokens h =
      (word w, tokens, refl, word-is_name w, word-is w, scoped-plain d w tokens h)
  scoped_lem d (scope v c c') w tokens h = (
    word v,
    symbol (codes "::") c c' ∷ word w ∷ tokens,
    refl,
    word-is_name v,
    word-is v,
    rw (word-is_name w),
  )

  arguments_lem :
      (x : Arguments) (c : Comma) (as' : List Attribute) (attribute : ScannedAttribute)
      → AreArguments x
      → parse_arguments (attribute, argument_tokens x (comma_tokens c (rest_of as')))
        ≡ some (with_arguments x attribute, comma_tokens c (rest_of as'))
  arguments_lem no_arguments c as' attribute h =
      parse_arguments-none attribute _ (comma-Follows c as' (codes "(") refl refl)
  arguments_lem (arguments o o' inner k k') c as' attribute h =
      unfold parse_arguments is in
      rw (
        matching_parenthesis_lem (symbol (codes "(") o o') (symbol (codes ")") k k') inner
          (comma_tokens c (rest_of as')) b')' refl refl refl h)

  ends_group-other :
      (item : Token) (more : List Token)
      → is item (codes "]") ≡ false
      → ends_group (item ∷ more) ≡ none
  ends_group-other item [] h = refl
  ends_group-other item (x ∷ more) h = rw h

  -- The round of the comma behind an attribute, if there is one.
  comma_round :
      (fuel : ℕ) (d : List ℕ) (start : ℕ) (found : List ScannedAttribute) (c : Comma)
      (as' : List Attribute) (r : Outcome (Option (AttributeGroup × List Token)))
      → parse_attributes fuel d start found (rest_of as') ≡ r
      → parse_attributes (suc fuel) d start found (rest_of as') ≡ r
      → parse_attributes (suc fuel) d start found (comma_tokens c (rest_of as')) ≡ r
  unfolding parse_attributes is
  comma_round fuel d start found no_comma as' r h k = k
  comma_round fuel d start found (comma x y) as' r h k =
      rw (ends_group-other (symbol (codes ",") x y) (rest_of as') refl) h

  -- The round of an attribute.
  attribute_round :
      (fuel : ℕ) (d : List ℕ) (start : ℕ) (found : List ScannedAttribute) (a : Attribute)
      (as' : List Attribute)
      → AreArguments a.arguments'
      → parse_attributes (suc fuel) d start found (rest_of (a ∷ as'))
        ≡ parse_attributes fuel d start
            (found ++ scanned d a ∷ [])
            (comma_tokens a.comma' (rest_of as'))
  unfolding parse_attributes
  attribute_round fuel d start found a as' h =
      let (item, more, shape, name, other, run) =
        scoped_lem d a.namespace' a.name
          (argument_tokens a.arguments' (comma_tokens a.comma' (rest_of as')))
          (argument-Follows a.arguments' a.comma' as') in
      rw (
        shape,
        ends_group-other item more (other (codes "]")),
        other (codes ","),
        name,
        run,
        arguments_lem a.arguments' a.comma' as' _ h,
      )

  parse_list :
      (as' : List Attribute) (fuel : ℕ) (d : List ℕ) (start : ℕ) (found : List ScannedAttribute)
      → All (λ a. AreArguments a.arguments') as'
      → 2 * length as' < fuel
      → parse_attributes fuel d start found (rest_of as')
        ≡ ok (
            some
              (record { begin = start; end = e'; attributes = found ++ scanned_list d as' }, later))
  parse_list as' zero d start found h few = absurd (omega arith)
  parse_list [] (suc fuel) d start found h few = unfold parse_attributes is in rw append-nil
  parse_list (a ∷ as') (suc zero) d start found h few = absurd (omega arith)
  parse_list (a ∷ as') (suc (suc fuel)) d start found (h, hs) few =
      let found' : List ScannedAttribute = found ++ scanned d a ∷ [] in
      attribute_round (suc fuel) d start found a as' h
      ∙ comma_round fuel d start found' a.comma' as' _
          (parse_list as' fuel d start found' hs (omega arith))
          (parse_list as' (suc fuel) d start found' hs (omega arith))
      ∙ rw append_assoc

-- What a list begins with: `using name:`, with the offsets of its tokens, or nothing.
pub data Prefix : Type 0 where
  no_prefix : Prefix
  using_name : ℕ → ℕ → Word → ℕ → ℕ → Prefix

abbrev pub using_word : List ℕ
using_word = codes "using"

abbrev pub prefix_tokens : Prefix → List Token → List Token
prefix_tokens no_prefix later = later
prefix_tokens (using_name b e name c c') later =
    record { kind = TokenKind.keyword; spelling = using_word; begin = b; end = e }
    ∷ word name
    ∷ symbol (codes ":") c c'
    ∷ later

abbrev pub prefix_scope : Prefix → List ℕ
prefix_scope no_prefix = []
prefix_scope (using_name b e name c c') = name.spelling

-- A list without the prefix does not begin with the keyword `using`.
abbrev pub is_using : List Token → Bool
is_using [] = false
is_using (item ∷ later) = is_keyword item.kind && bytes_eq item.spelling using_word

abbrev pub IsPrefixed : Prefix → List Token → Type 0
IsPrefixed no_prefix tokens = is_using tokens ≡ false
IsPrefixed (using_name b e name c c') tokens = Unit {0}

pub default_scope_of-plain :
    (tokens : List Token) → is_using tokens ≡ false → default_scope_of tokens ≡ ([], tokens)
default_scope_of-plain [] h = refl
default_scope_of-plain (x ∷ []) h = refl
default_scope_of-plain (x ∷ y ∷ []) h = refl
default_scope_of-plain (x ∷ y ∷ z ∷ later) h = rw h

default_scope_of-prefix :
    (u : Prefix) (tokens : List Token)
    → IsPrefixed u tokens
    → default_scope_of (prefix_tokens u tokens) ≡ (prefix_scope u, tokens)
default_scope_of-prefix no_prefix tokens h = default_scope_of-plain tokens h
default_scope_of-prefix (using_name b e name c c') tokens h = unfold is in rw (word-is_name name)

-- Behind `[[`, `parse_group` scans attributes of any number, behind `using name:` or not, with a namespace
-- of their own or without, with arguments whose brackets match or without, and with commas between them
-- or without, up to the closing brackets: each attribute has its name, its own namespace or else the one
-- of `using`, and the offsets of its arguments, the group ends where its last bracket ends, and the tokens
-- behind it are left. Two rounds for each attribute, and one more, are enough fuel.
pub parse_group-list_tokens :
    (u : Prefix) (as' : List Attribute) (fuel start b e b' e' : ℕ) (later : List Token)
    → All (λ a. AreArguments a.arguments') as'
    → IsPrefixed u (list_tokens as' (end_tokens b e b' e' later))
    → 2 * length as' < fuel
    → parse_group fuel start (prefix_tokens u (list_tokens as' (end_tokens b e b' e' later)))
      ≡ ok (
          some (
            record { begin = start; end = e'; attributes = scanned_list (prefix_scope u) as' },
            later,
          ))
unfolding parse_group
parse_group-list_tokens u as' fuel start b e b' e' later h p few =
    rw (default_scope_of-prefix u (list_tokens as' (end_tokens b e b' e' later)) p)
      (parse_list b e b' e' later as' fuel (prefix_scope u) start [] h few)
