-- ===== src/Generator/AttributeScan/Syntax.antt =====
-- The attribute lists of C++ as tokens, and what generator/src/attribute_scan.cpp scans of them.
use reflgen_cpp.Common.{ℕ, Bool, true, false, List, [], ◌∷◌, ◌++◌}
use reflgen_cpp.Json.Base64.{codes}
use reflgen_cpp.Generator.AttributeScan.{TokenKind, Token, ScannedAttribute}
use reflgen_cpp.Generator.AttributeScan.Parentheses.{Balanced}

-- A token of one of the spellings of the grammar, and a name, which may be a keyword.
abbrev pub symbol : List ℕ → ℕ → ℕ → Token
symbol spelling begin end = record {
  kind = TokenKind.punctuation;
  spelling = spelling;
  begin = begin;
  end = end;
}

abbrev pub word_kind : Bool → TokenKind
word_kind true = TokenKind.keyword
word_kind false = TokenKind.identifier

pub record Word : Type 0 where
  pub keyword : Bool
  pub spelling : List ℕ
  pub begin : ℕ
  pub end : ℕ

abbrev pub word : Word → Token
word w = record { kind = word_kind w.keyword; spelling = w.spelling; begin = w.begin; end = w.end }

pub data Scope : Type 0 where
  no_scope : Scope
  scope : Word → ℕ → ℕ → Scope

pub data Arguments : Type 0 where
  no_arguments : Arguments
  arguments : ℕ → ℕ → List Token → ℕ → ℕ → Arguments

pub data Comma : Type 0 where
  no_comma : Comma
  comma : ℕ → ℕ → Comma

-- An attribute with the comma that follows it, if one does.
pub record Attribute : Type 0 where
  pub namespace' : Scope
  pub name : Word
  pub arguments' : Arguments
  pub comma' : Comma

abbrev pub scope_tokens : Scope → List Token → List Token
scope_tokens no_scope later = later
scope_tokens (scope w b e) later = word w ∷ symbol (codes "::") b e ∷ later

abbrev pub argument_tokens : Arguments → List Token → List Token
argument_tokens no_arguments later = later
argument_tokens (arguments b e inner b' e') later =
    symbol (codes "(") b e ∷ (inner ++ symbol (codes ")") b' e' ∷ later)

abbrev pub comma_tokens : Comma → List Token → List Token
comma_tokens no_comma later = later
comma_tokens (comma b e) later = symbol (codes ",") b e ∷ later

abbrev pub attribute_tokens : Attribute → List Token → List Token
attribute_tokens a later =
    scope_tokens a.namespace'
      (word a.name ∷ argument_tokens a.arguments' (comma_tokens a.comma' later))

abbrev pub list_tokens : List Attribute → List Token → List Token
list_tokens [] later = later
list_tokens (a ∷ as') later = attribute_tokens a (list_tokens as' later)

-- The two brackets at the end.
abbrev pub end_tokens : ℕ → ℕ → ℕ → ℕ → List Token → List Token
end_tokens b e b' e' later = symbol (codes "]") b e ∷ symbol (codes "]") b' e' ∷ later

abbrev pub AreArguments : Arguments → Type 0
AreArguments no_arguments = Unit {0}
AreArguments (arguments b e inner b' e') = Balanced inner

-- The attribute as it is scanned, with the scope of a `using` if it has none of its own.
abbrev pub scope_of : List ℕ → Scope → List ℕ
scope_of default_scope no_scope = default_scope
scope_of default_scope (scope w b e) = w.spelling

abbrev pub begin_of : Scope → Word → ℕ
begin_of no_scope name = name.begin
begin_of (scope w b e) name = w.begin

abbrev pub with_arguments : Arguments → ScannedAttribute → ScannedAttribute
with_arguments no_arguments attribute = attribute
with_arguments (arguments b e inner b' e') attribute = record attribute {
  has_arguments = true;
  arguments_begin = e;
  arguments_end = b';
}

abbrev pub scanned : List ℕ → Attribute → ScannedAttribute
scanned default_scope a = with_arguments a.arguments' (record {
  scope = scope_of default_scope a.namespace';
  name = a.name.spelling;
  has_arguments = false;
  arguments_begin = 0;
  arguments_end = 0;
  begin = begin_of a.namespace' a.name;
})

abbrev pub scanned_list : List ℕ → List Attribute → List ScannedAttribute
scanned_list default_scope [] = []
scanned_list default_scope (a ∷ as') = scanned default_scope a ∷ scanned_list default_scope as'
