-- ===== src/Generator/AttributeScan/Parentheses.antt =====
-- `matching_parenthesis` of generator/src/attribute_scan.cpp on brackets that match.
use reflgen_cpp.Common.{
  ℕ, ◌≡◌, refl, true, List, [], ◌∷◌, ◌++◌, append_assoc, ◌==◌, ==_iff, none, some,
}
use reflgen_cpp.Generator.AttributeScan.{Token, closer, closing, matching_parenthesis}

-- Tokens whose brackets match, of all three kinds.
pub data Balanced : List Token → Type 0 where
  empty : Balanced []
  plain :
      (item : Token) (later : List Token)
      → closer item ≡ none
      → closing item ≡ none
      → Balanced later
      → Balanced (item ∷ later)
  nested :
      (opening : Token) (inner : List Token) (close : Token) (later : List Token) (c : ℕ)
      → closer opening ≡ some c
      → closer close ≡ none
      → closing close ≡ some c
      → Balanced inner
      → Balanced later
      → Balanced (opening ∷ (inner ++ close ∷ later))

same : (c : ℕ) → (c == c) ≡ true
same c = (==_iff c c).1 refl

pass_balanced :
    (tokens : List Token)
    → Balanced tokens
    → (c : ℕ) (outer : List ℕ) (more : List Token)
    → matching_parenthesis (c ∷ outer) (tokens ++ more) ≡ matching_parenthesis (c ∷ outer) more
unfolding matching_parenthesis
pass_balanced _ empty c outer more = refl
pass_balanced _ (plain item later opens closes b) c outer more =
    rw (opens, closes) (pass_balanced later b c outer more)
pass_balanced _ (nested opening inner close later d opens no_open closes b k) c outer more =
    rw
      (
        append_assoc inner (close ∷ later) more,
        opens,
        pass_balanced inner b d (c ∷ outer) (close ∷ (later ++ more)),
        no_open,
        closes,
        same d,
      )
      (pass_balanced later k c outer more)

-- From an opening bracket, `matching_parenthesis` finds the bracket that closes it, behind any tokens whose
-- own brackets match.
pub matching_parenthesis_lem :
    (opening close : Token) (inner more : List Token) (c : ℕ)
    → closer opening ≡ some c
    → closer close ≡ none
    → closing close ≡ some c
    → Balanced inner
    → matching_parenthesis [] (opening ∷ (inner ++ close ∷ more)) ≡ some (close, more)
unfolding matching_parenthesis
matching_parenthesis_lem opening close inner more c opens no_open closes b =
    rw (opens, pass_balanced inner b c [] (close ∷ more), no_open, closes, same c)
