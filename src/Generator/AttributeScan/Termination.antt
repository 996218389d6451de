-- ===== src/Generator/AttributeScan/Termination.antt =====
-- The loops of generator/src/attribute_scan.cpp come to an end on any tokens.
use reflgen_cpp.Common.{
  ℕ, zero, suc, ◌≤◌, ◌<◌, ◌≡◌, refl, Bool, true, false, not, ◌&&◌, List, [], ◌∷◌, ◌++◌, ◌==◌,
  if◌then◌else◌, Option, none, some, length, arith, bytes_eq, Bool-cases, inl, inr,
}
use reflgen_cpp.Common.Outcome.{Outcome, ok, err, fault, out_of_fuel, bind}
use reflgen_cpp.Json.Base64.{codes}
use reflgen_cpp.Generator.AttributeScan.{
  Token, ScannedAttribute, AttributeGroup, is, is_name, is_keyword, closer, closing, close_bracket,
  open_bracket, matching_parenthesis, scoped, closed, parse_arguments, ends_group, attribute_behind,
  group_ended, parse_attributes, default_scope_of, parse_group, group_found, scan_groups,
}

-- A run that returns, with `P` of what it returns.
abbrev pub Returns : {X : Type 0} → (X → Type 0) → Outcome X → Type 0
Returns P (ok x) = P x
Returns P (err e) = ⊥
Returns P fault = ⊥
Returns P out_of_fuel = ⊥

Returns-map :
    {X : Type 0} (P Q : X → Type 0) (m : Outcome X)
    → ((x : X) → P x → Q x)
    → Returns P m
    → Returns Q m
Returns-map P Q (ok x) k h = k x h
Returns-map P Q (err e) k h = absurd h
Returns-map P Q fault k h = absurd h
Returns-map P Q out_of_fuel k h = absurd h

Returns-bind :
    {X Y : Type 0} (P : X → Type 0) (Q : Y → Type 0) (m : Outcome X) (f : X → Outcome Y)
    → Returns P m
    → ((x : X) → P x → Returns Q (f x))
    → Returns Q (bind m f)
Returns-bind P Q (ok x) f h k = k x h
Returns-bind P Q (err e) f h k = absurd h
Returns-bind P Q fault f h k = absurd h
Returns-bind P Q out_of_fuel f h k = absurd h

-- An answer that leaves fewer tokens than `n`.
abbrev pub Within : {X : Type 0} → ℕ → Option (X × List Token) → Type 0
Within n none = Unit {0}
Within n (some (x, later)) = length later < n

Within-weaken :
    {X : Type 0} (m n : ℕ) (o : Option (X × List Token)) → m ≤ n → Within m o → Within n o
Within-weaken m n none h k = tt
Within-weaken m n (some (x, later)) h k = omega arith

Within-if :
    {X : Type 0} (n : ℕ) (b : Bool) (x y : Option (X × List Token))
    → Within n x
    → Within n y
    → Within n (if b then x else y)
Within-if n true x y h k = h
Within-if n false x y h k = k

close_bracket-Within :
    (c : Option ℕ) (expected : List ℕ) (item : Token) (later : List Token)
    (loop : List ℕ → Option (Token × List Token))
    → ((stack : List ℕ) → Within (suc (length later)) (loop stack))
    → Within (suc (length later)) (close_bracket c expected item later loop)
close_bracket-Within none expected item later loop h = h expected
close_bracket-Within (some c) [] item later loop h = tt
close_bracket-Within (some c) (e ∷ []) item later loop h =
    Within-if (suc (length later)) (e == c) (some (item, later)) none (omega arith) tt
close_bracket-Within (some c) (e ∷ f ∷ outer) item later loop h =
    Within-if (suc (length later)) (e == c) (loop (f ∷ outer)) none (h (f ∷ outer)) tt

open_bracket-Within :
    (c : Option ℕ) (expected : List ℕ) (n : ℕ) (loop : List ℕ → Option (Token × List Token))
    (other : Option (Token × List Token))
    → ((stack : List ℕ) → Within n (loop stack))
    → Within n other
    → Within n (open_bracket c expected loop other)
open_bracket-Within none expected n loop other h k = k
open_bracket-Within (some c) expected n loop other h k = h (c ∷ expected)

pub matching_parenthesis-Within :
    (expected : List ℕ) (tokens : List Token)
    → Within (length tokens) (matching_parenthesis expected tokens)
unfolding matching_parenthesis
matching_parenthesis-Within expected [] = tt
matching_parenthesis-Within expected (item ∷ later) =
    let loop : List ℕ → Option (Token × List Token) = λ stack. matching_parenthesis stack later in
    let shorter : (stack : List ℕ) → Within (suc (length later)) (loop stack) = λ stack.
      Within-weaken (length later) (suc (length later)) (loop stack) (omega arith)
        (matching_parenthesis-Within stack later) in
    open_bracket-Within (closer item) expected (suc (length later)) loop _ shorter
      (close_bracket-Within (closing item) expected item later loop shorter)

closed-Within :
    (n : ℕ) (opening : Token) (attribute : ScannedAttribute) (o : Option (Token × List Token))
    → Within n o
    → Within n (closed opening attribute o)
closed-Within n opening attribute none h = tt
closed-Within n opening attribute (some (close, later)) h = h

parse_arguments-Within :
    (attribute : ScannedAttribute) (tokens : List Token)
    → Within (suc (length tokens)) (parse_arguments (attribute, tokens))
unfolding parse_arguments
parse_arguments-Within attribute [] = omega arith
parse_arguments-Within attribute (item ∷ later) =
    let tokens : List Token = item ∷ later in
    Within-if (suc (length tokens)) (is item (codes "(")) _ (some (attribute, tokens))
      (closed-Within (suc (length tokens)) item attribute (matching_parenthesis [] tokens) (
        Within-weaken (length tokens) (suc (length tokens)) (matching_parenthesis [] tokens)
          (omega arith) (matching_parenthesis-Within [] tokens)))
      (omega arith)

scoped-le :
    (scope : List ℕ) (item : Token) (later : List Token)
    → length (scoped scope item later).1 ≤ length later
scoped-le scope item [] = omega arith
scoped-le scope item (a ∷ []) = omega arith
scoped-le scope item (a ∷ b ∷ later) = elim (Bool-cases (is a (codes "::") && is_name b)) [
  | inl e ↦ rw e (omega arith)
  | inr e ↦ rw e (omega arith)
]

ends_group-Within : (tokens : List Token) → Within (length tokens) (ends_group tokens)
ends_group-Within [] = tt
ends_group-Within (a ∷ []) = tt
ends_group-Within (a ∷ b ∷ later) =
    Within-if (suc (suc (length later))) (is a (codes "]") && is b (codes "]")) (some (b, later))
      none (omega arith) tt

-- A run that ends, with an answer that leaves fewer tokens than `n`.
abbrev pub EndsWithin : {X : Type 0} → ℕ → Outcome (Option (X × List Token)) → Type 0
EndsWithin n m = Returns (Within n) m

EndsWithin-weaken :
    {X : Type 0} (m n : ℕ) (r : Outcome (Option (X × List Token)))
    → m ≤ n
    → EndsWithin m r
    → EndsWithin n r
EndsWithin-weaken m n r h = Returns-map (Within m) (Within n) r (λ o. Within-weaken m n o h)

EndsWithin-if :
    {X : Type 0} (n : ℕ) (b : Bool) (x y : Outcome (Option (X × List Token)))
    → EndsWithin n x
    → EndsWithin n y
    → EndsWithin n (if b then x else y)
EndsWithin-if n true x y h k = h
EndsWithin-if n false x y h k = k

group_ended-EndsWithin :
    (n start : ℕ) (attributes : List ScannedAttribute) (o : Option (Token × List Token))
    (other : Outcome (Option (AttributeGroup × List Token)))
    → Within n o
    → EndsWithin n other
    → EndsWithin n (group_ended start attributes o other)
group_ended-EndsWithin n start attributes none other h k = k
group_ended-EndsWithin n start attributes (some (last, later)) other h k = h

attribute_behind-EndsWithin :
    (n : ℕ) (attributes : List ScannedAttribute) (o : Option (ScannedAttribute × List Token))
    (loop : List ScannedAttribute → List Token → Outcome (Option (AttributeGroup × List Token)))
    → Within n o
    → ((more : List ScannedAttribute) (tokens : List Token)
        → length tokens < n
        → EndsWithin n (loop more tokens))
    → EndsWithin n (attribute_behind attributes o loop)
attribute_behind-EndsWithin n attributes none loop h k = tt
attribute_behind-EndsWithin n attributes (some (attribute, later)) loop h k =
    k (attributes ++ attribute ∷ []) later h

parse_attributes-EndsWithin :
    (fuel : ℕ) (scope : List ℕ) (start : ℕ) (attributes : List ScannedAttribute)
    (tokens : List Token)
    → length tokens < fuel
    → EndsWithin (suc (length tokens)) (parse_attributes fuel scope start attributes tokens)
unfolding parse_attributes
parse_attributes-EndsWithin zero scope start attributes tokens h = absurd (omega arith)
parse_attributes-EndsWithin (suc fuel) scope start attributes [] h = tt
parse_attributes-EndsWithin (suc fuel) scope start attributes (item ∷ later) h =
    let n : ℕ = suc (suc (length later)) in
    let (attribute, behind) = scoped scope item later in
    group_ended-EndsWithin n start attributes (ends_group (item ∷ later)) _
      (Within-weaken (suc (length later)) n (ends_group (item ∷ later)) (omega arith)
        (ends_group-Within (item ∷ later)))
      (EndsWithin-if n (is item (codes ",")) _ _
        (EndsWithin-weaken (suc (length later)) n _ (omega arith)
          (parse_attributes-EndsWithin fuel scope start attributes later (omega arith)))
        (EndsWithin-if n (not (is_name item)) (ok none) _ tt (
          EndsWithin-weaken (suc (length later)) n _ (omega arith) (
            attribute_behind-EndsWithin (suc (length later)) attributes _ _
              (Within-weaken (suc (length behind)) (suc (length later))
                (parse_arguments (attribute, behind)) (omega (arith, scoped-le scope item later))
                (parse_arguments-Within attribute behind))
              λ more tokens k.
                EndsWithin-weaken (suc (length tokens)) (suc (length later)) _ (omega arith)
                  (parse_attributes-EndsWithin fuel scope start more tokens (omega arith))))))

default_scope_of-le : (tokens : List Token) → length (default_scope_of tokens).1 ≤ length tokens
default_scope_of-le [] = omega arith
default_scope_of-le (a ∷ []) = omega arith
default_scope_of-le (a ∷ b ∷ []) = omega arith
default_scope_of-le (a ∷ b ∷ c ∷ later) =
    elim (Bool-cases
      (is_keyword a.kind && bytes_eq a.spelling (codes "using") && is_name b && is c (codes ":"))) [
        | inl e ↦ rw e (omega arith)
        | inr e ↦ rw e (omega arith)
      ]

parse_group-EndsWithin :
    (start : ℕ) (tokens : List Token)
    → EndsWithin (suc (length tokens)) (parse_group (suc (length tokens)) start tokens)
unfolding parse_group
parse_group-EndsWithin start tokens =
    let (scope, later) = default_scope_of tokens in
    EndsWithin-weaken (suc (length later)) (suc (length tokens)) _
      (omega (arith, default_scope_of-le tokens))
      (parse_attributes-EndsWithin (suc (length tokens)) scope start [] later
        (omega (arith, default_scope_of-le tokens)))

abbrev pub Ends : Outcome (List AttributeGroup) → Type 0
Ends = Returns (λ groups. Unit {0})

group_found-Ends :
    (n : ℕ) (other : Outcome (List AttributeGroup))
    (loop : List Token → Outcome (List AttributeGroup)) (o : Option (AttributeGroup × List Token))
    → Within n o
    → Ends other
    → ((tokens : List Token) → length tokens < n → Ends (loop tokens))
    → Ends (group_found other loop o)
group_found-Ends n other loop none h k l = k
group_found-Ends n other loop (some (group, later)) h k l =
    Returns-bind (λ groups. Unit {0}) (λ groups. Unit {0}) (loop later) _ (l later h) λ groups _. tt

Ends-if :
    (b : Bool) (x y : Outcome (List AttributeGroup)) → Ends x → Ends y → Ends (if b then x else y)
Ends-if true x y h k = h
Ends-if false x y h k = k

pub scan_groups-Ends :
    (fuel : ℕ) (tokens : List Token) → length tokens ≤ fuel → Ends (scan_groups fuel tokens)
unfolding scan_groups
scan_groups-Ends fuel [] h = tt
scan_groups-Ends fuel (a ∷ []) h = tt
scan_groups-Ends zero (a ∷ b ∷ later) h = absurd (omega arith)
scan_groups-Ends (suc fuel) (a ∷ b ∷ later) h =
    let next = scan_groups-Ends fuel (b ∷ later) (omega arith) in
    Ends-if (is a (codes "[") && is b (codes "[")) _ _
      (Returns-bind (Within (suc (length later))) (λ groups. Unit {0}) _ _
        (parse_group-EndsWithin a.begin later)
        λ o k.
          group_found-Ends (suc (length later)) _ (scan_groups fuel) o k next
            λ tokens l. scan_groups-Ends fuel tokens (omega arith))
      next

pub Ends→ :
    (m : Outcome (List AttributeGroup)) → Ends m → (groups : List AttributeGroup) × (m ≡ ok groups)
Ends→ (ok groups) h = (groups, refl)
Ends→ (err e) h = absurd h
Ends→ fault h = absurd h
Ends→ out_of_fuel h = absurd h
