-- ===== src/Generator/AttributeScan/Places.antt =====
-- Where the groups that `scan_attribute_groups` of generator/src/attribute_scan.cpp returns stand in the
-- tokens.
use reflgen_cpp.Common.{
  ℕ, zero, suc, ◌≡◌, refl, sym, ap, ◌∙◌, Bool, true, false, not, ◌&&◌, List, [], ◌∷◌, ◌++◌,
  append_assoc, if◌then◌else◌, Option, none, some, length, bytes_eq, ◌==◌, Bool-cases, inl, inr,
}
use reflgen_cpp.Common.Outcome.{Outcome, ok, err, fault, out_of_fuel, bind}
use reflgen_cpp.Json.Base64.{codes}
use reflgen_cpp.Generator.AttributeScan.{
  Token, ScannedAttribute, AttributeGroup, is, is_name, is_keyword, closer, closing, close_bracket,
  open_bracket, matching_parenthesis, scoped, closed, parse_arguments, ends_group, attribute_behind,
  group_ended, parse_attributes, default_scope_of, parse_group, group_found, scan_groups,
}

-- The groups stand in the tokens in their order, each behind the one before it, from two opening brackets
-- to two closing ones.
pub data Placed : List Token → List AttributeGroup → Type 0 where
  nothing : {tokens : List Token} → Placed tokens []
  placed :
      {tokens : List Token} (before inside after : List Token) (first second close last : Token)
      (group : AttributeGroup) (groups : List AttributeGroup)
      → tokens ≡ before ++ first ∷ second ∷ (inside ++ close ∷ last ∷ after)
      → is first (codes "[") ≡ true
      → is second (codes "[") ≡ true
      → is close (codes "]") ≡ true
      → is last (codes "]") ≡ true
      → group.begin ≡ first.begin
      → group.end ≡ last.end
      → Placed after groups
      → Placed tokens (group ∷ groups)

Placed-cons :
    (item : Token) (tokens : List Token) (groups : List AttributeGroup)
    → Placed tokens groups
    → Placed (item ∷ tokens) groups
Placed-cons item tokens _ nothing = nothing
Placed-cons item _ _
      (placed {tokens} before inside after a b c d group groups e ha hb hc hd k l p) =
    placed (item ∷ before) inside after a b c d group groups (ap (λ t. item ∷ t) e) ha hb hc hd k l
      p

-- What is true of an answer, if there is one.
abbrev pub Gives : {X : Type 0} → (X → Type 0) → Outcome X → Type 0
Gives P (ok x) = P x
Gives P (err e) = Unit {0}
Gives P fault = Unit {0}
Gives P out_of_fuel = Unit {0}

Gives-bind :
    {X Y : Type 0} (P : X → Type 0) (Q : Y → Type 0) (m : Outcome X) (f : X → Outcome Y)
    → Gives P m
    → ((x : X) → P x → Gives Q (f x))
    → Gives Q (bind m f)
Gives-bind P Q (ok x) f h k = k x h
Gives-bind P Q (err e) f h k = tt
Gives-bind P Q fault f h k = tt
Gives-bind P Q out_of_fuel f h k = tt

either : {X : Type 0} (P : X → Type 0) (b : Bool) (x y : X) → P x → P y → P (if b then x else y)
either P true x y h k = h
either P false x y h k = k

both : (p q : Bool) → (p && q) ≡ true → (p ≡ true) × (q ≡ true)
both true true h = (refl, refl)
both true false h = cc
both false q h = cc

module _ (whole : List Token) where
  -- The tokens from some position on.
  abbrev IsTail : List Token → Type 0
  IsTail later = (before : List Token) × (whole ≡ before ++ later)

  IsTail-step : (item : Token) (later : List Token) → IsTail (item ∷ later) → IsTail later
  IsTail-step item later (before, e) =
      (before ++ item ∷ [], e ∙ sym (append_assoc before (item ∷ []) later))

  -- An answer that leaves tokens from some position on.
  abbrev Leaves : {X : Type 0} → Option (X × List Token) → Type 0
  Leaves none = Unit {0}
  Leaves (some (x, later)) = IsTail later

  close_bracket-Leaves :
      (c : Option ℕ) (expected : List ℕ) (item : Token) (later : List Token)
      (loop : List ℕ → Option (Token × List Token))
      → IsTail later
      → ((stack : List ℕ) → Leaves (loop stack))
      → Leaves (close_bracket c expected item later loop)
  close_bracket-Leaves none expected item later loop s h = h expected
  close_bracket-Leaves (some c) [] item later loop s h = tt
  close_bracket-Leaves (some c) (e ∷ []) item later loop s h =
      either Leaves (e == c) (some (item, later)) none s tt
  close_bracket-Leaves (some c) (e ∷ f ∷ outer) item later loop s h =
      either Leaves (e == c) (loop (f ∷ outer)) none (h (f ∷ outer)) tt

  open_bracket-Leaves :
      (c : Option ℕ) (expected : List ℕ) (loop : List ℕ → Option (Token × List Token))
      (other : Option (Token × List Token))
      → ((stack : List ℕ) → Leaves (loop stack))
      → Leaves other
      → Leaves (open_bracket c expected loop other)
  open_bracket-Leaves none expected loop other h k = k
  open_bracket-Leaves (some c) expected loop other h k = h (c ∷ expected)

  matching_parenthesis-Leaves :
      (expected : List ℕ) (tokens : List Token)
      → IsTail tokens
      → Leaves (matching_parenthesis expected tokens)
  unfolding matching_parenthesis
  matching_parenthesis-Leaves expected [] s = tt
  matching_parenthesis-Leaves expected (item ∷ later) s =
      let t = IsTail-step item later s in
      let rest : (stack : List ℕ) → Leaves (matching_parenthesis stack later) =
        λ stack. matching_parenthesis-Leaves stack later t in
      open_bracket-Leaves (closer item) expected (λ stack. matching_parenthesis stack later) _ rest
        (close_bracket-Leaves (closing item) expected item later _ t rest)

  closed-Leaves :
      (opening : Token) (attribute : ScannedAttribute) (o : Option (Token × List Token))
      → Leaves o
      → Leaves (closed opening attribute o)
  closed-Leaves opening attribute none h = tt
  closed-Leaves opening attribute (some (close, later)) h = h

  parse_arguments-Leaves :
      (attribute : ScannedAttribute) (tokens : List Token)
      → IsTail tokens
      → Leaves (parse_arguments (attribute, tokens))
  unfolding parse_arguments
  parse_arguments-Leaves attribute [] s = s
  parse_arguments-Leaves attribute (item ∷ later) s =
      either Leaves (is item (codes "(")) _ (some (attribute, item ∷ later))
        (closed-Leaves item attribute _ (matching_parenthesis-Leaves [] (item ∷ later) s)) s

  scoped-IsTail :
      (scope : List ℕ) (item : Token) (later : List Token)
      → IsTail later
      → IsTail (scoped scope item later).1
  scoped-IsTail scope item [] s = s
  scoped-IsTail scope item (a ∷ []) s = s
  scoped-IsTail scope item (a ∷ b ∷ later) s =
      either {X = ScannedAttribute × List Token} (λ o. IsTail o.1) (is a (codes "::") && is_name b)
        _ _ (IsTail-step b later (IsTail-step a (b ∷ later) s)) s

  -- Two closing brackets, with the tokens behind them.
  pub record Closed (last : Token) (later : List Token) : Type 0 where
    pub inside : List Token
    pub close : Token
    pub whole_split : whole ≡ inside ++ close ∷ last ∷ later
    pub close_is : is close (codes "]") ≡ true
    pub last_is : is last (codes "]") ≡ true

  abbrev Closes : Option (Token × List Token) → Type 0
  Closes none = Unit {0}
  Closes (some (last, later)) = Closed last later

  ends_group-Closes : (tokens : List Token) → IsTail tokens → Closes (ends_group tokens)
  ends_group-Closes [] s = tt
  ends_group-Closes (a ∷ []) s = tt
  ends_group-Closes (a ∷ b ∷ later) (before, split) =
      elim (Bool-cases (is a (codes "]") && is b (codes "]"))) [
        | inl e ↦
            let (one, two) = both (is a (codes "]")) (is b (codes "]")) e in
            rw e (record {
              inside = before;
              close = a;
              whole_split = split;
              close_is = one;
              last_is = two;
            })
        | inr e ↦ rw e tt
      ]

  -- A group from an offset to the end of two closing brackets.
  abbrev IsGroup : ℕ → Option (AttributeGroup × List Token) → Type 0
  IsGroup start none = Unit {0}
  IsGroup start (some (group, later)) =
      (last : Token) × Closed last later × (group.begin ≡ start) × (group.end ≡ last.end)

  group_ended-IsGroup :
      (start : ℕ) (attributes : List ScannedAttribute) (o : Option (Token × List Token))
      (other : Outcome (Option (AttributeGroup × List Token)))
      → Closes o
      → Gives (IsGroup start) other
      → Gives (IsGroup start) (group_ended start attributes o other)
  group_ended-IsGroup start attributes none other h k = k
  group_ended-IsGroup start attributes (some (last, later)) other h k = (last, h, refl, refl)

  attribute_behind-IsGroup :
      (start : ℕ) (attributes : List ScannedAttribute) (o : Option (ScannedAttribute × List Token))
      (loop : List ScannedAttribute → List Token → Outcome (Option (AttributeGroup × List Token)))
      → Leaves o
      → ((more : List ScannedAttribute) (tokens : List Token)
          → IsTail tokens
          → Gives (IsGroup start) (loop more tokens))
      → Gives (IsGroup start) (attribute_behind attributes o loop)
  attribute_behind-IsGroup start attributes none loop h k = tt
  attribute_behind-IsGroup start attributes (some (attribute, later)) loop h k =
      k (attributes ++ attribute ∷ []) later h

  parse_attributes-IsGroup :
      (fuel : ℕ) (scope : List ℕ) (start : ℕ) (attributes : List ScannedAttribute)
      (tokens : List Token)
      → IsTail tokens
      → Gives (IsGroup start) (parse_attributes fuel scope start attributes tokens)
  unfolding parse_attributes
  parse_attributes-IsGroup zero scope start attributes tokens s = tt
  parse_attributes-IsGroup (suc fuel) scope start attributes [] s = tt
  parse_attributes-IsGroup (suc fuel) scope start attributes (item ∷ later) s =
      let t = IsTail-step item later s in
      let (attribute, behind) = scoped scope item later in
      group_ended-IsGroup start attributes (ends_group (item ∷ later)) _
        (ends_group-Closes (item ∷ later) s)
        (either (Gives (IsGroup start)) (is item (codes ",")) _ _
          (parse_attributes-IsGroup fuel scope start attributes later t)
          (either (Gives (IsGroup start)) (not (is_name item)) (ok none) _ tt (
            attribute_behind-IsGroup start attributes _ _
              (parse_arguments-Leaves attribute behind (scoped-IsTail scope item later t))
              (parse_attributes-IsGroup fuel scope start))))

  default_scope_of-IsTail :
      (tokens : List Token) → IsTail tokens → IsTail (default_scope_of tokens).1
  default_scope_of-IsTail [] s = s
  default_scope_of-IsTail (a ∷ []) s = s
  default_scope_of-IsTail (a ∷ b ∷ []) s = s
  default_scope_of-IsTail (a ∷ b ∷ c ∷ later) s =
      either {X = List ℕ × List Token} (λ o. IsTail o.1)
        (is_keyword a.kind && bytes_eq a.spelling (codes "using") && is_name b && is c (codes ":"))
        _ _ (IsTail-step c later (IsTail-step b (c ∷ later) (IsTail-step a (b ∷ c ∷ later) s))) s

parse_group-IsGroup :
    (fuel start : ℕ) (tokens : List Token)
    → Gives (IsGroup tokens start) (parse_group fuel start tokens)
unfolding parse_group
parse_group-IsGroup fuel start tokens =
    parse_attributes-IsGroup tokens fuel _ start [] _
      (default_scope_of-IsTail tokens tokens ([], refl))

group_found-Placed :
    (first second : Token) (later : List Token) (other : Outcome (List AttributeGroup))
    (loop : List Token → Outcome (List AttributeGroup)) (o : Option (AttributeGroup × List Token))
    → is first (codes "[") ≡ true
    → is second (codes "[") ≡ true
    → IsGroup later first.begin o
    → Gives (Placed (first ∷ second ∷ later)) other
    → ((tokens : List Token) → Gives (Placed tokens) (loop tokens))
    → Gives (Placed (first ∷ second ∷ later)) (group_found other loop o)
group_found-Placed first second later other loop none ho ho' h k l = k
group_found-Placed first second later other loop (some (group, after)) ho ho' (last, c, b, e) k l =
    Gives-bind (Placed after) (Placed (first ∷ second ∷ later)) (loop after) _ (l after) λ groups p.
      placed [] c.inside after first second c.close last group groups
        (ap (λ t. first ∷ second ∷ t) c.whole_split) ho ho' c.close_is c.last_is b e p

pub scan_groups-Placed :
    (fuel : ℕ) (tokens : List Token) → Gives (Placed tokens) (scan_groups fuel tokens)
unfolding scan_groups
scan_groups-Placed fuel [] = nothing
scan_groups-Placed fuel (a ∷ []) = nothing
scan_groups-Placed zero (a ∷ b ∷ later) = tt
scan_groups-Placed (suc fuel) (a ∷ b ∷ later) =
    let next : Gives (Placed (a ∷ b ∷ later)) (scan_groups fuel (b ∷ later)) =
      Gives-map (scan_groups fuel (b ∷ later)) (Placed-cons a (b ∷ later))
        (scan_groups-Placed fuel (b ∷ later)) in
    elim (Bool-cases (is a (codes "[") && is b (codes "["))) [
      | inl e ↦
          let (one, two) = both (is a (codes "[")) (is b (codes "[")) e in
          rw e (
            Gives-bind (IsGroup later a.begin) (Placed (a ∷ b ∷ later)) _ _
              (parse_group-IsGroup (suc (length later)) a.begin later)
              λ o g.
                group_found-Placed a b later _ (scan_groups fuel) o one two g next
                  (scan_groups-Placed fuel))
      | inr e ↦ rw e next
    ]
  where
    Gives-map :
        {X : Type 0} {P Q : X → Type 0} (m : Outcome X)
        → ((x : X) → P x → Q x)
        → Gives P m
        → Gives Q m
    Gives-map (ok x) k h = k x h
    Gives-map (err e) k h = tt
    Gives-map fault k h = tt
    Gives-map out_of_fuel k h = tt
