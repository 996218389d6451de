-- ===== src/Generator/AttributeScan/Text.antt =====
-- generator/src/attribute_scan.cpp: the tests on the text of a header.
pub mod Words
pub mod Places
pub mod Lists
use reflgen_cpp.Common.{
  ℕ, zero, suc, Bool, true, false, not, ◌&&◌, ◌||◌, List, [], ◌∷◌, ◌++◌, ◌==◌, leb, if◌then◌else◌,
  Option, none, some, length, drop, bytes_eq,
}
use reflgen_cpp.Common.Outcome.{Outcome, ok, out_of_fuel}
use reflgen_cpp.Json.Base64.{codes}

unfoldable pub is_identifier_character : ℕ → Bool
is_identifier_character c =
    leb b'a' c && leb c b'z' || leb b'A' c && leb c b'Z' || leb b'0' c && leb c b'9' || c == b'_'

abbrev pub all_of : (ℕ → Bool) → List ℕ → Bool
all_of p [] = true
all_of p (c ∷ cs) = p c && all_of p cs

unfoldable pub is_identifier : List ℕ → Bool
is_identifier [] = false
is_identifier (c ∷ cs) =
    if leb b'0' c && leb c b'9' then false else all_of is_identifier_character (c ∷ cs)

abbrev pub starts_with : List ℕ → List ℕ → Bool
starts_with [] text = true
starts_with (w ∷ ws) [] = false
starts_with (w ∷ ws) (c ∷ cs) = w == c && starts_with ws cs

-- No character beside the word, or one that is not of an identifier.
abbrev pub is_edge : Option ℕ → Bool
is_edge none = true
is_edge (some c) = not (is_identifier_character c)

abbrev pub front : List ℕ → Option ℕ
front [] = none
front (c ∷ _) = some c

-- The body of the loop of `contains_word`, at a position behind `previous` where the word is found or not.
abbrev pub is_word_at : Option ℕ → List ℕ → List ℕ → Bool
is_word_at previous word text =
    starts_with word text && (is_edge previous && is_edge (front (drop (length word) text)))

-- The loop, over every position where `find` may stop.
unfoldable pub contains_word_from : Option ℕ → List ℕ → List ℕ → Bool
contains_word_from previous word [] = is_word_at previous word []
contains_word_from previous word (c ∷ cs) =
    is_word_at previous word (c ∷ cs) || contains_word_from (some c) word cs

unfoldable pub contains_word : List ℕ → List ℕ → Bool
contains_word text word = contains_word_from none word text

-- `find`: what is before the pattern, and what is behind it.
abbrev pub put_before : ℕ → Option (List ℕ × List ℕ) → Option (List ℕ × List ℕ)
put_before c none = none
put_before c (some (before, behind)) = some (c ∷ before, behind)

unfoldable pub find_text : List ℕ → List ℕ → Option (List ℕ × List ℕ)
find_text pattern [] = if starts_with pattern [] then some ([], []) else none
find_text pattern (c ∷ cs) =
    let later = put_before c (find_text pattern cs) in
    if starts_with pattern (c ∷ cs) then some ([], drop (length pattern) (c ∷ cs)) else later

-- A character that the list is made compact by leaving out.
abbrev pub is_blank : ℕ → Bool
is_blank c = c == b' ' || c == b'\t' || c == b'\r' || c == b'\n' || c == 12 || c == 11

unfoldable pub compact : List ℕ → List ℕ
compact [] = []
compact (c ∷ cs) = if is_blank c then compact cs else c ∷ compact cs

abbrev pub using_reflgen : List ℕ
using_reflgen = codes "usingreflgen:"

unfoldable pub list_declares : List ℕ → List ℕ → Bool
list_declares list name =
    if starts_with using_reflgen list
    then contains_word (drop (length using_reflgen) list) name
    else contains_word list (codes "reflgen::" ++ name)

-- The list up to the closing brackets, and the rounds to come, behind the opening ones.
abbrev declared : List ℕ → Option (List ℕ × List ℕ) → Outcome Bool → Outcome Bool
declared name none more = ok false
declared name (some (inside, _)) more =
    if list_declares (compact inside) name then ok true else more

abbrev opened : List ℕ → Option (List ℕ × List ℕ) → (List ℕ → Outcome Bool) → Outcome Bool
opened name none loop = ok false
opened name (some (_, behind)) loop = declared name (find_text (codes "]]") behind) (loop behind)

-- Each round of the loop costs a unit of fuel.
unfoldable pub declares_from : ℕ → List ℕ → List ℕ → Outcome Bool
declares_from zero text name = out_of_fuel
declares_from (suc fuel) text name =
    opened name (find_text (codes "[[") text) λ behind. declares_from fuel behind name

unfoldable pub declares_attribute : List ℕ → List ℕ → Outcome Bool
declares_attribute text name = declares_from (suc (length text)) text name

-- `||` of two answers.
abbrev or_declares : Outcome Bool → Outcome Bool → Outcome Bool
or_declares (ok true) other = ok true
or_declares (ok false) other = other
or_declares m other = m

unfoldable pub declares_reflection : List ℕ → Outcome Bool
declares_reflection text =
    or_declares (declares_attribute text (codes "reflect"))
      (declares_attribute text (codes "runtime"))

abbrev declares_any : List ℕ → List (List ℕ) → Outcome Bool
declares_any text [] = ok false
declares_any text (name ∷ names) =
    or_declares (declares_attribute text name) (declares_any text names)

unfoldable pub declares_interop : List ℕ → Outcome Bool
declares_interop text = declares_any text (
    codes "interop"
    ∷ codes "lifetime"
    ∷ codes "property_get"
    ∷ codes "property_set"
    ∷ codes "effect"
    ∷ codes "owner"
    ∷ codes "receiver"
    ∷ codes "value"
    ∷ codes "table"
    ∷ [])
