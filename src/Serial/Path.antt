-- ===== src/Serial/Path.antt =====
-- include/reflgen/serial/error.h: the path of an error, a JSON Pointer. The thread-local list of the
-- segments is the argument `active_path`.
pub mod Pointer
use reflgen_cpp.Common.{
  sym, ℕ, zero, suc, ◌/◌, ◌%◌, ltb, ◌+◌, ◌≤◌, ◌<◌, ◌≡◌, refl, ◌∙◌, ap, Bool, true, false, List, [],
  ◌∷◌, ◌++◌, append_assoc, append-nil, ◌==◌, if◌then◌else◌, All, arith, Bool-cases, inl, inr,
}
use reflgen_cpp.Json.Decimal.{digits_from, to_chars_uint}

pub record PathSegment : Type 0 where
  pub key : List ℕ
  pub index : ℕ
  pub is_index : Bool

-- The loop of `append_escaped`.
unfoldable pub escaped : List ℕ → List ℕ
escaped [] = []
escaped (c ∷ segment) =
    let later = escaped segment in
    if c == b'~' then b'~' ∷ b'0' ∷ later else if c == b'/' then b'~' ∷ b'1' ∷ later else c ∷ later

unfoldable pub append_escaped : List ℕ → List ℕ → List ℕ
unfolding escaped
append_escaped out segment = out ++ b'/' ∷ escaped segment

-- One round of `current_path`.
unfoldable pub append_segment : List ℕ → PathSegment → List ℕ
unfolding append_escaped
append_segment result segment =
    if segment.is_index
    then result ++ b'/' ∷ to_chars_uint segment.index
    else append_escaped result segment.key

abbrev pub append_segments : List ℕ → List PathSegment → List ℕ
append_segments result [] = result
append_segments result (segment ∷ more) = append_segments (append_segment result segment) more

unfoldable pub current_path : List PathSegment → List ℕ
current_path active_path = append_segments [] active_path

-- `serialization_error`: its message without the path, and its path.
pub record PathError : Type 0 where
  pub message : List ℕ
  pub path : List ℕ

-- The constructor that takes the path of the moment.
unfoldable pub error_at : List ℕ → List PathSegment → PathError
error_at message active_path = record { message = message; path = current_path active_path }

unfoldable pub with_parent : List ℕ → PathError → PathError
with_parent segment e = record { message = e.message; path = append_escaped [] segment ++ e.path }

unfoldable pub with_child : List ℕ → PathError → PathError
with_child segment e = record { message = e.message; path = append_escaped e.path segment }
