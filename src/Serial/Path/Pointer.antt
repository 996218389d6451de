-- ===== src/Serial/Path/Pointer.antt =====
-- The paths of include/reflgen/serial/error.h read as JSON Pointers (RFC 6901).
use reflgen_cpp.Common.{
  sym, ℕ, zero, suc, ◌/◌, ◌%◌, ltb, ◌+◌, ◌≡◌, refl, ◌∙◌, ap, false, List, [], ◌∷◌, ◌++◌,
  append_assoc, append-nil, ◌==◌, if◌then◌else◌, All, arith, Bool-cases, inl, inr,
}
use reflgen_cpp.Json.Decimal.{digits_from, to_chars_uint}
use reflgen_cpp.Serial.Path.{
  PathSegment, escaped, append_escaped, append_segment, append_segments, current_path, error_at,
  with_parent, with_child,
}

-- The reference tokens of a JSON Pointer (RFC 6901): what stands behind each slash, with ~1 and ~0
-- taken for a slash and a tilde.
unfoldable pub split : List ℕ → List ℕ × List (List ℕ)
split [] = ([], [])
split (c ∷ cs) =
    let (token, tokens) = split cs in
    if c == b'/' then ([], token ∷ tokens) else (c ∷ token, tokens)

unfoldable mutual
  pub unescape : List ℕ → List ℕ
  unescape [] = []
  unescape (c ∷ cs) =
      let later = unescape cs in
      let escape = unescape_tilde cs in if c == b'~' then escape else c ∷ later

  -- Behind a tilde.
  unescape_tilde : List ℕ → List ℕ
  unescape_tilde [] = b'~' ∷ []
  unescape_tilde (d ∷ cs) =
      let later = unescape cs in
      if d == b'0' then b'~' ∷ later else if d == b'1' then b'/' ∷ later else b'~' ∷ d ∷ later

abbrev unescape_all : List (List ℕ) → List (List ℕ)
unescape_all [] = []
unescape_all (t ∷ ts) = unescape t ∷ unescape_all ts

unfoldable pub reference_tokens : List ℕ → List (List ℕ)
reference_tokens path = let (_, tokens) = split path in unescape_all tokens

abbrev text_of : PathSegment → List ℕ
text_of segment = if segment.is_index then to_chars_uint segment.index else segment.key

abbrev pub texts : List PathSegment → List (List ℕ)
texts [] = []
texts (segment ∷ more) = text_of segment ∷ texts more

-- Neither a slash nor a tilde.
abbrev IsPlain : ℕ → Type 0
IsPlain c = ((c == b'/') ≡ false) × ((c == b'~') ≡ false)

escaped-split :
    (segment rest : List ℕ)
    → split (escaped segment ++ rest) ≡ (escaped segment ++ (split rest).0, (split rest).1)
unfolding split escaped
escaped-split [] rest = refl
escaped-split (c ∷ segment) rest = elim (Bool-cases (c == b'~')) [
  | inl e ↦ rw (e, escaped-split segment rest) refl
  | inr e ↦ elim (Bool-cases (c == b'/')) [
    | inl f ↦ rw (e, f, escaped-split segment rest) refl
    | inr f ↦ rw (e, f, escaped-split segment rest) (rw f refl)
  ]
]

unescape-escaped : (segment : List ℕ) → unescape (escaped segment) ≡ segment
unfolding unescape escaped
unescape-escaped [] = refl
unescape-escaped (c ∷ segment) = elim (Bool-cases (c == b'~')) [
  | inl e ↦
      rw (e, unescape-escaped segment)
        (let same : b'~' ≡ c = ground arith in ap (λ x. x ∷ segment) same)
  | inr e ↦ elim (Bool-cases (c == b'/')) [
    | inl f ↦
        rw (e, f, unescape-escaped segment)
          (let same : b'/' ≡ c = ground arith in ap (λ x. x ∷ segment) same)
    | inr f ↦ rw (e, f, e, unescape-escaped segment) refl
  ]
]

-- Text that has nothing to escape is its own escaped form.
escaped-IsPlain : (text : List ℕ) → All IsPlain text → escaped text ≡ text
unfolding escaped
escaped-IsPlain [] h = refl
escaped-IsPlain (c ∷ text) ((slash, tilde), hs) = rw (tilde, slash, escaped-IsPlain text hs) refl

digit-IsPlain : (n : ℕ) → IsPlain (b'0' + n % 10)
digit-IsPlain n = ground arith

digits_from-IsPlain :
    (fuel n : ℕ) (later : List ℕ) → All IsPlain later → All IsPlain (digits_from fuel n later)
digits_from-IsPlain zero n later h = h
digits_from-IsPlain (suc fuel) n later h = elim (Bool-cases (ltb n 10)) [
  | inl e ↦ rw e (digit-IsPlain n, h)
  | inr e ↦ rw e (digits_from-IsPlain fuel (n / 10) ((b'0' + n % 10) ∷ later) (digit-IsPlain n, h))
]

escaped-to_chars_uint : (n : ℕ) → escaped (to_chars_uint n) ≡ to_chars_uint n
unfolding to_chars_uint
escaped-to_chars_uint n = escaped-IsPlain (to_chars_uint n) (digits_from-IsPlain 20 n [] tt)

-- The path as a function of the texts of its segments.
abbrev pointer : List PathSegment → List ℕ
pointer [] = []
pointer (segment ∷ more) = b'/' ∷ (escaped (text_of segment) ++ pointer more)

append_segment-pointer :
    (result : List ℕ) (segment : PathSegment)
    → append_segment result segment ≡ result ++ b'/' ∷ escaped (text_of segment)
unfolding append_segment append_escaped
append_segment-pointer result segment = elim (Bool-cases segment.is_index) [
  | inl e ↦ rw (e, escaped-to_chars_uint segment.index) refl
  | inr e ↦ rw e refl
]

append_segments-pointer :
    (result : List ℕ) (segments : List PathSegment)
    → append_segments result segments ≡ result ++ pointer segments
append_segments-pointer result [] = rw append-nil refl
append_segments-pointer result (segment ∷ more) =
    append_segments-pointer (append_segment result segment) more
    ∙ rw (append_segment-pointer result segment, append_assoc) refl

abbrev escaped_texts : List PathSegment → List (List ℕ)
escaped_texts [] = []
escaped_texts (segment ∷ more) = escaped (text_of segment) ∷ escaped_texts more

split-pointer :
    (segments : List PathSegment) → split (pointer segments) ≡ ([], escaped_texts segments)
unfolding split
split-pointer [] = refl
split-pointer (segment ∷ more) =
    rw (escaped-split (text_of segment) (pointer more), split-pointer more, append-nil) refl

unescape_all-escaped :
    (segments : List PathSegment) → unescape_all (escaped_texts segments) ≡ texts segments
unescape_all-escaped [] = refl
unescape_all-escaped (segment ∷ more) =
    rw (unescape-escaped (text_of segment), unescape_all-escaped more) refl

-- The path of an error is a JSON Pointer whose reference tokens are the keys and the indices, in decimal,
-- of the segments in their order, whatever characters the keys have.
pub reference_tokens-current_path :
    (segments : List PathSegment) → reference_tokens (current_path segments) ≡ texts segments
unfolding reference_tokens current_path
reference_tokens-current_path segments =
    rw (append_segments-pointer [] segments, split-pointer segments) (unescape_all-escaped segments)

abbrev pub key_segment : List ℕ → PathSegment
key_segment key = record { key = key; index = 0; is_index = false }

append_segments-append :
    (result : List ℕ) (segments : List PathSegment) (last : PathSegment)
    → append_segments result (segments ++ last ∷ [])
      ≡ append_segment (append_segments result segments) last
append_segments-append result [] last = refl
append_segments-append result (segment ∷ more) last =
    append_segments-append (append_segment result segment) more last

-- `with_parent` makes the error one that was raised with the key in front of the path, and `with_child`
-- one that was raised with the key behind it; the message stays.
pub error_at-with_segment :
    (message key : List ℕ) (segments : List PathSegment)
    → (with_parent key (error_at message segments) ≡ error_at message (key_segment key ∷ segments))
      × (with_child key (error_at message segments)
          ≡ error_at message (segments ++ key_segment key ∷ []))
unfolding with_parent with_child error_at current_path append_escaped
error_at-with_segment message key segments = (
  ap (λ p. record { message = message; path = p }) parent,
  ap (λ p. record { message = message; path = p }) child,
)
  where
    parent :
        (b'/' ∷ escaped key) ++ append_segments [] segments
        ≡ append_segments [] (key_segment key ∷ segments)
    parent =
        rw (append_segments-pointer [] segments)
          (sym (append_segments-pointer [] (key_segment key ∷ segments)))

    child :
        append_segments [] segments ++ b'/' ∷ escaped key
        ≡ append_segments [] (segments ++ key_segment key ∷ [])
    child = sym (
        append_segments-append [] segments (key_segment key)
        ∙ append_segment-pointer (append_segments [] segments) (key_segment key))
