-- ===== src/Json/WriteCalls.antt =====
-- The calls of include/reflgen/json/writer.h one by one, inside any open containers.
use reflgen_cpp.Common.{
  ℕ, suc, ◌<◌, ◌≡◌, refl, Bool, true, false, List, [], ◌∷◌, ◌++◌, append_assoc, append-nil, length,
  leb, ◌==◌, if◌then◌else◌, arith, Bool-cases, inl, inr,
}
use reflgen_cpp.Common.Outcome.{ok}
use reflgen_cpp.Serial.Utf.{validate_utf8}
use reflgen_cpp.Serial.Utf.Encoding.{utf8}
use reflgen_cpp.Serial.Utf.Strings.{flat, validate_loop-flat}
use reflgen_cpp.Json.Base64.{codes, base64_encode}
use reflgen_cpp.Json.Decimal.{to_chars_int, to_chars_uint}
use reflgen_cpp.Json.Quoting.{quoted}
use reflgen_cpp.Json.Encoding.{
  line, comma_text, colon_text, last_line, has_items, floating_text, IsText,
}
use reflgen_cpp.Json.Writer.{
  Writer, Frame, Floating, begin_value, check_depth, close, newline, separate, push_frame,
  top_is_inline, append_quoted, write_null, write_bool, write_int, write_uint, append_floating,
  write_string, write_bytes, begin_array, begin_object, end_array, end_object, write_key,
}

-- The writer with more output and other containers open.
abbrev pub with : Writer → List ℕ → List Frame → Writer
with w bs st = record w { output = w.output ++ bs; stack = st }

-- A value is due: `begin_value` passes.
abbrev Due : Writer → Writer → Type 0
Due w t = begin_value w ≡ ok (tt, t)

abbrev pub frame : Bool → Bool → Bool → Frame
frame is_object has_items awaiting_value = record {
  is_object = is_object;
  has_items = has_items;
  awaiting_value = awaiting_value;
  is_inline = false;
}

abbrev pub opened : Writer → List ℕ → Frame → List Frame → Writer
opened w bs f outer = with w bs (f ∷ outer)

-- What the two states of a value that is due share.
pub record Ready (w t : Writer) : Type 0 where
  pub due : Due w t
  pub same_indent : t.indent ≡ w.indent
  pub same_depth : t.max_depth ≡ w.max_depth
  pub same_length : length t.stack ≡ length w.stack
  pub no_hint : t.inline_next ≡ false
  pub plain : top_is_inline t.stack ≡ false

pub append_quoted-append :
    (s : List ℕ) (w : Writer)
    → IsText s
    → append_quoted s w ≡ ok (tt, record w { output = w.output ++ quoted s })
unfolding append_quoted validate_utf8
append_quoted-append s w (cs, h, e) =
    rw (e, validate_loop-flat cs (length (flat utf8 cs)) h (omega arith))

module _ (w t : Writer) (r : Ready w t) where
  pub write_null-Ready : write_null w ≡ ok (tt, with t (codes "null") t.stack)
  unfolding write_null
  write_null-Ready = rw r.due

  pub write_bool-Ready :
      (b : Bool)
      → write_bool b w ≡ ok (tt, with t (if b then codes "true" else codes "false") t.stack)
  unfolding write_bool
  write_bool-Ready b = rw r.due

  pub write_int-Ready : (n : ℕ) → write_int n w ≡ ok (tt, with t (to_chars_int n) t.stack)
  unfolding write_int
  write_int-Ready n = rw r.due

  pub write_uint-Ready : (n : ℕ) → write_uint n w ≡ ok (tt, with t (to_chars_uint n) t.stack)
  unfolding write_uint
  write_uint-Ready n = rw r.due

  pub append_floating-Ready :
      (type : Floating) (n : ℕ)
      → type.is_finite n ≡ true
      → append_floating type n w ≡ ok (tt, with t (floating_text type n) t.stack)
  unfolding append_floating
  append_floating-Ready type n h = rw (h, r.due, append_assoc)

  pub write_string-Ready :
      (s : List ℕ) → IsText s → write_string s w ≡ ok (tt, with t (quoted s) t.stack)
  unfolding write_string
  write_string-Ready s h = rw (r.due, append_quoted-append s t h)

  pub write_bytes-Ready :
      (s : List ℕ)
      → write_bytes s w ≡ ok (tt, with t (b'"' ∷ (base64_encode s ++ b'"' ∷ [])) t.stack)
  unfolding write_bytes
  write_bytes-Ready s = rw r.due

  room : length w.stack < w.max_depth → leb w.max_depth (length w.stack) ≡ false
  room h = ground arith

  pub begin_array-Ready :
      (n : ℕ)
      → length w.stack < w.max_depth
      → begin_array n w ≡ ok (tt, opened t (b'[' ∷ []) (frame false false false) t.stack)
  unfolding begin_array check_depth push_frame
  begin_array-Ready n deep = rw (room deep, r.due, r.plain, r.no_hint)

  pub begin_object-Ready :
      (n : ℕ)
      → length w.stack < w.max_depth
      → begin_object n w ≡ ok (tt, opened t (b'{' ∷ []) (frame true false false) t.stack)
  unfolding begin_object check_depth push_frame
  begin_object-Ready n deep = rw (room deep, r.due, r.plain, r.no_hint)

module _ (w : Writer) (bs : List ℕ) (outer : List Frame) where
  -- The line that a value, a key or a bracket begins with.
  abbrev pub gap : Bool → List ℕ
  gap behind = comma_text behind ++ line w.indent (suc (length outer))

  separate-opened :
      (is_object behind awaiting_value : Bool)
      → let f = frame is_object behind awaiting_value in
        separate f (opened w bs f outer) ≡ ok (tt, opened w (bs ++ gap behind) f outer)
  unfolding separate newline
  separate-opened is_object true awaiting_value = elim (Bool-cases (w.indent == 0)) [
    | inl e ↦ rw (e, append_assoc)
    | inr e ↦ rw (e, append_assoc, append_assoc)
  ]
  separate-opened is_object false awaiting_value = elim (Bool-cases (w.indent == 0)) [
    | inl e ↦ rw (e, append-nil)
    | inr e ↦ rw (e, append_assoc)
  ]

  pub end_array-opened :
      (behind : Bool)
      → end_array (opened w bs (frame false behind false) outer)
        ≡ ok (tt, with w (bs ++ (last_line w.indent (length outer) behind ++ b']' ∷ [])) outer)
  unfolding end_array close newline
  end_array-opened true = elim (Bool-cases (w.indent == 0)) [
    | inl e ↦ rw (e, append_assoc)
    | inr e ↦ rw (e, append_assoc, append_assoc)
  ]
  end_array-opened false = rw append_assoc

  pub end_object-opened :
      (behind : Bool)
      → end_object (opened w bs (frame true behind false) outer)
        ≡ ok (tt, with w (bs ++ (last_line w.indent (length outer) behind ++ b'}' ∷ [])) outer)
  unfolding end_object close newline
  end_object-opened true = elim (Bool-cases (w.indent == 0)) [
    | inl e ↦ rw (e, append_assoc)
    | inr e ↦ rw (e, append_assoc, append_assoc)
  ]
  end_object-opened false = rw append_assoc

  pub Ready-item :
      (behind : Bool)
      → w.inline_next ≡ false
      → Ready
          (opened w bs (frame false behind false) outer)
          (opened w (bs ++ gap behind) (frame false true false) outer)
  unfolding begin_value
  Ready-item behind h = record {
    due = rw (separate-opened false behind false);
    same_indent = refl;
    same_depth = refl;
    same_length = refl;
    no_hint = h;
    plain = refl;
  }

  pub Ready-entry :
      (behind : Bool)
      → w.inline_next ≡ false
      → Ready
          (opened w bs (frame true behind true) outer)
          (opened w bs (frame true behind false) outer)
  unfolding begin_value
  Ready-entry behind h = record {
    due = refl;
    same_indent = refl;
    same_depth = refl;
    same_length = refl;
    no_hint = h;
    plain = refl;
  }

  -- A key with what comes before it and its colon.
  abbrev pub key_text : Bool → List ℕ → List ℕ
  key_text behind k = gap behind ++ (quoted k ++ colon_text w.indent)

  pub write_key-opened :
      (behind : Bool) (k : List ℕ)
      → IsText k
      → write_key k (opened w bs (frame true behind false) outer)
        ≡ ok (tt, opened w (bs ++ key_text behind k) (frame true true true) outer)
  unfolding write_key
  write_key-opened behind k h =
      rw
        (
          separate-opened true behind false,
          append_quoted-append k (opened w (bs ++ gap behind) (frame true behind false) outer) h,
        )
        (simp append_assoc)

  pub more_output :
      (cs : List ℕ) (st st' : List Frame) → with (with w bs st) cs st' ≡ with w (bs ++ cs) st'
  more_output cs st st' = rw append_assoc
