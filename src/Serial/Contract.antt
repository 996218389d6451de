-- ===== src/Serial/Contract.antt =====
-- The order of calls that include/reflgen/serial/writer.h and include/reflgen/serial/reader.h prescribe
-- to a producer and to a consumer of one value.
use reflgen_cpp.Common.{ℕ, List, Bool, true, false, Option, none, some}
use reflgen_cpp.Common.Outcome.{M, throw, pure, ◌>>=◌, ◌>>◌}
use reflgen_cpp.Serial.Calls.{WriterCalls, ReaderCalls}
use reflgen_cpp.Serial.Value.{
  Value, Items, Fields, Shape, Shapes, null, boolean, signed, unsigned, floating, string, bytes,
  array, object, no_items, item, no_fields, field, no_shapes, shape, count_items, count_fields,
}

module _ {S : Type 0} (out : WriterCalls S) where
  -- begin_array(n), n values, end_array(); begin_object(n), n times a key and its value, end_object().
  unfoldable mutual
    pub write_value : Value → M S (Unit {0})
    write_value null = out.write_null
    write_value (boolean b) = out.write_bool b
    write_value (signed n) = out.write_int n
    write_value (unsigned n) = out.write_uint n
    write_value (floating n) = out.write_float n
    write_value (string s) = out.write_string s
    write_value (bytes s) = out.write_bytes s
    write_value (array xs) = do out.begin_array (count_items xs); write_items xs; out.end_array
    write_value (object fs) = do out.begin_object (count_fields fs); write_fields fs; out.end_object

    pub write_items : Items → M S (Unit {0})
    write_items no_items = pure tt
    write_items (item x xs) = do write_value x; write_items xs

    pub write_fields : Fields → M S (Unit {0})
    write_fields no_fields = pure tt
    write_fields (field k x fs) = do out.write_key k; write_value x; write_fields fs

module _ {S : Type 0} where
  -- The end of a container is where `next_*` says so, and it has to be where the shape ends.
  abbrev pub end_of_items : Bool → M S Items
  end_of_items false = pure no_items
  end_of_items true = λ s. throw "too many elements"

  abbrev pub next_item : M S Value → M S Items → Bool → M S Items
  next_item first more true = do x ← first; xs ← more; pure (item x xs)
  next_item first more false = λ s. throw "too few elements"

  abbrev pub end_of_fields : {A : Type 0} → Option A → M S Fields
  end_of_fields none = pure no_fields
  end_of_fields (some _) = λ s. throw "too many entries"

  abbrev pub next_field : M S Value → M S Fields → Option (List ℕ) → M S Fields
  next_field first more (some k) = do x ← first; fs ← more; pure (field k x fs)
  next_field first more none = λ s. throw "too few entries"

module _ {S : Type 0} (in' : ReaderCalls S) where
  unfoldable mutual
    pub read_value : Shape → M S Value
    read_value Shape.null = do in'.read_null; pure null
    read_value Shape.boolean = do b ← in'.read_bool; pure (boolean b)
    read_value Shape.signed = do n ← in'.read_int; pure (signed n)
    read_value Shape.unsigned = do n ← in'.read_uint; pure (unsigned n)
    read_value Shape.floating = do n ← in'.read_float; pure (floating n)
    read_value Shape.string = do s ← in'.read_string; pure (string s)
    read_value Shape.bytes = do s ← in'.read_bytes; pure (bytes s)
    read_value (Shape.array ss) = do
      in'.begin_array
      xs ← read_items ss
      in'.end_array
      pure (array xs)
    read_value (Shape.object ss) = do
      in'.begin_object
      fs ← read_fields ss
      in'.end_object
      pure (object fs)

    pub read_items : Shapes → M S Items
    read_items no_shapes = do more ← in'.next_element; end_of_items more
    read_items (shape x ss) = do
      more ← in'.next_element
      next_item (read_value x) (read_items ss) more

    pub read_fields : Shapes → M S Fields
    read_fields no_shapes = do key ← in'.next_key; end_of_fields key
    read_fields (shape x ss) = do key ← in'.next_key; next_field (read_value x) (read_fields ss) key
