-- ===== src/Serial/Value.antt =====
-- The data model that include/reflgen/serial/writer.h describes: null, booleans, signed and unsigned
-- integers, doubles, strings, byte sequences, arrays, and objects with their keys in order.
use reflgen_cpp.Common.{ℕ, suc, ◌^◌, ◌<◌, Bool, List, length}
use Prim.Native.Nat.{max}

mutual
  pub data Value : Type 0 where
    null : Value
    boolean : Bool → Value
    signed : ℕ → Value
    unsigned : ℕ → Value
    floating : ℕ → Value
    string : List ℕ → Value
    bytes : List ℕ → Value
    array : Items → Value
    object : Fields → Value

  pub data Items : Type 0 where
    no_items : Items
    item : Value → Items → Items

  pub data Fields : Type 0 where
    no_fields : Fields
    field : List ℕ → Value → Fields → Fields

-- What a consumer knows of a value before it reads it: the types. It finds the keys in the input.
mutual
  pub data Shape : Type 0 where
    null boolean signed unsigned floating string bytes : Shape
    array : Shapes → Shape
    object : Shapes → Shape

  pub data Shapes : Type 0 where
    no_shapes : Shapes
    shape : Shape → Shapes → Shapes

unfoldable mutual
  pub shape_of : Value → Shape
  shape_of null = Shape.null
  shape_of (boolean b) = Shape.boolean
  shape_of (signed n) = Shape.signed
  shape_of (unsigned n) = Shape.unsigned
  shape_of (floating n) = Shape.floating
  shape_of (string s) = Shape.string
  shape_of (bytes s) = Shape.bytes
  shape_of (array xs) = Shape.array (shapes_of_items xs)
  shape_of (object fs) = Shape.object (shapes_of_fields fs)

  pub shapes_of_items : Items → Shapes
  shapes_of_items no_items = no_shapes
  shapes_of_items (item x xs) = shape (shape_of x) (shapes_of_items xs)

  pub shapes_of_fields : Fields → Shapes
  shapes_of_fields no_fields = no_shapes
  shapes_of_fields (field k x fs) = shape (shape_of x) (shapes_of_fields fs)

abbrev pub count_items : Items → ℕ
count_items no_items = 0
count_items (item x xs) = suc (count_items xs)

abbrev pub count_fields : Fields → ℕ
count_fields no_fields = 0
count_fields (field k x fs) = suc (count_fields fs)

-- How many containers are open at once while the value is written.
unfoldable mutual
  pub depth : Value → ℕ
  depth (array xs) = suc (depth_items xs)
  depth (object fs) = suc (depth_fields fs)
  depth _ = 0

  pub depth_items : Items → ℕ
  depth_items no_items = 0
  depth_items (item x xs) = max (depth x) (depth_items xs)

  pub depth_fields : Fields → ℕ
  depth_fields no_fields = 0
  depth_fields (field k x fs) = max (depth x) (depth_fields fs)

-- Numbers, lengths and counts are those of 64-bit words.
unfoldable mutual
  pub IsSized : Value → Type 0
  IsSized null = Unit {0}
  IsSized (boolean b) = Unit {0}
  IsSized (signed n) = n < 2 ^ 64
  IsSized (unsigned n) = n < 2 ^ 64
  IsSized (floating n) = n < 2 ^ 64
  IsSized (string s) = length s < 2 ^ 64
  IsSized (bytes s) = length s < 2 ^ 64
  IsSized (array xs) = (count_items xs < 2 ^ 64) × AreItemsSized xs
  IsSized (object fs) = (count_fields fs < 2 ^ 64) × AreFieldsSized fs

  pub AreItemsSized : Items → Type 0
  AreItemsSized no_items = Unit {0}
  AreItemsSized (item x xs) = IsSized x × AreItemsSized xs

  pub AreFieldsSized : Fields → Type 0
  AreFieldsSized no_fields = Unit {0}
  AreFieldsSized (field k x fs) = (length k < 2 ^ 64) × IsSized x × AreFieldsSized fs
