-- ===== src/Param/Value.antt =====
-- The dynamic values (`any`) that param.go takes apart by type switches.
use rediver_sdk_go.Prelude.{Bool, Option, List, String, ℤ}

-- The signed integer types. Go's `int` is 64 bits wide here, as on the platforms that the SDK is
-- built for, so that every conversion among them to `int` or `int64` keeps the value.
pub data IntKind : Type 0 where
  int int8 int16 int32 int64 : IntKind

pub data FloatKind : Type 0 where
  float32 float64 : FloatKind

-- What the code uses of floating-point numbers. A float32 is a float64 too.
pub record Floats (F : Type 0) : Type 0 where
  pub to_int : F → ℤ  -- `int(val)`
  pub non_zero : F → Bool  -- `val != 0`
  pub format : F → String  -- `strconv.FormatFloat(val, 'f', -1, 64)`

-- `other` is a value of a type that no case of the switches names.
mutual
  pub data Value (F O : Type 0) : Type 0 where
    nil : Value F O
    str : String → Value F O
    bytes : String → Value F O
    integer : IntKind → ℤ → Value F O
    float : FloatKind → F → Value F O
    boolean : Bool → Value F O
    json_number : String → Value F O
    strings : Option (List String) → Value F O
    ints : Option (List ℤ) → Value F O
    slice : Items F O → Value F O
    other : O → Value F O

  -- `[]any`
  pub data Items (F O : Type 0) : Type 0 where
    end : Items F O
    item : Value F O → Items F O → Items F O
