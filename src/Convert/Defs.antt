-- ===== src/Convert/Defs.antt =====
-- nilIfEmpty and the pointer helpers of convert.go, and the tests `if s != ""` and `if i != 0` that
-- guard its optional fields.
use rediver_sdk_go.Prelude.{
  Bool, not, String, Slice, Option, none, some, [], ◌∷◌, ℤ, is_zero, to_int32, is_empty,
  if◌then◌else◌,
}

-- `nilIfEmpty`
unfoldable pub nil_if_empty {ℓ} : {A : Type ℓ} → Slice A → Slice A
nil_if_empty none = none
nil_if_empty (some []) = none
nil_if_empty (some (x ∷ xs)) = some (x ∷ xs)

-- `ptrOrNil`, and `if s != "" { m.X = &s }`.
unfoldable pub ptr_or_nil : String → Option String
ptr_or_nil s = if is_empty s then none else some s

-- `ptrSliceOrNil`
unfoldable pub ptr_slice_or_nil : Slice String → Option (Slice String)
ptr_slice_or_nil none = none
ptr_slice_or_nil (some []) = none
ptr_slice_or_nil (some (x ∷ xs)) = some (some (x ∷ xs))

-- `ptrInt32OrNil`, and `if i != 0 { v := int32(i); m.X = &v }`.
unfoldable pub ptr_int32_or_nil : ℤ → Option ℤ
ptr_int32_or_nil i = if is_zero i then none else some (to_int32 i)

-- `ptrFloat32OrNil`, and `if f != 0 { m.X = &f }`, with the test of a float32 against 0.
unfoldable pub ptr_float32_or_nil : {G : Type 0} → (G → Bool) → G → Option G
ptr_float32_or_nil is_zero_float f = if is_zero_float f then none else some f

-- `ptrBoolOrNil`, and `if b { m.X = &b }`.
unfoldable pub ptr_bool_or_nil : Bool → Option Bool
ptr_bool_or_nil b = if not b then none else some b

-- `parseRFC3339` and `ptrTimeOrNil`; `parse` is `time.Parse(time.RFC3339, s)`.
unfoldable pub parse_rfc3339 : {T : Type 0} → (String → Option T) → String → Option T
parse_rfc3339 parse s = if is_empty s then none else parse s

-- `if p != nil { m.X = f(p) }`
abbrev pub when_set {ℓ κ} : {A : Type ℓ} {B : Type κ} → (A → B) → Option A → Option B
when_set f none = none
when_set f (some a) = some (f a)
