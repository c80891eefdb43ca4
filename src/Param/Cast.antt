-- ===== src/Param/Cast.antt =====
-- The conversions of param.go: toString, toInt, toBool, toStrings, toInts, toInt64, toFloat64.
use rediver_sdk_go.Prelude.{
  Bool, not, Option, none, some, List, [], ◌∷◌, String, ℤ, pos, is_zero, is_empty, if◌then◌else◌,
}
use rediver_sdk_go.Strconv.{format_int, format_bool, atoi, parse_bool, split_at, trim_space}
use rediver_sdk_go.Param.Value.{
  Floats, Value, nil, str, bytes, integer, float, boolean, json_number, strings, ints, slice, Items,
  end, item,
}

-- `if x, err := f(); err == nil { return x }`, then the code below the switch.
abbrev pub or_else {ℓ} : {A : Type ℓ} → Option A → A → A
or_else none d = d
or_else (some a) d = a

module _ {F O : Type 0} where
  unfoldable pub to_int64 : Value F O → ℤ
  to_int64 (integer k i) = i
  to_int64 _ = pos 0

module _ {F O : Type 0} (fl : Floats F) where
  -- The value of a float case; `toFloat64` is called on floats only.
  unfoldable pub to_string : Value F O → String → String
  unfolding to_int64
  to_string (str s) fallback = s
  to_string (bytes s) fallback = s
  to_string (integer k i) fallback = let v : Value F O = integer k i in format_int (to_int64 v)
  to_string (float k x) fallback = fl.format x
  to_string (boolean b) fallback = format_bool b
  to_string (json_number s) fallback = s
  to_string _ fallback = fallback

  unfoldable pub to_int : Value F O → ℤ → ℤ
  to_int (integer k i) fallback = i
  to_int (float k x) fallback = fl.to_int x
  to_int (str s) fallback = or_else (atoi s) fallback
  to_int (json_number s) fallback = or_else (atoi s) fallback
  to_int _ fallback = fallback

  unfoldable pub to_bool : Value F O → Bool → Bool
  unfolding to_int64
  to_bool (boolean b) fallback = b
  to_bool (str s) fallback = or_else (parse_bool s) fallback
  to_bool (integer k i) fallback = let v : Value F O = integer k i in not (is_zero (to_int64 v))
  to_bool (float k x) fallback = fl.non_zero x
  to_bool (json_number s) fallback = elim (atoi s) [ some i ↦ not (is_zero i) | none ↦ fallback ]
  to_bool _ fallback = fallback

  -- The loop of `toStrings` over `[]any`: nil items are left out.
  unfoldable pub item_strings : Items F O → List String
  unfolding to_string
  item_strings end = []
  item_strings (item nil rest) = item_strings rest
  item_strings (item v rest) = to_string v "" ∷ item_strings rest

  -- The loop of `toInts` over `[]any`.
  unfoldable pub item_ints : Items F O → List ℤ
  unfolding to_int
  item_ints end = []
  item_ints (item v rest) = to_int v (pos 0) ∷ item_ints rest

-- The loop of `toStrings` over the parts of a text: trimmed, and kept if not empty.
unfoldable pub trimmed_parts : List String → List String
trimmed_parts [] = []
trimmed_parts (part ∷ parts) =
    let s = trim_space part in
    let rest = trimmed_parts parts in if is_empty s then rest else s ∷ rest

-- The loop of `toInts` over the parts of a text: those that are integers.
unfoldable pub integer_parts : List String → List ℤ
integer_parts [] = []
integer_parts (part ∷ parts) = elim (atoi (trim_space part)) [
  | some i ↦ i ∷ integer_parts parts
  | none ↦ integer_parts parts
]

module _ {F O : Type 0} (fl : Floats F) where
  -- The fallback is a slice, which may be nil; the other results are not.
  unfoldable pub to_strings : Value F O → Option (List String) → Option (List String)
  unfolding item_strings trimmed_parts
  to_strings (strings xs) fallback = xs
  to_strings (slice xs) fallback = some (item_strings fl xs)
  to_strings (str s) fallback = some (trimmed_parts (split_at b',' s))
  to_strings _ fallback = fallback

  unfoldable pub to_ints : Value F O → Option (List ℤ) → Option (List ℤ)
  unfolding item_ints integer_parts
  to_ints (ints xs) fallback = xs
  to_ints (slice xs) fallback = some (item_ints fl xs)
  to_ints (str s) fallback = some (integer_parts (split_at b',' s))
  to_ints _ fallback = fallback
