-- ===== src/Param/Access.antt =====
-- paramValue of param.go: the accessors with and without a fallback.
use rediver_sdk_go.Prelude.{
  Bool, true, false, not, ◌||◌, Option, none, List, String, ℤ, pos, if◌then◌else◌,
}
use rediver_sdk_go.Param.Value.{Floats, Value, nil}
use rediver_sdk_go.Param.Cast.{to_string, to_int, to_bool, to_strings, to_ints}

pub record ParamValue (F O : Type 0) : Type 0 where
  pub value : Value F O
  pub set : Bool

-- `&paramValue{}`
unfoldable pub unset : {F O : Type 0} → ParamValue F O
unset = record { value = nil; set = false }

-- `v == nil`
abbrev pub is_nil : {F O : Type 0} → Value F O → Bool
is_nil nil = true
is_nil _ = false

-- `!p.set || p.value == nil`: the guard of every accessor.
abbrev pub is_absent : {F O : Type 0} → ParamValue F O → Bool
is_absent p = not p.set || is_nil p.value

unfoldable pub is_set : {F O : Type 0} → ParamValue F O → Bool
is_set p = p.set

module _ {F O : Type 0} (fl : Floats F) where
  unfoldable pub string_or : ParamValue F O → String → String
  string_or p fallback = if is_absent p then fallback else to_string fl p.value fallback

  unfoldable pub string : ParamValue F O → String
  unfolding string_or
  string p = string_or p ""

  unfoldable pub int_or : ParamValue F O → ℤ → ℤ
  int_or p fallback = if is_absent p then fallback else to_int fl p.value fallback

  unfoldable pub int : ParamValue F O → ℤ
  unfolding int_or
  int p = int_or p (pos 0)

  unfoldable pub bool_or : ParamValue F O → Bool → Bool
  bool_or p fallback = if is_absent p then fallback else to_bool fl p.value fallback

  unfoldable pub bool : ParamValue F O → Bool
  unfolding bool_or
  bool p = bool_or p false

  unfoldable pub strings_or : ParamValue F O → Option (List String) → Option (List String)
  strings_or p fallback = if is_absent p then fallback else to_strings fl p.value fallback

  unfoldable pub strings : ParamValue F O → Option (List String)
  unfolding strings_or
  strings p = strings_or p none

  unfoldable pub ints_or : ParamValue F O → Option (List ℤ) → Option (List ℤ)
  ints_or p fallback = if is_absent p then fallback else to_ints fl p.value fallback

  unfoldable pub ints : ParamValue F O → Option (List ℤ)
  unfolding ints_or
  ints p = ints_or p none
