-- ===== src/Param/Schema.antt =====
-- ParamsToJSONSchema of param.go. A key of a property that may be missing is an optional field.
pub mod Required
use rediver_sdk_go.Prelude.{
  ◌≡◌, refl, ◌⊎◌, inl, inr, Bool, true, false, ◌||◌, ◌&&◌, Bool-cases, Option, none, some, is_some,
  List, [], ◌∷◌, ◌++◌, append_assoc, String, All, All-append, arith, eq_iff, if◌then◌else◌, str_eq,
  is_empty, non_empty,
}
use rediver_sdk_go.Param.Value.{Value, nil}
use rediver_sdk_go.Param.Access.{is_nil}
use rediver_sdk_go.Param.Builder.{
  ParamType, unspecified, string, number, boolean, array, type_text, Param,
}

-- `m[k] = v` on a map kept as an association list, and its lookup.
module _ {ℓ} {V : Type ℓ} where
  unfoldable pub insert : String → V → List (String × V) → List (String × V)
  insert k v [] = (k, v) ∷ []
  insert k v ((j, w) ∷ m) = if str_eq j k then (k, v) ∷ m else (j, w) ∷ insert k v m

  unfoldable pub lookup : String → List (String × V) → Option V
  lookup k [] = none
  lookup k ((j, v) ∷ m) = if str_eq j k then some v else lookup k m

  pub lookup-insert :
      (k j : String) (v : V) (m : List (String × V))
      → lookup j (insert k v m) ≡ (if str_eq k j then some v else lookup j m)
  unfolding insert lookup
  lookup-insert k j v [] = refl
  lookup-insert k j v ((i, w) ∷ m) =
      ground (arith, eq_iff k j, eq_iff i k, eq_iff i j, lookup-insert k j v m)

pub record Property (F O : Type 0) : Type 0 where
  pub type : String
  pub title : Option String
  pub description : Option String
  pub default : Option (Value F O)
  pub enum : Option (List String)
  pub items : Option String  -- the "type" of the nested object

pub record Schema (F O : Type 0) : Type 0 where
  pub type : String
  pub properties : List (String × Property F O)
  pub additional_properties : Bool
  pub required : Option (List String)

abbrev is_array : ParamType → Bool
is_array array = true
is_array _ = false

abbrev pub when_non_nil {ℓ} : {A : Type ℓ} → List A → Option (List A)
when_non_nil [] = none
when_non_nil (x ∷ xs) = some (x ∷ xs)

module _ {F O : Type 0} where
  -- The body of the loop: the property of one parameter.
  unfoldable pub property : Param F O → Property F O
  unfolding type_text
  property p = record {
    type = type_text p.param_type;
    title = if non_empty p.label then some p.label else none;
    description = if non_empty p.description then some p.description else none;
    default = if is_nil p.default_val then none else some p.default_val;
    enum = when_non_nil p.enum_values;
    items =
        if is_array p.param_type && non_empty (type_text p.array_type)
        then some (type_text p.array_type)
        else none;
  }

  -- The loop, with the maps that it fills.
  unfoldable pub fill :
      List (Param F O)
      → List (String × Property F O)
      → List String
      → List (String × Property F O) × List String
  unfolding insert
  fill [] properties required = (properties, required)
  fill (p ∷ ps) properties required =
      fill ps (insert p.name (property p) properties)
        (if p.required then required ++ p.name ∷ [] else required)

  -- `none` is the nil map that is returned where there are no parameters.
  unfoldable pub params_to_json_schema : List (Param F O) → Option (Schema F O)
  params_to_json_schema [] = none
  params_to_json_schema (p ∷ ps) =
      let (properties, required) = fill (p ∷ ps) [] [] in
      some (record {
        type = "object";
        properties = properties;
        additional_properties = false;
        required = when_non_nil required;
      })
