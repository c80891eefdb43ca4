-- ===== src/Param/Builder.antt =====
-- Param and ParamBuilder of param.go. A builder method changes the builder's parameter and returns
-- the builder, so here it returns the changed parameter.
use rediver_sdk_go.Prelude.{Bool, true, false, List, [], String}
use rediver_sdk_go.Param.Value.{Value, nil}

pub data ParamType : Type 0 where
  unspecified string number boolean array : ParamType

-- The text of the type: `ParamType` is a string type, and "" where it is not set.
unfoldable pub type_text : ParamType → String
type_text unspecified = ""
type_text string = "string"
type_text number = "number"
type_text boolean = "boolean"
type_text array = "array"

pub record Param (F O : Type 0) : Type 0 where
  pub name : String
  pub param_type : ParamType
  pub array_type : ParamType
  pub label : String
  pub description : String
  pub required : Bool
  pub enum_values : List String
  pub default_val : Value F O
  pub env_var : String

module _ {F O : Type 0} where
  -- `Param{name: name, paramType: t, arrayType: u}`
  abbrev new : String → ParamType → ParamType → Param F O
  new name t u = record {
    name = name;
    param_type = t;
    array_type = u;
    label = "";
    description = "";
    required = false;
    enum_values = [];
    default_val = nil;
    env_var = "";
  }

  unfoldable pub string_param : String → Param F O
  string_param name = new name string unspecified

  unfoldable pub int_param : String → Param F O
  int_param name = new name number unspecified

  unfoldable pub bool_param : String → Param F O
  bool_param name = new name boolean unspecified

  unfoldable pub string_array_param : String → Param F O
  string_array_param name = new name array string

  unfoldable pub int_array_param : String → Param F O
  int_array_param name = new name array number

  unfoldable pub with_label : String → Param F O → Param F O
  with_label label p = record p { label = label }

  unfoldable pub with_description : String → Param F O → Param F O
  with_description desc p = record p { description = desc }

  unfoldable pub with_required : Param F O → Param F O
  with_required p = record p { required = true }

  unfoldable pub with_enum : List String → Param F O → Param F O
  with_enum values p = record p { enum_values = values }

  unfoldable pub with_default : Value F O → Param F O → Param F O
  with_default val p = record p { default_val = val }

  unfoldable pub with_env : String → Param F O → Param F O
  with_env env_var p = record p { env_var = env_var }
