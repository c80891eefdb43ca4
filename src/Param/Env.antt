-- ===== src/Param/Env.antt =====
-- resolveParamsFromEnv of agent_execute.go: parameters from environment variables, CI values and
-- defaults.
pub mod Priority
use rediver_sdk_go.Prelude.{Option, none, some, List, [], ◌∷◌, String, is_empty, if◌then◌else◌}
use rediver_sdk_go.Param.Value.{Value, str}
use rediver_sdk_go.Param.Access.{is_nil}
use rediver_sdk_go.Param.Builder.{Param}
use rediver_sdk_go.Param.Schema.{insert, lookup}

module _ {F O : Type 0} (environment : String → Option String) where
  -- What one round of the loop finds: `os.LookupEnv`, then the CI values (a nil map has none), then
  -- the default; `none` where nothing is written.
  unfoldable pub default_value : Param F O → Option (Value F O)
  default_value p = if is_nil p.default_val then none else some p.default_val

  unfoldable pub ci_or_default : Param F O → List (String × Value F O) → Option (Value F O)
  unfolding default_value lookup
  ci_or_default p ci = elim (lookup p.name ci) [ some v ↦ some v | none ↦ default_value p ]

  unfoldable pub resolve_one : Param F O → List (String × Value F O) → Option (Value F O)
  unfolding ci_or_default
  resolve_one p ci =
      if is_empty p.env_var
      then ci_or_default p ci
      else elim (environment p.env_var) [ some s ↦ some (str s) | none ↦ ci_or_default p ci ]

  abbrev pub write :
      String → Option (Value F O) → List (String × Value F O) → List (String × Value F O)
  write name none resolved = resolved
  write name (some v) resolved = insert name v resolved

  unfoldable pub resolve_from :
      List (Param F O)
      → List (String × Value F O)
      → List (String × Value F O)
      → List (String × Value F O)
  unfolding insert
  resolve_from [] ci resolved = resolved
  resolve_from (p ∷ ps) ci resolved = resolve_from ps ci (write p.name (resolve_one p ci) resolved)

  unfoldable pub resolve_params_from_env :
      List (Param F O) → List (String × Value F O) → List (String × Value F O)
  unfolding resolve_from
  resolve_params_from_env ps ci = resolve_from ps ci []
