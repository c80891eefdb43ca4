-- ===== src/Param/Env/Priority.antt =====
-- Which source a parameter of resolveParamsFromEnv (agent_execute.go) is taken from.
use rediver_sdk_go.Prelude.{
  ◌≡◌, refl, ◌∙◌, arith, Option, none, some, List, [], ◌∷◌, String, if◌then◌else◌, str_eq, is_empty,
  ap,
}
use rediver_sdk_go.Param.Value.{Value, str}
use rediver_sdk_go.Param.Access.{is_nil}
use rediver_sdk_go.Param.Builder.{Param}
use rediver_sdk_go.Param.Schema.{lookup, lookup-insert}
use rediver_sdk_go.Param.Env.{
  default_value, ci_or_default, resolve_one, write, resolve_from, resolve_params_from_env,
}

-- The first value that a list of sources has.
abbrev pub first_of {ℓ} : {A : Type ℓ} → List (Option A) → Option A
first_of [] = none
first_of (none ∷ os) = first_of os
first_of (some a ∷ os) = some a

module _ {F O : Type 0} (environment : String → Option String) where
  -- The variable that the parameter names, as a text; a parameter without a name for it has none.
  abbrev pub from_environment : Param F O → Option (Value F O)
  from_environment p =
      if is_empty p.env_var
      then none
      else elim (environment p.env_var) [ some s ↦ some (str s) | none ↦ none ]

  abbrev pub declared_default : Param F O → Option (Value F O)
  declared_default p = if is_nil p.default_val then none else some p.default_val

  -- The sources of a parameter, the strongest first.
  abbrev pub sources : List (String × Value F O) → Param F O → List (Option (Value F O))
  sources ci p = from_environment p ∷ lookup p.name ci ∷ declared_default p ∷ []

  -- The value for a name: that of the last parameter with the name for which a source has one.
  abbrev pub last_found :
      List (String × Value F O)
      → String
      → List (Param F O)
      → Option (Value F O)
      → Option (Value F O)
  last_found ci n [] d = d
  last_found ci n (p ∷ ps) d =
      last_found ci n ps
        (if str_eq p.name n then first_of (first_of (sources ci p) ∷ d ∷ []) else d)

  ci_or_default-first_of :
      (p : Param F O) (ci : List (String × Value F O))
      → ci_or_default environment p ci ≡ first_of (lookup p.name ci ∷ declared_default p ∷ [])
  unfolding ci_or_default default_value
  ci_or_default-first_of p ci = ground arith

  resolve_one-first_of :
      (p : Param F O) (ci : List (String × Value F O))
      → resolve_one environment p ci ≡ first_of (sources ci p)
  unfolding resolve_one
  resolve_one-first_of p ci = ground (arith, ci_or_default-first_of p ci)

  lookup-write :
      (n k : String) (v : Option (Value F O)) (m : List (String × Value F O))
      → lookup n (write environment k v m)
        ≡ (if str_eq k n then first_of (v ∷ lookup n m ∷ []) else lookup n m)
  lookup-write n k none m = ground arith
  lookup-write n k (some v) m = lookup-insert k n v m

  lookup-resolve_from :
      (n : String) (ps : List (Param F O)) (ci m : List (String × Value F O))
      → lookup n (resolve_from environment ps ci m) ≡ last_found ci n ps (lookup n m)
  unfolding resolve_from
  lookup-resolve_from n [] ci m = refl
  lookup-resolve_from n (p ∷ ps) ci m =
      lookup-resolve_from n ps ci _
      ∙ ap (last_found ci n ps) (
          lookup-write n p.name (resolve_one environment p ci) m
          ∙ rw (resolve_one-first_of p ci) refl)

  -- The loop gives a name the value of the last parameter with the name for which some source has
  -- one, and no value where there is no such parameter. The sources of a parameter are, the
  -- strongest first, its environment variable, the CI values and its default.
  pub resolve_params_from_env-last_found :
      (ps : List (Param F O)) (ci : List (String × Value F O)) (n : String)
      → lookup n (resolve_params_from_env environment ps ci) ≡ last_found ci n ps none
  unfolding resolve_params_from_env lookup
  resolve_params_from_env-last_found ps ci n = lookup-resolve_from n ps ci []
