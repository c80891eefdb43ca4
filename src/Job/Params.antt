-- ===== src/Job/Params.antt =====
-- The parameters of a job that newJob has made from the server's detail.
use rediver_sdk_go.Prelude.{
  ◌≡◌, refl, inl, inr, Bool, true, Bool-cases, String, Option, none, some, List, [], ◌∷◌, ℤ, str_eq,
}
use rediver_sdk_go.Param.Value.{Floats, other}
use rediver_sdk_go.Param.Access.{ParamValue, unset, string_or, int_or, bool_or, strings_or, ints_or}
use rediver_sdk_go.Param.Cast.{to_string, to_int, to_bool, to_strings, to_ints}
use rediver_sdk_go.Param.Schema.{lookup}
use rediver_sdk_go.Job.Message.{JobDetail}
use rediver_sdk_go.Job.Defs.{or_unset, param, copy_fields, new_job}

module _ {F O : Type 0} (fl : Floats F) where
  -- Every typed accessor returns its fallback.
  pub record OnlyFallbacks (p : ParamValue F O) : Type 0 where
    pub string : (s : String) → string_or fl p s ≡ s
    pub int : (i : ℤ) → int_or fl p i ≡ i
    pub bool : (b : Bool) → bool_or fl p b ≡ b
    pub strings : (xs : Option (List String)) → strings_or fl p xs ≡ xs
    pub ints : (is : Option (List ℤ)) → ints_or fl p is ≡ is

  unset-OnlyFallbacks : OnlyFallbacks unset
  unfolding unset string_or int_or bool_or strings_or ints_or
  unset-OnlyFallbacks = record {
    string = λ s. refl;
    int = λ i. refl;
    bool = λ b. refl;
    strings = λ xs. refl;
    ints = λ is. refl;
  }

  other-OnlyFallbacks : (v : O) → OnlyFallbacks (record { value = other v; set = true })
  unfolding string_or int_or bool_or strings_or ints_or to_string to_int to_bool to_strings to_ints
  other-OnlyFallbacks v = record {
    string = λ s. refl;
    int = λ i. refl;
    bool = λ b. refl;
    strings = λ xs. refl;
    ints = λ is. refl;
  }

  fields-OnlyFallbacks :
      (name : String) (fields : List (String × O))
      → OnlyFallbacks (or_unset (lookup name (copy_fields fields)))
  unfolding lookup or_unset copy_fields
  fields-OnlyFallbacks name [] = unset-OnlyFallbacks
  fields-OnlyFallbacks name ((k, v) ∷ fields) = elim (Bool-cases (str_eq k name)) [
    | inl same ↦ rw same (other-OnlyFallbacks v)
    | inr differs ↦ rw differs (fields-OnlyFallbacks name fields)
  ]

  resolved-OnlyFallbacks :
      (name : String) (fields : Option (List (String × O))) (d : JobDetail O)
      → d.params ≡ fields
      → OnlyFallbacks (param (new_job (some d)) name)
  unfolding param new_job unset
  resolved-OnlyFallbacks name none d e = simp e unset-OnlyFallbacks
  resolved-OnlyFallbacks name (some fields) d e = simp e (fields-OnlyFallbacks name fields)

  -- For every detail that the server sends and every parameter name, whether the detail holds the
  -- parameter or not, every typed accessor of the job's parameter returns the fallback that it is
  -- given.
  pub new_job-OnlyFallbacks :
      (d : JobDetail O) (name : String) → OnlyFallbacks (param (new_job (some d)) name)
  new_job-OnlyFallbacks d name = resolved-OnlyFallbacks name d.params d refl
