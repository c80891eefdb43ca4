-- ===== src/Job/Defs.antt =====
-- The job of job.go and its plain accessors, and newJob of job_factory.go. The callbacks of a job
-- (log, artifact download) are parameters of the code that calls them.
use rediver_sdk_go.Prelude.{
  true, String, Option, none, some, List, [], ◌∷◌, ℤ, pos, is_zero, if◌then◌else◌,
}
use rediver_sdk_go.Param.Value.{Value, other}
use rediver_sdk_go.Param.Access.{ParamValue, unset}
use rediver_sdk_go.Param.Schema.{lookup}
use rediver_sdk_go.Job.Message.{JobDetail}

pub data JobType : Type 0 where
  discovery retest unknown : JobType

-- `JobType.String`
unfoldable pub job_type_text : JobType → String
job_type_text discovery = "discovery"
job_type_text retest = "retest"
job_type_text unknown = "unknown"

pub record Job (F O : Type 0) : Type 0 where
  pub detail : Option (JobDetail O)
  pub params : Option (List (String × Value F O))
  pub execution_token : String
  pub repo_dir : String
  pub cloned_repo_dir : String
  pub resolved_base_sha : String
  pub resolved_head_sha : String

module _ {F O : Type 0} where
  unfoldable pub id : Job F O → String
  id j = elim j.detail [ none ↦ "" | some d ↦ d.id ]

  unfoldable pub job_type : Job F O → JobType
  job_type j = elim j.detail [ none ↦ discovery | some d ↦ if d.retest then retest else discovery ]

  unfoldable pub or_unset : Option (Value F O) → ParamValue F O
  unfolding unset
  or_unset none = unset
  or_unset (some v) = record { value = v; set = true }

  unfoldable pub param : Job F O → String → ParamValue F O
  unfolding or_unset unset lookup
  param j name = elim j.params [ none ↦ unset | some ps ↦ or_unset (lookup name ps) ]

  unfoldable pub scanner : Job F O → String
  scanner j = elim j.detail [ none ↦ "" | some d ↦ d.scanner ]

  unfoldable pub timeout_minutes : Job F O → ℤ
  timeout_minutes j = elim j.detail [ none ↦ pos 0 | some d ↦ d.timeout_minutes ]

  unfoldable pub version : Job F O → ℤ
  version j = elim j.detail [
    | none ↦ pos 1
    | some d ↦ if is_zero d.version then pos 1 else d.version
  ]

  unfoldable pub execution_token : Job F O → String
  execution_token j = j.execution_token

  -- `structValueToInterface`: the *structpb.Value itself, as an `any`.
  unfoldable pub struct_value_to_interface : O → Value F O
  struct_value_to_interface v = other v

  unfoldable pub copy_fields : List (String × O) → List (String × Value F O)
  unfolding struct_value_to_interface
  copy_fields [] = []
  copy_fields ((k, v) ∷ fields) = (k, struct_value_to_interface v) ∷ copy_fields fields

  -- `resolveParams`: the map is made only where the detail has parameters.
  unfoldable pub resolve_params : Option (JobDetail O) → Option (List (String × Value F O))
  unfolding copy_fields
  resolve_params none = none
  resolve_params (some d) = elim d.params [ none ↦ none | some fields ↦ some (copy_fields fields) ]

  unfoldable pub new_job : Option (JobDetail O) → Job F O
  unfolding resolve_params
  new_job detail = record {
    detail = detail;
    params = resolve_params detail;
    execution_token = "";
    repo_dir = "";
    cloned_repo_dir = "";
    resolved_base_sha = "";
    resolved_head_sha = "";
  }
