-- ===== src/Scanner.antt =====
-- scanner.go: scanners made by NewScanner, their options and accessors, and Scan.
pub mod Metadata
use rediver_sdk_go.Prelude.{
  Bool, true, false, String, Option, none, some, is_some, List, [], ◌∷◌, ◌++◌,
}
use rediver_sdk_go.Errors.{Error, nil}
use rediver_sdk_go.Result.{Result}
use rediver_sdk_go.Param.Value.{Value}
use rediver_sdk_go.Param.Builder.{Param}
use rediver_sdk_go.Job.Defs.{Job, JobType, job_type}

-- A handler: the results that it emits, in order, and its error. `emit` returns nothing, so a
-- handler learns nothing from it.
abbrev pub ScanFunc : (S F O G : Type 0) → Type 0
ScanFunc S F O G = Job F O → S → (List (Result G) × Error) × S

-- A TargetType is a text; a nil map is `none`.
pub record Scanner (S F O G : Type 0) : Type 0 where
  pub name : String
  pub display_name : String
  pub params : List (Param F O)
  pub params_schema : Option (List (String × Value F O))
  pub handler : ScanFunc S F O G
  pub retest_handler : Option (ScanFunc S F O G)
  pub asset_types : List String

pub data ScannerOption (S F O G : Type 0) : Type 0 where
  with_param : Param F O → ScannerOption S F O G
  with_params : List (Param F O) → ScannerOption S F O G
  with_raw_params_schema : Option (List (String × Value F O)) → ScannerOption S F O G
  with_display_name : String → ScannerOption S F O G
  with_retest_handler : Option (ScanFunc S F O G) → ScannerOption S F O G

module _ {S F O G : Type 0} where
  unfoldable pub apply_option : ScannerOption S F O G → Scanner S F O G → Scanner S F O G
  apply_option (with_param p) s = record s { params = s.params ++ p ∷ [] }
  apply_option (with_params ps) s = record s { params = ps }
  apply_option (with_raw_params_schema schema) s = record s { params_schema = schema }
  apply_option (with_display_name name) s = record s { display_name = name }
  apply_option (with_retest_handler handler) s = record s { retest_handler = handler }

  -- The loop of `NewScanner`.
  unfoldable pub apply_options : List (ScannerOption S F O G) → Scanner S F O G → Scanner S F O G
  unfolding apply_option
  apply_options [] s = s
  apply_options (o ∷ os) s = apply_options os (apply_option o s)

  unfoldable pub new_scanner :
      String → List String → ScanFunc S F O G → List (ScannerOption S F O G) → Scanner S F O G
  unfolding apply_options
  new_scanner name asset_types handler os = apply_options os (record {
    name = name;
    display_name = "";
    params = [];
    params_schema = none;
    handler = handler;
    retest_handler = none;
    asset_types = asset_types;
  })

  unfoldable pub supports_retest : Scanner S F O G → Bool
  supports_retest s = is_some s.retest_handler

  -- `(*scanner).Scan`
  unfoldable pub scan : Scanner S F O G → ScanFunc S F O G
  unfolding job_type
  scan scanner j s = elim (job_type j) [
    | JobType.retest ↦ elim scanner.retest_handler [
      | some handler ↦ handler j s
      | none ↦ (([], nil), s)
    ]
    | _ ↦ scanner.handler j s
  ]
