-- ===== src/Examples/Scanners.antt =====
-- A scanner with a parameter, its parameters read from an environment, and its job's logger.
use rediver_sdk_go.Prelude.{
  ◌≡◌, refl, true, String, ◌<>◌, Option, none, some, List, [], ◌∷◌, ℕ, ℤ, pos, String, str_eq,
  if◌then◌else◌,
}
use rediver_sdk_go.Errors.{nil}
use rediver_sdk_go.Param.Value.{Value, str}
use rediver_sdk_go.Param.Builder.{Param, string_param}
use rediver_sdk_go.Param.Schema.{lookup}
use rediver_sdk_go.Param.Env.{resolve_params_from_env}
use rediver_sdk_go.Param.Env.Priority.{last_found, resolve_params_from_env-last_found}
use rediver_sdk_go.Scanner.{ScanFunc, ScannerOption, new_scanner, with_param, with_display_name}
use rediver_sdk_go.Scanner.Metadata.{described, metadata_request, sent_schema, new_scanner-schema}
use rediver_sdk_go.Logger.{Record, handle, new_job_log_handler, slog_level_to_log_level}
use rediver_sdk_go.Logger.Groups.{
  Derivation, attrs, group, derive, groups_first, rendered, handle-groups_first,
}
use rediver_sdk_go.Examples.Values.{structs}

abbrev depth : Param ℤ ℕ
depth = record (string_param "depth") { env_var = "SCAN_DEPTH" }

abbrev options : List (ScannerOption ℕ ℤ ℕ ℕ)
options = with_param depth ∷ with_display_name "Scanner" ∷ []

abbrev handler : ScanFunc ℕ ℤ ℕ ℕ
handler j s = (([], nil), s)

new_scanner-schema_example :
    sent_schema structs
      (metadata_request structs (described (new_scanner "sast" ("domain" ∷ []) handler options)))
    ≡ none
new_scanner-schema_example =
    new_scanner-schema structs "sast" ("domain" ∷ []) handler options ((λ x. x), ((λ x. x), tt))

abbrev environment : String → Option String
environment name = if str_eq name "SCAN_DEPTH" then some "3" else none

abbrev ci_values : List (String × Value ℤ ℕ)
ci_values = ("depth", str "5") ∷ []

resolve_params_from_env-last_found_example :
    lookup "depth" (resolve_params_from_env environment (depth ∷ []) ci_values)
    ≡ last_found environment ci_values "depth" (depth ∷ []) none
resolve_params_from_env-last_found_example =
    resolve_params_from_env-last_found environment (depth ∷ []) ci_values "depth"

abbrev same_text : String → String
same_text s = s

abbrev found : Record String
found = record {
  level = pos 4;
  message = "found";
  attrs = record { key = "port"; value = "443" } ∷ [];
}

abbrev derivations : List (Derivation String)
derivations = attrs (record { key = "host"; value = "a" } ∷ []) ∷ group "tls" ∷ []

handle-groups_first_example :
    handle same_text (derive derivations (new_job_log_handler true (pos 0))) found
    ≡ some (
      slog_level_to_log_level (pos 4),
      "found" <> rendered same_text [] (groups_first derivations) found.attrs,
    )
handle-groups_first_example = handle-groups_first same_text derivations (pos 0) found

-- The host was added before the group.
sent_text :
    handle same_text (derive derivations (new_job_log_handler true (pos 0))) found
    ≡ some ("warn", "found tls.host=a tls.port=443")
unfolding handle derive new_job_log_handler
sent_text = refl
