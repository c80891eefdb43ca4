-- ===== src/Examples/Records.antt =====
-- Records on their way to the server, and parameters.
use rediver_sdk_go.Prelude.{
  ◌≡◌, refl, true, String, none, some, [], ◌∷◌, ℕ, ℤ, pos, map, All, ◌==◌, arith,
}
use rediver_sdk_go.Strconv.{is_space}
use rediver_sdk_go.Strconv.Split.{join_with}
use rediver_sdk_go.Result.{Service, SastFinding}
use rediver_sdk_go.Convert.Assets.{to_proto_services}
use rediver_sdk_go.Convert.Findings.{to_proto_sast_findings}
use rediver_sdk_go.Convert.RoundTrip.{decode_service, normal_service, decode-to_proto_services}
use rediver_sdk_go.Convert.Wire.{FindingOnWire, to_proto_sast_findings-FindingOnWire}
use rediver_sdk_go.Param.Value.{Floats, str}
use rediver_sdk_go.Param.Cast.{to_strings}
use rediver_sdk_go.Param.Builder.{Param, int_param, with_required}
use rediver_sdk_go.Param.Schema.{Schema, lookup, params_to_json_schema, when_non_nil}
use rediver_sdk_go.Param.Schema.Required.{
  required_names, last_property, AllDeclared, params_to_json_schema_lem,
}
use rediver_sdk_go.Param.Lists.{IsItem, to_strings-join_with}
use rediver_sdk_go.Job.Defs.{param, new_job}
use rediver_sdk_go.Job.Params.{OnlyFallbacks, new_job-OnlyFallbacks}
use rediver_sdk_go.Examples.Values.{detail}

abbrev web_service : Service
web_service = record {
  host = "example.com";
  port = pos 443;
  service_name = "https";
  service_status = "open";
  cpes = some [];
  certificate = none;
  http = some (record {
    url = "https://example.com";
    scheme = "https";
    path = "/";
    status_code = pos 200;
    title = "";
    content_type = "text/html";
    webserver = "nginx";
    technologies = some ("nginx" ∷ []);
    redirect_to = "";
    favicon_hash = "";
    screenshot_url = "";
    ips = none;
  });
}

decode-to_proto_services_example :
    map (decode_service some (λ (s : String). s)) (to_proto_services some (web_service ∷ []))
    ≡ map (normal_service some (λ (s : String). s)) (web_service ∷ [])
decode-to_proto_services_example =
    decode-to_proto_services some (λ (s : String). s) (web_service ∷ [])
      ((omega arith, omega arith), tt)

abbrev injection : SastFinding ℕ
injection = record {
  name = "SQL injection";
  description = "";
  severity = "high";
  file = "main.go";
  start_line = pos 7;
  end_line = pos 0;
  snippet = "";
  category = "";
  rule_id = "";
  cve = "";
  cwes = some [];
  cvss_score = 0;
  cvss_vector = "";
  references = none;
  remediation = "";
  code_flows = [];
  code_lines = record { line = pos 7; content = "query" } ∷ [];
  commit_sha = "";
}

to_proto_sast_findings-FindingOnWire_example :
    All FindingOnWire (to_proto_sast_findings (λ n. n == 0) (injection ∷ []))
to_proto_sast_findings-FindingOnWire_example =
    to_proto_sast_findings-FindingOnWire (λ n. n == 0) (injection ∷ [])

abbrev no_floats : Floats ℤ
no_floats = record { to_int = λ x. x; non_zero = λ x. true; format = λ x. "" }

abbrev depth : Param ℤ ℕ
depth = with_required (int_param "depth")

params_to_json_schema_lem_example :
    (s : Schema ℤ ℕ) × (params_to_json_schema (depth ∷ []) ≡ some s)
    × (s.required ≡ when_non_nil (required_names (depth ∷ [])))
    × AllDeclared s
    × ((n : String) → lookup n s.properties ≡ last_property n (depth ∷ []) none)
params_to_json_schema_lem_example = params_to_json_schema_lem depth []

new_job-OnlyFallbacks_example : OnlyFallbacks no_floats (param (new_job (some detail)) "depth")
new_job-OnlyFallbacks_example = new_job-OnlyFallbacks no_floats detail "depth"

two_items-IsItem : All IsItem ("a b" ∷ "c" ∷ [])
unfolding is_space
two_items-IsItem =
    ((refl, (refl, refl), (refl, (refl, (refl, tt)))), ((refl, (refl, refl), (refl, tt)), tt))

to_strings-join_with_example :
    to_strings {O = ℕ} no_floats (str (join_with "," ("a b" ∷ "c" ∷ []))) none
    ≡ some ("a b" ∷ "c" ∷ [])
to_strings-join_with_example =
    to_strings-join_with ℕ no_floats ("a b" ∷ "c" ∷ []) none two_items-IsItem
