-- ===== src/Samples/Vulnerabilities.antt =====
-- examples/vulnscan/main.go. Its two float32 constants, 9.8 and 6.1, are parameters.
use rediver_sdk_go.Prelude.{
  false, String, ◌<>◌, some, none, List, [], ◌∷◌, ◌++◌, pos, elems, non_empty, if◌then◌else◌,
}
use rediver_sdk_go.Strconv.{format_int}
use rediver_sdk_go.Result.{WebFinding}
use rediver_sdk_go.Result.Accessors.{of_web_findings}
use rediver_sdk_go.Param.Value.{str, integer, int, boolean}
use rediver_sdk_go.Param.Builder.{
  Param, string_param, int_param, bool_param, with_label, with_description, with_default,
}
use rediver_sdk_go.Param.Access.{string_or, int_or, bool_or}
use rediver_sdk_go.Job.Defs.{param}
use rediver_sdk_go.Job.Targets.{ServiceTarget, services}
use rediver_sdk_go.Scanner.{Scanner, ScanFunc, new_scanner, with_param}
use rediver_sdk_go.Samples.{Surroundings, text, number, flag, each_target, emit_found}

-- `target`, and the host and the port where the service has no URL.
unfoldable pub address : ServiceTarget → String
unfolding format_int
address svc = if non_empty svc.url then svc.url else svc.host <> ":" <> format_int svc.port

module _ {G : Type 0} (critical_score high_score : G) where
  unfoldable pub sql_injection : ServiceTarget → WebFinding G
  unfolding address
  sql_injection svc = record {
    name = "SQL Injection";
    description = "";
    severity = "Critical";
    endpoint = address svc <> "/api/login";
    category = "injection";
    rule_id = "sqli-001";
    cve = "";
    cwes = some ("CWE-89" ∷ []);
    cvss_score = critical_score;
    cvss_vector = "";
    curl_command = "";
    references = none;
    remediation = "";
    requests =
        record {
          raw_request =
              "POST /api/login HTTP/1.1\nHost: " <> svc.host
              <> "\n\n{\"username\":\"admin' OR '1'='1\"}";
          raw_response = "HTTP/1.1 200 OK\n\n{\"success\":true}";
        }
        ∷ [];
  }

  unfoldable pub reflected_xss : ServiceTarget → WebFinding G
  unfolding address
  reflected_xss svc = record {
    name = "Reflected XSS";
    description = "";
    severity = "High";
    endpoint = address svc <> "/search?q=xss";
    category = "xss";
    rule_id = "xss-reflected-001";
    cve = "";
    cwes = some ("CWE-79" ∷ []);
    cvss_score = high_score;
    cvss_vector = "";
    curl_command = "";
    references = none;
    remediation = "";
    requests = [];
  }

  -- The findings that a round appends.
  unfoldable pub attack : ServiceTarget → List (WebFinding G)
  unfolding sql_injection reflected_xss
  attack svc = sql_injection svc ∷ reflected_xss svc ∷ []

module _ {F O : Type 0} where
  abbrev severity_threshold : Param F O
  severity_threshold = with_default (str "low") (
      with_description "Minimum severity to report"
        (with_label "Severity Threshold" (string_param "severity_threshold")))

  abbrev active_scan : Param F O
  active_scan = with_default (boolean false) (
      with_description "Perform active vulnerability testing"
        (with_label "Active Scan" (bool_param "active_scan")))

  abbrev rate_limit : Param F O
  rate_limit = with_default (integer int (pos 10)) (
      with_description "Maximum requests per second"
        (with_label "Rate Limit" (int_param "rate_limit")))

module _ {S F O G : Type 0} (env : Surroundings S F) (critical_score high_score : G) where
  unfoldable pub scan_vulnerabilities : ScanFunc S F O G
  unfolding services
  scan_vulnerabilities j s =
      let threshold = string_or env.floats (param j "severity_threshold") "low" in
      let active = bool_or env.floats (param j "active_scan") false in
      let rate = int_or env.floats (param j "rate_limit") (pos 10) in
      let s1 =
        env.info "starting vuln scan"
          (("threshold", text threshold)
            ∷ ("active", flag active)
            ∷ ("rate_limit", number rate)
            ∷ [])
          s in
      emit_found of_web_findings (λ found s. s)
        (each_target env
          (λ svc found s. (found ++ attack critical_score high_score svc, env.sleep 200 s))
          (elems (services j)) [] s1)

  unfoldable pub vuln_scan : Scanner S F O G
  unfolding new_scanner scan_vulnerabilities
  vuln_scan =
      new_scanner "vuln_scan" ("Subdomain" ∷ "Service" ∷ []) scan_vulnerabilities
        (with_param severity_threshold ∷ with_param active_scan ∷ with_param rate_limit ∷ [])
