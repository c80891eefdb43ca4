-- ===== src/Convert/Findings.antt =====
-- toProtoWebFindings, toProtoSASTFindings and their parts in convert.go. `is_zero_float` is the test
-- of a float32 score against 0.
use rediver_sdk_go.Prelude.{Bool, Slice, none, some, List, [], ◌∷◌, map, to_int32}
use rediver_sdk_go.Result.{HttpRequest, WebFinding, CodeLine, CodeFlowNode, SastFinding}
use rediver_sdk_go.Convert.Message.{
  ProtoRawRequest, ProtoWebFinding, ProtoCodeLine, ProtoCodeFlowNode, ProtoCodeFinding,
}
use rediver_sdk_go.Convert.Enums.{to_proto_severity}
use rediver_sdk_go.Convert.Defs.{nil_if_empty, ptr_or_nil, ptr_int32_or_nil, ptr_float32_or_nil}

-- A loop over a list that returns nil at once where the list is empty.
abbrev map_or_nil {ℓ κ} : {A : Type ℓ} {B : Type κ} → (A → B) → List A → Slice B
map_or_nil f [] = none
map_or_nil f (x ∷ xs) = some (map f (x ∷ xs))

unfoldable pub to_proto_raw_request : HttpRequest → ProtoRawRequest
unfolding ptr_or_nil
to_proto_raw_request r = record {
  request = ptr_or_nil r.raw_request;
  response = ptr_or_nil r.raw_response;
}

unfoldable pub to_proto_raw_requests : List HttpRequest → Slice ProtoRawRequest
to_proto_raw_requests requests = map_or_nil to_proto_raw_request requests

unfoldable pub to_proto_code_line : CodeLine → ProtoCodeLine
to_proto_code_line l = record { line = to_int32 l.line; content = l.content }

unfoldable pub to_proto_code_lines : List CodeLine → Slice ProtoCodeLine
unfolding to_proto_code_line
to_proto_code_lines lines = map_or_nil to_proto_code_line lines

unfoldable pub to_proto_code_flow : CodeFlowNode → ProtoCodeFlowNode
unfolding to_proto_code_lines ptr_or_nil ptr_int32_or_nil
to_proto_code_flow n = record {
  file = n.file;
  snippet = n.snippet;
  start_line = to_int32 n.start_line;
  code_lines = to_proto_code_lines n.code_lines;
  end_line = ptr_int32_or_nil n.end_line;
  start_column = ptr_int32_or_nil n.start_column;
  end_column = ptr_int32_or_nil n.end_column;
  message = ptr_or_nil n.message;
}

unfoldable pub to_proto_code_flows : List CodeFlowNode → Slice ProtoCodeFlowNode
unfolding to_proto_code_flow
to_proto_code_flows nodes = map_or_nil to_proto_code_flow nodes

module _ {G : Type 0} (is_zero_float : G → Bool) where
  -- The body of the loop of `toProtoWebFindings`.
  unfoldable pub to_proto_web_finding : WebFinding G → ProtoWebFinding G
  unfolding nil_if_empty ptr_or_nil ptr_float32_or_nil to_proto_raw_requests to_proto_severity
  to_proto_web_finding f = record {
    name = f.name;
    severity = to_proto_severity f.severity;
    endpoint = f.endpoint;
    cwes = nil_if_empty f.cwes;
    references = nil_if_empty f.references;
    description = ptr_or_nil f.description;
    category = ptr_or_nil f.category;
    remediation = ptr_or_nil f.remediation;
    cve = ptr_or_nil f.cve;
    cvss_vector = ptr_or_nil f.cvss_vector;
    cvss_score = ptr_float32_or_nil is_zero_float f.cvss_score;
    rule_id = ptr_or_nil f.rule_id;
    curl_command = ptr_or_nil f.curl_command;
    requests = to_proto_raw_requests f.requests;
  }

  unfoldable pub to_proto_web_findings : List (WebFinding G) → List (ProtoWebFinding G)
  to_proto_web_findings findings = map to_proto_web_finding findings

  -- The body of the loop of `toProtoSASTFindings`.
  unfoldable pub to_proto_sast_finding : SastFinding G → ProtoCodeFinding G
  unfolding nil_if_empty ptr_or_nil ptr_int32_or_nil ptr_float32_or_nil to_proto_severity
      to_proto_code_flows to_proto_code_lines
  to_proto_sast_finding f = record {
    name = f.name;
    severity = to_proto_severity f.severity;
    file = f.file;
    cwes = nil_if_empty f.cwes;
    references = nil_if_empty f.references;
    code_flows = to_proto_code_flows f.code_flows;
    code_lines = to_proto_code_lines f.code_lines;
    description = ptr_or_nil f.description;
    category = ptr_or_nil f.category;
    remediation = ptr_or_nil f.remediation;
    cve = ptr_or_nil f.cve;
    cvss_vector = ptr_or_nil f.cvss_vector;
    cvss_score = ptr_float32_or_nil is_zero_float f.cvss_score;
    rule_id = ptr_or_nil f.rule_id;
    snippet = ptr_or_nil f.snippet;
    start_line = ptr_int32_or_nil f.start_line;
    end_line = ptr_int32_or_nil f.end_line;
    commit_sha = ptr_or_nil f.commit_sha;
  }

  unfoldable pub to_proto_sast_findings : List (SastFinding G) → List (ProtoCodeFinding G)
  to_proto_sast_findings findings = map to_proto_sast_finding findings
