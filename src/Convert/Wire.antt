-- ===== src/Convert/Wire.antt =====
-- What every built message satisfies: no repeated field is an empty list that is not nil, no
-- optional text is empty, and every number is an int32.
use rediver_sdk_go.Prelude.{
  ◌≡◌, refl, Bool, false, String, Slice, elems, Option, none, some, List, [], ◌∷◌, ◌++◌, ℤ, map,
  pos, negsuc, zero, suc, InInt32, to_int32-InInt32, is_empty, All,
}
use rediver_sdk_go.Result.{Domain, CodeLine, CodeFlowNode, SastFinding}
use rediver_sdk_go.Convert.Message.{DnsRecord, ProtoCodeLine, ProtoCodeFlowNode, ProtoCodeFinding}
use rediver_sdk_go.Convert.Defs.{nil_if_empty, ptr_or_nil, ptr_int32_or_nil}
use rediver_sdk_go.Convert.Assets.{to_proto_domain, to_proto_domains}
use rediver_sdk_go.Convert.Findings.{
  to_proto_code_line, to_proto_code_lines, to_proto_code_flow, to_proto_code_flows,
  to_proto_sast_finding, to_proto_sast_findings,
}

-- A repeated field: nil, or not empty.
abbrev pub IsNormal {ℓ} : {A : Type ℓ} → Slice A → Type 0
IsNormal none = Unit
IsNormal (some []) = ⊥
IsNormal (some (x ∷ xs)) = Unit

abbrev pub TextIsFull : Option String → Type 0
TextIsFull none = Unit
TextIsFull (some s) = is_empty s ≡ false

abbrev pub OptInInt32 : Option ℤ → Type 0
OptInInt32 none = Unit
OptInInt32 (some i) = InInt32 i

pub nil_if_empty-IsNormal {ℓ} : {A : Type ℓ} (s : Slice A) → IsNormal (nil_if_empty s)
unfolding nil_if_empty
nil_if_empty-IsNormal none = tt
nil_if_empty-IsNormal (some []) = tt
nil_if_empty-IsNormal (some (x ∷ xs)) = tt

ptr_or_nil-TextIsFull : (s : String) → TextIsFull (ptr_or_nil s)
unfolding ptr_or_nil
ptr_or_nil-TextIsFull String.[] = tt
ptr_or_nil-TextIsFull (String.◌∷◌ c s) = refl

ptr_int32_or_nil-OptInInt32 : (i : ℤ) → OptInInt32 (ptr_int32_or_nil i)
unfolding ptr_int32_or_nil
ptr_int32_or_nil-OptInInt32 (pos zero) = tt
ptr_int32_or_nil-OptInInt32 (pos (suc n)) = to_int32-InInt32 (pos (suc n))
ptr_int32_or_nil-OptInInt32 (negsuc n) = to_int32-InInt32 (negsuc n)

pub record DomainOnWire (m : DnsRecord) : Type 0 where
  pub ip : IsNormal m.ip
  pub mx : IsNormal m.mx
  pub ns : IsNormal m.ns
  pub txt : IsNormal m.txt
  pub soa : IsNormal m.soa
  pub cname : TextIsFull m.cname
  pub ttl : OptInInt32 m.ttl

to_proto_domain-DomainOnWire : (d : Domain) → DomainOnWire (to_proto_domain d)
unfolding to_proto_domain
to_proto_domain-DomainOnWire d = record {
  ip = nil_if_empty-IsNormal (some (elems d.a ++ elems d.aaaa));
  mx = nil_if_empty-IsNormal d.mx;
  ns = nil_if_empty-IsNormal d.ns;
  txt = nil_if_empty-IsNormal d.txt;
  soa = nil_if_empty-IsNormal d.soa;
  cname = ptr_or_nil-TextIsFull d.cname;
  ttl = ptr_int32_or_nil-OptInInt32 d.ttl;
}

-- Every record that is built from domains has no empty list that is not nil, no empty optional
-- text, and an int32 for its TTL.
pub to_proto_domains-DomainOnWire : (ds : List Domain) → All DomainOnWire (to_proto_domains ds)
unfolding to_proto_domains
to_proto_domains-DomainOnWire [] = tt
to_proto_domains-DomainOnWire (d ∷ ds) =
    (to_proto_domain-DomainOnWire d, to_proto_domains-DomainOnWire ds)

abbrev LinesOnWire : Slice ProtoCodeLine → Type 0
LinesOnWire none = Unit
LinesOnWire (some []) = ⊥
LinesOnWire (some (l ∷ ls)) = All (λ (m : ProtoCodeLine). InInt32 m.line) (l ∷ ls)

lines_fit :
    (ls : List CodeLine) → All (λ (m : ProtoCodeLine). InInt32 m.line) (map to_proto_code_line ls)
unfolding to_proto_code_line
lines_fit [] = tt
lines_fit (l ∷ ls) = (to_int32-InInt32 l.line, lines_fit ls)

to_proto_code_lines-LinesOnWire : (ls : List CodeLine) → LinesOnWire (to_proto_code_lines ls)
unfolding to_proto_code_lines
to_proto_code_lines-LinesOnWire [] = tt
to_proto_code_lines-LinesOnWire (l ∷ ls) = lines_fit (l ∷ ls)

pub record FlowOnWire (m : ProtoCodeFlowNode) : Type 0 where
  pub start_line : InInt32 m.start_line
  pub code_lines : LinesOnWire m.code_lines
  pub end_line : OptInInt32 m.end_line
  pub start_column : OptInInt32 m.start_column
  pub end_column : OptInInt32 m.end_column
  pub message : TextIsFull m.message

to_proto_code_flow-FlowOnWire : (n : CodeFlowNode) → FlowOnWire (to_proto_code_flow n)
unfolding to_proto_code_flow
to_proto_code_flow-FlowOnWire n = record {
  start_line = to_int32-InInt32 n.start_line;
  code_lines = to_proto_code_lines-LinesOnWire n.code_lines;
  end_line = ptr_int32_or_nil-OptInInt32 n.end_line;
  start_column = ptr_int32_or_nil-OptInInt32 n.start_column;
  end_column = ptr_int32_or_nil-OptInInt32 n.end_column;
  message = ptr_or_nil-TextIsFull n.message;
}

flows_on_wire : (ns : List CodeFlowNode) → All FlowOnWire (map to_proto_code_flow ns)
flows_on_wire [] = tt
flows_on_wire (n ∷ ns) = (to_proto_code_flow-FlowOnWire n, flows_on_wire ns)

abbrev FlowsOnWire : Slice ProtoCodeFlowNode → Type 0
FlowsOnWire none = Unit
FlowsOnWire (some []) = ⊥
FlowsOnWire (some (n ∷ ns)) = All FlowOnWire (n ∷ ns)

to_proto_code_flows-FlowsOnWire : (ns : List CodeFlowNode) → FlowsOnWire (to_proto_code_flows ns)
unfolding to_proto_code_flows
to_proto_code_flows-FlowsOnWire [] = tt
to_proto_code_flows-FlowsOnWire (n ∷ ns) = flows_on_wire (n ∷ ns)

pub record FindingOnWire {G : Type 0} (m : ProtoCodeFinding G) : Type 0 where
  pub cwes : IsNormal m.cwes
  pub references : IsNormal m.references
  pub code_flows : FlowsOnWire m.code_flows
  pub code_lines : LinesOnWire m.code_lines
  pub description : TextIsFull m.description
  pub category : TextIsFull m.category
  pub remediation : TextIsFull m.remediation
  pub cve : TextIsFull m.cve
  pub cvss_vector : TextIsFull m.cvss_vector
  pub rule_id : TextIsFull m.rule_id
  pub snippet : TextIsFull m.snippet
  pub start_line : OptInInt32 m.start_line
  pub end_line : OptInInt32 m.end_line
  pub commit_sha : TextIsFull m.commit_sha

module _ {G : Type 0} (is_zero_float : G → Bool) where
  to_proto_sast_finding-FindingOnWire :
      (f : SastFinding G) → FindingOnWire (to_proto_sast_finding is_zero_float f)
  unfolding to_proto_sast_finding
  to_proto_sast_finding-FindingOnWire f = record {
    cwes = nil_if_empty-IsNormal f.cwes;
    references = nil_if_empty-IsNormal f.references;
    code_flows = to_proto_code_flows-FlowsOnWire f.code_flows;
    code_lines = to_proto_code_lines-LinesOnWire f.code_lines;
    description = ptr_or_nil-TextIsFull f.description;
    category = ptr_or_nil-TextIsFull f.category;
    remediation = ptr_or_nil-TextIsFull f.remediation;
    cve = ptr_or_nil-TextIsFull f.cve;
    cvss_vector = ptr_or_nil-TextIsFull f.cvss_vector;
    rule_id = ptr_or_nil-TextIsFull f.rule_id;
    snippet = ptr_or_nil-TextIsFull f.snippet;
    start_line = ptr_int32_or_nil-OptInInt32 f.start_line;
    end_line = ptr_int32_or_nil-OptInInt32 f.end_line;
    commit_sha = ptr_or_nil-TextIsFull f.commit_sha;
  }

  -- Every message that is built from SAST findings, its code flows and code lines included, has no
  -- empty list that is not nil, no empty optional text, and an int32 for every line and column.
  pub to_proto_sast_findings-FindingOnWire :
      (fs : List (SastFinding G)) → All FindingOnWire (to_proto_sast_findings is_zero_float fs)
  unfolding to_proto_sast_findings
  to_proto_sast_findings-FindingOnWire [] = tt
  to_proto_sast_findings-FindingOnWire (f ∷ fs) =
      (to_proto_sast_finding-FindingOnWire f, to_proto_sast_findings-FindingOnWire fs)
