-- ===== src/Result.antt =====
-- result.go: the records that scanners emit, the results that hold them, and their accessors.
-- A []string field may be nil or empty: `Slice`. A float32 score is of the type `G`.
pub mod Accessors
use rediver_sdk_go.Prelude.{Bool, String, Slice, ℤ, Option, List}

pub record Domain : Type 0 where
  pub domain : String
  pub a : Slice String
  pub aaaa : Slice String
  pub cname : String
  pub mx : Slice String
  pub txt : Slice String
  pub soa : Slice String
  pub ns : Slice String
  pub ttl : ℤ

pub record TlsInfo : Type 0 where
  pub subject_cn : String
  pub subject_org : String
  pub subject_alt_names : Slice String
  pub issuer_cn : String
  pub issuer_org : String
  pub serial : String
  pub fingerprint : String
  pub not_before : String
  pub not_after : String
  pub is_wildcard : Bool

pub record HttpInfo : Type 0 where
  pub url : String
  pub scheme : String
  pub path : String
  pub status_code : ℤ
  pub title : String
  pub content_type : String
  pub webserver : String
  pub technologies : Slice String
  pub redirect_to : String
  pub favicon_hash : String
  pub screenshot_url : String
  pub ips : Slice String

pub record Service : Type 0 where
  pub host : String
  pub port : ℤ
  pub service_name : String
  pub service_status : String
  pub cpes : Slice String
  pub certificate : Option TlsInfo
  pub http : Option HttpInfo

pub record HttpRequest : Type 0 where
  pub raw_request : String
  pub raw_response : String

pub record WebFinding (G : Type 0) : Type 0 where
  pub name : String
  pub description : String
  pub severity : String
  pub endpoint : String
  pub category : String
  pub rule_id : String
  pub cve : String
  pub cwes : Slice String
  pub cvss_score : G
  pub cvss_vector : String
  pub curl_command : String
  pub references : Slice String
  pub remediation : String
  pub requests : List HttpRequest

pub record CodeLine : Type 0 where
  pub line : ℤ
  pub content : String

pub record CodeFlowNode : Type 0 where
  pub file : String
  pub start_line : ℤ
  pub end_line : ℤ
  pub start_column : ℤ
  pub end_column : ℤ
  pub snippet : String
  pub message : String
  pub code_lines : List CodeLine

pub record SastFinding (G : Type 0) : Type 0 where
  pub name : String
  pub description : String
  pub severity : String
  pub file : String
  pub start_line : ℤ
  pub end_line : ℤ
  pub snippet : String
  pub category : String
  pub rule_id : String
  pub cve : String
  pub cwes : Slice String
  pub cvss_score : G
  pub cvss_vector : String
  pub references : Slice String
  pub remediation : String
  pub code_flows : List CodeFlowNode
  pub code_lines : List CodeLine
  pub commit_sha : String

-- The wrapper of a finding: two pointers, of which the constructors below set one.
pub record Finding (G : Type 0) : Type 0 where
  pub web : Option (WebFinding G)
  pub sast : Option (SastFinding G)

pub record Result (G : Type 0) : Type 0 where
  pub domains : List Domain
  pub services : List Service
  pub findings : List (Finding G)
