-- ===== src/Convert/Message.antt =====
-- The protobuf messages that convert.go builds: the fields that it sets. An optional scalar is an
-- `Option`, a repeated field a list that may be nil (`Slice`), an enum its constructors. `T` is the
-- timestamp, `G` the float32 score.
use rediver_sdk_go.Prelude.{Bool, String, Slice, Option, ℤ}

pub data ProtoSeverity : Type 0 where
  critical high medium low info unspecified : ProtoSeverity

pub data ProtoLogLevel : Type 0 where
  debug info warn error unspecified : ProtoLogLevel

pub data ProtoAssetType : Type 0 where
  asn ip subnet subdomain root_domain service repository unspecified : ProtoAssetType

pub record DnsRecord : Type 0 where
  pub domain : String
  pub ip : Slice String
  pub mx : Slice String
  pub ns : Slice String
  pub txt : Slice String
  pub soa : Slice String
  pub cname : Option String
  pub ttl : Option ℤ

pub record ProtoHttpInfo : Type 0 where
  pub ip : Slice String
  pub technologies : Slice String
  pub url : Option String
  pub title : Option String
  pub status_code : Option ℤ
  pub redirect_to : Option String
  pub content_type : Option String
  pub webserver : Option String
  pub favicon_mmh3 : Option String
  pub screenshot_url : Option String
  pub scheme : Option String
  pub path : Option String

pub record ProtoCertificate (T : Type 0) : Type 0 where
  pub subject_an : Slice String
  pub fingerprint : Option String
  pub serial : Option String
  pub subject_cn : Option String
  pub subject_org : Option String
  pub issuer_cn : Option String
  pub issuer_org : Option String
  pub not_before : Option T
  pub not_after : Option T
  pub wildcard : Option Bool

pub record ProtoService (T : Type 0) : Type 0 where
  pub host : String
  pub port : ℤ
  pub cpes : Slice String
  pub service_name : Option String
  pub http : Option ProtoHttpInfo
  pub certificate : Option (ProtoCertificate T)

pub record ProtoRawRequest : Type 0 where
  pub request : Option String
  pub response : Option String

pub record ProtoWebFinding (G : Type 0) : Type 0 where
  pub name : String
  pub severity : ProtoSeverity
  pub endpoint : String
  pub cwes : Slice String
  pub references : Slice String
  pub description : Option String
  pub category : Option String
  pub remediation : Option String
  pub cve : Option String
  pub cvss_vector : Option String
  pub cvss_score : Option G
  pub rule_id : Option String
  pub curl_command : Option String
  pub requests : Slice ProtoRawRequest

pub record ProtoCodeLine : Type 0 where
  pub line : ℤ
  pub content : String

pub record ProtoCodeFlowNode : Type 0 where
  pub file : String
  pub snippet : String
  pub start_line : ℤ
  pub code_lines : Slice ProtoCodeLine
  pub end_line : Option ℤ
  pub start_column : Option ℤ
  pub end_column : Option ℤ
  pub message : Option String

pub record ProtoCodeFinding (G : Type 0) : Type 0 where
  pub name : String
  pub severity : ProtoSeverity
  pub file : String
  pub cwes : Slice String
  pub references : Slice String
  pub code_flows : Slice ProtoCodeFlowNode
  pub code_lines : Slice ProtoCodeLine
  pub description : Option String
  pub category : Option String
  pub remediation : Option String
  pub cve : Option String
  pub cvss_vector : Option String
  pub cvss_score : Option G
  pub rule_id : Option String
  pub snippet : Option String
  pub start_line : Option ℤ
  pub end_line : Option ℤ
  pub commit_sha : Option String
