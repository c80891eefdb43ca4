-- ===== src/Convert/Assets.antt =====
-- toProtoDomains, toProtoServices, toProtoHTTPInfo and toProtoCertificate of convert.go.
use rediver_sdk_go.Prelude.{String, elems, Option, some, List, map, ◌++◌, to_int32}
use rediver_sdk_go.Result.{Domain, TlsInfo, HttpInfo, Service}
use rediver_sdk_go.Convert.Message.{DnsRecord, ProtoHttpInfo, ProtoCertificate, ProtoService}
use rediver_sdk_go.Convert.Defs.{
  nil_if_empty, ptr_or_nil, ptr_int32_or_nil, ptr_bool_or_nil, parse_rfc3339, when_set,
}

-- The body of the loop of `toProtoDomains`.
unfoldable pub to_proto_domain : Domain → DnsRecord
unfolding nil_if_empty ptr_or_nil ptr_int32_or_nil
to_proto_domain d = record {
  domain = d.domain;
  ip = nil_if_empty (some (elems d.a ++ elems d.aaaa));
  mx = nil_if_empty d.mx;
  ns = nil_if_empty d.ns;
  txt = nil_if_empty d.txt;
  soa = nil_if_empty d.soa;
  cname = ptr_or_nil d.cname;
  ttl = ptr_int32_or_nil d.ttl;
}

unfoldable pub to_proto_domains : List Domain → List DnsRecord
to_proto_domains domains = map to_proto_domain domains

unfoldable pub to_proto_http_info : HttpInfo → ProtoHttpInfo
unfolding nil_if_empty ptr_or_nil ptr_int32_or_nil
to_proto_http_info h = record {
  ip = nil_if_empty h.ips;
  technologies = nil_if_empty h.technologies;
  url = ptr_or_nil h.url;
  title = ptr_or_nil h.title;
  status_code = ptr_int32_or_nil h.status_code;
  redirect_to = ptr_or_nil h.redirect_to;
  content_type = ptr_or_nil h.content_type;
  webserver = ptr_or_nil h.webserver;
  favicon_mmh3 = ptr_or_nil h.favicon_hash;
  screenshot_url = ptr_or_nil h.screenshot_url;
  scheme = ptr_or_nil h.scheme;
  path = ptr_or_nil h.path;
}

module _ {T : Type 0} (parse : String → Option T) where
  unfoldable pub to_proto_certificate : TlsInfo → ProtoCertificate T
  unfolding nil_if_empty ptr_or_nil ptr_bool_or_nil parse_rfc3339
  to_proto_certificate c = record {
    subject_an = nil_if_empty c.subject_alt_names;
    fingerprint = ptr_or_nil c.fingerprint;
    serial = ptr_or_nil c.serial;
    subject_cn = ptr_or_nil c.subject_cn;
    subject_org = ptr_or_nil c.subject_org;
    issuer_cn = ptr_or_nil c.issuer_cn;
    issuer_org = ptr_or_nil c.issuer_org;
    not_before = parse_rfc3339 parse c.not_before;
    not_after = parse_rfc3339 parse c.not_after;
    wildcard = ptr_bool_or_nil c.is_wildcard;
  }

  -- The body of the loop of `toProtoServices`.
  unfoldable pub to_proto_service : Service → ProtoService T
  unfolding nil_if_empty ptr_or_nil to_proto_http_info to_proto_certificate
  to_proto_service s = record {
    host = s.host;
    port = to_int32 s.port;
    cpes = nil_if_empty s.cpes;
    service_name = ptr_or_nil s.service_name;
    http = when_set to_proto_http_info s.http;
    certificate = when_set to_proto_certificate s.certificate;
  }

  unfoldable pub to_proto_services : List Service → List (ProtoService T)
  to_proto_services services = map to_proto_service services
