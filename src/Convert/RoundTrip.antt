-- ===== src/Convert/RoundTrip.antt =====
-- Reading the messages back: a decoder by the getters of protobuf (an unset optional field reads as
-- its zero value), against the records that were converted.
use rediver_sdk_go.Prelude.{
  ◌≡◌, refl, ap, Bool, true, false, String, Option, none, some, List, [], ◌∷◌, map, ℤ, pos, negsuc,
  zero, suc, InInt32, to_int32_in_range, All,
}
use rediver_sdk_go.Result.{TlsInfo, HttpInfo, Service}
use rediver_sdk_go.Convert.Message.{ProtoHttpInfo, ProtoCertificate, ProtoService}
use rediver_sdk_go.Convert.Defs.{
  nil_if_empty, ptr_or_nil, ptr_int32_or_nil, ptr_bool_or_nil, parse_rfc3339, when_set,
}
use rediver_sdk_go.Convert.Assets.{
  to_proto_http_info, to_proto_certificate, to_proto_service, to_proto_services,
}

abbrev pub get_text : Option String → String
get_text none = ""
get_text (some s) = s

abbrev pub get_int : Option ℤ → ℤ
get_int none = pos 0
get_int (some i) = i

abbrev pub get_bool : Option Bool → Bool
get_bool none = false
get_bool (some b) = b

pub get_text-ptr_or_nil : (s : String) → get_text (ptr_or_nil s) ≡ s
unfolding ptr_or_nil
get_text-ptr_or_nil String.[] = refl
get_text-ptr_or_nil (String.◌∷◌ c s) = refl

pub get_int-ptr_int32_or_nil : (i : ℤ) → InInt32 i → get_int (ptr_int32_or_nil i) ≡ i
unfolding ptr_int32_or_nil
get_int-ptr_int32_or_nil (pos zero) h = refl
get_int-ptr_int32_or_nil (pos (suc n)) h = to_int32_in_range (pos (suc n)) h
get_int-ptr_int32_or_nil (negsuc n) h = to_int32_in_range (negsuc n) h

pub get_bool-ptr_bool_or_nil : (b : Bool) → get_bool (ptr_bool_or_nil b) ≡ b
unfolding ptr_bool_or_nil
get_bool-ptr_bool_or_nil true = refl
get_bool-ptr_bool_or_nil false = refl

-- What is left of a record on the wire: an empty slice is absent.
abbrev pub normal_http : HttpInfo → HttpInfo
normal_http h = record h { technologies = nil_if_empty h.technologies; ips = nil_if_empty h.ips }

abbrev pub decode_http : ProtoHttpInfo → HttpInfo
decode_http m = record {
  url = get_text m.url;
  scheme = get_text m.scheme;
  path = get_text m.path;
  status_code = get_int m.status_code;
  title = get_text m.title;
  content_type = get_text m.content_type;
  webserver = get_text m.webserver;
  technologies = m.technologies;
  redirect_to = get_text m.redirect_to;
  favicon_hash = get_text m.favicon_mmh3;
  screenshot_url = get_text m.screenshot_url;
  ips = m.ip;
}

pub decode-to_proto_http_info :
    (h : HttpInfo) → InInt32 h.status_code → decode_http (to_proto_http_info h) ≡ normal_http h
unfolding to_proto_http_info
decode-to_proto_http_info h r = λ i. record {
  url = get_text-ptr_or_nil h.url i;
  scheme = get_text-ptr_or_nil h.scheme i;
  path = get_text-ptr_or_nil h.path i;
  status_code = get_int-ptr_int32_or_nil h.status_code r i;
  title = get_text-ptr_or_nil h.title i;
  content_type = get_text-ptr_or_nil h.content_type i;
  webserver = get_text-ptr_or_nil h.webserver i;
  technologies = nil_if_empty h.technologies;
  redirect_to = get_text-ptr_or_nil h.redirect_to i;
  favicon_hash = get_text-ptr_or_nil h.favicon_hash i;
  screenshot_url = get_text-ptr_or_nil h.screenshot_url i;
  ips = nil_if_empty h.ips;
}

module _ {T : Type 0} (parse : String → Option T) (print : T → String) where
  -- A time is read back by printing its timestamp; none where the text was not RFC 3339.
  abbrev pub get_time : Option T → String
  get_time none = ""
  get_time (some t) = print t

  abbrev pub normal_tls : TlsInfo → TlsInfo
  normal_tls c = record c {
    subject_alt_names = nil_if_empty c.subject_alt_names;
    not_before = get_time (parse_rfc3339 parse c.not_before);
    not_after = get_time (parse_rfc3339 parse c.not_after);
  }

  abbrev pub decode_tls : ProtoCertificate T → TlsInfo
  decode_tls m = record {
    subject_cn = get_text m.subject_cn;
    subject_org = get_text m.subject_org;
    subject_alt_names = m.subject_an;
    issuer_cn = get_text m.issuer_cn;
    issuer_org = get_text m.issuer_org;
    serial = get_text m.serial;
    fingerprint = get_text m.fingerprint;
    not_before = get_time m.not_before;
    not_after = get_time m.not_after;
    is_wildcard = get_bool m.wildcard;
  }

  decode-to_proto_certificate :
      (c : TlsInfo) → decode_tls (to_proto_certificate parse c) ≡ normal_tls c
  unfolding to_proto_certificate
  decode-to_proto_certificate c = λ i. record {
    subject_cn = get_text-ptr_or_nil c.subject_cn i;
    subject_org = get_text-ptr_or_nil c.subject_org i;
    subject_alt_names = nil_if_empty c.subject_alt_names;
    issuer_cn = get_text-ptr_or_nil c.issuer_cn i;
    issuer_org = get_text-ptr_or_nil c.issuer_org i;
    serial = get_text-ptr_or_nil c.serial i;
    fingerprint = get_text-ptr_or_nil c.fingerprint i;
    not_before = get_time (parse_rfc3339 parse c.not_before);
    not_after = get_time (parse_rfc3339 parse c.not_after);
    is_wildcard = get_bool-ptr_bool_or_nil c.is_wildcard i;
  }

  abbrev pub normal_service : Service → Service
  normal_service s = record s {
    service_status = "";
    cpes = nil_if_empty s.cpes;
    certificate = when_set normal_tls s.certificate;
    http = when_set normal_http s.http;
  }

  abbrev pub decode_service : ProtoService T → Service
  decode_service m = record {
    host = m.host;
    port = m.port;
    service_name = get_text m.service_name;
    service_status = "";
    cpes = m.cpes;
    certificate = when_set decode_tls m.certificate;
    http = when_set decode_http m.http;
  }

  -- The numbers that are converted to int32 fit.
  abbrev pub HttpFits : Option HttpInfo → Type 0
  HttpFits none = Unit
  HttpFits (some h) = InInt32 h.status_code

  abbrev pub Fits : Service → Type 0
  Fits s = InInt32 s.port × HttpFits s.http

  decode_all_http :
      (o : Option HttpInfo)
      → HttpFits o
      → when_set decode_http (when_set to_proto_http_info o) ≡ when_set normal_http o
  decode_all_http none h = refl
  decode_all_http (some x) h = ap some (decode-to_proto_http_info x h)

  decode_all_tls :
      (o : Option TlsInfo)
      → when_set decode_tls (when_set (to_proto_certificate parse) o) ≡ when_set normal_tls o
  decode_all_tls none = refl
  decode_all_tls (some c) = ap some (decode-to_proto_certificate c)

  decode-to_proto_service :
      (s : Service) → Fits s → decode_service (to_proto_service parse s) ≡ normal_service s
  unfolding to_proto_service
  decode-to_proto_service s h = λ i. record {
    host = s.host;
    port = to_int32_in_range s.port h.0 i;
    service_name = get_text-ptr_or_nil s.service_name i;
    service_status = "";
    cpes = nil_if_empty s.cpes;
    certificate = decode_all_tls s.certificate i;
    http = decode_all_http s.http h.1 i;
  }

  -- A list of services whose numbers fit into int32 is read back in order, HTTP and TLS data
  -- included: only the service status is lost, empty slices are absent, and a time that is not
  -- RFC 3339 is empty.
  pub decode-to_proto_services :
      (services : List Service)
      → All Fits services
      → map decode_service (to_proto_services parse services) ≡ map normal_service services
  unfolding to_proto_services
  decode-to_proto_services [] h = refl
  decode-to_proto_services (s ∷ services) h =
      λ i. decode-to_proto_service s h.0 i ∷ decode-to_proto_services services h.1 i
