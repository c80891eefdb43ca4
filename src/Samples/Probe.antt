-- ===== src/Samples/Probe.antt =====
-- examples/serviceprobe/main.go.
use rediver_sdk_go.Prelude.{
  true, false, String, ◌<>◌, some, none, List, [], ◌∷◌, ◌++◌, ℤ, pos, elems, length, non_empty,
  if◌then◌else◌,
}
use rediver_sdk_go.Result.{TlsInfo, HttpInfo, Service}
use rediver_sdk_go.Result.Accessors.{of_services}
use rediver_sdk_go.Param.Value.{str, integer, int, boolean}
use rediver_sdk_go.Param.Builder.{
  Param, string_param, int_param, bool_param, with_label, with_description, with_default,
}
use rediver_sdk_go.Param.Access.{string_or, int_or, bool_or}
use rediver_sdk_go.Job.Defs.{param}
use rediver_sdk_go.Job.Targets.{DomainTarget, ServiceTarget, domains, services}
use rediver_sdk_go.Scanner.{Scanner, ScanFunc, new_scanner, with_retest_handler, with_param}
use rediver_sdk_go.Samples.{Surroundings, text, number, count, flag, each_target, emit_found}

-- `HTTPInfo{}`, `TLSInfo{}` and `Service{Host: host, Port: port}`
abbrev no_http : HttpInfo
no_http = record {
  url = "";
  scheme = "";
  path = "";
  status_code = pos 0;
  title = "";
  content_type = "";
  webserver = "";
  technologies = none;
  redirect_to = "";
  favicon_hash = "";
  screenshot_url = "";
  ips = none;
}

abbrev no_tls : TlsInfo
no_tls = record {
  subject_cn = "";
  subject_org = "";
  subject_alt_names = none;
  issuer_cn = "";
  issuer_org = "";
  serial = "";
  fingerprint = "";
  not_before = "";
  not_after = "";
  is_wildcard = false;
}

abbrev service_at : String → ℤ → Service
service_at host port = record {
  host = host;
  port = port;
  service_name = "";
  service_status = "";
  cpes = none;
  certificate = none;
  http = none;
}

unfoldable pub http_service : String → Service
http_service host = record (service_at host (pos 80)) {
  service_name = "http";
  http = some (record no_http {
    url = "http://" <> host;
    scheme = "http";
    status_code = pos 200;
    title = "Welcome Page";
    webserver = "nginx/1.24.0";
  });
}

unfoldable pub https_service : String → Service
https_service host = record (service_at host (pos 443)) {
  service_name = "https";
  certificate = some (record no_tls {
    subject_cn = host;
    issuer_cn = "Let's Encrypt Authority X3";
    issuer_org = "Let's Encrypt";
    not_before = "2024-01-01T00:00:00Z";
    not_after = "2024-04-01T00:00:00Z";
  });
  http = some (record no_http {
    url = "https://" <> host;
    scheme = "https";
    status_code = pos 200;
    title = "Secure Page";
    webserver = "nginx/1.24.0";
    technologies = some ("React" ∷ "Node.js" ∷ []);
  });
}

unfoldable pub ssh_service : String → Service
ssh_service host = record (service_at host (pos 22)) {
  service_name = "ssh";
  cpes = some ("cpe:/a:openbsd:openssh:8.9" ∷ []);
}

-- The services that a round appends.
unfoldable pub probe : DomainTarget → List Service
unfolding http_service https_service ssh_service
probe t = http_service t.value ∷ https_service t.value ∷ ssh_service t.value ∷ []

unfoldable pub recheck : ServiceTarget → Service
recheck svc =
    if non_empty svc.url
    then record (service_at svc.host svc.port) {
      service_name = "https";
      http = some (record no_http { url = svc.url; status_code = pos 200 });
    }
    else service_at svc.host svc.port

module _ {F O : Type 0} where
  abbrev ports : Param F O
  ports = with_default (str "80,443,8080,8443") (
      with_description "Ports to scan (e.g., '80,443,8080' or '1-1000')"
        (with_label "Ports" (string_param "ports")))

  abbrev timeout : Param F O
  timeout = with_default (integer int (pos 5)) (
      with_description "Connection timeout in seconds" (with_label "Timeout" (int_param "timeout")))

  abbrev grab_banners : Param F O
  grab_banners = with_default (boolean true) (
      with_description "Attempt to grab service banners"
        (with_label "Grab Banners" (bool_param "grab_banners")))

module _ {S F O G : Type 0} (env : Surroundings S F) where
  unfoldable pub discover_services : ScanFunc S F O G
  unfolding domains
  discover_services j s =
      let ports = string_or env.floats (param j "ports") "80,443,8080,8443" in
      let timeout = int_or env.floats (param j "timeout") (pos 5) in
      let grab_banners = bool_or env.floats (param j "grab_banners") true in
      let s1 =
        env.info "starting service probe"
          (("ports", text ports)
            ∷ ("timeout", number timeout)
            ∷ ("banners", flag grab_banners)
            ∷ [])
          s in
      emit_found of_services
        (λ found. env.info "probe complete" (("services_found", count (length found)) ∷ []))
        (each_target env (λ t found s. (found ++ probe t, env.sleep 100 s)) (elems (domains j)) []
          s1)

  unfoldable pub retest_services : ScanFunc S F O G
  unfolding services
  retest_services j s =
      let s1 =
        env.info "starting recheck" (("services_count", count (length (elems (services j)))) ∷ [])
          s in
      emit_found of_services (λ found s. s)
        (each_target env (λ svc found s. (found ++ recheck svc ∷ [], env.sleep 50 s))
          (elems (services j)) [] s1)

  unfoldable pub service_probe : Scanner S F O G
  unfolding new_scanner discover_services retest_services
  service_probe =
      new_scanner "service_probe" ("Subdomain" ∷ "Ip" ∷ "Service" ∷ []) discover_services (
        with_retest_handler (some retest_services)
        ∷ with_param ports
        ∷ with_param timeout
        ∷ with_param grab_banners
        ∷ [])
