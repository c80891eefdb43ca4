-- ===== src/Examples/Probes.antt =====
-- The sample service probe in an agent, for a job with two domains.
use rediver_sdk_go.Prelude.{
  ℕ, ◌+◌, ◌≡◌, refl, String, none, some, [], ◌∷◌, ℤ, true, if◌then◌else◌, map, concat, elems,
}
use rediver_sdk_go.Errors.{nil, is_nil}
use rediver_sdk_go.Result.Accessors.{of_services, of_domains, of_web_findings}
use rediver_sdk_go.Param.Value.{Floats}
use rediver_sdk_go.Convert.Assets.{to_proto_services}
use rediver_sdk_go.Job.Message.{JobDetail}
use rediver_sdk_go.Job.Defs.{Job, new_job}
use rediver_sdk_go.Job.Targets.{domains, services}
use rediver_sdk_go.Scanner.{scan}
use rediver_sdk_go.Agent.Execute.{Agent, scan_and_report}
use rediver_sdk_go.Agent.Delivery.{add_services, pushed}
use rediver_sdk_go.Samples.{Surroundings, each_target, emit_found}
use rediver_sdk_go.Samples.Probe.{probe, recheck, discover_services, retest_services, service_probe}
use rediver_sdk_go.Samples.Subdomains.{discover, discover_subdomains, retest_subdomains}
use rediver_sdk_go.Samples.Vulnerabilities.{attack, scan_vulnerabilities}
use rediver_sdk_go.Samples.AllOrNothing.{AllOrNothing, still_there, samples-AllOrNothing}
use rediver_sdk_go.Samples.EndToEnd.{found_by_probe, service_probe-pushed}
use rediver_sdk_go.Examples.Values.{agent, detail, start}

abbrev floats : Floats ℤ
floats = record { to_int = λ x. x; non_zero = λ x. true; format = λ x. "1" }

-- A sleep and a line of the log count one each.
abbrev pub surroundings : Surroundings ℕ ℤ
surroundings = record {
  done = λ n. nil;
  sleep = λ ms n. n + 1;
  info = λ message args n. n + 1;
  floats = floats;
}

abbrev two_domains : JobDetail ℕ
two_domains = record detail {
  target = some (record {
    domains =
        record { id = "d1"; value = "a.example"; cname = ""; ips = none }
        ∷ record { id = "d2"; value = "b.example"; cname = ""; ips = none }
        ∷ [];
    ips = [];
    subnets = [];
    services = [];
    repository = none;
  });
}

abbrev probing : Agent ℕ ℤ ℕ String ℕ
probing = record agent { scanner = service_probe surroundings }

abbrev probe_job : Job ℤ ℕ
probe_job = new_job (some two_domains)

service_probe-pushed_example : pushed (scan_and_report probing "jwt" probe_job start).1.history ≡ (
    if is_nil (scan_and_report probing "jwt" probe_job start).0
    then add_services
        (to_proto_services probing.clock.parse_time (found_by_probe probe_job))
        (pushed start.history)
    else pushed start.history)
service_probe-pushed_example =
    service_probe-pushed probing "jwt" surroundings probe_job start refl (λ rpc. refl) refl

-- The scan of the probe succeeds.
probe_succeeds : is_nil (scan_and_report probing "jwt" probe_job start).0 ≡ true
unfolding scan_and_report scan service_probe discover_services each_target emit_found new_job
    domains
probe_succeeds = refl

samples-AllOrNothing_example :
    AllOrNothing {O = ℕ} {G = ℕ} surroundings
      (discover_services surroundings)
      (λ j. of_services (concat (map probe (elems (domains j)))))
    × AllOrNothing {O = ℕ} {G = ℕ} surroundings
        (retest_services surroundings)
        (λ j. of_services (map recheck (elems (services j))))
    × AllOrNothing {O = ℕ} {G = ℕ} surroundings
        (discover_subdomains surroundings)
        (λ j. of_domains (concat (map discover (elems (domains j)))))
    × AllOrNothing {O = ℕ} {G = ℕ} surroundings
        (retest_subdomains surroundings)
        (λ j. of_domains (concat (map still_there (elems (domains j)))))
    × AllOrNothing {O = ℕ} {G = ℕ} surroundings
        (scan_vulnerabilities surroundings 98 61)
        (λ j. of_web_findings (concat (map (attack 98 61) (elems (services j)))))
samples-AllOrNothing_example = samples-AllOrNothing surroundings 98 61
