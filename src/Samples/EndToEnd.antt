-- ===== src/Samples/EndToEnd.antt =====
-- What the server is pushed for a job that the service probe of examples/serviceprobe/main.go scans.
use rediver_sdk_go.Prelude.{
  ◌≡◌, refl, sym, ap, subst, ◌∙◌, inl, inr, true, Bool-cases, String, List, [], ◌∷◌, append-nil,
  map, concat, elems, if◌then◌else◌,
}
use rediver_sdk_go.Errors.{Error, is_nil}
use rediver_sdk_go.Result.{Service, Result}
use rediver_sdk_go.Result.Accessors.{
  of_services, get_domains, get_services, get_web_findings, get_sast_findings,
}
use rediver_sdk_go.Convert.Assets.{to_proto_domains, to_proto_services}
use rediver_sdk_go.Convert.Findings.{to_proto_web_findings, to_proto_sast_findings}
use rediver_sdk_go.Job.Defs.{Job, JobType, job_type}
use rediver_sdk_go.Job.Targets.{domains, services}
use rediver_sdk_go.Scanner.{ScanFunc, scan}
use rediver_sdk_go.Import.{fill_commit_sha}
use rediver_sdk_go.Agent.Rpc.{World, call_rpc}
use rediver_sdk_go.Agent.Execute.{Agent, scan_and_report, report_job_completed, report_job_failed}
use rediver_sdk_go.Agent.Delivery.{Pushed, add_services, pushed, Encodes}
use rediver_sdk_go.Agent.Delivery.Results.{add_results, import_results-pushed}
use rediver_sdk_go.Samples.{Surroundings}
use rediver_sdk_go.Samples.Probe.{probe, recheck, discover_services, retest_services, service_probe}
use rediver_sdk_go.Samples.AllOrNothing.{
  discover_services-AllOrNothing, retest_services-AllOrNothing,
}

module _ {F O : Type 0} where
  -- The services that the probe finds for a job of a type.
  abbrev found_by_type : JobType → Job F O → List Service
  found_by_type t j = elim t [
    | JobType.retest ↦ map recheck (elems (services j))
    | _ ↦ concat (map probe (elems (domains j)))
  ]

  abbrev pub found_by_probe : Job F O → List Service
  found_by_probe j = found_by_type (job_type j) j

module _ {S F O G : Type 0} (env : Surroundings S F) where
  abbrev scan_by_type : JobType → ScanFunc S F O G
  scan_by_type t j s = elim t [
    | JobType.retest ↦ retest_services env j s
    | _ ↦ discover_services env j s
  ]

  by_type-all :
      (t : JobType) (j : Job F O) (s : S)
      → (scan_by_type t j s).0.0
        ≡ (if is_nil (scan_by_type t j s).0.1 then of_services (found_by_type t j) ∷ [] else [])
  by_type-all JobType.discovery j s = (discover_services-AllOrNothing env j s).0
  by_type-all JobType.unknown j s = (discover_services-AllOrNothing env j s).0
  by_type-all JobType.retest j s = (retest_services-AllOrNothing env j s).0

  scan-by_type :
      (j : Job F O) (s : S) → scan (service_probe env) j s ≡ scan_by_type (job_type j) j s
  unfolding scan service_probe
  scan-by_type j s = refl

module _ {S F O T G : Type 0} (a : Agent S F O T G) (jwt : String) where
  -- A job that was scanned is pushed what its handler emitted, whether it is reported as completed or
  -- as failed.
  scan_and_report-pushed :
      (j : Job F O) (w : World S O T G)
      → Encodes a jwt
      → is_nil (a.clock.done (scan a.scanner j w.local).1) ≡ true
      → pushed (scan_and_report a jwt j w).1.history
        ≡ add_results a jwt j.resolved_head_sha (scan a.scanner j w.local).0.0 (pushed w.history)
  unfolding scan_and_report report_job_completed report_job_failed call_rpc pushed
  scan_and_report-pushed j w encodes live =
      let ((results, e), s) = scan a.scanner j w.local in
      let p =
        import_results-pushed a jwt j.resolved_head_sha results (record w { local = s }) encodes
          live in
      elim (Bool-cases (is_nil e)) [ inl y ↦ rw y p | inr n ↦ rw n p ]

  scan_and_report-error :
      (j : Job F O) (w : World S O T G)
      → is_nil (scan_and_report a jwt j w).0 ≡ is_nil (scan a.scanner j w.local).0.1
  unfolding scan_and_report
  scan_and_report-error j w = elim (Bool-cases (is_nil (scan a.scanner j w.local).0.1)) [
    | inl y ↦ rw y refl
    | inr n ↦ rw n n
  ]

  scan-all :
      (env : Surroundings S F) (j : Job F O) (s : S)
      → a.scanner ≡ service_probe env
      → (scan a.scanner j s).0.0
        ≡ (if is_nil (scan a.scanner j s).0.1 then of_services (found_by_probe j) ∷ [] else [])
  scan-all env j s p =
      subst
        (λ (r : (List (Result G) × Error) × S).
          r.0.0 ≡ (if is_nil r.0.1 then of_services (found_by_probe j) ∷ [] else []))
        (sym (ap (λ sc. scan sc j s) p ∙ scan-by_type env j s)) (by_type-all env (job_type j) j s)

  add_results_services :
      (head_sha : String) (ss : List Service) (p : Pushed T G)
      → add_results a jwt head_sha (of_services ss ∷ []) p
        ≡ add_services (to_proto_services a.clock.parse_time ss) p
  unfolding get_domains get_services get_web_findings get_sast_findings of_services to_proto_domains
      to_proto_web_findings to_proto_sast_findings fill_commit_sha
  add_results_services head_sha ss p = simp (append-nil)

  -- For an agent whose scanner is the sample service probe, where every message can be encoded and the
  -- context lives when the scan ends, whatever the server answers: if the job ends without an error,
  -- three services are pushed for each domain of the job, or in a retest one for each of its
  -- services, converted, once and in order, and nothing else; if it ends with an error, nothing is
  -- pushed.
  pub service_probe-pushed :
      (env : Surroundings S F) (j : Job F O) (w : World S O T G)
      → a.scanner ≡ service_probe env
      → Encodes a jwt
      → is_nil (a.clock.done (scan a.scanner j w.local).1) ≡ true
      → pushed (scan_and_report a jwt j w).1.history ≡ (
          if is_nil (scan_and_report a jwt j w).0
          then add_services
              (to_proto_services a.clock.parse_time (found_by_probe j))
              (pushed w.history)
          else pushed w.history)
  service_probe-pushed env j w is_probe encodes live =
      let p = scan_and_report-pushed j w encodes live in
      let q = scan-all env j w.local is_probe in
      elim (Bool-cases (is_nil (scan a.scanner j w.local).0.1)) [
        | inl y ↦
            simp (scan_and_report-error j w, y)
              (p
                ∙ ap (λ r. add_results a jwt j.resolved_head_sha r (pushed w.history)) (simp y at q)
                ∙ add_results_services _ _ _)
        | inr n ↦
            simp (scan_and_report-error j w, n)
              (p
                ∙ ap (λ r. add_results a jwt j.resolved_head_sha r (pushed w.history))
                    (simp n at q))
      ]
