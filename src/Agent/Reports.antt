-- ===== src/Agent/Reports.antt =====
-- The calls by which executeJob reports a job.
use rediver_sdk_go.Prelude.{
  ◌≡◌, refl, sym, ap, ◌∙◌, inl, inr, Bool, true, false, Bool-cases, Option-cases, not, String,
  non_empty, Option, none, List, [], ◌∷◌, if◌then◌else◌, arith,
}
use rediver_sdk_go.Errors.{is_nil}
use rediver_sdk_go.Retry.Keeps.{do_retry-view}
use rediver_sdk_go.Result.{Result}
use rediver_sdk_go.Import.Keeps.{import_result-view}
use rediver_sdk_go.Job.Defs.{Job, new_job}
use rediver_sdk_go.Job.Repository.{repository}
use rediver_sdk_go.Job.Message.{JobDetail}
use rediver_sdk_go.Convert.Message.{DnsRecord, ProtoService, ProtoWebFinding, ProtoCodeFinding}
use rediver_sdk_go.Agent.Rpc.{
  Request, World, get_job_detail, job_completed, job_failed, call_rpc, push, push_domains,
  push_services, push_web_findings, push_code_findings, create_token, artifact_download,
}
use rediver_sdk_go.Agent.Prepare.{prepare_archive, prepare_repository}
use rediver_sdk_go.Agent.Cleanup.{cleanup_repository-view}
use rediver_sdk_go.Scanner.{scan}
use rediver_sdk_go.Agent.Execute.{
  Agent, job_plane, fetch_detail, wait_for, job_detail, report_job_failed, report_job_completed,
  report_job_started, import_results, scan_and_report, prepare_and_scan, run_job, with_token,
  execute_job, cleanup_repository,
}

-- The reports among the calls, newest first: true for JobCompleted, false for JobFailed.
unfoldable pub reports : {O T G : Type 0} → List (Request O T G) → List Bool
reports [] = []
reports ((h, job_completed) ∷ rs) = true ∷ reports rs
reports ((h, job_failed d) ∷ rs) = false ∷ reports rs
reports ((h, _) ∷ rs) = reports rs

pub before_report :
    {b : Bool} {all old old' : List Bool} → all ≡ b ∷ old → old ≡ old' → all ≡ b ∷ old'
before_report {b} p q = p ∙ ap (λ l. b ∷ l) q

-- The report calls of a world.
abbrev pub reported : {S O T G : Type 0} → World S O T G → List Bool
reported w = reports w.history

module _ {S F O T G : Type 0} (a : Agent S F O T G) (jwt : String) where
  pub push_domains-reported :
      (xs : List DnsRecord) (w : World S O T G)
      → reported ((job_plane a jwt).push_domains xs w).1 ≡ reported w
  unfolding job_plane push call_rpc reports
  push_domains-reported xs w =
      elim (Bool-cases (not (is_nil (a.server.transcode (push_domains xs))))) [
        | inl broken ↦ rw broken refl
        | inr fine ↦ rw fine refl
      ]

  pub push_services-reported :
      (xs : List (ProtoService T)) (w : World S O T G)
      → reported ((job_plane a jwt).push_services xs w).1 ≡ reported w
  unfolding job_plane push call_rpc reports
  push_services-reported xs w =
      elim (Bool-cases (not (is_nil (a.server.transcode (push_services xs))))) [
        | inl broken ↦ rw broken refl
        | inr fine ↦ rw fine refl
      ]

  pub push_web_findings-reported :
      (xs : List (ProtoWebFinding G)) (w : World S O T G)
      → reported ((job_plane a jwt).push_web_findings xs w).1 ≡ reported w
  unfolding job_plane push call_rpc reports
  push_web_findings-reported xs w =
      elim (Bool-cases (not (is_nil (a.server.transcode (push_web_findings xs))))) [
        | inl broken ↦ rw broken refl
        | inr fine ↦ rw fine refl
      ]

  pub push_code_findings-reported :
      (xs : List (ProtoCodeFinding G)) (w : World S O T G)
      → reported ((job_plane a jwt).push_code_findings xs w).1 ≡ reported w
  unfolding job_plane push call_rpc reports
  push_code_findings-reported xs w =
      elim (Bool-cases (not (is_nil (a.server.transcode (push_code_findings xs))))) [
        | inl broken ↦ rw broken refl
        | inr fine ↦ rw fine refl
      ]

  pub import_results-reported :
      (sha : String) (rs : List (Result G)) (w : World S O T G)
      → reported (import_results a jwt sha rs w) ≡ reported w
  unfolding import_results job_plane
  import_results-reported sha [] w = refl
  import_results-reported sha (r ∷ rs) w =
      import_results-reported sha rs _
      ∙ import_result-view a.float a.retry_policy (job_plane a jwt) reported push_domains-reported
          push_services-reported push_web_findings-reported push_code_findings-reported
          (λ d v. refl) r sha w

  fetch_detail-reported :
      (v : World S O T G × Option (JobDetail O))
      → reported (fetch_detail a jwt v).1.0 ≡ reported v.0
  unfolding fetch_detail call_rpc reports
  fetch_detail-reported (w, d) =
      elim (Bool-cases (is_nil (call_rpc a.server a.token_manager jwt get_job_detail w).0)) [
        | inl ok ↦ rw ok refl
        | inr failed ↦ rw failed refl
      ]

  pub job_detail-reported : (w : World S O T G) → reported (job_detail a jwt w).1.0 ≡ reported w
  unfolding job_detail wait_for
  job_detail-reported w =
      do_retry-view a.float a.retry_policy _
        (λ (v : World S O T G × Option (JobDetail O)). reported v.0) fetch_detail-reported
        (λ d v. refl) (w, none)

  pub prepare_repository-reported :
      (j : Job F O) (w : World S O T G)
      → reported (prepare_repository a.system a.server a.token_manager jwt j w).1 ≡ reported w
  unfolding prepare_repository prepare_archive artifact_download call_rpc reports
  prepare_repository-reported j w = elim (Option-cases (repository j)) [
    | inl e ↦ rw (e, prepare_repository) refl
    | inr (repo, e) ↦
        rw (e, prepare_repository)
          (elim (Bool-cases (non_empty repo.artifact_id)) [
            | inl artifact ↦ rw artifact refl
            | inr git ↦ rw git refl
          ])
  ]

  scan_and_report-reported :
      (j : Job F O) (w : World S O T G)
      → reported (scan_and_report a jwt j w).1 ≡ is_nil (scan_and_report a jwt j w).0 ∷ reported w
  unfolding scan_and_report report_job_completed report_job_failed call_rpc reports
  scan_and_report-reported j w =
      let r = scan a.scanner j w.local in
      elim (Bool-cases (is_nil r.0.1)) [
        | inl ok ↦ rw ok (ap (λ l. true ∷ l) (import_results-reported j.resolved_head_sha r.0.0 _))
        | inr failed ↦ rw failed (
            ap (λ l. false ∷ l) (import_results-reported j.resolved_head_sha r.0.0 _)
            ∙ ap (λ b. b ∷ reported w) (sym failed))
      ]

  pub cleanup_repository-reported :
      (j : Job F O) (w : World S O T G) → reported (cleanup_repository a jwt j w) ≡ reported w
  unfolding call_rpc reports
  cleanup_repository-reported j w =
      cleanup_repository-view a jwt reported (λ l m v. refl) (λ s v. refl) j w

  prepare_and_scan-reported :
      (j : Job F O) (w : World S O T G)
      → reported (prepare_and_scan a jwt j w).1 ≡ is_nil (prepare_and_scan a jwt j w).0 ∷ reported w
  unfolding prepare_and_scan report_job_failed call_rpc reports
  prepare_and_scan-reported j w =
      let r = prepare_repository a.system a.server a.token_manager jwt j w in
      elim (Bool-cases (is_nil r.0.0)) [
        | inl ok ↦ rw ok (
            cleanup_repository-reported r.0.1 _
            ∙ before_report (scan_and_report-reported r.0.1 r.1) (prepare_repository-reported j w))
        | inr failed ↦ rw failed (
            ap (λ l. false ∷ l) (prepare_repository-reported j w)
            ∙ ap (λ b. b ∷ reported w) (sym failed))
      ]

  run_job-reported :
      (j : Job F O) (w : World S O T G)
      → reported (run_job a jwt j w).1 ≡ is_nil (run_job a jwt j w).0 ∷ reported w
  unfolding run_job report_job_started call_rpc reports
  run_job-reported j w = elim (Option-cases (repository j)) [
    | inl e ↦ rw (e, run_job) (scan_and_report-reported j _)
    | inr (repo, e) ↦ rw (e, run_job) (prepare_and_scan-reported j _)
  ]

  with_token-reported :
      (w : World S O T G)
      → reported (with_token a jwt w).1 ≡ is_nil (with_token a jwt w).0 ∷ reported w
  unfolding with_token report_job_failed call_rpc reports
  with_token-reported w =
      let r = job_detail a jwt w in
      elim (Bool-cases (is_nil (job_detail a jwt w).0)) [
        | inl ok ↦ rw ok (
            before_report
              (run_job-reported (record (new_job r.1.1) { execution_token = jwt }) r.1.0)
              (job_detail-reported w))
        | inr failed ↦
            rw failed
              (ap (λ l. false ∷ l) (job_detail-reported w) ∙ ap (λ b. b ∷ reported w) (sym failed))
      ]

pub create_token-reported :
    {S F O T G : Type 0} (a : Agent S F O T G) (job_id : String) (w : World S O T G)
    → reported (create_token a.server a.token_manager job_id w).1 ≡ reported w
unfolding create_token call_rpc reports
create_token-reported a job_id w = ground arith

-- Whatever the server, the network, the system and a handler that returns do, executeJob makes exactly
-- one call that reports the job if its token was minted, of JobCompleted where it returns no error
-- and of JobFailed where it returns one, and none if no token was minted.
pub execute_job-reports :
    {S F O T G : Type 0} (a : Agent S F O T G) (job_id : String) (w : World S O T G)
    → reported (execute_job a job_id w).1 ≡ (
        if is_nil (create_token a.server a.token_manager job_id w).0.0
        then is_nil (execute_job a job_id w).0 ∷ reported w
        else reported w)
unfolding execute_job
execute_job-reports a job_id w =
    let r = create_token a.server a.token_manager job_id w in
    elim (Bool-cases (is_nil r.0.0)) [
      | inl minted ↦
          rw minted
            (before_report (with_token-reported a r.0.1 r.1) (create_token-reported a job_id w))
      | inr refused ↦ rw refused (create_token-reported a job_id w)
    ]
