-- ===== src/Agent/Beating.antt =====
-- executeJob of agent_execute.go with the heartbeats of the job. jobHeartbeatLoop of
-- agent_heartbeat.go runs beside the scan, from after the preparation of the repository; `ticks`
-- says, for the calls that were made so far, how many of its ticks come before the next one.
-- executeJob does not wait for the goroutine of the loop after cancelHB, and its select may still
-- take a tick where the context has ended too: ticks may come before the report and after it.
pub mod Reports
pub mod Silent
use rediver_sdk_go.Prelude.{ℕ, String, none, some, List, [], ◌∷◌, ◌<>◌, if◌then◌else◌}
use rediver_sdk_go.Errors.{Error, nil, is_nil}
use rediver_sdk_go.Result.{Result}
use rediver_sdk_go.Job.Defs.{Job, new_job}
use rediver_sdk_go.Job.Repository.{repository}
use rediver_sdk_go.Scanner.{scan}
use rediver_sdk_go.Import.{Plane, import_result}
use rediver_sdk_go.Agent.Rpc.{World, Request, create_token}
use rediver_sdk_go.Agent.Prepare.{locally, prepare_repository}
use rediver_sdk_go.Agent.Client.{job_heartbeat_loop}
use rediver_sdk_go.Agent.Execute.{
  Agent, job_plane, job_detail, report_job_failed, report_job_completed, report_job_started,
  cleanup_repository,
}

module _ {S F O T G : Type 0} (a : Agent S F O T G) (ticks : List (Request O T G) → ℕ)
    (jwt : String) where
  unfoldable pub beat : World S O T G → World S O T G
  unfolding job_heartbeat_loop
  beat w = job_heartbeat_loop a.server a.token_manager jwt (ticks w.history) w

  unfoldable pub beating_plane : Plane (World S O T G) F T G
  unfolding job_plane beat
  beating_plane =
      let p = job_plane a jwt in
      record p {
        push_domains = λ xs w. p.push_domains xs (beat w);
        push_services = λ xs w. p.push_services xs (beat w);
        push_web_findings = λ xs w. p.push_web_findings xs (beat w);
        push_code_findings = λ xs w. p.push_code_findings xs (beat w);
      }

  unfoldable pub import_beating : String → List (Result G) → World S O T G → World S O T G
  unfolding beating_plane import_result
  import_beating head_sha [] w = w
  import_beating head_sha (res ∷ results) w =
      import_beating head_sha results
        (import_result a.float a.retry_policy beating_plane res head_sha w)

  unfoldable pub scan_beating : Job F O → World S O T G → Error × World S O T G
  unfolding scan import_beating beat report_job_failed report_job_completed
  scan_beating j w =
      let ((results, e), w1) = locally (scan a.scanner j) w in
      let w2 = beat (import_beating j.resolved_head_sha results w1) in
      if is_nil e
      then (nil, beat (report_job_completed a jwt w2))
      else (e, beat (report_job_failed a jwt (a.clock.error_text e) w2))

  unfoldable pub prepare_beating : Job F O → World S O T G → Error × World S O T G
  unfolding prepare_repository scan_beating cleanup_repository
  prepare_beating j w =
      let ((e, j'), w1) = prepare_repository a.system a.server a.token_manager jwt j w in
      let (e', w2) = scan_beating j' w1 in
      if is_nil e
      then (e', cleanup_repository a jwt j' w2)
      else (e, report_job_failed a jwt ("prepare repo: " <> a.clock.error_text e) w1)

  unfoldable pub run_beating : Job F O → World S O T G → Error × World S O T G
  unfolding report_job_started prepare_beating scan_beating
  run_beating j w =
      let w1 = report_job_started a jwt w in
      elim (repository j) [ none ↦ scan_beating j w1 | some repo ↦ prepare_beating j w1 ]

  unfoldable pub with_token_beating : World S O T G → Error × World S O T G
  unfolding job_detail report_job_failed run_beating new_job
  with_token_beating w =
      let (e, (w1, detail)) = job_detail a jwt w in
      if is_nil e
      then run_beating (record (new_job detail) { execution_token = jwt }) w1
      else (e, report_job_failed a jwt ("get detail: " <> a.clock.error_text e) w1)

module _ {S F O T G : Type 0} (a : Agent S F O T G) (ticks : List (Request O T G) → ℕ) where
  unfoldable pub execute_beating : (job_id : String) → World S O T G → Error × World S O T G
  unfolding create_token with_token_beating
  execute_beating job_id w =
      let ((e, jwt), w1) = create_token a.server a.token_manager job_id w in
      if is_nil e then with_token_beating a ticks jwt w1 else (e, w1)
