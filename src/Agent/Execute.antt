-- ===== src/Agent/Execute.antt =====
-- agent_execute.go: executeJob.
-- The heartbeat loop beside a job is in Agent/Beating, a handler that panics in Agent/Panics. Of the
-- log, the lines of the job's logger are calls of Log; those on the console only are left out, and so
-- are those that a handler writes.
use rediver_sdk_go.Prelude.{
  Bool, true, is_empty, String, Option, none, some, List, [], ◌∷◌, ℤ, pos, ℕ, ◌<>◌, if◌then◌else◌,
}
use rediver_sdk_go.Errors.{Error, nil, is_nil}
use rediver_sdk_go.Retry.{FloatArith, RetryPolicy, do_retry}
use rediver_sdk_go.Result.{Result}
use rediver_sdk_go.Job.Message.{JobDetail}
use rediver_sdk_go.Job.Defs.{Job, new_job}
use rediver_sdk_go.Job.Repository.{repository}
use rediver_sdk_go.Scanner.{Scanner, scan}
use rediver_sdk_go.Import.{Plane, import_result}
use rediver_sdk_go.Logger.{Attr, new_job_log_handler, enabled, handle}
use rediver_sdk_go.Agent.Client.{send_log}
use rediver_sdk_go.Agent.Rpc.{
  World, Server, TokenManager, push_domains, push_services, push_web_findings, push_code_findings,
  push, create_token, call_push_assets, call_push_findings, call_get_job_detail, call_job_start,
  call_job_completed, call_job_failed,
}
use rediver_sdk_go.Agent.Prepare.{System, locally, prepare_repository}

-- What surrounds the retries: contexts, clocks, random numbers, and the decoding of texts.
pub record Clock (S F T G : Type 0) : Type 0 where
  pub done : S → Error
  pub wait : ℤ → S → Error × S
  pub random : ℕ → F
  pub parse_time : String → Option T
  pub is_zero_float : G → Bool
  pub error_text : Error → String

pub record Agent (S F O T G : Type 0) : Type 0 where
  pub server : Server O T G
  pub token_manager : TokenManager
  pub system : System S
  pub clock : Clock S F T G
  pub scanner : Scanner S F O G
  pub float : FloatArith F
  pub retry_policy : RetryPolicy F
  pub log_level : ℤ

module _ {S F O T G : Type 0} (a : Agent S F O T G) (jwt : String) where
  -- The pushes of `importResult` under the job's context.
  unfoldable pub job_plane : Plane (World S O T G) F T G
  unfolding push call_push_assets call_push_findings
  job_plane = record {
    push_domains = λ xs. call_push_assets a.server a.token_manager jwt (push_domains xs);
    push_services = λ xs. call_push_assets a.server a.token_manager jwt (push_services xs);
    push_web_findings =
        λ xs. call_push_findings a.server a.token_manager jwt (push_web_findings xs);
    push_code_findings =
        λ xs. call_push_findings a.server a.token_manager jwt (push_code_findings xs);
    done = λ w. a.clock.done w.local;
    wait = λ d. locally (a.clock.wait d);
    random = a.clock.random;
    parse_time = a.clock.parse_time;
    is_zero_float = a.clock.is_zero_float;
  }

  -- The function that `getJobDetail` retries, with the variable `detail` that it assigns.
  unfoldable pub fetch_detail :
      World S O T G × Option (JobDetail O) → Error × (World S O T G × Option (JobDetail O))
  unfolding call_get_job_detail
  fetch_detail (w, _) =
      let ((e, detail), w') = call_get_job_detail a.server a.token_manager jwt w in
      (e, (w', detail))

  unfoldable pub wait_for :
      ℤ → World S O T G × Option (JobDetail O) → Error × (World S O T G × Option (JobDetail O))
  wait_for d (w, detail) = let (e, w') = locally (a.clock.wait d) w in (e, (w', detail))

  -- `getJobDetail`
  unfoldable pub job_detail : World S O T G → Error × (World S O T G × Option (JobDetail O))
  unfolding fetch_detail wait_for
  job_detail w =
      do_retry a.float a.retry_policy
        (record {
          call = fetch_detail;
          done = λ (v : World S O T G × Option (JobDetail O)). a.clock.done v.0.local;
          wait = wait_for;
          random = a.clock.random;
        })
        (w, none)

  -- `reportJobFailed`; its own error is logged and dropped.
  unfoldable pub report_job_failed : String → World S O T G → World S O T G
  unfolding call_job_failed
  report_job_failed description w = (call_job_failed a.server a.token_manager jwt description w).1

  unfoldable pub report_job_completed : World S O T G → World S O T G
  unfolding call_job_completed
  report_job_completed w = (call_job_completed a.server a.token_manager jwt w).1

  unfoldable pub report_job_started : World S O T G → World S O T G
  unfolding call_job_start
  report_job_started w = (call_job_start a.server a.token_manager jwt w).1

  -- The results that a handler emits, each imported as it comes.
  unfoldable pub import_results : String → List (Result G) → World S O T G → World S O T G
  unfolding job_plane import_result
  import_results head_sha [] w = w
  import_results head_sha (res ∷ results) w =
      import_results head_sha results
        (import_result a.float a.retry_policy job_plane res head_sha w)

  -- `executeJob` from the scan on.
  unfoldable pub scan_and_report : Job F O → World S O T G → Error × World S O T G
  unfolding scan import_results report_job_failed report_job_completed
  scan_and_report j w =
      let ((results, e), w1) = locally (scan a.scanner j) w in
      let w2 = import_results j.resolved_head_sha results w1 in
      if is_nil e
      then (nil, report_job_completed w2)
      else (e, report_job_failed (a.clock.error_text e) w2)

  -- A line of the job's logger: `logFn` is called in a goroutine of its own, which nobody waits for,
  -- and its call of Log stands where the line is written; its error goes to the console.
  unfoldable pub write_log :
      (level : ℤ) → (message : String) → List (Attr String) → World S O T G → World S O T G
  unfolding enabled handle new_job_log_handler send_log
  write_log level message attrs w =
      let h = new_job_log_handler true a.log_level in
      if enabled h level
      then elim (handle (λ s. s) h (record { level = level; message = message; attrs = attrs })) [
        | none ↦ w
        | some (l, m) ↦ (send_log a.server a.token_manager jwt l m w).1
      ]
      else w

  -- `cleanupRepository`, whose effect on the job is not seen any more.
  unfoldable pub cleanup_repository : Job F O → World S O T G → World S O T G
  unfolding write_log
  cleanup_repository j w =
      let (e, w') = locally (a.system.remove_all j.cloned_repo_dir) w in
      let dir : Attr String = record { key = "dir"; value = j.cloned_repo_dir } in
      if is_empty j.cloned_repo_dir
      then w
      else if is_nil e
      then write_log (pos 0) "cleaned up cloned repo" (dir ∷ []) w'
      else write_log (pos 4) "cleanup repo failed"
          (dir ∷ record { key = "error"; value = a.clock.error_text e } ∷ []) w'

  -- The part on the repository; a prepared one is removed at the end.
  unfoldable pub prepare_and_scan : Job F O → World S O T G → Error × World S O T G
  unfolding prepare_repository scan_and_report cleanup_repository
  prepare_and_scan j w =
      let ((e, j'), w1) = prepare_repository a.system a.server a.token_manager jwt j w in
      let (e', w2) = scan_and_report j' w1 in
      if is_nil e
      then (e', cleanup_repository j' w2)
      else (e, report_job_failed ("prepare repo: " <> a.clock.error_text e) w1)

  unfoldable pub run_job : Job F O → World S O T G → Error × World S O T G
  unfolding report_job_started prepare_and_scan scan_and_report
  run_job j w =
      let w1 = report_job_started w in
      elim (repository j) [ none ↦ scan_and_report j w1 | some repo ↦ prepare_and_scan j w1 ]

  -- `executeJob` after the job token was minted.
  unfoldable pub with_token : World S O T G → Error × World S O T G
  unfolding job_detail report_job_failed run_job new_job
  with_token w =
      let (e, (w1, detail)) = job_detail w in
      if is_nil e
      then run_job (record (new_job detail) { execution_token = jwt }) w1
      else (e, report_job_failed ("get detail: " <> a.clock.error_text e) w1)

module _ {S F O T G : Type 0} (a : Agent S F O T G) where
  -- `executeJob`
  unfoldable pub execute_job : (job_id : String) → World S O T G → Error × World S O T G
  unfolding create_token with_token
  execute_job job_id w =
      let ((e, jwt), w1) = create_token a.server a.token_manager job_id w in
      if is_nil e then with_token a jwt w1 else (e, w1)
