-- ===== src/Agent/Panics.antt =====
-- executeJob of agent_execute.go where the scanner's handler panics in a worker of the pool. The
-- deferred cleanup runs, and the recovery of the worker makes an error of the panic (RunOnce has no
-- recovery: there the process ends); `cancelHB` is not deferred, so the job's heartbeat loop of
-- agent_heartbeat.go goes on.
pub mod Abandoned
use rediver_sdk_go.Prelude.{Bool, true, false, String, none, some, List, ◌<>◌, if◌then◌else◌}
use rediver_sdk_go.Errors.{Error, panic_error, is_nil}
use rediver_sdk_go.Result.{Result}
use rediver_sdk_go.Job.Defs.{Job, new_job}
use rediver_sdk_go.Job.Repository.{repository}
use rediver_sdk_go.Agent.Rpc.{World, create_token}
use rediver_sdk_go.Agent.Prepare.{locally, prepare_repository}
use rediver_sdk_go.Agent.Execute.{
  Agent, job_detail, report_job_failed, report_job_started, import_results, cleanup_repository,
}

-- A handler that emits results and then panics with a value.
abbrev pub PanicFunc : (S F O G : Type 0) → Type 0
PanicFunc S F O G = Job F O → S → (List (Result G) × String) × S

-- The error that the worker gives to OnError, and whether the job's heartbeat loop still runs.
abbrev pub Left : Type 0
Left = Error × Bool

module _ {S F O T G : Type 0} (a : Agent S F O T G) (handler : PanicFunc S F O G) where
  -- From the spawn of the heartbeat loop to the panic; what was emitted before it is imported.
  unfoldable pub scan_and_panic : (jwt : String) → Job F O → World S O T G → Left × World S O T G
  scan_and_panic jwt j w =
      let ((results, value), w1) = locally (handler j) w in
      ((panic_error value, true), import_results a jwt j.resolved_head_sha results w1)

  unfoldable pub prepare_and_panic : (jwt : String) → Job F O → World S O T G → Left × World S O T G
  prepare_and_panic jwt j w =
      let ((e, j'), w1) = prepare_repository a.system a.server a.token_manager jwt j w in
      let (r, w2) = scan_and_panic jwt j' w1 in
      if is_nil e
      then (r, cleanup_repository a jwt j' w2)
      else ((e, false), report_job_failed a jwt ("prepare repo: " <> a.clock.error_text e) w1)

  unfoldable pub run_and_panic : (jwt : String) → Job F O → World S O T G → Left × World S O T G
  run_and_panic jwt j w =
      let w1 = report_job_started a jwt w in
      elim (repository j) [
        | none ↦ scan_and_panic jwt j w1
        | some repo ↦ prepare_and_panic jwt j w1
      ]

  unfoldable pub with_token_and_panic : (jwt : String) → World S O T G → Left × World S O T G
  with_token_and_panic jwt w =
      let (e, (w1, detail)) = job_detail a jwt w in
      if is_nil e
      then run_and_panic jwt (record (new_job detail) { execution_token = jwt }) w1
      else ((e, false), report_job_failed a jwt ("get detail: " <> a.clock.error_text e) w1)

  -- `agentPoolJob.Execute` under the recovery of the pool's worker.
  unfoldable pub execute_and_panic : (job_id : String) → World S O T G → Left × World S O T G
  execute_and_panic job_id w =
      let ((e, jwt), w1) = create_token a.server a.token_manager job_id w in
      if is_nil e then with_token_and_panic jwt w1 else ((e, false), w1)
