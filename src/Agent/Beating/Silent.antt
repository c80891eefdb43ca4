-- ===== src/Agent/Beating/Silent.antt =====
-- Without a tick, executeJob with its heartbeats is executeJob as Agent/Execute has it.
use rediver_sdk_go.Prelude.{ℕ, ◌≡◌, refl, inl, inr, Bool-cases, Option-cases, String, List, [], ◌∷◌}
use rediver_sdk_go.Errors.{is_nil}
use rediver_sdk_go.Result.{Result}
use rediver_sdk_go.Job.Defs.{Job, new_job}
use rediver_sdk_go.Job.Repository.{repository}
use rediver_sdk_go.Scanner.{scan}
use rediver_sdk_go.Agent.Rpc.{Request, World, create_token}
use rediver_sdk_go.Agent.Prepare.{prepare_repository}
use rediver_sdk_go.Agent.Client.{job_heartbeat_loop}
use rediver_sdk_go.Agent.Execute.{
  Agent, job_detail, import_results, scan_and_report, prepare_and_scan, run_job, with_token,
  execute_job,
}
use rediver_sdk_go.Agent.Beating.{
  beat, beating_plane, import_beating, scan_beating, prepare_beating, run_beating,
  with_token_beating, execute_beating,
}

abbrev no_ticks : {O T G : Type 0} → List (Request O T G) → ℕ
no_ticks history = 0

module _ {S F O T G : Type 0} (a : Agent S F O T G) (jwt : String) where
  import_silent :
      (sha : String) (rs : List (Result G)) (w : World S O T G)
      → import_beating a no_ticks jwt sha rs w ≡ import_results a jwt sha rs w
  unfolding import_beating import_results beating_plane beat job_heartbeat_loop
  import_silent sha [] w = refl
  import_silent sha (r ∷ rs) w = import_silent sha rs _

  scan_silent :
      (j : Job F O) (w : World S O T G)
      → scan_beating a no_ticks jwt j w ≡ scan_and_report a jwt j w
  unfolding scan_beating scan_and_report beat job_heartbeat_loop
  scan_silent j w =
      rw
        (import_silent j.resolved_head_sha (scan a.scanner j w.local).0.0
          (record w { local = (scan a.scanner j w.local).1 }))
        refl

  prepare_silent :
      (j : Job F O) (w : World S O T G)
      → prepare_beating a no_ticks jwt j w ≡ prepare_and_scan a jwt j w
  unfolding prepare_beating prepare_and_scan
  prepare_silent j w =
      let r = prepare_repository a.system a.server a.token_manager jwt j w in
      rw (scan_silent r.0.1 r.1) refl

  run_silent :
      (j : Job F O) (w : World S O T G) → run_beating a no_ticks jwt j w ≡ run_job a jwt j w
  unfolding run_beating run_job
  run_silent j w = elim (Option-cases (repository j)) [
    | inl e ↦ rw (e, run_beating, run_job) (scan_silent j _)
    | inr (repo, e) ↦ rw (e, run_beating, run_job) (prepare_silent j _)
  ]

  with_token_silent : (w : World S O T G) → with_token_beating a no_ticks jwt w ≡ with_token a jwt w
  unfolding with_token_beating with_token
  with_token_silent w =
      let r = job_detail a jwt w in
      elim (Bool-cases (is_nil r.0)) [
        | inl ok ↦ rw ok (run_silent (record (new_job r.1.1) { execution_token = jwt }) r.1.0)
        | inr failed ↦ rw failed refl
      ]

-- Where no tick of the heartbeats comes while a job is scanned, executeJob with its heartbeats does
-- what it does without them.
pub execute_beating-silent :
    {S F O T G : Type 0} (a : Agent S F O T G) (job_id : String) (w : World S O T G)
    → execute_beating a no_ticks job_id w ≡ execute_job a job_id w
unfolding execute_beating execute_job
execute_beating-silent a job_id w =
    let r = create_token a.server a.token_manager job_id w in
    elim (Bool-cases (is_nil r.0.0)) [
      | inl ok ↦ rw ok (with_token_silent a r.0.1 r.1)
      | inr failed ↦ rw failed refl
    ]
