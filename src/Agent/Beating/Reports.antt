-- ===== src/Agent/Beating/Reports.antt =====
-- What the heartbeats of a job leave as it is.
use rediver_sdk_go.Prelude.{
  ℕ, zero, suc, ◌≡◌, refl, sym, ap, ◌∙◌, inl, inr, true, false, Bool-cases, Option-cases, String,
  non_empty, List, [], ◌∷◌,
}
use rediver_sdk_go.Errors.{Error, nil, is_nil}
use rediver_sdk_go.Result.{Result}
use rediver_sdk_go.Import.Keeps.{import_result-view}
use rediver_sdk_go.Job.Defs.{Job, new_job}
use rediver_sdk_go.Job.Repository.{repository}
use rediver_sdk_go.Scanner.{scan}
use rediver_sdk_go.Agent.Rpc.{
  Request, World, job_start, job_completed, job_heartbeat, call_rpc, create_token,
}
use rediver_sdk_go.Agent.Prepare.{prepare_repository}
use rediver_sdk_go.Agent.Client.{job_heartbeat_loop}
use rediver_sdk_go.Agent.Execute.{
  Agent, job_plane, job_detail, report_job_failed, report_job_completed, report_job_started,
  cleanup_repository,
}
use rediver_sdk_go.Agent.Reports.{
  reports, reported, before_report, push_domains-reported, push_services-reported,
  push_web_findings-reported, push_code_findings-reported, job_detail-reported,
  prepare_repository-reported, create_token-reported, cleanup_repository-reported,
}
use rediver_sdk_go.Agent.Bearer.{
  strays, stray, call_rpc-stray, push-stray, job_detail-stray, prepare_repository-stray,
  report_job_failed-stray, minted-non_empty, cleanup_repository-stray,
}
use rediver_sdk_go.Agent.Panics.Abandoned.{loop-reported}
use rediver_sdk_go.Agent.Beating.{
  beat, beating_plane, import_beating, scan_beating, prepare_beating, run_beating,
  with_token_beating, execute_beating,
}

module _ {S F O T G : Type 0} (a : Agent S F O T G) (ticks : List (Request O T G) → ℕ)
    (jwt : String) where
  beat-reported : (w : World S O T G) → reported (beat a ticks jwt w) ≡ reported w
  unfolding beat
  beat-reported w = loop-reported a jwt (ticks w.history) w

  import_beating-reported :
      (sha : String) (rs : List (Result G)) (w : World S O T G)
      → reported (import_beating a ticks jwt sha rs w) ≡ reported w
  unfolding import_beating beating_plane job_plane
  import_beating-reported sha [] w = refl
  import_beating-reported sha (r ∷ rs) w =
      import_beating-reported sha rs _
      ∙ import_result-view a.float a.retry_policy (beating_plane a ticks jwt) reported
          (λ xs v. push_domains-reported a jwt xs _ ∙ beat-reported v)
          (λ xs v. push_services-reported a jwt xs _ ∙ beat-reported v)
          (λ xs v. push_web_findings-reported a jwt xs _ ∙ beat-reported v)
          (λ xs v. push_code_findings-reported a jwt xs _ ∙ beat-reported v) (λ d v. refl) r sha w

module _ {S F O T G : Type 0} (a : Agent S F O T G) (ticks : List (Request O T G) → ℕ)
    (jwt : String) (h : non_empty jwt ≡ true) where
  loop-stray :
      (n : ℕ) (w : World S O T G)
      → stray a jwt h (job_heartbeat_loop a.server a.token_manager jwt n w) ≡ stray a jwt h w
  unfolding job_heartbeat_loop
  loop-stray zero w = refl
  loop-stray (suc n) w = loop-stray n _ ∙ call_rpc-stray a jwt h job_heartbeat w

  beat-stray : (w : World S O T G) → stray a jwt h (beat a ticks jwt w) ≡ stray a jwt h w
  unfolding beat
  beat-stray w = loop-stray (ticks w.history) w

  import_beating-stray :
      (sha : String) (rs : List (Result G)) (w : World S O T G)
      → stray a jwt h (import_beating a ticks jwt sha rs w) ≡ stray a jwt h w
  unfolding import_beating beating_plane job_plane
  import_beating-stray sha [] w = refl
  import_beating-stray sha (r ∷ rs) w =
      import_beating-stray sha rs _
      ∙ import_result-view a.float a.retry_policy (beating_plane a ticks jwt) (stray a jwt h)
          (λ xs v. push-stray a jwt h _ _ _ ∙ beat-stray v)
          (λ xs v. push-stray a jwt h _ _ _ ∙ beat-stray v)
          (λ xs v. push-stray a jwt h _ _ _ ∙ beat-stray v)
          (λ xs v. push-stray a jwt h _ _ _ ∙ beat-stray v) (λ d v. refl) r sha w

  -- From a world on, one report call was made, and no call without the job's bearer.
  Ends : World S O T G → Error × World S O T G → Type 0
  Ends w (e, w') = (reported w' ≡ is_nil e ∷ reported w) × (stray a jwt h w' ≡ stray a jwt h w)

  Ends-from :
      (w v : World S O T G) (r : Error × World S O T G)
      → reported v ≡ reported w
      → stray a jwt h v ≡ stray a jwt h w
      → Ends v r
      → Ends w r
  unfolding Ends
  Ends-from w v r p q (s, t) = (before_report s p, t ∙ q)

  failed-Ends :
      (w v : World S O T G) (text : String) (e : Error)
      → is_nil e ≡ false
      → reported v ≡ reported w
      → stray a jwt h v ≡ stray a jwt h w
      → Ends w (e, report_job_failed a jwt text v)
  unfolding Ends report_job_failed call_rpc reports
  failed-Ends w v text e failed p q = (
    ap (λ l. false ∷ l) p ∙ ap (λ b. b ∷ reported w) (sym failed),
    report_job_failed-stray a jwt h text v ∙ q,
  )

  completed-Ends :
      (w v : World S O T G)
      → reported v ≡ reported w
      → stray a jwt h v ≡ stray a jwt h w
      → Ends w (nil, report_job_completed a jwt v)
  unfolding Ends report_job_completed call_rpc reports
  completed-Ends w v p q = (ap (λ l. true ∷ l) p, call_rpc-stray a jwt h job_completed v ∙ q)

  -- Heartbeats after the report are no reports.
  beat-Ends : (w v : World S O T G) (e : Error) → Ends w (e, v) → Ends w (e, beat a ticks jwt v)
  unfolding Ends
  beat-Ends w v e (s, t) = (beat-reported a ticks jwt v ∙ s, beat-stray v ∙ t)

  -- The removal of a clone calls Log only.
  cleaned-Ends :
      (w : World S O T G) (j : Job F O) (r : Error × World S O T G)
      → Ends w r
      → Ends w (r.0, cleanup_repository a jwt j r.1)
  unfolding Ends
  cleaned-Ends w j (e, v) (s, t) =
      (cleanup_repository-reported a jwt j v ∙ s, cleanup_repository-stray a jwt h j v ∙ t)

  started-reported : (w : World S O T G) → reported (report_job_started a jwt w) ≡ reported w
  unfolding report_job_started call_rpc reports
  started-reported w = refl

  scan_beating-Ends : (j : Job F O) (w : World S O T G) → Ends w (scan_beating a ticks jwt j w)
  unfolding scan_beating
  scan_beating-Ends j w =
      let ((results, e), s) = scan a.scanner j w.local in
      let w1 : World S O T G = record w { local = s } in
      let w2 = import_beating a ticks jwt j.resolved_head_sha results w1 in
      let p =
        beat-reported a ticks jwt w2
        ∙ import_beating-reported a ticks jwt j.resolved_head_sha results w1 in
      let q = beat-stray w2 ∙ import_beating-stray j.resolved_head_sha results w1 in
      elim (Bool-cases (is_nil e)) [
        | inl ok ↦ rw ok (beat-Ends w _ nil (completed-Ends w (beat a ticks jwt w2) p q))
        | inr failed ↦
            rw failed (beat-Ends w _ e (failed-Ends w (beat a ticks jwt w2) _ e failed p q))
      ]

  prepare_beating-Ends :
      (j : Job F O) (w : World S O T G) → Ends w (prepare_beating a ticks jwt j w)
  unfolding prepare_beating
  prepare_beating-Ends j w =
      let r = prepare_repository a.system a.server a.token_manager jwt j w in
      let p = prepare_repository-reported a jwt j w in
      let q = prepare_repository-stray a jwt h j w in
      elim (Bool-cases (is_nil r.0.0)) [
        | inl ok ↦ rw ok (
            cleaned-Ends w r.0.1 (scan_beating a ticks jwt r.0.1 r.1) (
              Ends-from w r.1 (scan_beating a ticks jwt r.0.1 r.1) p q
                (scan_beating-Ends r.0.1 r.1)))
        | inr failed ↦ rw failed (failed-Ends w r.1 _ r.0.0 failed p q)
      ]

  run_beating-Ends : (j : Job F O) (w : World S O T G) → Ends w (run_beating a ticks jwt j w)
  unfolding run_beating
  run_beating-Ends j w =
      let w1 = report_job_started a jwt w in
      elim (Option-cases (repository j)) [
        | inl e ↦
            rw (e, run_beating)
              (Ends-from w w1 _ (started-reported w) (call_rpc-stray a jwt h job_start w)
                (scan_beating-Ends j w1))
        | inr (repo, e) ↦
            rw (e, run_beating)
              (Ends-from w w1 _ (started-reported w) (call_rpc-stray a jwt h job_start w)
                (prepare_beating-Ends j w1))
      ]

  with_token_beating-Ends : (w : World S O T G) → Ends w (with_token_beating a ticks jwt w)
  unfolding with_token_beating
  with_token_beating-Ends w =
      let r = job_detail a jwt w in
      let p = job_detail-reported a jwt w in
      let q = job_detail-stray a jwt h w in
      elim (Bool-cases (is_nil r.0)) [
        | inl ok ↦ rw ok (
            Ends-from w r.1.0 _ p q
              (run_beating-Ends (record (new_job r.1.1) { execution_token = jwt }) r.1.0))
        | inr failed ↦ rw failed (failed-Ends w r.1.0 _ r.0 failed p q)
      ]

-- Whatever the server, the network, the system and a handler that returns do, and whenever the ticks
-- of the job's heartbeat come, those after cancelHB included: if a job token is minted, executeJob
-- with its heartbeats makes exactly one call that reports the job, of JobCompleted where it returns
-- no error and of JobFailed where it returns one; and every call after the minting, the heartbeats
-- and the Log call of the cleanup included, carries the job token as its bearer.
pub execute_beating-reports :
    {S F O T G : Type 0} (a : Agent S F O T G) (ticks : List (Request O T G) → ℕ) (job_id : String)
    (w : World S O T G)
    → is_nil (create_token a.server a.token_manager job_id w).0.0 ≡ true
    → (reported (execute_beating a ticks job_id w).1
        ≡ is_nil (execute_beating a ticks job_id w).0 ∷ reported w)
      × (strays
            (create_token a.server a.token_manager job_id w).0.1
            (execute_beating a ticks job_id w).1.history
          ≡ strays
              (create_token a.server a.token_manager job_id w).0.1
              (create_token a.server a.token_manager job_id w).1.history)
unfolding execute_beating Ends
execute_beating-reports a ticks job_id w minted =
    let r = create_token a.server a.token_manager job_id w in
    let (s, t) = with_token_beating-Ends a ticks r.0.1 (minted-non_empty a job_id w minted) r.1 in
    rw minted (before_report s (create_token-reported a job_id w), t)
