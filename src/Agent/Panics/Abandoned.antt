-- ===== src/Agent/Panics/Abandoned.antt =====
-- What becomes of a job whose handler panics.
use rediver_sdk_go.Prelude.{
  ℕ, zero, suc, ◌+◌, ◌≡◌, refl, ap, ◌∙◌, inl, inr, true, false, Bool-cases, Option-cases, String,
  List, [], ◌∷◌, if◌then◌else◌, arith,
}
use rediver_sdk_go.Errors.{is_nil}
use rediver_sdk_go.Job.Defs.{Job, new_job}
use rediver_sdk_go.Job.Repository.{repository}
use rediver_sdk_go.Agent.Rpc.{World, Request, job_heartbeat, call_rpc, create_token}
use rediver_sdk_go.Agent.Prepare.{prepare_repository}
use rediver_sdk_go.Agent.Client.{job_heartbeat_loop}
use rediver_sdk_go.Agent.Execute.{
  Agent, job_detail, report_job_failed, report_job_started, cleanup_repository,
}
use rediver_sdk_go.Agent.Reports.{
  reports, reported, import_results-reported, job_detail-reported, prepare_repository-reported,
  cleanup_repository-reported, create_token-reported,
}
use rediver_sdk_go.Agent.Panics.{
  PanicFunc, Left, scan_and_panic, prepare_and_panic, run_and_panic, with_token_and_panic,
  execute_and_panic,
}

-- The heartbeats of jobs among the calls.
unfoldable pub beats : {O T G : Type 0} → List (Request O T G) → ℕ
beats [] = 0
beats ((h, job_heartbeat) ∷ rs) = 1 + beats rs
beats ((h, _) ∷ rs) = beats rs

-- Either the job's heartbeat loop goes on and the job was not reported, or the job was reported as
-- failed.
abbrev IsAbandonedOrFailed : {S O T G : Type 0} → World S O T G → Left × World S O T G → Type 0
IsAbandonedOrFailed w ((e, beating), w') =
    (reported w' ≡ (if beating then reported w else false ∷ reported w)) × (is_nil e ≡ false)

module _ {S F O T G : Type 0} (a : Agent S F O T G) where
  pub loop-reported :
      (jwt : String) (n : ℕ) (w : World S O T G)
      → reported (job_heartbeat_loop a.server a.token_manager jwt n w) ≡ reported w
  unfolding job_heartbeat_loop call_rpc reports
  loop-reported jwt zero w = refl
  loop-reported jwt (suc n) w = loop-reported jwt n _

  loop-beats :
      (jwt : String) (n : ℕ) (w : World S O T G)
      → beats (job_heartbeat_loop a.server a.token_manager jwt n w).history ≡ n + beats w.history
  unfolding job_heartbeat_loop call_rpc beats
  loop-beats jwt zero w = omega arith
  loop-beats jwt (suc n) w =
      omega (arith, loop-beats jwt n (call_rpc a.server a.token_manager jwt job_heartbeat w).1)

later :
    {S O T G : Type 0} (w v : World S O T G) (r : Left × World S O T G)
    → reported v ≡ reported w
    → IsAbandonedOrFailed v r
    → IsAbandonedOrFailed w r
later w v ((e, beating), w') h (p, q) = (p ∙ ap (λ l. if beating then l else false ∷ l) h, q)

module _ {S F O T G : Type 0} (a : Agent S F O T G) (handler : PanicFunc S F O G)
    (jwt : String) where
  scan_and_panic-reported :
      (j : Job F O) (w : World S O T G) → IsAbandonedOrFailed w (scan_and_panic a handler jwt j w)
  unfolding scan_and_panic
  scan_and_panic-reported j w = (import_results-reported a jwt j.resolved_head_sha _ _, refl)

  abbrev cleaned : Job F O → Left × World S O T G → Left × World S O T G
  cleaned j r = (r.0, cleanup_repository a jwt j r.1)

  cleaned-IsAbandonedOrFailed :
      (w : World S O T G) (j : Job F O) (r : Left × World S O T G)
      → IsAbandonedOrFailed w r
      → IsAbandonedOrFailed w (cleaned j r)
  cleaned-IsAbandonedOrFailed w j (e, v) (p, q) = (cleanup_repository-reported a jwt j v ∙ p, q)

  prepare_and_panic-reported :
      (j : Job F O) (w : World S O T G)
      → IsAbandonedOrFailed w (prepare_and_panic a handler jwt j w)
  unfolding prepare_and_panic report_job_failed call_rpc reports
  prepare_and_panic-reported j w =
      let r = prepare_repository a.system a.server a.token_manager jwt j w in
      let kept = prepare_repository-reported a jwt j w in
      elim (Bool-cases (is_nil r.0.0)) [
        | inl ok ↦ rw ok (
            later w r.1 (cleaned r.0.1 (scan_and_panic a handler jwt r.0.1 r.1)) kept (
              cleaned-IsAbandonedOrFailed r.1 r.0.1 (scan_and_panic a handler jwt r.0.1 r.1)
                (scan_and_panic-reported r.0.1 r.1)))
        | inr failed ↦ rw failed (ap (λ l. false ∷ l) kept, failed)
      ]

  run_and_panic-reported :
      (j : Job F O) (w : World S O T G) → IsAbandonedOrFailed w (run_and_panic a handler jwt j w)
  unfolding run_and_panic report_job_started call_rpc reports
  run_and_panic-reported j w = elim (Option-cases (repository j)) [
    | inl e ↦ rw (e, run_and_panic) (scan_and_panic-reported j _)
    | inr (repo, e) ↦ rw (e, run_and_panic) (prepare_and_panic-reported j _)
  ]

module _ {S F O T G : Type 0} (a : Agent S F O T G) (handler : PanicFunc S F O G) where
  with_token_and_panic-reported :
      (jwt : String) (w : World S O T G)
      → IsAbandonedOrFailed w (with_token_and_panic a handler jwt w)
  unfolding with_token_and_panic report_job_failed call_rpc reports
  with_token_and_panic-reported jwt w =
      let r = job_detail a jwt w in
      let kept = job_detail-reported a jwt w in
      let j = record (new_job r.1.1) { execution_token = jwt } in
      elim (Bool-cases (is_nil r.0)) [
        | inl ok ↦ rw ok (
            later w r.1.0 (run_and_panic a handler jwt j r.1.0) kept
              (run_and_panic-reported a handler jwt j r.1.0))
        | inr failed ↦ rw failed (ap (λ l. false ∷ l) kept, failed)
      ]

  -- What a job's heartbeat loop, where it still runs, leaves after some ticks.
  abbrev pub after_ticks : (jwt : String) → ℕ → Left × World S O T G → World S O T G
  after_ticks jwt ticks ((e, beating), w) =
      if beating then job_heartbeat_loop a.server a.token_manager jwt ticks w else w

  after_ticks_lem :
      (jwt : String) (ticks : ℕ) (w : World S O T G) (r : Left × World S O T G)
      → IsAbandonedOrFailed w r
      → (is_nil r.0.0 ≡ false)
        × (reported (after_ticks jwt ticks r) ≡ (if r.0.1 then reported w else false ∷ reported w))
        × (beats (after_ticks jwt ticks r).history
            ≡ (if r.0.1 then ticks else 0) + beats r.1.history)
  after_ticks_lem jwt ticks w ((e, true), w') (p, q) =
      (q, loop-reported a jwt ticks w' ∙ p, loop-beats a jwt ticks w')
  after_ticks_lem jwt ticks w ((e, false), w') (p, q) = (q, p, omega arith)

  -- A job that a worker of the pool executes, whose token is minted and whose handler panics: it ends
  -- with an error, and either JobFailed was called, once, before its handler was to be called, or no
  -- report is called and, for any number of ticks after, its heartbeat loop calls JobHeartbeat at
  -- each and no report.
  pub execute_and_panic-abandons :
      (job_id : String) (w : World S O T G) (ticks : ℕ)
      → is_nil (create_token a.server a.token_manager job_id w).0.0 ≡ true
      → (let jwt = (create_token a.server a.token_manager job_id w).0.1 in
          let r = execute_and_panic a handler job_id w in
          let w' = after_ticks jwt ticks r in
          (is_nil r.0.0 ≡ false)
          × (reported w' ≡ (if r.0.1 then reported w else false ∷ reported w))
          × (beats w'.history ≡ (if r.0.1 then ticks else 0) + beats r.1.history))
  unfolding execute_and_panic
  execute_and_panic-abandons job_id w ticks minted =
      let c = create_token a.server a.token_manager job_id w in
      let r = with_token_and_panic a handler c.0.1 c.1 in
      rw minted (
        after_ticks_lem c.0.1 ticks w r (
          later w c.1 r (create_token-reported a job_id w)
            (with_token_and_panic-reported c.0.1 c.1)))
