-- ===== src/Agent/Session/Task.antt =====
-- What RunOnce reports of a job that it is given.
use rediver_sdk_go.Prelude.{
  ◌≡◌, refl, sym, subst, ap, ◌∙◌, ◌⊎◌, inl, inr, false, Bool-cases, String, is_empty, ◌∷◌,
}
use rediver_sdk_go.Errors.{Error, is_nil}
use rediver_sdk_go.Retry.Keeps.{do_retry-view}
use rediver_sdk_go.Scanner.Metadata.{Structs}
use rediver_sdk_go.Agent.Rpc.{World, RegisterMachineRequest, call_rpc, create_token}
use rediver_sdk_go.Agent.Client.{register_agent}
use rediver_sdk_go.Agent.Execute.{Agent, execute_job}
use rediver_sdk_go.Agent.Reports.{reports, reported, execute_job-reports}
use rediver_sdk_go.Agent.Session.{
  call_register, wait_to_register, register, registered, init_session, run_once, start_and_run_once,
}

-- The job was reported, as completed exactly where there is no error; or there is an error and it
-- was not reported.
abbrev pub ReportsResult : {S O T G : Type 0} → World S O T G → Error × World S O T G → Type 0
ReportsResult w (e, w') =
    (reported w' ≡ is_nil e ∷ reported w) ⊎ ((reported w' ≡ reported w) × (is_nil e ≡ false))

module _ {S F O T G : Type 0} (a : Agent S F O T G) where
  pub execute_job-ReportsResult :
      (job_id : String) (w : World S O T G) → ReportsResult w (execute_job a job_id w)
  execute_job-ReportsResult job_id w =
      let r = create_token a.server a.token_manager job_id w in
      elim (Bool-cases (is_nil r.0.0)) [
        | inl minted ↦ inl (rw minted at (execute_job-reports a job_id w))
        | inr refused ↦ inr (
          rw refused at (execute_job-reports a job_id w),
          unfold execute_job in (rw refused refused),
        )
      ]

  pub register-reported :
      (request : RegisterMachineRequest) (w : World S O T G)
      → reported (register a request w).1.0 ≡ reported w
  unfolding register call_register wait_to_register register_agent call_rpc reports
  register-reported request w =
      do_retry-view a.float a.retry_policy _ (λ (v : World S O T G × String). reported v.0)
        (λ v. refl) (λ d v. refl) (w, "")

  run_once_direct :
      (job_id : String) (w : World S O T G)
      → is_empty job_id ≡ false
      → run_once a job_id w ≡ execute_job a job_id w
  unfolding run_once
  run_once_direct job_id w h = rw h refl

  run_once-ReportsResult :
      (job_id : String) (w : World S O T G)
      → is_empty job_id ≡ false
      → ReportsResult w (run_once a job_id w)
  run_once-ReportsResult job_id w h =
      subst (ReportsResult w) (sym (run_once_direct job_id w h))
        (execute_job-ReportsResult job_id w)

pub from_later :
    {S O T G : Type 0} (w v : World S O T G) (r : Error × World S O T G)
    → reported v ≡ reported w
    → ReportsResult v r
    → ReportsResult w r
from_later w v r h (inl p) = inl (p ∙ ap (λ l. is_nil r.0 ∷ l) h)
from_later w v r h (inr (p, q)) = inr (p ∙ h, q)

module _ {S F O T G : Type 0} (a : Agent S F O T G) where
  -- Whatever the server, the network, the system and a handler that returns do, for a job that RunOnce
  -- is given on an agent that has not started either exactly one call reports it, of JobCompleted
  -- where RunOnce returns no error and of JobFailed where it returns one, or RunOnce returns an error
  -- and no such call is made.
  pub start_and_run_once-ReportsResult :
      (structs : Structs F O) (request : RegisterMachineRequest) (job_id : String)
      (w : World S O T G)
      → is_empty job_id ≡ false
      → ReportsResult w (start_and_run_once a structs request job_id w)
  unfolding start_and_run_once init_session
  start_and_run_once-ReportsResult structs request job_id w h =
      let r = register a request w in
      elim (Bool-cases (is_nil r.0)) [
        | inl ok ↦ rw ok (
            from_later w r.1.0 (run_once (registered a r.1.1) job_id r.1.0)
              (register-reported a request w)
              (run_once-ReportsResult (registered a r.1.1) job_id r.1.0 h))
        | inr failed ↦ rw failed (inr (register-reported a request w, refl))
      ]
