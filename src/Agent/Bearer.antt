-- ===== src/Agent/Bearer.antt =====
-- The authentication of a job's RPCs.
use rediver_sdk_go.Prelude.{
  ◌≡◌, refl, inl, inr, Bool, true, false, Bool-cases, Option-cases, not, String, str_eq, is_empty,
  non_empty, Option, none, List, [], ◌∷◌, if◌then◌else◌, eq_refl,
}
use rediver_sdk_go.Errors.{Error, nil, plain, wrapped, is_nil}
use rediver_sdk_go.Retry.Keeps.{do_retry-view}
use rediver_sdk_go.Result.{Result}
use rediver_sdk_go.Job.Defs.{Job}
use rediver_sdk_go.Job.Repository.{repository}
use rediver_sdk_go.Job.Message.{JobDetail}
use rediver_sdk_go.Agent.Rpc.{
  AuthHeader, authorization_bearer, auth_header, Rpc, Request, World, get_job_detail,
  get_artifact_download, create_job_token, call_rpc, push, create_token, artifact_download,
  str_optional, log,
}
use rediver_sdk_go.Agent.Prepare.{prepare_archive, prepare_repository}
use rediver_sdk_go.Agent.Execute.{
  Agent, fetch_detail, wait_for, job_detail, report_job_failed, cleanup_repository,
}
use rediver_sdk_go.Agent.Cleanup.{cleanup_repository-view}

abbrev is_bearer : String → AuthHeader → Bool
is_bearer jwt (authorization_bearer token) = str_eq token jwt
is_bearer jwt _ = false

-- The calls that do not carry the job token as their bearer.
unfoldable pub strays : {O T G : Type 0} → String → List (Request O T G) → List (Request O T G)
strays jwt [] = []
strays jwt (r ∷ rs) = if is_bearer jwt r.0 then strays jwt rs else r ∷ strays jwt rs

bearer_header :
    (jwt agent_token : String)
    → non_empty jwt ≡ true
    → is_bearer jwt (auth_header jwt agent_token) ≡ true
unfolding auth_header
bearer_header jwt agent_token h = rw h (eq_refl jwt)

module _ {S F O T G : Type 0} (a : Agent S F O T G) (jwt : String) (h : non_empty jwt ≡ true) where
  -- The stray calls of a world.
  abbrev pub stray : World S O T G → List (Request O T G)
  stray w = strays jwt w.history

  pub call_rpc-stray :
      (rpc : Rpc O T G) (w : World S O T G)
      → stray (call_rpc a.server a.token_manager jwt rpc w).1 ≡ stray w
  unfolding call_rpc strays
  call_rpc-stray rpc w = rw (bearer_header jwt a.token_manager.agent_token h) refl

  pub push-stray :
      (prefix : String) (rpc : Rpc O T G) (w : World S O T G)
      → stray (push a.server a.token_manager jwt prefix rpc w).1 ≡ stray w
  unfolding push
  push-stray prefix rpc w = elim (Bool-cases (not (is_nil (a.server.transcode rpc)))) [
    | inl broken ↦ rw broken refl
    | inr fine ↦ rw fine (call_rpc-stray rpc w)
  ]

  fetch_detail-stray :
      (v : World S O T G × Option (JobDetail O)) → stray (fetch_detail a jwt v).1.0 ≡ stray v.0
  unfolding fetch_detail
  fetch_detail-stray (w, d) =
      elim (Bool-cases (is_nil (call_rpc a.server a.token_manager jwt get_job_detail w).0)) [
        | inl ok ↦ rw ok (call_rpc-stray get_job_detail w)
        | inr failed ↦ rw failed (call_rpc-stray get_job_detail w)
      ]

  pub job_detail-stray : (w : World S O T G) → stray (job_detail a jwt w).1.0 ≡ stray w
  unfolding job_detail wait_for
  job_detail-stray w =
      do_retry-view a.float a.retry_policy _
        (λ (v : World S O T G × Option (JobDetail O)). stray v.0) fetch_detail-stray (λ d v. refl)
        (w, none)

  pub prepare_repository-stray :
      (j : Job F O) (w : World S O T G)
      → stray (prepare_repository a.system a.server a.token_manager jwt j w).1 ≡ stray w
  unfolding prepare_repository prepare_archive artifact_download
  prepare_repository-stray j w = elim (Option-cases (repository j)) [
    | inl e ↦ rw (e, prepare_repository) refl
    | inr (repo, e) ↦
        rw (e, prepare_repository)
          (elim (Bool-cases (non_empty repo.artifact_id)) [
            | inl artifact ↦ rw artifact (call_rpc-stray (get_artifact_download repo.artifact_id) w)
            | inr git ↦ rw git refl
          ])
  ]

  pub report_job_failed-stray :
      (text : String) (w : World S O T G) → stray (report_job_failed a jwt text w) ≡ stray w
  unfolding report_job_failed
  report_job_failed-stray text w = call_rpc-stray _ w

  pub cleanup_repository-stray :
      (j : Job F O) (w : World S O T G) → stray (cleanup_repository a jwt j w) ≡ stray w
  cleanup_repository-stray j w =
      cleanup_repository-view a jwt stray (λ l m. call_rpc-stray (log l m)) (λ s v. refl) j w

non_empty_of : (s : String) → is_empty s ≡ false → non_empty s ≡ true
non_empty_of String.[] h = cc
non_empty_of (String.◌∷◌ c s) h = refl

-- The result of CreateJobToken by the three tests of its code.
minted_by_tests :
    {W : Type 0} (no_id failed empty : Bool) (token : String) (e e1 e2 : Error) (w w' : W)
    → is_empty token ≡ empty
    → is_nil e ≡ false
    → is_nil e1 ≡ false
    → is_nil e2 ≡ false
    → (let r : (Error × String) × W =
          (if no_id
            then ((e, ""), w)
            else if failed
            then ((e1, ""), w')
            else if empty
            then ((e2, ""), w')
            else ((nil, token), w')) in
        is_nil r.0.0 ≡ true → non_empty r.0.1 ≡ true)
minted_by_tests true failed empty token e e1 e2 w w' t f f1 f2 h = cc
minted_by_tests false true empty token e e1 e2 w w' t f f1 f2 h = cc
minted_by_tests false false true token e e1 e2 w w' t f f1 f2 h = cc
minted_by_tests false false false token e e1 e2 w w' t f f1 f2 h = non_empty_of token t

pub minted-non_empty :
    {S F O T G : Type 0} (a : Agent S F O T G) (job_id : String) (w : World S O T G)
    → is_nil (create_token a.server a.token_manager job_id w).0.0 ≡ true
    → non_empty (create_token a.server a.token_manager job_id w).0.1 ≡ true
unfolding create_token
minted-non_empty a job_id w h =
    let r =
      call_rpc a.server a.token_manager ""
        (create_job_token job_id (str_optional a.token_manager.runner_id)) w in
    minted_by_tests (is_empty job_id) (not (is_nil r.0)) (is_empty (a.server.token r.1.history))
      (a.server.token r.1.history) (plain "create job token: job ID is required")
      (wrapped "create job token" r.0) (plain "create job token: empty token") w r.1 refl refl refl
      refl h
