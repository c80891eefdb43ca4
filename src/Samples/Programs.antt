-- ===== src/Samples/Programs.antt =====
-- The main functions of examples/task/main.go and examples/direct-job/main.go: NewAgent with the
-- token of REDIVER_TOKEN, RunOnce without a job, and log.Fatal on an error.
use rediver_sdk_go.Prelude.{
  ◌≡◌, refl, ap, ◌∙◌, ◌⊎◌, inl, inr, Bool, true, false, Bool-cases, String, some, [], ◌∷◌,
  if◌then◌else◌,
}
use rediver_sdk_go.Errors.{Error, Sentinel, is_nil, error_is}
use rediver_sdk_go.Retry.{FloatArith}
use rediver_sdk_go.Scanner.Metadata.{Structs}
use rediver_sdk_go.Agent.Rpc.{World, Server, RegisterMachineRequest, do_poll_job, call_rpc}
use rediver_sdk_go.Agent.Token.{new_token_manager}
use rediver_sdk_go.Agent.Prepare.{System}
use rediver_sdk_go.Agent.Execute.{Agent, Clock, execute_job}
use rediver_sdk_go.Agent.Reports.{reports, reported}
use rediver_sdk_go.Agent.Session.{
  NewAgent, Construction, panics, refused, built, new_agent, register_request, register, registered,
  init_session, pull_job, run_once, start_and_run_once,
}
use rediver_sdk_go.Agent.Session
use rediver_sdk_go.Agent.Session.Task.{execute_job-ReportsResult, register-reported}
use rediver_sdk_go.Samples.{Surroundings}
use rediver_sdk_go.Samples.Nuclei.{task_scanner, direct_job_scanner}

-- What the program finds itself in: the servers by their URLs, the machine, and what NewAgent reads.
pub record Platform (S F O T G L : Type 0) : Type 0 where
  pub server_at : String → Server O T G
  pub system : System S
  pub clock : Clock S F T G
  pub float : FloatArith F
  pub structs : Structs F O
  pub ip_address : String
  pub env : Session.Surroundings L

pub data Exit : Type 0 where
  success : Exit
  fatal : Error → Exit
  crashed : Exit

abbrev pub is_success : Exit → Bool
is_success success = true
is_success _ = false

module _ {S F O T G L : Type 0} (pf : Platform S F O T G L) where
  -- The agent before its session: `initSession` makes the token manager and the client.
  unfoldable pub agent_of : NewAgent S F O G L → Agent S F O T G
  unfolding new_token_manager
  agent_of n = record {
    server = pf.server_at n.server_url;
    token_manager = new_token_manager n.agent_token;
    system = pf.system;
    clock = pf.clock;
    scanner = n.scanner;
    float = pf.float;
    retry_policy = n.retry_policy;
    log_level = n.config.log_level;
  }

  -- `agent.RunOnce(context.Background())` and the test of its error
  unfoldable pub run_built : NewAgent S F O G L → World S O T G → Exit × World S O T G
  unfolding agent_of register_request start_and_run_once
  run_built n w =
      let (e, w') =
        start_and_run_once (agent_of n) pf.structs
          (register_request n.config.hostname pf.ip_address n.config.version) "" w in
      (if is_nil e then success else fatal e, w')

  unfoldable pub run_program : Construction S F O G L → World S O T G → Exit × World S O T G
  unfolding run_built
  run_program panics w = (crashed, w)
  run_program (refused e) w = (fatal e, w)
  run_program (built n) w = run_built n w

  unfoldable pub task_main : Surroundings S F → World S O T G → Exit × World S O T G
  unfolding run_program new_agent task_scanner
  task_main env w =
      run_program (new_agent pf.float pf.env pf.env.env_token (some (task_scanner env)) []) w

  unfoldable pub direct_job_main : Surroundings S F → World S O T G → Exit × World S O T G
  unfolding run_program new_agent direct_job_scanner
  direct_job_main env w =
      run_program (new_agent pf.float pf.env pf.env.env_token (some (direct_job_scanner env)) []) w

-- The job was reported as the program exits, or no job was reported.
abbrev pub ReportsExit : {S O T G : Type 0} → World S O T G → Exit × World S O T G → Type 0
ReportsExit w (exit, w') = (reported w' ≡ is_success exit ∷ reported w) ⊎ (reported w' ≡ reported w)

abbrev ReportsError : {S O T G : Type 0} → World S O T G → Error × World S O T G → Type 0
ReportsError w (e, w') = (reported w' ≡ is_nil e ∷ reported w) ⊎ (reported w' ≡ reported w)

later-ReportsError :
    {S O T G : Type 0} (w v : World S O T G) (r : Error × World S O T G)
    → reported v ≡ reported w
    → ReportsError v r
    → ReportsError w r
later-ReportsError w v r h (inl p) = inl (p ∙ ap (λ l. is_nil r.0 ∷ l) h)
later-ReportsError w v r h (inr q) = inr (q ∙ h)

module _ {S F O T G : Type 0} (a : Agent S F O T G) where
  pull_job-reported : (w : World S O T G) → reported (pull_job a w).1 ≡ reported w
  unfolding pull_job do_poll_job call_rpc reports
  pull_job-reported w = refl

  executed-ReportsError :
      (job_id : String) (v : World S O T G) → ReportsError v (execute_job a job_id v)
  executed-ReportsError job_id v = elim (execute_job-ReportsResult a job_id v) [
    | inl p ↦ inl p
    | inr q ↦ inr q.0
  ]

  run_once-ReportsError : (w : World S O T G) → ReportsError w (run_once a "" w)
  unfolding run_once
  run_once-ReportsError w =
      let r = pull_job a w in
      elim (Bool-cases (error_is r.0.0 Sentinel.no_job_available)) [
        | inl absent ↦ rw absent (inr (pull_job-reported w))
        | inr given ↦ rw given (elim (Bool-cases (is_nil r.0.0)) [
          | inl ok ↦ rw ok (
              later-ReportsError w r.1 (execute_job a r.0.1 r.1) (pull_job-reported w)
                (executed-ReportsError r.0.1 r.1))
          | inr failed ↦ rw failed (inr (pull_job-reported w))
        ])
      ]

module _ {S F O T G : Type 0} (a : Agent S F O T G) where
  session-ReportsError :
      (structs : Structs F O) (request : RegisterMachineRequest) (w : World S O T G)
      → ReportsError w (start_and_run_once a structs request "" w)
  unfolding start_and_run_once init_session
  session-ReportsError structs request w =
      let r = register a request w in
      elim (Bool-cases (is_nil r.0)) [
        | inl ok ↦ rw ok (
            later-ReportsError w r.1.0 (run_once (registered a r.1.1) "" r.1.0)
              (register-reported a request w) (run_once-ReportsError (registered a r.1.1) r.1.0))
        | inr failed ↦ rw failed (inr (register-reported a request w))
      ]

module _ {S F O T G L : Type 0} (pf : Platform S F O T G L) where
  ReportsError-exit :
      (w w' : World S O T G) (e : Error)
      → ReportsError w (e, w')
      → ReportsExit w (if is_nil e then success else fatal e, w')
  ReportsError-exit w w' e h = elim (Bool-cases (is_nil e)) [
    | inl ok ↦ rw ok (rw ok at h)
    | inr failed ↦ rw failed (rw failed at h)
  ]

  run_program-ReportsExit :
      (n : Construction S F O G L) (w : World S O T G) → ReportsExit w (run_program pf n w)
  unfolding run_program run_built
  run_program-ReportsExit panics w = inr refl
  run_program-ReportsExit (refused e) w = inr refl
  run_program-ReportsExit (built n) w =
      let r =
        start_and_run_once (agent_of pf n) pf.structs
          (register_request n.config.hostname pf.ip_address n.config.version) "" w in
      ReportsError-exit w r.1 r.0 (
        session-ReportsError (agent_of pf n) pf.structs
          (register_request n.config.hostname pf.ip_address n.config.version) w)

  -- Whatever the environment, the server and the machine do, the sample programs that run one job
  -- report at most one, as completed exactly where they then exit with success, and as failed where
  -- they exit by log.Fatal.
  pub programs-ReportsExit :
      (env : Surroundings S F) (w : World S O T G)
      → ReportsExit w (task_main pf env w) × ReportsExit w (direct_job_main pf env w)
  unfolding task_main direct_job_main
  programs-ReportsExit env w = (run_program-ReportsExit _ w, run_program-ReportsExit _ w)
