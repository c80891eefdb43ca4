-- ===== src/Agent/Session.antt =====
-- agent.go, agent_token.go, agent_run_once.go and the guards of agent_run.go and agent_dispatch.go:
-- NewAgent, initSession, syncScannerMetadata's call, RunOnce and the one-shot guard.
pub mod Guard
pub mod Task
pub mod Built
use rediver_sdk_go.Prelude.{
  ◌≡◌, refl, Bool, true, false, String, is_empty, Option, none, some, List, ℕ, ℤ, pos,
  if◌then◌else◌,
}
use rediver_sdk_go.Errors.{Error, Sentinel, nil, sentinel, wrapped, is_nil, error_is}
use rediver_sdk_go.Retry.{FloatArith, RetryPolicy, new_retrier, do_retry}
use rediver_sdk_go.Config.{
  AgentConfig, AgentOption, default_agent_config, apply_all, resolve_agent_token,
  resolve_server_url,
}
use rediver_sdk_go.Scanner.{Scanner}
use rediver_sdk_go.Scanner.Metadata.{Structs, UpdateScannerRequest, described, metadata_request}
use rediver_sdk_go.Agent.Rpc.{
  World, TokenManager, RegisterMachineRequest, str_optional, do_poll_job,
}
use rediver_sdk_go.Agent.Client.{register_agent, call_update_scanner}
use rediver_sdk_go.Agent.Prepare.{locally}
use rediver_sdk_go.Agent.Token.{set_runner_id}
use rediver_sdk_go.Agent.Execute.{Agent, execute_job}

-- What NewAgent fixes of an agent.
pub record NewAgent (S F O G L : Type 0) : Type 0 where
  pub scanner : Scanner S F O G
  pub scanner_name : String
  pub config : AgentConfig F L
  pub agent_token : String
  pub server_url : String
  pub retry_policy : RetryPolicy F

-- An option may panic.
pub data Construction (S F O G L : Type 0) : Type 0 where
  panics : Construction S F O G L
  refused : Error → Construction S F O G L
  built : NewAgent S F O G L → Construction S F O G L

-- What NewAgent reads of its surroundings: slog.Default(), os.Hostname(), REDIVER_TOKEN,
-- REDIVER_URL, and strings.ToLower.
pub record Surroundings (L : Type 0) : Type 0 where
  pub logger : L
  pub hostname : String
  pub env_token : String
  pub env_url : String
  pub to_lower : String → String

module _ {S F O G L : Type 0} (fl : FloatArith F) (env : Surroundings L) where
  unfoldable pub with_config : String → Scanner S F O G → AgentConfig F L → Construction S F O G L
  unfolding resolve_agent_token resolve_server_url new_retrier
  with_config token scanner config =
      if is_empty (resolve_agent_token token env.env_token)
      then refused (wrapped "agent token is required" (sentinel Sentinel.invalid_config))
      else built (record {
        scanner = scanner;
        scanner_name = env.to_lower scanner.name;
        config = config;
        agent_token = resolve_agent_token token env.env_token;
        server_url = resolve_server_url config.server_url env.env_url;
        retry_policy = new_retrier config.retry_policy;
      })

  -- `NewAgent`; a nil scanner is `none`.
  unfoldable pub new_agent :
      String → Option (Scanner S F O G) → List (AgentOption F L) → Construction S F O G L
  unfolding with_config apply_all default_agent_config
  new_agent token scanner options = elim scanner [
    | none ↦ refused (wrapped "scanner is required" (sentinel Sentinel.invalid_config))
    | some s ↦ elim (apply_all fl options (default_agent_config fl env.logger env.hostname)) [
      | none ↦ panics
      | some config ↦ with_config token s config
    ]
  ]

-- `registerReq`, from the configured host name, the machine's address and the version.
unfoldable pub register_request : (hostname ip_address version : String) → RegisterMachineRequest
unfolding str_optional
register_request hostname ip_address version = record {
  runner_id = none;
  hostname = str_optional (if is_empty hostname then ip_address else hostname);
  ip_address = str_optional ip_address;
  version = str_optional version;
}

module _ {S F O T G : Type 0} (a : Agent S F O T G) where
  -- The function that `initSession` retries, with the variable `runnerID` that it assigns.
  unfoldable pub call_register :
      RegisterMachineRequest → World S O T G × String → Error × (World S O T G × String)
  unfolding register_agent
  call_register request (w, _) =
      let ((e, runner_id), w') = register_agent a.server a.token_manager request w in
      (e, (w', runner_id))

  unfoldable pub wait_to_register : ℤ → World S O T G × String → Error × (World S O T G × String)
  wait_to_register d (w, runner_id) =
      let (e, w') = locally (a.clock.wait d) w in (e, (w', runner_id))

  unfoldable pub register :
      RegisterMachineRequest → World S O T G → Error × (World S O T G × String)
  unfolding call_register wait_to_register
  register request w =
      do_retry a.float a.retry_policy
        (record {
          call = call_register request;
          done = λ (v : World S O T G × String). a.clock.done v.0.local;
          wait = wait_to_register;
          random = a.clock.random;
        })
        (w, "")

  -- `syncScannerMetadata`; an error is logged and dropped.
  unfoldable pub sync_scanner_metadata : Structs F O → World S O T G → World S O T G
  unfolding described metadata_request call_update_scanner
  sync_scanner_metadata structs w = elim (metadata_request structs (described a.scanner)) [
    | none ↦ w
    | some request ↦ (call_update_scanner a.server a.token_manager request w).1
  ]

  -- The agent with the runner's name that the server gave it.
  unfoldable pub registered : String → Agent S F O T G
  unfolding set_runner_id
  registered runner_id = record a { token_manager = set_runner_id runner_id a.token_manager }

-- `initSession`, where NewClient returns no error and the agent's token manager has no runner yet.
-- The metadata is synchronised as the registered agent, if at all.
unfoldable pub init_session :
    {S F O T G : Type 0}
    → Agent S F O T G
    → Structs F O
    → RegisterMachineRequest
    → (sync_metadata : Bool) → World S O T G
    → (Error × Agent S F O T G) × World S O T G
init_session a structs request sync_metadata w =
    let (e, (w', runner_id)) = register a request w in
    let a' = registered a runner_id in
    if is_nil e
    then ((nil, a'), if sync_metadata then sync_scanner_metadata a' structs w' else w')
    else ((wrapped "register machine" e, a), w')

module _ {S F O T G : Type 0} (a : Agent S F O T G) where
  -- `pullJob`
  unfoldable pub pull_job : World S O T G → (Error × String × String) × World S O T G
  unfolding do_poll_job
  pull_job w =
      let ((e, job_id, scanner), w') = do_poll_job a.server a.token_manager (pos 0) w in
      (
        (if is_nil e
            then if is_empty job_id
              then (sentinel Sentinel.no_job_available, "", "")
              else (nil, job_id, scanner)
            else (e, "", "")),
        w',
      )

  -- `runOnce`
  unfoldable pub run_once : (direct_job_id : String) → World S O T G → Error × World S O T G
  run_once direct_job_id w =
      let ((e, job_id, scanner), w') = pull_job w in
      if is_empty direct_job_id
      then (if error_is e Sentinel.no_job_available
          then (nil, w')
          else if is_nil e
          then execute_job a job_id w'
          else (e, w'))
      else execute_job a direct_job_id w

-- `RunOnce` after its guard: a session without metadata, then one job.
unfoldable pub start_and_run_once :
    {S F O T G : Type 0}
    → Agent S F O T G
    → Structs F O
    → RegisterMachineRequest
    → (job_id : String) → World S O T G
    → Error × World S O T G
start_and_run_once a structs request job_id w =
    let ((e, a'), w') = init_session a structs request false w in
    if is_nil e then run_once a' job_id w' else (e, w')
