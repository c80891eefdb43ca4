-- ===== src/Examples/Settings.antt =====
-- Configurations that options produce.
use rediver_sdk_go.Prelude.{
  none, ℕ, ◌*◌, ◌≤◌, ◌≡◌, refl, ◌⊎◌, true, false, some, List, [], ◌∷◌, ℤ, pos, leb_ℤ,
}
use rediver_sdk_go.Retry.{second, default_retry_policy, new_retrier}
use rediver_sdk_go.Config.{
  long_polling, default_server_url, AgentConfig, AgentOption, with_max_concurrency,
  with_poll_interval, with_dispatch_mode, with_long_poll_wait, default_agent_config, apply,
  apply_all, dispatch_params,
}
use rediver_sdk_go.Strconv.{trim_space}
use rediver_sdk_go.Config.Valid.{IsValid}
use rediver_sdk_go.Config.Dispatch.{dispatch_params_busy}
use rediver_sdk_go.Agent.Session.{NewAgent, Surroundings, built, with_config, new_agent}
use rediver_sdk_go.Agent.Session.Built.{IsBuilt, new_agent-IsBuilt}
use rediver_sdk_go.Agent.Client.{poll_timeout}
use rediver_sdk_go.Agent.Client.Deadline.{with_margin, dispatch_params-poll_timeout}
use rediver_sdk_go.Examples.Values.{int_float, three_times, agent}

abbrev options : List (AgentOption ℤ ℕ)
options =
    with_max_concurrency (pos 4)
    ∷ with_poll_interval (pos 5)
    ∷ with_dispatch_mode "long-polling"
    ∷ with_long_poll_wait (pos 500_000_000)
    ∷ []

-- The interval of 5 ns is ignored, the wait of half a second is not.
abbrev configured : AgentConfig ℤ ℕ
configured = record {
  logger = 0;
  http_client = record { timeout = pos (90 * second) };
  retry_policy = three_times;
  max_concurrency = pos 4;
  poll_interval = pos (5 * second);
  dispatch_mode = "long-polling";
  long_poll_wait = pos 500_000_000;
  version = "";
  hostname = "host";
  shutdown_timeout = pos 0;
  log_level = pos 0;
  sync_metadata_dispatcher = false;
  server_url = "";
}

configured_by :
    apply_all int_float options (default_agent_config int_float 0 "host")
    ≡ some (record configured { retry_policy = default_retry_policy int_float })
unfolding apply_all apply default_agent_config
configured_by = refl

abbrev surroundings : Surroundings ℕ
surroundings = record {
  logger = 0;
  hostname = "host";
  env_token = " rat-1 ";
  env_url = "";
  to_lower = λ s. s;
}

-- The token comes from the environment.
abbrev made : NewAgent ℕ ℤ ℕ ℕ ℕ
made = record {
  scanner = agent.scanner;
  scanner_name = "sast";
  config = record configured { retry_policy = default_retry_policy int_float };
  agent_token = "rat-1";
  server_url = default_server_url;
  retry_policy = new_retrier (default_retry_policy int_float);
}

made_by : new_agent int_float surroundings "" (some agent.scanner) options ≡ built made
unfolding new_agent with_config apply_all apply default_agent_config trim_space
made_by = refl

new_agent-IsBuilt_example : IsBuilt int_float surroundings "" (some agent.scanner) made
new_agent-IsBuilt_example =
    new_agent-IsBuilt int_float surroundings "" (some agent.scanner) options made made_by

configured-IsValid : IsValid configured
configured-IsValid = record {
  concurrent = refl;
  slow_enough = refl;
  mode = refl;
  waits = refl;
  waits_at_most = refl;
}

dispatch_params-poll_timeout_example :
    ((dispatch_params configured ≡ (pos 0, configured.poll_interval))
      × (leb_ℤ (pos (1 * second)) configured.poll_interval ≡ true)
      × (poll_timeout (dispatch_params configured).0 ≡ none))
    ⊎ ((configured.dispatch_mode ≡ long_polling)
        × ((n : ℕ) × (dispatch_params configured ≡ (pos n, pos 0))
            × (n ≤ 60)
            × (poll_timeout (dispatch_params configured).0 ≡ with_margin n)))
dispatch_params-poll_timeout_example = dispatch_params-poll_timeout configured configured-IsValid

dispatch_params_busy_example : dispatch_params configured ≡ (pos 0, pos 0)
dispatch_params_busy_example = dispatch_params_busy configured refl refl refl
