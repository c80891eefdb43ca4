-- ===== src/Agent/Token.antt =====
-- internal/auth/token.go: run modes and the token manager. Its two values are each loaded and stored
-- at once, so a manager is a value here and a setter gives the next one.
use rediver_sdk_go.Prelude.{String}
use rediver_sdk_go.Agent.Rpc.{TokenManager}

pub data RunMode : Type 0 where
  worker task ci dispatcher : RunMode

-- `RunMode.String`, for the modes that are declared.
unfoldable pub run_mode_text : RunMode → String
run_mode_text worker = "Worker"
run_mode_text dispatcher = "Worker"
run_mode_text task = "Task"
run_mode_text ci = "Task"

unfoldable pub new_token_manager : (agent_token : String) → TokenManager
new_token_manager agent_token = record { agent_token = agent_token; runner_id = "" }

unfoldable pub set_agent_token : String → TokenManager → TokenManager
set_agent_token token tm = record tm { agent_token = token }

unfoldable pub set_runner_id : String → TokenManager → TokenManager
set_runner_id id tm = record tm { runner_id = id }
