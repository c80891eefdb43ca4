-- ===== src/Agent/Client.antt =====
-- internal/transport/client.go: the calls of the agent's plane and the log, and the heartbeat loops
-- of agent_heartbeat.go. A ticker gives one tick a minute; a loop ends with its context.
pub mod Deadline
use rediver_sdk_go.Prelude.{
  ℕ, zero, suc, ◌+◌, ◌-◌, ◌*◌, ℤ, pos, negsuc, to_int32, Option, none, some, String, if◌then◌else◌,
}
use rediver_sdk_go.Errors.{Error, nil, wrapped, is_nil}
use rediver_sdk_go.Retry.{second}
use rediver_sdk_go.Convert.Enums.{to_proto_log_level}
use rediver_sdk_go.Scanner.Metadata.{UpdateScannerRequest}
use rediver_sdk_go.Agent.Rpc.{
  World, Server, TokenManager, RegisterMachineRequest, register_machine, heartbeat, update_scanner,
  log, call_job_heartbeat, call_rpc, artifact_download,
}

-- `time.Duration(s) * time.Second`
abbrev times_second : ℤ → ℤ
times_second (pos n) = pos (n * second)
times_second (negsuc n) = negsuc (suc n * second - 1)

-- The timeout that DoPollJob sets on its context, in nanoseconds: none where the wait is not
-- positive, and five seconds more than the wait otherwise. The sum is an int32.
unfoldable pub poll_timeout : (wait_seconds : ℤ) → Option ℤ
poll_timeout (pos zero) = none
poll_timeout (pos (suc n)) = some (times_second (to_int32 (pos (suc n + 5))))
poll_timeout (negsuc n) = none

module _ {S O T G : Type 0} (server : Server O T G) (tm : TokenManager) where
  -- `RegisterAgent`
  unfoldable pub register_agent :
      RegisterMachineRequest → World S O T G → (Error × String) × World S O T G
  unfolding call_rpc
  register_agent request w =
      let (e, w') = call_rpc server tm "" (register_machine request) w in
      ((if is_nil e then (nil, server.runner w'.history) else (wrapped "register agent" e, "")), w')

  -- `AgentHeartbeat`
  unfoldable pub agent_heartbeat : World S O T G → Error × World S O T G
  unfolding call_rpc
  agent_heartbeat w =
      let (e, w') = call_rpc server tm "" (heartbeat tm.runner_id) w in
      (if is_nil e then nil else wrapped "agent heartbeat" e, w')

  -- `UpdateScanner`
  unfoldable pub call_update_scanner :
      UpdateScannerRequest O → World S O T G → Error × World S O T G
  unfolding call_rpc
  call_update_scanner request w =
      let (e, w') = call_rpc server tm "" (update_scanner request) w in
      (if is_nil e then nil else wrapped "update scanner" e, w')

  -- `Log`, with the level as `logFn` converts it.
  unfoldable pub send_log : (jwt level message : String) → World S O T G → Error × World S O T G
  unfolding call_rpc to_proto_log_level
  send_log jwt level message w =
      let (e, w') = call_rpc server tm jwt (log (to_proto_log_level level) message) w in
      (if is_nil e then nil else wrapped "log" e, w')

  -- `GetArtifactPresignedURL`
  unfoldable pub artifact_presigned_url :
      (jwt artifact_id : String) → World S O T G → (Error × String) × World S O T G
  unfolding artifact_download
  artifact_presigned_url jwt artifact_id w =
      let ((e, info), w') = artifact_download server tm jwt artifact_id w in
      ((if is_nil e then (nil, info.presigned_url) else (e, "")), w')

  -- `heartbeatLoop` in a context that lives for the given number of ticks; a failed heartbeat is
  -- logged and the loop goes on.
  unfoldable pub heartbeat_loop : (ticks : ℕ) → World S O T G → World S O T G
  unfolding agent_heartbeat
  heartbeat_loop zero w = w
  heartbeat_loop (suc ticks) w = heartbeat_loop ticks (agent_heartbeat w).1

  -- `jobHeartbeatLoop`, under the job's context.
  unfoldable pub job_heartbeat_loop : (jwt : String) (ticks : ℕ) → World S O T G → World S O T G
  unfolding call_job_heartbeat
  job_heartbeat_loop jwt zero w = w
  job_heartbeat_loop jwt (suc ticks) w =
      job_heartbeat_loop jwt ticks (call_job_heartbeat server tm jwt w).1
