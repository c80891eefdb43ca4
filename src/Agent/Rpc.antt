-- ===== src/Agent/Rpc.antt =====
-- internal/transport/client.go: the RPCs, their authentication header, and the calls of Client. The
-- calls that were made are kept, newest first, whether or not one came to the server, and what each
-- returns is a function of them: the server's answer, or an error of the server, of the network or,
-- for a call under a context that has ended, of the context. `local` is the rest of the world:
-- files, processes, clocks. What a handler itself writes to the job's log is not among the calls.
use rediver_sdk_go.Prelude.{
  not, String, is_empty, non_empty, Option, none, some, List, ◌∷◌, ℤ, if◌then◌else◌,
}
use rediver_sdk_go.Errors.{Error, nil, wrapped, plain, is_nil}
use rediver_sdk_go.Convert.Message.{
  ProtoLogLevel, DnsRecord, ProtoService, ProtoWebFinding, ProtoCodeFinding,
}
use rediver_sdk_go.Job.Message.{JobDetail}
use rediver_sdk_go.Scanner.Metadata.{UpdateScannerRequest}

pub data AuthHeader : Type 0 where
  authorization_bearer : (jwt : String) → AuthHeader
  x_token : (token : String) → AuthHeader
  no_header : AuthHeader

-- What `(*authTransport).RoundTrip` sets, by the job token of the request's context ("" where it
-- carries none) and the agent's token.
unfoldable pub auth_header : (jwt agent_token : String) → AuthHeader
auth_header jwt agent_token =
    if non_empty jwt
    then authorization_bearer jwt
    else if non_empty agent_token
    then x_token agent_token
    else no_header

pub record RegisterMachineRequest : Type 0 where
  pub runner_id : Option String
  pub hostname : Option String
  pub ip_address : Option String
  pub version : Option String

-- `O` is structpb.Value.
pub data Rpc (O T G : Type 0) : Type 0 where
  register_machine : RegisterMachineRequest → Rpc O T G
  heartbeat : (runner_id : String) → Rpc O T G
  update_scanner : UpdateScannerRequest O → Rpc O T G
  log : ProtoLogLevel → (message : String) → Rpc O T G
  job_heartbeat : Rpc O T G
  poll_job : (wait_seconds : ℤ) → Rpc O T G
  create_job_token : (job_id : String) → (runner_id : Option String) → Rpc O T G
  get_artifact_download : (artifact_id : String) → Rpc O T G
  get_job_detail job_start job_completed : Rpc O T G
  job_failed : (description : Option String) → Rpc O T G
  push_domains : List DnsRecord → Rpc O T G
  push_services : List (ProtoService T) → Rpc O T G
  push_web_findings : List (ProtoWebFinding G) → Rpc O T G
  push_code_findings : List (ProtoCodeFinding G) → Rpc O T G

abbrev pub Request : (O T G : Type 0) → Type 0
Request O T G = AuthHeader × Rpc O T G

pub record World (S O T G : Type 0) : Type 0 where
  pub history : List (Request O T G)
  pub local : S

pub record ArtifactDownloadInfo : Type 0 where
  pub presigned_url : String
  pub encryption_algorithm : String  -- "AES_256_GCM", another enum value's name, or "" where unset
  pub encryption_key : String

-- What the last call of a history returns, of a server and a network that may do anything. `transcode` is the error of
-- proto.Marshal and proto.Unmarshal on the message of a push.
pub record Server (O T G : Type 0) : Type 0 where
  pub err : List (Request O T G) → Error
  pub job : List (Request O T G) → String × String
  pub token : List (Request O T G) → String
  pub runner : List (Request O T G) → String
  pub detail : List (Request O T G) → JobDetail O
  pub artifact : List (Request O T G) → ArtifactDownloadInfo
  pub transcode : Rpc O T G → Error

-- `TokenManager`
pub record TokenManager : Type 0 where
  pub agent_token : String
  pub runner_id : String

-- `strOptional`
unfoldable pub str_optional : String → Option String
str_optional s = if is_empty s then none else some s

module _ {S O T G : Type 0} (server : Server O T G) (tm : TokenManager) where
  -- One call of an RPC under a context with the given job token; a failure has no effect but that the
  -- call was made.
  unfoldable pub call_rpc : (jwt : String) → Rpc O T G → World S O T G → Error × World S O T G
  unfolding auth_header
  call_rpc jwt rpc w =
      let calls = (auth_header jwt tm.agent_token, rpc) ∷ w.history in
      (server.err calls, record w { history = calls })

  -- `DoPollJob`
  unfoldable pub do_poll_job : ℤ → World S O T G → (Error × String × String) × World S O T G
  unfolding call_rpc
  do_poll_job wait_seconds w =
      let (e, w') = call_rpc "" (poll_job wait_seconds) w in
      let (job_id, scanner) = server.job w'.history in
      (if is_nil e then (nil, job_id, scanner) else (wrapped "poll-job" e, "", ""), w')

  -- `CreateJobToken`
  unfoldable pub create_token : (job_id : String) → World S O T G → (Error × String) × World S O T G
  unfolding call_rpc str_optional
  create_token job_id w =
      let (e, w') = call_rpc "" (create_job_token job_id (str_optional tm.runner_id)) w in
      let token = server.token w'.history in
      if is_empty job_id
      then ((plain "create job token: job ID is required", ""), w)
      else if not (is_nil e)
      then ((wrapped "create job token" e, ""), w')
      else if is_empty token
      then ((plain "create job token: empty token", ""), w')
      else ((nil, token), w')

  -- `GetArtifactDownload`
  unfoldable pub artifact_download :
      (jwt artifact_id : String) → World S O T G → (Error × ArtifactDownloadInfo) × World S O T G
  unfolding call_rpc
  artifact_download jwt artifact_id w =
      let (e, w') = call_rpc jwt (get_artifact_download artifact_id) w in
      ((if is_nil e then nil else wrapped "artifact download" e, server.artifact w'.history), w')

  -- What `PushAssets` and `PushFindings` share.
  unfoldable pub push : (jwt prefix : String) → Rpc O T G → World S O T G → Error × World S O T G
  unfolding call_rpc
  push jwt prefix rpc w =
      let (e, w') = call_rpc jwt rpc w in
      if not (is_nil (server.transcode rpc))
      then (wrapped prefix (server.transcode rpc), w)
      else (if is_nil e then nil else wrapped prefix e, w')

  -- `PushAssets` of domains or of services, and `PushFindings`
  unfoldable pub call_push_assets :
      (jwt : String) → Rpc O T G → World S O T G → Error × World S O T G
  unfolding push
  call_push_assets jwt rpc w = push jwt "push assets" rpc w

  unfoldable pub call_push_findings :
      (jwt : String) → Rpc O T G → World S O T G → Error × World S O T G
  unfolding push
  call_push_findings jwt rpc w = push jwt "push findings" rpc w

  -- `GetJobDetail`; the detail is nil where it fails.
  unfoldable pub call_get_job_detail :
      (jwt : String) → World S O T G → (Error × Option (JobDetail O)) × World S O T G
  unfolding call_rpc
  call_get_job_detail jwt w =
      let (e, w') = call_rpc jwt get_job_detail w in
      if is_nil e
      then ((nil, some (server.detail w'.history)), w')
      else ((wrapped "get job detail" e, none), w')

  -- `JobStart`, `JobCompleted`, `JobFailed` and `JobHeartbeat` return the error of the call.
  unfoldable pub call_job_start : (jwt : String) → World S O T G → Error × World S O T G
  unfolding call_rpc
  call_job_start jwt w = call_rpc jwt job_start w

  unfoldable pub call_job_completed : (jwt : String) → World S O T G → Error × World S O T G
  unfolding call_rpc
  call_job_completed jwt w = call_rpc jwt job_completed w

  unfoldable pub call_job_failed :
      (jwt description : String) → World S O T G → Error × World S O T G
  unfolding call_rpc str_optional
  call_job_failed jwt description w = call_rpc jwt (job_failed (str_optional description)) w

  unfoldable pub call_job_heartbeat : (jwt : String) → World S O T G → Error × World S O T G
  unfolding call_rpc
  call_job_heartbeat jwt w = call_rpc jwt job_heartbeat w
