-- ===== src/Config.antt =====
-- option.go: the agent's configuration, its options and what is resolved from the environment.
pub mod Valid
pub mod Dispatch
use rediver_sdk_go.Prelude.{
  ℕ, suc, ◌+◌, ◌-◌, ◌/◌, ◌*◌, ◌≡◌, refl, Bool, true, false, ◌&&◌, ◌||◌, Option, none, some, List,
  [], ◌∷◌, String, str_eq, is_empty, non_empty, ℤ, pos, negsuc, leb_ℤ, ltb_ℤ, is_pos, to_int32,
  if◌then◌else◌,
}
use rediver_sdk_go.Strconv.{trim_space}
use rediver_sdk_go.Retry.{
  second, FloatArith, RetryPolicy, default_retry_policy, aggressive_retry_policy, no_retry,
}

-- Of a client the code reads the timeout.
pub record HttpClient : Type 0 where
  pub timeout : ℤ

abbrev pub polling : String
polling = "polling"

abbrev pub long_polling : String
long_polling = "long-polling"

abbrev pub max_long_poll_wait : ℤ
max_long_poll_wait = pos (60 * second)

abbrev pub default_server_url : String
default_server_url = "https://api.rediver.ai"

-- `F` is the float of the retry policy, `L` the logger. `DispatchMode` is a string type.
pub record AgentConfig (F L : Type 0) : Type 0 where
  pub logger : L
  pub http_client : HttpClient
  pub retry_policy : RetryPolicy F
  pub max_concurrency : ℤ
  pub poll_interval : ℤ
  pub dispatch_mode : String
  pub long_poll_wait : ℤ
  pub version : String
  pub hostname : String
  pub shutdown_timeout : ℤ
  pub log_level : ℤ
  pub sync_metadata_dispatcher : Bool
  pub server_url : String

-- The With… functions. A nil logger or client is `none`.
pub data AgentOption (F L : Type 0) : Type 0 where
  with_dispatcher_metadata_sync : AgentOption F L
  with_max_concurrency : (n : ℤ) → AgentOption F L
  with_poll_interval : (d : ℤ) → AgentOption F L
  with_dispatch_mode : (m : String) → AgentOption F L
  with_long_poll_wait : (d : ℤ) → AgentOption F L
  with_version : (v : String) → AgentOption F L
  with_hostname : (h : String) → AgentOption F L
  with_logger : (logger : Option L) → AgentOption F L
  with_retry : (policy : RetryPolicy F) → AgentOption F L
  with_http_client : (client : Option HttpClient) → AgentOption F L
  with_shutdown_timeout : (d : ℤ) → AgentOption F L
  with_retry_default with_retry_aggressive with_no_retry : AgentOption F L
  with_log_level : (level : ℤ) → AgentOption F L
  with_server_url : (url : String) → AgentOption F L

-- `int32(c.longPollWait.Seconds())`. Below 2 ^ 53 nanoseconds the float64 of the seconds loses
-- nothing that truncation keeps.
abbrev pub whole_seconds : ℤ → ℤ
whole_seconds (pos n) = pos (n / second)
whole_seconds (negsuc n) =
    if ltb_ℤ (pos (suc n)) (pos second) then pos 0 else negsuc (suc n / second - 1)

module _ {F L : Type 0} where
  -- `dispatchParams`: the seconds that the server may hold the request, and the client's sleep.
  unfoldable pub dispatch_params : AgentConfig F L → ℤ × ℤ
  dispatch_params c =
      if str_eq c.dispatch_mode long_polling
      then (to_int32 (whole_seconds c.long_poll_wait), pos 0)
      else (pos 0, c.poll_interval)

module _ {F L : Type 0} (fl : FloatArith F) where
  -- `defaultAgentConfig`, given `slog.Default()` and what `os.Hostname` returns.
  unfoldable pub default_agent_config : L → String → AgentConfig F L
  default_agent_config logger hostname = record {
    logger = logger;
    http_client = record { timeout = pos (90 * second) };
    retry_policy = default_retry_policy fl;
    max_concurrency = pos 1;
    poll_interval = pos (5 * second);
    dispatch_mode = polling;
    long_poll_wait = pos (30 * second);
    version = "";
    hostname = hostname;
    shutdown_timeout = pos 0;
    log_level = pos 0;
    sync_metadata_dispatcher = false;
    server_url = "";
  }

  -- One option applied; `none` is the panic of an invalid dispatch mode.
  unfoldable pub apply : AgentOption F L → AgentConfig F L → Option (AgentConfig F L)
  apply with_dispatcher_metadata_sync c = some (record c { sync_metadata_dispatcher = true })
  apply (with_max_concurrency n) c = some (if is_pos n then record c { max_concurrency = n } else c)
  apply (with_poll_interval d) c =
      some (if leb_ℤ (pos (1 * second)) d then record c { poll_interval = d } else c)
  apply (with_dispatch_mode m) c =
      if str_eq m polling || str_eq m long_polling
      then some (record c { dispatch_mode = m })
      else none
  apply (with_long_poll_wait d) c =
      some (if is_pos d && leb_ℤ d max_long_poll_wait then record c { long_poll_wait = d } else c)
  apply (with_version v) c = some (record c { version = v })
  apply (with_hostname h) c = some (record c { hostname = h })
  apply (with_logger none) c = some c
  apply (with_logger (some logger)) c = some (record c { logger = logger })
  apply (with_retry policy) c = some (record c { retry_policy = policy })
  apply (with_http_client none) c = some c
  apply (with_http_client (some client)) c = some (record c { http_client = client })
  apply (with_shutdown_timeout d) c = some (record c { shutdown_timeout = d })
  apply with_retry_default c = some (record c { retry_policy = default_retry_policy fl })
  apply with_retry_aggressive c = some (record c { retry_policy = aggressive_retry_policy fl })
  apply with_no_retry c = some (record c { retry_policy = no_retry fl })
  apply (with_log_level level) c = some (record c { log_level = level })
  apply (with_server_url url) c = some (record c { server_url = url })

  -- `for _, opt := range opts { opt(cfg) }`
  unfoldable pub apply_all : List (AgentOption F L) → AgentConfig F L → Option (AgentConfig F L)
  unfolding apply
  apply_all [] c = some c
  apply_all (o ∷ os) c = elim (apply o c) [ none ↦ none | some c' ↦ apply_all os c' ]

-- `resolveAgentToken`; `env` is `os.Getenv("REDIVER_TOKEN")`, "" where it is not set.
unfoldable pub resolve_agent_token : String → String → String
resolve_agent_token explicit env = if non_empty explicit then explicit else trim_space env

-- `resolveServerURL`; `env` is `os.Getenv("REDIVER_URL")`.
unfoldable pub resolve_server_url : String → String → String
resolve_server_url explicit env =
    if non_empty explicit
    then explicit
    else if non_empty (trim_space env)
    then trim_space env
    else default_server_url
