-- ===== src/Errors.antt =====
-- errors.go: the sentinels, the error types with their texts and unwrapping, and the errors of the
-- standard library that the code tests for. Go's nil error is the constructor `nil`.
use rediver_sdk_go.Prelude.{
  Bool, true, false, ◌||◌, String, ℤ, pos, non_empty, if◌then◌else◌, ◌<>◌, ◌==◌,
}
use rediver_sdk_go.Strconv.{format_int}

pub data Sentinel : Type 0 where
  job_not_found job_cancelled invalid_job no_job_available connection_lost auth_failed : Sentinel
  rate_limited max_retries invalid_config cluster_revoked already_running : Sentinel
  pool_stopped nil_job : Sentinel  -- internal/worker/errors.go

-- `wrapped` is what `fmt.Errorf("…: %w", err)` returns. `network` stands for the errors of package
-- net and the like, which implement net.Error; `canceled` is context.Canceled, and
-- `deadline_exceeded` context.DeadlineExceeded, which implements net.Error. `plain` is any other
-- error that wraps nothing, such as `fmt.Errorf` without %w, and an RPC's *connect.Error.
pub data Error : Type 0 where
  nil : Error
  sentinel : Sentinel → Error
  job_error : (job_id : String) → (message : String) → (err : Error) → Error
  api_error : (status : ℤ) → (message response : String) → (err : Error) → Error
  retryable_error : (err : Error) → (status attempt max_attempt next_retry : ℤ) → Error
  panic_error : (value : String) → Error
  wrapped : (message : String) → (err : Error) → Error
  network : (message : String) → Error
  canceled : Error
  deadline_exceeded : Error
  plain : (message : String) → Error

-- `err == nil`
abbrev pub is_nil : Error → Bool
is_nil nil = true
is_nil _ = false

abbrev pub same_sentinel : Sentinel → Sentinel → Bool
same_sentinel job_not_found job_not_found = true
same_sentinel job_cancelled job_cancelled = true
same_sentinel invalid_job invalid_job = true
same_sentinel no_job_available no_job_available = true
same_sentinel connection_lost connection_lost = true
same_sentinel auth_failed auth_failed = true
same_sentinel rate_limited rate_limited = true
same_sentinel max_retries max_retries = true
same_sentinel invalid_config invalid_config = true
same_sentinel cluster_revoked cluster_revoked = true
same_sentinel already_running already_running = true
same_sentinel pool_stopped pool_stopped = true
same_sentinel nil_job nil_job = true
same_sentinel _ _ = false

-- `errors.Is(err, target)` for a sentinel: along the chain that the Unwrap methods give.
unfoldable pub error_is : Error → Sentinel → Bool
error_is (sentinel s) target = same_sentinel s target
error_is (job_error id m err) target = error_is err target
error_is (api_error st m r err) target = error_is err target
error_is (retryable_error err st a ma nr) target = error_is err target
error_is (wrapped m err) target = error_is err target
error_is _ target = false

-- `(*APIError).IsRetryable`
unfoldable pub is_retryable : ℤ → Bool
is_retryable (pos n) = (n == 429) || (n == 502) || (n == 503) || (n == 504)
is_retryable _ = false

-- `(*APIError).Error`
unfoldable pub api_error_text : ℤ → String → String → String
api_error_text status message response =
    if non_empty response
    then "rediver api: " <> format_int status <> " - " <> response
    else if non_empty message
    then "rediver api: " <> format_int status <> " - " <> message
    else "rediver api: status " <> format_int status

-- `(*JobError).Error`, with the text of the wrapped error, if there is one.
unfoldable pub job_error_text : String → String → Error → String → String
job_error_text job_id message nil text = "job " <> job_id <> ": " <> message
job_error_text job_id message err text = "job " <> job_id <> ": " <> message <> ": " <> text

-- `(*RetryableError).Error`, with the texts of the next delay and of the wrapped error.
unfoldable pub retryable_error_text : ℤ → ℤ → String → String → String
retryable_error_text attempt max_attempt next_retry text =
    "retryable error (attempt "
    <> format_int attempt
    <> "/"
    <> format_int max_attempt
    <> ", retry in "
    <> next_retry
    <> "): "
    <> text
