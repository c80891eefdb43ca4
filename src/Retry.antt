-- ===== src/Retry.antt =====
-- retry.go: the retry policies, the decision what is retried, the backoff and the retry loop.
pub mod Scripted
pub mod Bounds
pub mod Backoff
pub mod Keeps
pub mod Wrapped
use rediver_sdk_go.Prelude.{
  ℕ, zero, suc, ◌+◌, ◌-◌, ◌*◌, ◌≡◌, refl, Bool, true, false, ◌||◌, List, [], ◌∷◌, String, ℤ, pos,
  negsuc, ltb, leb, ltb_ℤ, leb_ℤ, ◌==◌, if◌then◌else◌, not,
}
use rediver_sdk_go.Errors.{
  Error, nil, sentinel, api_error, retryable_error, wrapped, network, canceled, deadline_exceeded,
  plain, is_nil,
}

-- Durations are int64 nanoseconds.
abbrev pub second : ℕ
second = 1_000_000_000

-- What the code uses of float64, for the backoff.
pub record FloatArith (F : Type 0) : Type 0 where
  pub of_int : ℤ → F  -- `float64(d)`
  pub mul : F → F → F
  pub add : F → F → F
  pub pow : F → ℤ → F  -- `math.Pow(x, float64(n))`
  pub gt : F → F → Bool
  pub two : F
  pub quarter : F
  pub to_duration : F → ℤ  -- `time.Duration(x)`
  pub zero : F

pub record RetryPolicy (F : Type 0) : Type 0 where
  pub max_attempts : ℤ
  pub initial_backoff : ℤ
  pub max_backoff : ℤ
  pub backoff_multiplier : F
  pub jitter : Bool
  pub retryable_status_codes : List ℤ

module _ {F : Type 0} (fl : FloatArith F) where
  unfoldable pub default_retry_policy : RetryPolicy F
  default_retry_policy = record {
    max_attempts = pos 5;
    initial_backoff = pos (1 * second);
    max_backoff = pos (60 * second);
    backoff_multiplier = fl.two;
    jitter = true;
    retryable_status_codes = pos 429 ∷ pos 502 ∷ pos 503 ∷ pos 504 ∷ [];
  }

  unfoldable pub aggressive_retry_policy : RetryPolicy F
  aggressive_retry_policy = record {
    max_attempts = pos 10;
    initial_backoff = pos (2 * second);
    max_backoff = pos (120 * second);
    backoff_multiplier = fl.two;
    jitter = true;
    retryable_status_codes = pos 429 ∷ pos 502 ∷ pos 503 ∷ pos 504 ∷ [];
  }

  unfoldable pub no_retry : RetryPolicy F
  no_retry = record {
    max_attempts = pos 1;
    initial_backoff = pos 0;
    max_backoff = pos 0;
    backoff_multiplier = fl.zero;
    jitter = false;
    retryable_status_codes = [];
  }

-- A natural number's value, 0 for a negative one.
abbrev pos_part : ℤ → ℕ
pos_part (pos n) = n
pos_part (negsuc n) = 0

abbrev eq_ℤ : ℤ → ℤ → Bool
eq_ℤ (pos a) (pos b) = a == b
eq_ℤ (negsuc a) (negsuc b) = a == b
eq_ℤ _ _ = false

-- The loop of `IsRetryableStatus`.
unfoldable pub contains_code : List ℤ → ℤ → Bool
contains_code [] status = false
contains_code (c ∷ cs) status = eq_ℤ c status || contains_code cs status

module _ {F : Type 0} where
  unfoldable pub is_retryable_status : RetryPolicy F → ℤ → Bool
  unfolding contains_code
  is_retryable_status p status = contains_code p.retryable_status_codes status

  -- The type assertions look at the error itself, not at what it wraps.
  unfoldable pub is_retryable_error : RetryPolicy F → Error → Bool
  unfolding is_retryable_status
  is_retryable_error p nil = false
  is_retryable_error p (api_error status message response err) = is_retryable_status p status
  is_retryable_error p (network message) = true
  is_retryable_error p deadline_exceeded = true
  is_retryable_error p _ = false

  -- `newRetrier`
  unfoldable pub new_retrier : RetryPolicy F → RetryPolicy F
  new_retrier p = if leb_ℤ p.max_attempts (pos 0) then record p { max_attempts = pos 1 } else p

-- `attempt - 1` for an attempt above 0.
abbrev pred_ℤ : ℤ → ℤ
pred_ℤ (pos n) = pos (n - 1)
pred_ℤ (negsuc n) = negsuc (suc n)

-- `BackoffDuration`; `random` is what `rand.Float64()` returns.
unfoldable pub backoff_duration : {F : Type 0} → FloatArith F → RetryPolicy F → ℤ → F → ℤ
backoff_duration fl p attempt random =
    let raw = fl.mul (fl.of_int p.initial_backoff) (fl.pow p.backoff_multiplier (pred_ℤ attempt)) in
    let backoff = if fl.gt raw (fl.of_int p.max_backoff) then fl.of_int p.max_backoff else raw in
    if leb_ℤ attempt (pos 0)
    then pos 0
    else if p.jitter
    then fl.to_duration (fl.add backoff (fl.mul (fl.mul backoff fl.quarter) random))
    else fl.to_duration backoff

-- What surrounds the loop, over a world `W`: the function that is tried, `ctx.Err()` at the head of
-- a round (nil while the context is live), the wait for a backoff, which returns the context's
-- error where the context ends first, and what `rand.Float64()` returns in a round.
pub record Surroundings (W F : Type 0) : Type 0 where
  pub call : W → Error × W
  pub done : W → Error
  pub wait : ℤ → W → Error × W
  pub random : ℕ → F

module _ {W F : Type 0} (fl : FloatArith F) (p : RetryPolicy F) (s : Surroundings W F) where
  -- The second select: go on with the next round, or return the context's error.
  unfoldable pub after_wait : (W → Error × W) → Error × W → Error × W
  after_wait next (e, w) = if is_nil e then next w else (e, w)

  -- One round after `err := fn()`; `next` is the next round, given `lastErr`.
  unfoldable pub after_call : (max attempt : ℕ) → (Error → W → Error × W) → Error × W → Error × W
  unfolding after_wait
  after_call max attempt next (err, w) =
      if is_nil err
      then (nil, w)
      else if not (is_retryable_error p err)
      then (err, w)
      else if ltb attempt max
      then after_wait (next err) (s.wait (backoff_duration fl p (pos attempt) (s.random attempt)) w)
      else next err w

  -- The loop with `left` rounds to go, in round `attempt` of `max`; `last` is `lastErr`.
  unfoldable pub attempts : (left max attempt : ℕ) → Error → W → Error × W
  unfolding after_call
  attempts zero max attempt last w = (retryable_error last (pos 0) (pos max) (pos max) (pos 0), w)
  attempts (suc left) max attempt last w =
      let ended = s.done w in
      let round = after_call max attempt (attempts left max (suc attempt)) (s.call w) in
      if is_nil ended then round else (ended, w)

  -- `(*retrier).Do`; `newRetrier` has made `max_attempts` positive.
  unfoldable pub do_retry : W → Error × W
  unfolding attempts
  do_retry w = let max = pos_part (new_retrier p).max_attempts in attempts max max 1 nil w
