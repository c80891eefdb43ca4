-- ===== src/Agent/Poll.antt =====
-- agent_poll.go and the loop of agent_dispatch.go: one round of each, and the backoff of failed
-- polls. A duration is in nanoseconds.
pub mod Loops
use rediver_sdk_go.Prelude.{
  ℕ, zero, suc, ◌*◌, ◌^◌, ◌≤◌, ◌≡◌, refl, ap, ◌∙◌, Bool, false, String, is_empty, ltb, min, length,
  All, List, [], ◌∷◌, arith, if◌then◌else◌,
}
use rediver_sdk_go.Errors.{Error, Sentinel, error_is, is_nil}
use rediver_sdk_go.Retry.{second}
use native.Mathlib.Numerals.{unary_clauses}

unfoldable pub min_duration : ℕ → ℕ → ℕ
min_duration a b = if ltb a b then a else b

abbrev millisecond : ℕ
millisecond = 1_000_000

-- What a round does with its poll: sleep and go on, submit the job, go on at once, or return.
pub data Command : Type 0 where
  sleep_for : ℕ → Command
  submit : (job_id : String) → Command
  hand_over : (job_id scanner : String) → Command
  poll_again : Command
  leave_with : Error → Command

-- The backoff after a failed poll.
unfoldable pub next_backoff : ℕ → ℕ
unfolding min_duration
next_backoff backoff = min_duration (backoff * 2) (30 * second)

-- One round of `pollLoop` under a live context, with the backoff after it. The poll is asked for
-- only where the pool is not busy.
unfoldable pub poll_round :
    (busy : Bool) → (Error × String × String) → (client_sleep backoff : ℕ) → Command × ℕ
unfolding next_backoff
poll_round busy (err, job_id, scanner) client_sleep backoff =
    if busy
    then (sleep_for (500 * millisecond), backoff)
    else if is_nil err
    then (
      (if is_empty job_id
          then if ltb 0 client_sleep then sleep_for client_sleep else poll_again
          else submit job_id),
      second,
    )
    else (sleep_for backoff, next_backoff backoff)

-- One round of `runDispatcher` under a live context.
unfoldable pub dispatch_round : (Error × String × String) → (client_sleep backoff : ℕ) → Command × ℕ
unfolding next_backoff
dispatch_round (err, job_id, scanner) client_sleep backoff =
    if is_nil err
    then (
      (if is_empty job_id
          then if ltb 0 client_sleep then sleep_for client_sleep else poll_again
          else hand_over job_id scanner),
      second,
    )
    else if error_is err Sentinel.cluster_revoked
    then (leave_with err, backoff)
    else (sleep_for backoff, next_backoff backoff)

-- What the rounds of a run of failed polls do, the first with the given backoff.
unfoldable pub failed_polls : List Error → (client_sleep backoff : ℕ) → List Command
unfolding poll_round
failed_polls [] client_sleep backoff = []
failed_polls (e ∷ es) client_sleep backoff =
    let (command, backoff') = poll_round false (e, "", "") client_sleep backoff in
    command ∷ failed_polls es client_sleep backoff'

-- The backoff stays between a second and 30 seconds in both loops, whatever is polled.
backoff-bounded :
    (busy : Bool) (reply : Error × String × String) (client_sleep backoff : ℕ)
    → second ≤ backoff
    → backoff ≤ 30 * second
    → ((second ≤ (poll_round busy reply client_sleep backoff).1)
        × ((poll_round busy reply client_sleep backoff).1 ≤ 30 * second))
      × ((second ≤ (dispatch_round reply client_sleep backoff).1)
          × ((dispatch_round reply client_sleep backoff).1 ≤ 30 * second))
unfolding poll_round dispatch_round next_backoff min_duration
backoff-bounded busy (err, job_id, scanner) client_sleep backoff l u =
    ((ground arith, ground arith), (ground arith, ground arith))

-- 2 ^ i seconds, and 30 seconds from the sixth poll on.
unfoldable pub capped : ℕ → ℕ
capped i = min (second * 2 ^ i) (30 * second)

unfoldable pub schedule : (n i : ℕ) → List Command
schedule zero i = []
schedule (suc n) i = sleep_for (capped i) ∷ schedule n (suc i)

next_backoff-capped : (i : ℕ) → next_backoff (capped i) ≡ capped (suc i)
unfolding next_backoff min_duration capped
next_backoff-capped i =
    let double : 2 ^ suc i ≡ 2 ^ i * 2 = simp unary_clauses refl in ground (arith, double)

failed_polls-schedule :
    (es : List Error) (client_sleep i : ℕ)
    → All (λ e. is_nil e ≡ false) es
    → failed_polls es client_sleep (capped i) ≡ schedule (length es) i
unfolding failed_polls poll_round schedule
failed_polls-schedule [] client_sleep i h = refl
failed_polls-schedule (e ∷ es) client_sleep i (h, hs) = rw h (
    ap (λ l. sleep_for (capped i) ∷ l)
      (ap (λ b. failed_polls es client_sleep b) (next_backoff-capped i)
        ∙ failed_polls-schedule es client_sleep (suc i) hs))

-- In a run of failed polls, whatever they fail with, the loop sleeps 1, 2, 4, 8 and 16 seconds and
-- then 30 seconds each time.
pub failed_polls_lem :
    (es : List Error) (client_sleep : ℕ)
    → All (λ e. is_nil e ≡ false) es
    → failed_polls es client_sleep second ≡ schedule (length es) 0
unfolding capped
failed_polls_lem es client_sleep h = failed_polls-schedule es client_sleep 0 h
