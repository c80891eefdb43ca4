-- ===== src/Agent/Client/Deadline.antt =====
-- The timeout that DoPollJob gives the context of a poll, against the time that the server holds it.
use rediver_sdk_go.Prelude.{
  ℕ, zero, suc, ◌+◌, ◌*◌, ◌≤◌, ◌≡◌, refl, ap, ◌∙◌, ◌⊎◌, inl, inr, true, Option, none, some, ℤ, pos,
  leb_ℤ, to_int32_in_range, arith,
}
use rediver_sdk_go.Retry.{second}
use rediver_sdk_go.Config.{AgentConfig, long_polling, dispatch_params}
use rediver_sdk_go.Config.Valid.{IsValid}
use rediver_sdk_go.Config.Dispatch.{dispatch_params_bounds}
use rediver_sdk_go.Agent.Client.{times_second, poll_timeout}

-- Five seconds more than a wait, none where there is no wait.
abbrev pub with_margin : ℕ → Option ℤ
with_margin zero = none
with_margin (suc n) = some (pos ((suc n + 5) * second))

poll_timeout-with_margin : (n : ℕ) → n ≤ 60 → poll_timeout (pos n) ≡ with_margin n
unfolding poll_timeout
poll_timeout-with_margin zero h = refl
poll_timeout-with_margin (suc n) h =
    ap (λ k. some (times_second k)) (to_int32_in_range (pos (suc n + 5)) (omega (arith, h)))

module _ {F L : Type 0} where
  -- With a valid configuration, either the client sleeps at least a second between polls, the
  -- server holds no request and the context of a poll gets no timeout; or the mode is long polling,
  -- the client does not sleep, the server holds a request for n seconds, n at most 60, and the
  -- context of the poll gets a timeout of n + 5 seconds where n is positive, and none where n is 0.
  pub dispatch_params-poll_timeout :
      (c : AgentConfig F L)
      → IsValid c
      → ((dispatch_params c ≡ (pos 0, c.poll_interval))
          × (leb_ℤ (pos (1 * second)) c.poll_interval ≡ true)
          × (poll_timeout (dispatch_params c).0 ≡ none))
        ⊎ ((c.dispatch_mode ≡ long_polling)
            × ((n : ℕ) × (dispatch_params c ≡ (pos n, pos 0))
                × (n ≤ 60)
                × (poll_timeout (dispatch_params c).0 ≡ with_margin n)))
  unfolding poll_timeout
  dispatch_params-poll_timeout c v = elim (dispatch_params_bounds c v) [
    | inl (e, slow) ↦ inl (e, slow, ap (λ r. poll_timeout r.0) e)
    | inr (long, (n, e, le)) ↦
        inr (long, (n, e, le, ap (λ r. poll_timeout r.0) e ∙ poll_timeout-with_margin n le))
  ]
