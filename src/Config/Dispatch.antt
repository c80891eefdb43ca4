-- ===== src/Config/Dispatch.antt =====
-- How long the server holds a poll request, and how long the client sleeps between two.
use rediver_sdk_go.Prelude.{
  ℕ, ◌*◌, ◌/◌, ◌≤◌, ◌≡◌, ◌⊎◌, inl, inr, true, Bool-cases, str_eq, ℤ, pos, negsuc, leb_ℤ, ltb_ℤ,
  is_pos, to_int32, arith, to_int32_in_range, eq_iff, ap, ◌∙◌,
}
use rediver_sdk_go.Retry.{second}
use rediver_sdk_go.Config.{
  long_polling, max_long_poll_wait, AgentConfig, whole_seconds, dispatch_params,
}
use rediver_sdk_go.Config.Valid.{IsValid}

held_seconds :
    (d : ℤ)
    → is_pos d ≡ true
    → leb_ℤ d max_long_poll_wait ≡ true
    → (n : ℕ) × (to_int32 (whole_seconds d) ≡ pos n) × (n ≤ 60)
held_seconds (pos d) p h =
    (d / second, to_int32_in_range (pos (d / second)) (ground arith), ground arith)
held_seconds (negsuc d) p h = cc

module _ {F L : Type 0} where
  -- With a valid configuration the client sleeps at least a second between polls and the server
  -- holds no request, or the mode is long polling: then the client does not sleep, and the server
  -- holds the request for at most 60 seconds.
  pub dispatch_params_bounds :
      (c : AgentConfig F L)
      → IsValid c
      → ((dispatch_params c ≡ (pos 0, c.poll_interval))
          × (leb_ℤ (pos (1 * second)) c.poll_interval ≡ true))
        ⊎ ((c.dispatch_mode ≡ long_polling)
            × ((n : ℕ) × (dispatch_params c ≡ (pos n, pos 0)) × (n ≤ 60)))
  unfolding dispatch_params
  dispatch_params_bounds c v = elim (Bool-cases (str_eq c.dispatch_mode long_polling)) [
    | inl long ↦
        let (n, e, le) = held_seconds c.long_poll_wait v.waits v.waits_at_most in
        inr
          ((eq_iff c.dispatch_mode long_polling).0 long, (n, rw long (ap (λ m. (m, pos 0)) e), le))
    | inr short ↦ inl (rw short, v.slow_enough)
  ]

  -- In long-polling mode a wait below one second, which `WithLongPollWait` accepts, is sent to the
  -- server as 0 seconds, and the client does not sleep either.
  pub dispatch_params_busy :
      (c : AgentConfig F L)
      → c.dispatch_mode ≡ long_polling
      → is_pos c.long_poll_wait ≡ true
      → ltb_ℤ c.long_poll_wait (pos second) ≡ true
      → dispatch_params c ≡ (pos 0, pos 0)
  unfolding dispatch_params
  dispatch_params_busy c mode p h = rw mode (ap (λ m. (m, pos 0)) (no_seconds c.long_poll_wait p h))
    where
      no_seconds :
          (d : ℤ)
          → is_pos d ≡ true
          → ltb_ℤ d (pos second) ≡ true
          → to_int32 (whole_seconds d) ≡ pos 0
      no_seconds (pos d) q k =
          ap (λ n. to_int32 (pos n)) (let e : d / second ≡ 0 = ground arith in e)
          ∙ to_int32_in_range (pos 0) (omega arith)
      no_seconds (negsuc d) q k = cc
