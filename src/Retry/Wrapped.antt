-- ===== src/Retry/Wrapped.antt =====
-- The retry of the errors that the transport returns: internal/transport/client.go wraps what an
-- RPC fails with by fmt.Errorf, and the type assertions of IsRetryableError do not look inside.
use rediver_sdk_go.Prelude.{ℕ, zero, suc, ◌<◌, ◌≡◌, refl, ◌⊎◌, inl, inr, true, String, arith}
use rediver_sdk_go.Errors.{Error, nil, wrapped, is_nil}
use rediver_sdk_go.Retry.{
  FloatArith, RetryPolicy, Surroundings, is_retryable_error, after_call, attempts, do_retry,
}
use rediver_sdk_go.Retry.Bounds.{rounds, rounds-pos}

-- No error, or one that is wrapped.
unfoldable pub IsWrapped : Error → Type 0
IsWrapped e = (e ≡ nil) ⊎ ((prefix : String) × (err : Error) × (e ≡ wrapped prefix err))

module _ {W F : Type 0} (fl : FloatArith F) (p : RetryPolicy F) (s : Surroundings W F) where
  after_call-wrapped :
      (max attempt : ℕ) (next : Error → W → Error × W) (e : Error) (w : W)
      → IsWrapped e
      → after_call fl p s max attempt next (e, w) ≡ (e, w)
  unfolding after_call is_retryable_error IsWrapped
  after_call-wrapped max attempt next e w (inl h) = rw h refl
  after_call-wrapped max attempt next e w (inr (prefix, err, h)) = rw h refl

  attempts-wrapped :
      (n : ℕ) (w : W)
      → 0 < n
      → is_nil (s.done w) ≡ true
      → IsWrapped (s.call w).0
      → attempts fl p s n n 1 nil w ≡ s.call w
  unfolding attempts
  attempts-wrapped zero w h d e = absurd (omega arith)
  attempts-wrapped (suc n) w h d e =
      rw d (after_call-wrapped (suc n) 1 (attempts fl p s n (suc n) 2) (s.call w).0 (s.call w).1 e)

  -- Where the context is live and the call returns no error or a wrapped one, whatever it wraps,
  -- and whatever the policy, `Do` is one call.
  pub do_retry-wrapped :
      (w : W) → is_nil (s.done w) ≡ true → IsWrapped (s.call w).0 → do_retry fl p s w ≡ s.call w
  unfolding do_retry rounds
  do_retry-wrapped w d e = attempts-wrapped (rounds p) w (rounds-pos p) d e
