-- ===== src/Retry/Backoff.antt =====
-- Bounds of the backoff, from what float64 promises of conversions and comparisons.
use rediver_sdk_go.Prelude.{◌≡◌, inl, inr, true, false, Bool-cases, ℤ, pos, leb_ℤ}
use rediver_sdk_go.Retry.{FloatArith, RetryPolicy, backoff_duration, pred_ℤ}

-- What the conversions promise: truncation back to a duration stays at or below `d` for the float
-- of `d`, and for every float that is not greater.
pub record Rounding {F : Type 0} (fl : FloatArith F) : Type 0 where
  pub back : (d : ℤ) → leb_ℤ (fl.to_duration (fl.of_int d)) d ≡ true
  pub below : (x : F) (d : ℤ) → fl.gt x (fl.of_int d) ≡ false → leb_ℤ (fl.to_duration x) d ≡ true

module _ {F : Type 0} (fl : FloatArith F) (laws : Rounding fl) (p : RetryPolicy F) where
  -- Without jitter the backoff never passes `MaxBackoff`, for any attempt from 1 on; before that it
  -- is 0.
  backoff_duration-le :
      (attempt : ℤ) (random : F)
      → p.jitter ≡ false
      → leb_ℤ attempt (pos 0) ≡ false
      → leb_ℤ (backoff_duration fl p attempt random) p.max_backoff ≡ true
  unfolding backoff_duration
  backoff_duration-le attempt random h first =
      rw (first, h)
        (elim (Bool-cases (
          fl.gt
            (fl.mul (fl.of_int p.initial_backoff) (fl.pow p.backoff_multiplier (pred_ℤ attempt)))
            (fl.of_int p.max_backoff))) [
              | inl over ↦ rw over (laws.back p.max_backoff)
              | inr under ↦ rw under (laws.below _ p.max_backoff under)
            ])
