-- ===== src/Retry/Keeps.antt =====
-- What the function and the waits leave alone, the retry loop leaves alone.
use rediver_sdk_go.Prelude.{ℕ, zero, suc, ◌≡◌, refl, ◌∙◌, inl, inr, Bool-cases, not, ℤ, ltb}
use rediver_sdk_go.Errors.{Error, nil, is_nil}
use rediver_sdk_go.Retry.{
  FloatArith, RetryPolicy, Surroundings, is_retryable_error, after_wait, after_call, attempts,
  do_retry,
}

module _ {W F X : Type 0} (fl : FloatArith F) (p : RetryPolicy F) (s : Surroundings W F)
    (view : W → X) (call_keeps : (w : W) → view (s.call w).1 ≡ view w)
    (wait_keeps : (d : ℤ) (w : W) → view (s.wait d w).1 ≡ view w) where
  after_wait-view :
      (next : W → Error × W) (r : Error × W)
      → ((w : W) → view (next w).1 ≡ view w)
      → view (after_wait fl p s next r).1 ≡ view r.1
  unfolding after_wait
  after_wait-view next (e, w) h = elim (Bool-cases (is_nil e)) [
    | inl live ↦ rw live (h w)
    | inr ended ↦ rw ended refl
  ]

  after_call-view :
      (max attempt : ℕ) (next : Error → W → Error × W) (r : Error × W)
      → ((e : Error) (w : W) → view (next e w).1 ≡ view w)
      → view (after_call fl p s max attempt next r).1 ≡ view r.1
  unfolding after_call
  after_call-view max attempt next (e, w) h = elim (Bool-cases (is_nil e)) [
    | inl done ↦ rw done refl
    | inr failed ↦ rw failed (elim (Bool-cases (not (is_retryable_error p e))) [
      | inl final ↦ rw final refl
      | inr again ↦ rw again (elim (Bool-cases (ltb attempt max)) [
        | inl more ↦ rw more (after_wait-view (next e) _ (h e) ∙ wait_keeps _ w)
        | inr last ↦ rw last (h e w)
      ])
    ])
  ]

  attempts-view :
      (left max attempt : ℕ) (last : Error) (w : W)
      → view (attempts fl p s left max attempt last w).1 ≡ view w
  unfolding attempts
  attempts-view zero max attempt last w = refl
  attempts-view (suc left) max attempt last w = elim (Bool-cases (is_nil (s.done w))) [
    | inl live ↦ rw live (
        after_call-view max attempt (attempts fl p s left max (suc attempt)) (s.call w)
          (attempts-view left max (suc attempt))
        ∙ call_keeps w)
    | inr over ↦ rw over refl
  ]

  pub do_retry-view : (w : W) → view (do_retry fl p s w).1 ≡ view w
  unfolding do_retry
  do_retry-view w = attempts-view _ _ 1 nil w
