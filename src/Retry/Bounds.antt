-- ===== src/Retry/Bounds.antt =====
-- How often the retry loop calls its function, and what it may return, in any surroundings.
use rediver_sdk_go.Prelude.{
  ℕ, zero, suc, ◌+◌, ◌≤◌, ◌<◌, ◌≡◌, inl, inr, Bool, true, false, Bool-cases, ℤ, pos, ltb, not,
  arith, refl, sym, ap, ◌∙◌,
}
use rediver_sdk_go.Errors.{Error, nil, retryable_error, is_nil}
use rediver_sdk_go.Retry.{
  FloatArith, RetryPolicy, Surroundings, is_retryable_error, new_retrier, pos_part, after_wait,
  after_call, attempts, do_retry, backoff_duration,
}

-- The rounds that `newRetrier` leaves: one where the policy asks for none.
unfoldable pub rounds : {F : Type 0} → RetryPolicy F → ℕ
unfolding new_retrier
rounds p = pos_part (new_retrier p).max_attempts

pub rounds-pos : {F : Type 0} (p : RetryPolicy F) → 0 < rounds p
unfolding rounds
rounds-pos p = ground arith

module _ {W F : Type 0} (fl : FloatArith F) (p : RetryPolicy F) (s : Surroundings W F)
    (calls : W → ℕ) (call_counts : (w : W) → calls (s.call w).1 ≡ calls w + 1)
    (wait_keeps : (d : ℤ) (w : W) → calls (s.wait d w).1 ≡ calls w) where
  after_wait-calls :
      (next : W → Error × W) (n : ℕ) (r : Error × W)
      → ((w : W) → calls (next w).1 ≤ calls w + n)
      → calls (after_wait fl p s next r).1 ≤ calls r.1 + n
  unfolding after_wait
  after_wait-calls next n (e, w) h = elim (Bool-cases (is_nil e)) [
    | inl live ↦ rw live (h w)
    | inr ended ↦ rw ended (omega arith)
  ]

  after_call-calls :
      (max attempt n : ℕ) (next : Error → W → Error × W) (r : Error × W)
      → ((e : Error) (w : W) → calls (next e w).1 ≤ calls w + n)
      → calls (after_call fl p s max attempt next r).1 ≤ calls r.1 + n
  unfolding after_call
  after_call-calls max attempt n next (e, w) h = ground (
    arith,
    h e w,
    wait_keeps (backoff_duration fl p (pos attempt) (s.random attempt)) w,
    after_wait-calls (next e) n (s.wait (backoff_duration fl p (pos attempt) (s.random attempt)) w)
        (h e),
  )

  attempts-calls :
      (left max attempt : ℕ) (last : Error) (w : W)
      → calls (attempts fl p s left max attempt last w).1 ≤ calls w + left
  unfolding attempts
  attempts-calls zero max attempt last w = omega arith
  attempts-calls (suc left) max attempt last w = ground (
    arith,
    call_counts w,
    after_call-calls max attempt left (attempts fl p s left max (suc attempt)) (s.call w)
        (attempts-calls left max (suc attempt)),
  )

  -- Whatever the function, the context and the waits do, the function is called at most as often as
  -- the policy's attempts, and at most once where the policy asks for none.
  pub do_retry-calls : (w : W) → calls (do_retry fl p s w).1 ≤ calls w + rounds p
  unfolding do_retry rounds
  do_retry-calls w = attempts-calls _ _ 1 nil w

module _ {W F : Type 0} (p : RetryPolicy F) (s : Surroundings W F) where
  -- Where a result comes from: a call that succeeded, a call with an error that is not retried, the
  -- context at the head of a round or in a wait, or a last call with an error that is retried.
  pub data Origin (max : ℕ) (r : Error × W) : Type 0 where
    succeeded : (w : W) → s.call w ≡ r → r.0 ≡ nil → Origin max r
    refused :
        (w : W)
        → s.call w ≡ r
        → is_nil r.0 ≡ false
        → is_retryable_error p r.0 ≡ false
        → Origin max r
    ended : (w : W) → r ≡ (s.done w, w) → is_nil r.0 ≡ false → Origin max r
    interrupted : (d : ℤ) (w : W) → s.wait d w ≡ r → is_nil r.0 ≡ false → Origin max r
    exhausted :
        (w : W)
        → is_retryable_error p (s.call w).0 ≡ true
        → r ≡ (retryable_error (s.call w).0 (pos 0) (pos max) (pos max) (pos 0), (s.call w).1)
        → Origin max r

  -- `last` and the world are what a call left that is to be retried.
  record LastCall (last : Error) (w : W) : Type 0 where
    before : W
    same : s.call before ≡ (last, w)
    retried : is_retryable_error p last ≡ true

eq_nil_of_is_nil : (e : Error) → is_nil e ≡ true → e ≡ nil
eq_nil_of_is_nil e h = ground arith

not-false : (b : Bool) → not b ≡ false → b ≡ true
not-false true h = refl
not-false false h = sym h

module _ {W F : Type 0} (fl : FloatArith F) (p : RetryPolicy F) (s : Surroundings W F) where
  after_wait-Origin :
      (max : ℕ) (next : W → Error × W) (d : ℤ) (w : W) (r : Error × W)
      → s.wait d w ≡ r
      → ((v : W) → Origin p s max (next v))
      → Origin p s max (after_wait fl p s next r)
  unfolding after_wait
  after_wait-Origin max next d w (e, v) h k = elim (Bool-cases (is_nil e)) [
    | inl live ↦ rw live (k v)
    | inr over ↦ rw over (interrupted d w h over)
  ]

  after_call-Origin :
      (max attempt : ℕ) (next : Error → W → Error × W) (w : W) (r : Error × W)
      → s.call w ≡ r
      → ((e : Error) (v : W)
          → (ltb attempt max ≡ false → LastCall p s e v)
          → Origin p s max (next e v))
      → Origin p s max (after_call fl p s max attempt next r)
  unfolding after_call
  after_call-Origin max attempt next w (e, v) h k = elim (Bool-cases (is_nil e)) [
    | inl done ↦ rw done (succeeded w (h ∙ ap (λ x. (x, v)) (eq_nil_of_is_nil e done)) refl)
    | inr failed ↦ rw failed (elim (Bool-cases (not (is_retryable_error p e))) [
      | inl final ↦ rw final (refused w h failed (is_false final))
      | inr again ↦ rw again (elim (Bool-cases (ltb attempt max)) [
        | inl more ↦ rw more (after_wait-Origin max (next e) _ v _ refl (λ u. k e u (λ no. cc)))
        | inr last ↦
            rw last (k e v (λ _. record { before = w; same = h; retried = not-false _ again }))
      ])
    ])
  ]
    where
      is_false : not (is_retryable_error p e) ≡ true → is_retryable_error p e ≡ false
      is_false q = ground arith

  attempts-Origin :
      (left max attempt : ℕ) (last : Error) (w : W)
      → attempt + left ≡ max + 1
      → (left ≡ 0 → LastCall p s last w)
      → Origin p s max (attempts fl p s left max attempt last w)
  unfolding attempts
  attempts-Origin zero max attempt last w h k =
      let l = k refl in exhausted l.before (rw l.same l.retried) (rw l.same)
  attempts-Origin (suc left) max attempt last w h k = elim (Bool-cases (is_nil (s.done w))) [
    | inl live ↦ rw live (
        after_call-Origin max attempt (attempts fl p s left max (suc attempt)) w (s.call w) refl
          (λ e v c.
            attempts-Origin left max (suc attempt) e v (omega arith) (λ z. c (ground arith))))
    | inr over ↦ rw over (ended w refl over)
  ]

  -- The result of `Do` is a successful call's, or an error of one of four origins: an error that is
  -- not retried is returned as it is, an error of the context too, and after the last round the
  -- last error is returned inside a RetryableError with the number of attempts.
  pub do_retry-Origin : (w : W) → Origin p s (rounds p) (do_retry fl p s w)
  unfolding do_retry rounds
  do_retry-Origin w = attempts-Origin _ _ 1 nil w (omega arith) (λ z. absurd (none_left z))
    where
      none_left : ¬ (pos_part (new_retrier p).max_attempts ≡ 0)
      none_left z = omega (arith, rounds-pos p)
