-- ===== src/Retry/Scripted.antt =====
-- The retry loop over a live context and a script of results: the world is the list of the results
-- that the next calls return.
use rediver_sdk_go.Prelude.{
  ℕ, zero, suc, ◌<◌, ◌≡◌, refl, true, false, List, [], ◌∷◌, ◌++◌, length, All, pos, arith, ◌∙◌,
}
use rediver_sdk_go.Errors.{Error, nil, retryable_error, is_nil}
use rediver_sdk_go.Retry.{
  FloatArith, RetryPolicy, Surroundings, is_retryable_error, attempts, do_retry,
}
use rediver_sdk_go.Retry.Bounds.{rounds}

-- An exhausted script succeeds.
abbrev pub pop : List Error → Error × List Error
pop [] = (nil, [])
pop (e ∷ es) = (e, es)

-- The context never ends, and every wait runs its time.
abbrev pub scripted : {F : Type 0} → (ℕ → F) → Surroundings (List Error) F
scripted random = record { call = pop; done = λ w. nil; wait = λ d w. (nil, w); random = random }

abbrev pub last_of : Error → List Error → Error
last_of e [] = e
last_of e (f ∷ fs) = last_of f fs

module _ {F : Type 0} (fl : FloatArith F) (p : RetryPolicy F) (random : ℕ → F) where
  abbrev IsRetried : Error → Type 0
  IsRetried e = is_retryable_error p e ≡ true

  retried-ne-nil : (e : Error) → IsRetried e → is_nil e ≡ false
  unfolding is_retryable_error
  retried-ne-nil e h = ground arith

  attempts-retried :
      (left max attempt : ℕ) (last e : Error) (es : List Error)
      → IsRetried e
      → attempts fl p (scripted random) (suc left) max attempt last (e ∷ es)
        ≡ attempts fl p (scripted random) left max (suc attempt) e es
  unfolding attempts
  attempts-retried left max attempt last e es h = rw (retried-ne-nil e h) (rw h (ground arith))

  attempts-success :
      (left max attempt : ℕ) (last : Error) (es rest : List Error)
      → All IsRetried es
      → length es < left
      → attempts fl p (scripted random) left max attempt last (es ++ nil ∷ rest) ≡ (nil, rest)
  attempts-success zero max attempt last es rest h lt = absurd (omega arith)
  attempts-success (suc left) max attempt last [] rest h lt = unfold attempts in refl
  attempts-success (suc left) max attempt last (e ∷ es) rest h lt =
      attempts-retried left max attempt last e (es ++ nil ∷ rest) h.0
      ∙ attempts-success left max (suc attempt) e es rest h.1 (omega arith)

  attempts-exhausted :
      (left max attempt : ℕ) (last : Error) (es rest : List Error)
      → All IsRetried es
      → length es ≡ left
      → attempts fl p (scripted random) left max attempt last (es ++ rest)
        ≡ (retryable_error (last_of last es) (pos 0) (pos max) (pos max) (pos 0), rest)
  attempts-exhausted zero max attempt last [] rest h eq = unfold attempts in refl
  attempts-exhausted zero max attempt last (e ∷ es) rest h eq = absurd (omega arith)
  attempts-exhausted (suc left) max attempt last [] rest h eq = absurd (omega arith)
  attempts-exhausted (suc left) max attempt last (e ∷ es) rest h eq =
      attempts-retried left max attempt last e (es ++ rest) h.0
      ∙ attempts-exhausted left max (suc attempt) e es rest h.1 (omega arith)

  -- Errors that are retried, fewer than the rounds, and then a success: `Do` returns nil, and has
  -- called its function once for each of them.
  do_retry_success :
      (es rest : List Error)
      → All IsRetried es
      → length es < rounds p
      → do_retry fl p (scripted random) (es ++ nil ∷ rest) ≡ (nil, rest)
  unfolding do_retry rounds
  do_retry_success es rest h lt = attempts-success _ _ 1 nil es rest h lt

  -- As many errors that are retried as there are rounds: `Do` returns the last of them inside a
  -- RetryableError with the number of rounds, and calls its function no more.
  do_retry_exhausted :
      (es rest : List Error)
      → All IsRetried es
      → length es ≡ rounds p
      → do_retry fl p (scripted random) (es ++ rest)
        ≡ (retryable_error (last_of nil es) (pos 0) (pos (rounds p)) (pos (rounds p)) (pos 0), rest)
  unfolding do_retry rounds
  do_retry_exhausted es rest h eq = attempts-exhausted _ _ 1 nil es rest h eq
