-- ===== src/Worker/Jobs/Counted.antt =====
-- The pool counts the jobs that its lists hold, and has none where it is idle.
use rediver_sdk_go.Prelude.{ℕ, ◌+◌, ◌-◌, ◌≡◌, refl, false, some, List, [], ◌∷◌, ◌++◌, ℤ, arith}
use rediver_sdk_go.Worker.{new_pool, step, Reachable, initial, next}
use rediver_sdk_go.Worker.Invariant.{outstanding}
use rediver_sdk_go.Worker.Jobs.{
  Tracked, Motion, submit, add_job, send, receive_job, acquire_slot, start_job, finish_job,
  release_slot, decrement_active, job_done, panic_on_send, begin, begin_now, close, return, lose,
  new_tracked, take_at, track, Tracks, fresh, further,
}
use rediver_sdk_go.Worker.Jobs.Steps.{
  total, total-snoc, none-empty, take_at-total, moved-elim, in_place-elim,
}

module _ {J : Type 0} where
  size_of : List J → ℕ
  size_of xs = total (λ _. 1) xs

  -- The pool counts the jobs.
  pub IsCounted : Tracked J → Type 0
  IsCounted t =
      (size_of t.queue ≡ t.pool.queue)
      × (size_of t.held ≡ t.pool.held)
      × (size_of t.acquired ≡ t.pool.acquired)
      × (size_of t.executing ≡ t.pool.executing)
      × (size_of t.finished ≡ t.pool.finished)
      × (size_of t.released ≡ t.pool.released)
      × (size_of t.ending ≡ t.pool.ending)

  -- A step that takes a job from one list to the next, and the pool's numbers.
  size_of-taken :
      (i : ℕ) (xs : List J) {j : J} {rest : List J} {n : ℕ}
      → take_at i xs ≡ some (j, rest)
      → size_of xs ≡ n
      → size_of rest ≡ n - 1
  unfolding size_of
  size_of-taken i xs o c = omega (arith, take_at-total (λ _. 1) i xs o)

  size_of-snoc : (xs : List J) (j : J) {n : ℕ} → size_of xs ≡ n → size_of (xs ++ j ∷ []) ≡ n + 1
  unfolding size_of
  size_of-snoc xs j c = omega (arith, total-snoc (λ _. 1) xs j)

  size_of-cons : (xs : List J) (j : J) {n : ℕ} → size_of xs ≡ n → size_of (j ∷ xs) ≡ n + 1
  unfolding size_of total
  size_of-cons xs j c = omega (arith, c)

  track-IsCounted :
      (m : Motion J) (t : Tracked J) {u : Tracked J}
      → IsCounted t
      → track m t ≡ some u
      → IsCounted u
  unfolding track IsCounted step
  track-IsCounted (submit j) t (q, h, a, x, f, l, g) e =
      moved-elim IsCounted _ _ _ t e (λ j r o _. (q, h, a, x, f, l, g))
  track-IsCounted (add_job i) t (q, h, a, x, f, l, g) e =
      moved-elim IsCounted _ _ _ t e (λ j r o _. (q, h, a, x, f, l, g))
  track-IsCounted (send i) t (q, h, a, x, f, l, g) e =
      moved-elim IsCounted _ _ _ t e (λ j r o _. (size_of-snoc t.queue j q, h, a, x, f, l, g))
  track-IsCounted receive_job t (q, h, a, x, f, l, g) e =
      moved-elim IsCounted _ _ _ t e
        (λ j r o _. (size_of-taken 0 t.queue o q, size_of-snoc t.held j h, a, x, f, l, g))
  track-IsCounted acquire_slot t (q, h, a, x, f, l, g) e =
      moved-elim IsCounted _ _ _ t e
        (λ j r o _. (q, size_of-taken 0 t.held o h, size_of-snoc t.acquired j a, x, f, l, g))
  track-IsCounted start_job t (q, h, a, x, f, l, g) e =
      moved-elim IsCounted _ _ _ t e
        (λ j r o _. (q, h, size_of-taken 0 t.acquired o a, size_of-cons t.executing j x, f, l, g))
  track-IsCounted (finish_job i y) t (q, h, a, x, f, l, g) e =
      moved-elim IsCounted _ _ _ t e
        (λ j r o _. (q, h, a, size_of-taken i t.executing o x, size_of-cons t.finished j f, l, g))
  track-IsCounted (release_slot i) t (q, h, a, x, f, l, g) e =
      moved-elim IsCounted _ _ _ t e
        (λ j r o _. (q, h, a, x, size_of-taken i t.finished o f, size_of-cons t.released j l, g))
  track-IsCounted (decrement_active i) t (q, h, a, x, f, l, g) e =
      moved-elim IsCounted _ _ _ t e
        (λ j r o _. (q, h, a, x, f, size_of-taken i t.released o l, size_of-cons t.ending j g))
  track-IsCounted (job_done i) t (q, h, a, x, f, l, g) e =
      moved-elim IsCounted _ _ _ t e (λ j r o _. (q, h, a, x, f, l, size_of-taken i t.ending o g))
  track-IsCounted panic_on_send t c e = in_place-elim IsCounted _ t e (λ h. c)
  track-IsCounted begin t c e = in_place-elim IsCounted _ t e (λ h. c)
  track-IsCounted begin_now t c e = in_place-elim IsCounted _ t e (λ h. c)
  track-IsCounted close t c e = in_place-elim IsCounted _ t e (λ h. c)
  track-IsCounted return t c e = in_place-elim IsCounted _ t e (λ h. c)
  track-IsCounted lose t c e = in_place-elim IsCounted _ t e (λ h. c)

  track-Reachable :
      {size queue_size : ℤ} (m : Motion J) (t : Tracked J) {u : Tracked J}
      → Reachable size queue_size t.pool
      → t.pool.panicked ≡ false
      → track m t ≡ some u
      → Reachable size queue_size u.pool
  unfolding track
  track-Reachable {size} {queue_size} (submit j) t r p e =
      moved-elim (λ v. Reachable size queue_size v.pool) _ _ _ t e (λ j _ o h. next r _ h p)
  track-Reachable {size} {queue_size} (add_job i) t r p e =
      moved-elim (λ v. Reachable size queue_size v.pool) _ _ _ t e (λ j _ o h. next r _ h p)
  track-Reachable {size} {queue_size} (send i) t r p e =
      moved-elim (λ v. Reachable size queue_size v.pool) _ _ _ t e (λ j _ o h. next r _ h p)
  track-Reachable {size} {queue_size} receive_job t r p e =
      moved-elim (λ v. Reachable size queue_size v.pool) _ _ _ t e (λ j _ o h. next r _ h p)
  track-Reachable {size} {queue_size} acquire_slot t r p e =
      moved-elim (λ v. Reachable size queue_size v.pool) _ _ _ t e (λ j _ o h. next r _ h p)
  track-Reachable {size} {queue_size} start_job t r p e =
      moved-elim (λ v. Reachable size queue_size v.pool) _ _ _ t e (λ j _ o h. next r _ h p)
  track-Reachable {size} {queue_size} (finish_job i y) t r p e =
      moved-elim (λ v. Reachable size queue_size v.pool) _ _ _ t e (λ j _ o h. next r _ h p)
  track-Reachable {size} {queue_size} (release_slot i) t r p e =
      moved-elim (λ v. Reachable size queue_size v.pool) _ _ _ t e (λ j _ o h. next r _ h p)
  track-Reachable {size} {queue_size} (decrement_active i) t r p e =
      moved-elim (λ v. Reachable size queue_size v.pool) _ _ _ t e (λ j _ o h. next r _ h p)
  track-Reachable {size} {queue_size} (job_done i) t r p e =
      moved-elim (λ v. Reachable size queue_size v.pool) _ _ _ t e (λ j _ o h. next r _ h p)
  track-Reachable {size} {queue_size} panic_on_send t r p e =
      in_place-elim (λ v. Reachable size queue_size v.pool) _ t e (λ h. next r _ h p)
  track-Reachable {size} {queue_size} begin t r p e =
      in_place-elim (λ v. Reachable size queue_size v.pool) _ t e (λ h. next r _ h p)
  track-Reachable {size} {queue_size} begin_now t r p e =
      in_place-elim (λ v. Reachable size queue_size v.pool) _ t e (λ h. next r _ h p)
  track-Reachable {size} {queue_size} close t r p e =
      in_place-elim (λ v. Reachable size queue_size v.pool) _ t e (λ h. next r _ h p)
  track-Reachable {size} {queue_size} return t r p e =
      in_place-elim (λ v. Reachable size queue_size v.pool) _ t e (λ h. next r _ h p)
  track-Reachable {size} {queue_size} lose t r p e =
      in_place-elim (λ v. Reachable size queue_size v.pool) _ t e (λ h. next r _ h p)

  pub Tracks-IsCounted :
      {size queue_size : ℤ} {t : Tracked J} → Tracks size queue_size t → IsCounted t
  unfolding IsCounted new_tracked new_pool size_of total
  Tracks-IsCounted fresh = (refl, refl, refl, refl, refl, refl, refl)
  Tracks-IsCounted (further {t} r p m e) = track-IsCounted m t (Tracks-IsCounted r) e

  -- The pool of a state that jobs can come to is one that a new pool can come to.
  pub Tracks-Reachable :
      {size queue_size : ℤ} {t : Tracked J}
      → Tracks size queue_size t
      → Reachable size queue_size t.pool
  unfolding new_tracked
  Tracks-Reachable fresh = initial
  Tracks-Reachable (further {t} r p m e) = track-Reachable m t (Tracks-Reachable r) p e

  -- No job is on its way.
  unfoldable pub IsIdle : Tracked J → Type 0
  IsIdle t =
      (t.queue ≡ [])
      × (t.held ≡ [])
      × (t.acquired ≡ [])
      × (t.executing ≡ [])
      × (t.finished ≡ [])
      × (t.released ≡ [])
      × (t.ending ≡ [])

  pub IsCounted-IsIdle : (t : Tracked J) → IsCounted t → outstanding t.pool ≡ 0 → IsIdle t
  unfolding IsCounted IsIdle size_of
  IsCounted-IsIdle t (q, h, a, x, f, l, g) o = (
    none-empty _ (omega (arith, q, o)),
    none-empty _ (omega (arith, h, o)),
    none-empty _ (omega (arith, a, o)),
    none-empty _ (omega (arith, x, o)),
    none-empty _ (omega (arith, f, o)),
    none-empty _ (omega (arith, l, o)),
    none-empty _ (omega (arith, g, o)),
  )
