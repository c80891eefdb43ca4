-- ===== src/Worker/Jobs/Once.antt =====
-- Each job that Submit has sent is executed, has its callback and leaves, once.
use rediver_sdk_go.Prelude.{ℕ, ◌+◌, ◌≡◌, sym, ap, ◌∙◌, true, some, append-nil, ℤ, All, arith}
use rediver_sdk_go.Worker.{return_from_shutdown, is_enabled, Outcome, callbacks}
use rediver_sdk_go.Worker.Drain.{return_from_shutdown-idle}
use rediver_sdk_go.Worker.Jobs.{
  Tracked, Motion, submit, add_job, send, receive_job, acquire_slot, start_job, finish_job,
  release_slot, decrement_active, job_done, panic_on_send, begin, begin_now, close, return, lose,
  new_tracked, track, Tracks, fresh, further,
}
use rediver_sdk_go.Worker.Jobs.Steps.{total, total-snoc, take_at-total, moved-elim, in_place-elim}
use rediver_sdk_go.Worker.Jobs.Order.{IsInOrder, Tracks-IsInOrder}
use rediver_sdk_go.Worker.Jobs.Counted.{
  IsIdle, IsCounted-IsIdle, Tracks-IsCounted, Tracks-Reachable,
}
use rediver_sdk_go.Worker.Jobs.Callbacks.{HasCallbacks, Tracks-HasCallbacks}

module _ {J : Type 0} where
  -- For a number of each job: its sum over the jobs that were started is that over those from Execute
  -- on, and its sum over the callbacks that over the jobs whose Execute has ended.
  IsBalanced : (J → ℕ) → Tracked J → Type 0
  IsBalanced f t =
      (total f t.started
        ≡ total f t.executing
          + total f t.finished
          + total f t.released
          + total f t.ending
          + total f t.left)
      × (total (λ c. f c.0) t.called
          ≡ total f t.finished + total f t.released + total f t.ending + total f t.left)

  track-IsBalanced :
      (f : J → ℕ) (m : Motion J) (t : Tracked J) {u : Tracked J}
      → IsBalanced f t
      → track m t ≡ some u
      → IsBalanced f u
  unfolding track IsBalanced total
  track-IsBalanced f (submit j) t b e = moved-elim (IsBalanced f) _ _ _ t e (λ j r o h. b)
  track-IsBalanced f (add_job i) t b e = moved-elim (IsBalanced f) _ _ _ t e (λ j r o h. b)
  track-IsBalanced f (send i) t b e = moved-elim (IsBalanced f) _ _ _ t e (λ j r o h. b)
  track-IsBalanced f receive_job t b e = moved-elim (IsBalanced f) _ _ _ t e (λ j r o h. b)
  track-IsBalanced f acquire_slot t b e = moved-elim (IsBalanced f) _ _ _ t e (λ j r o h. b)
  track-IsBalanced f start_job t b e =
      moved-elim (IsBalanced f) _ _ _ t e
        (λ j r o h. (omega (arith, b.0, total-snoc f t.started j), b.1))
  track-IsBalanced f (finish_job i x) t b e = moved-elim (IsBalanced f) _ _ _ t e (λ j r o h.
      let q = take_at-total f i t.executing o in (omega (arith, b.0, q), omega (arith, b.1, q)))
  track-IsBalanced f (release_slot i) t b e = moved-elim (IsBalanced f) _ _ _ t e (λ j r o h.
      let q = take_at-total f i t.finished o in (omega (arith, b.0, q), omega (arith, b.1, q)))
  track-IsBalanced f (decrement_active i) t b e = moved-elim (IsBalanced f) _ _ _ t e (λ j r o h.
      let q = take_at-total f i t.released o in (omega (arith, b.0, q), omega (arith, b.1, q)))
  track-IsBalanced f (job_done i) t b e = moved-elim (IsBalanced f) _ _ _ t e (λ j r o h.
      let q = take_at-total f i t.ending o in (omega (arith, b.0, q), omega (arith, b.1, q)))
  track-IsBalanced f panic_on_send t b e = in_place-elim (IsBalanced f) _ t e (λ h. b)
  track-IsBalanced f begin t b e = in_place-elim (IsBalanced f) _ t e (λ h. b)
  track-IsBalanced f begin_now t b e = in_place-elim (IsBalanced f) _ t e (λ h. b)
  track-IsBalanced f close t b e = in_place-elim (IsBalanced f) _ t e (λ h. b)
  track-IsBalanced f return t b e = in_place-elim (IsBalanced f) _ t e (λ h. b)
  track-IsBalanced f lose t b e = in_place-elim (IsBalanced f) _ t e (λ h. b)

  Tracks-IsBalanced :
      {size queue_size : ℤ} {t : Tracked J} (f : J → ℕ) → Tracks size queue_size t → IsBalanced f t
  unfolding IsBalanced new_tracked total
  Tracks-IsBalanced f fresh = (omega arith, omega arith)
  Tracks-IsBalanced f (further {t} r p m e) = track-IsBalanced f m t (Tracks-IsBalanced f r) e

  IsIdle-started : (t : Tracked J) → IsIdle t → IsInOrder t → t.started ≡ t.accepted
  unfolding IsIdle IsInOrder
  IsIdle-started t (q, h, a, _, _, _, _) o = sym (simp (o, q, h, a, append-nil))

  IsIdle-balance :
      (f : J → ℕ) (t : Tracked J)
      → IsIdle t
      → IsBalanced f t
      → (total f t.left ≡ total f t.started) × (total (λ c. f c.0) t.called ≡ total f t.started)
  unfolding IsIdle IsBalanced total
  IsIdle-balance f t (_, _, _, x, n, l, g) (b, c) =
      let x' : total f t.executing ≡ 0 = ap (total f) x in
      let n' : total f t.finished ≡ 0 = ap (total f) n in
      let l' : total f t.released ≡ 0 = ap (total f) l in
      let g' : total f t.ending ≡ 0 = ap (total f) g in (omega arith, omega arith)

  -- Where the wait of the shutdown that stopped the pool is over, the jobs that were started are
  -- those that Submit has sent, in this order, and with any number for each job, its sum over the
  -- jobs that Submit has sent is its sum over the jobs that have left and its sum over the entries of
  -- `called`: each job has been executed, has had its callbacks and has left, once. Its callbacks are
  -- those of one outcome: OnCompleted or OnError, and after one that panicked OnError.
  pub return_from_shutdown-once :
      {size queue_size : ℤ} {t : Tracked J}
      → Tracks size queue_size t
      → is_enabled return_from_shutdown t.pool ≡ true
      → (t.started ≡ t.accepted)
        × ((f : J → ℕ)
            → (total f t.left ≡ total f t.accepted)
              × (total (λ c. f c.0) t.called ≡ total f t.accepted))
        × All (λ c. (o : Outcome) × (c.1 ≡ callbacks o)) t.called
  unfolding HasCallbacks
  return_from_shutdown-once {t} r e =
      let (o, _, _) = return_from_shutdown-idle (Tracks-Reachable r) e in
      let i = IsCounted-IsIdle t (Tracks-IsCounted r) o in
      let s = IsIdle-started t i (Tracks-IsInOrder r) in
      (
        s,
        (λ f.
            let (l, c) = IsIdle-balance f t i (Tracks-IsBalanced f r) in
            (l ∙ ap (total f) s, c ∙ ap (total f) s)),
        Tracks-HasCallbacks r,
      )
