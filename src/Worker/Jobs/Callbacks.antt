-- ===== src/Worker/Jobs/Callbacks.antt =====
-- The callbacks that the workers make for a job.
use rediver_sdk_go.Prelude.{◌≡◌, refl, some, ℤ, All}
use rediver_sdk_go.Worker.{Outcome, callbacks}
use rediver_sdk_go.Worker.Jobs.{
  Tracked, Motion, submit, add_job, send, receive_job, acquire_slot, start_job, finish_job,
  release_slot, decrement_active, job_done, panic_on_send, begin, begin_now, close, return, lose,
  new_tracked, track, Tracks, fresh, further,
}
use rediver_sdk_go.Worker.Jobs.Steps.{moved-elim, in_place-elim}

module _ {J : Type 0} where
  -- Every entry has the callbacks of one outcome.
  unfoldable pub HasCallbacks : Tracked J → Type 0
  HasCallbacks t = All (λ c. (o : Outcome) × (c.1 ≡ callbacks o)) t.called

  track-HasCallbacks :
      (m : Motion J) (t : Tracked J) {u : Tracked J}
      → HasCallbacks t
      → track m t ≡ some u
      → HasCallbacks u
  unfolding track HasCallbacks
  track-HasCallbacks (submit j) t c e = moved-elim HasCallbacks _ _ _ t e (λ j r o h. c)
  track-HasCallbacks (add_job i) t c e = moved-elim HasCallbacks _ _ _ t e (λ j r o h. c)
  track-HasCallbacks (send i) t c e = moved-elim HasCallbacks _ _ _ t e (λ j r o h. c)
  track-HasCallbacks receive_job t c e = moved-elim HasCallbacks _ _ _ t e (λ j r o h. c)
  track-HasCallbacks acquire_slot t c e = moved-elim HasCallbacks _ _ _ t e (λ j r o h. c)
  track-HasCallbacks start_job t c e = moved-elim HasCallbacks _ _ _ t e (λ j r o h. c)
  track-HasCallbacks (finish_job i x) t c e =
      moved-elim HasCallbacks _ _ _ t e (λ j r o h. ((x, refl), c))
  track-HasCallbacks (release_slot i) t c e = moved-elim HasCallbacks _ _ _ t e (λ j r o h. c)
  track-HasCallbacks (decrement_active i) t c e = moved-elim HasCallbacks _ _ _ t e (λ j r o h. c)
  track-HasCallbacks (job_done i) t c e = moved-elim HasCallbacks _ _ _ t e (λ j r o h. c)
  track-HasCallbacks panic_on_send t c e = in_place-elim HasCallbacks _ t e (λ h. c)
  track-HasCallbacks begin t c e = in_place-elim HasCallbacks _ t e (λ h. c)
  track-HasCallbacks begin_now t c e = in_place-elim HasCallbacks _ t e (λ h. c)
  track-HasCallbacks close t c e = in_place-elim HasCallbacks _ t e (λ h. c)
  track-HasCallbacks return t c e = in_place-elim HasCallbacks _ t e (λ h. c)
  track-HasCallbacks lose t c e = in_place-elim HasCallbacks _ t e (λ h. c)

  pub Tracks-HasCallbacks :
      {size queue_size : ℤ} {t : Tracked J} → Tracks size queue_size t → HasCallbacks t
  unfolding HasCallbacks new_tracked
  Tracks-HasCallbacks fresh = tt
  Tracks-HasCallbacks (further {t} r p m e) = track-HasCallbacks m t (Tracks-HasCallbacks r) e
