-- ===== src/Worker/Jobs/Order.antt =====
-- The order in which the jobs that Submit has sent are started.
use rediver_sdk_go.Prelude.{◌≡◌, refl, sym, ap, ◌∙◌, some, List, [], ◌∷◌, ◌++◌, append_assoc, ℤ}
use rediver_sdk_go.Worker.Jobs.{
  Tracked, Motion, submit, add_job, send, receive_job, acquire_slot, start_job, finish_job,
  release_slot, decrement_active, job_done, panic_on_send, begin, begin_now, close, return, lose,
  new_tracked, track, Tracks, fresh, further,
}
use rediver_sdk_go.Worker.Jobs.Steps.{take_at-first, moved-elim, in_place-elim}

move_one :
    {A : Type 0} (xs ys : List A) (x : A) (zs : List A)
    → (xs ++ ys) ++ (x ∷ zs) ≡ (xs ++ (ys ++ x ∷ [])) ++ zs
move_one xs ys x zs = simp append_assoc

module _ {J : Type 0} where
  -- The jobs in the queue and with the dispatcher are those that were accepted and have not started,
  -- in the order in which they were accepted.
  unfoldable pub IsInOrder : Tracked J → Type 0
  IsInOrder t = t.accepted ≡ t.started ++ t.acquired ++ t.held ++ t.queue

  track-IsInOrder :
      (m : Motion J) (t : Tracked J) {u : Tracked J}
      → IsInOrder t
      → track m t ≡ some u
      → IsInOrder u
  unfolding track IsInOrder
  track-IsInOrder (submit j) t b e = moved-elim IsInOrder _ _ _ t e (λ j r o h. b)
  track-IsInOrder (add_job i) t b e = moved-elim IsInOrder _ _ _ t e (λ j r o h. b)
  track-IsInOrder (send i) t b e =
      moved-elim IsInOrder _ _ _ t e
        (λ j r o h. ap (λ js. js ++ j ∷ []) b ∙ append_assoc _ t.queue (j ∷ []))
  track-IsInOrder receive_job t b e = moved-elim IsInOrder _ _ _ t e (λ j r o h.
      b
      ∙ ap (λ js. (t.started ++ t.acquired ++ t.held) ++ js) (take_at-first _ o)
      ∙ move_one _ t.held j r)
  track-IsInOrder acquire_slot t b e = moved-elim IsInOrder _ _ _ t e (λ j r o h.
      b
      ∙ ap (λ js. ((t.started ++ t.acquired) ++ js) ++ t.queue) (take_at-first _ o)
      ∙ ap (λ js. js ++ t.queue) (move_one t.started t.acquired j r))
  track-IsInOrder start_job t b e = moved-elim IsInOrder _ _ _ t e (λ j r o h.
      b
      ∙ ap (λ js. ((t.started ++ js) ++ t.held) ++ t.queue) (take_at-first _ o)
      ∙ ap (λ js. (js ++ t.held) ++ t.queue) (sym (append_assoc t.started (j ∷ []) r)))
  track-IsInOrder (finish_job i x) t b e = moved-elim IsInOrder _ _ _ t e (λ j r o h. b)
  track-IsInOrder (release_slot i) t b e = moved-elim IsInOrder _ _ _ t e (λ j r o h. b)
  track-IsInOrder (decrement_active i) t b e = moved-elim IsInOrder _ _ _ t e (λ j r o h. b)
  track-IsInOrder (job_done i) t b e = moved-elim IsInOrder _ _ _ t e (λ j r o h. b)
  track-IsInOrder panic_on_send t b e = in_place-elim IsInOrder _ t e (λ h. b)
  track-IsInOrder begin t b e = in_place-elim IsInOrder _ t e (λ h. b)
  track-IsInOrder begin_now t b e = in_place-elim IsInOrder _ t e (λ h. b)
  track-IsInOrder close t b e = in_place-elim IsInOrder _ t e (λ h. b)
  track-IsInOrder return t b e = in_place-elim IsInOrder _ t e (λ h. b)
  track-IsInOrder lose t b e = in_place-elim IsInOrder _ t e (λ h. b)

  -- The jobs that were started, those that the dispatcher has and those in the queue are, in this
  -- order, the jobs that Submit has sent, in the order in which it sent them.
  pub Tracks-IsInOrder :
      {size queue_size : ℤ} {t : Tracked J} → Tracks size queue_size t → IsInOrder t
  unfolding IsInOrder new_tracked
  Tracks-IsInOrder fresh = refl
  Tracks-IsInOrder (further {t} r p m e) = track-IsInOrder m t (Tracks-IsInOrder r) e
