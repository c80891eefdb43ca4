-- ===== src/Examples/Rounds.antt =====
-- Two jobs in a pool of two workers, from Submit until a shutdown can return.
use rediver_sdk_go.Prelude.{ℕ, ◌≡◌, refl, true, false, [], ◌∷◌, pos, All}
use rediver_sdk_go.Errors.{nil, panic_error}
use rediver_sdk_go.Worker.{
  new_pool, at_least_one, step, is_enabled, check_running, add_to_wait_group, send_job, receive,
  acquire, start, return_from_shutdown, callback_panicked, execute_panicked, callback, callbacks,
  Outcome, on_completed, on_error,
}
use rediver_sdk_go.Worker.Jobs.{
  Tracked, submit, add_job, send, receive_job, acquire_slot, start_job, finish_job, release_slot,
  decrement_active, job_done, begin, close, new_tracked, take_at, moved, in_place, track, Tracks,
  fresh, further,
}
use rediver_sdk_go.Worker.Jobs.Steps.{total}
use rediver_sdk_go.Worker.Jobs.Order.{IsInOrder, Tracks-IsInOrder}
use rediver_sdk_go.Worker.Jobs.Once.{return_from_shutdown-once}

-- The second job is in Execute, the first has its slot.
abbrev under_way : Tracked ℕ
under_way = record {
  pool = step receive (
      step start (
        step acquire (
          step receive (
            step send_job (
              step send_job (
                step add_to_wait_group (
                  step add_to_wait_group
                    (step check_running (step check_running (new_pool (pos 2) (pos 4)))))))))));
  checked = [];
  sending = [];
  queue = [];
  held = 5 ∷ [];
  acquired = [];
  executing = 7 ∷ [];
  finished = [];
  released = [];
  ending = [];
  left = [];
  accepted = 7 ∷ 5 ∷ [];
  started = 7 ∷ [];
  called = [];
}

under_way-Tracks : Tracks (pos 2) (pos 4) under_way
unfolding new_pool at_least_one step is_enabled track take_at moved in_place callbacks callback
    new_tracked
under_way-Tracks =
    further
      (further
        (further
          (further
            (further
              (further
                (further
                  (further (further (further fresh refl (submit 5) refl) refl (submit 7) refl) refl
                    (add_job 0) refl)
                  refl (add_job 0) refl)
                refl (send 1) refl)
              refl (send 0) refl)
            refl receive_job refl)
          refl acquire_slot refl)
        refl start_job refl)
      refl receive_job refl

Tracks-IsInOrder_example : IsInOrder under_way
Tracks-IsInOrder_example = Tracks-IsInOrder under_way-Tracks

-- Both have left; one has panicked in Execute, the other in OnCompleted.
abbrev through : Tracked ℕ
through = record {
  pool = record (new_pool (pos 2) (pos 4)) { running = false; closing = true; closed = true };
  checked = [];
  sending = [];
  queue = [];
  held = [];
  acquired = [];
  executing = [];
  finished = [];
  released = [];
  ending = [];
  left = 7 ∷ 5 ∷ [];
  accepted = 7 ∷ 5 ∷ [];
  started = 7 ∷ 5 ∷ [];
  called =
      (5, on_error (panic_error "boom") ∷ [])
      ∷ (7, on_error (panic_error "late") ∷ on_completed ∷ [])
      ∷ [];
}

through-Tracks : Tracks (pos 2) (pos 4) through
unfolding new_pool at_least_one step is_enabled track take_at moved in_place callbacks callback
through-Tracks =
    further
      (further
        (further
          (further
            (further
              (further
                (further
                  (further
                    (further
                      (further
                        (further (further under_way-Tracks refl acquire_slot refl) refl start_job
                          refl)
                        refl begin refl)
                      refl close refl)
                    refl (finish_job 1 (callback_panicked nil "late")) refl)
                  refl (finish_job 0 (execute_panicked "boom")) refl)
                refl (release_slot 1) refl)
              refl (release_slot 0) refl)
            refl (decrement_active 1) refl)
          refl (decrement_active 0) refl)
        refl (job_done 0) refl)
      refl (job_done 0) refl

through_returns : is_enabled return_from_shutdown through.pool ≡ true
unfolding new_pool at_least_one is_enabled
through_returns = refl

return_from_shutdown-once_example :
    (through.started ≡ through.accepted)
    × ((f : ℕ → ℕ)
        → (total f through.left ≡ total f through.accepted)
          × (total (λ c. f c.0) through.called ≡ total f through.accepted))
    × All (λ c. (o : Outcome) × (c.1 ≡ callbacks o)) through.called
return_from_shutdown-once_example = return_from_shutdown-once through-Tracks through_returns
