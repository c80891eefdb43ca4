-- ===== src/Examples/Lives.antt =====
-- A run of an agent without jobs to its return, and one whose context ends with a job in its queue.
use rediver_sdk_go.Prelude.{◌≡◌, refl, true, false, pos}
use rediver_sdk_go.Worker.{
  check_running, add_to_wait_group, send_job, close_queue, return_from_shutdown, new_pool,
  at_least_one, step, is_enabled,
}
use rediver_sdk_go.Agent.Run.{
  Lifecycle, start_run, in_pool, end_context, leave_serving, call_shutdown, close_done, on_done,
  can_move, move, Runs, started, further, serving, returned,
}
use rediver_sdk_go.Agent.Run.Drain.{in_hand, Runs-in_hand}
use rediver_sdk_go.Agent.Run.Return.{Leads, Runs-returns}

abbrev fresh : Lifecycle
fresh = start_run (pos 2) (pos 4)

abbrev shut_down : Lifecycle
shut_down =
    move (in_pool return_from_shutdown) (
      move (in_pool close_queue) (move call_shutdown (move leave_serving (move end_context fresh))))

abbrev back : Lifecycle
back = move on_done (move close_done shut_down)

back-Runs : Runs (pos 0) (pos 2) (pos 4) back
unfolding start_run new_pool at_least_one step is_enabled can_move move
back-Runs =
    further
      (further
        (further
          (further
            (further (further (further started end_context refl refl) leave_serving refl refl)
              call_shutdown refl refl)
            (in_pool close_queue) refl refl)
          (in_pool return_from_shutdown) refl refl)
        close_done refl refl)
      on_done refl refl

back_cancelled : back.drain_cancelled ≡ true
unfolding move
back_cancelled = refl

back_going : back.stopped ≡ false
unfolding start_run move
back_going = refl

Runs-in_hand_example : in_hand back.pool ≡ 0
Runs-in_hand_example = Runs-in_hand refl back-Runs back_going back_cancelled

-- A job was submitted before the context ended.
abbrev one_queued : Lifecycle
one_queued = move end_context (
    move (in_pool send_job) (move (in_pool add_to_wait_group) (move (in_pool check_running) fresh)))

one_queued-Runs : Runs (pos 0) (pos 2) (pos 4) one_queued
unfolding start_run new_pool at_least_one step is_enabled can_move move
one_queued-Runs =
    further
      (further
        (further (further started (in_pool check_running) refl refl) (in_pool add_to_wait_group)
          refl refl)
        (in_pool send_job) refl refl)
      end_context refl refl

one_queued_serving :
    (one_queued.phase ≡ serving)
    × (one_queued.context_ended ≡ true)
    × (one_queued.pool.sending ≡ 0)
    × (one_queued.pool.panicked ≡ false)
unfolding start_run new_pool step move
one_queued_serving = (refl, refl, refl, refl)

Runs-returns_example :
    (s : Lifecycle) × Leads (pos 0) one_queued s × (s.phase ≡ returned) × (in_hand s.pool ≡ 0)
Runs-returns_example =
    Runs-returns one_queued-Runs one_queued_serving.0 one_queued_serving.1 one_queued_serving.2
      one_queued_serving.3
