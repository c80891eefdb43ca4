-- ===== src/Examples/Pool.antt =====
-- A pool of two workers with one submitted job, and one of a single worker before SetSize.
use rediver_sdk_go.Prelude.{some, leb_ℤ, ◌+◌, ◌≡◌, ◌<◌, refl, false, pos, arith}
use rediver_sdk_go.Worker.{
  Pool, new_pool, at_least_one, check_running, add_to_wait_group, send_job, return_from_shutdown,
  receive, acquire, start, step, is_enabled, Reachable, initial, next,
}
use rediver_sdk_go.Worker.Invariant.{IsConsistent, Reachable-IsConsistent}
use rediver_sdk_go.Worker.Refine.{board, played, Reachable-played}
use rediver_sdk_go.Worker.Resize.{Resizable, set_size, can_step, Continues, set_size-no_return}
use rediver_sdk_go.Worker.Drain.{Runs, weight, Reachable-drains}

abbrev one_job : Pool
one_job = step send_job (step add_to_wait_group (step check_running (new_pool (pos 2) (pos 4))))

one_job-Reachable : Reachable (pos 2) (pos 4) one_job
unfolding new_pool at_least_one step is_enabled
one_job-Reachable =
    next (next (next initial check_running refl refl) add_to_wait_group refl refl) send_job refl
      refl

nothing_sending : one_job.sending ≡ 0
unfolding new_pool step
nothing_sending = refl

Reachable-IsConsistent_example : IsConsistent one_job
Reachable-IsConsistent_example = Reachable-IsConsistent one_job-Reachable

Reachable-drains_example : (q : Pool) × Runs (weight one_job) one_job q × (q.wg ≡ 0)
Reachable-drains_example = Reachable-drains one_job-Reachable nothing_sending

Reachable-played_example : played (at_least_one (pos 2)) one_job-Reachable ≡ some (board one_job)
Reachable-played_example = Reachable-played one_job-Reachable

-- A pool of one worker that is executing a job, before SetSize(2).
abbrev one_busy : Resizable
one_busy = record {
  pool = step start (
      step acquire (
        step receive (
          step send_job (step add_to_wait_group (step check_running (new_pool (pos 1) (pos 4)))))));
  pool_size = pos 1;
}

one_busy_grows : leb_ℤ (pos (at_least_one (pos 2))) one_busy.pool_size ≡ false
unfolding at_least_one
one_busy_grows = refl

one_busy_executes : 0 < one_busy.pool.executing + one_busy.pool.finished
unfolding new_pool step
one_busy_executes = omega arith

one_busy_checked : one_busy.pool.checked ≡ 0
unfolding new_pool step
one_busy_checked = refl

one_busy_coming :
    one_busy.pool.sending + one_busy.pool.queue + one_busy.pool.held + one_busy.pool.acquired ≡ 0
unfolding new_pool step
one_busy_coming = refl

one_busy_counted :
    one_busy.pool.executing + one_busy.pool.finished + one_busy.pool.released + one_busy.pool.ending
    ≡ one_busy.pool.wg
unfolding new_pool step
one_busy_counted = refl

set_size-no_return_example : can_step return_from_shutdown (set_size (pos 2) one_busy) ≡ false
set_size-no_return_example =
    set_size-no_return (pos 2) one_busy (set_size (pos 2) one_busy) one_busy_grows one_busy_executes
      one_busy_checked one_busy_coming one_busy_counted Continues.here
