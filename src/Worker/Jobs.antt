-- ===== src/Worker/Jobs.antt =====
-- The pool of internal/worker/pool.go with the jobs themselves: a job moves from list to list as the
-- steps of Worker count it. A step that takes one of several jobs has its index.
pub mod Steps
pub mod Order
pub mod Counted
pub mod Callbacks
pub mod Once
use rediver_sdk_go.Prelude.{
  ℕ, zero, suc, Bool, true, false, Option, none, some, List, [], ◌∷◌, ◌++◌, ℤ, if◌then◌else◌, ◌≡◌,
}
use rediver_sdk_go.Worker.{
  Pool, new_pool, Action, check_running, add_to_wait_group, send_job, send_on_closed, receive,
  acquire, start, finish, release, decrement, done, begin_shutdown, begin_shutdown_now, close_queue,
  return_from_shutdown, lose_shutdown, is_enabled, step, Outcome, Callback, callbacks,
}

-- `accepted` and `started` are the jobs that Submit has sent and those that the dispatcher has begun,
-- in this order; `left` are those whose worker has ended, and `called` has, for each job
-- whose worker is through with it, the callbacks that were made, the last first.
pub record Tracked (J : Type 0) : Type 0 where
  pub pool : Pool
  pub checked : List J
  pub sending : List J
  pub queue : List J
  pub held : List J
  pub acquired : List J
  pub executing : List J
  pub finished : List J
  pub released : List J
  pub ending : List J
  pub left : List J
  pub accepted : List J
  pub started : List J
  pub called : List (J × List Callback)

pub data Motion (J : Type 0) : Type 0 where
  submit : J → Motion J
  add_job : ℕ → Motion J
  send : ℕ → Motion J
  receive_job acquire_slot start_job : Motion J
  finish_job : ℕ → Outcome → Motion J
  release_slot : ℕ → Motion J
  decrement_active : ℕ → Motion J
  job_done : ℕ → Motion J
  panic_on_send begin begin_now close return lose : Motion J

module _ {J : Type 0} where
  unfoldable pub new_tracked : (size queue_size : ℤ) → Tracked J
  unfolding new_pool
  new_tracked size queue_size = record {
    pool = new_pool size queue_size;
    checked = [];
    sending = [];
    queue = [];
    held = [];
    acquired = [];
    executing = [];
    finished = [];
    released = [];
    ending = [];
    left = [];
    accepted = [];
    started = [];
    called = [];
  }

  -- The element at an index, and the others.
  unfoldable pub take_at : ℕ → List J → Option (J × List J)
  take_at i [] = none
  take_at zero (x ∷ xs) = some (x, xs)
  take_at (suc i) (x ∷ xs) = elim (take_at i xs) [
    | none ↦ none
    | some (y, rest) ↦ some (y, x ∷ rest)
  ]

  -- A step of the pool that moves a job.
  unfoldable pub moved :
      Action → Option (J × List J) → (J → List J → Tracked J) → Tracked J → Option (Tracked J)
  moved a none next t = none
  moved a (some (j, rest)) next t = if is_enabled a t.pool then some (next j rest) else none

  unfoldable pub in_place : Action → Tracked J → Option (Tracked J)
  in_place a t = if is_enabled a t.pool then some (record t { pool = step a t.pool }) else none

  -- One step; `none` where it cannot be taken.
  unfoldable pub track : Motion J → Tracked J → Option (Tracked J)
  track (submit j) t =
      moved check_running (some (j, t.checked))
        (λ j rest. record t { pool = step check_running t.pool; checked = j ∷ rest }) t
  track (add_job i) t =
      moved add_to_wait_group (take_at i t.checked)
        (λ j rest. record t {
          pool = step add_to_wait_group t.pool;
          checked = rest;
          sending = j ∷ t.sending;
        })
        t
  track (send i) t =
      moved send_job (take_at i t.sending)
        (λ j rest. record t {
          pool = step send_job t.pool;
          sending = rest;
          queue = t.queue ++ j ∷ [];
          accepted = t.accepted ++ j ∷ [];
        })
        t
  track receive_job t =
      moved receive (take_at 0 t.queue)
        (λ j rest. record t { pool = step receive t.pool; queue = rest; held = t.held ++ j ∷ [] }) t
  track acquire_slot t =
      moved acquire (take_at 0 t.held)
        (λ j rest. record t {
          pool = step acquire t.pool;
          held = rest;
          acquired = t.acquired ++ j ∷ [];
        })
        t
  track start_job t =
      moved start (take_at 0 t.acquired)
        (λ j rest. record t {
          pool = step start t.pool;
          acquired = rest;
          executing = j ∷ t.executing;
          started = t.started ++ j ∷ [];
        })
        t
  track (finish_job i o) t =
      moved finish (take_at i t.executing)
        (λ j rest. record t {
          pool = step finish t.pool;
          executing = rest;
          finished = j ∷ t.finished;
          called = (j, callbacks o) ∷ t.called;
        })
        t
  track (release_slot i) t =
      moved release (take_at i t.finished)
        (λ j rest. record t {
          pool = step release t.pool;
          finished = rest;
          released = j ∷ t.released;
        })
        t
  track (decrement_active i) t =
      moved decrement (take_at i t.released)
        (λ j rest. record t {
          pool = step decrement t.pool;
          released = rest;
          ending = j ∷ t.ending;
        })
        t
  track (job_done i) t =
      moved done (take_at i t.ending)
        (λ j rest. record t { pool = step done t.pool; ending = rest; left = j ∷ t.left }) t
  track panic_on_send t = in_place send_on_closed t
  track begin t = in_place begin_shutdown t
  track begin_now t = in_place begin_shutdown_now t
  track close t = in_place close_queue t
  track return t = in_place return_from_shutdown t
  track lose t = in_place lose_shutdown t

  -- What a new pool can come to.
  pub data Tracks (size queue_size : ℤ) : Tracked J → Type 0 where
    fresh : Tracks size queue_size (new_tracked size queue_size)
    further :
        {t u : Tracked J}
        → Tracks size queue_size t
        → t.pool.panicked ≡ false
        → (m : Motion J) → track m t ≡ some u
        → Tracks size queue_size u
