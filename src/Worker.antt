-- ===== src/Worker.antt =====
-- internal/worker/pool.go: the worker pool as a machine whose steps are those of its goroutines
-- between two synchronisations. Jobs are counted by where they are. SetSize is in
-- Worker/Resize.
pub mod Invariant
pub mod Drain
pub mod Refine
pub mod Resize
pub mod Jobs
use rediver_sdk_go.Prelude.{
  ℕ, zero, suc, ◌+◌, ◌-◌, ◌<◌, ◌≤◌, ◌≡◌, refl, Bool, true, false, not, ◌&&◌, ltb, ◌==◌, ℤ, pos,
  negsuc, String, List, [], ◌∷◌, if◌then◌else◌,
}
use rediver_sdk_go.Errors.{Error, Sentinel, nil, sentinel, panic_error, is_nil}

pub record Pool : Type 0 where
  -- `cap(p.sem)` and `cap(p.taskQueue)`
  pub size : ℕ
  pub capacity : ℕ
  -- Calls of Submit: those that have seen the pool running, and those that have done `wg.Add(1)`
  -- and send on the queue.
  pub checked : ℕ
  pub sending : ℕ
  -- Jobs in the queue; with the dispatcher, before and after it has its semaphore slot; in workers:
  -- in Execute, after it, after the slot was released, after `active` was decremented.
  pub queue : ℕ
  pub held : ℕ
  pub acquired : ℕ
  pub executing : ℕ
  pub finished : ℕ
  pub released : ℕ
  pub ending : ℕ
  -- `len(p.sem)`, the atomic `active`, the wait group's counter
  pub sem : ℕ
  pub active : ℕ
  pub wg : ℕ
  pub running : Bool
  -- A shutdown has won the swap of `running`; the queue is closed; the shutdown has returned.
  pub closing : Bool
  pub closed : Bool
  pub returned : Bool
  pub cancelled : Bool
  -- A send on the closed queue ends the process.
  pub panicked : Bool

-- A size that is not positive is 1.
unfoldable pub at_least_one : ℤ → ℕ
at_least_one (pos zero) = 1
at_least_one (pos (suc n)) = suc n
at_least_one (negsuc n) = 1

-- `NewPool`
unfoldable pub new_pool : (size queue_size : ℤ) → Pool
unfolding at_least_one
new_pool size queue_size = record {
  size = at_least_one size;
  capacity = at_least_one queue_size;
  checked = 0;
  sending = 0;
  queue = 0;
  held = 0;
  acquired = 0;
  executing = 0;
  finished = 0;
  released = 0;
  ending = 0;
  sem = 0;
  active = 0;
  wg = 0;
  running = true;
  closing = false;
  closed = false;
  returned = false;
  cancelled = false;
  panicked = false;
}

-- What Submit returns by its first tests.
unfoldable pub submit_error : (is_nil_job running : Bool) → Error
submit_error true running = sentinel Sentinel.nil_job
submit_error false true = nil
submit_error false false = sentinel Sentinel.pool_stopped

-- What a worker meets: Execute returns, or it returns and the callback that follows panics, or it
-- panics itself. An OnError that panics inside the recovery ends the process.
pub data Outcome : Type 0 where
  execute_returned : Error → Outcome
  callback_panicked : (err : Error) → (value : String) → Outcome
  execute_panicked : (value : String) → Outcome

pub data Callback : Type 0 where
  on_completed : Callback
  on_error : Error → Callback

unfoldable pub callback : Error → Callback
callback err = if is_nil err then on_completed else on_error err

-- The callbacks that a worker makes for a job, the last first: the recovery is around the callback
-- too.
unfoldable pub callbacks : Outcome → List Callback
unfolding callback
callbacks (execute_returned err) = callback err ∷ []
callbacks (callback_panicked err value) = on_error (panic_error value) ∷ callback err ∷ []
callbacks (execute_panicked value) = on_error (panic_error value) ∷ []

pub data Action : Type 0 where
  check_running add_to_wait_group send_job send_on_closed : Action
  receive acquire start : Action
  finish release decrement done : Action
  begin_shutdown begin_shutdown_now close_queue return_from_shutdown lose_shutdown : Action

-- Whether a step can be taken. A call of Shutdown or ShutdownNow that finds the pool stopped is
-- `lose_shutdown`: it returns at once, whatever jobs are in hand.
unfoldable pub is_enabled : Action → Pool → Bool
is_enabled check_running p = p.running
is_enabled add_to_wait_group p = ltb 0 p.checked
is_enabled send_job p = ltb 0 p.sending && not p.closed && ltb p.queue p.capacity
is_enabled send_on_closed p = ltb 0 p.sending && p.closed
is_enabled receive p = ltb 0 p.queue && ((p.held + p.acquired) == 0)
is_enabled acquire p = ltb 0 p.held && ltb p.sem p.size
is_enabled start p = ltb 0 p.acquired
is_enabled finish p = ltb 0 p.executing
is_enabled release p = ltb 0 p.finished
is_enabled decrement p = ltb 0 p.released
is_enabled done p = ltb 0 p.ending
is_enabled begin_shutdown p = p.running
is_enabled begin_shutdown_now p = p.running
is_enabled close_queue p = p.closing && not p.closed
is_enabled return_from_shutdown p = p.closed && (p.wg == 0)
is_enabled lose_shutdown p = not p.running

unfoldable pub step : Action → Pool → Pool
step check_running p = record p { checked = p.checked + 1 }
step add_to_wait_group p = record p {
  checked = p.checked - 1;
  sending = p.sending + 1;
  wg = p.wg + 1;
}
step send_job p = record p { sending = p.sending - 1; queue = p.queue + 1 }
step send_on_closed p = record p { panicked = true }
step receive p = record p { queue = p.queue - 1; held = p.held + 1 }
step acquire p = record p { held = p.held - 1; acquired = p.acquired + 1; sem = p.sem + 1 }
step start p = record p {
  acquired = p.acquired - 1;
  executing = p.executing + 1;
  active = p.active + 1;
}
step finish p = record p { executing = p.executing - 1; finished = p.finished + 1 }
step release p = record p { finished = p.finished - 1; released = p.released + 1; sem = p.sem - 1 }
step decrement p = record p {
  released = p.released - 1;
  ending = p.ending + 1;
  active = p.active - 1;
}
step done p = record p { ending = p.ending - 1; wg = p.wg - 1 }
step begin_shutdown p = record p { running = false; closing = true }
step begin_shutdown_now p = record p { running = false; closing = true; cancelled = true }
step close_queue p = record p { closed = true }
step return_from_shutdown p = record p { returned = true; cancelled = true }
step lose_shutdown p = p

-- The states that a new pool can come to.
pub data Reachable (size queue_size : ℤ) : Pool → Type 0 where
  initial : Reachable size queue_size (new_pool size queue_size)
  next :
      {p : Pool}
      → Reachable size queue_size p
      → (action : Action) → is_enabled action p ≡ true
      → p.panicked ≡ false
      → Reachable size queue_size (step action p)
