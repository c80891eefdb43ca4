-- ===== src/Agent/Run.antt =====
-- agent_run.go: the end of a worker agent's run, beside the steps of its pool. The poll loop's
-- submits are steps of the pool. `drain_cancelled` is the end of drainCtx, the context of the jobs
-- and of the heartbeats, which a caller may also cancel at any time by Stop of agent.go.
pub mod Drain
pub mod Return
use rediver_sdk_go.Prelude.{Bool, true, false, ◌&&◌, not, ℤ, pos, ltb_ℤ, ◌≡◌, refl, if◌then◌else◌}
use rediver_sdk_go.Worker.{
  Pool, new_pool, Action, begin_shutdown, begin_shutdown_now, is_enabled, step,
}

-- Where `run` is: before the end of its context, in its select, in ShutdownNow, or back.
pub data Phase : Type 0 where
  serving draining forcing returned : Phase

pub record Lifecycle : Type 0 where
  pub pool : Pool
  pub phase : Phase
  pub context_ended : Bool
  -- The goroutine of `run`: Shutdown has tried its swap of the pool's `running`, and `done` is
  -- closed.
  pub shutdown_called : Bool
  pub done_closed : Bool
  pub drain_cancelled : Bool
  pub stopped : Bool  -- Stop was called

unfoldable pub start_run : (size queue_size : ℤ) → Lifecycle
unfolding new_pool
start_run size queue_size = record {
  pool = new_pool size queue_size;
  phase = serving;
  context_ended = false;
  shutdown_called = false;
  done_closed = false;
  drain_cancelled = false;
  stopped = false;
}

pub data Move : Type 0 where
  in_pool : Action → Move
  end_context leave_serving : Move
  call_shutdown close_done : Move
  on_done on_timeout return_forced : Move
  stop : Move

abbrev pub is_serving : Phase → Bool
is_serving serving = true
is_serving _ = false

abbrev pub is_draining : Phase → Bool
is_draining draining = true
is_draining _ = false

abbrev pub is_forcing : Phase → Bool
is_forcing forcing = true
is_forcing _ = false

-- The steps of the pool that are not the swap of a shutdown.
abbrev pub is_own : Action → Bool
is_own begin_shutdown = false
is_own begin_shutdown_now = false
is_own _ = true

-- Whether a move can be made, with the configured shutdown timeout.
unfoldable pub can_move : (shutdown_timeout : ℤ) → Move → Lifecycle → Bool
can_move timeout (in_pool a) r = is_own a && is_enabled a r.pool
can_move timeout end_context r = true
can_move timeout leave_serving r = is_serving r.phase && r.context_ended
can_move timeout call_shutdown r = not (is_serving r.phase) && not r.shutdown_called
can_move timeout close_done r = r.shutdown_called && not r.done_closed && r.pool.returned
can_move timeout on_done r = is_draining r.phase && r.done_closed
can_move timeout on_timeout r = is_draining r.phase && ltb_ℤ (pos 0) timeout
can_move timeout return_forced r = is_forcing r.phase && r.pool.returned
can_move timeout stop r = true

-- `Stop`, once `run` has set cancelDrain.
unfoldable pub stop_agent : Lifecycle → Lifecycle
stop_agent r = record r { drain_cancelled = true; stopped = true }

-- A shutdown that loses the swap of `running` returns at once.
unfoldable pub move : Move → Lifecycle → Lifecycle
unfolding stop_agent
move (in_pool a) r = record r { pool = step a r.pool }
move end_context r = record r { context_ended = true }
move leave_serving r = record r { phase = draining }
move call_shutdown r =
    if r.pool.running
    then record r { pool = step begin_shutdown r.pool; shutdown_called = true }
    else record r { shutdown_called = true; done_closed = true }
move close_done r = record r { done_closed = true }
move on_done r = record r { phase = returned; drain_cancelled = true }
move on_timeout r =
    if r.pool.running
    then record r { pool = step begin_shutdown_now r.pool; phase = forcing; drain_cancelled = true }
    else record r { phase = returned; drain_cancelled = true }
move return_forced r = record r { phase = returned }
move stop r = stop_agent r

-- What a run with this timeout and a new pool can come to, until the process ends by a panic.
pub data Runs (timeout size queue_size : ℤ) : Lifecycle → Type 0 where
  started : Runs timeout size queue_size (start_run size queue_size)
  further :
      {r : Lifecycle}
      → Runs timeout size queue_size r
      → (m : Move) → can_move timeout m r ≡ true
      → r.pool.panicked ≡ false
      → Runs timeout size queue_size (move m r)
