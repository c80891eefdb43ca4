-- ===== src/Agent/Run/Return.antt =====
-- The end of a run can be reached: what its goroutines can do once its context has ended.
use rediver_sdk_go.Prelude.{
  ℕ, ◌≡◌, refl, sym, subst, ap, ◌∙◌, true, false, ◌&&◌, ◌||◌, not, ℤ, arith, if◌then◌else◌,
}
use rediver_sdk_go.Worker.{
  Pool, new_pool, Action, begin_shutdown, close_queue, return_from_shutdown, is_enabled, step,
  Reachable,
}
use rediver_sdk_go.Worker.Drain.{is_internal, weight, here, onward, Reachable-drains}
use rediver_sdk_go.Worker.Drain
use rediver_sdk_go.Agent.Run.{
  Lifecycle, start_run, Move, in_pool, end_context, leave_serving, call_shutdown, close_done,
  on_done, on_timeout, return_forced, stop, can_move, move, is_own, is_serving, Runs, started,
  further, serving, draining, returned,
}
use rediver_sdk_go.Agent.Run.Drain.{in_hand, Runs-Reachable, IsEmptied, Reachable-IsEmptied}

-- Moves from one state of a run to another.
pub data Leads (timeout : ℤ) : Lifecycle → Lifecycle → Type 0 where
  arrived : {r : Lifecycle} → Leads timeout r r
  by :
      {r s : Lifecycle} (m : Move)
      → can_move timeout m r ≡ true
      → r.pool.panicked ≡ false
      → Leads timeout (move m r) s
      → Leads timeout r s

Leads-Leads :
    {timeout : ℤ} {r s t : Lifecycle} → Leads timeout r s → Leads timeout s t → Leads timeout r t
Leads-Leads arrived k = k
Leads-Leads (by m e q h) k = by m e q (Leads-Leads h k)

Leads-Runs :
    {timeout size queue_size : ℤ} {r s : Lifecycle}
    → Runs timeout size queue_size r
    → Leads timeout r s
    → Runs timeout size queue_size s
Leads-Runs runs arrived = runs
Leads-Runs runs (by m e q h) = Leads-Runs (further runs m e q) h

internal_own : (a : Action) → is_internal a ≡ true → is_own a ≡ true
unfolding is_internal
internal_own a h = ground (arith, h)

step-panicked : (a : Action) (p : Pool) → is_internal a ≡ true → (step a p).panicked ≡ p.panicked
unfolding step is_internal
step-panicked a p h = ground arith

step-closed : (a : Action) (p : Pool) → is_internal a ≡ true → (step a p).closed ≡ p.closed
unfolding step is_internal
step-closed a p h = ground arith

-- Steps of the dispatcher and the workers are moves of the run.
in_pool-Leads :
    {timeout : ℤ} {n : ℕ} {p q : Pool} (r : Lifecycle)
    → Drain.Runs n p q
    → p.panicked ≡ false
    → Leads timeout (record r { pool = p }) (record r { pool = q })
unfolding can_move move
in_pool-Leads r here h = arrived
in_pool-Leads r (onward {n} {p} a i e k) h =
    by (in_pool a) (rw (internal_own a i) e) h (in_pool-Leads r k (step-panicked a p i ∙ h))

Runs-closed : {n : ℕ} {p q : Pool} → Drain.Runs n p q → q.closed ≡ p.closed
Runs-closed here = refl
Runs-closed (onward {n} {p} a i e k) = Runs-closed k ∙ step-closed a p i

Runs-panicked : {n : ℕ} {p q : Pool} → Drain.Runs n p q → q.panicked ≡ p.panicked
Runs-panicked here = refl
Runs-panicked (onward {n} {p} a i e k) = Runs-panicked k ∙ step-panicked a p i

-- Before the end of its context, no shutdown of a run's pool has begun.
IsOpen : Lifecycle → Type 0
IsOpen r =
    (not (is_serving r.phase)
      || (r.pool.running
          && not r.pool.closing
          && not r.pool.closed
          && not r.shutdown_called
          && not r.done_closed))
    ≡ true

move-IsOpen :
    (timeout : ℤ) (m : Move) (r : Lifecycle)
    → can_move timeout m r ≡ true
    → IsOpen r
    → IsOpen (move m r)
unfolding can_move move is_enabled step IsOpen
move-IsOpen timeout (in_pool a) r e h = ground arith
move-IsOpen timeout end_context r e h = h
move-IsOpen timeout leave_serving r e h = refl
move-IsOpen timeout call_shutdown r e h = ground arith
move-IsOpen timeout close_done r e h = ground arith
move-IsOpen timeout on_done r e h = refl
move-IsOpen timeout on_timeout r e h = ground arith
move-IsOpen timeout return_forced r e h = refl
move-IsOpen timeout stop r e h = h

Runs-IsOpen :
    {timeout size queue_size : ℤ} {r : Lifecycle} → Runs timeout size queue_size r → IsOpen r
unfolding start_run new_pool IsOpen
Runs-IsOpen started = refl
Runs-IsOpen {timeout} (further {r} h m e q) = move-IsOpen timeout m r e (Runs-IsOpen h)

abbrev shut : Pool → Pool
unfolding step
shut p = step close_queue (step begin_shutdown p)

abbrev closing_run : Lifecycle → Lifecycle
unfolding step
closing_run r = record r { pool = shut r.pool; phase = draining; shutdown_called = true }

call_shutdown_up :
    (r : Lifecycle)
    → r.pool.running ≡ true
    → move call_shutdown r ≡ record r { pool = step begin_shutdown r.pool; shutdown_called = true }
unfolding move
call_shutdown_up r up =
    ap
      (λ b.
        if b
        then record r { pool = step begin_shutdown r.pool; shutdown_called = true }
        else record r { shutdown_called = true; done_closed = true })
      up

closing_run-Leads :
    (timeout : ℤ) (r : Lifecycle)
    → r.phase ≡ serving
    → r.context_ended ≡ true
    → r.pool.panicked ≡ false
    → IsOpen r
    → Leads timeout r (closing_run r)
unfolding can_move move step is_enabled IsOpen
closing_run-Leads timeout r s c q o =
    let up : r.pool.running ≡ true = ground arith in
    by leave_serving (ground arith) q (
      by call_shutdown (ground arith) q (
        subst (λ l. Leads timeout l (closing_run r))
          (sym (call_shutdown_up (move leave_serving r) up))
          (by (in_pool close_queue) (ground arith) q arrived)))

returned_run-Leads :
    (timeout : ℤ) (r : Lifecycle)
    → r.phase ≡ draining
    → r.shutdown_called ≡ true
    → r.done_closed ≡ false
    → r.pool.panicked ≡ false
    → r.pool.closed ≡ true
    → r.pool.wg ≡ 0
    → Leads timeout r (move on_done (move close_done (move (in_pool return_from_shutdown) r)))
unfolding can_move move step is_enabled
returned_run-Leads timeout r d s n q c w =
    by (in_pool return_from_shutdown) (ground arith) q
      (by close_done (ground arith) q (by on_done (ground arith) q arrived))

returned_pool :
    {size queue_size : ℤ} {p : Pool}
    → Reachable size queue_size p
    → p.returned ≡ true
    → in_hand p ≡ 0
unfolding IsEmptied
returned_pool r h = let e = Reachable-IsEmptied r in ground arith

-- Whatever a run has come to when its context ends: if no Submit is in its send and every Execute
-- returns, its goroutines can go on until the run has returned with no job in the pool's queue, with
-- its dispatcher or in a worker.
pub Runs-returns :
    {timeout size queue_size : ℤ} {r : Lifecycle}
    → Runs timeout size queue_size r
    → r.phase ≡ serving
    → r.context_ended ≡ true
    → r.pool.sending ≡ 0
    → r.pool.panicked ≡ false
    → (s : Lifecycle) × Leads timeout r s × (s.phase ≡ returned) × (in_hand s.pool ≡ 0)
unfolding IsOpen step move
Runs-returns {timeout} {size} {queue_size} {r} runs phase_is ended sending live =
    let open_pool = Runs-IsOpen runs in
    let still : r.done_closed ≡ false = ground arith in
    let to_close = closing_run-Leads timeout r phase_is ended live open_pool in
    let (q, steps, empty) = Reachable-drains (Runs-Reachable (Leads-Runs runs to_close)) sending in
    let to_drain = in_pool-Leads (closing_run r) steps live in
    let to_return =
      returned_run-Leads timeout (record (closing_run r) { pool = q }) refl refl still
        (Runs-panicked steps ∙ live) (Runs-closed steps) empty in
    let path = Leads-Leads to_close (Leads-Leads to_drain to_return) in
    (_, path, refl, returned_pool (Runs-Reachable (Leads-Runs runs path)) refl)
