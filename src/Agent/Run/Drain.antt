-- ===== src/Agent/Run/Drain.antt =====
-- What the end of a run waits for.
use rediver_sdk_go.Prelude.{
  ℕ, ◌+◌, ◌≡◌, refl, ap, Bool, true, false, ◌&&◌, ◌||◌, not, ◌==◌, ℤ, pos, ltb_ℤ, arith,
  if◌then◌else◌,
}
use rediver_sdk_go.Worker.{
  Pool, new_pool, Action, check_running, add_to_wait_group, send_job, send_on_closed, receive,
  acquire, start, finish, release, decrement, done, begin_shutdown, begin_shutdown_now, close_queue,
  return_from_shutdown, lose_shutdown, is_enabled, step, Reachable, initial, next,
}
use rediver_sdk_go.Worker.Invariant.{IsConsistent, Reachable-IsConsistent}
use rediver_sdk_go.Agent.Run.{
  Lifecycle, start_run, Move, in_pool, end_context, leave_serving, call_shutdown, close_done,
  on_done, on_timeout, return_forced, stop, can_move, move, is_own, Runs, started, further, forcing,
  returned,
}

-- The jobs in the queue, with the dispatcher and in workers.
unfoldable pub in_hand : Pool → ℕ
in_hand p = p.queue + p.held + p.acquired + p.executing + p.finished + p.released + p.ending

if_either :
    (P : Lifecycle → Type 0) (b : Bool) {r s : Lifecycle}
    → (b ≡ true → P r)
    → (b ≡ false → P s)
    → P (if b then r else s)
if_either P true h k = h refl
if_either P false h k = k refl

pub Runs-Reachable :
    {size queue_size timeout : ℤ} {r : Lifecycle}
    → Runs timeout size queue_size r
    → Reachable size queue_size r.pool
unfolding start_run can_move move is_enabled
Runs-Reachable started = initial
Runs-Reachable (further {r} h (in_pool a) e q) = next (Runs-Reachable h) a (ground (arith, e)) q
Runs-Reachable (further {r} h end_context e q) = Runs-Reachable h
Runs-Reachable (further {r} h leave_serving e q) = Runs-Reachable h
Runs-Reachable {size} {queue_size} (further {r} h call_shutdown e q) =
    if_either (λ l. Reachable size queue_size l.pool) r.pool.running
      (λ up. next (Runs-Reachable h) begin_shutdown up q) (λ down. Runs-Reachable h)
Runs-Reachable (further {r} h close_done e q) = Runs-Reachable h
Runs-Reachable (further {r} h on_done e q) = Runs-Reachable h
Runs-Reachable {size} {queue_size} (further {r} h on_timeout e q) =
    if_either (λ l. Reachable size queue_size l.pool) r.pool.running
      (λ up. next (Runs-Reachable h) begin_shutdown_now up q) (λ down. Runs-Reachable h)
Runs-Reachable (further {r} h return_forced e q) = Runs-Reachable h
Runs-Reachable (further {r} h stop e q) = Runs-Reachable h

-- Once a shutdown of the pool has returned, its queue is closed and it has no job in hand.
unfoldable pub IsEmptied : Pool → Type 0
IsEmptied p = (not p.returned || (p.closed && (in_hand p == 0))) ≡ true

step-IsEmptied :
    (a : Action) (p : Pool)
    → is_enabled a p ≡ true
    → IsConsistent p
    → IsEmptied p
    → IsEmptied (step a p)
unfolding is_enabled step IsConsistent IsEmptied in_hand
step-IsEmptied check_running p e c h = ground arith
step-IsEmptied add_to_wait_group p e c h = ground arith
step-IsEmptied send_job p e c h = ground arith
step-IsEmptied send_on_closed p e c h = ground arith
step-IsEmptied receive p e c h = ground arith
step-IsEmptied acquire p e c h = ground arith
step-IsEmptied start p e c h = ground arith
step-IsEmptied finish p e c h = ground arith
step-IsEmptied release p e c h = ground arith
step-IsEmptied decrement p e c h = ground arith
step-IsEmptied done p e c h = ground arith
step-IsEmptied begin_shutdown p e c h = ground arith
step-IsEmptied begin_shutdown_now p e c h = ground arith
step-IsEmptied close_queue p e c h = ground arith
step-IsEmptied return_from_shutdown p e c h = ground arith
step-IsEmptied lose_shutdown p e c h = h

pub Reachable-IsEmptied :
    {size queue_size : ℤ} {p : Pool} → Reachable size queue_size p → IsEmptied p
unfolding new_pool IsEmptied
Reachable-IsEmptied initial = refl
Reachable-IsEmptied (next {p} r a e q) =
    step-IsEmptied a p e (Reachable-IsConsistent r) (Reachable-IsEmptied r)

-- With no timeout and no Stop: drainCtx ends, and `done` is closed, only after Shutdown has returned, which the
-- run's goroutine called.
IsPatient : Lifecycle → Type 0
IsPatient r =
    ((r.shutdown_called || r.pool.running) ≡ true)
    × ((not r.done_closed || r.pool.returned) ≡ true)
    × ((not r.drain_cancelled || r.stopped || r.pool.returned) ≡ true)

step-running : (a : Action) (p : Pool) → is_own a ≡ true → (step a p).running ≡ p.running
unfolding step
step-running a p h = ground arith

step-returned : (a : Action) (p : Pool) → p.returned ≡ true → (step a p).returned ≡ true
unfolding step
step-returned a p h = ground arith

move-IsPatient :
    (timeout : ℤ) (m : Move) (r : Lifecycle)
    → ltb_ℤ (pos 0) timeout ≡ false
    → can_move timeout m r ≡ true
    → IsPatient r
    → IsPatient (move m r)
unfolding can_move move IsPatient step
move-IsPatient timeout (in_pool a) r t e (h, k, l) =
    let same = step-running a r.pool (ground arith) in
    let kept = step-returned a r.pool in
    (ground (arith, same), ground (arith, kept), ground (arith, kept))
move-IsPatient timeout end_context r t e h = h
move-IsPatient timeout leave_serving r t e h = h
move-IsPatient timeout call_shutdown r t e (h, k, l) =
    if_either IsPatient r.pool.running (λ up. (refl, k, l)) (λ down. absurd (ground arith))
move-IsPatient timeout close_done r t e h = ground arith
move-IsPatient timeout on_done r t e h = ground arith
move-IsPatient timeout on_timeout r t e h = absurd (ground arith)
move-IsPatient timeout return_forced r t e h = h
move-IsPatient timeout stop r t e (h, k, l) = (h, k, refl)

Runs-IsPatient :
    {timeout size queue_size : ℤ} {r : Lifecycle}
    → ltb_ℤ (pos 0) timeout ≡ false
    → Runs timeout size queue_size r
    → IsPatient r
unfolding start_run new_pool IsPatient
Runs-IsPatient t started = (refl, refl, refl)
Runs-IsPatient {timeout} t (further {r} h m e q) =
    move-IsPatient timeout m r t e (Runs-IsPatient t h)

-- Without a shutdown timeout and unless Stop is called, whatever the goroutines of a run do: once
-- drainCtx, the context of its jobs, has been cancelled, no job is in the pool's queue, with its
-- dispatcher or in a worker.
pub Runs-in_hand :
    {timeout size queue_size : ℤ} {r : Lifecycle}
    → ltb_ℤ (pos 0) timeout ≡ false
    → Runs timeout size queue_size r
    → r.stopped ≡ false
    → r.drain_cancelled ≡ true
    → in_hand r.pool ≡ 0
unfolding IsPatient IsEmptied
Runs-in_hand {r} t runs going cancelled =
    let patient = (Runs-IsPatient t runs).2 in
    let emptied = Reachable-IsEmptied (Runs-Reachable runs) in ground arith

-- Once Shutdown has been called, the pool is not running.
IsDown : Lifecycle → Type 0
IsDown r = (not r.shutdown_called || not r.pool.running) ≡ true

move-IsDown :
    (timeout : ℤ) (m : Move) (r : Lifecycle)
    → can_move timeout m r ≡ true
    → IsDown r
    → IsDown (move m r)
unfolding can_move move IsDown step
move-IsDown timeout (in_pool a) r e h =
    let same = step-running a r.pool (ground arith) in ground (arith, same)
move-IsDown timeout end_context r e h = h
move-IsDown timeout leave_serving r e h = h
move-IsDown timeout call_shutdown r e h =
    if_either IsDown r.pool.running (λ up. refl) (λ down. ground arith)
move-IsDown timeout close_done r e h = h
move-IsDown timeout on_done r e h = h
move-IsDown timeout on_timeout r e h =
    if_either IsDown r.pool.running (λ up. ground arith) (λ down. h)
move-IsDown timeout return_forced r e h = h
move-IsDown timeout stop r e h = h

Runs-IsDown :
    {timeout size queue_size : ℤ} {r : Lifecycle} → Runs timeout size queue_size r → IsDown r
unfolding start_run new_pool IsDown
Runs-IsDown started = refl
Runs-IsDown {timeout} (further {r} h m e q) = move-IsDown timeout m r e (Runs-IsDown h)

-- Where the shutdown timeout passes after the run's goroutine has called Shutdown, ShutdownNow does
-- nothing: the run cancels drainCtx and returns with the pool as it is, whatever jobs are in it.
pub on_timeout-pool :
    {timeout size queue_size : ℤ} {r : Lifecycle}
    → Runs timeout size queue_size r
    → r.shutdown_called ≡ true
    → move on_timeout r ≡ record r { phase = returned; drain_cancelled = true }
unfolding move IsDown
on_timeout-pool {r} runs called =
    let down = Runs-IsDown runs in
    let stopped : r.pool.running ≡ false = ground arith in
    ap
      (λ b.
        if b
        then record r {
          pool = step begin_shutdown_now r.pool;
          phase = forcing;
          drain_cancelled = true;
        }
        else record r { phase = returned; drain_cancelled = true })
      stopped
