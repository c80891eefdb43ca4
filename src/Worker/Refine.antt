-- ===== src/Worker/Refine.antt =====
-- What a pool promises, as a counter of jobs by their place, and that the pool keeps to it.
use rediver_sdk_go.Prelude.{
  ℕ, ◌+◌, ◌-◌, ◌≡◌, refl, subst, ◌∙◌, true, ℤ, arith, ap, Option, none, some, ltb, ◌&&◌,
  if◌then◌else◌,
}
use rediver_sdk_go.Worker.{
  Pool, at_least_one, new_pool, Action, check_running, add_to_wait_group, send_job, send_on_closed,
  receive, acquire, start, finish, release, decrement, done, begin_shutdown, begin_shutdown_now,
  close_queue, return_from_shutdown, lose_shutdown, is_enabled, step, Reachable, initial, next,
}
use rediver_sdk_go.Worker.Invariant.{IsConsistent, Reachable-IsConsistent}

-- Jobs that were accepted and wait, that run, and that have run and are being counted off.
pub record Board : Type 0 where
  pub waiting : ℕ
  pub running : ℕ
  pub leaving : ℕ

abbrev pub empty_board : Board
empty_board = record { waiting = 0; running = 0; leaving = 0 }

-- What happens to a job.
pub data Event : Type 0 where
  accepted began completed left : Event

-- The promise: an event can come to pass where there is a job for it, a beginning only while fewer
-- than `limit` jobs run.
unfoldable pub play : (limit : ℕ) → Event → Board → Option Board
play limit accepted b = some (record b { waiting = b.waiting + 1 })
play limit began b =
    if ltb 0 b.waiting && ltb b.running limit
    then some (record b { waiting = b.waiting - 1; running = b.running + 1 })
    else none
play limit completed b =
    if ltb 0 b.running
    then some (record b { running = b.running - 1; leaving = b.leaving + 1 })
    else none
play limit left b = if ltb 0 b.leaving then some (record b { leaving = b.leaving - 1 }) else none

unfoldable pub play_next : (limit : ℕ) → Option Event → Option Board → Option Board
play_next limit none b = b
play_next limit (some e) none = none
play_next limit (some e) (some b) = play limit e b

-- The step of the pool that an event is.
unfoldable pub event_of : Action → Option Event
event_of add_to_wait_group = some accepted
event_of acquire = some began
event_of release = some completed
event_of done = some left
event_of _ = none

-- What the promise sees of a pool.
unfoldable pub board : Pool → Board
board p = record {
  waiting = p.sending + p.queue + p.held;
  running = p.acquired + p.executing + p.finished;
  leaving = p.released + p.ending;
}

step-plays :
    (a : Action) (p : Pool)
    → is_enabled a p ≡ true
    → IsConsistent p
    → play_next p.size (event_of a) (some (board p)) ≡ some (board (step a p))
unfolding is_enabled step board IsConsistent play play_next event_of
step-plays check_running p e c = refl
step-plays add_to_wait_group p e c = ap some (ground arith)
step-plays send_job p e c = ap some (ground arith)
step-plays send_on_closed p e c = refl
step-plays receive p e c = ap some (ground arith)
step-plays acquire p e c = ground arith
step-plays start p e c = ap some (ground arith)
step-plays finish p e c = ap some (ground arith)
step-plays release p e c = ground arith
step-plays decrement p e c = ap some (ground arith)
step-plays done p e c = ground arith
step-plays begin_shutdown p e c = refl
step-plays begin_shutdown_now p e c = refl
step-plays close_queue p e c = refl
step-plays return_from_shutdown p e c = refl
step-plays lose_shutdown p e c = refl

step-size : (a : Action) (p : Pool) → (step a p).size ≡ p.size
unfolding step
step-size a p = ground arith

Reachable-size :
    {size queue_size : ℤ} {p : Pool} → Reachable size queue_size p → p.size ≡ at_least_one size
unfolding new_pool
Reachable-size initial = refl
Reachable-size (next {p} r a e _) = step-size a p ∙ Reachable-size r

-- What the promise comes to by the events of a run of the pool, in the order of its steps.
unfoldable pub played :
    {size queue_size : ℤ} {p : Pool} → (limit : ℕ) → Reachable size queue_size p → Option Board
played limit initial = some empty_board
played limit (next r a e _) = play_next limit (event_of a) (played limit r)

-- The pool refines its promise: in every run, each of its events, in the order in which the
-- goroutines take them, is one that the promise allows for a limit of `size`, or of 1 where `size`
-- is not positive; and the jobs that wait, run and leave in the pool are, after every step, those
-- that the promise counts by these events alone.
pub Reachable-played :
    {size queue_size : ℤ} {p : Pool} (r : Reachable size queue_size p)
    → played (at_least_one size) r ≡ some (board p)
unfolding board new_pool played
Reachable-played initial = refl
Reachable-played {size} (next {p} r a e _) = rw (Reachable-played r) (
    subst (λ n. play_next n (event_of a) (some (board p)) ≡ some (board (step a p)))
      (Reachable-size r) (step-plays a p e (Reachable-IsConsistent r)))
