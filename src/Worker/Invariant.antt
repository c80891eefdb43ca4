-- ===== src/Worker/Invariant.antt =====
-- What holds in every reachable state of the pool.
use rediver_sdk_go.Prelude.{ℕ, zero, suc, ◌+◌, ◌<◌, ◌≤◌, ◌≡◌, refl, true, ℤ, pos, negsuc, arith}
use rediver_sdk_go.Worker.{
  Pool, at_least_one, new_pool, Action, check_running, add_to_wait_group, send_job, send_on_closed,
  receive, acquire, start, finish, release, decrement, done, begin_shutdown, begin_shutdown_now,
  close_queue, return_from_shutdown, lose_shutdown, is_enabled, step, Reachable, initial, next,
}

-- A job that was submitted and is not done.
abbrev pub outstanding : Pool → ℕ
outstanding p =
    p.sending + p.queue + p.held + p.acquired + p.executing + p.finished + p.released + p.ending

-- The semaphore's tokens are held by the jobs between acquiring and releasing them, and are no more
-- than its size; `active` counts the jobs from its increment to its decrement; the wait group counts
-- the outstanding jobs; the queue is within its capacity, and the dispatcher has one job at most.
unfoldable pub IsConsistent : Pool → Type 0
IsConsistent p =
    (p.sem ≡ p.acquired + p.executing + p.finished)
    × (p.sem ≤ p.size)
    × (p.active ≡ p.executing + p.finished + p.released)
    × (p.wg ≡ outstanding p)
    × (p.queue ≤ p.capacity)
    × (p.held + p.acquired ≤ 1)
    × (0 < p.size)

at_least_one-pos : (n : ℤ) → 0 < at_least_one n
unfolding at_least_one
at_least_one-pos (pos zero) = omega arith
at_least_one-pos (pos (suc n)) = omega arith
at_least_one-pos (negsuc n) = omega arith

new_pool-IsConsistent : (size queue_size : ℤ) → IsConsistent (new_pool size queue_size)
unfolding new_pool IsConsistent
new_pool-IsConsistent size queue_size =
    (refl, omega arith, refl, refl, omega arith, omega arith, at_least_one-pos size)

pub step-IsConsistent :
    (a : Action) (p : Pool) → is_enabled a p ≡ true → IsConsistent p → IsConsistent (step a p)
unfolding is_enabled step IsConsistent
step-IsConsistent check_running p e h = ground arith
step-IsConsistent add_to_wait_group p e h = ground arith
step-IsConsistent send_job p e h = ground arith
step-IsConsistent send_on_closed p e h = ground arith
step-IsConsistent receive p e h = ground arith
step-IsConsistent acquire p e h = ground arith
step-IsConsistent start p e h = ground arith
step-IsConsistent finish p e h = ground arith
step-IsConsistent release p e h = ground arith
step-IsConsistent decrement p e h = ground arith
step-IsConsistent done p e h = ground arith
step-IsConsistent begin_shutdown p e h = ground arith
step-IsConsistent begin_shutdown_now p e h = ground arith
step-IsConsistent close_queue p e h = ground arith
step-IsConsistent return_from_shutdown p e h = ground arith
step-IsConsistent lose_shutdown p e h = h

-- Every state that a pool can come to, whatever the sizes and the interleaving, is consistent.
pub Reachable-IsConsistent :
    {size queue_size : ℤ} {p : Pool} → Reachable size queue_size p → IsConsistent p
Reachable-IsConsistent initial = new_pool-IsConsistent _ _
Reachable-IsConsistent (next {p} r a e _) = step-IsConsistent a p e (Reachable-IsConsistent r)
