-- ===== src/Worker/Resize.antt =====
-- SetSize of pool.go. The pool's `size` is the capacity of the semaphore that `p.sem` holds; the
-- recorded size, an int32, is beside it, since a decrease leaves the semaphore.
use rediver_sdk_go.Prelude.{
  ℕ, ◌+◌, ◌<◌, ◌≡◌, refl, ◌≢◌, Bool, true, false, ◌&&◌, ◌||◌, ltb, leb, ℤ, pos, not, leb_ℤ,
  to_int32, arith, if◌then◌else◌,
}
use rediver_sdk_go.Worker.{
  Pool, at_least_one, Action, check_running, add_to_wait_group, send_job, send_on_closed, receive,
  acquire, start, finish, release, decrement, done, begin_shutdown, begin_shutdown_now, close_queue,
  return_from_shutdown, lose_shutdown, is_enabled, step,
}

pub record Resizable : Type 0 where
  pub pool : Pool
  pub pool_size : ℤ

-- `SetSize`: an increase closes the semaphore and puts an empty one in its place. A dispatcher that
-- is blocked in a send on the closed one panics.
unfoldable pub set_size : ℤ → Resizable → Resizable
set_size size r =
    let new_size = at_least_one size in
    let blocked = ltb 0 r.pool.held && leb r.pool.size r.pool.sem in
    if not (leb_ℤ (pos new_size) r.pool_size)
    then record {
      pool = record r.pool { size = new_size; sem = 0; panicked = r.pool.panicked || blocked };
      pool_size = to_int32 (pos new_size);
    }
    else record r { pool_size = to_int32 (pos new_size) }

-- A step of a pool with SetSize among its calls: the release of a slot receives from whatever
-- semaphore `p.sem` holds by then, and blocks while it is empty.
unfoldable pub can_step : Action → Resizable → Bool
can_step release r = is_enabled release r.pool && ltb 0 r.pool.sem
can_step a r = is_enabled a r.pool

unfoldable pub resized_step : Action → Resizable → Resizable
resized_step a r = record r { pool = step a r.pool }

pub data Continues (r : Resizable) : Resizable → Type 0 where
  here : Continues r r
  further :
      {s : Resizable}
      → Continues r s
      → (a : Action) → can_step a s ≡ true
      → a ≢ check_running
      → Continues r (resized_step a s)

-- `n` jobs are in Execute or before their release, the semaphore is empty, and no job is on its
-- way into the pool.
IsStuck : ℕ → Resizable → Type 0
IsStuck n r =
    (r.pool.executing + r.pool.finished ≡ n)
    × (r.pool.sem ≡ 0)
    × (r.pool.checked ≡ 0)
    × (r.pool.sending + r.pool.queue + r.pool.held + r.pool.acquired ≡ 0)
    × (n + r.pool.released + r.pool.ending ≡ r.pool.wg)

set_size-IsStuck :
    (size : ℤ) (r : Resizable)
    → leb_ℤ (pos (at_least_one size)) r.pool_size ≡ false
    → r.pool.checked ≡ 0
    → r.pool.sending + r.pool.queue + r.pool.held + r.pool.acquired ≡ 0
    → r.pool.executing + r.pool.finished + r.pool.released + r.pool.ending ≡ r.pool.wg
    → IsStuck (r.pool.executing + r.pool.finished) (set_size size r)
unfolding set_size IsStuck
set_size-IsStuck size r h c s w = ground arith

step-IsStuck :
    (n : ℕ) (a : Action) (r : Resizable)
    → can_step a r ≡ true
    → a ≢ check_running
    → IsStuck n r
    → IsStuck n (resized_step a r)
unfolding can_step resized_step is_enabled step IsStuck
step-IsStuck n check_running r e ne h = absurd (ne refl)
step-IsStuck n add_to_wait_group r e ne h = ground arith
step-IsStuck n send_job r e ne h = ground arith
step-IsStuck n send_on_closed r e ne h = ground arith
step-IsStuck n receive r e ne h = ground arith
step-IsStuck n acquire r e ne h = ground arith
step-IsStuck n start r e ne h = ground arith
step-IsStuck n finish r e ne h = ground arith
step-IsStuck n release r e ne h = ground arith
step-IsStuck n decrement r e ne h = ground arith
step-IsStuck n done r e ne h = ground arith
step-IsStuck n begin_shutdown r e ne h = ground arith
step-IsStuck n begin_shutdown_now r e ne h = ground arith
step-IsStuck n close_queue r e ne h = ground arith
step-IsStuck n return_from_shutdown r e ne h = ground arith
step-IsStuck n lose_shutdown r e ne h = h

Continues-IsStuck : (n : ℕ) {r s : Resizable} → IsStuck n r → Continues r s → IsStuck n s
Continues-IsStuck n h here = h
Continues-IsStuck n h (further {s} c a e ne) = step-IsStuck n a s e ne (Continues-IsStuck n h c)

no_return : (n : ℕ) (s : Resizable) → 0 < n → IsStuck n s → can_step return_from_shutdown s ≡ false
unfolding can_step is_enabled IsStuck
no_return n s p h = ground arith

-- If SetSize increases the size of a pool while jobs are in their workers and nothing else is in
-- it, then, unless Submit is called again, the wait of a shutdown that stops the pool never ends,
-- whatever steps follow: the workers wait for slots in the new, empty semaphore.
pub set_size-no_return :
    (size : ℤ) (r s : Resizable)
    → leb_ℤ (pos (at_least_one size)) r.pool_size ≡ false
    → 0 < r.pool.executing + r.pool.finished
    → r.pool.checked ≡ 0
    → r.pool.sending + r.pool.queue + r.pool.held + r.pool.acquired ≡ 0
    → r.pool.executing + r.pool.finished + r.pool.released + r.pool.ending ≡ r.pool.wg
    → Continues (set_size size r) s
    → can_step return_from_shutdown s ≡ false
set_size-no_return size r s h p c i w run =
    no_return _ s p (Continues-IsStuck _ (set_size-IsStuck size r h c i w) run)
