-- ===== src/Worker/Drain.antt =====
-- A pool whose senders are through gets its jobs done, and a shutdown returns when they are.
use rediver_sdk_go.Prelude.{
  ℕ, zero, suc, ◌+◌, ◌*◌, ◌<◌, ◌≡◌, refl, ◌∙◌, ◌⊎◌, inl, inr, Bool, true, false, Bool-cases, ℤ,
  arith,
}
use rediver_sdk_go.Worker.{
  Pool, Action, check_running, add_to_wait_group, send_job, send_on_closed, receive, acquire, start,
  finish, release, decrement, done, begin_shutdown, begin_shutdown_now, close_queue,
  return_from_shutdown, lose_shutdown, is_enabled, step, Reachable,
}
use rediver_sdk_go.Worker.Invariant.{
  outstanding, IsConsistent, step-IsConsistent, Reachable-IsConsistent,
}

-- The steps of the dispatcher and of the workers.
unfoldable pub is_internal : Action → Bool
is_internal receive = true
is_internal acquire = true
is_internal start = true
is_internal finish = true
is_internal release = true
is_internal decrement = true
is_internal done = true
is_internal _ = false

-- The internal steps that the jobs of a pool have before them.
unfoldable pub weight : Pool → ℕ
weight p =
    7 * p.queue
    + 6 * p.held
    + 5 * p.acquired
    + 4 * p.executing
    + 3 * p.finished
    + 2 * p.released
    + p.ending

-- Internal steps from one state to another, `n` of them.
pub data Runs : ℕ → Pool → Pool → Type 0 where
  here : {p : Pool} → Runs 0 p p
  onward :
      {n : ℕ} {p q : Pool} (a : Action)
      → is_internal a ≡ true
      → is_enabled a p ≡ true
      → Runs n (step a p) q
      → Runs (suc n) p q

step-weight :
    (a : Action) (p : Pool)
    → is_internal a ≡ true
    → is_enabled a p ≡ true
    → weight (step a p) + 1 ≡ weight p
unfolding is_enabled step weight is_internal
step-weight receive p i e = ground arith
step-weight acquire p i e = ground arith
step-weight start p i e = ground arith
step-weight finish p i e = ground arith
step-weight release p i e = ground arith
step-weight decrement p i e = ground arith
step-weight done p i e = ground arith
step-weight check_running p i e = cc
step-weight add_to_wait_group p i e = cc
step-weight send_job p i e = cc
step-weight send_on_closed p i e = cc
step-weight begin_shutdown p i e = cc
step-weight begin_shutdown_now p i e = cc
step-weight close_queue p i e = cc
step-weight return_from_shutdown p i e = cc
step-weight lose_shutdown p i e = cc

-- However the dispatcher and the workers interleave, each of their steps takes one from the weight
-- of the pool: from one state there are no more steps than its weight before they all stop.
Runs-weight : {n : ℕ} {p q : Pool} → Runs n p q → n + weight q ≡ weight p
Runs-weight here = omega arith
Runs-weight (onward {n} {p} {q} a i e r) = omega (arith, Runs-weight r, step-weight a p i e)

abbrev Moves : Pool → Type 0
Moves p = (a : Action) × (is_internal a ≡ true) × (is_enabled a p ≡ true)

move_of :
    (a : Action) (p : Pool)
    → is_internal a ≡ true
    → (is_enabled a p ≡ true) ⊎ (is_enabled a p ≡ false)
    → (is_enabled a p ≡ false → Moves p)
    → Moves p
move_of a p i (inl e) k = (a, i, e)
move_of a p i (inr f) k = k f

-- A job that is in the pool is never stuck.
moves : (p : Pool) → IsConsistent p → 0 < weight p → Moves p
unfolding is_enabled IsConsistent weight is_internal
moves p c h = move_of done p refl (Bool-cases _) (λ f1.
    move_of decrement p refl (Bool-cases _) (λ f2. move_of release p refl (Bool-cases _) (λ f3.
      move_of finish p refl (Bool-cases _) (λ f4. move_of start p refl (Bool-cases _) (λ f5.
        move_of acquire p refl (Bool-cases _)
          (λ f6. move_of receive p refl (Bool-cases _) (λ f7. absurd (ground arith))))))))

no_jobs : (p : Pool) → IsConsistent p → weight p ≡ 0 → p.sending ≡ 0 → p.wg ≡ 0
unfolding IsConsistent weight
no_jobs p c h s = ground arith

step-sending : (a : Action) (p : Pool) → is_internal a ≡ true → (step a p).sending ≡ p.sending
unfolding step is_internal
step-sending a p i = ground arith

drain :
    (n : ℕ) (p : Pool)
    → weight p ≡ n
    → IsConsistent p
    → p.sending ≡ 0
    → (q : Pool) × Runs n p q × (q.wg ≡ 0)
drain zero p e c s = (p, here, no_jobs p c e s)
drain (suc n) p e c s =
    let (a, i, h) = moves p c (omega arith) in
    let (q, r, w) =
      drain n (step a p) (omega (arith, step-weight a p i h)) (step-IsConsistent a p h c)
        (step-sending a p i ∙ s) in
    (q, onward a i h r, w)

-- From every state that a pool can come to with no call of Submit in its send, the dispatcher and
-- the workers can go on, if every Execute returns, until the wait group is at 0, in exactly as many
-- steps as the state's weight says.
pub Reachable-drains :
    {size queue_size : ℤ} {p : Pool}
    → Reachable size queue_size p
    → p.sending ≡ 0
    → (q : Pool) × Runs (weight p) p q × (q.wg ≡ 0)
Reachable-drains {p} r s = drain (weight p) p refl (Reachable-IsConsistent r) s

idle : (p : Pool) → IsConsistent p → p.wg ≡ 0 → (outstanding p ≡ 0) × (p.sem ≡ 0) × (p.active ≡ 0)
unfolding IsConsistent
idle p c w = ground arith

-- Where Shutdown or ShutdownNow returns, no job is queued, with the dispatcher or in a worker, no
-- slot is taken and no worker is counted as active.
pub return_from_shutdown-idle :
    {size queue_size : ℤ} {p : Pool}
    → Reachable size queue_size p
    → is_enabled return_from_shutdown p ≡ true
    → (outstanding p ≡ 0) × (p.sem ≡ 0) × (p.active ≡ 0)
unfolding is_enabled
return_from_shutdown-idle {p} r e = idle p (Reachable-IsConsistent r) (ground arith)
