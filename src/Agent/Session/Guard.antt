-- ===== src/Agent/Session/Guard.antt =====
-- The one-shot guard at the head of Run, RunOnce and Dispatch, over any world and any bodies. The
-- swap of `running` is atomic, so calls from several goroutines are a sequence here.
use rediver_sdk_go.Prelude.{
  ◌≡◌, refl, Bool, true, false, Option, none, some, List, [], ◌∷◌, map, if◌then◌else◌,
}
use rediver_sdk_go.Errors.{Error, Sentinel, sentinel, wrapped}

module _ {W : Type 0} where
  -- `if !a.running.CompareAndSwap(false, true)`, before the body of a call.
  unfoldable pub guarded : (W → Error × W) → Bool × W → Error × (Bool × W)
  guarded body (running, w) =
      let (e, w') = body w in
      if running then (sentinel Sentinel.already_running, (true, w)) else (e, (true, w'))

  -- `Dispatch`; a nil handler is `none`, and is refused before the guard.
  unfoldable pub dispatch : Option (W → Error × W) → Bool × W → Error × (Bool × W)
  unfolding guarded
  dispatch none s = (wrapped "handler must be non-nil" (sentinel Sentinel.invalid_config), s)
  dispatch (some body) s = guarded body s

  -- The errors of a sequence of calls on one agent, and what they leave.
  unfoldable pub calls : List (W → Error × W) → Bool × W → List Error × (Bool × W)
  unfolding guarded
  calls [] s = ([], s)
  calls (body ∷ bodies) s =
      let (e, s') = guarded body s in let (es, s'') = calls bodies s' in (e ∷ es, s'')

  calls_started :
      (bodies : List (W → Error × W)) (w : W)
      → calls bodies (true, w) ≡ (map (λ _. sentinel Sentinel.already_running) bodies, (true, w))
  unfolding calls
  calls_started [] w = refl
  calls_started (b ∷ bs) w = rw (calls_started bs w) refl

  -- On an agent that has not started, the first call runs its body, whatever comes of it, and every
  -- later call of Run, RunOnce or Dispatch returns ErrAlreadyRunning and changes nothing.
  pub calls_lem :
      (first : W → Error × W) (bodies : List (W → Error × W)) (w : W)
      → calls (first ∷ bodies) (false, w)
        ≡ ((first w).0 ∷ map (λ _. sentinel Sentinel.already_running) bodies, (true, (first w).1))
  unfolding calls
  calls_lem first bodies w = rw (calls_started bodies (first w).1) refl
