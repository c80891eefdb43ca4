-- ===== src/Agent/Poll/Loops.antt =====
-- pollLoop and the loop of runDispatcher over what their surroundings do round by round.
use rediver_sdk_go.Prelude.{
  ℕ, ◌≡◌, refl, ap, inl, inr, Bool, true, false, not, ◌&&◌, Bool-cases, String, is_empty, ltb, ℤ,
  leb_ℤ, List, [], ◌∷◌, if◌then◌else◌,
}
use rediver_sdk_go.Errors.{Error, Sentinel, error_is, is_nil}
use rediver_sdk_go.Agent.Poll.{
  Command, sleep_for, submit, hand_over, leave_with, poll_round, dispatch_round,
}

-- One round: whether the context has ended at its head, the pool's active workers, what a poll
-- returns, and whether a sleep runs its time before the context ends.
pub record Round : Type 0 where
  pub ended : Bool
  pub active : ℤ
  pub reply : Error × String × String
  pub slept : Bool

-- What a loop does: a poll with its reply, and what follows.
pub data Event : Type 0 where
  polled : Error × String × String → Event
  did : Command → Event

-- Whether the loop goes on after a command.
unfoldable pub goes_on : Command → (slept : Bool) → Bool
goes_on (sleep_for d) slept = slept
goes_on (leave_with e) slept = false
goes_on _ slept = true

-- The events of a round before its command.
abbrev asked : (busy : Bool) → Error × String × String → List Event → List Event
asked true reply events = events
asked false reply events = polled reply ∷ events

-- `pollLoop`, as far as the rounds go.
unfoldable pub poll_loop : (max : ℤ) (client_sleep backoff : ℕ) → List Round → List Event
unfolding poll_round goes_on
poll_loop max client_sleep backoff [] = []
poll_loop max client_sleep backoff (r ∷ rs) =
    let busy = leb_ℤ max r.active in
    let (command, backoff') = poll_round busy r.reply client_sleep backoff in
    let rest = poll_loop max client_sleep backoff' rs in
    if r.ended
    then []
    else asked busy r.reply (did command ∷ (if goes_on command r.slept then rest else []))

-- The loop of `runDispatcher`, which has no pool.
unfoldable pub dispatch_loop : (client_sleep backoff : ℕ) → List Round → List Event
unfolding dispatch_round goes_on
dispatch_loop client_sleep backoff [] = []
dispatch_loop client_sleep backoff (r ∷ rs) =
    let (command, backoff') = dispatch_round r.reply client_sleep backoff in
    let rest = dispatch_loop client_sleep backoff' rs in
    if r.ended
    then []
    else polled r.reply ∷ did command ∷ (if goes_on command r.slept then rest else [])

-- The jobs that the server gave in the polls of a run.
abbrev pub given : List Event → List String
given [] = []
given (polled (err, job_id, scanner) ∷ es) =
    if is_nil err && not (is_empty job_id) then job_id ∷ given es else given es
given (did c ∷ es) = given es

-- The jobs that a run submits or hands over.
abbrev pub taken : List Event → List String
taken [] = []
taken (did (submit job_id) ∷ es) = job_id ∷ taken es
taken (did (hand_over job_id scanner) ∷ es) = job_id ∷ taken es
taken (_ ∷ es) = taken es

if_given :
    (b : Bool) (rest : List Event)
    → given rest ≡ taken rest
    → given (if b then rest else []) ≡ taken (if b then rest else [])
if_given true rest h = h
if_given false rest h = refl

poll_round-given :
    (busy : Bool) (reply : Error × String × String) (client_sleep backoff : ℕ) (tail : List Event)
    → given tail ≡ taken tail
    → given (asked busy reply (did (poll_round busy reply client_sleep backoff).0 ∷ tail))
      ≡ taken (asked busy reply (did (poll_round busy reply client_sleep backoff).0 ∷ tail))
unfolding poll_round
poll_round-given true (err, job_id, scanner) client_sleep backoff tail h = h
poll_round-given false (err, job_id, scanner) client_sleep backoff tail h =
    elim (Bool-cases (is_nil err)) [
      | inr failed ↦ rw failed h
      | inl ok ↦ rw ok (elim (Bool-cases (is_empty job_id)) [
        | inr job ↦ rw job (ap (λ js. job_id ∷ js) h)
        | inl no_job ↦ rw no_job (elim (Bool-cases (ltb 0 client_sleep)) [
          | inl sleeps ↦ rw sleeps h
          | inr goes ↦ rw goes h
        ])
      ])
    ]

dispatch_round-given :
    (reply : Error × String × String) (client_sleep backoff : ℕ) (tail : List Event)
    → given tail ≡ taken tail
    → given (polled reply ∷ did (dispatch_round reply client_sleep backoff).0 ∷ tail)
      ≡ taken (polled reply ∷ did (dispatch_round reply client_sleep backoff).0 ∷ tail)
unfolding dispatch_round
dispatch_round-given (err, job_id, scanner) client_sleep backoff tail h =
    elim (Bool-cases (is_nil err)) [
      | inr failed ↦ rw failed (elim (Bool-cases (error_is err Sentinel.cluster_revoked)) [
        | inl revoked ↦ rw revoked h
        | inr other ↦ rw other h
      ])
      | inl ok ↦ rw ok (elim (Bool-cases (is_empty job_id)) [
        | inr job ↦ rw job (ap (λ js. job_id ∷ js) h)
        | inl no_job ↦ rw no_job (elim (Bool-cases (ltb 0 client_sleep)) [
          | inl sleeps ↦ rw sleeps h
          | inr goes ↦ rw goes h
        ])
      ])
    ]

poll_loop-given :
    (max : ℤ) (client_sleep backoff : ℕ) (rs : List Round)
    → given (poll_loop max client_sleep backoff rs) ≡ taken (poll_loop max client_sleep backoff rs)
unfolding poll_loop
poll_loop-given max client_sleep backoff [] = refl
poll_loop-given max client_sleep backoff (r ∷ rs) = elim (Bool-cases r.ended) [
  | inl ended ↦ rw ended refl
  | inr live ↦ rw live (
      let round = poll_round (leb_ℤ max r.active) r.reply client_sleep backoff in
      poll_round-given (leb_ℤ max r.active) r.reply client_sleep backoff _ (
        if_given (goes_on round.0 r.slept) (poll_loop max client_sleep round.1 rs)
          (poll_loop-given max client_sleep round.1 rs)))
]

dispatch_loop-given :
    (client_sleep backoff : ℕ) (rs : List Round)
    → given (dispatch_loop client_sleep backoff rs) ≡ taken (dispatch_loop client_sleep backoff rs)
unfolding dispatch_loop
dispatch_loop-given client_sleep backoff [] = refl
dispatch_loop-given client_sleep backoff (r ∷ rs) = elim (Bool-cases r.ended) [
  | inl ended ↦ rw ended refl
  | inr live ↦ rw live (
      let round = dispatch_round r.reply client_sleep backoff in
      dispatch_round-given r.reply client_sleep backoff _ (
        if_given (goes_on round.0 r.slept) (dispatch_loop client_sleep round.1 rs)
          (dispatch_loop-given client_sleep round.1 rs)))
]

-- Whatever the server, the pool and the context do: the worker's loop submits, and the dispatcher's
-- loop hands over, the jobs that its polls gave it, each once and in their order.
pub given-taken :
    (max : ℤ) (client_sleep backoff : ℕ) (rs : List Round)
    → (given (poll_loop max client_sleep backoff rs)
        ≡ taken (poll_loop max client_sleep backoff rs))
      × (given (dispatch_loop client_sleep backoff rs)
          ≡ taken (dispatch_loop client_sleep backoff rs))
given-taken max client_sleep backoff rs =
    (poll_loop-given max client_sleep backoff rs, dispatch_loop-given client_sleep backoff rs)
