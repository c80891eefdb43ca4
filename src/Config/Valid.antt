-- ===== src/Config/Valid.antt =====
-- What every configuration satisfies that options produce.
use rediver_sdk_go.Prelude.{
  ◌*◌, ◌≡◌, refl, inl, inr, true, ◌||◌, none, some, List, [], ◌∷◌, String, str_eq, pos, leb_ℤ,
  is_pos, arith, Option-cases, sym, subst,
}
use rediver_sdk_go.Retry.{second, FloatArith}
use rediver_sdk_go.Config.{
  polling, long_polling, max_long_poll_wait, AgentConfig, AgentOption,
  with_dispatcher_metadata_sync, default_agent_config, apply, apply_all,
}

pub record IsValid {F L : Type 0} (c : AgentConfig F L) : Type 0 where
  pub concurrent : is_pos c.max_concurrency ≡ true
  pub slow_enough : leb_ℤ (pos (1 * second)) c.poll_interval ≡ true
  pub mode : (str_eq c.dispatch_mode polling || str_eq c.dispatch_mode long_polling) ≡ true
  pub waits : is_pos c.long_poll_wait ≡ true
  pub waits_at_most : leb_ℤ c.long_poll_wait max_long_poll_wait ≡ true

module _ {F L : Type 0} (fl : FloatArith F) where
  default_agent_config-IsValid :
      (logger : L) (hostname : String) → IsValid (default_agent_config fl logger hostname)
  unfolding default_agent_config
  default_agent_config-IsValid logger hostname = record {
    concurrent = refl;
    slow_enough = refl;
    mode = refl;
    waits = refl;
    waits_at_most = refl;
  }

  apply-IsValid :
      (o : AgentOption F L) (c : AgentConfig F L) {d : AgentConfig F L}
      → IsValid c
      → apply fl o c ≡ some d
      → IsValid d
  unfolding apply
  apply-IsValid with_dispatcher_metadata_sync c v h = ground arith
  apply-IsValid _ c v h = ground arith

  apply_all-IsValid_from :
      (os : List (AgentOption F L)) (c : AgentConfig F L) {d : AgentConfig F L}
      → IsValid c
      → apply_all fl os c ≡ some d
      → IsValid d
  unfolding apply_all
  apply_all-IsValid_from [] c {d} v h = let e : c ≡ d = cc h in subst IsValid e v
  apply_all-IsValid_from (o ∷ os) c {d} v h = elim (Option-cases (apply fl o c)) [
    | inl panics ↦ cc (the_panic panics)
    | inr (c', applied) ↦
        apply_all-IsValid_from os c' (apply-IsValid o c v applied) (the_rest c' applied)
  ]
    where
      the_panic : apply fl o c ≡ none → none ≡ some d
      the_panic e = sym (ground (arith, e, h))

      the_rest : (c' : AgentConfig F L) → apply fl o c ≡ some c' → apply_all fl os c' ≡ some d
      the_rest c' e = ground (arith, e, h)

  -- Whatever options are given, and in whatever order: if none panics, the configuration has a
  -- positive concurrency, a poll interval of at least a second, one of the two dispatch modes, and a
  -- long-poll wait above 0 and of at most 60 seconds.
  pub apply_all-IsValid :
      (os : List (AgentOption F L)) (logger : L) (hostname : String) {c : AgentConfig F L}
      → apply_all fl os (default_agent_config fl logger hostname) ≡ some c
      → IsValid c
  apply_all-IsValid os logger hostname h =
      apply_all-IsValid_from os _ (default_agent_config-IsValid logger hostname) h
