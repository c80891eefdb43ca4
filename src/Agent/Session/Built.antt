-- ===== src/Agent/Session/Built.antt =====
-- What NewAgent of agent.go promises of an agent that it returns.
use rediver_sdk_go.Prelude.{
  ◌≡◌, refl, subst, inl, inr, false, Bool-cases, Option-cases, String, is_empty, Option, none, some,
  List,
}
use rediver_sdk_go.Retry.{FloatArith, new_retrier}
use rediver_sdk_go.Config.{
  AgentConfig, AgentOption, default_agent_config, apply_all, resolve_agent_token,
  resolve_server_url,
}
use rediver_sdk_go.Config.Valid.{IsValid, apply_all-IsValid}
use rediver_sdk_go.Scanner.{Scanner}
use rediver_sdk_go.Agent.Session.{NewAgent, built, Surroundings, with_config, new_agent}

module _ {S F O G L : Type 0} (fl : FloatArith F) (env : Surroundings L) where
  -- The agent has the scanner, a token, which is the given one or else the one of the environment,
  -- and a valid configuration.
  pub record IsBuilt (token : String) (scanner : Option (Scanner S F O G)) (n : NewAgent S F O G L)
      : Type 0 where
    pub has_scanner : scanner ≡ some n.scanner
    pub has_token : is_empty n.agent_token ≡ false
    pub given_token : n.agent_token ≡ resolve_agent_token token env.env_token
    pub valid : IsValid n.config

  abbrev agent_of : String → Scanner S F O G → AgentConfig F L → NewAgent S F O G L
  agent_of token s c = record {
    scanner = s;
    scanner_name = env.to_lower s.name;
    config = c;
    agent_token = resolve_agent_token token env.env_token;
    server_url = resolve_server_url c.server_url env.env_url;
    retry_policy = new_retrier c.retry_policy;
  }

  agent_of-IsBuilt :
      (token : String) (s : Scanner S F O G) (c : AgentConfig F L) {n : NewAgent S F O G L}
      → IsValid c
      → is_empty (resolve_agent_token token env.env_token) ≡ false
      → built (agent_of token s c) ≡ built n
      → IsBuilt token (some s) n
  agent_of-IsBuilt token s c {n} v there h =
      let e : agent_of token s c ≡ n = cc h in
      subst (IsBuilt token (some s)) e
        (record { has_scanner = refl; has_token = there; given_token = refl; valid = v })

  with_config-IsBuilt :
      (token : String) (s : Scanner S F O G) (c : AgentConfig F L) {n : NewAgent S F O G L}
      → IsValid c
      → with_config fl env token s c ≡ built n
      → IsBuilt token (some s) n
  unfolding with_config
  with_config-IsBuilt token s c {n} v h =
      elim (Bool-cases (is_empty (resolve_agent_token token env.env_token))) [
        | inl missing ↦ cc (rw missing at h)
        | inr there ↦ agent_of-IsBuilt token s c v there (rw there at h)
      ]

  -- Where NewAgent returns an agent, whatever the options, the agent has the given scanner, a token
  -- that is not empty and that the argument or else the environment gives, and a valid
  -- configuration: a positive concurrency, a poll interval of at least a second, a known dispatch
  -- mode, and a long-poll wait above 0 and of at most 60 seconds.
  pub new_agent-IsBuilt :
      (token : String) (scanner : Option (Scanner S F O G)) (options : List (AgentOption F L))
      (n : NewAgent S F O G L)
      → new_agent fl env token scanner options ≡ built n
      → IsBuilt token scanner n
  unfolding new_agent
  new_agent-IsBuilt token none options n h = cc h
  new_agent-IsBuilt token (some s) options n h =
      elim (Option-cases (apply_all fl options (default_agent_config fl env.logger env.hostname))) [
        | inl panic ↦ cc (rw (panic, new_agent) at h)
        | inr (c, e) ↦
            with_config-IsBuilt token s c (apply_all-IsValid fl options env.logger env.hostname e)
              (rw (e, new_agent) at h)
      ]
