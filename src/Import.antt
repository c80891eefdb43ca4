-- ===== src/Import.antt =====
-- agent_import.go: a result is converted and pushed, domains and services in batches.
pub mod Batches
pub mod Keeps
use rediver_sdk_go.Prelude.{
  ℕ, zero, suc, ◌+◌, ◌-◌, ◌<◌, ◌≡◌, refl, Bool, true, false, ◌&&◌, String, Option, none, some, List,
  [], ◌∷◌, map, length, take, drop, min, ltb, ℤ, is_empty, non_empty, if◌then◌else◌,
}
use rediver_sdk_go.Errors.{Error, nil}
use rediver_sdk_go.Retry.{FloatArith, RetryPolicy, Surroundings, do_retry}
use rediver_sdk_go.Result.{Domain, Service, WebFinding, SastFinding, Result}
use rediver_sdk_go.Result.Accessors.{get_domains, get_services, get_web_findings, get_sast_findings}
use rediver_sdk_go.Convert.Message.{DnsRecord, ProtoService, ProtoWebFinding, ProtoCodeFinding}
use rediver_sdk_go.Convert.Assets.{to_proto_domains, to_proto_services}
use rediver_sdk_go.Convert.Findings.{to_proto_web_findings, to_proto_sast_findings}

abbrev pub agent_max_batch_size : ℕ
agent_max_batch_size = 500

-- `for i := 0; i < len(xs); i += agentMaxBatchSize`, with `xs[i:end]` handed to `send`. Each round
-- moves `i` on by the batch size, so a fuel of the list's length is enough.
unfoldable pub for_batches {ℓ κ} :
    {A : Type ℓ} {W : Type κ} → (List A → W → W) → (fuel i : ℕ) → List A → W → W
for_batches send zero i xs w = w
for_batches send (suc fuel) i xs w =
    let end = min (i + agent_max_batch_size) (length xs) in
    let chunk = take (end - i) (drop i xs) in
    let rest = for_batches send fuel (i + agent_max_batch_size) xs (send chunk w) in
    if ltb i (length xs) then rest else w

-- What the pushes meet: the RPCs, which carry the job token of the context, and what surrounds
-- their retries.
pub record Plane (W F T G : Type 0) : Type 0 where
  pub push_domains : List DnsRecord → W → Error × W
  pub push_services : List (ProtoService T) → W → Error × W
  pub push_web_findings : List (ProtoWebFinding G) → W → Error × W
  pub push_code_findings : List (ProtoCodeFinding G) → W → Error × W
  pub done : W → Error
  pub wait : ℤ → W → Error × W
  pub random : ℕ → F
  pub parse_time : String → Option T
  pub is_zero_float : G → Bool

module _ {W F T G : Type 0} (fl : FloatArith F) (policy : RetryPolicy F) (p : Plane W F T G) where
  -- `a.retrier.Do(ctx, …)`; an error is logged and dropped.
  unfoldable pub retried : (W → Error × W) → W → W
  retried call w =
      (do_retry fl policy (record { call = call; done = p.done; wait = p.wait; random = p.random })
        w).1

  unfoldable pub import_domains : List Domain → W → W
  unfolding retried for_batches
  import_domains domains w =
      let api = to_proto_domains domains in
      for_batches (λ chunk. retried (p.push_domains chunk)) (length api) 0 api w

  unfoldable pub import_services : List Service → W → W
  unfolding retried for_batches
  import_services services w =
      let api = to_proto_services p.parse_time services in
      for_batches (λ chunk. retried (p.push_services chunk)) (length api) 0 api w

  unfoldable pub import_web_findings : List (WebFinding G) → W → W
  unfolding retried
  import_web_findings findings w =
      retried (p.push_web_findings (to_proto_web_findings p.is_zero_float findings)) w

  unfoldable pub import_sast_findings : List (SastFinding G) → W → W
  unfolding retried
  import_sast_findings findings w =
      retried (p.push_code_findings (to_proto_sast_findings p.is_zero_float findings)) w

-- The loop that gives the head's SHA to the findings without a commit.
unfoldable pub fill_commit_sha : {G : Type 0} → String → List (SastFinding G) → List (SastFinding G)
fill_commit_sha head_sha [] = []
fill_commit_sha head_sha (f ∷ fs) =
    (if non_empty head_sha && is_empty f.commit_sha then record f { commit_sha = head_sha } else f)
    ∷ fill_commit_sha head_sha fs

abbrev pub when_any {ℓ} : {A : Type ℓ} {W : Type 0} → List A → (List A → W → W) → W → W
when_any [] f w = w
when_any (x ∷ xs) f w = f (x ∷ xs) w

module _ {W F T G : Type 0} (fl : FloatArith F) (policy : RetryPolicy F) (p : Plane W F T G) where
  -- `importResult`
  unfoldable pub import_result : Result G → String → W → W
  unfolding import_domains import_services import_web_findings import_sast_findings fill_commit_sha
      get_domains get_services get_web_findings get_sast_findings
  import_result res head_sha w =
      let w1 = when_any (get_domains res) (import_domains fl policy p) w in
      let w2 = when_any (get_services res) (import_services fl policy p) w1 in
      let w3 = when_any (get_web_findings res) (import_web_findings fl policy p) w2 in
      when_any (get_sast_findings res)
        (λ fs. import_sast_findings fl policy p (fill_commit_sha head_sha fs)) w3
