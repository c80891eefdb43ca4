-- ===== src/Import/Keeps.antt =====
-- What the pushes and the waits leave alone, the import of a result leaves alone.
use rediver_sdk_go.Prelude.{
  ℕ, zero, suc, ◌≡◌, refl, ◌∙◌, inl, inr, Bool-cases, List, [], ◌∷◌, ℤ, String, length, ltb,
}
use rediver_sdk_go.Errors.{Error}
use rediver_sdk_go.Retry.{FloatArith, RetryPolicy}
use rediver_sdk_go.Retry.Keeps.{do_retry-view}
use rediver_sdk_go.Result.{Domain, Service, WebFinding, SastFinding, Result}
use rediver_sdk_go.Result.Accessors.{get_domains, get_services, get_web_findings, get_sast_findings}
use rediver_sdk_go.Convert.Message.{DnsRecord, ProtoService, ProtoWebFinding, ProtoCodeFinding}
use rediver_sdk_go.Convert.Assets.{to_proto_domains, to_proto_services}
use rediver_sdk_go.Convert.Findings.{to_proto_web_findings, to_proto_sast_findings}
use rediver_sdk_go.Import.{
  for_batches, Plane, retried, import_domains, import_services, import_web_findings,
  import_sast_findings, fill_commit_sha, import_result, when_any,
}

module _ {ℓ} {A : Type ℓ} {W X : Type 0} (view : W → X) where
  for_batches-view :
      (send : List A → W → W)
      → ((b : List A) (w : W) → view (send b w) ≡ view w)
      → (fuel i : ℕ) (xs : List A) (w : W) → view (for_batches send fuel i xs w) ≡ view w
  unfolding for_batches
  for_batches-view send h zero i xs w = refl
  for_batches-view send h (suc fuel) i xs w = elim (Bool-cases (ltb i (length xs))) [
    | inl more ↦ rw more (for_batches-view send h fuel _ xs _ ∙ h _ w)
    | inr over ↦ rw over refl
  ]

  when_any-view :
      (xs : List A) (f : List A → W → W)
      → ((ys : List A) (w : W) → view (f ys w) ≡ view w)
      → (w : W) → view (when_any xs f w) ≡ view w
  when_any-view [] f h w = refl
  when_any-view (x ∷ xs) f h w = h (x ∷ xs) w

module _ {W F T G X : Type 0} (fl : FloatArith F) (policy : RetryPolicy F) (p : Plane W F T G)
    (view : W → X)
    (domains_keep : (xs : List DnsRecord) (w : W) → view (p.push_domains xs w).1 ≡ view w)
    (services_keep : (xs : List (ProtoService T)) (w : W) → view (p.push_services xs w).1 ≡ view w)
    (web_keep : (xs : List (ProtoWebFinding G)) (w : W)
      → view (p.push_web_findings xs w).1 ≡ view w)
    (code_keep : (xs : List (ProtoCodeFinding G)) (w : W)
      → view (p.push_code_findings xs w).1 ≡ view w)
    (wait_keeps : (d : ℤ) (w : W) → view (p.wait d w).1 ≡ view w) where
  retried-view :
      (call : W → Error × W)
      → ((w : W) → view (call w).1 ≡ view w)
      → (w : W) → view (retried fl policy p call w) ≡ view w
  unfolding retried
  retried-view call h w = do_retry-view fl policy _ view h wait_keeps w

  import_domains-view : (xs : List Domain) (w : W) → view (import_domains fl policy p xs w) ≡ view w
  unfolding import_domains
  import_domains-view xs w =
      let api = to_proto_domains xs in
      for_batches-view view _ (λ b. retried-view (p.push_domains b) (domains_keep b)) (length api) 0
        api w

  import_services-view :
      (xs : List Service) (w : W) → view (import_services fl policy p xs w) ≡ view w
  unfolding import_services
  import_services-view xs w =
      let api = to_proto_services p.parse_time xs in
      for_batches-view view _ (λ b. retried-view (p.push_services b) (services_keep b)) (length api)
        0 api w

  import_web-view :
      (xs : List (WebFinding G)) (w : W) → view (import_web_findings fl policy p xs w) ≡ view w
  unfolding import_web_findings
  import_web-view xs w =
      let api = to_proto_web_findings p.is_zero_float xs in
      retried-view (p.push_web_findings api) (web_keep api) w

  import_sast-view :
      (xs : List (SastFinding G)) (w : W) → view (import_sast_findings fl policy p xs w) ≡ view w
  unfolding import_sast_findings
  import_sast-view xs w =
      let api = to_proto_sast_findings p.is_zero_float xs in
      retried-view (p.push_code_findings api) (code_keep api) w

  pub import_result-view :
      (res : Result G) (head_sha : String) (w : W)
      → view (import_result fl policy p res head_sha w) ≡ view w
  unfolding import_result
  import_result-view res head_sha w =
      when_any-view view (get_sast_findings res) _
        (λ fs. import_sast-view (fill_commit_sha head_sha fs)) _
      ∙ when_any-view view (get_web_findings res) _ import_web-view _
      ∙ when_any-view view (get_services res) _ import_services-view _
      ∙ when_any-view view (get_domains res) _ import_domains-view w
