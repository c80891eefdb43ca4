-- ===== src/Agent/Delivery/Results.antt =====
-- importResult of agent_import.go as a whole, and all the results of a job.
use rediver_sdk_go.Prelude.{◌≡◌, refl, sym, ap, ◌∙◌, true, String, List, [], ◌∷◌, append-nil}
use rediver_sdk_go.Errors.{is_nil}
use rediver_sdk_go.Result.{Domain, Service, WebFinding, SastFinding, Result}
use rediver_sdk_go.Result.Accessors.{get_domains, get_services, get_web_findings, get_sast_findings}
use rediver_sdk_go.Convert.Assets.{to_proto_domains, to_proto_services}
use rediver_sdk_go.Convert.Findings.{to_proto_web_findings, to_proto_sast_findings}
use rediver_sdk_go.Import.{
  import_domains, import_services, import_web_findings, import_sast_findings, fill_commit_sha,
  when_any, import_result,
}
use rediver_sdk_go.Agent.Rpc.{World}
use rediver_sdk_go.Agent.Execute.{Agent, job_plane, import_results}
use rediver_sdk_go.Agent.Delivery.{
  Pushed, add_domains, add_services, add_web_findings, add_code_findings, pushed, Encodes, IsLive,
  Delivers, import_domains-Delivers, import_services-Delivers, import_web_findings-Delivers,
  import_sast_findings-Delivers,
}

module _ {S F O T G : Type 0} (a : Agent S F O T G) (jwt : String) where
  -- A part that is imported only where it is there.
  when_any-Delivers {ℓ} :
      {A : Type ℓ} (xs : List A) (f : List A → World S O T G → World S O T G)
      (add : List A → Pushed T G → Pushed T G) (w : World S O T G)
      → ((p : Pushed T G) → p ≡ add [] p)
      → Delivers a jwt (add xs) w (f xs w)
      → Delivers a jwt (add xs) w (when_any xs f w)
  unfolding Delivers
  when_any-Delivers [] f add w empty d = (empty (pushed w.history), refl)
  when_any-Delivers (x ∷ xs) f add w empty d = d

  still_live : (s t : S) → t ≡ s → is_nil (a.clock.done s) ≡ true → is_nil (a.clock.done t) ≡ true
  still_live s t q live = ap (λ l. is_nil (a.clock.done l)) q ∙ live

  domains-Delivers :
      (ds : List Domain) (w : World S O T G)
      → Encodes a jwt
      → IsLive a jwt w
      → Delivers a jwt
          (add_domains (to_proto_domains ds))
          w
          (when_any ds (import_domains a.float a.retry_policy (job_plane a jwt)) w)
  unfolding to_proto_domains
  domains-Delivers ds w encodes live =
      when_any-Delivers ds _ (λ xs. add_domains (to_proto_domains xs)) w
        (λ p. ap (λ l. record p { domains = l }) (sym (append-nil p.domains)))
        (import_domains-Delivers a jwt ds w encodes live)

  services-Delivers :
      (ss : List Service) (w : World S O T G)
      → Encodes a jwt
      → IsLive a jwt w
      → Delivers a jwt
          (add_services (to_proto_services a.clock.parse_time ss))
          w
          (when_any ss (import_services a.float a.retry_policy (job_plane a jwt)) w)
  unfolding to_proto_services
  services-Delivers ss w encodes live =
      when_any-Delivers ss _ (λ xs. add_services (to_proto_services a.clock.parse_time xs)) w
        (λ p. ap (λ l. record p { services = l }) (sym (append-nil p.services)))
        (import_services-Delivers a jwt ss w encodes live)

  web_findings-Delivers :
      (fs : List (WebFinding G)) (w : World S O T G)
      → Encodes a jwt
      → IsLive a jwt w
      → Delivers a jwt
          (add_web_findings (to_proto_web_findings a.clock.is_zero_float fs))
          w
          (when_any fs (import_web_findings a.float a.retry_policy (job_plane a jwt)) w)
  unfolding to_proto_web_findings
  web_findings-Delivers fs w encodes live =
      when_any-Delivers fs _
        (λ xs. add_web_findings (to_proto_web_findings a.clock.is_zero_float xs)) w
        (λ p. ap (λ l. record p { web_findings = l }) (sym (append-nil p.web_findings)))
        (import_web_findings-Delivers a jwt fs w encodes live)

  sast_findings-Delivers :
      (head_sha : String) (fs : List (SastFinding G)) (w : World S O T G)
      → Encodes a jwt
      → IsLive a jwt w
      → Delivers a jwt
          (add_code_findings
            (to_proto_sast_findings a.clock.is_zero_float (fill_commit_sha head_sha fs)))
          w
          (when_any fs
            (λ xs.
              import_sast_findings a.float a.retry_policy
                (job_plane a jwt)
                (fill_commit_sha head_sha xs))
            w)
  unfolding to_proto_sast_findings fill_commit_sha
  sast_findings-Delivers head_sha fs w encodes live =
      when_any-Delivers fs _
        (λ xs.
          add_code_findings
            (to_proto_sast_findings a.clock.is_zero_float (fill_commit_sha head_sha xs)))
        w (λ p. ap (λ l. record p { code_findings = l }) (sym (append-nil p.code_findings)))
        (import_sast_findings-Delivers a jwt (fill_commit_sha head_sha fs) w encodes live)

  -- What `importResult` pushes of a result.
  abbrev pub add_result : String → Result G → Pushed T G → Pushed T G
  add_result head_sha res p =
      add_code_findings
        (to_proto_sast_findings a.clock.is_zero_float
          (fill_commit_sha head_sha (get_sast_findings res)))
        (add_web_findings (to_proto_web_findings a.clock.is_zero_float (get_web_findings res)) (
          add_services (to_proto_services a.clock.parse_time (get_services res))
            (add_domains (to_proto_domains (get_domains res)) p)))

  -- `importResult` pushes it, and no more.
  import_result-Delivers :
      (head_sha : String) (res : Result G) (w : World S O T G)
      → Encodes a jwt
      → IsLive a jwt w
      → Delivers a jwt
          (add_result head_sha res)
          w
          (import_result a.float a.retry_policy (job_plane a jwt) res head_sha w)
  unfolding import_result Delivers
  import_result-Delivers head_sha res w encodes live =
      let d1 = domains-Delivers (get_domains res) w encodes live in
      let live1 = still_live _ _ d1.1 live in
      let d2 = services-Delivers (get_services res) _ encodes live1 in
      let live2 = still_live _ _ d2.1 live1 in
      let d3 = web_findings-Delivers (get_web_findings res) _ encodes live2 in
      let live3 = still_live _ _ d3.1 live2 in
      let d4 = sast_findings-Delivers head_sha (get_sast_findings res) _ encodes live3 in
      (
        d4.0
            ∙ ap (add_code_findings _)
                (d3.0 ∙ ap (add_web_findings _) (d2.0 ∙ ap (add_services _) d1.0)),
        d4.1 ∙ d3.1 ∙ d2.1 ∙ d1.1,
      )

  abbrev pub add_results : String → List (Result G) → Pushed T G → Pushed T G
  add_results head_sha [] p = p
  add_results head_sha (res ∷ results) p = add_results head_sha results (add_result head_sha res p)

  -- Under a context that lives, and where every message can be encoded: whatever the server answers
  -- to the pushes, each domain, service, web finding and SAST finding of the results that a handler
  -- emits is pushed to it, converted, exactly once and in order, and nothing else is pushed.
  pub import_results-pushed :
      (head_sha : String) (results : List (Result G)) (w : World S O T G)
      → Encodes a jwt
      → IsLive a jwt w
      → pushed (import_results a jwt head_sha results w).history
        ≡ add_results head_sha results (pushed w.history)
  unfolding import_results Delivers
  import_results-pushed head_sha [] w encodes live = refl
  import_results-pushed head_sha (res ∷ results) w encodes live =
      let d = import_result-Delivers head_sha res w encodes live in
      import_results-pushed head_sha results _ encodes (still_live _ _ d.1 live)
      ∙ ap (add_results head_sha results) d.0
