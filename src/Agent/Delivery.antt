-- ===== src/Agent/Delivery.antt =====
-- What importResult of agent_import.go delivers to the server.
pub mod Results
use rediver_sdk_go.Prelude.{
  ◌≡◌, refl, sym, ap, subst, ◌∙◌, inl, inr, true, Bool-cases, not, String, List, [], ◌∷◌, ◌++◌,
  append-nil, append_assoc, concat, length,
}
use rediver_sdk_go.Errors.{Error, is_nil}
use rediver_sdk_go.Result.{Domain, Service, WebFinding, SastFinding, Result}
use rediver_sdk_go.Result.Accessors.{get_domains, get_services, get_web_findings, get_sast_findings}
use rediver_sdk_go.Convert.Message.{DnsRecord, ProtoService, ProtoWebFinding, ProtoCodeFinding}
use rediver_sdk_go.Convert.Assets.{to_proto_domains, to_proto_services}
use rediver_sdk_go.Convert.Findings.{to_proto_web_findings, to_proto_sast_findings}
use rediver_sdk_go.Import.{
  for_batches, retried, import_domains, import_services, import_web_findings, import_sast_findings,
  fill_commit_sha, when_any, import_result,
}
use rediver_sdk_go.Import.Batches.{batches, send_all, for_batches_lem}
use rediver_sdk_go.Agent.Rpc.{
  Rpc, Request, World, auth_header, push_domains, push_services, push_web_findings,
  push_code_findings, call_rpc, push,
}
use rediver_sdk_go.Agent.Execute.{Agent, job_plane}
use rediver_sdk_go.Agent.Once.{retries_never}

-- What was pushed, each kind in the order of the pushes.
pub record Pushed (T G : Type 0) : Type 0 where
  pub domains : List DnsRecord
  pub services : List (ProtoService T)
  pub web_findings : List (ProtoWebFinding G)
  pub code_findings : List (ProtoCodeFinding G)

module _ {T G : Type 0} where
  abbrev pub add_domains : List DnsRecord → Pushed T G → Pushed T G
  add_domains xs p = record p { domains = p.domains ++ xs }

  abbrev pub add_services : List (ProtoService T) → Pushed T G → Pushed T G
  add_services xs p = record p { services = p.services ++ xs }

  abbrev pub add_web_findings : List (ProtoWebFinding G) → Pushed T G → Pushed T G
  add_web_findings xs p = record p { web_findings = p.web_findings ++ xs }

  abbrev pub add_code_findings : List (ProtoCodeFinding G) → Pushed T G → Pushed T G
  add_code_findings xs p = record p { code_findings = p.code_findings ++ xs }

module _ {O T G : Type 0} where
  -- The pushes among the calls, which are kept newest first.
  unfoldable pub pushed : List (Request O T G) → Pushed T G
  pushed [] = record { domains = []; services = []; web_findings = []; code_findings = [] }
  pushed ((h, push_domains xs) ∷ rs) = add_domains xs (pushed rs)
  pushed ((h, push_services xs) ∷ rs) = add_services xs (pushed rs)
  pushed ((h, push_web_findings xs) ∷ rs) = add_web_findings xs (pushed rs)
  pushed ((h, push_code_findings xs) ∷ rs) = add_code_findings xs (pushed rs)
  pushed ((h, _) ∷ rs) = pushed rs

module _ {S F O T G : Type 0} (a : Agent S F O T G) (jwt : String) where
  -- The server can be sent every message.
  abbrev pub Encodes : Type 0
  Encodes = (rpc : Rpc O T G) → is_nil (a.server.transcode rpc) ≡ true

  abbrev pub IsLive : World S O T G → Type 0
  IsLive w = is_nil (a.clock.done w.local) ≡ true

  abbrev sent_with : Rpc O T G → World S O T G → World S O T G
  sent_with rpc w = record w {
    history = (auth_header jwt a.token_manager.agent_token, rpc) ∷ w.history;
  }

  push_once :
      (prefix : String) (rpc : Rpc O T G) (w : World S O T G)
      → Encodes
      → IsLive w
      → retried a.float a.retry_policy
          (job_plane a jwt)
          (push a.server a.token_manager jwt prefix rpc)
          w
        ≡ sent_with rpc w
  unfolding push call_rpc
  push_once prefix rpc w encodes live =
      (retries_never a jwt prefix rpc w live).1 ∙ rw (encodes rpc) refl

  abbrev all_sent {ℓ} :
      {A : Type ℓ} → (List A → Rpc O T G) → List (List A) → World S O T G → World S O T G
  all_sent con [] w = w
  all_sent con (b ∷ bs) w = all_sent con bs (sent_with (con b) w)

  send_all-all_sent {ℓ} :
      {A : Type ℓ} (prefix : String) (con : List A → Rpc O T G) (bs : List (List A))
      (w : World S O T G)
      → Encodes
      → IsLive w
      → send_all
          (λ b.
            retried a.float a.retry_policy
              (job_plane a jwt)
              (push a.server a.token_manager jwt prefix (con b)))
          bs
          w
        ≡ all_sent con bs w
  send_all-all_sent prefix con [] w encodes live = refl
  send_all-all_sent prefix con (b ∷ bs) w encodes live =
      ap
        (send_all
          (λ b.
            retried a.float a.retry_policy (job_plane a jwt)
              (push a.server a.token_manager jwt prefix (con b)))
          bs)
        (push_once prefix (con b) w encodes live)
      ∙ send_all-all_sent prefix con bs (sent_with (con b) w) encodes live

  -- From one world to another `add` was pushed, and the context still lives.
  unfoldable pub Delivers : (Pushed T G → Pushed T G) → World S O T G → World S O T G → Type 0
  Delivers add w w' = (pushed w'.history ≡ add (pushed w.history)) × (w'.local ≡ w.local)

  all_sent-domains :
      (bs : List (List DnsRecord)) (w : World S O T G)
      → Delivers (add_domains (concat bs)) w (all_sent push_domains bs w)
  unfolding Delivers pushed
  all_sent-domains [] w =
      (ap (λ l. record (pushed w.history) { domains = l }) (sym (append-nil _)), refl)
  all_sent-domains (b ∷ bs) w =
      let (p, q) = all_sent-domains bs (sent_with (push_domains b) w) in
      (
        p
            ∙ ap (λ l. record (pushed w.history) { domains = l })
                (append_assoc (pushed w.history).domains b (concat bs)),
        q,
      )

  all_sent-services :
      (bs : List (List (ProtoService T))) (w : World S O T G)
      → Delivers (add_services (concat bs)) w (all_sent push_services bs w)
  unfolding Delivers pushed
  all_sent-services [] w =
      (ap (λ l. record (pushed w.history) { services = l }) (sym (append-nil _)), refl)
  all_sent-services (b ∷ bs) w =
      let (p, q) = all_sent-services bs (sent_with (push_services b) w) in
      (
        p
            ∙ ap (λ l. record (pushed w.history) { services = l })
                (append_assoc (pushed w.history).services b (concat bs)),
        q,
      )

  -- The batches of a list deliver the list.
  in_batches {ℓ} :
      {A : Type ℓ} (prefix : String) (con : List A → Rpc O T G)
      (add : List A → Pushed T G → Pushed T G)
      (delivers : (bs : List (List A)) (w : World S O T G)
        → Delivers (add (concat bs)) w (all_sent con bs w))
      (xs : List A) (w : World S O T G)
      → Encodes
      → IsLive w
      → Delivers (add xs) w (
          for_batches
            (λ b.
              retried a.float a.retry_policy
                (job_plane a jwt)
                (push a.server a.token_manager jwt prefix (con b)))
            (length xs)
            0
            xs
            w)
  in_batches prefix con add delivers xs w encodes live =
      let r =
        for_batches_lem
          (λ b.
            retried a.float a.retry_policy (job_plane a jwt)
              (push a.server a.token_manager jwt prefix (con b)))
          xs w in
      subst (Delivers (add xs) w)
        (sym (r.0 ∙ send_all-all_sent prefix con (batches (length xs) 0 xs) w encodes live))
        (subst (λ l. Delivers (add l) w (all_sent con (batches (length xs) 0 xs) w)) r.1
          (delivers (batches (length xs) 0 xs) w))

  pub import_domains-Delivers :
      (ds : List Domain) (w : World S O T G)
      → Encodes
      → IsLive w
      → Delivers
          (add_domains (to_proto_domains ds))
          w
          (import_domains a.float a.retry_policy (job_plane a jwt) ds w)
  unfolding import_domains job_plane
  import_domains-Delivers ds w encodes live =
      in_batches "push assets" push_domains add_domains all_sent-domains (to_proto_domains ds) w
        encodes live

  pub import_services-Delivers :
      (ss : List Service) (w : World S O T G)
      → Encodes
      → IsLive w
      → Delivers
          (add_services (to_proto_services a.clock.parse_time ss))
          w
          (import_services a.float a.retry_policy (job_plane a jwt) ss w)
  unfolding import_services job_plane
  import_services-Delivers ss w encodes live =
      in_batches "push assets" push_services add_services all_sent-services
        (to_proto_services a.clock.parse_time ss) w encodes live

  pub import_web_findings-Delivers :
      (fs : List (WebFinding G)) (w : World S O T G)
      → Encodes
      → IsLive w
      → Delivers
          (add_web_findings (to_proto_web_findings a.clock.is_zero_float fs))
          w
          (import_web_findings a.float a.retry_policy (job_plane a jwt) fs w)
  unfolding import_web_findings job_plane Delivers pushed
  import_web_findings-Delivers fs w encodes live =
      let e =
        push_once "push findings"
          (push_web_findings (to_proto_web_findings a.clock.is_zero_float fs)) w encodes live in
      (ap (λ (v : World S O T G). pushed v.history) e, ap (λ (v : World S O T G). v.local) e)

  pub import_sast_findings-Delivers :
      (fs : List (SastFinding G)) (w : World S O T G)
      → Encodes
      → IsLive w
      → Delivers
          (add_code_findings (to_proto_sast_findings a.clock.is_zero_float fs))
          w
          (import_sast_findings a.float a.retry_policy (job_plane a jwt) fs w)
  unfolding import_sast_findings job_plane Delivers pushed
  import_sast_findings-Delivers fs w encodes live =
      let e =
        push_once "push findings"
          (push_code_findings (to_proto_sast_findings a.clock.is_zero_float fs)) w encodes live in
      (ap (λ (v : World S O T G). pushed v.history) e, ap (λ (v : World S O T G). v.local) e)
