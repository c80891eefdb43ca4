-- ===== src/Result/Accessors.antt =====
-- The constructors and accessors of Result in result.go.
use rediver_sdk_go.Prelude.{
  ◌≡◌, refl, Bool, ◌||◌, Option, none, some, List, [], ◌∷◌, map, length, ltb, ap,
}
use rediver_sdk_go.Result.{Domain, Service, WebFinding, SastFinding, Finding, Result}

abbrev push_some {ℓ} : {A : Type ℓ} → Option A → List A → List A
push_some none xs = xs
push_some (some x) xs = x ∷ xs

module _ {G : Type 0} where
  -- `Domains(domains...)`
  unfoldable pub of_domains : List Domain → Result G
  of_domains domains = record { domains = domains; services = []; findings = [] }

  -- `Services(services...)`
  unfoldable pub of_services : List Service → Result G
  of_services services = record { domains = []; services = services; findings = [] }

  -- `WebFindings(findings...)`
  unfoldable pub of_web_findings : List (WebFinding G) → Result G
  of_web_findings fs = record {
    domains = [];
    services = [];
    findings = map (λ f. record { web = some f; sast = none }) fs;
  }

  -- `SASTFindings(findings...)`
  unfoldable pub of_sast_findings : List (SastFinding G) → Result G
  of_sast_findings fs = record {
    domains = [];
    services = [];
    findings = map (λ f. record { web = none; sast = some f }) fs;
  }

  unfoldable pub get_domains : Result G → List Domain
  get_domains r = r.domains

  unfoldable pub get_services : Result G → List Service
  get_services r = r.services

  web_of : List (Finding G) → List (WebFinding G)
  web_of [] = []
  web_of (f ∷ fs) = push_some f.web (web_of fs)

  sast_of : List (Finding G) → List (SastFinding G)
  sast_of [] = []
  sast_of (f ∷ fs) = push_some f.sast (sast_of fs)

  unfoldable pub get_web_findings : Result G → List (WebFinding G)
  unfolding web_of
  get_web_findings r = web_of r.findings

  unfoldable pub get_sast_findings : Result G → List (SastFinding G)
  unfolding sast_of
  get_sast_findings r = sast_of r.findings

  unfoldable pub has_data : Result G → Bool
  has_data r = ltb 0 (length r.domains) || ltb 0 (length r.services) || ltb 0 (length r.findings)

  web_of-web : (fs : List (WebFinding G)) → get_web_findings (of_web_findings fs) ≡ fs
  unfolding get_web_findings of_web_findings
  web_of-web [] = refl
  web_of-web (f ∷ fs) = ap (λ l. f ∷ l) (web_of-web fs)

  sast_of-web : (fs : List (WebFinding G)) → get_sast_findings (of_web_findings fs) ≡ []
  unfolding get_sast_findings of_web_findings
  sast_of-web [] = refl
  sast_of-web (f ∷ fs) = sast_of-web fs

  sast_of-sast : (fs : List (SastFinding G)) → get_sast_findings (of_sast_findings fs) ≡ fs
  unfolding get_sast_findings of_sast_findings
  sast_of-sast [] = refl
  sast_of-sast (f ∷ fs) = ap (λ l. f ∷ l) (sast_of-sast fs)

  web_of-sast : (fs : List (SastFinding G)) → get_web_findings (of_sast_findings fs) ≡ []
  unfolding get_web_findings of_sast_findings
  web_of-sast [] = refl
  web_of-sast (f ∷ fs) = web_of-sast fs
