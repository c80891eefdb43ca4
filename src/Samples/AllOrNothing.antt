-- ===== src/Samples/AllOrNothing.antt =====
-- The sample scanners emit what they found in all their targets, or nothing.
use rediver_sdk_go.Prelude.{
  ◌≡◌, refl, sym, ap, ◌∙◌, inl, inr, ◌⊎◌, true, Bool-cases, List, [], ◌∷◌, ◌++◌, append-nil,
  append_assoc, map, concat, elems, non_empty, if◌then◌else◌,
}
use rediver_sdk_go.Errors.{Error, nil, is_nil}
use rediver_sdk_go.Result.{Domain, Result}
use rediver_sdk_go.Result.Accessors.{of_domains, of_services, of_web_findings}
use rediver_sdk_go.Job.Defs.{Job}
use rediver_sdk_go.Job.Targets.{DomainTarget, domains, services}
use rediver_sdk_go.Scanner.{ScanFunc}
use rediver_sdk_go.Samples.{Surroundings, each_target, emit_found}
use rediver_sdk_go.Samples.Probe.{probe, recheck, discover_services, retest_services}
use rediver_sdk_go.Samples.Subdomains.{
  domain_named, discover, recheck_round, discover_subdomains, retest_subdomains,
}
use rediver_sdk_go.Samples.Vulnerabilities.{attack, scan_vulnerabilities}

-- What the target of a retest has to be reported, if its value is set.
abbrev pub still_there : DomainTarget → List Domain
still_there t = if non_empty t.value then domain_named t.value ∷ [] else []

module _ {S F A B : Type 0} (env : Surroundings S F) where
  -- A loop that ends without an error has appended what belongs to each target.
  each_target-found :
      (body : A → List B → S → List B × S) (item : A → List B)
      → ((x : A) (found : List B) (s : S) → (body x found s).0 ≡ found ++ item x)
      → (xs : List A) (found : List B) (s : S) → is_nil (each_target env body xs found s).0.1 ≡ true
      → (each_target env body xs found s).0.0 ≡ found ++ concat (map item xs)
  unfolding each_target
  each_target-found body item adds [] found s ok = sym (append-nil found)
  each_target-found body item adds (x ∷ xs) found s ok = elim (Bool-cases (is_nil (env.done s))) [
    | inl y ↦ rw y (
        each_target-found body item adds xs _ _ (rw y at ok)
        ∙ ap (λ l. l ++ concat (map item xs)) (adds x found s)
        ∙ append_assoc found (item x) (concat (map item xs)))
    | inr n ↦ absurd (let h = rw n at ok in cc)
  ]

module _ {S F A B : Type 0} (env : Surroundings S F) where
  -- The error of a loop is nil, or that of the context where the loop ends.
  each_target-err :
      (body : A → List B → S → List B × S) (xs : List A) (found : List B) (s : S)
      → ((each_target env body xs found s).0.1 ≡ nil)
        ⊎ ((each_target env body xs found s).0.1 ≡ env.done (each_target env body xs found s).1)
  unfolding each_target
  each_target-err body [] found s = inl refl
  each_target-err body (x ∷ xs) found s = elim (Bool-cases (is_nil (env.done s))) [
    | inl y ↦ rw y (each_target-err body xs (body x found s).0 (body x found s).1)
    | inr n ↦ rw n (inr refl)
  ]

module _ {S F G B : Type 0} (env : Surroundings S F) where
  emit_found-err :
      (result : List B → Result G) (finish : List B → S → S) (out : (List B × Error) × S)
      → (out.0.1 ≡ nil) ⊎ (out.0.1 ≡ env.done out.1)
      → ((emit_found result finish out).0.1 ≡ nil)
        ⊎ ((emit_found result finish out).0.1 ≡ env.done (emit_found result finish out).1)
  unfolding emit_found
  emit_found-err result finish ((found, e), s) h = elim (Bool-cases (is_nil e)) [
    | inl y ↦ rw y (inl refl)
    | inr n ↦ rw n h
  ]

module _ {S G B : Type 0} where
  -- A handler that emits the result of such a loop.
  emit_found-all :
      (result : List B → Result G) (finish : List B → S → S) (want : List B)
      (out : (List B × Error) × S)
      → (is_nil out.0.1 ≡ true → out.0.0 ≡ want)
      → (emit_found result finish out).0.0
        ≡ (if is_nil (emit_found result finish out).0.1 then result want ∷ [] else [])
  unfolding emit_found
  emit_found-all result finish want ((found, e), s) h = elim (Bool-cases (is_nil e)) [
    | inl y ↦ rw y (ap (λ l. result l ∷ []) (h y))
    | inr n ↦ rw n (rw n refl)
  ]

module _ {S F G : Type 0} where
  -- A handler returns nil, or the error of the context as it is when the handler returns.
  abbrev pub IsOfContext : Surroundings S F → (List (Result G) × Error) × S → Type 0
  IsOfContext env out = (out.0.1 ≡ nil) ⊎ (out.0.1 ≡ env.done out.1)

  -- The handler of a loop whose rounds append what belongs to their target.
  loop-all :
      {A B : Type 0} (env : Surroundings S F) (result : List B → Result G) (finish : List B → S → S)
      (body : A → List B → S → List B × S) (item : A → List B) (xs : List A) (s : S)
      → ((x : A) (found : List B) (s : S) → (body x found s).0 ≡ found ++ item x)
      → (emit_found result finish (each_target env body xs [] s)).0.0 ≡ (
          if is_nil (emit_found result finish (each_target env body xs [] s)).0.1
          then result (concat (map item xs)) ∷ []
          else [])
        × IsOfContext env (emit_found result finish (each_target env body xs [] s))
  loop-all env result finish body item xs s adds = (
    emit_found-all result finish (concat (map item xs)) (each_target env body xs [] s)
        (each_target-found env body item adds xs [] s),
    emit_found-err env result finish (each_target env body xs [] s)
        (each_target-err env body xs [] s),
  )

module _ {S F : Type 0} where
  recheck_round-adds :
      (env : Surroundings S F) (t : DomainTarget) (found : List Domain) (s : S)
      → (recheck_round env t found s).0 ≡ found ++ still_there t
  unfolding recheck_round
  recheck_round-adds env t found s = elim (Bool-cases (non_empty t.value)) [
    | inl y ↦ rw y refl
    | inr n ↦ rw n (sym (append-nil found))
  ]

concat-singletons :
    {A B : Type 0} (f : A → B) (xs : List A) → concat (map (λ x. f x ∷ []) xs) ≡ map f xs
concat-singletons f [] = refl
concat-singletons f (x ∷ xs) = ap (λ l. f x ∷ l) (concat-singletons f xs)

module _ {S F O G : Type 0} where
  -- A handler emits `want` of the job where it returns nil, and nothing where it returns an error,
  -- which is the one of the context.
  abbrev pub AllOrNothing : Surroundings S F → ScanFunc S F O G → (Job F O → Result G) → Type 0
  AllOrNothing env handler want =
      (j : Job F O) (s : S)
      → ((handler j s).0.0 ≡ (if is_nil (handler j s).0.1 then want j ∷ [] else []))
        × IsOfContext env (handler j s)

  pub discover_services-AllOrNothing :
      (env : Surroundings S F)
      → AllOrNothing env
          (discover_services env)
          (λ j. of_services (concat (map probe (elems (domains j)))))
  unfolding discover_services
  discover_services-AllOrNothing env j s = loop-all env _ _ _ probe _ _ (λ x found s. refl)

  pub retest_services-AllOrNothing :
      (env : Surroundings S F)
      → AllOrNothing env (retest_services env) (λ j. of_services (map recheck (elems (services j))))
  unfolding retest_services
  retest_services-AllOrNothing env j s =
      rw (sym (concat-singletons recheck (elems (services j))))
        (loop-all env _ _ _ (λ svc. recheck svc ∷ []) _ _ (λ x found s. refl))

  -- Whatever the context does, each handler of the sample scanners either returns the error that the
  -- context has as it returns, and emits nothing, or returns nil and emits one result: three services for each domain
  -- of the job, five subdomains for each, two findings for each service; and in a retest one service
  -- for each service and one domain for each domain that has a value.
  pub samples-AllOrNothing :
      (env : Surroundings S F) (critical_score high_score : G)
      → AllOrNothing env
          (discover_services env)
          (λ j. of_services (concat (map probe (elems (domains j)))))
        × AllOrNothing env
            (retest_services env)
            (λ j. of_services (map recheck (elems (services j))))
        × AllOrNothing env
            (discover_subdomains env)
            (λ j. of_domains (concat (map discover (elems (domains j)))))
        × AllOrNothing env
            (retest_subdomains env)
            (λ j. of_domains (concat (map still_there (elems (domains j)))))
        × AllOrNothing env (scan_vulnerabilities env critical_score high_score) (λ j.
          of_web_findings (concat (map (attack critical_score high_score) (elems (services j)))))
  unfolding discover_subdomains retest_subdomains scan_vulnerabilities
  samples-AllOrNothing env critical_score high_score = (
    discover_services-AllOrNothing env,
    retest_services-AllOrNothing env,
    (λ j s. loop-all env _ _ _ discover _ _ (λ x found s. refl)),
    (λ j s. loop-all env _ _ (recheck_round env) still_there _ _ (recheck_round-adds env)),
    (λ j s. loop-all env _ _ _ (attack critical_score high_score) _ _ (λ x found s. refl)),
  )
