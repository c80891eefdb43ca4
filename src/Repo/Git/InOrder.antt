-- ===== src/Repo/Git/InOrder.antt =====
-- The commands that GitCheckout of utils/git.go runs.
use rediver_sdk_go.Prelude.{
  ◌≡◌, refl, sym, ap, ◌∙◌, ◌⊎◌, inl, inr, Bool, true, false, Bool-cases, String, non_empty, List,
  [], ◌∷◌, ◌++◌, ◌<>◌, append-nil, append_assoc, map, if◌then◌else◌,
}
use rediver_sdk_go.Strconv.{join}
use rediver_sdk_go.Errors.{Error, is_nil}
use rediver_sdk_go.Repo.Git.{
  Output, Machine, fetch_args, git_fetch, fetch_error, checkout, fetch_and_checkout, init_repo,
  git_checkout,
}

-- The arguments of a command of git.
abbrev pub Command : Type 0
Command = List String

module _ {S : Type 0} (m : Machine S) where
  -- The machine that keeps the commands that it runs.
  abbrev pub logged : Machine (S × List Command)
  logged = record {
    run = λ dir args v. ((m.run dir args v.0).0, ((m.run dir args v.0).1, v.1 ++ args ∷ []));
    mkdir_all = λ dir v. ((m.mkdir_all dir v.0).0, ((m.mkdir_all dir v.0).1, v.1));
    is_missing = λ path v. m.is_missing path v.0;
  }

  -- From a log on, either all commands of a plan were run, in order, and there is no error; or the
  -- first of them were run, there is an error, and the others were not run.
  pub Follows : List Command → List Command → Error × (S × List Command) → Type 0
  Follows plan log (e, (s, log')) =
      ((log' ≡ log ++ plan) × (is_nil e ≡ true))
      ⊎ ((run : List Command) × (rest : List Command) × (plan ≡ run ++ rest)
          × (log' ≡ log ++ run)
          × (is_nil e ≡ false))

  -- One plan after another.
  Follows-then :
      (p q log : List Command) (r r' : Error × (S × List Command))
      → Follows p log r
      → Follows q r.1.1 r'
      → Follows (p ++ q) log (if is_nil r.0 then r' else r)
  unfolding Follows
  Follows-then p q log (e, (s, l)) (e', (s', l')) (inl (a, ok)) (inl (b, ok')) =
      rw ok (inl (b ∙ ap (λ k. k ++ q) a ∙ append_assoc log p q, ok'))
  Follows-then p q log (e, (s, l)) (e', (s', l')) (inl (a, ok)) (inr (run, rest, x, y, bad)) =
      rw ok (
        inr (
          p ++ run,
          rest,
          ap (λ k. p ++ k) x ∙ sym (append_assoc p run rest),
          y ∙ ap (λ k. k ++ run) a ∙ append_assoc log p run,
          bad,
        ))
  Follows-then p q log (e, (s, l)) r' (inr (run, rest, x, y, bad)) h =
      rw bad (inr (run, rest ++ q, ap (λ k. k ++ q) x ∙ append_assoc run rest q, y, bad))

  -- One command more in front.
  Follows-next :
      (c : Command) (plan log : List Command) (r : Error × (S × List Command))
      → Follows plan (log ++ c ∷ []) r
      → Follows (c ∷ plan) log r
  unfolding Follows
  Follows-next c plan log (e, (s, l)) (inl (a, ok)) = inl (a ∙ append_assoc log (c ∷ []) plan, ok)
  Follows-next c plan log (e, (s, l)) (inr (run, rest, x, y, bad)) =
      inr (c ∷ run, rest, ap (λ k. c ∷ k) x, y ∙ append_assoc log (c ∷ []) run, bad)

  module _ (dir : String) where
    fetch_error-fails :
        (ref : String) (out : Output) → is_nil (fetch_error logged dir ref out) ≡ false
    unfolding fetch_error
    fetch_error-fails ref out = elim (Bool-cases (non_empty (join "; " out.stderr))) [
      | inl y ↦ rw y refl
      | inr n ↦ rw n refl
    ]

    git_fetch-Follows :
        (refs : List String) (v : S × List Command)
        → Follows (map fetch_args refs) v.1 (git_fetch logged dir refs v)
    unfolding git_fetch Follows
    git_fetch-Follows [] (s, log) = inl (sym (append-nil log), refl)
    git_fetch-Follows (ref ∷ refs) (s, log) =
        let c = fetch_args ref in
        let out = (m.run dir c s).0 in
        let s' = (m.run dir c s).1 in
        elim (Bool-cases (is_nil out.err)) [
          | inl ok ↦ rw ok (
              Follows-next c (map fetch_args refs) log
                (git_fetch logged dir refs (s', log ++ c ∷ []))
                (git_fetch-Follows refs (s', log ++ c ∷ [])))
          | inr bad ↦
              rw bad (inr (c ∷ [], map fetch_args refs, refl, refl, fetch_error-fails ref out))
        ]

    abbrev checkout_args : String → Command
    checkout_args checkout_ref = "checkout" ∷ "--force" ∷ checkout_ref ∷ []

    checkout-Follows :
        (checkout_ref : String) (v : S × List Command)
        → Follows (checkout_args checkout_ref ∷ []) v.1 (checkout logged dir checkout_ref v)
    unfolding checkout Follows
    checkout-Follows checkout_ref (s, log) =
        let out = (m.run dir (checkout_args checkout_ref) s).0 in
        elim (Bool-cases (is_nil out.err)) [
          | inl ok ↦ rw ok (inl (refl, refl))
          | inr bad ↦ rw bad (elim (Bool-cases (non_empty (join "; " out.stderr))) [
            | inl y ↦ rw y (inr (checkout_args checkout_ref ∷ [], [], refl, refl, refl))
            | inr n ↦ rw n (inr (checkout_args checkout_ref ∷ [], [], refl, refl, bad))
          ])
        ]

    -- The last command of a plan, whose error is the result.
    last-Follows :
        (c : Command) (log : List Command) (e : Error) (s : S)
        → Follows (c ∷ []) log (e, (s, log ++ c ∷ []))
    unfolding Follows
    last-Follows c log e s = elim (Bool-cases (is_nil e)) [
      | inl ok ↦ inl (refl, ok)
      | inr bad ↦ inr (c ∷ [], [], refl, refl, bad)
    ]

    abbrev init_plan : Bool → String → List Command
    init_plan missing repo_url =
        if missing then ("init" ∷ []) ∷ ("remote" ∷ "add" ∷ "origin" ∷ repo_url ∷ []) ∷ [] else []

    init_repo-Follows :
        (repo_url : String) (v : S × List Command)
        → Follows
            (init_plan (m.is_missing (dir <> "/.git") v.0) repo_url)
            v.1
            (init_repo logged dir repo_url v)
    unfolding init_repo Follows
    init_repo-Follows repo_url (s, log) =
        let one = "init" ∷ [] in
        let two = "remote" ∷ "add" ∷ "origin" ∷ repo_url ∷ [] in
        let out = (m.run dir one s).0 in
        let s' = (m.run dir one s).1 in
        elim (Bool-cases (m.is_missing (dir <> "/.git") s)) [
          | inl missing ↦ rw missing (elim (Bool-cases (is_nil out.err)) [
            | inl ok ↦ rw ok (
                Follows-next one (two ∷ []) log
                  ((m.run dir two s').0.err, ((m.run dir two s').1, (log ++ one ∷ []) ++ two ∷ []))
                  (last-Follows two (log ++ one ∷ []) (m.run dir two s').0.err
                    (m.run dir two s').1))
            | inr bad ↦ rw bad (inr (one ∷ [], two ∷ [], refl, refl, bad))
          ])
          | inr there ↦ rw there (inl (sym (append-nil log), refl))
        ]

    -- The commands of `GitCheckout`, by whether there is no repository yet.
    abbrev pub checkout_plan :
        Bool → (repo_url : String) → (refs : List String) → (checkout_ref : String) → List Command
    checkout_plan missing repo_url refs checkout_ref =
        init_plan missing repo_url ++ (map fetch_args refs ++ checkout_args checkout_ref ∷ [])

    -- If GitCheckout can make its directory, its commands are git init and git remote add where there
    -- is no repository yet, one fetch for each ref in order, and the checkout: it runs all of them
    -- where it returns nil, and where it returns an error it has run the first of them, in this order,
    -- and none of the others.
    pub git_checkout-in_order :
        (repo_url : String) (refs : List String) (checkout_ref : String) (s : S)
        → is_nil (m.mkdir_all dir s).0 ≡ true
        → Follows
            (checkout_plan
              (m.is_missing (dir <> "/.git") (m.mkdir_all dir s).1)
              repo_url
              refs
              checkout_ref)
            []
            (git_checkout logged dir repo_url refs checkout_ref (s, []))
    unfolding git_checkout fetch_and_checkout
    git_checkout-in_order repo_url refs checkout_ref s made =
        let v : S × List Command = ((m.mkdir_all dir s).1, []) in
        let i = init_repo logged dir repo_url v in
        let f = git_fetch logged dir refs i.1 in
        let c = checkout logged dir checkout_ref f.1 in
        rw made (
          Follows-then _ _ [] i _ (init_repo-Follows repo_url v) (
            Follows-then (map fetch_args refs) (checkout_args checkout_ref ∷ []) i.1.1 f
              (checkout logged dir checkout_ref f.1) (git_fetch-Follows refs i.1)
              (checkout-Follows checkout_ref f.1)))
