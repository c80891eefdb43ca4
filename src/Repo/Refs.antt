-- ===== src/Repo/Refs.antt =====
-- What is fetched and checked out.
use rediver_sdk_go.Prelude.{
  ◌≡◌, refl, true, false, ◌||◌, String, non_empty, List, [], ◌∷◌, ◌<>◌, arith, length, ◌<◌,
}
use text.Mathlib.TextLemmas.{cons-append}
use rediver_sdk_go.Strconv.{has_prefix}
use rediver_sdk_go.Job.Repository.{Repository}
use rediver_sdk_go.Repo.RefSpecs.{
  when, branch_ref_spec, fallback_refs, fallback_checkout, is_merge_event, build_ref_specs,
}

fallback_refs_some :
    (repo : Repository) (refs : List String)
    → (non_empty repo.commit_sha || non_empty repo.branch) ≡ true
    → 0 < length (fallback_refs repo refs)
unfolding fallback_refs
fallback_refs_some repo [] h = ground arith
fallback_refs_some repo (r ∷ refs) h = ground arith

non_empty_origin : (branch : String) → non_empty ("origin/" <> branch) ≡ true
non_empty_origin branch = rw cons-append refl

fallback_checkout_some :
    (repo : Repository) (checkout_ref : String)
    → (non_empty repo.commit_sha || non_empty repo.branch) ≡ true
    → non_empty (fallback_checkout repo checkout_ref) ≡ true
unfolding fallback_checkout
fallback_checkout_some repo checkout_ref h = ground (arith, non_empty_origin repo.branch)

-- For every event and provider: with a commit or a branch there is at least one ref to fetch, and a
-- ref to check out.
build_ref_specs_some :
    (repo : Repository)
    → (non_empty repo.commit_sha || non_empty repo.branch) ≡ true
    → (0 < length (build_ref_specs repo).0) × (non_empty (build_ref_specs repo).1 ≡ true)
unfolding build_ref_specs
build_ref_specs_some repo h = (fallback_refs_some repo _ h, fallback_checkout_some repo _ h)

abbrev base_ref : Repository → List String
base_ref repo = when (non_empty repo.base_commit_sha) repo.base_commit_sha

-- Outside merge requests, where the server sends a commit and a tag's ref, the commit is what is
-- checked out and the tag's ref is what is fetched first.
pub build_ref_specs_tag :
    (repo : Repository)
    → is_merge_event repo.event ≡ false
    → non_empty repo.commit_sha ≡ true
    → has_prefix repo.ref "refs/tags/" ≡ true
    → ((build_ref_specs repo).1 ≡ repo.commit_sha)
      × ((more : List String) × ((build_ref_specs repo).0 ≡ repo.ref ∷ more))
unfolding build_ref_specs
build_ref_specs_tag repo e h t = (rw e (rw h refl), (base_ref repo, rw e (rw t refl)))

-- Outside merge requests, where the server sends a commit and a branch and no tag's ref, the commit
-- is what is checked out and the branch is what is fetched first, into its remote-tracking branch.
pub build_ref_specs_branch :
    (repo : Repository)
    → is_merge_event repo.event ≡ false
    → non_empty repo.commit_sha ≡ true
    → has_prefix repo.ref "refs/tags/" ≡ false
    → non_empty repo.branch ≡ true
    → ((build_ref_specs repo).1 ≡ repo.commit_sha)
      × ((more : List String) × ((build_ref_specs repo).0 ≡ branch_ref_spec repo.branch ∷ more))
unfolding build_ref_specs
build_ref_specs_branch repo e h t b = (rw e (rw h refl), (base_ref repo, rw e (rw t (rw b refl))))
