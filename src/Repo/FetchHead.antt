-- ===== src/Repo/FetchHead.antt =====
-- What FETCH_HEAD names when a merge request has been fetched.
use rediver_sdk_go.Prelude.{
  ◌≡◌, refl, ap, ◌⊎◌, inl, inr, true, false, Bool-cases, String, non_empty, Option, some, List, [],
  ◌∷◌, ◌++◌, is_pos, ◌<>◌, arith,
}
use rediver_sdk_go.Strconv.{format_int}
use rediver_sdk_go.Errors.{is_nil}
use rediver_sdk_go.Job.Repository.{Repository}
use rediver_sdk_go.Repo.RefSpecs.{is_merge_event, build_ref_specs}
use rediver_sdk_go.Repo.Git.{Output, Machine, fetch_args, fetch_error, git_fetch}

fetch_error_some :
    {S : Type 0} (m : Machine S) (dir ref : String) (out : Output)
    → is_nil (fetch_error m dir ref out) ≡ false
unfolding fetch_error
fetch_error_some m dir ref out = ground arith

-- What git documents of FETCH_HEAD: a `git fetch` that succeeds writes it anew, with the ref that
-- was fetched first in the command; the SDK fetches one ref in each.
abbrev pub WritesFetchHead : {S : Type 0} → Machine S → String → (S → Option String) → Type 0
WritesFetchHead {S} m dir fetch_head =
    (ref : String) (s : S)
    → is_nil (m.run dir (fetch_args ref) s).0.err ≡ true
    → fetch_head (m.run dir (fetch_args ref) s).1 ≡ some ref

-- A merge request of GitLab or Bitbucket with a number and a base branch.
abbrev pub IsNumberedMerge : Repository → Type 0
IsNumberedMerge repo =
    (is_merge_event repo.event ≡ true)
    × ((repo.provider ≡ "gitlab") ⊎ (repo.provider ≡ "bitbucket"))
    × (is_pos repo.pr_number ≡ true)
    × (non_empty repo.base_branch ≡ true)

merge_refs :
    (repo : Repository)
    → IsNumberedMerge repo
    → (head : String) × (build_ref_specs repo
        ≡ (head ∷ ("refs/heads/" <> repo.base_branch) ∷ [], "FETCH_HEAD"))
unfolding build_ref_specs
merge_refs repo (event, inl gitlab, number, base) = (
  "refs/merge-requests/" <> format_int repo.pr_number <> "/head",
  simp (event, gitlab, number, base) refl,
)
merge_refs repo (event, inr bitbucket, number, base) = (
  "refs/pull-requests/" <> format_int repo.pr_number <> "/from",
  simp (event, bitbucket, number, base) refl,
)

module _ {S : Type 0} (m : Machine S) (dir : String) (fetch_head : S → Option String)
    (writes : WritesFetchHead m dir fetch_head) where
  -- After a fetch of several refs FETCH_HEAD names the last of them.
  git_fetch-fetch_head :
      (refs : List String) (last : String) (s : S)
      → is_nil (git_fetch m dir (refs ++ last ∷ []) s).0 ≡ true
      → fetch_head (git_fetch m dir (refs ++ last ∷ []) s).1 ≡ some last
  unfolding git_fetch
  git_fetch-fetch_head [] last s h =
      elim (Bool-cases (is_nil (m.run dir (fetch_args last) s).0.err)) [
        | inl ok ↦ rw ok (writes last s ok)
        | inr failed ↦ cc (fetch_error_some m dir last (m.run dir (fetch_args last) s).0)
      ]
  git_fetch-fetch_head (ref ∷ refs) last s h =
      elim (Bool-cases (is_nil (m.run dir (fetch_args ref) s).0.err)) [
        | inl ok ↦
            rw ok (git_fetch-fetch_head refs last (m.run dir (fetch_args ref) s).1 (rw ok at h))
        | inr failed ↦ cc (fetch_error_some m dir ref (m.run dir (fetch_args ref) s).0)
      ]

  -- For a merge request of GitLab or Bitbucket with a number and a base branch, FETCH_HEAD is
  -- checked out, and after the fetch of its refs, if it succeeds, FETCH_HEAD names the base branch,
  -- not the head of the merge request.
  pub merge_checkout-base :
      (repo : Repository) (s : S)
      → IsNumberedMerge repo
      → is_nil (git_fetch m dir (build_ref_specs repo).0 s).0 ≡ true
      → ((build_ref_specs repo).1 ≡ "FETCH_HEAD")
        × (fetch_head (git_fetch m dir (build_ref_specs repo).0 s).1
            ≡ some ("refs/heads/" <> repo.base_branch))
  merge_checkout-base repo s n h =
      let (head, e) = merge_refs repo n in
      (
        ap (λ (r : List String × String). r.1) e,
        rw e (git_fetch-fetch_head (head ∷ []) ("refs/heads/" <> repo.base_branch) s (rw e at h)),
      )
