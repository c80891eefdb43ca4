-- ===== src/Repo/RefSpecs.antt =====
-- buildRefSpecs and buildMrPrRefSpecs of job_repo.go.
use rediver_sdk_go.Prelude.{
  Bool, true, false, ◌||◌, String, str_eq, non_empty, List, [], ◌∷◌, ◌++◌, is_pos, ◌<>◌,
  if◌then◌else◌,
}
use rediver_sdk_go.Strconv.{format_int, has_prefix}
use rediver_sdk_go.Job.Repository.{Repository}

-- `append(refs, s)` under a test, for the refs so far and one more.
abbrev pub when : Bool → String → List String
when true s = s ∷ []
when false s = []

-- The refspec that updates the remote-tracking branch.
unfoldable pub branch_ref_spec : String → String
branch_ref_spec branch = "+refs/heads/" <> branch <> ":refs/remotes/origin/" <> branch

-- The first part of `buildMrPrRefSpecs`, the switch on the provider.
unfoldable pub provider_refs : Repository → List String × String
unfolding format_int
provider_refs repo =
    if str_eq repo.provider "gitlab"
    then (
      when (is_pos repo.pr_number) ("refs/merge-requests/" <> format_int repo.pr_number <> "/head"),
      "FETCH_HEAD",
    )
    else if str_eq repo.provider "github"
    then (when (non_empty repo.commit_sha) repo.commit_sha, repo.commit_sha)
    else if str_eq repo.provider "bitbucket"
    then (
      when (is_pos repo.pr_number) ("refs/pull-requests/" <> format_int repo.pr_number <> "/from"),
      "FETCH_HEAD",
    )
    else (when (non_empty repo.commit_sha) repo.commit_sha, repo.commit_sha)

unfoldable pub build_mr_pr_ref_specs : Repository → List String × String
unfolding provider_refs
build_mr_pr_ref_specs repo =
    let (refs, checkout_ref) = provider_refs repo in
    (refs ++ when (non_empty repo.base_branch) ("refs/heads/" <> repo.base_branch), checkout_ref)

-- The `default` case of the switch on the event.
unfoldable pub push_ref_specs : Repository → List String × String
unfolding has_prefix branch_ref_spec
push_ref_specs repo = (
  (if has_prefix repo.ref "refs/tags/"
        then repo.ref ∷ []
        else when (non_empty repo.branch) (branch_ref_spec repo.branch))
      ++ when (non_empty repo.base_commit_sha) repo.base_commit_sha,
  repo.commit_sha,
)

-- `if len(refs) == 0`
unfoldable pub fallback_refs : Repository → List String → List String
unfolding branch_ref_spec
fallback_refs repo [] =
    if non_empty repo.commit_sha
    then repo.commit_sha ∷ []
    else when (non_empty repo.branch) (branch_ref_spec repo.branch)
fallback_refs repo (r ∷ refs) = r ∷ refs

-- `if checkoutRef == ""`
unfoldable pub fallback_checkout : Repository → String → String
fallback_checkout repo checkout_ref =
    if non_empty checkout_ref
    then checkout_ref
    else if non_empty repo.commit_sha
    then repo.commit_sha
    else if non_empty repo.branch
    then "origin/" <> repo.branch
    else ""

unfoldable pub is_merge_event : String → Bool
is_merge_event event = str_eq event "merge_request" || str_eq event "pull_request"

unfoldable pub build_ref_specs : Repository → List String × String
unfolding build_mr_pr_ref_specs push_ref_specs fallback_refs fallback_checkout is_merge_event
build_ref_specs repo =
    let (refs, checkout_ref) =
      if is_merge_event repo.event then build_mr_pr_ref_specs repo else push_ref_specs repo in
    (fallback_refs repo refs, fallback_checkout repo checkout_ref)
