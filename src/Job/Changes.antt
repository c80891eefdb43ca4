-- ===== src/Job/Changes.antt =====
-- ChangedFiles of job_repo_accessors.go.
use rediver_sdk_go.Prelude.{
  ◌&&◌, String, Option, none, some, is_empty, non_empty, ◌<>◌, if◌then◌else◌,
}
use rediver_sdk_go.Errors.{Error, nil, plain}
use rediver_sdk_go.Job.Defs.{Job}
use rediver_sdk_go.Job.Repository.{Repository, repository}
use rediver_sdk_go.Repo.Git.{Machine, ChangedFiles, git_diff}

-- What the changes are taken against: the base commit, or else the remote's base branch.
unfoldable pub base_ref : Repository → String
base_ref repo =
    if is_empty repo.base_commit_sha && non_empty repo.base_branch
    then "origin/" <> repo.base_branch
    else repo.base_commit_sha

unfoldable pub job_changed_files :
    {F O S : Type 0} → Machine S → Job F O → S → (Option ChangedFiles × Error) × S
unfolding base_ref repository git_diff
job_changed_files m j s = elim (repository j) [
  | none ↦ ((none, plain "no repository target"), s)
  | some repo ↦
      if is_empty repo.commit_sha
      then ((none, nil), s)
      else if is_empty j.repo_dir
      then ((none, plain "repository not prepared"), s)
      else if is_empty (base_ref repo)
      then ((none, nil), s)
      else git_diff m j.repo_dir (base_ref repo) "HEAD" s
]
