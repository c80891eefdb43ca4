-- ===== src/Job/Repository.antt =====
-- The repository of a job: Repository, ciEventToString, gitProviderToString and Integration of
-- job_repo_accessors.go.
use rediver_sdk_go.Prelude.{
  Bool, ◌&&◌, String, Option, none, some, List, [], ◌∷◌, ℤ, is_empty, non_empty, ◌<>◌,
  if◌then◌else◌,
}
use rediver_sdk_go.Job.Message.{
  CiEvent, push, pull_request, tag, GitProvider, gitlab, github, bitbucket, RepositoryTarget,
  ProtoRepository, Credential,
}
use rediver_sdk_go.Job.Defs.{Job}
use rediver_sdk_go.Job.Targets.{target}

pub record Repository : Type 0 where
  pub url : String
  pub provider : String
  pub event : String
  pub ref : String
  pub branch : String
  pub commit_sha : String
  pub base_branch : String
  pub base_commit_sha : String
  pub pr_number : ℤ
  pub artifact_id : String
  pub diff_only : Bool
  pub username : String
  pub password : String

unfoldable pub ci_event_to_string : CiEvent → String
ci_event_to_string push = "push"
ci_event_to_string pull_request = "pull_request"
ci_event_to_string tag = "tag"
ci_event_to_string _ = ""

unfoldable pub git_provider_to_string : GitProvider → String
git_provider_to_string gitlab = "gitlab"
git_provider_to_string github = "github"
git_provider_to_string bitbucket = "bitbucket"
git_provider_to_string _ = ""

-- The raw ref: the tag's, or the branch's, or none.
unfoldable pub raw_ref : String → String → String
raw_ref tag_name branch =
    if non_empty tag_name
    then "refs/tags/" <> tag_name
    else if non_empty branch
    then "refs/heads/" <> branch
    else ""

-- The server's SHA, or the one that was resolved from the checkout.
unfoldable pub or_resolved : String → String → String
or_resolved sent resolved = if is_empty sent && non_empty resolved then resolved else sent

abbrev credential_username : Option Credential → String
credential_username none = ""
credential_username (some c) = c.username

abbrev credential_password : Option Credential → String
credential_password none = ""
credential_password (some c) = c.password

module _ {F O : Type 0} where
  unfoldable pub from_target : Job F O → ProtoRepository → RepositoryTarget → Repository
  unfolding ci_event_to_string git_provider_to_string raw_ref or_resolved
  from_target j r t = record {
    url = t.url;
    provider = git_provider_to_string t.provider;
    event = ci_event_to_string t.event;
    ref = raw_ref t.tag t.branch;
    branch = t.branch;
    commit_sha = or_resolved t.commit_sha j.resolved_head_sha;
    base_branch = t.base_branch;
    base_commit_sha = or_resolved t.base_commit_sha j.resolved_base_sha;
    pr_number = t.pull_request_number;
    artifact_id = r.artifact_id;
    diff_only = r.diff_only;
    username = credential_username r.credential;
    password = credential_password r.credential;
  }

  -- `none` stands for `nil, false`.
  unfoldable pub repository : Job F O → Option Repository
  unfolding from_target target
  repository j = elim (target j) [
    | none ↦ none
    | some t ↦ elim t.repository [
      | none ↦ none
      | some r ↦ elim r.target [ none ↦ none | some rt ↦ some (from_target j r rt) ]
    ]
  ]

  unfoldable pub repo_dir : Job F O → String
  repo_dir j = j.repo_dir

  -- The Cloudflare tokens; `none` stands for the nil Integration.
  unfoldable pub integration : Job F O → Option (List String)
  integration j = elim j.detail [
    | none ↦ none
    | some d ↦ elim d.integration [
      | none ↦ none
      | some tokens ↦ elim tokens [ [] ↦ none | t ∷ ts ↦ some (t ∷ ts) ]
    ]
  ]
