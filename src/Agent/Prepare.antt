-- ===== src/Agent/Prepare.antt =====
-- job_repo.go and job_resolve.go: prepareRepository, prepareArchive, downloadAndExtract up to the
-- entries, buildRepoURL and resolveCommitSHAs.
use rediver_sdk_go.Prelude.{
  not, ◌&&◌, String, is_empty, non_empty, Option, none, some, List, ℤ, pos, leb_ℤ, ℕ, ◌<>◌,
  if◌then◌else◌,
}
use rediver_sdk_go.Errors.{Error, nil, wrapped, plain, is_nil}
use rediver_sdk_go.Job.Defs.{Job}
use rediver_sdk_go.Job.Repository.{Repository, repository}
use rediver_sdk_go.Repo.RefSpecs.{is_merge_event, build_ref_specs}
use rediver_sdk_go.Repo.Git.{
  Machine, git_checkout, git_rev_parse_head, git_merge_base, ensure_merge_base_reachable,
}
use rediver_sdk_go.Archive.Extract.{Header, Files, Cipher, extract, decrypt_artifact_if_needed}
use rediver_sdk_go.Agent.Rpc.{World, Server, TokenManager, ArtifactDownloadInfo, artifact_download}

-- An HTTP response: the error of building or sending the request, the status, the body, and the
-- error of reading it.
pub record Response : Type 0 where
  pub err : Error
  pub status : ℤ
  pub body : List ℕ
  pub read_err : Error

-- What the code uses of the system and of packages: git, the files, temporary directories, HTTP,
-- the cipher, gzip with tar (`none` where the gzip stream does not open; else the entries and the
-- error after the last of them), and net/url: the parsed URL with the user that is set, as a text.
pub record System (S : Type 0) : Type 0 where
  pub machine : Machine S
  pub files : Files S
  pub mkdir_temp : (pattern : String) → S → (String × Error) × S
  pub remove_all : String → S → Error × S
  pub http_get : (url : String) → S → Response × S
  pub cipher : Cipher
  pub untar : List ℕ → Option (List Header × Error)
  pub url_with : (raw : String) → (user : Option (String × String)) → Option String

module _ {S : Type 0} (sys : System S) where
  -- `buildRepoURL`; an error is `none`.
  unfoldable pub build_repo_url : Repository → Option String
  build_repo_url repo =
      if is_empty repo.url
      then none
      else sys.url_with repo.url (
          if non_empty repo.username && non_empty repo.password
          then some (repo.username, repo.password)
          else none)

  unfoldable pub unpack : ArtifactDownloadInfo → String → List ℕ → S → Error × S
  unfolding decrypt_artifact_if_needed extract
  unpack info dest body s =
      elim (decrypt_artifact_if_needed sys.cipher body info.encryption_algorithm
        info.encryption_key) [
          | none ↦ (plain "decrypt", s)
          | some content ↦ elim (sys.untar content) [
            | none ↦ (plain "open gzip stream", s)
            | some (hdrs, end) ↦ extract sys.files dest hdrs end s
          ]
        ]

  -- `downloadAndExtract`
  unfoldable pub download_and_extract : ArtifactDownloadInfo → String → S → Error × S
  unfolding unpack
  download_and_extract info dest s =
      let (resp, s') = sys.http_get info.presigned_url s in
      if not (is_nil resp.err)
      then (wrapped "download artifact" resp.err, s')
      else if leb_ℤ (pos 400) resp.status
      then (plain "download artifact: unexpected status", s')
      else if not (is_nil resp.read_err)
      then (wrapped "read artifact" resp.read_err, s')
      else unpack info dest resp.body s'

module _ {S F O : Type 0} (sys : System S) where
  -- The first block of `resolveCommitSHAs`.
  unfoldable pub resolve_head : Repository → String → Job F O → S → Job F O × S
  unfolding git_rev_parse_head
  resolve_head repo dir j s =
      let ((sha, e), s') = git_rev_parse_head sys.machine dir s in
      if is_empty repo.commit_sha
      then (if is_nil e && non_empty sha then record j { resolved_head_sha = sha } else j, s')
      else (j, s)

  -- The second block.
  unfoldable pub resolve_base : Repository → String → Job F O → S → Job F O × S
  unfolding git_merge_base is_merge_event
  resolve_base repo dir j s =
      let ((sha, e), s') =
        git_merge_base sys.machine dir ("origin/" <> repo.base_branch) "HEAD" s in
      if is_merge_event repo.event && non_empty repo.base_branch
      then (if is_nil e && non_empty sha then record j { resolved_base_sha = sha } else j, s')
      else (j, s)

  unfoldable pub resolve_commit_shas : Repository → String → Job F O → S → Job F O × S
  unfolding resolve_head resolve_base
  resolve_commit_shas repo dir j s =
      let (j', s') = resolve_head repo dir j s in resolve_base repo dir j' s'

  -- What follows a checkout that succeeded.
  unfoldable pub checked_out : Repository → String → Job F O → S → Job F O × S
  unfolding ensure_merge_base_reachable resolve_commit_shas
  checked_out repo dir j s =
      let j' = record j { repo_dir = dir; cloned_repo_dir = dir } in
      let (found, s') = ensure_merge_base_reachable sys.machine dir repo.base_commit_sha s in
      resolve_commit_shas repo dir j' (if non_empty repo.base_commit_sha then s' else s)

  -- `prepareRepository` from `buildRepoURL` on.
  unfoldable pub clone : Repository → Job F O → S → (Error × Job F O) × S
  unfolding build_repo_url build_ref_specs git_checkout checked_out
  clone repo j s =
      let ((dir, e), s1) = sys.mkdir_temp "repo_" s in
      let (refs, checkout_ref) = build_ref_specs repo in
      elim (build_repo_url sys repo) [
        | none ↦ ((plain "repo URL", j), s)
        | some url ↦
            let (e', s2) = git_checkout sys.machine dir url refs checkout_ref s1 in
            let (j', s3) = checked_out repo dir j s2 in
            if not (is_nil e)
            then ((wrapped "create temp dir" e, j), s1)
            else if is_nil e'
            then ((nil, j'), s3)
            else ((wrapped "checkout" e', j), (sys.remove_all dir s2).1)
      ]

  -- `prepareArchive` after the artifact's download information was asked for.
  unfoldable pub fetch_archive : Error → ArtifactDownloadInfo → Job F O → S → (Error × Job F O) × S
  unfolding download_and_extract
  fetch_archive err info j s =
      let ((dir, e), s1) = sys.mkdir_temp "artifact_" s in
      let (e', s2) = download_and_extract sys info dir s1 in
      if not (is_nil err)
      then ((wrapped "get artifact download" err, j), s)
      else if is_empty info.presigned_url
      then ((plain "artifact download returned empty URL", j), s)
      else if not (is_nil e)
      then ((wrapped "create artifact temp dir" e, j), s1)
      else if is_nil e'
      then ((nil, record j { repo_dir = dir; cloned_repo_dir = dir }), s2)
      else ((wrapped "extract artifact" e', j), (sys.remove_all dir s2).1)

-- An operation on the rest of the world makes no call.
abbrev pub locally : {S O T G R : Type 0} → (S → R × S) → World S O T G → R × World S O T G
locally f w = let (r, s) = f w.local in (r, record w { local = s })

module _ {S F O T G : Type 0} (sys : System S) (server : Server O T G) (tm : TokenManager)
    (jwt : String) where
  unfoldable pub prepare_archive :
      Repository → Job F O → World S O T G → (Error × Job F O) × World S O T G
  unfolding fetch_archive artifact_download
  prepare_archive repo j w =
      let ((e, info), w') = artifact_download server tm jwt repo.artifact_id w in
      locally (fetch_archive sys e info j) w'

  unfoldable pub prepare_repository : Job F O → World S O T G → (Error × Job F O) × World S O T G
  unfolding prepare_archive clone repository
  prepare_repository j w = elim (repository j) [
    | none ↦ ((plain "no repository target", j), w)
    | some repo ↦
        if non_empty repo.artifact_id
        then prepare_archive repo j w
        else locally (clone sys repo j) w
  ]
