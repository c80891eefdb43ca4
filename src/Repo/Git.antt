-- ===== src/Repo/Git.antt =====
-- utils/git.go over a machine: `run dir args` runs git in a directory and returns the lines of its
-- output and its error, `mkdir_all` and `is_missing` are os.MkdirAll and the os.IsNotExist of
-- os.Stat.
pub mod InOrder
pub mod Diff
use rediver_sdk_go.Prelude.{
  Bool, true, false, String, str_eq, is_empty, non_empty, Option, none, some, List, [], ◌∷◌, ◌<>◌,
  if◌then◌else◌,
}
use rediver_sdk_go.Strconv.{trim_space, fields, join}
use rediver_sdk_go.Errors.{Error, nil, wrapped, plain, is_nil}

pub record Output : Type 0 where
  pub stdout : List String
  pub stderr : List String
  pub err : Error

pub record Machine (S : Type 0) : Type 0 where
  pub run : (dir : String) (args : List String) → S → Output × S
  pub mkdir_all : (dir : String) → S → Error × S
  pub is_missing : (path : String) → S → Bool

pub record ChangedFiles : Type 0 where
  pub added : List String
  pub modified : List String
  pub deleted : List String

-- The error of a failed command: its own, or what it wrote to stderr.
abbrev detailed : String → Output → (Error → Error) → Error
detailed prefix out own =
    if non_empty (join "; " out.stderr)
    then plain (prefix <> ": " <> join "; " out.stderr)
    else own out.err

-- The arguments of `GitFetch` for one ref.
unfoldable pub fetch_args : String → List String
fetch_args ref =
    "-c" ∷ "protocol.version=2" ∷ "fetch" ∷ "--depth=1" ∷ "--prune" ∷ "--no-recurse-submodules"
    ∷ "--no-tags" ∷ "origin" ∷ ref ∷ []

module _ {S : Type 0} (m : Machine S) (dir : String) where
  unfoldable pub fetch_error : String → Output → Error
  unfolding join
  fetch_error ref out = detailed ("git fetch " <> ref) out (λ e. wrapped ("git fetch " <> ref) e)

  -- `GitFetch`
  unfoldable pub git_fetch : List String → S → Error × S
  unfolding fetch_args fetch_error
  git_fetch [] s = (nil, s)
  git_fetch (ref ∷ refs) s =
      let (out, s') = m.run dir (fetch_args ref) s in
      let rest = git_fetch refs s' in if is_nil out.err then rest else (fetch_error ref out, s')

  -- The last command of `GitCheckout`.
  unfoldable pub checkout : String → S → Error × S
  unfolding join
  checkout checkout_ref s =
      let (out, s') = m.run dir ("checkout" ∷ "--force" ∷ checkout_ref ∷ []) s in
      if is_nil out.err then (nil, s') else (detailed "git checkout" out (λ e. e), s')

  unfoldable pub fetch_and_checkout : List String → String → S → Error × S
  unfolding git_fetch checkout
  fetch_and_checkout refs checkout_ref s =
      let (e, s') = git_fetch refs s in if is_nil e then checkout checkout_ref s' else (e, s')

  -- `git init` and `git remote add` where there is no repository yet.
  unfoldable pub init_repo : String → S → Error × S
  init_repo repo_url s =
      if m.is_missing (dir <> "/.git") s
      then (let (out, s') = m.run dir ("init" ∷ []) s in
          let (out', s'') = m.run dir ("remote" ∷ "add" ∷ "origin" ∷ repo_url ∷ []) s' in
          if is_nil out.err then (out'.err, s'') else (out.err, s'))
      else (nil, s)

  -- `GitCheckout`
  unfoldable pub git_checkout : String → List String → String → S → Error × S
  unfolding init_repo fetch_and_checkout
  git_checkout repo_url refs checkout_ref s =
      let (e, s') = m.mkdir_all dir s in
      let (e', s'') = init_repo repo_url s' in
      if is_nil e
      then if is_nil e' then fetch_and_checkout refs checkout_ref s'' else (e', s'')
      else (e, s')

  -- `GitRevParseHead`
  unfoldable pub git_rev_parse_head : S → (String × Error) × S
  unfolding join trim_space
  git_rev_parse_head s =
      let (out, s') = m.run dir ("rev-parse" ∷ "HEAD" ∷ []) s in
      if is_nil out.err then ((trim_space (join "" out.stdout), nil), s') else (("", out.err), s')

  -- `GitMergeBase`
  unfoldable pub git_merge_base : String → String → S → (String × Error) × S
  unfolding join trim_space
  git_merge_base ref1 ref2 s =
      let (out, s') = m.run dir ("merge-base" ∷ ref1 ∷ ref2 ∷ []) s in
      if is_nil out.err then ((trim_space (join "" out.stdout), nil), s') else (("", out.err), s')

  -- The loop of `EnsureMergeBaseReachable` over the depths; whether a merge base was found.
  unfoldable pub deepen : String → List String → S → Bool × S
  unfolding git_merge_base
  deepen base_commit [] s = (false, s)
  deepen base_commit (depth ∷ depths) s =
      let (out, s') = m.run dir ("fetch" ∷ ("--deepen=" <> depth) ∷ "origin" ∷ []) s in
      let (r, s'') = git_merge_base base_commit "HEAD" s' in
      let rest = deepen base_commit depths s'' in if is_nil r.1 then (true, s'') else rest

  unfoldable pub ensure_merge_base_reachable : String → S → Bool × S
  unfolding git_merge_base deepen
  ensure_merge_base_reachable base_commit s =
      let (r, s') = git_merge_base base_commit "HEAD" s in
      let rest = deepen base_commit ("10" ∷ "20" ∷ "50" ∷ "100" ∷ []) s' in
      if is_nil r.1 then (true, s') else rest

-- One line of `git diff --name-status` added to the files in front of those of the lines after it.
unfoldable pub add_line : List String → ChangedFiles → ChangedFiles
add_line (status ∷ file ∷ more) files =
    if str_eq status "A"
    then record files { added = file ∷ files.added }
    else if str_eq status "M"
    then record files { modified = file ∷ files.modified }
    else if str_eq status "D"
    then record files { deleted = file ∷ files.deleted }
    else files
add_line _ files = files

abbrev pub no_files : ChangedFiles
no_files = record { added = []; modified = []; deleted = [] }

-- The loop of `GitDiff`.
unfoldable pub changed_files : List String → ChangedFiles
unfolding add_line fields
changed_files [] = no_files
changed_files (line ∷ lines) = add_line (fields line) (changed_files lines)

module _ {S : Type 0} (m : Machine S) (dir : String) where
  -- `GitDiff`; `none` beside an error.
  unfoldable pub git_diff : String → String → S → (Option ChangedFiles × Error) × S
  unfolding changed_files
  git_diff base_commit head_commit s =
      let (out, s') = m.run dir ("diff" ∷ "--name-status" ∷ base_commit ∷ head_commit ∷ []) s in
      if is_empty base_commit
      then ((none, plain "base commit is required"), s)
      else if is_empty head_commit
      then ((none, plain "head commit is required"), s)
      else if is_nil out.err
      then ((some (changed_files out.stdout), nil), s')
      else ((none, out.err), s')
