-- ===== src/Examples/Repositories.antt =====
-- An entry of an archive, the files of a diff, the fetches of a merge request, and a checkout of two refs.
use rediver_sdk_go.Prelude.{
  ◌≡◌, refl, ◌++◌, true, false, inl, String, Option, none, some, List, [], ◌∷◌, All, ◌<>◌, map,
}
use rediver_sdk_go.Strconv.{is_space}
use rediver_sdk_go.Errors.{nil, is_nil}
use rediver_sdk_go.Repo.RefSpecs.{is_merge_event, build_ref_specs}
use rediver_sdk_go.Repo.Git.InOrder.{Follows, checkout_plan, logged, git_checkout-in_order}
use rediver_sdk_go.Repo.Git.{Machine, fetch_args, git_fetch, git_checkout, git_diff}
use rediver_sdk_go.Repo.Git.Diff.{Entry, IsPlain, printed, git_diff-printed}
use rediver_sdk_go.Repo.FetchHead.{WritesFetchHead, IsNumberedMerge, merge_checkout-base}
use rediver_sdk_go.Archive.Escape.{IsElement, rooted}
use rediver_sdk_go.Archive.Extract.{entry_target, is_inside}
use rediver_sdk_go.Archive.Extract.Safe.{elements_of, entry_target-is_inside}
use rediver_sdk_go.Examples.Values.{machine, merge_request}

entry_target-is_inside_example :
    (entry_target (rooted ("tmp" ∷ [])) "../../etc/passwd"
      ≡ rooted (("tmp" ∷ []) ++ elements_of "../../etc/passwd"))
    × All IsElement (elements_of "../../etc/passwd")
    × (is_inside (rooted ("tmp" ∷ [])) (entry_target (rooted ("tmp" ∷ [])) "../../etc/passwd")
        ≡ true)
entry_target-is_inside_example =
    entry_target-is_inside "tmp" [] "../../etc/passwd"
      ((refl, refl, refl, (refl, (refl, (refl, tt)))), tt)

-- A machine that keeps the last argument of the last command: what FETCH_HEAD names.
abbrev last_word : List String → Option String
last_word [] = none
last_word (w ∷ []) = some w
last_word (w ∷ v ∷ ws) = last_word (v ∷ ws)

abbrev fetching : Machine (Option String)
fetching = record {
  run = λ dir args s. (record { stdout = []; stderr = []; err = nil }, last_word args);
  mkdir_all = λ dir s. (nil, s);
  is_missing = λ path s. false;
}

fetching-WritesFetchHead : WritesFetchHead fetching "/tmp/x" (λ s. s)
unfolding fetch_args
fetching-WritesFetchHead ref s h = refl

is_numbered : IsNumberedMerge merge_request
unfolding is_merge_event
is_numbered = (refl, inl refl, refl, refl)

fetch_succeeds :
    is_nil (git_fetch fetching "/tmp/x" (build_ref_specs merge_request).0 none).0 ≡ true
unfolding git_fetch build_ref_specs
fetch_succeeds = refl

merge_checkout-base_example :
    ((build_ref_specs merge_request).1 ≡ "FETCH_HEAD")
    × ((git_fetch fetching "/tmp/x" (build_ref_specs merge_request).0 none).1
        ≡ some ("refs/heads/" <> "main"))
merge_checkout-base_example =
    merge_checkout-base fetching "/tmp/x" (λ s. s) fetching-WritesFetchHead merge_request none
      is_numbered fetch_succeeds

git_checkout-in_order_example :
    Follows machine
      (checkout_plan machine "/tmp/x" true "https://gitlab.com/a/b.git"
        ("main" ∷ "topic" ∷ [])
        "FETCH_HEAD")
      []
      (git_checkout
        (logged machine)
        "/tmp/x"
        "https://gitlab.com/a/b.git"
        ("main" ∷ "topic" ∷ [])
        "FETCH_HEAD"
        (0, []))
git_checkout-in_order_example =
    git_checkout-in_order machine "/tmp/x" "https://gitlab.com/a/b.git" ("main" ∷ "topic" ∷ [])
      "FETCH_HEAD" 0 refl

abbrev two_files : List Entry
two_files =
    record { status = "M"; file = "main.go" } ∷ record { status = "A"; file = "util.go" } ∷ []

-- Every command prints the lines of the two files.
abbrev printing : Machine (Option String)
printing = record {
  run = λ dir args s. (record { stdout = map printed two_files; stderr = []; err = nil }, s);
  mkdir_all = λ dir s. (nil, s);
  is_missing = λ path s. false;
}

two_files-IsPlain : All IsPlain two_files
unfolding is_space
two_files-IsPlain = (
  ((refl, tt), (refl, (refl, (refl, (refl, (refl, (refl, (refl, tt)))))))),
  (((refl, tt), (refl, (refl, (refl, (refl, (refl, (refl, (refl, tt)))))))), tt),
)

git_diff-printed_example :
    (git_diff printing "/tmp/x" "a1" "b2" none).0
    ≡ (some (record { added = "util.go" ∷ []; modified = "main.go" ∷ []; deleted = [] }), nil)
git_diff-printed_example =
    git_diff-printed printing "/tmp/x" "a1" "b2" none two_files refl refl refl refl
      two_files-IsPlain
