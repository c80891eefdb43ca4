-- ===== src/Repo/Git/Diff.antt =====
-- What GitDiff of utils/git.go reads of the lines of git diff --name-status.
use rediver_sdk_go.Prelude.{
  ◌≡◌, refl, ap, ◌∙◌, true, false, String, str_eq, List, [], ◌∷◌, map, ◌<>◌, All, if◌then◌else◌,
  Bool-cases, inl, inr, eq_iff, is_empty, some,
}
use rediver_sdk_go.Errors.{nil, is_nil}
use rediver_sdk_go.Strconv.Fields.{IsWord, fields-two_words}
use rediver_sdk_go.Repo.Git.{add_line, changed_files, Machine, git_diff}

-- A line of the command: a status, and a file without space in its name.
pub record Entry : Type 0 where
  pub status : String
  pub file : String

abbrev pub printed : Entry → String
printed e = e.status <> "\t" <> e.file

abbrev pub IsPlain : Entry → Type 0
IsPlain e = IsWord e.status × IsWord e.file

-- The files with a status, in the order of the lines.
abbrev pub files_with : String → List Entry → List String
files_with status [] = []
files_with status (e ∷ es) =
    let rest = files_with status es in if str_eq e.status status then e.file ∷ rest else rest

-- A status that is one letter is no other.
other_status :
    (status a b : String) → str_eq status a ≡ true → str_eq a b ≡ false → str_eq status b ≡ false
other_status status a b h k = ap (λ t. str_eq t b) ((eq_iff status a).0 h) ∙ k

-- A line goes to the one list its status names.
add_line-split :
    (status file : String) (xs ms ds : List String)
    → add_line (status ∷ file ∷ []) (record { added = xs; modified = ms; deleted = ds }) ≡ record {
      added = if str_eq status "A" then file ∷ xs else xs;
      modified = if str_eq status "M" then file ∷ ms else ms;
      deleted = if str_eq status "D" then file ∷ ds else ds;
    }
unfolding add_line
add_line-split status file xs ms ds = elim (Bool-cases (str_eq status "A")) [
  | inl a ↦ rw (a, other_status status "A" "M" a refl, other_status status "A" "D" a refl) refl
  | inr not_a ↦ rw not_a (elim (Bool-cases (str_eq status "M")) [
    | inl m ↦ rw (m, other_status status "M" "D" m refl) refl
    | inr not_m ↦
        rw not_m
          (elim (Bool-cases (str_eq status "D")) [ inl d ↦ rw d refl | inr not_d ↦ rw not_d refl ])
  ])
]

changed_files-printed :
    (es : List Entry)
    → All IsPlain es
    → changed_files (map printed es) ≡ record {
      added = files_with "A" es;
      modified = files_with "M" es;
      deleted = files_with "D" es;
    }
unfolding changed_files
changed_files-printed [] h = refl
changed_files-printed (e ∷ es) ((a, b), h) =
    rw (changed_files-printed es h, fields-two_words e.status e.file a b)
      (add_line-split e.status e.file (files_with "A" es) (files_with "M" es) (files_with "D" es))

-- If both commits have a name and the command prints, without an error, a line for each entry of a
-- list, a status and a file without space in its name, then GitDiff returns no error, and its added,
-- modified and deleted files are those with the status A, M and D, each in the order of the lines.
pub git_diff-printed :
    {S : Type 0} (m : Machine S) (dir base head : String) (s : S) (es : List Entry)
    → is_empty base ≡ false
    → is_empty head ≡ false
    → is_nil (m.run dir ("diff" ∷ "--name-status" ∷ base ∷ head ∷ []) s).0.err ≡ true
    → (m.run dir ("diff" ∷ "--name-status" ∷ base ∷ head ∷ []) s).0.stdout ≡ map printed es
    → All IsPlain es
    → (git_diff m dir base head s).0 ≡ (
      some (record {
        added = files_with "A" es;
        modified = files_with "M" es;
        deleted = files_with "D" es;
      }),
      nil,
    )
unfolding git_diff
git_diff-printed m dir base head s es hb hh ok lines plain_es =
    rw (hb, hh, ok, lines, changed_files-printed es plain_es) refl
