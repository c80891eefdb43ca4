-- ===== src/Archive/Extract/Safe.antt =====
-- Every entry lands inside the destination directory, so no archive is refused for its names.
use rediver_sdk_go.Prelude.{◌≡◌, sym, ap, subst, ◌∙◌, true, String, List, [], ◌∷◌, ◌++◌, ◌<>◌, All}
use rediver_sdk_go.Strconv.{split_at}
use rediver_sdk_go.Strconv.Split.{split_at-Lacks}
use rediver_sdk_go.Archive.Clean.{resolve, join_path}
use rediver_sdk_go.Archive.Escape.{
  IsElement, resolve-All, rooted, clean-slash, join_path-rooted, rooted-prefix,
}
use rediver_sdk_go.Archive.Extract.{entry_target, is_inside}

-- The elements below the destination that an entry's name stands for.
abbrev pub elements_of : String → List String
elements_of name = resolve true [] (split_at b'/' ("/" <> name))

elements_of-All : (name : String) → All IsElement (elements_of name)
elements_of-All name = resolve-All [] _ (split_at-Lacks b'/' ("/" <> name)) tt

-- For a destination that is a clean absolute path below the root and any name of an entry, `..` and
-- absolute names included: the target is the destination followed by elements none of which is
-- empty, `.` or `..` or holds a separator, and it passes the test for being inside.
pub entry_target-is_inside :
    (d : String) (ds : List String) (name : String)
    → All IsElement (d ∷ ds)
    → (entry_target (rooted (d ∷ ds)) name ≡ rooted ((d ∷ ds) ++ elements_of name))
      × All IsElement (elements_of name)
      × (is_inside (rooted (d ∷ ds)) (entry_target (rooted (d ∷ ds)) name) ≡ true)
unfolding entry_target is_inside
entry_target-is_inside d ds name h =
    let e : entry_target (rooted (d ∷ ds)) name ≡ rooted ((d ∷ ds) ++ elements_of name) =
      ap (join_path (rooted (d ∷ ds))) (clean-slash name)
      ∙ join_path-rooted (d ∷ ds) (elements_of name) h (elements_of-All name) in
    (
      e,
      elements_of-All name,
      subst (λ p. is_inside (rooted (d ∷ ds)) p ≡ true) (sym e)
          (rooted-prefix d ds (elements_of name)),
    )
