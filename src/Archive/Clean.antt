-- ===== src/Archive/Clean.antt =====
-- What the code uses of package filepath: `Clean` and `Join` on a system with the separator `/`.
use rediver_sdk_go.Prelude.{
  ◌≡◌, refl, Bool, true, false, ◌||◌, String, code, str_eq, is_empty, List, [], ◌∷◌, ◌++◌, ◌==◌,
  ◌<>◌, if◌then◌else◌,
}
use rediver_sdk_go.Strconv.{split_at, join}

abbrev pub drop_last : List String → List String
drop_last [] = []
drop_last (x ∷ []) = []
drop_last (x ∷ y ∷ xs) = x ∷ drop_last (y ∷ xs)

abbrev ends_with_dotdot : List String → Bool
ends_with_dotdot [] = false
ends_with_dotdot (x ∷ []) = str_eq x ".."
ends_with_dotdot (x ∷ y ∷ xs) = ends_with_dotdot (y ∷ xs)

abbrev is_nil : List String → Bool
is_nil [] = true
is_nil (x ∷ xs) = false

-- What `..` does to the elements so far: it removes the last one; at the root it does nothing, and
-- at the start of a relative path it stays.
unfoldable pub back_up : Bool → List String → List String
back_up true done = drop_last done
back_up false done =
    if is_nil done || ends_with_dotdot done then done ++ ".." ∷ [] else drop_last done

-- One element after those of `done`.
unfoldable pub add_element : Bool → List String → String → List String
unfolding back_up
add_element rooted done s =
    if is_empty s || str_eq s "."
    then done
    else if str_eq s ".."
    then back_up rooted done
    else done ++ s ∷ []

unfoldable pub resolve : Bool → List String → List String → List String
resolve rooted done [] = done
resolve rooted done (s ∷ ss) = resolve rooted (add_element rooted done s) ss

abbrev is_rooted : String → Bool
is_rooted String.[] = false
is_rooted (String.◌∷◌ c s) = code c == b'/'

abbrev or_dot : String → String
or_dot s = if is_empty s then "." else s

-- `filepath.Clean(p)`
unfoldable pub clean : String → String
unfolding resolve add_element split_at join
clean p =
    if is_rooted p
    then "/" <> join "/" (resolve true [] (split_at b'/' p))
    else or_dot (join "/" (resolve false [] (split_at b'/' p)))

-- `filepath.Join(a, b)`: empty arguments are left out.
unfoldable pub join_path : String → String → String
unfolding clean
join_path a b =
    if is_empty a
    then if is_empty b then "" else clean b
    else if is_empty b
    then clean a
    else clean (a <> "/" <> b)

clean_examples :
    (clean "/a/./b//../c/" ≡ "/a/c")
    × (clean "/../../x" ≡ "/x")
    × (clean "../a" ≡ "../a")
    × (clean "" ≡ ".")
unfolding clean
clean_examples = (refl, refl, refl, refl)

join_path_example : join_path "/tmp/artifact_1" "/../etc/passwd" ≡ "/tmp/etc/passwd"
unfolding join_path
join_path_example = refl
