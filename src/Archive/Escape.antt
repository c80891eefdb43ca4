-- ===== src/Archive/Escape.antt =====
-- No tar entry escapes the destination directory.
use rediver_sdk_go.Prelude.{
  ℕ, ◌≡◌, refl, sym, ap, ap₂, subst, ◌∙◌, inl, inr, true, false, Bool-cases, String, Char, code,
  str_eq, is_empty, List, [], ◌∷◌, ◌++◌, append_assoc, append-nil, ◌==◌, ◌<>◌, All, All-append,
  arith,
}
use text.Mathlib.TextLemmas as TextLemmas
use text.Mathlib.TextLemmas.{cons-append, nil-append}
use rediver_sdk_go.Strconv.{split_at, push_first, join, has_prefix}
use rediver_sdk_go.Strconv.Split.{Lacks, split_at_of_Lacks}
use rediver_sdk_go.Archive.Clean.{drop_last, add_element, resolve, clean, join_path}

-- An element of a clean rooted path.
abbrev pub IsElement : String → Type 0
IsElement s = (is_empty s ≡ false) × (str_eq s "." ≡ false) × (str_eq s ".." ≡ false) × Lacks b'/' s

drop_last-All : (xs : List String) → All IsElement xs → All IsElement (drop_last xs)
drop_last-All [] h = tt
drop_last-All (x ∷ []) h = tt
drop_last-All (x ∷ y ∷ xs) h = (h.0, drop_last-All (y ∷ xs) h.1)

add_element-All :
    (done : List String) (s : String)
    → Lacks b'/' s
    → All IsElement done
    → All IsElement (add_element true done s)
unfolding add_element
add_element-All done s l h = elim (Bool-cases (is_empty s)) [
  | inl e ↦ rw e h
  | inr full ↦ rw full (elim (Bool-cases (str_eq s ".")) [
    | inl e ↦ rw e h
    | inr dot ↦ rw dot (elim (Bool-cases (str_eq s "..")) [
      | inl e ↦ rw e (drop_last-All done h)
      | inr dots ↦ rw dots (All-append IsElement done (s ∷ []) h ((full, dot, dots, l), tt))
    ])
  ])
]

pub resolve-All :
    (done ss : List String)
    → All (Lacks b'/') ss
    → All IsElement done
    → All IsElement (resolve true done ss)
unfolding resolve
resolve-All done [] l h = h
resolve-All done (s ∷ ss) l h =
    resolve-All (add_element true done s) ss l.1 (add_element-All done s l.0 h)

-- Elements that are clean already are kept.
resolve_of_All : (done ss : List String) → All IsElement ss → resolve true done ss ≡ done ++ ss
unfolding resolve add_element
resolve_of_All done [] h = sym (append-nil done)
resolve_of_All done (s ∷ ss) h =
    rw (h.0.0, h.0.1, h.0.2)
      (resolve_of_All (done ++ s ∷ []) ss h.1 ∙ append_assoc done (s ∷ []) ss)

resolve-append :
    (done ss ts : List String)
    → resolve true done (ss ++ ts) ≡ resolve true (resolve true done ss) ts
unfolding resolve
resolve-append done [] ts = refl
resolve-append done (s ∷ ss) ts = resolve-append (add_element true done s) ss ts

-- `split_at` of a text with the separator between two parts.
push_first-append :
    (c : Char) (p : String) (ps qs : List String)
    → push_first c ((p ∷ ps) ++ qs) ≡ push_first c (p ∷ ps) ++ qs
unfolding push_first
push_first-append c p ps qs = refl

record HasFirst (xs : List String) : Type 0 where
  first : String
  others : List String
  shape : xs ≡ first ∷ others

push_first-HasFirst : (c : Char) (xs : List String) → HasFirst (push_first c xs)
unfolding push_first
push_first-HasFirst c [] = record { first = String.◌∷◌ c String.[]; others = []; shape = refl }
push_first-HasFirst c (p ∷ ps) = record { first = String.◌∷◌ c p; others = ps; shape = refl }

split_at-HasFirst : (sep : ℕ) (s : String) → HasFirst (split_at sep s)
unfolding split_at
split_at-HasFirst sep String.[] = record { first = ""; others = []; shape = refl }
split_at-HasFirst sep (String.◌∷◌ c s) = elim (Bool-cases (code c == sep)) [
  | inl here ↦ rw here (record { first = ""; others = split_at sep s; shape = refl })
  | inr other ↦ rw other (push_first-HasFirst c (split_at sep s))
]

split_at-separated :
    (sep : Char) (a b : String)
    → split_at (code sep) (a <> String.◌∷◌ sep b) ≡ split_at (code sep) a ++ split_at (code sep) b
unfolding split_at
split_at-separated sep String.[] b = rw nil-append (ground arith)
split_at-separated sep (String.◌∷◌ c a) b = rw cons-append (elim (Bool-cases (code c == code sep)) [
  | inl here ↦ rw here (ap (λ l. "" ∷ l) (split_at-separated sep a b))
  | inr other ↦
      let f = split_at-HasFirst (code sep) a in
      rw other (
        ap (push_first c) (split_at-separated sep a b)
        ∙ rw f.shape (push_first-append c f.first f.others (split_at (code sep) b)))
])

slash : (s : String) → ("/" <> s) ≡ String.◌∷◌ "/" s
slash s = rw cons-append (rw nil-append refl)

IsElement-Lacks : (xs : List String) → All IsElement xs → All (Lacks b'/') xs
IsElement-Lacks [] h = tt
IsElement-Lacks (x ∷ xs) h = (h.0.3, IsElement-Lacks xs h.1)

split_at-join :
    (x : String) (xs : List String)
    → All (Lacks b'/') (x ∷ xs)
    → split_at b'/' (join "/" (x ∷ xs)) ≡ x ∷ xs
unfolding join
split_at-join x [] h = split_at_of_Lacks b'/' x h.0
split_at-join x (y ∷ xs) h =
    ap (λ s. split_at b'/' (x <> s)) (slash (join "/" (y ∷ xs)))
    ∙ split_at-separated "/" x (join "/" (y ∷ xs))
    ∙ ap₂ ◌++◌ (split_at_of_Lacks b'/' x h.0) (split_at-join y xs h.1)

-- The clean rooted path with the given elements.
unfoldable pub rooted : List String → String
unfolding join
rooted elements = "/" <> join "/" elements

split_at-slash : (s : String) → split_at b'/' ("/" <> s) ≡ "" ∷ split_at b'/' s
unfolding split_at
split_at-slash s = ap (split_at b'/') (slash s)

resolve-rooted :
    (done ds : List String)
    → All IsElement ds
    → resolve true done (split_at b'/' (rooted ds)) ≡ done ++ ds
unfolding rooted resolve add_element split_at
resolve-rooted done [] h = sym (append-nil done)
resolve-rooted done (d ∷ ds) h =
    ap (resolve true done) (split_at-slash (join "/" (d ∷ ds)))
    ∙ ap (resolve true done) (split_at-join d ds (IsElement-Lacks (d ∷ ds) h))
    ∙ resolve_of_All done (d ∷ ds) h

rooted_non_empty : (ds : List String) → is_empty (rooted ds) ≡ false
unfolding rooted
rooted_non_empty ds = rw slash refl

pub clean-slash :
    (s : String) → clean ("/" <> s) ≡ rooted (resolve true [] (split_at b'/' ("/" <> s)))
unfolding clean rooted
clean-slash s = rw slash refl

pub join_path-rooted :
    (ds rs : List String)
    → All IsElement ds
    → All IsElement rs
    → join_path (rooted ds) (rooted rs) ≡ rooted (ds ++ rs)
unfolding join_path
join_path-rooted ds rs hd hr = rw (rooted_non_empty ds) (
    rw (rooted_non_empty rs) (
      ap clean (dest_first)
      ∙ clean-slash (join "/" ds <> "/" <> rooted rs)
      ∙ ap rooted (
          ap (λ s. resolve true [] (split_at b'/' s)) (sym dest_first)
          ∙ ap (λ s. resolve true [] (split_at b'/' (rooted ds <> s))) (slash (rooted rs))
          ∙ ap (resolve true []) (split_at-separated "/" (rooted ds) (rooted rs))
          ∙ resolve-append [] (split_at b'/' (rooted ds)) (split_at b'/' (rooted rs))
          ∙ ap (λ done. resolve true done (split_at b'/' (rooted rs))) (resolve-rooted [] ds hd)
          ∙ resolve-rooted ds rs hr)))
  where
    dest_first : (rooted ds <> "/" <> rooted rs) ≡ ("/" <> join "/" ds <> "/" <> rooted rs)
    dest_first = unfold rooted in TextLemmas.append_assoc "/" (join "/" ds) ("/" <> rooted rs)

has_prefix-append : (a b : String) → has_prefix (a <> b) a ≡ true
unfolding has_prefix
has_prefix-append String.[] b = refl
has_prefix-append (String.◌∷◌ c a) b = rw cons-append (ground (arith, has_prefix-append a b))

join-append :
    (d : String) (ds : List String) (r : String) (rs : List String)
    → join "/" ((d ∷ ds) ++ r ∷ rs) ≡ (join "/" (d ∷ ds) <> "/" <> join "/" (r ∷ rs))
unfolding join
join-append d [] r rs = refl
join-append d (e ∷ ds) r rs =
    ap (λ s. d <> "/" <> s) (join-append e ds r rs) ∙ simp (TextLemmas.append_assoc)

pub rooted-prefix :
    (d : String) (ds rs : List String)
    → has_prefix (rooted ((d ∷ ds) ++ rs) <> "/") (rooted (d ∷ ds) <> "/") ≡ true
unfolding rooted
rooted-prefix d ds [] =
    subst (λ l. has_prefix (rooted l <> "/") (rooted (d ∷ ds) <> "/") ≡ true)
      (sym (append-nil (d ∷ ds))) (has_prefix_self (rooted (d ∷ ds) <> "/"))
  where
    has_prefix_self : (s : String) → has_prefix s s ≡ true
    has_prefix_self s =
        subst (λ t. has_prefix t s ≡ true) (TextLemmas.append-nil s) (has_prefix-append s "")
rooted-prefix d ds (r ∷ rs) =
    subst (λ s. has_prefix s (rooted (d ∷ ds) <> "/") ≡ true)
      (sym (ap (λ s. ("/" <> s) <> "/") (join-append d ds r rs) ∙ simp TextLemmas.append_assoc))
      (has_prefix-append (rooted (d ∷ ds) <> "/") (join "/" (r ∷ rs) <> "/"))
