-- ===== src/Param/Lists.antt =====
-- The comma-separated forms of lists: what is read has no outer space, no comma and no empty item,
-- and a printed list is read back.
use rediver_sdk_go.Prelude.{
  ◌≡◌, refl, ◌∙◌, ap, inl, inr, false, Bool-cases, Option, some, List, [], ◌∷◌, map, String, All, ℤ,
  arith, is_empty,
}
use rediver_sdk_go.Strconv.{trim_space, split_at, atoi, format_int}
use rediver_sdk_go.Strconv.Split.{
  IsTrimmed, Lacks, trim_space-IsTrimmed, trim_space-Lacks, trim_space_of_IsTrimmed, split_at-Lacks,
  join_with, split_at-join_with,
}
use rediver_sdk_go.Strconv.Decimal.{
  InInt64, atoi-format_int, format_int-IsTrimmed, format_int-Lacks,
}
use rediver_sdk_go.Param.Value.{Floats, IntKind, str, integer}
use rediver_sdk_go.Param.Cast.{trimmed_parts, integer_parts, to_strings, to_ints, to_int, to_string}

-- A well-formed item of a comma-separated list.
abbrev pub IsItem : String → Type 0
IsItem s = (is_empty s ≡ false) × IsTrimmed s × Lacks b',' s

trimmed_parts-IsItem :
    (parts : List String) → All (Lacks b',') parts → All IsItem (trimmed_parts parts)
unfolding trimmed_parts
trimmed_parts-IsItem [] h = tt
trimmed_parts-IsItem (part ∷ parts) h = elim (Bool-cases (is_empty (trim_space part))) [
  | inl blank ↦ rw blank (trimmed_parts-IsItem parts h.1)
  | inr full ↦ rw full (
    (full, trim_space-IsTrimmed part, trim_space-Lacks b',' part h.0),
    trimmed_parts-IsItem parts h.1,
  )
]

trimmed_parts_of_IsItem : (xs : List String) → All IsItem xs → trimmed_parts xs ≡ xs
unfolding trimmed_parts
trimmed_parts_of_IsItem [] h = refl
trimmed_parts_of_IsItem (x ∷ xs) h =
    rw (trim_space_of_IsTrimmed x h.0.1) (rw (h.0.0, trimmed_parts_of_IsItem xs h.1))

IsItem-Lacks : (xs : List String) → All IsItem xs → All (Lacks b',') xs
IsItem-Lacks [] h = tt
IsItem-Lacks (x ∷ xs) h = (h.0.2, IsItem-Lacks xs h.1)

trimmed_parts-join_with :
    (xs : List String) → All IsItem xs → trimmed_parts (split_at b',' (join_with "," xs)) ≡ xs
trimmed_parts-join_with [] h = unfold trimmed_parts split_at join_with trim_space in refl
trimmed_parts-join_with (x ∷ xs) h =
    ap trimmed_parts (split_at-join_with "," x xs (IsItem-Lacks (x ∷ xs) h))
    ∙ trimmed_parts_of_IsItem (x ∷ xs) h

integer_parts_of_integer :
    (part : String) (parts : List String) (i : ℤ)
    → atoi (trim_space part) ≡ some i
    → integer_parts (part ∷ parts) ≡ i ∷ integer_parts parts
unfolding integer_parts
integer_parts_of_integer part parts i h = ground arith

integer_parts-format_int : (is : List ℤ) → All InInt64 is → integer_parts (map format_int is) ≡ is
unfolding integer_parts
integer_parts-format_int [] h = refl
integer_parts-format_int (i ∷ is) h =
    integer_parts_of_integer (format_int i) (map format_int is) i (
      ap atoi (trim_space_of_IsTrimmed (format_int i) (format_int-IsTrimmed i))
      ∙ atoi-format_int i h.0)
    ∙ ap (λ l. i ∷ l) (integer_parts-format_int is h.1)

map-format_int-Lacks : (is : List ℤ) → All (Lacks b',') (map format_int is)
map-format_int-Lacks [] = tt
map-format_int-Lacks (i ∷ is) = (format_int-Lacks i, map-format_int-Lacks is)

module _ {F : Type 0} (O : Type 0) (fl : Floats F) where
  -- Reading any text as a list of strings succeeds, whatever the fallback, and every item of the
  -- list is non-empty, has no outer space and no comma.
  pub to_strings-str-IsItem :
      (s : String) (fallback : Option (List String))
      → (xs : List String) × (to_strings {O = O} fl (str s) fallback ≡ some xs) × All IsItem xs
  unfolding to_strings
  to_strings-str-IsItem s fallback =
      (trimmed_parts (split_at b',' s), refl, trimmed_parts-IsItem _ (split_at-Lacks b',' s))

  -- A list of well-formed items, printed with commas between, is read back as it was.
  pub to_strings-join_with :
      (xs : List String) (fallback : Option (List String))
      → All IsItem xs
      → to_strings {O = O} fl (str (join_with "," xs)) fallback ≡ some xs
  unfolding to_strings
  to_strings-join_with xs fallback h = ap some (trimmed_parts-join_with xs h)

  -- A non-empty list of int64 values, printed in decimal with commas between, is read back as it
  -- was.
  to_ints-join_with :
      (i : ℤ) (is : List ℤ) (fallback : Option (List ℤ))
      → All InInt64 (i ∷ is)
      → to_ints {O = O} fl (str (join_with "," (map format_int (i ∷ is)))) fallback ≡ some (i ∷ is)
  unfolding to_ints
  to_ints-join_with i is fallback h =
      ap (λ ps. some (integer_parts ps))
        (split_at-join_with "," (format_int i) (map format_int is) (map-format_int-Lacks (i ∷ is)))
      ∙ ap some (integer_parts-format_int (i ∷ is) h)

  -- An int64 that was printed as a string is read back by the integer accessor.
  to_int-to_string :
      (k : IntKind) (i fallback : ℤ) (s : String)
      → InInt64 i
      → to_int {O = O} fl (str (to_string {O = O} fl (integer k i) s)) fallback ≡ i
  unfolding to_int to_string
  to_int-to_string k i fallback s h = rw (atoi-format_int i h)
