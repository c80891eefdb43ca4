-- ===== src/Strconv/Split.antt =====
-- Trimming is idempotent, and splitting at a separator undoes joining with it.
use rediver_sdk_go.Prelude.{
  ℕ, ◌≡◌, refl, ◌∙◌, ap, inl, inr, false, Bool-cases, List, [], ◌∷◌, String, Char, code, arith,
  ◌==◌, ◌<>◌, All,
}
use text.Mathlib.TextLemmas.{cons-append, nil-append}
use rediver_sdk_go.Strconv.{
  is_space, trim_left, cons_right, trim_right, trim_space, push_first, split_at,
}

-- The text does not begin, does not end with space.
abbrev pub StartsTrimmed : String → Type 0
StartsTrimmed String.[] = Unit
StartsTrimmed (String.◌∷◌ c s) = is_space c ≡ false

abbrev pub EndsTrimmed : String → Type 0
EndsTrimmed String.[] = Unit
EndsTrimmed (String.◌∷◌ c String.[]) = is_space c ≡ false
EndsTrimmed (String.◌∷◌ c (String.◌∷◌ d s)) = EndsTrimmed (String.◌∷◌ d s)

trim_left-StartsTrimmed : (s : String) → StartsTrimmed (trim_left s)
unfolding trim_left
trim_left-StartsTrimmed String.[] = tt
trim_left-StartsTrimmed (String.◌∷◌ c s) = elim (Bool-cases (is_space c)) [
  | inl space ↦ rw space (trim_left-StartsTrimmed s)
  | inr other ↦ rw other other
]

cons_right-EndsTrimmed : (c : Char) (s : String) → EndsTrimmed s → EndsTrimmed (cons_right c s)
unfolding cons_right
cons_right-EndsTrimmed c String.[] h = elim (Bool-cases (is_space c)) [
  | inl space ↦ rw space tt
  | inr other ↦ rw other other
]
cons_right-EndsTrimmed c (String.◌∷◌ d s) h = h

trim_right-EndsTrimmed : (s : String) → EndsTrimmed (trim_right s)
unfolding trim_right
trim_right-EndsTrimmed String.[] = tt
trim_right-EndsTrimmed (String.◌∷◌ c s) =
    cons_right-EndsTrimmed c (trim_right s) (trim_right-EndsTrimmed s)

cons_right-StartsTrimmed :
    (c : Char) (s : String) → is_space c ≡ false → StartsTrimmed (cons_right c s)
unfolding cons_right
cons_right-StartsTrimmed c String.[] h = rw h h
cons_right-StartsTrimmed c (String.◌∷◌ d s) h = h

trim_right-StartsTrimmed : (s : String) → StartsTrimmed s → StartsTrimmed (trim_right s)
unfolding trim_right
trim_right-StartsTrimmed String.[] h = tt
trim_right-StartsTrimmed (String.◌∷◌ c s) h = cons_right-StartsTrimmed c (trim_right s) h

abbrev pub IsTrimmed : String → Type 0
IsTrimmed s = StartsTrimmed s × EndsTrimmed s

-- The result neither begins nor ends with space.
pub trim_space-IsTrimmed : (s : String) → IsTrimmed (trim_space s)
unfolding trim_space
trim_space-IsTrimmed s =
    (trim_right-StartsTrimmed _ (trim_left-StartsTrimmed s), trim_right-EndsTrimmed (trim_left s))

trim_left_of_StartsTrimmed : (s : String) → StartsTrimmed s → trim_left s ≡ s
unfolding trim_left
trim_left_of_StartsTrimmed String.[] h = refl
trim_left_of_StartsTrimmed (String.◌∷◌ c s) h = rw h

trim_right_of_EndsTrimmed : (s : String) → EndsTrimmed s → trim_right s ≡ s
unfolding trim_right cons_right
trim_right_of_EndsTrimmed String.[] h = refl
trim_right_of_EndsTrimmed (String.◌∷◌ c String.[]) h = rw h
trim_right_of_EndsTrimmed (String.◌∷◌ c (String.◌∷◌ d s)) h =
    rw (trim_right_of_EndsTrimmed (String.◌∷◌ d s) h)

-- A text without outer space is left as it is.
pub trim_space_of_IsTrimmed : (s : String) → IsTrimmed s → trim_space s ≡ s
unfolding trim_space
trim_space_of_IsTrimmed s h =
    ap trim_right (trim_left_of_StartsTrimmed s h.0) ∙ trim_right_of_EndsTrimmed s h.1

-- No character of the text has the code `sep`.
abbrev pub Lacks : ℕ → String → Type 0
Lacks sep String.[] = Unit
Lacks sep (String.◌∷◌ c s) = ((code c == sep) ≡ false) × Lacks sep s

trim_left-Lacks : (sep : ℕ) (s : String) → Lacks sep s → Lacks sep (trim_left s)
unfolding trim_left
trim_left-Lacks sep String.[] h = tt
trim_left-Lacks sep (String.◌∷◌ c s) h = elim (Bool-cases (is_space c)) [
  | inl space ↦ rw space (trim_left-Lacks sep s h.1)
  | inr other ↦ rw other h
]

cons_right-Lacks :
    (sep : ℕ) (c : Char) (s : String)
    → (code c == sep) ≡ false
    → Lacks sep s
    → Lacks sep (cons_right c s)
unfolding cons_right
cons_right-Lacks sep c String.[] hc hs = elim (Bool-cases (is_space c)) [
  | inl space ↦ rw space tt
  | inr other ↦ rw other (hc, tt)
]
cons_right-Lacks sep c (String.◌∷◌ d s) hc hs = (hc, hs)

trim_right-Lacks : (sep : ℕ) (s : String) → Lacks sep s → Lacks sep (trim_right s)
unfolding trim_right
trim_right-Lacks sep String.[] h = tt
trim_right-Lacks sep (String.◌∷◌ c s) h =
    cons_right-Lacks sep c (trim_right s) h.0 (trim_right-Lacks sep s h.1)

pub trim_space-Lacks : (sep : ℕ) (s : String) → Lacks sep s → Lacks sep (trim_space s)
unfolding trim_space
trim_space-Lacks sep s h = trim_right-Lacks sep _ (trim_left-Lacks sep s h)

push_first-Lacks :
    (sep : ℕ) (c : Char) (ps : List String)
    → (code c == sep) ≡ false
    → All (Lacks sep) ps
    → All (Lacks sep) (push_first c ps)
unfolding push_first
push_first-Lacks sep c [] hc h = ((hc, tt), tt)
push_first-Lacks sep c (p ∷ ps) hc h = ((hc, h.0), h.1)

-- No part contains the separator.
pub split_at-Lacks : (sep : ℕ) (s : String) → All (Lacks sep) (split_at sep s)
unfolding split_at
split_at-Lacks sep String.[] = (tt, tt)
split_at-Lacks sep (String.◌∷◌ c s) = elim (Bool-cases (code c == sep)) [
  | inl here ↦ rw here (tt, split_at-Lacks sep s)
  | inr other ↦ rw other (push_first-Lacks sep c _ other (split_at-Lacks sep s))
]

pub split_at_of_Lacks : (sep : ℕ) (p : String) → Lacks sep p → split_at sep p ≡ p ∷ []
unfolding split_at push_first
split_at_of_Lacks sep String.[] h = refl
split_at_of_Lacks sep (String.◌∷◌ c p) h = rw (h.0, split_at_of_Lacks sep p h.1)

-- A part without the separator in front of one is split off.
pub split_at-append :
    (sep : Char) (p s : String)
    → Lacks (code sep) p
    → split_at (code sep) (p <> String.◌∷◌ sep s) ≡ p ∷ split_at (code sep) s
unfolding split_at push_first
split_at-append sep String.[] s h = rw nil-append (ground arith)
split_at-append sep (String.◌∷◌ c p) s h = rw cons-append (rw (h.0, split_at-append sep p s h.1))

-- `strings.Join(ps, sep)` for a separator of one character.
unfoldable pub join_with : Char → List String → String
join_with sep [] = ""
join_with sep (p ∷ []) = p
join_with sep (p ∷ q ∷ ps) = p <> String.◌∷◌ sep (join_with sep (q ∷ ps))

-- Splitting a joined list at the separator gives the list back, if it is not empty and no part
-- contains the separator.
pub split_at-join_with :
    (sep : Char) (p : String) (ps : List String)
    → All (Lacks (code sep)) (p ∷ ps)
    → split_at (code sep) (join_with sep (p ∷ ps)) ≡ p ∷ ps
unfolding join_with
split_at-join_with sep p [] h = split_at_of_Lacks (code sep) p h.0
split_at-join_with sep p (q ∷ ps) h =
    split_at-append sep p _ h.0 ∙ ap (λ l. p ∷ l) (split_at-join_with sep q ps h.1)
