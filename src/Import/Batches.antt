-- ===== src/Import/Batches.antt =====
-- The batches of an import: together they are the whole list, in order.
use rediver_sdk_go.Prelude.{
  dec_le, ℕ, zero, suc, ◌+◌, ◌-◌, ◌≤◌, ◌<◌, ◌≡◌, refl, sym, ap, ◌∙◌, inl, inr, Bool-cases, List, [],
  ◌∷◌, ◌++◌, length, take, drop, concat, min, ltb, All, arith, if◌then◌else◌, length-take,
  length-drop, take-append-drop,
}
use rediver_sdk_go.Import.{agent_max_batch_size, for_batches}

module _ {ℓ} {A : Type ℓ} where
  -- The batches that the loop sends from place `i` on.
  unfoldable pub batches : (fuel i : ℕ) → List A → List (List A)
  batches zero i xs = []
  batches (suc fuel) i xs =
      let end = min (i + agent_max_batch_size) (length xs) in
      let rest = batches fuel (i + agent_max_batch_size) xs in
      if ltb i (length xs) then take (end - i) (drop i xs) ∷ rest else []

  abbrev pub send_all {κ} : {W : Type κ} → (List A → W → W) → List (List A) → W → W
  send_all send [] w = w
  send_all send (b ∷ bs) w = send_all send bs (send b w)

  for_batches-send_all {κ} :
      {W : Type κ} (send : List A → W → W) (fuel i : ℕ) (xs : List A) (w : W)
      → for_batches send fuel i xs w ≡ send_all send (batches fuel i xs) w
  unfolding for_batches batches
  for_batches-send_all send zero i xs w = refl
  for_batches-send_all send (suc fuel) i xs w = elim (Bool-cases (ltb i (length xs))) [
    | inl more ↦ rw more (for_batches-send_all send fuel _ xs _)
    | inr over ↦ rw over refl
  ]

  drop_all : (i : ℕ) (xs : List A) → length xs ≤ i → drop i xs ≡ []
  drop_all zero [] h = refl
  drop_all zero (x ∷ xs) h = absurd (omega arith)
  drop_all (suc i) [] h = refl
  drop_all (suc i) (x ∷ xs) h = drop_all i xs (omega arith)

  drop-nil : (k : ℕ) → ◌≡◌ {A = List A} (drop k []) []
  drop-nil zero = refl
  drop-nil (suc k) = refl

  drop-drop : (i k j : ℕ) (xs : List A) → i + k ≡ j → drop k (drop i xs) ≡ drop j xs
  drop-drop zero k j xs e = ap (λ n. drop n xs) (let f : k ≡ j = omega arith in f)
  drop-drop (suc i) k zero xs e = absurd (omega arith)
  drop-drop (suc i) k (suc j) [] e = drop-nil k
  drop-drop (suc i) k (suc j) (x ∷ xs) e = drop-drop i k j xs (omega arith)

  -- What a batch leaves is what the next round starts from.
  after_batch :
      (i : ℕ) (xs : List A)
      → i < length xs
      → drop (min (i + 500) (length xs) - i) (drop i xs) ≡ drop (i + 500) xs
  after_batch i xs h = elim (dec_le (i + 500) (length xs)) [
    | yes full ↦ drop-drop i _ (i + 500) xs (omega arith)
    | no short ↦
        drop-drop i _ (length xs) xs (omega arith)
        ∙ drop_all (length xs) xs (omega arith)
        ∙ sym (drop_all (i + 500) xs (omega arith))
  ]

  concat-batches :
      (fuel i : ℕ) (xs : List A) → length xs ≤ i + fuel → concat (batches fuel i xs) ≡ drop i xs
  unfolding batches
  concat-batches zero i xs h = sym (drop_all i xs (omega arith))
  concat-batches (suc fuel) i xs h = elim (Bool-cases (ltb i (length xs))) [
    | inl more ↦ rw more (
        ap (λ rest. take (min (i + 500) (length xs) - i) (drop i xs) ++ rest)
          (concat-batches fuel (i + 500) xs (omega arith) ∙ sym (after_batch i xs (ground arith)))
        ∙ take-append-drop (min (i + 500) (length xs) - i) (drop i xs))
    | inr over ↦ rw over (sym (drop_all i xs (ground arith)))
  ]

  unfoldable pub IsBatch : List A → Type 0
  IsBatch b = (0 < length b) × (length b ≤ agent_max_batch_size)

  size_in_bounds :
      (i : ℕ) (xs : List A)
      → i < length xs
      → IsBatch (take (min (i + 500) (length xs) - i) (drop i xs))
  unfolding IsBatch
  size_in_bounds i xs h =
      let size = length-take (min (i + 500) (length xs) - i) (drop i xs) in
      let left = length-drop i xs in (omega (arith, size, left, h), omega (arith, size, left, h))

  batches-IsBatch : (fuel i : ℕ) (xs : List A) → All IsBatch (batches fuel i xs)
  unfolding batches IsBatch
  batches-IsBatch zero i xs = tt
  batches-IsBatch (suc fuel) i xs = elim (Bool-cases (ltb i (length xs))) [
    | inl more ↦ rw more (size_in_bounds i xs (ground arith), batches-IsBatch fuel (i + 500) xs)
    | inr over ↦ rw over tt
  ]

  -- The loop over a list hands `send`, whatever it does, the batches of the list in turn. They
  -- together are the list, in order, and none is empty or has more than 500 elements.
  pub for_batches_lem {κ} :
      {W : Type κ} (send : List A → W → W) (xs : List A) (w : W)
      → (for_batches send (length xs) 0 xs w ≡ send_all send (batches (length xs) 0 xs) w)
        × (concat (batches (length xs) 0 xs) ≡ xs)
        × All IsBatch (batches (length xs) 0 xs)
  for_batches_lem send xs w = (
    for_batches-send_all send (length xs) 0 xs w,
    concat-batches (length xs) 0 xs (omega arith),
    batches-IsBatch (length xs) 0 xs,
  )
