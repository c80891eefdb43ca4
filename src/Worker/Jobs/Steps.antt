-- ===== src/Worker/Jobs/Steps.antt =====
-- What follows from a step of the jobs that was taken, and the sums over lists.
use rediver_sdk_go.Prelude.{
  ℕ, zero, suc, ◌+◌, ◌≡◌, refl, ap, true, Bool-cases, Option, none, some, Option-cases, inl, inr,
  subst, List, [], ◌∷◌, ◌++◌, arith,
}
use rediver_sdk_go.Worker.{Action, is_enabled, step}
use rediver_sdk_go.Worker.Jobs.{Tracked, take_at, moved, in_place}

-- The sum of a number of each element.
unfoldable pub total : {A : Type 0} → (A → ℕ) → List A → ℕ
total f [] = 0
total f (x ∷ xs) = f x + total f xs

pub total-append :
    {A : Type 0} (f : A → ℕ) (xs ys : List A) → total f (xs ++ ys) ≡ total f xs + total f ys
unfolding total
total-append f [] ys = omega arith
total-append f (x ∷ xs) ys = omega (arith, total-append f xs ys)

pub total-snoc :
    {A : Type 0} (f : A → ℕ) (xs : List A) (x : A) → total f (xs ++ x ∷ []) ≡ total f xs + f x
unfolding total
total-snoc f xs x = omega (arith, total-append f xs (x ∷ []))

pub none-empty : {A : Type 0} (xs : List A) → total (λ _. 1) xs ≡ 0 → xs ≡ []
unfolding total
none-empty [] e = refl
none-empty (x ∷ xs) e = absurd (omega arith)

module _ {J : Type 0} where
  pub take_at-total :
      (f : J → ℕ) (i : ℕ) (xs : List J) {j : J} {rest : List J}
      → take_at i xs ≡ some (j, rest)
      → total f xs ≡ f j + total f rest
  unfolding take_at total
  take_at-total f i [] e = cc
  take_at-total f zero (x ∷ xs) {j} {rest} e = cc
  take_at-total f (suc i) (x ∷ xs) {j} {rest} e = elim (Option-cases (take_at i xs)) [
    | inl n ↦ absurd cc
    | inr ((y, r), h) ↦
        let q : rest ≡ x ∷ r = cc in
        let w : y ≡ j = cc in omega (arith, take_at-total f i xs h, ap (total f) q, ap f w)
  ]

  pub take_at-first :
      (xs : List J) {j : J} {rest : List J} → take_at 0 xs ≡ some (j, rest) → xs ≡ j ∷ rest
  unfolding take_at
  take_at-first [] e = cc
  take_at-first (x ∷ xs) e = cc

  -- What follows from a step that was taken.
  pub moved-elim :
      (P : Tracked J → Type 0) (a : Action) (o : Option (J × List J)) (k : J → List J → Tracked J)
      (t : Tracked J) {u : Tracked J}
      → moved a o k t ≡ some u
      → ((j : J) (rest : List J) → o ≡ some (j, rest) → is_enabled a t.pool ≡ true → P (k j rest))
      → P u
  unfolding moved
  moved-elim P a none k t e h = absurd cc
  moved-elim P a (some (j, rest)) k t {u} e h = elim (Bool-cases (is_enabled a t.pool)) [
    | inl y ↦ let q : k j rest ≡ u = cc in subst P q (h j rest refl y)
    | inr y ↦ absurd cc
  ]

  pub in_place-elim :
      (P : Tracked J → Type 0) (a : Action) (t : Tracked J) {u : Tracked J}
      → in_place a t ≡ some u
      → (is_enabled a t.pool ≡ true → P (record t { pool = step a t.pool }))
      → P u
  unfolding in_place
  in_place-elim P a t {u} e h = elim (Bool-cases (is_enabled a t.pool)) [
    | inl y ↦ let q : record t { pool = step a t.pool } ≡ u = cc in subst P q (h y)
    | inr y ↦ absurd cc
  ]
