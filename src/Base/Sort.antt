-- ===== src/Base/Sort.antt =====
-- `slice::sort_by_key`: a stable sort, as insertion into the sorted rest.
use mathlib.Core.Path.{◌≡◌, refl, ◌∙◌}
use mathlib.Core.Bool.{Bool}
use mathlib.Core.List.{List, [], ◌∷◌}
use native.Mathlib.Omega.{arith}
use Prim.Native.Nat.{suc}
use mathlib.Core.Logic.{inl, inr}
use higgs.Base.Tests.{if◌then◌else◌, Bool-cases}
use higgs.Base.Lists.{All, length, retain}

module _ {ℓ} {A : Type ℓ} (before : A → A → Bool) where
  -- `x` goes in front of all that it does not come after, so equal keys keep their order.
  unfoldable pub insert : A → List A → List A
  insert x [] = x ∷ []
  insert x (y ∷ ys) = let rest = insert x ys in if before y x then y ∷ rest else x ∷ y ∷ ys

  unfoldable pub sort : List A → List A
  unfolding insert
  sort [] = []
  sort (x ∷ xs) = insert x (sort xs)

  length-retain-insert :
      (p : A → Bool) (x : A) (xs : List A)
      → length (retain p (insert x xs)) ≡ length (retain p (x ∷ xs))
  unfolding insert retain
  length-retain-insert p x [] = refl
  length-retain-insert p x (y ∷ ys) = ground (arith, length-retain-insert p x ys)

  retain-length-one :
      (p : A → Bool) (x : A) (xs ys : List A)
      → length (retain p xs) ≡ length (retain p ys)
      → length (retain p (x ∷ xs)) ≡ length (retain p (x ∷ ys))
  unfolding retain
  retain-length-one p x xs ys h = ground arith

  -- Sorting keeps how many elements pass a test.
  pub length-retain-sort :
      (p : A → Bool) (xs : List A) → length (retain p (sort xs)) ≡ length (retain p xs)
  unfolding sort
  length-retain-sort p [] = refl
  length-retain-sort p (x ∷ xs) =
      length-retain-insert p x (sort xs)
      ∙ retain-length-one p x (sort xs) xs (length-retain-sort p xs)

  All-insert {κ} : (P : A → Type κ) (x : A) (xs : List A) → P x → All P xs → All P (insert x xs)
  unfolding insert
  All-insert P x [] p h = (p, tt)
  All-insert P x (y ∷ ys) p h = ground (arith, All-insert P x ys p h.1)

  pub All-sort {κ} : (P : A → Type κ) (xs : List A) → All P xs → All P (sort xs)
  unfolding sort
  All-sort P [] h = tt
  All-sort P (x ∷ xs) h = All-insert P x (sort xs) h.0 (All-sort P xs h.1)

  insert-All {κ} : (P : A → Type κ) (x : A) (xs : List A) → All P (insert x xs) → P x × All P xs
  unfolding insert
  insert-All P x [] h = h
  insert-All P x (y ∷ ys) h = elim (Bool-cases (before y x)) [
    | inl t ↦
        let g : P y × All P (insert x ys) = rw t at h in
        let (p, q) = insert-All P x ys g.1 in (p, (g.0, q))
    | inr f ↦ rw f at h
  ]

  -- What holds of all that is sorted holds of all that there was.
  pub sort-All {κ} : (P : A → Type κ) (xs : List A) → All P (sort xs) → All P xs
  unfolding sort
  sort-All P [] h = tt
  sort-All P (x ∷ xs) h = let (p, q) = insert-All P x (sort xs) h in (p, sort-All P xs q)

  length-insert : (x : A) (xs : List A) → length (insert x xs) ≡ suc (length xs)
  unfolding insert
  length-insert x [] = refl
  length-insert x (y ∷ ys) = ground (arith, length-insert x ys)

  pub length-sort : (xs : List A) → length (sort xs) ≡ length xs
  unfolding sort
  length-sort [] = refl
  length-sort (x ∷ xs) = omega (arith, length-insert x (sort xs), length-sort xs)
