-- ===== src/Base/Assoc.antt =====
-- A map as an association list: `HashMap` and `BTreeMap` where the order of keys does not matter.
use mathlib.Core.Path.{◌≡◌, refl, sym, ◌∙◌}
use mathlib.Core.Logic.{◌⊎◌, inl, inr}
use mathlib.Core.Bool.{Bool, false}
use mathlib.Core.Option.{Option, none, some}
use mathlib.Core.List.{List, [], ◌∷◌}
use native.Mathlib.Omega.{arith}
use higgs.Base.Tests.{if◌then◌else◌, is_some, Bool-cases, some-injective}
use higgs.Base.Keys.{Eq, ◌==◌, beq_refl}

module _ {ℓ κ} {K : Type ℓ} {V : Type κ} ⦃e : Eq K⦄ where
  unfoldable pub get : K → List (K × V) → Option V
  get k [] = none
  get k ((j, v) ∷ m) = if j == k then some v else get k m

  unfoldable pub remove : K → List (K × V) → List (K × V)
  remove k [] = []
  remove k ((j, v) ∷ m) = let rest = remove k m in if j == k then rest else (j, v) ∷ rest

  unfoldable pub insert : K → V → List (K × V) → List (K × V)
  insert k v m = (k, v) ∷ remove k m

  abbrev pub contains_key : K → List (K × V) → Bool
  contains_key k m = is_some (get k m)

  pub get-remove :
      (k j : K) (m : List (K × V)) → get j (remove k m) ≡ (if k == j then none else get j m)
  unfolding get remove
  get-remove k j [] = ground arith
  get-remove k j ((i, v) ∷ m) =
      ground (arith, get-remove k j m, e.decides i k, e.decides i j, e.decides k j)

  pub get-insert :
      (k j : K) (v : V) (m : List (K × V))
      → get j (insert k v m) ≡ (if k == j then some v else get j m)
  unfolding get insert
  get-insert k j v m = ground (arith, get-remove k j m)

  -- What an inserted key and any other key have.
  pub got_insert :
      (k j : K) (v : V) (m : List (K × V)) {a : V}
      → get j (insert k v m) ≡ some a
      → ((k ≡ j) × (v ≡ a)) ⊎ ((k == j ≡ false) × (get j m ≡ some a))
  got_insert k j v m h = elim (Bool-cases (k == j)) [
    | inl t ↦ inl ((e.decides k j).0 t, some-injective (sym (get-insert k j v m ∙ rw t refl) ∙ h))
    | inr f ↦ inr (f, sym (get-insert k j v m ∙ rw f refl) ∙ h)
  ]

  pub got_remove :
      (k j : K) (m : List (K × V)) {a : V}
      → get j (remove k m) ≡ some a
      → (k == j ≡ false) × (get j m ≡ some a)
  got_remove k j m h = elim (Bool-cases (k == j)) [
    | inl t ↦
        let gone : get j (remove k m) ≡ none = get-remove k j m ∙ rw t refl in cc (sym gone ∙ h)
    | inr f ↦ (f, sym (get-remove k j m ∙ rw f refl) ∙ h)
  ]

  pub get_same : (k : K) (v : V) (m : List (K × V)) → get k (insert k v m) ≡ some v
  get_same k v m = get-insert k k v m ∙ rw (beq_refl k) refl

  pub get_other :
      (k j : K) (v : V) (m : List (K × V)) → k == j ≡ false → get j (insert k v m) ≡ get j m
  get_other k j v m f = get-insert k j v m ∙ rw f refl

  pub get_left : (k j : K) (m : List (K × V)) → k == j ≡ false → get j (remove k m) ≡ get j m
  get_left k j m f = get-remove k j m ∙ rw f refl

  pub ruleset map_laws = (get-insert, get-remove)
