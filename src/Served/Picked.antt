-- ===== src/Served/Picked.antt =====
-- The loop for a free id ends within one try more than there are taken ids.
use higgs.Base.Text.{Text, text_eq, text_beq_iff}
use higgs.Served.{candidate, contains, pick}
use higgs.Served.Decimal.{candidate-injective}
use higgs.Base.{
  some-injective, any, retain, length, length-retain-le, not, ◌∷◌, [], List, some, Bool-cases, inl,
  inr, arith, true, false, ◌≡◌, ap, sym, refl, ◌∙◌, ◌+◌, ◌<◌, suc, zero, ℕ, ◌==◌, nat_eq, string_eq,
}

-- The taken ids without one.
without : Text → List Text → List Text
without id taken = retain (λ t. not (t == id)) taken

contains-without :
    (id other : Text) (taken : List Text)
    → other == id ≡ false
    → contains (without id taken) other ≡ contains taken other
unfolding without retain any
contains-without id other [] n = refl
contains-without id other (t ∷ taken) n =
    ground (arith, contains-without id other taken n, n, text_beq_iff t id, text_beq_iff t other)

shorter :
    (id : Text) (taken : List Text)
    → contains taken id ≡ true
    → length (without id taken) < length taken
unfolding without retain any
shorter id [] h = cc h
shorter id (t ∷ taken) h = elim (Bool-cases (t == id)) [
  | inl e ↦ rw e (ground (arith, length-retain-le (λ x. not (x == id)) taken))
  | inr f ↦ ground (arith, shorter id taken, f, h)
]

apart : (model : Text) (i j : ℕ) → i < j → candidate model j == candidate model i ≡ false
apart model i j h = elim (Bool-cases (candidate model j == candidate model i)) [
  | inl t ↦ absurd (
      omega (
        arith,
        candidate-injective model j i ((text_beq_iff (candidate model j) (candidate model i)).0 t),
      ))
  | inr f ↦ f
]

-- A taken id of a suffix that is passed plays no part.
pick-without :
    (fuel : ℕ) (taken : List Text) (model : Text) (i j : ℕ)
    → i < j
    → pick fuel (without (candidate model i) taken) model j ≡ pick fuel taken model j
unfolding pick
pick-without zero taken model i j h = refl
pick-without (suc fuel) taken model i j h =
    rw
      (
        contains-without (candidate model i) (candidate model j) taken (apart model i j h),
        pick-without fuel taken model i (j + 1) (omega arith),
      )
      refl

pub pick_total :
    (fuel : ℕ) (taken : List Text) (model : Text) (i : ℕ)
    → length taken < fuel
    → (picked : Text × ℕ) × (pick fuel taken model i ≡ some picked)
unfolding pick
pick_total zero taken model i h = elim h [ ]
pick_total (suc fuel) taken model i h = elim (Bool-cases (contains taken (candidate model i))) [
  | inl t ↦
      let (picked, e) =
        pick_total fuel (without (candidate model i) taken) model (i + 1)
          (omega (arith, shorter (candidate model i) taken t)) in
      (picked, rw t (sym (pick-without fuel taken model i (i + 1) (omega arith)) ∙ e))
  | inr f ↦ ((candidate model i, i + 1), rw f refl)
]

pub pick-free :
    (fuel : ℕ) (taken : List Text) (model : Text) (i : ℕ) (picked : Text × ℕ)
    → pick fuel taken model i ≡ some picked
    → contains taken picked.0 ≡ false
unfolding pick
pick-free zero taken model i picked e = cc e
pick-free (suc fuel) taken model i picked e =
    elim (Bool-cases (contains taken (candidate model i))) [
      | inl t ↦ pick-free fuel taken model (i + 1) picked (ground (arith, e, t))
      | inr f ↦
          let first : pick (suc fuel) taken model i ≡ some (candidate model i, i + 1) = rw f refl in
          ap (λ (x : Text × ℕ). contains taken x.0) (some-injective (sym e ∙ first)) ∙ f
    ]
