-- ===== src/Supervisor/Lifecycle/Readers.antt =====
-- The readers of src/supervisor.rs by their generations, and what no step of a reader touches.
use higgs.Base.Assoc.{get}
use higgs.Supervisor.Lifecycle.{moved, read_on, spawn, Pc, Sup}
use higgs.Base.{
  if◌then◌else◌, false, string_eq, nat_eq, ◌==◌, All, Bool-cases, arith, ◌∷◌, [], List, some, true,
  Bool, inr, inl, refl, ◌≡◌, ℕ,
}

-- What holds of where every reader stands.
abbrev pub Each : (Pc → Bool) → List (ℕ × Pc) → Type 0
Each p = All (λ r. p r.1 ≡ true)

pub Each-get :
    (p : Pc → Bool) (gen : ℕ) (readers : List (ℕ × Pc)) (pc : Pc)
    → get gen readers ≡ some pc
    → Each p readers
    → p pc ≡ true
unfolding get
Each-get p gen [] pc e h = cc e
Each-get p gen ((g, q) ∷ readers) pc e h = ground (arith, e, h.0, Each-get p gen readers pc)

pub Each-moved :
    (p : Pc → Bool) (gen : ℕ) (readers : List (ℕ × Pc)) (pc : Pc)
    → p pc ≡ true
    → Each p readers
    → Each p (moved gen pc readers)
unfolding moved
Each-moved p gen [] pc e h = tt
Each-moved p gen ((g, q) ∷ readers) pc e h = elim (Bool-cases (g == gen)) [
  | inl t ↦ rw t (e, h.1)
  | inr n ↦ rw n (h.0, Each-moved p gen readers pc e h.1)
]

module _ (gen : ℕ) (ok : Bool) where
  pub caller-read_on : (pc : Pc) (s : Sup) → (read_on gen ok pc s).1.caller ≡ s.caller
  unfolding read_on
  caller-read_on spawn s = ground arith
  caller-read_on _ s = refl

  pub stopped-read_on : (pc : Pc) (s : Sup) → (read_on gen ok pc s).1.stopped ≡ s.stopped
  unfolding read_on
  stopped-read_on spawn s = ground arith
  stopped-read_on _ s = refl

-- What holds of a test's branches.
pub on_both :
    (P : Sup → Type 0) (b : Bool) (x y : Sup)
    → (b ≡ true → P x)
    → (b ≡ false → P y)
    → P (if b then x else y)
on_both P true x y f g = f refl
on_both P false x y f g = g refl
