-- ===== src/Supervisor/Lifecycle/Lists.antt =====
-- The list of readers under a step of one of them: a reader of an earlier generation can only return.
use higgs.Base.Assoc.{get}
use higgs.Supervisor.Lifecycle.{
  moved, Pc, wired, stored, built, bumped, unflagged, claimed, idle, Caller, Sup,
}
use higgs.Base.{
  string_eq, nat_eq, ◌==◌, All, Bool-cases, arith, ◌∷◌, [], List, some, false, true, inr, inl, ◌⊎◌,
  refl, ◌≡◌, ◌<◌, ◌+◌, ℕ,
}
use higgs.Supervisor.Lifecycle.Owned.{
  Phase, Late, Shape, Old, all_settled, settled, hands, reader_hand,
}

pub get-cons :
    (gen g : ℕ) (q pc : Pc) (readers : List (ℕ × Pc))
    → get gen ((g, q) ∷ readers) ≡ some pc
    → ((g ≡ gen) × ((q ≡ pc) × (g == gen ≡ true)))
      ⊎ ((g == gen ≡ false) × (get gen readers ≡ some pc))
unfolding get
get-cons gen g q pc readers e = ground (arith, e)

pub Old-get :
    (n gen : ℕ) (readers : List (ℕ × Pc)) (pc : Pc)
    → get gen readers ≡ some pc
    → All (Old n) readers
    → Old n (gen, pc)
unfolding get Old
Old-get n gen [] pc e h = cc e
Old-get n gen ((g, q) ∷ readers) pc e h = elim (get-cons gen g q pc readers e) [
  | inl t ↦ rw (← t.0, ← t.1.0) h.0
  | inr f ↦ Old-get n gen readers pc f.1 h.1
]

Old-moved :
    (n gen : ℕ) (readers : List (ℕ × Pc)) (pc : Pc)
    → settled pc ≡ true
    → All (Old n) readers
    → All (Old n) (moved gen pc readers)
unfolding moved Old
Old-moved n gen [] pc e h = tt
Old-moved n gen ((g, q) ∷ readers) pc e h = elim (Bool-cases (g == gen)) [
  | inl t ↦ rw t ((h.0.0, e), h.1)
  | inr f ↦ rw f (h.0, Old-moved n gen readers pc e h.1)
]

pub hands-moved :
    (gen : ℕ) (readers : List (ℕ × Pc)) (pc next : Pc)
    → get gen readers ≡ some pc
    → hands (moved gen next readers) + reader_hand pc ≡ hands readers + reader_hand next
unfolding hands moved get
hands-moved gen [] pc next e = cc e
hands-moved gen ((g, q) ∷ readers) pc next e = elim (get-cons gen g q pc readers e) [
  | inl t ↦ rw (t.1.1, t.1.0) (omega arith)
  | inr f ↦ rw f.0 (omega (arith, hands-moved gen readers pc next f.1))
]

all_settled-moved :
    (gen : ℕ) (readers : List (ℕ × Pc)) (pc : Pc)
    → settled pc ≡ true
    → all_settled readers ≡ true
    → all_settled (moved gen pc readers) ≡ true
unfolding moved all_settled
all_settled-moved gen [] pc e h = refl
all_settled-moved gen ((g, q) ∷ readers) pc e h =
    ground (arith, e, h, all_settled-moved gen readers pc)

-- The readers behind the first.
pub Shape-moved :
    (n gen : ℕ) (F : Pc → Type 0) (readers : List (ℕ × Pc)) (pc : Pc)
    → gen < n
    → settled pc ≡ true
    → Shape n F readers
    → Shape n F (moved gen pc readers)
unfolding moved Shape Old
Shape-moved n gen F [] pc l e h = tt
Shape-moved n gen F ((g, q) ∷ readers) pc l e h = elim (Bool-cases (g == gen)) [
  | inl t ↦ rw t (inr (ground (arith, t, l), e), h.1)
  | inr f ↦ rw f (h.0, Old-moved n gen readers pc e h.1)
]

Late-moved :
    (g gen : ℕ) (pc : Pc) (s : Sup)
    → settled pc ≡ true
    → Late g s
    → Late g (record s { readers = moved gen pc s.readers })
Late-moved g gen pc s e p = record {
  current = p.current;
  is_running = p.is_running;
  unstopped = p.unstopped;
  old = Old-moved s.generation gen s.readers pc e p.old;
}

pub Phase-moved :
    (c : Caller) (gen : ℕ) (pc : Pc) (s : Sup)
    → settled pc ≡ true
    → Phase c s
    → Phase c (record s { readers = moved gen pc s.readers })
unfolding Phase
Phase-moved idle gen pc s e p = record { off = p.off; halted = p.halted }
Phase-moved claimed gen pc s e p = record {
  empty = p.empty;
  is_running = p.is_running;
  rest = all_settled-moved gen s.readers pc e p.rest;
}
Phase-moved unflagged gen pc s e p = (
  record {
    empty = p.0.empty;
    is_running = p.0.is_running;
    rest = all_settled-moved gen s.readers pc e p.0.rest;
  },
  p.1,
)
Phase-moved (bumped g) gen pc s e p = (Late-moved g gen pc s e p.0, p.1)
Phase-moved (built g) gen pc s e p = (Late-moved g gen pc s e p.0, p.1)
Phase-moved (stored g) gen pc s e p = Late-moved g gen pc s e p
Phase-moved (wired g) gen pc s e p = Late-moved g gen pc s e p
Phase-moved _ gen pc s e p = tt

-- What a change of the shared state leaves of the readers' shape.
pub Shape-change :
    (n : ℕ) (F G : Pc → Type 0) (readers : List (ℕ × Pc))
    → All (λ r. F r.1 → G r.1) readers
    → Shape n F readers
    → Shape n G readers
unfolding Shape
Shape-change n F G [] f h = tt
Shape-change n F G ((g, pc) ∷ readers) f h =
    (elim h.0 [ inl c ↦ inl (c.0, f.0 c.1) | inr o ↦ inr o ], h.1)

each : (P : Pc → Type 0) (readers : List (ℕ × Pc)) → ((pc : Pc) → P pc) → All (λ r. P r.1) readers
each P [] f = tt
each P ((g, pc) ∷ readers) f = (f pc, each P readers f)
