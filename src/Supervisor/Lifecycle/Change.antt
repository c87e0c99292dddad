-- ===== src/Supervisor/Lifecycle/Change.antt =====
-- What a step of the caller leaves of the readers: `stop` leaves nothing that a reader may still put into
-- `proc`, and a start finds the readers at rest.
use higgs.Supervisor.Lifecycle.{
  some_reader_locks, reader_locks, gone, leave, give_up, replace, abandon, die, check_generation,
  reading, Pc, idle, Caller, count, Sup,
}
use higgs.Base.{
  absurd_bool, string_eq, nat_eq, All, arith, ◌∷◌, [], List, false, true, Bool, inr, inl, ◌∙◌, sym,
  refl, ◌≡◌, ◌+◌, ℕ,
}
use higgs.Supervisor.Lifecycle.Quiet.{harmless}
use higgs.Supervisor.Lifecycle.Readers.{Each}
use higgs.Supervisor.Lifecycle.Owned.{
  Phase, Steady, Shape, Fit, Extra, Alive, Old, all_settled, settled, owners, hands, caller_hand,
}

pub Phase-at : (c : Caller) (s : Sup) → s.caller ≡ c → Steady s → Phase c s
Phase-at c s e h = rw (← e) h.phase

pub owned_at :
    (c : Caller) (s : Sup)
    → s.caller ≡ c
    → Steady s
    → s.processes ≡ count s.proc + caller_hand c + hands s.readers
unfolding owners
owned_at c s e h = rw (← e) h.is_owned

-- `stop`, which leaves the reader with nothing that it may still put into `proc`.
Extra-halt :
    (pc : Pc) (c d : Caller) (st pr pr' : Bool)
    → (pr ≡ false → pr' ≡ false)
    → (d ≡ idle → harmless pc ≡ true)
    → Extra pc c st pr
    → Extra pc d true pr'
unfolding Extra harmless
Extra-halt (die b) c d st pr pr' p n x = λ _. refl
Extra-halt abandon c d st pr pr' p n x = refl
Extra-halt leave c d st pr pr' p n x = inl refl
Extra-halt give_up c d st pr pr' p n x = p x
Extra-halt replace c d st pr pr' p n x = λ i. absurd_bool (n i)
Extra-halt _ c d st pr pr' p n x = tt

Fit-halt :
    (s t : Sup) (pc : Pc)
    → t.stopped ≡ true
    → (s.proc ≡ false → t.proc ≡ false)
    → (t.caller ≡ idle → harmless pc ≡ true)
    → Fit s pc
    → Fit t pc
unfolding Fit Alive
Fit-halt s t pc e p n f = (
  λ _ _ u. absurd_bool (sym u ∙ e),
  rw e (Extra-halt pc s.caller t.caller s.stopped s.proc t.proc p n f.1),
)

pub Each-halt :
    (s t : Sup) (readers : List (ℕ × Pc))
    → t.stopped ≡ true
    → (s.proc ≡ false → t.proc ≡ false)
    → (t.caller ≡ idle → Each harmless readers)
    → All (λ r. Fit s r.1 → Fit t r.1) readers
Each-halt s t [] e p n = tt
Each-halt s t ((g, pc) ∷ readers) e p n =
    (Fit-halt s t pc e p λ i. (n i).0, Each-halt s t readers e p λ i. (n i).1)

-- A start, whose readers rest.
Fit-settled : (t : Sup) (pc : Pc) → settled pc ≡ true → Alive t → Fit t pc
unfolding Fit settled Extra
Fit-settled t reading h a = (λ _. a, tt)
Fit-settled t check_generation h a = (λ _. a, tt)
Fit-settled t gone h a = (λ _. a, tt)
Fit-settled t _ h a = absurd_bool h

pub Each-settled :
    (s t : Sup) (readers : List (ℕ × Pc))
    → all_settled readers ≡ true
    → Alive t
    → All (λ r. Fit s r.1 → Fit t r.1) readers
unfolding all_settled
Each-settled s t [] h a = tt
Each-settled s t ((g, pc) ∷ readers) h a =
    (λ _. Fit-settled t pc (ground (arith, h)) a, Each-settled s t readers (ground (arith, h)) a)

Old-later : (n : ℕ) (readers : List (ℕ × Pc)) → All (Old n) readers → All (Old (n + 1)) readers
unfolding Old
Old-later n [] h = tt
Old-later n (r ∷ readers) h = ((omega (arith, h.0.0), h.0.1), Old-later n readers h.1)

pub Old-bump :
    (n : ℕ) (F : Pc → Type 0) (readers : List (ℕ × Pc))
    → all_settled readers ≡ true
    → Shape n F readers
    → All (Old (n + 1)) readers
unfolding all_settled Shape Old
Old-bump n F [] h f = tt
Old-bump n F ((g, pc) ∷ readers) h f = (
  (elim f.0 [ inl c ↦ omega (arith, c.0) | inr o ↦ omega (arith, o.0) ], ground (arith, h)),
  Old-later n readers f.1,
)

pub Shape-Old :
    (n : ℕ) (F : Pc → Type 0) (readers : List (ℕ × Pc)) → All (Old n) readers → Shape n F readers
unfolding Shape
Shape-Old n F [] h = tt
Shape-Old n F (r ∷ readers) h = (inr h.0, h.1)

pub unlocked-Old :
    (n : ℕ) (readers : List (ℕ × Pc)) → All (Old n) readers → some_reader_locks readers ≡ false
unfolding some_reader_locks Old reader_locks settled
unlocked-Old n [] h = refl
unlocked-Old n ((g, reading) ∷ readers) h = unlocked-Old n readers h.1
unlocked-Old n ((g, check_generation) ∷ readers) h = unlocked-Old n readers h.1
unlocked-Old n ((g, gone) ∷ readers) h = unlocked-Old n readers h.1
unlocked-Old n ((g, _) ∷ readers) h = absurd_bool h.0.1
