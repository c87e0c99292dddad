-- ===== src/Supervisor/Lifecycle/Moving.antt =====
-- The steps of a reader in the list of readers.
use higgs.Base.Assoc.{get}
use higgs.Supervisor.Lifecycle.{
  reader_step, moved, read_on, spawn, Pc, wired, stored, built, bumped, unflagged, claimed, idle,
  Caller, Sup,
}
use higgs.Base.{
  absurd_bool, beq_refl, string_eq, nat_eq, All, arith, ◌∷◌, [], List, some, none, Option, false,
  true, Bool, inr, inl, ◌∙◌, ap, sym, refl, ◌≡◌, ◌<◌, ◌+◌, ℕ,
}
use higgs.Supervisor.Lifecycle.Readers.{caller-read_on}
use higgs.Supervisor.Lifecycle.Lists.{Phase-moved, Shape-moved, hands-moved, Old-get, get-cons}
use higgs.Supervisor.Lifecycle.Owned.{
  Phase, Steady, Late, Idle, Shape, Fit, Old, early, settled, owners, hands, caller_hand,
}
use higgs.Supervisor.Lifecycle.Onward.{settled_hand, returns, onward, Onward}

Steady-Old :
    (gen : ℕ) (pc next : Pc) (s : Sup)
    → get gen s.readers ≡ some pc
    → Old s.generation (gen, pc)
    → settled next ≡ true
    → Steady s
    → Steady (record s { readers = moved gen next s.readers })
unfolding owners Old Fit
Steady-Old gen pc next s e o n h = record {
  is_owned = omega (
    arith,
    h.is_owned,
    hands-moved gen s.readers pc next e,
    settled_hand pc o.1,
    settled_hand next n,
  );
  shape = Shape-moved s.generation gen (Fit s) s.readers next o.0 n h.shape;
  phase = Phase-moved s.caller gen next s n h.phase;
}

first-Old :
    (n : ℕ) (pc : Pc) (readers rest : List (ℕ × Pc))
    → readers ≡ (n, pc) ∷ rest
    → All (Old n) readers
    → n < n
unfolding Old
first-Old n pc [] rest e h = cc e
first-Old n pc ((g, q) ∷ readers) rest e h = ground (arith, e, h.0.0)

not-Late :
    (g : ℕ) (pc : Pc) (rest : List (ℕ × Pc)) (s : Sup)
    → s.readers ≡ (s.generation, pc) ∷ rest
    → Late g s
    → false ≡ true
not-Late g pc rest s e l = ground (arith, first-Old s.generation pc s.readers rest e l.old)

Phase-current :
    (c : Caller) (pc : Pc) (rest : List (ℕ × Pc)) (s t : Sup)
    → s.readers ≡ (s.generation, pc) ∷ rest
    → early c ≡ false
    → Phase c s
    → (c ≡ idle → Idle t)
    → (readers : List (ℕ × Pc)) → Phase c (record t { readers = readers })
unfolding Phase early
Phase-current idle pc rest s t e n p i readers = record {
  off = (i refl).off;
  halted = (i refl).halted;
}
Phase-current claimed pc rest s t e n p i readers = absurd_bool (sym n)
Phase-current unflagged pc rest s t e n p i readers = absurd_bool (sym n)
Phase-current (bumped g) pc rest s t e n p i readers = absurd_bool (not-Late g pc rest s e p.0)
Phase-current (built g) pc rest s t e n p i readers = absurd_bool (not-Late g pc rest s e p.0)
Phase-current (stored g) pc rest s t e n p i readers = absurd_bool (not-Late g pc rest s e p)
Phase-current (wired g) pc rest s t e n p i readers = absurd_bool (not-Late g pc rest s e p)
Phase-current _ pc rest s t e n p i readers = tt

Steady-current :
    (pc : Pc) (rest : List (ℕ × Pc)) (s t : Sup) (next : Pc)
    → s.readers ≡ (s.generation, pc) ∷ rest
    → All (Old s.generation) rest
    → early s.caller ≡ false
    → Steady s
    → Onward pc s (next, t)
    → t.generation ≡ s.generation
    → t.caller ≡ s.caller
    → Steady (record t { readers = (s.generation, next) ∷ rest })
unfolding owners hands Shape Fit
Steady-current pc rest s t next e o c h on g k = record {
  is_owned = omega (
    arith,
    ap caller_hand k,
    on.balance (caller_hand s.caller + hands rest) (omega (arith, h.is_owned, ap hands e)),
  );
  shape = (inl (sym g, on.fit), rw g o);
  phase =
      Phase-current t.caller pc rest s t e (ap early k ∙ c) (rw k h.phase)
        (λ i. on.stays_idle (sym k ∙ i)) ((s.generation, next) ∷ rest);
}

generation-read_on :
    (gen : ℕ) (ok : Bool) (pc : Pc) (s : Sup) → (read_on gen ok pc s).1.generation ≡ s.generation
unfolding read_on
generation-read_on gen ok spawn s = ground arith
generation-read_on gen ok _ s = refl

-- The reader that steps is one of an earlier generation, or stands first.
data Place (gen : ℕ) (pc : Pc) (s : Sup) : Type 0 where
  earlier : Old s.generation (gen, pc) → Place gen pc s
  first :
      (rest : List (ℕ × Pc))
      → s.readers ≡ (s.generation, pc) ∷ rest
      → gen ≡ s.generation
      → Fit s pc
      → All (Old s.generation) rest
      → Place gen pc s

place :
    (gen : ℕ) (pc : Pc) (s : Sup) (readers : List (ℕ × Pc))
    → s.readers ≡ readers
    → get gen readers ≡ some pc
    → Shape s.generation (Fit s) readers
    → Place gen pc s
unfolding Shape get
place gen pc s [] r e h = cc e
place gen pc s ((g, q) ∷ rest) r e h = elim (get-cons gen g q pc rest e) [
  | inl t ↦ elim h.0 [
    | inl c ↦ first rest (rw (r, c.0, t.1.0) refl) (sym t.0 ∙ c.0) (rw (← t.1.0) c.1) h.1
    | inr o ↦ earlier (rw (← t.0, ← t.1.0) o)
  ]
  | inr f ↦ earlier (Old-get s.generation gen rest pc f.1 h.1)
]

moved-first :
    (gen : ℕ) (pc next : Pc) (s : Sup) (rest : List (ℕ × Pc))
    → s.readers ≡ (s.generation, pc) ∷ rest
    → gen ≡ s.generation
    → moved gen next s.readers ≡ (s.generation, next) ∷ rest
unfolding moved
moved-first gen pc next s rest e g = ap (λ x. moved gen next x) e ∙ rw (← g, beq_refl gen) refl

idle_of : (c : Caller) (s : Sup) → Phase c s → c ≡ idle → Idle s
unfolding Phase
idle_of idle s p i = p
idle_of _ s p i = cc i

pub Steady-reader_step :
    (gen : ℕ) (ok : Bool) (o : Option Pc) (s : Sup)
    → get gen s.readers ≡ o
    → early s.caller ≡ false
    → Steady s
    → Steady (reader_step gen ok o s)
unfolding reader_step Old
Steady-reader_step gen ok none s e c h = h
Steady-reader_step gen ok (some pc) s e c h = elim (place gen pc s s.readers refl e h.shape) [
  | earlier o ↦
      let r = returns gen ok pc s o.0 o.1 in
      rw r.1 (Steady-Old gen pc (read_on gen ok pc s).0 s e o r.0 h)
  | first rest q g f o ↦ rw (moved-first gen pc (read_on gen ok pc s).0 s rest q g) (
      Steady-current pc rest s (read_on gen ok pc s).1 (read_on gen ok pc s).0 q o c h
        (onward gen ok pc s f (idle_of s.caller s h.phase)) (generation-read_on gen ok pc s)
        (caller-read_on gen ok pc s))
]
