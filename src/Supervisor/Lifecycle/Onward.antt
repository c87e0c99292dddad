-- ===== src/Supervisor/Lifecycle/Onward.antt =====
-- Each step of a reader keeps the processes that `proc` and the reader hold.
use higgs.Supervisor.Lifecycle.{
  read_on, proc_locked, gone, leave, give_up, reap_old, lock_old, announce_restart, wire_writer,
  replace, recheck_stopped, lock_proc, abandon, guard_stopped, spawn, recheck_generation, wake,
  announce_death, die, check_stopped, check_generation, reading, Pc, idle, count, Sup,
}
use higgs.Base.{
  absurd_bool, string_eq, nat_eq, ◌==◌, All, if◌then◌else◌, arith, ◌∷◌, [], List, false, true, Bool,
  inr, inl, ◌∙◌, sym, refl, ◌≡◌, ◌<◌, ◌+◌, ℕ,
}
use higgs.Supervisor.Lifecycle.Owned.{
  Idle, Fit, returned, Extra, Alive, Old, all_settled, settled, hands, reader_hand,
}

-- A step of the current reader from `pc`, on what is shared.
pub record Onward (pc : Pc) (s : Sup) (next : Pc × Sup) : Type 0 where
  pub fit : Fit next.1 next.0
  pub stays_idle : s.caller ≡ idle → Idle next.1
  pub balance :
      (rest : ℕ)
      → s.processes ≡ count s.proc + rest + reader_hand pc
      → next.1.processes ≡ count next.1.proc + rest + reader_hand next.0

still :
    (pc : Pc) (s : Sup) (next : Pc)
    → (s.caller ≡ idle → Idle s)
    → reader_hand next ≡ reader_hand pc
    → Fit s next
    → Onward pc s (next, s)
still pc s next i h f = record { fit = f; stays_idle = i; balance = λ r e. rw h e }

still_if :
    (pc : Pc) (s : Sup) (b : Bool) (x y : Pc)
    → (s.caller ≡ idle → Idle s)
    → reader_hand x ≡ reader_hand pc
    → reader_hand y ≡ reader_hand pc
    → (b ≡ true → Fit s x)
    → (b ≡ false → Fit s y)
    → Onward pc s (if b then x else y, s)
still_if pc s true x y i h k f g = still pc s x i h (f refl)
still_if pc s false x y i h k f g = still pc s y i k (g refl)

pub onward :
    (gen : ℕ) (ok : Bool) (pc : Pc) (s : Sup)
    → Fit s pc
    → (s.caller ≡ idle → Idle s)
    → Onward pc s (read_on gen ok pc s)
unfolding read_on Fit Alive Extra returned reader_hand
onward gen ok reading s f i = still reading s check_generation i refl (f.0, tt)
onward gen ok check_generation s f i =
    still_if check_generation s (s.generation == gen) check_stopped gone i refl refl
      (λ _. (f.0, tt)) (λ _. (λ e. absurd_bool (sym e), tt))
onward gen ok check_stopped s f i = still check_stopped s (die s.stopped) i refl (f.0, λ e. e)
onward gen ok (die true) s f i = record {
  fit = (f.0, inl (f.1 refl));
  stays_idle = λ c. record { off = (i c).off; halted = (i c).halted };
  balance = λ r e. e;
}
onward gen ok (die false) s f i = record {
  fit = (f.0, tt);
  stays_idle = λ c. record { off = (i c).off; halted = (i c).halted };
  balance = λ r e. e;
}
onward gen ok announce_death s f i = record {
  fit = (f.0, tt);
  stays_idle = λ c. record { off = (i c).off; halted = (i c).halted };
  balance = λ r e. e;
}
onward gen ok wake s f i =
    still_if wake s s.stopped leave recheck_generation i refl refl (λ e. (f.0, inl e))
      (λ _. (f.0, tt))
onward gen ok recheck_generation s f i =
    still_if recheck_generation s (s.generation == gen) spawn gone i refl refl (λ _. (f.0, tt))
      (λ _. (λ e. absurd_bool (sym e), tt))
onward gen true spawn s f i = record {
  fit = (f.0, tt);
  stays_idle = λ c. record { off = (i c).off; halted = (i c).halted };
  balance = λ r e. omega (arith, e);
}
onward gen false spawn s f i = still spawn s lock_old i refl (f.0, tt)
onward gen ok guard_stopped s f i =
    still_if guard_stopped s s.stopped abandon lock_proc i refl refl (λ e. (f.0, e))
      (λ _. (f.0, tt))
onward gen ok abandon s f i = record {
  fit = (f.0, inl f.1);
  stays_idle = λ c. record { off = (i c).off; halted = (i c).halted };
  balance = λ r e. omega (arith, e);
}
onward gen ok lock_proc s f i =
    still_if lock_proc s (proc_locked s) lock_proc recheck_stopped i refl refl (λ _. f)
      (λ _. (f.0, tt))
onward gen ok recheck_stopped s f i =
    still_if recheck_stopped s s.stopped abandon replace i refl refl (λ e. (f.0, e))
      (λ e. (f.0, λ _. e))
onward gen ok replace s f i = record {
  fit = (λ _ c t. f.0 refl c t, tt);
  stays_idle = λ c. record {
    off = λ n. absurd_bool (sym n ∙ f.0 refl c (f.1 c));
    halted = λ t. absurd_bool (sym (f.1 c) ∙ t);
  };
  balance = λ r e. ground (arith, e);
}
onward gen ok wire_writer s f i = record {
  fit = (f.0, tt);
  stays_idle = λ c. record { off = (i c).off; halted = (i c).halted };
  balance = λ r e. e;
}
onward gen ok announce_restart s f i = record {
  fit = (f.0, tt);
  stays_idle = λ c. record { off = (i c).off; halted = (i c).halted };
  balance = λ r e. e;
}
onward gen ok lock_old s f i =
    still_if lock_old s (proc_locked s) lock_old reap_old i refl refl (λ _. f) (λ _. (f.0, tt))
onward gen ok reap_old s f i = record {
  fit = (f.0, refl);
  stays_idle = λ c. record { off = λ _. refl; halted = λ _. refl };
  balance = λ r e. ground (arith, e);
}
onward gen ok give_up s f i = record {
  fit = (f.0, inr f.1);
  stays_idle = λ c. record { off = (i c).off; halted = (i c).halted };
  balance = λ r e. e;
}
onward gen ok leave s f i = record {
  fit = (λ e. absurd_bool (sym e), tt);
  stays_idle = λ c. record {
    off = λ _. elim f.1 [ inl t ↦ (i c).halted t | inr n ↦ n ];
    halted = (i c).halted;
  };
  balance = λ r e. e;
}
onward gen ok gone s f i = still gone s gone i refl f

-- A step of a reader of an earlier generation.
pub returns :
    (gen : ℕ) (ok : Bool) (pc : Pc) (s : Sup)
    → gen < s.generation
    → settled pc ≡ true
    → (settled (read_on gen ok pc s).0 ≡ true) × ((read_on gen ok pc s).1 ≡ s)
unfolding read_on settled
returns gen ok reading s l h = (refl, refl)
returns gen ok check_generation s l h = (ground (arith, l), refl)
returns gen ok gone s l h = (refl, refl)
returns gen ok _ s l h = absurd_bool h

pub settled_hand : (pc : Pc) → settled pc ≡ true → reader_hand pc ≡ 0
unfolding settled reader_hand
settled_hand reading h = refl
settled_hand check_generation h = refl
settled_hand gone h = refl
settled_hand _ h = absurd_bool h

hands-Old : (n : ℕ) (readers : List (ℕ × Pc)) → All (Old n) readers → hands readers ≡ 0
unfolding hands Old
hands-Old n [] h = refl
hands-Old n ((g, pc) ∷ readers) h = omega (arith, settled_hand pc h.0.1, hands-Old n readers h.1)

pub hands-settled : (readers : List (ℕ × Pc)) → all_settled readers ≡ true → hands readers ≡ 0
unfolding hands all_settled
hands-settled [] h = refl
hands-settled ((g, pc) ∷ readers) h = ground (arith, h, settled_hand pc, hands-settled readers)
