-- ===== src/Supervisor/Lifecycle/Quiet.antt =====
-- What `stop` has achieved at each of its steps, and that no step of a reader undoes it.
use higgs.Base.Assoc.{get}
use higgs.Supervisor.Lifecycle.{
  in_stop, stop_on, start_on, go_on, begin_stop, begin_start, proc_locked, idle, reader_step,
  read_on, some_reader_locks, reader_locks, reap_old, lock_old, replace, recheck_stopped, lock_proc,
  guard_stopped, spawn, recheck_generation, wake, die, check_generation, Pc, reaped, reaping,
  unwired, flagged, wired, stored, built, bumped, unflagged, claimed, Caller, Sup,
}
use higgs.Base.{
  Bool-cases, inr, inl, ap, absurd_bool, string_eq, nat_eq, arith, ◌∷◌, [], List, some, none,
  Option, false, true, Bool, ◌∙◌, sym, refl, ◌≡◌, ℕ,
}
use higgs.Supervisor.Lifecycle.Readers.{stopped-read_on, caller-read_on, Each-moved, Each-get, Each}

-- A reader that is not about to put its process into `proc`.
unfoldable pub harmless : Pc → Bool
harmless replace = false
harmless _ = true

-- The worker is stopped, and its place is empty.
pub record Quiet (s : Sup) : Type 0 where
  pub is_stopped : s.stopped ≡ true
  pub no_proc : s.proc ≡ false
  pub none_replaces : Each harmless s.readers

pub kept :
    (s t : Sup)
    → t.stopped ≡ s.stopped
    → t.proc ≡ s.proc
    → t.readers ≡ s.readers
    → Quiet s
    → Quiet t
kept s t a b c q = record {
  is_stopped = a ∙ q.is_stopped;
  no_proc = b ∙ q.no_proc;
  none_replaces = rw c q.none_replaces;
}

-- The phases of `stop`, before it takes what is in `proc` and behind.
unfoldable pub stopping : Caller → Bool
stopping flagged = true
stopping unwired = true
stopping _ = false

unfoldable pub taken : Caller → Bool
taken (reaping _) = true
taken reaped = true
taken _ = false

unfoldable pub starting : Caller → Bool
starting claimed = true
starting unflagged = true
starting (bumped _) = true
starting (built _) = true
starting (stored _) = true
starting (wired _) = true
starting _ = false

-- What stop has achieved where it stands.
pub record Halting (s : Sup) : Type 0 where
  pub flag : stopping s.caller ≡ true → s.stopped ≡ true
  pub quiet : taken s.caller ≡ true → Quiet s

unlocked_harmless :
    (readers : List (ℕ × Pc)) → some_reader_locks readers ≡ false → Each harmless readers
unfolding some_reader_locks reader_locks harmless
unlocked_harmless [] h = tt
unlocked_harmless ((g, replace) ∷ readers) h = absurd_bool (sym h)
unlocked_harmless ((g, pc) ∷ readers) h = (refl, unlocked_harmless readers (ground (arith, h)))

module _ (gen : ℕ) (ok : Bool) where
  quiet_next :
      (pc : Pc) (s : Sup)
      → s.stopped ≡ true
      → s.proc ≡ false
      → harmless pc ≡ true
      → (harmless (read_on gen ok pc s).0 ≡ true) × ((read_on gen ok pc s).1.proc ≡ false)
  unfolding read_on harmless
  quiet_next replace s t n h = absurd_bool h
  quiet_next check_generation s t n h = ground (arith, n)
  quiet_next (die d) s t n h = ground (arith, n)
  quiet_next wake s t n h = ground (arith, n)
  quiet_next recheck_generation s t n h = ground (arith, n)
  quiet_next spawn s t n h = ground (arith, n)
  quiet_next guard_stopped s t n h = ground (arith, n)
  quiet_next lock_proc s t n h = ground (arith, n)
  quiet_next recheck_stopped s t n h = ground (arith, n, t)
  quiet_next lock_old s t n h = ground (arith, n)
  quiet_next reap_old s t n h = (refl, refl)
  quiet_next _ s t n h = (refl, n)

  pub Quiet-reader_step :
      (o : Option Pc) (s : Sup) → get gen s.readers ≡ o → Quiet s → Quiet (reader_step gen ok o s)
  unfolding reader_step
  Quiet-reader_step none s e q = q
  Quiet-reader_step (some pc) s e q =
      let next =
        quiet_next pc s q.is_stopped q.no_proc
          (Each-get harmless gen s.readers pc e q.none_replaces) in
      record {
        is_stopped = stopped-read_on gen ok pc s ∙ q.is_stopped;
        no_proc = next.1;
        none_replaces =
            Each-moved harmless gen s.readers (read_on gen ok pc s).0 next.0 q.none_replaces;
      }

  pub caller-reader_step : (o : Option Pc) (s : Sup) → (reader_step gen ok o s).caller ≡ s.caller
  unfolding reader_step
  caller-reader_step none s = refl
  caller-reader_step (some pc) s = caller-read_on gen ok pc s

  pub stopped-reader_step : (o : Option Pc) (s : Sup) → (reader_step gen ok o s).stopped ≡ s.stopped
  unfolding reader_step
  stopped-reader_step none s = refl
  stopped-reader_step (some pc) s = stopped-read_on gen ok pc s

-- A phase with nothing to show.
pub Halting-free : (s : Sup) → stopping s.caller ≡ false → taken s.caller ≡ false → Halting s
Halting-free s f t = record {
  flag = λ e. absurd_bool (sym f ∙ e);
  quiet = λ e. absurd_bool (sym t ∙ e);
}

proc_unlocked : (s : Sup) → proc_locked s ≡ false → Each harmless s.readers
unfolding proc_locked
proc_unlocked s h = unlocked_harmless s.readers (ground (arith, h))

Halting-unwired :
    (s : Sup) → s.caller ≡ unwired → s.stopped ≡ true → Halting s → Halting (go_on true unwired s)
unfolding go_on start_on stop_on in_stop taken stopping
Halting-unwired s c f h = elim (Bool-cases (proc_locked s)) [
  | inl l ↦ rw l h
  | inr u ↦ rw u (record {
    flag = λ e. absurd_bool e;
    quiet = λ _. record { is_stopped = f; no_proc = refl; none_replaces = proc_unlocked s u };
  })
]

pub Halting-go_on :
    (ok : Bool) (c : Caller) (s : Sup) → s.caller ≡ c → Halting s → Halting (go_on ok c s)
unfolding go_on start_on stop_on in_stop taken stopping
Halting-go_on ok idle s e h = h
Halting-go_on ok claimed s e h = Halting-free _ refl refl
Halting-go_on ok unflagged s e h = Halting-free _ refl refl
Halting-go_on true (bumped g) s e h = Halting-free _ refl refl
Halting-go_on false (bumped g) s e h = Halting-free _ refl refl
Halting-go_on ok (built g) s e h = elim (Bool-cases (proc_locked s)) [
  | inl l ↦ rw l (Halting-free _ refl refl)
  | inr u ↦ rw u (Halting-free _ refl refl)
]
Halting-go_on ok (stored g) s e h = Halting-free _ refl refl
Halting-go_on ok (wired g) s e h = Halting-free _ refl refl
Halting-go_on ok flagged s e h = record {
  flag = λ _. h.flag (ap stopping e);
  quiet = λ q. absurd_bool q;
}
Halting-go_on ok unwired s e h = Halting-unwired s e (h.flag (ap stopping e)) h
Halting-go_on ok (reaping child) s e h =
    let q = h.quiet (ap taken e) in
    record { flag = λ q. absurd_bool q; quiet = λ _. kept s _ refl refl refl q }
Halting-go_on ok reaped s e h = Halting-free _ refl refl

pub Halting-begin_start :
    (c : Caller) (s : Sup) → s.caller ≡ c → Halting s → Halting (begin_start c s)
unfolding begin_start taken stopping
Halting-begin_start idle s e h = elim (Bool-cases s.running) [
  | inl r ↦ rw r (record { flag = h.flag; quiet = λ t. kept s _ refl refl refl (h.quiet t) })
  | inr n ↦ rw n (Halting-free _ refl refl)
]
Halting-begin_start _ s e h = h

pub Halting-begin_stop :
    (c : Caller) (s : Sup) → s.caller ≡ c → Halting s → Halting (begin_stop c s)
unfolding begin_stop taken stopping
Halting-begin_stop idle s e h = record { flag = λ _. refl; quiet = λ q. absurd_bool q }
Halting-begin_stop _ s e h = h
