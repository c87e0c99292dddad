-- ===== src/Supervisor/Lifecycle/Calling.antt =====
-- The steps of `do_spawn`, and what `stop` leaves of the readers.
use higgs.Supervisor.Lifecycle.{
  in_stop, stop_on, start_on, caller_locks, go_on, begin_stop, begin_start, proc_locked, flagged,
  wired, stored, built, bumped, unflagged, claimed, idle, Caller, Sup,
}
use higgs.Base.{
  absurd_bool, string_eq, nat_eq, arith, false, true, Bool, inl, ◌∙◌, ap, sym, refl, ◌≡◌, ◌+◌, ℕ,
}
use higgs.Supervisor.Lifecycle.Change.{
  unlocked-Old, Shape-Old, Old-bump, Each-settled, Each-halt, owned_at, Phase-at,
}
use higgs.Supervisor.Lifecycle.Readers.{on_both}
use higgs.Supervisor.Lifecycle.Lists.{Shape-change}
use higgs.Supervisor.Lifecycle.Owned.{
  Phase, Steady, Shape, Fit, Extra, Alive, all_settled, owners, hands, reader_hand, caller_hand,
}

-- The steps of the caller.
pub Steady-begin_start :
    (c : Caller) (s : Sup)
    → s.caller ≡ c
    → all_settled s.readers ≡ true
    → Steady s
    → Steady (begin_start c s)
unfolding begin_start owners caller_hand Phase Alive
Steady-begin_start idle s e r h =
    let t : Sup = record s { running = true; caller = claimed } in
    on_both Steady s.running s t (λ _. h)
      λ n. record {
        is_owned = owned_at idle s e h;
        shape =
            Shape-change s.generation (Fit s) (Fit t) s.readers
              (Each-settled s t s.readers r λ _ _. refl) h.shape;
        phase = record { empty = (Phase-at idle s e h).off n; is_running = refl; rest = r };
      }
Steady-begin_start _ s e r h = h

pub Steady-begin_stop : (c : Caller) (s : Sup) → s.caller ≡ c → Steady s → Steady (begin_stop c s)
unfolding begin_stop owners caller_hand Phase
Steady-begin_stop idle s e h =
    let t : Sup = record s { stopped = true; caller = flagged } in
    record {
      is_owned = owned_at idle s e h;
      shape =
          Shape-change s.generation (Fit s) (Fit t) s.readers
            (Each-halt s t s.readers refl (λ x. x) λ i. cc i) h.shape;
      phase = tt;
    }
Steady-begin_stop _ s e h = h

pub Steady-claimed : (s : Sup) → s.caller ≡ claimed → Steady s → Steady (go_on true claimed s)
unfolding go_on start_on stop_on in_stop owners caller_hand Phase Alive
Steady-claimed s e h =
    let t : Sup = record s { stopped = false; caller = unflagged } in
    let p = Phase-at claimed s e h in
    record {
      is_owned = owned_at claimed s e h;
      shape =
          Shape-change s.generation (Fit s) (Fit t) s.readers
            (Each-settled s t s.readers p.rest λ _ _. p.is_running) h.shape;
      phase = (record { empty = p.empty; is_running = p.is_running; rest = p.rest }, refl);
    }

pub Steady-unflagged : (s : Sup) → s.caller ≡ unflagged → Steady s → Steady (go_on true unflagged s)
unfolding go_on start_on stop_on in_stop owners caller_hand Phase
Steady-unflagged s e h =
    let t : Sup = record s { generation = s.generation + 1; caller = bumped (s.generation + 1) } in
    let p = Phase-at unflagged s e h in
    let old = Old-bump s.generation (Fit s) s.readers p.0.rest h.shape in
    record {
      is_owned = owned_at unflagged s e h;
      shape = Shape-Old (s.generation + 1) (Fit t) s.readers old;
      phase = (
        record { current = refl; is_running = p.0.is_running; unstopped = p.1; old = old },
        p.0.empty,
      );
    }

pub Steady-bumped :
    (ok : Bool) (g : ℕ) (s : Sup) → s.caller ≡ bumped g → Steady s → Steady (go_on ok (bumped g) s)
unfolding go_on start_on stop_on in_stop owners caller_hand Phase
Steady-bumped true g s e h =
    let p = Phase-at (bumped g) s e h in
    record {
      is_owned = omega (arith, owned_at (bumped g) s e h);
      shape = Shape-Old s.generation _ s.readers p.0.old;
      phase = (
        record {
          current = p.0.current;
          is_running = p.0.is_running;
          unstopped = p.0.unstopped;
          old = p.0.old;
        },
        p.1,
      );
    }
Steady-bumped false g s e h =
    let p = Phase-at (bumped g) s e h in
    record {
      is_owned = owned_at (bumped g) s e h;
      shape = Shape-Old s.generation _ s.readers p.0.old;
      phase = record { off = λ _. p.1; halted = λ _. p.1 };
    }

pub Steady-built :
    (ok : Bool) (g : ℕ) (s : Sup) → s.caller ≡ built g → Steady s → Steady (go_on ok (built g) s)
unfolding go_on start_on stop_on in_stop owners caller_hand Phase proc_locked caller_locks
Steady-built ok g s e h =
    let p = Phase-at (built g) s e h in
    rw (ap caller_locks e, unlocked-Old s.generation s.readers p.0.old)
      (record {
        is_owned = ground (arith, owned_at (built g) s e h, p.1);
        shape = Shape-Old s.generation _ s.readers p.0.old;
        phase = record {
          current = p.0.current;
          is_running = p.0.is_running;
          unstopped = p.0.unstopped;
          old = p.0.old;
        };
      })

pub Steady-stored :
    (ok : Bool) (g : ℕ) (s : Sup) → s.caller ≡ stored g → Steady s → Steady (go_on ok (stored g) s)
unfolding go_on start_on stop_on in_stop owners caller_hand Phase
Steady-stored ok g s e h =
    let p = Phase-at (stored g) s e h in
    record {
      is_owned = owned_at (stored g) s e h;
      shape = Shape-Old s.generation _ s.readers p.old;
      phase = record {
        current = p.current;
        is_running = p.is_running;
        unstopped = p.unstopped;
        old = p.old;
      };
    }

pub Steady-wired :
    (ok : Bool) (g : ℕ) (s : Sup) → s.caller ≡ wired g → Steady s → Steady (go_on ok (wired g) s)
unfolding go_on start_on stop_on in_stop owners caller_hand Phase hands reader_hand Shape Fit Alive
    Extra
Steady-wired ok g s e h =
    let p = Phase-at (wired g) s e h in
    record {
      is_owned = omega (arith, owned_at (wired g) s e h);
      shape = (inl (p.current, (λ _ _ _. p.is_running, tt)), p.old);
      phase = record {
        off = λ n. absurd_bool (sym n ∙ p.is_running);
        halted = λ n. absurd_bool (sym p.unstopped ∙ n);
      };
    }
