-- ===== src/Supervisor/Lifecycle/Halts.antt =====
-- The steps of `stop`, and all steps of the caller.
use higgs.Supervisor.Lifecycle.{
  in_stop, stop_on, start_on, go_on, reap, proc_locked, reaped, reaping, unwired, flagged, wired,
  stored, built, bumped, unflagged, claimed, idle, Caller, Sup,
}
use higgs.Base.{string_eq, nat_eq, arith, false, Bool, ap, refl, ◌≡◌}
use higgs.Supervisor.Lifecycle.Quiet.{Halting, taken, stopping}
use higgs.Supervisor.Lifecycle.Calling.{
  Steady-wired, Steady-stored, Steady-built, Steady-bumped, Steady-unflagged, Steady-claimed,
}
use higgs.Supervisor.Lifecycle.Change.{Each-halt, owned_at}
use higgs.Supervisor.Lifecycle.Readers.{on_both}
use higgs.Supervisor.Lifecycle.Lists.{Shape-change}
use higgs.Supervisor.Lifecycle.Owned.{Phase, Steady, Fit, owners, caller_hand}

Steady-flagged :
    (ok : Bool) (s : Sup) → s.caller ≡ flagged → Halting s → Steady s → Steady (go_on ok flagged s)
unfolding go_on start_on stop_on in_stop owners caller_hand Phase stopping
Steady-flagged ok s e q h =
    let t : Sup = record s { write_tx = false; caller = unwired } in
    record {
      is_owned = owned_at flagged s e h;
      shape =
          Shape-change s.generation (Fit s) (Fit t) s.readers
            (Each-halt s t s.readers (q.flag (ap stopping e)) (λ x. x) λ i. cc i) h.shape;
      phase = tt;
    }

Steady-unwired :
    (ok : Bool) (s : Sup) → s.caller ≡ unwired → Halting s → Steady s → Steady (go_on ok unwired s)
unfolding go_on start_on stop_on in_stop owners caller_hand Phase stopping
Steady-unwired ok s e q h =
    let t : Sup = record s { proc = false; caller = reaping s.proc } in
    on_both Steady (proc_locked s) s t (λ _. h)
      λ _. record {
        is_owned = omega (arith, owned_at unwired s e h);
        shape =
            Shape-change s.generation (Fit s) (Fit t) s.readers
              (Each-halt s t s.readers (q.flag (ap stopping e)) (λ _. refl) λ i. cc i) h.shape;
        phase = tt;
      }

Steady-reaping :
    (ok child : Bool) (s : Sup)
    → s.caller ≡ reaping child
    → Halting s
    → Steady s
    → Steady (go_on ok (reaping child) s)
unfolding go_on start_on stop_on in_stop owners caller_hand Phase taken
Steady-reaping ok child s e q h =
    let t : Sup = record s { processes = reap child s.processes; caller = reaped } in
    record {
      is_owned = omega (arith, owned_at (reaping child) s e h);
      shape =
          Shape-change s.generation (Fit s) (Fit t) s.readers
            (Each-halt s t s.readers (q.quiet (ap taken e)).is_stopped (λ x. x) λ i. cc i) h.shape;
      phase = tt;
    }

Steady-reaped :
    (ok : Bool) (s : Sup) → s.caller ≡ reaped → Halting s → Steady s → Steady (go_on ok reaped s)
unfolding go_on start_on stop_on in_stop owners caller_hand Phase taken
Steady-reaped ok s e q h =
    let t : Sup = record s { running = false; caller = idle } in
    let quiet = q.quiet (ap taken e) in
    record {
      is_owned = owned_at reaped s e h;
      shape =
          Shape-change s.generation (Fit s) (Fit t) s.readers
            (Each-halt s t s.readers quiet.is_stopped (λ x. x) λ _. quiet.none_replaces) h.shape;
      phase = record { off = λ _. quiet.no_proc; halted = λ _. quiet.no_proc };
    }

pub Steady-go_on :
    (ok : Bool) (c : Caller) (s : Sup) → s.caller ≡ c → Halting s → Steady s → Steady (go_on ok c s)
unfolding go_on start_on stop_on in_stop
Steady-go_on ok idle s e q h = h
Steady-go_on ok claimed s e q h = Steady-claimed s e h
Steady-go_on ok unflagged s e q h = Steady-unflagged s e h
Steady-go_on ok (bumped g) s e q h = Steady-bumped ok g s e h
Steady-go_on ok (built g) s e q h = Steady-built ok g s e h
Steady-go_on ok (stored g) s e q h = Steady-stored ok g s e h
Steady-go_on ok (wired g) s e q h = Steady-wired ok g s e h
Steady-go_on ok flagged s e q h = Steady-flagged ok s e q h
Steady-go_on ok unwired s e q h = Steady-unwired ok s e q h
Steady-go_on ok (reaping child) s e q h = Steady-reaping ok child s e q h
Steady-go_on ok reaped s e q h = Steady-reaped ok s e q h
