-- ===== src/Supervisor/Lifecycle/Leaks.antt =====
-- No process is left behind by `stop`.
use higgs.Base.Assoc.{get}
use higgs.Supervisor.Lifecycle.{
  fresh, act_all, act, reader, caller, stop, start, Action, reaped, idle, count, Sup,
}
use higgs.Base.{string_eq, nat_eq, All, arith, ◌++◌, ◌∷◌, [], List, false, true, ◌∙◌, ap, refl, ◌≡◌}
use higgs.Supervisor.Lifecycle.Quiet.{Halting}
use higgs.Supervisor.Lifecycle.Stopped.{stopped_for_good, Halting-fresh, is_start, Halting-act}
use higgs.Supervisor.Lifecycle.Calling.{Steady-begin_stop, Steady-begin_start}
use higgs.Supervisor.Lifecycle.Change.{owned_at}
use higgs.Supervisor.Lifecycle.Owned.{
  Phase, Steady, Shape, calm, calm_step, all_settled, owners, hands, caller_hand,
}
use higgs.Supervisor.Lifecycle.Moving.{Steady-reader_step}
use higgs.Supervisor.Lifecycle.Onward.{hands-settled}
use higgs.Supervisor.Lifecycle.Halts.{Steady-go_on}

Steady-act : (a : Action) (s : Sup) → calm_step a s ≡ true → Halting s → Steady s → Steady (act a s)
unfolding act calm_step
Steady-act start s c q h = Steady-begin_start s.caller s refl c h
Steady-act stop s c q h = Steady-begin_stop s.caller s refl h
Steady-act (caller ok) s c q h = Steady-go_on ok s.caller s refl q h
Steady-act (reader gen ok) s c q h =
    Steady-reader_step gen ok (get gen s.readers) s refl (ground (arith, c)) h

Steady-act_all :
    (actions : List Action) (s : Sup)
    → calm actions s ≡ true
    → Halting s
    → Steady s
    → Steady (act_all actions s)
unfolding act_all calm
Steady-act_all [] s c q h = h
Steady-act_all (a ∷ actions) s c q h =
    Steady-act_all actions (act a s) (ground (arith, c)) (Halting-act a s q)
      (Steady-act a s (ground (arith, c)) q h)

Steady-fresh : Steady fresh
unfolding owners caller_hand hands Phase Shape
Steady-fresh = record {
  is_owned = refl;
  shape = tt;
  phase = record { off = λ _. refl; halted = λ _. refl };
}

act_all-append :
    (before after : List Action) (s : Sup)
    → act_all (before ++ after) s ≡ act_all after (act_all before s)
unfolding act_all
act_all-append [] after s = refl
act_all-append (a ∷ before) after s = act_all-append before after (act a s)

-- After `stop` has reaped the worker, and once the caller is done and the readers rest, no process is
-- left: every process that was spawned has been waited for. Each start before must have begun when the
-- readers of earlier starts rested, and they must not have moved until the generation was new; no start
-- follows the stop.
pub no_process_left :
    (before after : List Action)
    → calm (before ++ after) fresh ≡ true
    → (act_all before fresh).caller ≡ reaped
    → All (λ a. is_start a ≡ false) after
    → (act_all (before ++ after) fresh).caller ≡ idle
    → all_settled (act_all (before ++ after) fresh).readers ≡ true
    → (act_all (before ++ after) fresh).processes ≡ 0
unfolding caller_hand
no_process_left before after c r n i e =
    let s = act_all (before ++ after) fresh in
    let h = Steady-act_all (before ++ after) fresh c Halting-fresh Steady-fresh in
    let none : s.proc ≡ false =
      ap (λ t. t.proc) (act_all-append before after fresh) ∙ stopped_for_good before after r n in
    omega (arith, owned_at idle s i h, hands-settled s.readers e, ap (λ b. count b) none)
