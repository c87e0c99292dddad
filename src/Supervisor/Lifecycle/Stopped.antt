-- ===== src/Supervisor/Lifecycle/Stopped.antt =====
-- No worker comes back after `stop`, whatever readers of this and of earlier starts still do.
use higgs.Base.Assoc.{get}
use higgs.Supervisor.Lifecycle.{
  in_stop, stop_on, start_on, fresh, act_all, act, reader, caller, stop, start, Action, go_on,
  begin_stop, proc_locked, idle, reaped, reaping, unwired, flagged, Caller, Sup,
}
use higgs.Base.{
  All, Bool-cases, inr, inl, ap, absurd_bool, string_eq, nat_eq, ◌∷◌, [], List, false, true, Bool,
  ◌∙◌, sym, refl, ◌≡◌,
}
use higgs.Supervisor.Lifecycle.Quiet.{
  Quiet-reader_step, kept, Halting-begin_stop, Halting-begin_start, Halting-go_on, Halting-free,
  stopped-reader_step, caller-reader_step, Halting, starting, taken, stopping, Quiet,
}

pub Halting-act : (a : Action) (s : Sup) → Halting s → Halting (act a s)
unfolding act
Halting-act start s h = Halting-begin_start s.caller s refl h
Halting-act stop s h = Halting-begin_stop s.caller s refl h
Halting-act (caller ok) s h = Halting-go_on ok s.caller s refl h
Halting-act (reader gen ok) s h =
    let o = get gen s.readers in
    record {
      flag = λ e.
          stopped-reader_step gen ok o s
          ∙ h.flag (sym (ap stopping (caller-reader_step gen ok o s)) ∙ e);
      quiet = λ e.
          Quiet-reader_step gen ok o s refl
            (h.quiet (sym (ap taken (caller-reader_step gen ok o s)) ∙ e));
    }

pub Halting-act_all : (actions : List Action) (s : Sup) → Halting s → Halting (act_all actions s)
unfolding act_all
Halting-act_all [] s h = h
Halting-act_all (a ∷ actions) s h = Halting-act_all actions (act a s) (Halting-act a s h)

-- Quiet stays while no start begins.
record Down (s : Sup) : Type 0 where
  not_starting : starting s.caller ≡ false
  is_quiet : Quiet s

unfoldable pub is_start : Action → Bool
is_start start = true
is_start _ = false

Down-go_on : (ok : Bool) (c : Caller) (s : Sup) → s.caller ≡ c → Down s → Down (go_on ok c s)
unfolding go_on start_on stop_on in_stop starting
Down-go_on ok idle s e d = d
Down-go_on ok flagged s e d = record {
  not_starting = refl;
  is_quiet = kept s _ refl refl refl d.is_quiet;
}
Down-go_on ok unwired s e d = elim (Bool-cases (proc_locked s)) [
  | inl l ↦ rw l d
  | inr u ↦ rw u (record {
    not_starting = refl;
    is_quiet = record {
      is_stopped = d.is_quiet.is_stopped;
      no_proc = refl;
      none_replaces = d.is_quiet.none_replaces;
    };
  })
]
Down-go_on ok (reaping child) s e d = record {
  not_starting = refl;
  is_quiet = kept s _ refl refl refl d.is_quiet;
}
Down-go_on ok reaped s e d = record {
  not_starting = refl;
  is_quiet = kept s _ refl refl refl d.is_quiet;
}
Down-go_on ok _ s e d = absurd_bool (sym d.not_starting ∙ ap starting e)

Down-begin_stop : (c : Caller) (s : Sup) → Down s → Down (begin_stop c s)
unfolding begin_stop starting
Down-begin_stop idle s d = record {
  not_starting = refl;
  is_quiet = record {
    is_stopped = refl;
    no_proc = d.is_quiet.no_proc;
    none_replaces = d.is_quiet.none_replaces;
  };
}
Down-begin_stop _ s d = d

Down-act : (a : Action) (s : Sup) → is_start a ≡ false → Down s → Down (act a s)
unfolding act is_start
Down-act start s n d = absurd_bool (sym n)
Down-act stop s n d = Down-begin_stop s.caller s d
Down-act (caller ok) s n d = Down-go_on ok s.caller s refl d
Down-act (reader gen ok) s n d = record {
  not_starting = ap starting (caller-reader_step gen ok (get gen s.readers) s) ∙ d.not_starting;
  is_quiet = Quiet-reader_step gen ok (get gen s.readers) s refl d.is_quiet;
}

Down-act_all :
    (actions : List Action) (s : Sup)
    → All (λ a. is_start a ≡ false) actions
    → Down s
    → Down (act_all actions s)
unfolding act_all
Down-act_all [] s n d = d
Down-act_all (a ∷ actions) s n d = Down-act_all actions (act a s) n.1 (Down-act a s n.0 d)

pub Halting-fresh : Halting fresh
unfolding stopping taken
Halting-fresh = Halting-free fresh refl refl

-- Once `stop` has reaped the worker, whatever was started, stopped, died or was restarted before, and
-- whatever the readers do afterwards, there is no worker in `proc` until another start begins.
pub stopped_for_good :
    (before after : List Action)
    → (act_all before fresh).caller ≡ reaped
    → All (λ a. is_start a ≡ false) after
    → (act_all after (act_all before fresh)).proc ≡ false
unfolding stopping taken starting
stopped_for_good before after c n =
    let h = Halting-act_all before fresh Halting-fresh in
    let s = act_all before fresh in
    let d : Down s = record { not_starting = ap starting c; is_quiet = h.quiet (ap taken c) } in
    (Down-act_all after s n d).is_quiet.no_proc
