-- ===== src/Fleet/Examples.antt =====
-- Two nodes, one of which comes back after the switch, and an old admission that comes too late.
use higgs.Base.Assoc.{get}
use higgs.Base.Text.{Text, codes, text_eq}
use higgs.Fleet.{
  same_place, Fleet, Facts, NodeInventory, PulledAt, Push, FleetEventKind, new, place_eq,
}
use higgs.Fleet.Actions.{epoch}
use higgs.Fleet.Commit.{commit_inventory, PushOutcome}
use higgs.Fleet.Handle.{Msg, Admission, Reply, handle, run, admit}
use higgs.Fleet.Links.{links}
use higgs.Fleet.Cached.{holds}
use higgs.Fleet.Fresh.{run-Fresh, continues}
use higgs.Fleet.Timed.{IsValid, reached-IsValid}
use higgs.Fleet.Switch.{admits, disconnect_all-Refuses}
use higgs.Fleet.Epochs.{commit_inventory-Refused, invalidates}
use higgs.Fleet.Resolve.{route-Resolved, resolve_served}
use higgs.Base.{any, ◌∷◌, [], List, some, none, Option, true, false, ◌≡◌, refl, ℕ, nat_eq, arith}

abbrev facts : Facts
facts = record {
  protocol = some 2;
  software_version = some [];
  target = none;
  variant = none;
  fleet_events = true;
  update_capable = false;
  version_capable = false;
  log_capable = true;
  pull_capable = true;
}

abbrev hello : Text → ℕ → Option ℕ → Admission
hello node transport gen = record {
  node = node;
  transport = transport;
  gen = gen;
  facts = facts;
  update_failed = none;
  reports_update_failures = true;
  downloads = [];
  now = 5;
}

abbrev pulled : ℕ → NodeInventory
pulled seq = record {
  workers = record { worker_id = 1; model = codes "m"; is_llm = true } ∷ [];
  snapshot_seq = some seq;
  hostname = codes "h";
  os = codes "linux";
  hardware = [];
}

abbrev at : ℕ → PulledAt
at t = record { mono = t; wall = t }

abbrev morning : List Msg
morning =
    Msg.admit_node (hello (codes "a") 1 (some 0))
    ∷ Msg.commit_inventory (codes "a") 1 (pulled 3) (at 7)
    ∷ Msg.add_instance (codes "a") 1 (codes "m") 1
    ∷ []

abbrev fleet : Fleet
fleet = run morning new

abbrev idle : Push
idle = record { kind = FleetEventKind.worker_unloaded; workers = []; seq = 4; at = at 9 }

reached-IsValid_example : IsValid (links (run morning new))
reached-IsValid_example = reached-IsValid morning (omega arith)

-- The switch, an admission of before it, and the node under the new generation.
abbrev evening : List Msg
evening =
    Msg.admit_node (hello (codes "b") 2 (some 0))
    ∷ Msg.admit_node (hello (codes "a") 3 (some 1))
    ∷ []

reconnected :
    (get (codes "b") (run evening (handle Msg.disconnect_all fleet).0).nodes ≡ none)
    × (get (codes "a") (run evening (handle Msg.disconnect_all fleet).0).nodes ≡ some 3)
unfolding run handle admit get
reconnected = (refl, refl)

disconnect_all-Refuses_example : any (admits 0 (codes "a") 3) evening ≡ true
unfolding run handle admit get
disconnect_all-Refuses_example = disconnect_all-Refuses fleet evening (codes "a") (omega arith) refl

commit_inventory-Refused_example :
    commit_inventory
      (codes "a")
      1
      (pulled 9)
      (at 20)
      (run (Msg.seed_node (codes "b") ∷ []) (handle (Msg.retire (codes "a")) (run [] fleet)).0)
    ≡ (
      run (Msg.seed_node (codes "b") ∷ []) (handle (Msg.retire (codes "a")) (run [] fleet)).0,
      false,
    )
unfolding run handle admit get epoch invalidates
commit_inventory-Refused_example =
    commit_inventory-Refused (codes "a") fleet [] (Msg.retire (codes "a"))
      (Msg.seed_node (codes "b") ∷ []) (pulled 9) (at 20) refl (omega arith)

route-Resolved_example :
    (served : Text) × (resolve_served served fleet ≡ some (some ((codes "a", 1), codes "m")))
unfolding run handle admit get same_place
route-Resolved_example = route-Resolved fleet (codes "a") 1 refl

-- A push that is newer than the cache takes the route of the worker that is gone.
unloaded :
    ((handle (Msg.commit_workers (codes "a") 1 idle) fleet).1 ≡ Reply.outcome PushOutcome.applied)
    × ((handle (Msg.commit_workers (codes "a") 1 idle) fleet).0.routes ≡ [])
    × ((handle (Msg.commit_workers (codes "a") 2 idle) fleet).1 ≡ Reply.outcome PushOutcome.stale)
unfolding run handle admit get same_place
unloaded = (refl, refl, refl)

-- Without a cache a push is kept, and one pull is asked for; the pull brings the push into the cache.
abbrev restarted : Fleet
restarted = (handle (Msg.admit_node (hello (codes "c") 8 none)) new).0

waiting :
    ((handle (Msg.commit_workers (codes "c") 8 idle) restarted).1
      ≡ Reply.outcome (PushOutcome.needs_full 1))
    × ((handle
          (Msg.commit_workers (codes "c") 8 idle)
          (handle (Msg.commit_workers (codes "c") 8 idle) restarted).0).1
        ≡ Reply.outcome PushOutcome.deferred)
    × ((handle
          (Msg.fallback_done (codes "c") 1 false)
          (handle (Msg.commit_workers (codes "c") 8 idle) restarted).0).1
        ≡ Reply.flag true)
    × (get
          (codes "c")
          (handle
            (Msg.commit_inventory (codes "c") 1 (pulled 3) (at 8))
            (handle (Msg.commit_workers (codes "c") 8 idle) restarted).0).0.inventories
        ≡ some (record (pulled 4) { workers = [] }, at 9))
unfolding handle admit get
waiting = (refl, refl, refl, refl)

-- An older pull after the push, and a push of a transport that is gone.
abbrev noon : List Msg
noon =
    Msg.commit_workers (codes "a") 1 idle
    ∷ Msg.commit_inventory (codes "a") 1 (pulled 2) (at 30)
    ∷ Msg.commit_workers (codes "a") 7 (record idle { seq = 9 })
    ∷ []

run-Fresh_example : holds 3 (get (codes "a") (run noon fleet).inventories) ≡ true
unfolding run handle admit get continues
run-Fresh_example = run-Fresh (codes "a") noon fleet refl refl (refl, (refl, (refl, tt)))
