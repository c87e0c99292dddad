-- ===== src/Fleet/Untouched.antt =====
-- The operations of src/node/fleet.rs on routes, inventories and pulls, which do not touch the connections.
use higgs.Base.Assoc.{get}
use higgs.Base.Text.{Text, text_eq}
use higgs.Fleet.{
  Fleet, InventoryWorker, NodeInventory, PulledAt, FleetEventKind, Effect, Push, place_eq,
}
use higgs.Fleet.Actions.{evict_of, evict_remote_logs, is_model, remove_instance_no_bump}
use higgs.Fleet.Commit.{
  drop_routes, gone_workers, outranks, store, replay, take_pending, commit_pull, reconcile,
  commit_over, newer_than, commit_inventory, merge_push, newest_push, keep_push, claim_fallback,
  push_over, commit_workers, renew_slot, fallback_over, fallback_done,
}
use higgs.Fleet.Handle.{begin_over, end_over, strip_seq, set_failure, record_facts, Admission}
use higgs.Base.{if◌then◌else◌, List, [], ◌∷◌, some, none, Option, false, true, Bool, ℕ, refl}
use higgs.Fleet.Links.{
  Untouched, act-Untouched, either-Untouched, first-Untouched, links, same-Untouched,
  then-Untouched,
}

pub evict_of-Untouched :
    (id : Option ℕ) (worker : ℕ) (f : Fleet) → Untouched f (evict_of id worker f)
unfolding evict_of links
evict_of-Untouched none worker f = same-Untouched f
evict_of-Untouched (some nid) worker f = act-Untouched (Effect.evict_remote nid worker) f

routed-Untouched :
    (b : Bool) (node : Text) (worker : ℕ) (f g : Fleet)
    → Untouched f g
    → Untouched f
        (if◌then◌else◌ {A = Bool × Fleet} b (true, evict_remote_logs node worker g) (false, f)).1
unfolding evict_remote_logs links
routed-Untouched true node worker f g u =
    then-Untouched u (evict_of-Untouched (get node g.node_ids.by_endpoint) worker g)
routed-Untouched false node worker f g u = same-Untouched f

pub remove_instance-Untouched :
    (node : Text) (worker : ℕ) (model : Text) (f : Fleet)
    → Untouched f (remove_instance_no_bump node worker model f).1
unfolding remove_instance_no_bump links
remove_instance-Untouched node worker model f =
    routed-Untouched (is_model model (get (node, worker) f.routes)) node worker f _
      (record { same = refl })

drop_routes-Untouched :
    (node : Text) (ws : List InventoryWorker) (f : Fleet) → Untouched f (drop_routes node ws f)
unfolding drop_routes links
drop_routes-Untouched node [] f = same-Untouched f
drop_routes-Untouched node (w ∷ ws) f =
    then-Untouched (remove_instance-Untouched node w.worker_id w.model f)
      (drop_routes-Untouched node ws (remove_instance_no_bump node w.worker_id w.model f).1)

store-Untouched :
    (node : Text) (inv : NodeInventory) (at : PulledAt) (f : Fleet)
    → Untouched f (store node inv at f)
unfolding store links
store-Untouched node inv at f = record { same = refl }

replay-Untouched :
    (node : Text) (p : Option Push) (inv : NodeInventory) (f : Fleet)
    → Untouched f (replay node p inv f)
unfolding replay links
replay-Untouched node none inv f =
    act-Untouched (Effect.emit node FleetEventKind.inventory_synced) f
replay-Untouched node (some push) inv f =
    either-Untouched (outranks push.seq inv.snapshot_seq) f _ _
      (then-Untouched (store-Untouched node _ push.at f) (
        then-Untouched (drop_routes-Untouched node (gone_workers inv.workers push.workers) _)
          (then-Untouched (act-Untouched _ _) (act-Untouched (Effect.emit node push.kind) _))))
      (act-Untouched (Effect.emit node FleetEventKind.inventory_synced) f)

commit_pull-Untouched :
    (node : Text) (inv : NodeInventory) (at : PulledAt) (f : Fleet)
    → Untouched f (commit_pull node inv at f)
unfolding commit_pull take_pending links
commit_pull-Untouched node inv at f = then-Untouched (store-Untouched node inv at f) (
    then-Untouched (record { same = refl })
      (replay-Untouched node (get node f.pending_pushes) inv
        (take_pending node (store node inv at f))))

commit_over-Untouched :
    (node : Text) (inv : NodeInventory) (at : PulledAt) (c : Option (NodeInventory × PulledAt))
    (f : Fleet)
    → Untouched f (commit_over node inv at c f).0
unfolding commit_over reconcile links
commit_over-Untouched node inv at none f = commit_pull-Untouched node inv at f
commit_over-Untouched node inv at (some (cur_inv, cur)) f =
    first-Untouched (newer_than inv.snapshot_seq at cur_inv cur).0 f _ _
      (then-Untouched
        (either-Untouched (newer_than inv.snapshot_seq at cur_inv cur).1 f _ _
          (drop_routes-Untouched node (gone_workers cur_inv.workers inv.workers) f)
          (same-Untouched f))
        (commit_pull-Untouched node inv at _))
      (same-Untouched f)

pub commit_inventory-Untouched :
    (node : Text) (before : ℕ) (inv : NodeInventory) (at : PulledAt) (f : Fleet)
    → Untouched f (commit_inventory node before inv at f).0
unfolding commit_inventory links
commit_inventory-Untouched node before inv at f =
    first-Untouched _ f _ _ (commit_over-Untouched node inv at (get node f.inventories) f)
      (same-Untouched f)

merge_push-Untouched :
    (node : Text) (push : Push) (inv : NodeInventory) (cur : PulledAt) (f : Fleet)
    → Untouched f (merge_push node push inv cur f).0
unfolding merge_push links
merge_push-Untouched node push inv cur f =
    first-Untouched _ f _ _
      (then-Untouched (store-Untouched node _ push.at f) (
        then-Untouched
          (either-Untouched _ _ _ _
            (drop_routes-Untouched node (gone_workers inv.workers push.workers) _)
            (same-Untouched _))
          (act-Untouched (Effect.emit node push.kind) _)))
      (same-Untouched f)

claim_fallback-Untouched :
    (node : Text) (seq : ℕ) (slot : Option (ℕ × ℕ)) (f : Fleet)
    → Untouched f (claim_fallback node seq slot f).0
unfolding claim_fallback links
claim_fallback-Untouched node seq none f = record { same = refl }
claim_fallback-Untouched node seq (some _) f = same-Untouched f

push_over-Untouched :
    (node : Text) (push : Push) (c : Option (NodeInventory × PulledAt)) (f : Fleet)
    → Untouched f (push_over node push c f).0
unfolding push_over keep_push links
push_over-Untouched node push (some (inv, cur)) f = merge_push-Untouched node push inv cur f
push_over-Untouched node push none f =
    then-Untouched (record { same = refl })
      (claim_fallback-Untouched node (newest_push push (get node f.pending_pushes)).seq
        (get node f.fallback_inflight) _)

pub commit_workers-Untouched :
    (node : Text) (transport : ℕ) (push : Push) (f : Fleet)
    → Untouched f (commit_workers node transport push f).0
unfolding commit_workers links
commit_workers-Untouched node transport push f =
    first-Untouched _ f _ _ (push_over-Untouched node push (get node f.inventories) f)
      (same-Untouched f)

renew_slot-Untouched :
    (retry : Bool) (node : Text) (slot : ℕ × ℕ) (f : Fleet)
    → Untouched f (renew_slot retry node slot f).0
unfolding renew_slot links
renew_slot-Untouched true node slot f = record { same = refl }
renew_slot-Untouched false node slot f = record { same = refl }

fallback_over-Untouched :
    (node : Text) (gen : ℕ) (give_up : Bool) (slot : Option (ℕ × ℕ)) (f : Fleet)
    → Untouched f (fallback_over node gen give_up slot f).0
unfolding fallback_over links
fallback_over-Untouched node gen give_up none f = same-Untouched f
fallback_over-Untouched node gen give_up (some (cur_gen, seq)) f =
    first-Untouched _ f _ _ (renew_slot-Untouched _ node _ f) (same-Untouched f)

pub fallback_done-Untouched :
    (node : Text) (gen : ℕ) (give_up : Bool) (f : Fleet)
    → Untouched f (fallback_done node gen give_up f).0
unfolding fallback_done links
fallback_done-Untouched node gen give_up f =
    fallback_over-Untouched node gen give_up (get node f.fallback_inflight) f

pub begin_over-Untouched :
    (node : Text) (slot : Option (ℕ × Bool)) (f : Fleet) → Untouched f (begin_over node slot f).0
unfolding begin_over links
begin_over-Untouched node none f = record { same = refl }
begin_over-Untouched node (some (gen, again)) f = record { same = refl }

pub end_over-Untouched :
    (node : Text) (gen : ℕ) (slot : Option (ℕ × Bool)) (f : Fleet)
    → Untouched f (end_over node gen slot f).0
unfolding end_over links
end_over-Untouched node gen none f = same-Untouched f
end_over-Untouched node gen (some (owner, again)) f =
    first-Untouched _ f _ _
      (first-Untouched again f _ _ (record { same = refl }) (record { same = refl }))
      (same-Untouched f)

strip_seq-Untouched :
    (node : Text) (c : Option (NodeInventory × PulledAt)) (f : Fleet)
    → Untouched f (strip_seq node c f)
unfolding strip_seq links
strip_seq-Untouched node none f = same-Untouched f
strip_seq-Untouched node (some (inv, at)) f = record { same = refl }

set_failure-Untouched :
    (node : Text) (e : Option Text) (reports : Bool) (f : Fleet)
    → Untouched f (set_failure node e reports f)
unfolding set_failure links
set_failure-Untouched node (some e) reports f = record { same = refl }
set_failure-Untouched node none reports f =
    either-Untouched reports f _ _ (record { same = refl }) (same-Untouched f)

pub record_facts-Untouched : (a : Admission) (f : Fleet) → Untouched f (record_facts a f)
unfolding record_facts links
record_facts-Untouched a f =
    then-Untouched (strip_seq-Untouched a.node (get a.node f.inventories) f) (
      then-Untouched
        (set_failure-Untouched a.node a.update_failed a.reports_update_failures
          (strip_seq a.node (get a.node f.inventories) f))
        (record { same = refl }))
