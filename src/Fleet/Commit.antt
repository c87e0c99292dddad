-- ===== src/Fleet/Commit.antt =====
-- What src/node/fleet.rs commits to the cache of inventories: a pull (CommitInventory) and the snapshot
-- that a node pushes (CommitWorkers), with the pull that a push without a cache asks for.
use higgs.Base.Assoc.{get, insert, remove, contains_key}
use higgs.Base.Text.{Text, text_eq}
use higgs.Fleet.{
  Fleet, InventoryWorker, NodeInventory, PulledAt, FleetEventKind, Effect, Push, Facts,
}
use higgs.Fleet.Actions.{act, epoch, is_current, remove_instance_no_bump, succ_u64}
use higgs.Base.{
  string_eq, nat_eq, ◌==◌, any, retain, ltb, if◌then◌else◌, List, [], ◌∷◌, some, none, Option, ◌&&◌,
  ◌||◌, not, false, true, Bool, ℕ,
}

-- The workers of the old snapshot that the new one does not have.
unfoldable pub gone_workers : List InventoryWorker → List InventoryWorker → List InventoryWorker
unfolding retain any
gone_workers old new = retain (λ o. not (any (λ w. w.worker_id == o.worker_id) new)) old

unfoldable pub drop_routes : Text → List InventoryWorker → Fleet → Fleet
unfolding remove_instance_no_bump
drop_routes node [] f = f
drop_routes node (w ∷ ws) f =
    drop_routes node ws (remove_instance_no_bump node w.worker_id w.model f).1

-- Whether the data is newer than the cached, and whether the sequence numbers say so.
unfoldable pub newer_than : Option ℕ → PulledAt → NodeInventory → PulledAt → Bool × Bool
newer_than (some new_seq) at inv cur = elim inv.snapshot_seq [
  | some old_seq ↦ (ltb old_seq new_seq, true)
  | none ↦ (ltb cur.mono at.mono, false)
]
newer_than none at inv cur = (ltb cur.mono at.mono, false)

unfoldable pub store : Text → NodeInventory → PulledAt → Fleet → Fleet
unfolding insert
store node inventory at f = record f { inventories = insert node (inventory, at) f.inventories }

unfoldable pub outranks : ℕ → Option ℕ → Bool
outranks seq none = true
outranks seq (some pull_seq) = ltb pull_seq seq

-- The push that was kept, on top of the inventory that was stored.
unfoldable pub replay : Text → Option Push → NodeInventory → Fleet → Fleet
unfolding outranks store drop_routes gone_workers act
replay node none inventory f = act (Effect.emit node FleetEventKind.inventory_synced) f
replay node (some push) inventory f =
    if outranks push.seq inventory.snapshot_seq
    then act (Effect.emit node push.kind) (
        act (Effect.emit node FleetEventKind.inventory_synced) (
          drop_routes node (gone_workers inventory.workers push.workers) (
            store node (record inventory { workers = push.workers; snapshot_seq = some push.seq })
              push.at f)))
    else act (Effect.emit node FleetEventKind.inventory_synced) f

unfoldable pub take_pending : Text → Fleet → Fleet
unfolding remove
take_pending node f = record f { pending_pushes = remove node f.pending_pushes }

unfoldable pub commit_pull : Text → NodeInventory → PulledAt → Fleet → Fleet
unfolding replay take_pending store get
commit_pull node inventory at f =
    replay node (get node f.pending_pushes) inventory
      (take_pending node (store node inventory at f))

unfoldable pub reconcile : Text → Bool → NodeInventory → NodeInventory → Fleet → Fleet
unfolding drop_routes gone_workers
reconcile node seq_ordered cur inventory f =
    if seq_ordered then drop_routes node (gone_workers cur.workers inventory.workers) f else f

unfoldable pub commit_over :
    Text → NodeInventory → PulledAt → Option (NodeInventory × PulledAt) → Fleet → Fleet × Bool
unfolding commit_pull newer_than reconcile
commit_over node inventory at none f = (commit_pull node inventory at f, true)
commit_over node inventory at (some (cur_inv, cur)) f =
    let (newer, seq_ordered) = newer_than inventory.snapshot_seq at cur_inv cur in
    if newer
    then (commit_pull node inventory at (reconcile node seq_ordered cur_inv inventory f), true)
    else (f, false)

unfoldable pub commit_inventory : Text → ℕ → NodeInventory → PulledAt → Fleet → Fleet × Bool
unfolding epoch commit_over get
commit_inventory node epoch_before inventory at f =
    if epoch node f == epoch_before
    then commit_over node inventory at (get node f.inventories) f
    else (f, false)

-- PushOutcome
pub data PushOutcome : Type 0 where
  applied stale deferred : PushOutcome
  needs_full : ℕ → PushOutcome

unfoldable pub declares_events : Option Facts → Bool
declares_events none = false
declares_events (some facts) = facts.fleet_events

unfoldable pub merge_push : Text → Push → NodeInventory → PulledAt → Fleet → Fleet × PushOutcome
unfolding newer_than store drop_routes gone_workers act
merge_push node push cur_inv cur f =
    let (newer, seq_ordered) = newer_than (some push.seq) push.at cur_inv cur in
    let merged =
      store node (record cur_inv { workers = push.workers; snapshot_seq = some push.seq }) push.at
        f in
    if newer
    then (
      act (Effect.emit node push.kind) (
          if seq_ordered
          then drop_routes node (gone_workers cur_inv.workers push.workers) merged
          else merged),
      PushOutcome.applied,
    )
    else (f, PushOutcome.stale)

unfoldable pub newest_push : Push → Option Push → Push
newest_push push none = push
newest_push push (some kept) = if ltb kept.seq push.seq then push else kept

-- The slot of the pull: a fresh one, or the one that is in flight.
unfoldable pub claim_fallback : Text → ℕ → Option (ℕ × ℕ) → Fleet → Fleet × PushOutcome
unfolding insert succ_u64
claim_fallback node pending_seq (some _) f = (f, PushOutcome.deferred)
claim_fallback node pending_seq none f =
    let gen = succ_u64 f.fallback_gen in
    (
      record f {
        fallback_gen = gen;
        fallback_inflight = insert node (gen, pending_seq) f.fallback_inflight;
      },
      PushOutcome.needs_full gen,
    )

unfoldable pub keep_push : Text → Push → Fleet → Fleet × PushOutcome
unfolding newest_push claim_fallback insert get
keep_push node push f =
    let kept = newest_push push (get node f.pending_pushes) in
    claim_fallback node kept.seq (get node f.fallback_inflight)
      (record f { pending_pushes = insert node kept f.pending_pushes })

unfoldable pub push_over :
    Text → Push → Option (NodeInventory × PulledAt) → Fleet → Fleet × PushOutcome
unfolding merge_push keep_push
push_over node push (some (cur_inv, cur)) f = merge_push node push cur_inv cur f
push_over node push none f = keep_push node push f

unfoldable pub commit_workers : Text → ℕ → Push → Fleet → Fleet × PushOutcome
unfolding declares_events is_current push_over get
commit_workers node transport push f =
    if declares_events (get node f.facts) && is_current node transport f
    then push_over node push (get node f.inventories) f
    else (f, PushOutcome.stale)

unfoldable pub seq_of : Option Push → ℕ → ℕ
seq_of none served_seq = served_seq
seq_of (some push) served_seq = push.seq

unfoldable pub is_ahead : Option Push → ℕ → Bool
is_ahead none served_seq = false
is_ahead (some push) served_seq = ltb served_seq push.seq

unfoldable pub has_push : Option Push → Bool
has_push none = false
has_push (some _) = true

unfoldable pub renew_slot : Bool → Text → ℕ × ℕ → Fleet → Fleet × Bool
unfolding insert remove
renew_slot true node slot f =
    (record f { fallback_inflight = insert node slot f.fallback_inflight }, true)
renew_slot false node slot f =
    (record f { fallback_inflight = remove node f.fallback_inflight }, false)

unfoldable pub fallback_over : Text → ℕ → Bool → Option (ℕ × ℕ) → Fleet → Fleet × Bool
unfolding seq_of is_ahead has_push renew_slot get
fallback_over node gen give_up none f = (f, false)
fallback_over node gen give_up (some (cur_gen, served_seq)) f =
    let pending = get node f.pending_pushes in
    let live =
      not (contains_key node f.inventories) && (has_push pending && contains_key node f.nodes) in
    let retry = live && (not give_up || (give_up && (live && is_ahead pending served_seq))) in
    if cur_gen == gen then renew_slot retry node (gen, seq_of pending served_seq) f else (f, false)

unfoldable pub fallback_done : Text → ℕ → Bool → Fleet → Fleet × Bool
unfolding fallback_over get
fallback_done node gen give_up f = fallback_over node gen give_up (get node f.fallback_inflight) f
