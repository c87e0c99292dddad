-- ===== src/Fleet/Holds.antt =====
-- The number of the snapshot that the cache of src/node/fleet.rs has of a node, and the commits, which keep
-- it above a bound.
use higgs.Base.Assoc.{get, get_same, get_other, insert}
use higgs.Base.Text.{Text, text_eq}
use higgs.Fleet.{
  Fleet, InventoryWorker, NodeInventory, PulledAt, FleetEventKind, Effect, Push, place_eq,
}
use higgs.Fleet.Actions.{act}
use higgs.Fleet.Commit.{
  drop_routes, gone_workers, outranks, store, replay, take_pending, commit_pull, reconcile,
  commit_over, newer_than, commit_inventory, merge_push, keep_push, claim_fallback, PushOutcome,
  push_over,
}
use higgs.Fleet.Handle.{emit_if}
use higgs.Fleet.Steps.{either}
use higgs.Base.{
  List, some, none, Option, true, Bool, ℕ, ◌≡◌, ◌∙◌, refl, ap, sym, ◌||◌, not, ◌==◌, nat_eq,
  is_some, inl, inr, Bool-cases,
}
use higgs.Fleet.Cached.{
  drop_routes-inventories, emitted, holds, newer-reaches, outranks-reaches, reaches,
}

-- The cache has a snapshot of the node of at least the number.
pub record Holds (s : ℕ) (node : Text) (f : Fleet) : Type 0 where
  pub cached : holds s (get node f.inventories) ≡ true

module _ (s : ℕ) (node : Text) where
  pub kept-Holds : {f g : Fleet} → g.inventories ≡ f.inventories → Holds s node f → Holds s node g
  kept-Holds e h = record { cached = ap (λ m. holds s (get node m)) e ∙ h.cached }

  act-Holds : (e : Effect) (f : Fleet) → Holds s node f → Holds s node (act e f)
  act-Holds e f h = kept-Holds (emitted e f) h

  drop-Holds :
      (n : Text) (ws : List InventoryWorker) (f : Fleet)
      → Holds s node f
      → Holds s node (drop_routes n ws f)
  drop-Holds n ws f h = kept-Holds (drop_routes-inventories n ws f) h

  pub emit_if-Holds :
      (b : Bool) (n : Text) (kind : FleetEventKind) (f : Fleet)
      → Holds s node f
      → Holds s node (emit_if b n kind f)
  unfolding emit_if
  emit_if-Holds b n kind f h =
      either (Holds s node) b (act (Effect.emit n kind) f) f
        (λ _. act-Holds (Effect.emit n kind) f h) (λ _. h)

  store-Holds :
      (n : Text) (inv : NodeInventory) (at : PulledAt) (f : Fleet)
      → (n == node ≡ true → reaches s inv.snapshot_seq ≡ true)
      → Holds s node f
      → Holds s node (store n inv at f)
  unfolding store holds
  store-Holds n inv at f own h = elim (Bool-cases (n == node)) [
    | inl t ↦ record {
      cached =
          ap (λ k. holds s (get k (insert n (inv, at) f.inventories)))
            (sym ((text_eq.decides n node).0 t))
          ∙ ap (holds s) (get_same n (inv, at) f.inventories)
          ∙ own t;
    }
    | inr f' ↦ record {
      cached = ap (holds s) (get_other n node (inv, at) f.inventories f') ∙ h.cached;
    }
  ]

  replay-Holds :
      (n : Text) (p : Option Push) (inv : NodeInventory) (f : Fleet)
      → (n == node ≡ true → reaches s inv.snapshot_seq ≡ true)
      → Holds s node f
      → Holds s node (replay n p inv f)
  unfolding replay reaches
  replay-Holds n none inv f own h = act-Holds (Effect.emit n FleetEventKind.inventory_synced) f h
  replay-Holds n (some push) inv f own h =
      let pushed = record inv { workers = push.workers; snapshot_seq = some push.seq } in
      either (Holds s node) (outranks push.seq inv.snapshot_seq) _ _
        (λ newer. act-Holds (Effect.emit n push.kind) _ (
          act-Holds (Effect.emit n FleetEventKind.inventory_synced) _ (
            drop-Holds n (gone_workers inv.workers push.workers) _ (
              store-Holds n pushed push.at f
                (λ t. outranks-reaches s push.seq inv.snapshot_seq (own t) newer) h))))
        (λ _. act-Holds (Effect.emit n FleetEventKind.inventory_synced) f h)

  commit_pull-Holds :
      (n : Text) (inv : NodeInventory) (at : PulledAt) (f : Fleet)
      → (n == node ≡ true → reaches s inv.snapshot_seq ≡ true)
      → Holds s node f
      → Holds s node (commit_pull n inv at f)
  unfolding commit_pull take_pending
  commit_pull-Holds n inv at f own h =
      replay-Holds n (get n f.pending_pushes) inv (take_pending n (store n inv at f)) own
        (record { cached = (store-Holds n inv at f own h).cached })

  over-Holds :
      (n : Text) (inv : NodeInventory) (at : PulledAt) (c : Option (NodeInventory × PulledAt))
      (f : Fleet)
      → (n == node ≡ true → is_some inv.snapshot_seq ≡ true)
      → (n == node ≡ true → holds s c ≡ true)
      → Holds s node f
      → Holds s node (commit_over n inv at c f).0
  unfolding commit_over reconcile holds
  over-Holds n inv at none f given own h = commit_pull-Holds n inv at f (λ t. cc (own t)) h
  over-Holds n inv at (some (cur_inv, cur)) f given own h =
      either (λ (x : Fleet × Bool). Holds s node x.0) (newer_than inv.snapshot_seq at cur_inv cur).0
        _ _
        (λ newer.
          commit_pull-Holds n inv at _
            (λ t. newer-reaches s inv.snapshot_seq at cur_inv cur (given t) (own t) newer)
            (either (Holds s node) (newer_than inv.snapshot_seq at cur_inv cur).1 _ f
              (λ _. drop-Holds n (gone_workers cur_inv.workers inv.workers) f h) (λ _. h)))
        (λ _. h)

  pub cached_of :
      (n : Text) (f : Fleet)
      → Holds s node f
      → n == node ≡ true
      → holds s (get n f.inventories) ≡ true
  cached_of n f h t =
      ap (λ k. holds s (get k f.inventories)) ((text_eq.decides n node).0 t) ∙ h.cached

  pub pull-Holds :
      (n : Text) (before : ℕ) (inv : NodeInventory) (at : PulledAt) (f : Fleet)
      → (not (n == node) || is_some inv.snapshot_seq) ≡ true
      → Holds s node f
      → Holds s node (commit_inventory n before inv at f).0
  unfolding commit_inventory
  pull-Holds n before inv at f numbered h =
      either (λ (x : Fleet × Bool). Holds s node x.0) _ _ _
        (λ _.
          over-Holds n inv at (get n f.inventories) f (λ t. sym (rw t refl) ∙ numbered)
            (λ t. cached_of n f h t) h)
        (λ _. h)

  merge-Holds :
      (n : Text) (push : Push) (inv : NodeInventory) (cur : PulledAt) (f : Fleet)
      → (n == node ≡ true → reaches s inv.snapshot_seq ≡ true)
      → Holds s node f
      → Holds s node (merge_push n push inv cur f).0
  unfolding merge_push
  merge-Holds n push inv cur f own h =
      let pushed = record inv { workers = push.workers; snapshot_seq = some push.seq } in
      either (λ (x : Fleet × PushOutcome). Holds s node x.0)
        (newer_than (some push.seq) push.at inv cur).0 _ _
        (λ newer.
          let stored =
            store-Holds n pushed push.at f
              (λ t. newer-reaches s (some push.seq) push.at inv cur refl (own t) newer) h in
          act-Holds (Effect.emit n push.kind) _ (
            either (Holds s node) (newer_than (some push.seq) push.at inv cur).1 _ _
              (λ _. drop-Holds n (gone_workers inv.workers push.workers) _ stored) (λ _. stored)))
        (λ _. h)

  claim-Holds :
      (n : Text) (seq : ℕ) (slot : Option (ℕ × ℕ)) (f : Fleet)
      → Holds s node f
      → Holds s node (claim_fallback n seq slot f).0
  unfolding claim_fallback
  claim-Holds n seq none f h = record { cached = h.cached }
  claim-Holds n seq (some _) f h = h

  pub push-Holds :
      (n : Text) (push : Push) (c : Option (NodeInventory × PulledAt)) (f : Fleet)
      → (n == node ≡ true → holds s c ≡ true)
      → Holds s node f
      → Holds s node (push_over n push c f).0
  unfolding push_over keep_push holds
  push-Holds n push (some (inv, cur)) f own h = merge-Holds n push inv cur f own h
  push-Holds n push none f own h =
      claim-Holds n _ (get n f.fallback_inflight) _ (record { cached = h.cached })
