-- ===== src/Fleet/Cached.antt =====
-- What the operations of src/node/fleet.rs on routes and logs leave of the cache of inventories, and how the
-- numbers of snapshots compare.
use higgs.Base.Assoc.{get, remove}
use higgs.Base.Text.{Text, text_eq}
use higgs.Fleet.{Fleet, InventoryWorker, NodeInventory, PulledAt, Effect, place_eq}
use higgs.Fleet.Actions.{
  act, evict_of, evict_remote_logs, is_model, remove_instance_no_bump, close_of, evict_all,
}
use higgs.Fleet.Commit.{drop_routes, outranks, newer_than}
use higgs.Fleet.Handle.{close_all}
use higgs.Base.{
  if◌then◌else◌, List, [], ◌∷◌, some, none, Option, false, true, Bool, ℕ, ◌≡◌, ◌∙◌, refl, nat_eq,
  leb, is_some, arith,
}

-- Whether a number of a snapshot, and the snapshot of a cache, is at least `s`.
unfoldable pub reaches : ℕ → Option ℕ → Bool
reaches s none = false
reaches s (some seq) = leb s seq

unfoldable pub holds : ℕ → Option (NodeInventory × PulledAt) → Bool
unfolding reaches
holds s none = false
holds s (some (inv, at)) = reaches s inv.snapshot_seq

pub outranks-reaches :
    (s q : ℕ) (o : Option ℕ) → reaches s o ≡ true → outranks q o ≡ true → leb s q ≡ true
unfolding reaches outranks
outranks-reaches s q none r e = cc r
outranks-reaches s q (some k) r e = ground (arith, r, e)

pub numbered-reaches :
    (s q : ℕ) (at : PulledAt) (inv : NodeInventory) (cur : PulledAt) (o : Option ℕ)
    → reaches s o ≡ true
    → (newer_than (some q) at (record inv { snapshot_seq = o }) cur).0 ≡ true
    → leb s q ≡ true
unfolding newer_than reaches
numbered-reaches s q at inv cur none r e = cc r
numbered-reaches s q at inv cur (some old) r e = ground (arith, r, e)

pub newer-reaches :
    (s : ℕ) (new : Option ℕ) (at : PulledAt) (inv : NodeInventory) (cur : PulledAt)
    → is_some new ≡ true
    → reaches s inv.snapshot_seq ≡ true
    → (newer_than new at inv cur).0 ≡ true
    → reaches s new ≡ true
unfolding reaches
newer-reaches s none at inv cur given r e = cc given
newer-reaches s (some q) at inv cur given r e = numbered-reaches s q at inv cur inv.snapshot_seq r e

pub evicted :
    (id : Option ℕ) (worker : ℕ) (f : Fleet) → (evict_of id worker f).inventories ≡ f.inventories
unfolding evict_of act
evicted none worker f = refl
evicted (some nid) worker f = refl

pub routed-inventories :
    (b : Bool) (n : Text) (worker : ℕ) (f g : Fleet)
    → g.inventories ≡ f.inventories
    → (if◌then◌else◌ {A = Bool × Fleet} b
        (true, evict_remote_logs n worker g)
        (false, f)).1.inventories
      ≡ f.inventories
unfolding evict_remote_logs
routed-inventories true n worker f g e = evicted (get n g.node_ids.by_endpoint) worker g ∙ e
routed-inventories false n worker f g e = refl

pub drop_routes-inventories :
    (n : Text) (ws : List InventoryWorker) (f : Fleet)
    → (drop_routes n ws f).inventories ≡ f.inventories
unfolding drop_routes remove_instance_no_bump
drop_routes-inventories n [] f = refl
drop_routes-inventories n (w ∷ ws) f =
    drop_routes-inventories n ws (remove_instance_no_bump n w.worker_id w.model f).1
    ∙ routed-inventories (is_model w.model (get (n, w.worker_id) f.routes)) n w.worker_id f
        (record f { routes = remove (n, w.worker_id) f.routes }) refl

pub emitted : (e : Effect) (f : Fleet) → (act e f).inventories ≡ f.inventories
unfolding act
emitted e f = refl

pub closed_all :
    (drained : List (Text × ℕ)) (f : Fleet) → (close_all drained f).inventories ≡ f.inventories
unfolding close_all act
closed_all [] f = refl
closed_all ((n, t) ∷ drained) f = closed_all drained _

pub closed : (t : Option ℕ) (f : Fleet) → (close_of t f).inventories ≡ f.inventories
unfolding close_of act
closed none f = refl
closed (some t) f = refl

pub evicted_all : (id : Option ℕ) (f : Fleet) → (evict_all id f).inventories ≡ f.inventories
unfolding evict_all act
evicted_all none f = refl
evicted_all (some id) f = refl
