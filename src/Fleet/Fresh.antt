-- ===== src/Fleet/Fresh.antt =====
-- The order of the data in the cache of inventories of src/node/fleet.rs, over any messages.
use higgs.Base.Assoc.{get, get_other, get_left, remove}
use higgs.Base.Text.{Text, text_eq}
use higgs.Fleet.{Fleet, NodeInventory, PulledAt, FleetEventKind, place_eq}
use higgs.Fleet.Actions.{
  act, evict_remote_logs, is_model, remove_instance_no_bump, remove_instance_if, bump_epoch,
  is_current, drop_transport_if, close_of, retire, assign,
}
use higgs.Fleet.Commit.{PushOutcome, commit_workers, renew_slot, fallback_over, fallback_done}
use higgs.Fleet.Handle.{
  Msg, Reply, Admission, handle, admit, strip_seq, set_failure, record_facts, begin_over, end_over,
  emit_if, is_stale_gen, run,
}
use higgs.Fleet.Steps.{either}
use higgs.Base.{
  if◌then◌else◌, List, [], ◌∷◌, some, none, Option, false, true, Bool, ℕ, ◌≡◌, ◌∙◌, refl, ap, ◌||◌,
  not, ◌==◌, nat_eq, leb, is_some, arith, All,
}
use higgs.Fleet.Holds.{Holds, kept-Holds, emit_if-Holds, pull-Holds, push-Holds, cached_of}
use higgs.Fleet.Cached.{holds, reaches, routed-inventories, closed_all, closed, evicted_all}

-- Whether the message is within one connection of the node: it does not admit or retire the node, and a
-- pull of its inventory has a number.
unfoldable pub continues : Text → Msg → Bool
continues node (Msg.admit_node a) = not (a.node == node)
continues node (Msg.retire n) = not (n == node)
continues node (Msg.commit_inventory n before inventory at) =
    not (n == node) || is_some inventory.snapshot_seq
continues node _ = true

module _ (s : ℕ) (node : Text) where
  strip-Holds :
      (n : Text) (c : Option (NodeInventory × PulledAt)) (f : Fleet)
      → n == node ≡ false
      → Holds s node f
      → Holds s node (strip_seq n c f)
  unfolding strip_seq
  strip-Holds n none f other h = h
  strip-Holds n (some (inv, at)) f other h = record {
    cached =
        ap (holds s) (get_other n node (record inv { snapshot_seq = none }, at) f.inventories other)
        ∙ h.cached;
  }

  failure-Holds :
      (n : Text) (e : Option Text) (reports : Bool) (f : Fleet)
      → Holds s node f
      → Holds s node (set_failure n e reports f)
  unfolding set_failure
  failure-Holds n (some e) reports f h = record { cached = h.cached }
  failure-Holds n none reports f h =
      either (Holds s node) reports _ f (λ _. record { cached = h.cached }) (λ _. h)

  admit-Holds :
      (a : Admission) (f : Fleet)
      → a.node == node ≡ false
      → Holds s node f
      → Holds s node (admit a f).0
  unfolding admit record_facts bump_epoch act
  admit-Holds a f other h =
      let known = record f { node_ids = (assign a.node f.node_ids).1 } in
      let stripped =
        strip-Holds a.node (get a.node f.inventories) known other (record { cached = h.cached }) in
      let failed = failure-Holds a.node a.update_failed a.reports_update_failures _ stripped in
      record { cached = failed.cached }

  retire-Holds :
      (n : Text) (f : Fleet) → n == node ≡ false → Holds s node f → Holds s node (retire n f)
  unfolding retire bump_epoch
  retire-Holds n f other h =
      let f0 = record f { nodes = remove n f.nodes } in
      let closed_f = close_of (get n f.nodes) f0 in
      let same =
        evicted_all (get n closed_f.node_ids.by_endpoint) closed_f ∙ closed (get n f.nodes) f0 in
      record {
        cached =
            ap (λ m. holds s (get node (remove n m))) same
            ∙ ap (holds s) (get_left n node f.inventories other)
            ∙ h.cached;
      }

  begin-Holds :
      (n : Text) (slot : Option (ℕ × Bool)) (f : Fleet)
      → Holds s node f
      → Holds s node (begin_over n slot f).0
  unfolding begin_over
  begin-Holds n none f h = record { cached = h.cached }
  begin-Holds n (some (gen, again)) f h = record { cached = h.cached }

  end-Holds :
      (n : Text) (gen : ℕ) (slot : Option (ℕ × Bool)) (f : Fleet)
      → Holds s node f
      → Holds s node (end_over n gen slot f).0
  unfolding end_over
  end-Holds n gen none f h = h
  end-Holds n gen (some (owner, again)) f h =
      either (λ (x : Fleet × Reply). Holds s node x.0) (owner == gen) _ _
        (λ _.
          either (λ (x : Fleet × Reply). Holds s node x.0) again _ _
            (λ _. record { cached = h.cached }) (λ _. record { cached = h.cached }))
        (λ _. h)

  slot-Holds :
      (retry : Bool) (n : Text) (slot : ℕ × ℕ) (f : Fleet)
      → Holds s node f
      → Holds s node (renew_slot retry n slot f).0
  unfolding renew_slot
  slot-Holds true n slot f h = record { cached = h.cached }
  slot-Holds false n slot f h = record { cached = h.cached }

  fallback-Holds :
      (n : Text) (gen : ℕ) (give_up : Bool) (slot : Option (ℕ × ℕ)) (f : Fleet)
      → Holds s node f
      → Holds s node (fallback_over n gen give_up slot f).0
  unfolding fallback_over
  fallback-Holds n gen give_up none f h = h
  fallback-Holds n gen give_up (some (cur_gen, seq)) f h =
      either (λ (x : Fleet × Bool). Holds s node x.0) (cur_gen == gen) _ _
        (λ _. slot-Holds _ n _ f h) (λ _. h)

  reroute-Holds :
      (b : Bool) (n : Text) (worker : ℕ) (f g : Fleet)
      → g.inventories ≡ f.inventories
      → Holds s node f
      → (let (removed, f') =
            if◌then◌else◌ {A = Bool × Fleet} b (true, evict_remote_logs n worker g) (false, f) in
          Holds s node (if removed then bump_epoch n f' else f'))
  unfolding bump_epoch
  reroute-Holds true n worker f g e h = kept-Holds s node (routed-inventories true n worker f g e) h
  reroute-Holds false n worker f g e h = h

  drop-Holds :
      (b : Bool) (n : Text) (f g : Fleet)
      → g.inventories ≡ f.inventories
      → Holds s node f
      → Holds s node (
          emit_if
            (if◌then◌else◌ {A = Bool × Fleet} b (true, g) (false, f)).0
            n
            FleetEventKind.node_dropped
            (if◌then◌else◌ {A = Bool × Fleet} b (true, g) (false, f)).1)
  drop-Holds true n f g e h = emit_if-Holds s node true n _ g (kept-Holds s node e h)
  drop-Holds false n f g e h = emit_if-Holds s node false n _ f h

  handle-Holds :
      (m : Msg) (f : Fleet) → continues node m ≡ true → Holds s node f → Holds s node (handle m f).0
  unfolding handle continues drop_transport_if act remove_instance_if remove_instance_no_bump
      bump_epoch commit_workers fallback_done
  handle-Holds (Msg.seed_node n) f c h = record { cached = h.cached }
  handle-Holds (Msg.admit_node a) f c h =
      either (λ (x : Fleet × Reply). Holds s node x.0) (is_stale_gen a.gen f.admit_gen) _ _ (λ _. h)
        (λ _. admit-Holds a f (ground (arith, c)) h)
  handle-Holds Msg.bump_admit_gen f c h = record { cached = h.cached }
  handle-Holds (Msg.drop_transport_if n transport) f c h =
      drop-Holds (is_current n transport f) n f _ refl h
  handle-Holds (Msg.set_node_downloads n downloads transport) f c h =
      either (Holds s node) (is_current n transport f) _ f (λ _. record { cached = h.cached })
        (λ _. h)
  handle-Holds (Msg.retire n) f c h =
      emit_if-Holds s node _ n _ (retire n f) (retire-Holds n f (ground (arith, c)) h)
  handle-Holds Msg.disconnect_all f c h = record {
    cached = ap (λ m. holds s (get node m)) (closed_all f.nodes _) ∙ h.cached;
  }
  handle-Holds (Msg.add_instance n worker model transport) f c h =
      either (λ (x : Fleet × Reply). Holds s node x.0) (is_current n transport f) _ _
        (λ _. record { cached = h.cached }) (λ _. h)
  handle-Holds (Msg.remove_instance_if n worker model) f c h = emit_if-Holds s node _ n _ _ (
      reroute-Holds (is_model model (get (n, worker) f.routes)) n worker f
        (record f { routes = remove (n, worker) f.routes }) refl h)
  handle-Holds (Msg.commit_inventory n before inventory at) f c h =
      pull-Holds s node n before inventory at f c h
  handle-Holds (Msg.bump_epoch n) f c h = record { cached = h.cached }
  handle-Holds (Msg.commit_workers n transport push) f c h =
      either (λ (x : Fleet × PushOutcome). Holds s node x.0) _ _ _
        (λ _. push-Holds s node n push (get n f.inventories) f (λ t. cached_of s node n f h t) h)
        (λ _. h)
  handle-Holds Msg.announce_hub_state f c h = record { cached = h.cached }
  handle-Holds (Msg.fallback_done n gen give_up) f c h =
      fallback-Holds n gen give_up (get n f.fallback_inflight) f h
  handle-Holds (Msg.chat_refresh_begin n) f c h = begin-Holds n (get n f.chat_refreshes) f h
  handle-Holds (Msg.chat_refresh_end n gen) f c h = end-Holds n gen (get n f.chat_refreshes) f h

  run-Holds :
      (msgs : List Msg) (f : Fleet)
      → All (λ m. continues node m ≡ true) msgs
      → Holds s node f
      → Holds s node (run msgs f)
  unfolding run
  run-Holds [] f c h = h
  run-Holds (m ∷ msgs) f (c, cs) h = run-Holds msgs (handle m f).0 cs (handle-Holds m f c h)

-- While a node is neither admitted anew nor retired and its pulls carry numbers, the number of its
-- snapshot in the cache never falls: whatever pulls and pushes come, and in whatever order, the cache has
-- a snapshot of the node with at least the number that it had.
pub run-Fresh :
    (node : Text) (msgs : List Msg) (f : Fleet) {inv : NodeInventory} {at : PulledAt} {s : ℕ}
    → get node f.inventories ≡ some (inv, at)
    → inv.snapshot_seq ≡ some s
    → All (λ m. continues node m ≡ true) msgs
    → holds s (get node (run msgs f).inventories) ≡ true
unfolding holds reaches
run-Fresh node msgs f {inv} {at} {s} e numbered c =
    let same : holds s (get node f.inventories) ≡ reaches s inv.snapshot_seq = ap (holds s) e in
    let now : reaches s inv.snapshot_seq ≡ leb s s = ap (reaches s) numbered in
    let itself : leb s s ≡ true = ground arith in
    (run-Holds s node msgs f c (record { cached = same ∙ now ∙ itself })).cached
