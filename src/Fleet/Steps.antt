-- ===== src/Fleet/Steps.antt =====
-- What a message of src/node/fleet.rs does to the connections: an abstract machine whose state is the
-- transports, the origins of their uptime, the epochs, the admission generation and the ids, and that the
-- actor refines.
use higgs.Base.Assoc.{get, insert, remove}
use higgs.Base.Text.{Text, text_eq}
use higgs.Fleet.{Fleet, FleetEventKind, Effect, place_eq}
use higgs.Fleet.Actions.{
  act, bump_epoch, close_of, evict_all, retire, epoch, succ_u64, or_zero, is_transport, is_current,
  drop_transport_if, is_model, assign, remove_instance_if, remove_instance_no_bump,
  evict_remote_logs,
}
use higgs.Fleet.Handle.{Msg, Admission, handle, admit, close_all, is_stale_gen, emit_if}
use higgs.Fleet.Untouched.{
  evict_of-Untouched, commit_inventory-Untouched, commit_workers-Untouched, fallback_done-Untouched,
  begin_over-Untouched, end_over-Untouched, record_facts-Untouched,
}
use higgs.Fleet.Links.{
  Links, links, Untouched, same-Untouched, then-Untouched, either-Untouched, first-Untouched,
  act-Untouched, emit_if-Untouched,
}
use higgs.Base.{
  if◌then◌else◌, List, [], ◌∷◌, some, none, Option, false, true, Bool, ℕ, ◌≡◌, ◌∙◌, refl, ap,
}

unfoldable pub epoch_of : Text → Links → ℕ
unfolding get
epoch_of node l = or_zero (get node l.epochs)

unfoldable pub bump_links : Text → Links → Links
unfolding epoch_of succ_u64 insert
bump_links node l = record l { epochs = insert node (succ_u64 (epoch_of node l)) l.epochs }

unfoldable pub admit_links : Admission → Links → Links
unfolding insert assign bump_links
admit_links a l = bump_links a.node (record l {
  nodes = insert a.node a.transport l.nodes;
  connected_at = insert a.node a.now l.connected_at;
  node_ids = (assign a.node l.node_ids).1;
})

unfoldable pub drop_links : Text → Links → Links
unfolding remove
drop_links node l = record l {
  nodes = remove node l.nodes;
  connected_at = remove node l.connected_at;
}

unfoldable pub retire_links : Text → Links → Links
unfolding drop_links bump_links remove
retire_links node l =
    let l' = bump_links node (drop_links node l) in
    record l' {
      node_ids = record l'.node_ids { by_endpoint = remove node l'.node_ids.by_endpoint };
    }

unfoldable pub drain_links : Links → Links
unfolding succ_u64
drain_links l = record l { nodes = []; connected_at = []; admit_gen = succ_u64 l.admit_gen }

-- One step; whether the message takes a route away is an argument.
unfoldable pub step : Msg → Bool → Links → Links
unfolding assign is_stale_gen admit_links succ_u64 is_transport drop_links retire_links drain_links
    bump_links get
step (Msg.seed_node node) b l = record l { node_ids = (assign node l.node_ids).1 }
step (Msg.admit_node a) b l = if is_stale_gen a.gen l.admit_gen then l else admit_links a l
step Msg.bump_admit_gen b l = record l { admit_gen = succ_u64 l.admit_gen }
step (Msg.drop_transport_if node transport) b l =
    if is_transport transport (get node l.nodes) then drop_links node l else l
step (Msg.retire node) b l = retire_links node l
step Msg.disconnect_all b l = drain_links l
step (Msg.remove_instance_if node worker model) b l = if b then bump_links node l else l
step (Msg.bump_epoch node) b l = bump_links node l
step _ b l = l

unfoldable pub takes_route : Msg → Fleet → Bool
unfolding is_model get
takes_route (Msg.remove_instance_if node worker model) f =
    is_model model (get (node, worker) f.routes)
takes_route _ f = false

close_all-Untouched : (drained : List (Text × ℕ)) (f : Fleet) → Untouched f (close_all drained f)
unfolding close_all
close_all-Untouched [] f = same-Untouched f
close_all-Untouched ((node, t) ∷ drained) f = then-Untouched (act-Untouched (Effect.close t) f) (
    then-Untouched (act-Untouched (Effect.emit node FleetEventKind.node_dropped) _)
      (close_all-Untouched drained _))

close_of-Untouched : (t : Option ℕ) (f : Fleet) → Untouched f (close_of t f)
unfolding close_of
close_of-Untouched none f = same-Untouched f
close_of-Untouched (some t) f = act-Untouched (Effect.close t) f

evict_all-Untouched : (id : Option ℕ) (f : Fleet) → Untouched f (evict_all id f)
unfolding evict_all
evict_all-Untouched none f = same-Untouched f
evict_all-Untouched (some id) f = act-Untouched (Effect.evict_node id) f

retire-links : (node : Text) (f : Fleet) → links (retire node f) ≡ retire_links node (links f)
unfolding retire links retire_links bump_links bump_epoch epoch epoch_of drop_links
retire-links node f =
    let f0 = record f { nodes = remove node f.nodes } in
    let closed = close_of (get node f.nodes) f0 in
    ap
      (λ (l : Links). record l {
        connected_at = remove node l.connected_at;
        epochs = insert node (succ_u64 (or_zero (get node l.epochs))) l.epochs;
        node_ids = record l.node_ids { by_endpoint = remove node l.node_ids.by_endpoint };
      })
      (then-Untouched (close_of-Untouched (get node f.nodes) f0)
        (evict_all-Untouched (get node closed.node_ids.by_endpoint) closed)).same

admit-links : (a : Admission) (f : Fleet) → links (admit a f).0 ≡ admit_links a (links f)
unfolding admit links admit_links bump_links bump_epoch epoch epoch_of act
admit-links a f =
    ap
      (λ (l : Links). record l {
        nodes = insert a.node a.transport l.nodes;
        connected_at = insert a.node a.now l.connected_at;
        epochs = insert a.node (succ_u64 (or_zero (get a.node l.epochs))) l.epochs;
      })
      (record_facts-Untouched a (record f { node_ids = (assign a.node f.node_ids).1 })).same

-- What holds of both branches of a step.
pub either {ℓ κ} :
    {A : Type κ} (P : A → Type ℓ) (c : Bool) (x y : A)
    → (c ≡ true → P x)
    → (c ≡ false → P y)
    → P (if c then x else y)
either P true x y l r = l refl
either P false x y l r = r refl

first-links {ℓ} :
    {R : Type ℓ} (b : Bool) (x y : Fleet × R)
    → links (if b then x else y).0 ≡ (if b then links x.0 else links y.0)
first-links true x y = refl
first-links false x y = refl

drop-links :
    (b : Bool) (node : Text) (f g : Fleet)
    → links g ≡ drop_links node (links f)
    → links (
        emit_if
          (if◌then◌else◌ {A = Bool × Fleet} b (true, g) (false, f)).0
          node
          FleetEventKind.node_dropped
          (if◌then◌else◌ {A = Bool × Fleet} b (true, g) (false, f)).1)
      ≡ (if b then drop_links node (links f) else links f)
drop-links true node f g e = (emit_if-Untouched true node FleetEventKind.node_dropped g).same ∙ e
drop-links false node f g e = (emit_if-Untouched false node FleetEventKind.node_dropped f).same

reroute-links :
    (b : Bool) (node : Text) (worker : ℕ) (f g : Fleet)
    → links g ≡ links f
    → (let (removed, f') =
          if◌then◌else◌ {A = Bool × Fleet} b (true, evict_remote_logs node worker g) (false, f) in
        links (if removed then bump_epoch node f' else f'))
      ≡ (if b then bump_links node (links f) else links f)
unfolding links evict_remote_logs bump_links bump_epoch epoch epoch_of
reroute-links true node worker f g e =
    ap (bump_links node) ((evict_of-Untouched (get node g.node_ids.by_endpoint) worker g).same ∙ e)
reroute-links false node worker f g e = refl

-- The actor refines the abstract machine.
pub handle-step : (m : Msg) (f : Fleet) → links (handle m f).0 ≡ step m (takes_route m f) (links f)
unfolding handle step takes_route links drain_links is_current drop_transport_if drop_links
    remove_instance_if remove_instance_no_bump bump_links bump_epoch epoch epoch_of
handle-step (Msg.seed_node node) f = refl
handle-step (Msg.admit_node a) f =
    first-links (is_stale_gen a.gen f.admit_gen) (f, _) (admit a f)
    ∙ ap (if◌then◌else◌ (is_stale_gen a.gen f.admit_gen) (links f)) (admit-links a f)
handle-step Msg.bump_admit_gen f = refl
handle-step (Msg.drop_transport_if node transport) f =
    drop-links (is_current node transport f) node f _ refl
handle-step (Msg.set_node_downloads node downloads transport) f =
    (either-Untouched (is_current node transport f) f _ f (record { same = refl })
      (same-Untouched f)).same
handle-step (Msg.retire node) f =
    (emit_if-Untouched _ node _ (retire node f)).same ∙ retire-links node f
handle-step Msg.disconnect_all f = (close_all-Untouched f.nodes _).same
handle-step (Msg.add_instance node worker model transport) f =
    (first-Untouched (is_current node transport f) f _ _ (record { same = refl })
      (same-Untouched f)).same
handle-step (Msg.remove_instance_if node worker model) f =
    (emit_if-Untouched _ node _ _).same
    ∙ reroute-links (is_model model (get (node, worker) f.routes)) node worker f _ refl
handle-step (Msg.bump_epoch node) f = refl
handle-step (Msg.commit_inventory node before inventory at) f =
    (commit_inventory-Untouched node before inventory at f).same
handle-step (Msg.commit_workers node transport push) f =
    (commit_workers-Untouched node transport push f).same
handle-step Msg.announce_hub_state f = refl
handle-step (Msg.fallback_done node gen give_up) f =
    (fallback_done-Untouched node gen give_up f).same
handle-step (Msg.chat_refresh_begin node) f =
    (begin_over-Untouched node (get node f.chat_refreshes) f).same
handle-step (Msg.chat_refresh_end node gen) f =
    (end_over-Untouched node gen (get node f.chat_refreshes) f).same
