-- ===== src/Fleet/Handle.antt =====
-- `handle` of the FleetActor of src/node/fleet.rs: the messages that change the hub's view, and a run of
-- them. The other messages read the state (Fleet/Resolve).
use higgs.Base.Assoc.{get, insert, remove, contains_key}
use higgs.Base.Text.{Text, text_eq}
use higgs.Fleet.{Fleet, NodeInventory, PulledAt, FleetEventKind, Effect, Push, Facts, place_eq}
use higgs.Fleet.Actions.{
  act, bump_epoch as bump, is_current, drop_transport_if as drop_transport,
  remove_instance_if as remove_instance, assign, retire as retire_all, succ_u64,
}
use higgs.Fleet.Commit.{
  PushOutcome, commit_inventory as commit_pulled, commit_workers as commit_pushed,
  fallback_done as finish_fallback,
}
use higgs.Base.{
  nat_eq, ◌==◌, if◌then◌else◌, List, [], ◌∷◌, some, none, Option, ◌&&◌, not, false, true, Bool, ℕ,
}

-- AdmitNode
pub record Admission : Type 0 where
  pub node : Text
  pub transport : ℕ
  pub gen : Option ℕ
  pub facts : Facts
  pub update_failed : Option Text
  pub reports_update_failures : Bool
  pub downloads : List Text
  pub now : ℕ

-- FleetMsg
pub data Msg : Type 0 where
  seed_node bump_epoch retire : Text → Msg
  admit_node : Admission → Msg
  bump_admit_gen disconnect_all announce_hub_state : Msg
  drop_transport_if : Text → ℕ → Msg
  set_node_downloads : Text → List Text → ℕ → Msg
  add_instance : Text → ℕ → Text → ℕ → Msg
  remove_instance_if : Text → ℕ → Text → Msg
  commit_inventory : Text → ℕ → NodeInventory → PulledAt → Msg
  commit_workers : Text → ℕ → Push → Msg
  fallback_done : Text → ℕ → Bool → Msg
  chat_refresh_begin : Text → Msg
  chat_refresh_end : Text → ℕ → Msg

-- What the replies carry.
pub data Reply : Type 0 where
  done refused : Reply
  admitted : ℕ → Option ℕ → Reply
  generation : ℕ → Reply
  flag : Bool → Reply
  outcome : PushOutcome → Reply
  owned : Option ℕ → Reply

unfoldable pub is_stale_gen : Option ℕ → ℕ → Bool
is_stale_gen none admit_gen = false
is_stale_gen (some g) admit_gen = not (g == admit_gen)

unfoldable pub strip_seq : Text → Option (NodeInventory × PulledAt) → Fleet → Fleet
unfolding insert
strip_seq node none f = f
strip_seq node (some (inv, at)) f = record f {
  inventories = insert node (record inv { snapshot_seq = none }, at) f.inventories;
}

unfoldable pub non_empty : Option Text → Option Text
non_empty none = none
non_empty (some []) = none
non_empty (some (c ∷ v)) = some (c ∷ v)

unfoldable pub set_failure : Text → Option Text → Bool → Fleet → Fleet
unfolding insert remove
set_failure node (some e) reports f = record f { update_failures = insert node e f.update_failures }
set_failure node none reports f =
    if reports then record f { update_failures = remove node f.update_failures } else f

-- What an admission records of the node, before its transport.
unfoldable pub record_facts : Admission → Fleet → Fleet
unfolding non_empty strip_seq set_failure get insert remove
record_facts a f =
    let stripped = strip_seq a.node (get a.node f.inventories) f in
    let failed = set_failure a.node a.update_failed a.reports_update_failures stripped in
    record failed {
      facts =
          insert a.node (record a.facts { software_version = non_empty a.facts.software_version })
            failed.facts;
      node_downloads = insert a.node a.downloads failed.node_downloads;
      pending_pushes = remove a.node failed.pending_pushes;
      fallback_inflight = remove a.node failed.fallback_inflight;
    }

unfoldable pub admit : Admission → Fleet → Fleet × Reply
unfolding record_facts assign act bump insert get
admit a f =
    let (id, ids) = assign a.node f.node_ids in
    let known = record_facts a (record f { node_ids = ids }) in
    (
      bump a.node (
          act (Effect.emit a.node FleetEventKind.node_connected) (record known {
            nodes = insert a.node a.transport known.nodes;
            connected_at = insert a.node a.now known.connected_at;
          })),
      Reply.admitted id (get a.node known.nodes),
    )

unfoldable pub close_all : List (Text × ℕ) → Fleet → Fleet
unfolding act
close_all [] f = f
close_all ((node, t) ∷ drained) f =
    close_all drained (act (Effect.emit node FleetEventKind.node_dropped) (act (Effect.close t) f))

unfoldable pub emit_if : Bool → Text → FleetEventKind → Fleet → Fleet
unfolding act
emit_if b node kind f = if b then act (Effect.emit node kind) f else f

unfoldable pub begin_over : Text → Option (ℕ × Bool) → Fleet → Fleet × Reply
unfolding succ_u64 insert
begin_over node none f =
    let gen = succ_u64 f.chat_refresh_gen in
    (
      record f {
        chat_refresh_gen = gen;
        chat_refreshes = insert node (gen, false) f.chat_refreshes;
      },
      Reply.owned (some gen),
    )
begin_over node (some (gen, again)) f =
    (record f { chat_refreshes = insert node (gen, true) f.chat_refreshes }, Reply.owned none)

unfoldable pub end_over : Text → ℕ → Option (ℕ × Bool) → Fleet → Fleet × Reply
unfolding insert remove
end_over node gen none f = (f, Reply.flag false)
end_over node gen (some (owner, again)) f =
    if owner == gen
    then (if again
        then (
          record f { chat_refreshes = insert node (gen, false) f.chat_refreshes },
          Reply.flag true,
        )
        else (record f { chat_refreshes = remove node f.chat_refreshes }, Reply.flag false))
    else (f, Reply.flag false)

-- FleetActor::handle
unfoldable pub handle : Msg → Fleet → Fleet × Reply
unfolding assign is_stale_gen admit succ_u64 drop_transport emit_if is_current retire_all close_all
    act remove_instance commit_pulled commit_pushed finish_fallback bump begin_over end_over get
    insert
handle (Msg.seed_node node) f = (record f { node_ids = (assign node f.node_ids).1 }, Reply.done)
handle (Msg.admit_node a) f =
    if is_stale_gen a.gen f.admit_gen then (f, Reply.refused) else admit a f
handle Msg.bump_admit_gen f =
    (record f { admit_gen = succ_u64 f.admit_gen }, Reply.generation (succ_u64 f.admit_gen))
handle (Msg.drop_transport_if node transport) f =
    let (removed, f') = drop_transport node transport f in
    (emit_if removed node FleetEventKind.node_dropped f', Reply.flag removed)
handle (Msg.set_node_downloads node downloads transport) f = (
  (if is_current node transport f
      then record f { node_downloads = insert node downloads f.node_downloads }
      else f),
  Reply.done,
)
handle (Msg.retire node) f = (
  emit_if (contains_key node f.node_ids.by_endpoint) node FleetEventKind.node_dropped
      (retire_all node f),
  Reply.done,
)
handle Msg.disconnect_all f = (
  close_all f.nodes (record f { admit_gen = succ_u64 f.admit_gen; nodes = []; connected_at = [] }),
  Reply.done,
)
handle (Msg.add_instance node worker model transport) f =
    if is_current node transport f
    then (
      act (Effect.emit node FleetEventKind.inventory_synced)
          (record f { routes = insert (node, worker) model f.routes }),
      Reply.flag true,
    )
    else (f, Reply.flag false)
handle (Msg.remove_instance_if node worker expected_model) f =
    let f' = remove_instance node worker expected_model f in
    (
      emit_if (contains_key (node, worker) f.routes && not (contains_key (node, worker) f'.routes))
          node FleetEventKind.inventory_synced f',
      Reply.done,
    )
handle (Msg.commit_inventory node epoch_before inventory at) f =
    let (f', committed) = commit_pulled node epoch_before inventory at f in
    (f', Reply.flag committed)
handle (Msg.bump_epoch node) f = (bump node f, Reply.done)
handle (Msg.commit_workers node transport push) f =
    let (f', merged) = commit_pushed node transport push f in (f', Reply.outcome merged)
handle Msg.announce_hub_state f =
    (act (Effect.emit [] FleetEventKind.hub_state_changed) f, Reply.done)
handle (Msg.fallback_done node gen give_up) f =
    let (f', retry) = finish_fallback node gen give_up f in (f', Reply.flag retry)
handle (Msg.chat_refresh_begin node) f = begin_over node (get node f.chat_refreshes) f
handle (Msg.chat_refresh_end node gen) f = end_over node gen (get node f.chat_refreshes) f

unfoldable pub run : List Msg → Fleet → Fleet
unfolding handle
run [] f = f
run (m ∷ ms) f = run ms (handle m f).0
