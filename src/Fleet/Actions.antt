-- ===== src/Fleet/Actions.antt =====
-- The operations of the FleetActor of src/node/fleet.rs that its messages share, and NodeIdAllocator of
-- src/node/node_id.rs.
use higgs.Base.Assoc.{get, insert, remove}
use higgs.Base.Text.{Text, text_eq}
use higgs.Base.{
  string_eq, nat_eq, ◌==◌, retain, if◌then◌else◌, ◌∷◌, some, none, Option, not, false, true, Bool,
  ◌+◌, ◌^◌, ◌%◌, max, ℕ,
}
use higgs.Fleet.{Effect, Fleet, NodeIds, Place, place_eq}

abbrev pub or_zero : Option ℕ → ℕ
or_zero none = 0
or_zero (some n) = n

-- `+= 1` and `wrapping_add(1)` of a u64
unfoldable pub succ_u64 : ℕ → ℕ
succ_u64 n = (n + 1) % 2 ^ 64

-- FleetActor::epoch
unfoldable pub epoch : Text → Fleet → ℕ
unfolding get
epoch node f = or_zero (get node f.epochs)

unfoldable pub bump_epoch : Text → Fleet → Fleet
unfolding epoch insert succ_u64
bump_epoch node f = record f { epochs = insert node (succ_u64 (epoch node f)) f.epochs }

unfoldable pub act : Effect → Fleet → Fleet
act e f = record f { effects = e ∷ f.effects }

unfoldable pub evict_of : Option ℕ → ℕ → Fleet → Fleet
unfolding act
evict_of none worker f = f
evict_of (some nid) worker f = act (Effect.evict_remote nid worker) f

unfoldable pub evict_remote_logs : Text → ℕ → Fleet → Fleet
unfolding evict_of get
evict_remote_logs node worker f = evict_of (get node f.node_ids.by_endpoint) worker f

-- `Arc::ptr_eq` with the current transport of the node
unfoldable pub is_transport : ℕ → Option ℕ → Bool
is_transport transport none = false
is_transport transport (some cur) = cur == transport

unfoldable pub is_current : Text → ℕ → Fleet → Bool
unfolding is_transport get
is_current node transport f = is_transport transport (get node f.nodes)

unfoldable pub drop_transport_if : Text → ℕ → Fleet → Bool × Fleet
unfolding is_current act remove
drop_transport_if node transport f =
    if is_current node transport f
    then (
      true,
      act (Effect.close transport)
          (record f { nodes = remove node f.nodes; connected_at = remove node f.connected_at }),
    )
    else (false, f)

unfoldable pub is_model : Text → Option Text → Bool
is_model expected none = false
is_model expected (some m) = m == expected

unfoldable pub remove_instance_no_bump : Text → ℕ → Text → Fleet → Bool × Fleet
unfolding is_model evict_remote_logs get remove
remove_instance_no_bump node worker expected_model f =
    if is_model expected_model (get (node, worker) f.routes)
    then (
      true,
      evict_remote_logs node worker (record f { routes = remove (node, worker) f.routes }),
    )
    else (false, f)

unfoldable pub remove_instance_if : Text → ℕ → Text → Fleet → Fleet
unfolding remove_instance_no_bump bump_epoch
remove_instance_if node worker expected_model f =
    let (removed, f') = remove_instance_no_bump node worker expected_model f in
    if removed then bump_epoch node f' else f'

-- NodeIdAllocator::assign
unfoldable pub assign_to : Option ℕ → Text → NodeIds → ℕ × NodeIds
unfolding insert
assign_to (some id) endpoint ids = (id, ids)
assign_to none endpoint ids = (
  max ids.next 1,
  record {
    next = (max ids.next 1 + 1) % 2 ^ 32;
    by_endpoint = insert endpoint (max ids.next 1) ids.by_endpoint;
  },
)

unfoldable pub assign : Text → NodeIds → ℕ × NodeIds
unfolding assign_to get
assign endpoint ids = assign_to (get endpoint ids.by_endpoint) endpoint ids

unfoldable pub close_of : Option ℕ → Fleet → Fleet
unfolding act
close_of none f = f
close_of (some t) f = act (Effect.close t) f

unfoldable pub evict_all : Option ℕ → Fleet → Fleet
unfolding act
evict_all none f = f
evict_all (some nid) f = act (Effect.evict_node nid) f

unfoldable pub retire : Text → Fleet → Fleet
unfolding close_of evict_all bump_epoch get remove retain
retire node f =
    let closed = close_of (get node f.nodes) (record f { nodes = remove node f.nodes }) in
    let evicted = evict_all (get node closed.node_ids.by_endpoint) closed in
    let bumped = bump_epoch node (record evicted {
      routes = retain (λ (e : Place × Text). not (e.0.0 == node)) evicted.routes;
    }) in
    record bumped {
      inventories = remove node bumped.inventories;
      facts = remove node bumped.facts;
      node_downloads = remove node bumped.node_downloads;
      update_failures = remove node bumped.update_failures;
      connected_at = remove node bumped.connected_at;
      pending_pushes = remove node bumped.pending_pushes;
      fallback_inflight = remove node bumped.fallback_inflight;
      chat_refreshes = remove node bumped.chat_refreshes;
      node_ids = record bumped.node_ids { by_endpoint = remove node bumped.node_ids.by_endpoint };
    }
