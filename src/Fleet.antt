-- ===== src/Fleet.antt =====
-- The actor of src/node/fleet.rs that holds a hub's view of its nodes, with src/node/node_id.rs. A message
-- is one step. A transport is known by its identity. What an admission declares of a node, of which the
-- code has one map for each fact, is one map of records; what the actor emits, closes and evicts is a
-- list, the newest first. Sums of counters wrap around.
use higgs.Base.Assoc.{get, insert, remove, contains_key}
use higgs.Base.Text.{Text, text_eq, text_beq_iff}
pub mod Actions
pub mod Commit
mod Links
mod Untouched
mod Steps
pub mod Timed
mod Cached
mod Holds
pub mod Fresh
pub mod Handle
pub mod Epochs
pub mod Switch
pub mod Resolve
mod Examples
use higgs.Base.{
  Eq, string_eq, nat_eq, ◌==◌, any, retain, ltb, if◌then◌else◌, map, ◌++◌, ◌∷◌, [], List, some,
  none, Option, ◌||◌, ◌&&◌, not, false, true, Bool, ◌↔◌, ◌≡◌, refl, ap, ◌∙◌, arith, ◌+◌, ◌^◌, ◌%◌,
  max, ℕ,
}

-- A worker of a node, by its number.
abbrev pub Place : Type 0
Place = Text × ℕ

unfoldable pub same_place : Place → Place → Bool
same_place (n, w) (m, v) = n == m && w == v

pub same_place_iff : (a b : Place) → (same_place a b ≡ true) ↔ (a ≡ b)
unfolding same_place
same_place_iff (n, w) (m, v) = (
  λ e.
      ap (λ x. (x, w)) ((text_beq_iff n m).0 (ground (arith, e)))
      ∙ ap (λ x. (m, x)) ((nat_eq.decides w v).0 (ground (arith, e))),
  λ e.
      rw
        (
          (text_beq_iff n m).1 (ap (λ (x : Place). x.0) e),
          (nat_eq.decides w v).1 (ap (λ (x : Place). x.1) e),
        )
        refl,
)

instance abbrev pub place_eq : Eq Place
place_eq = record { test = same_place; decides = same_place_iff }

-- InventoryWorker, of which these fields decide what the hub does; a ModelDomain is whether it is Llm.
pub record InventoryWorker : Type 0 where
  pub worker_id : ℕ
  pub model : Text
  pub is_llm : Bool

-- NodeInventory; the hardware and the runtime are one text.
pub record NodeInventory : Type 0 where
  pub workers : List InventoryWorker
  pub snapshot_seq : Option ℕ
  pub hostname : Text
  pub os : Text
  pub hardware : Text

pub record PulledAt : Type 0 where
  pub mono : ℕ
  pub wall : ℕ

pub data FleetEventKind : Type 0 where
  chat_start chat_end worker_loaded worker_unloaded resync : FleetEventKind
  hub_state_changed node_connected inventory_synced node_dropped : FleetEventKind

-- FleetEvent, and what else a step does to the outside.
pub data Effect : Type 0 where
  emit : Text → FleetEventKind → Effect
  close : ℕ → Effect
  evict_remote : ℕ → ℕ → Effect
  evict_node : ℕ → Effect

-- NodeIdAllocator
pub record NodeIds : Type 0 where
  pub next : ℕ
  pub by_endpoint : List (Text × ℕ)

-- What a HELLO declares: the maps `versions`, `software_versions`, `targets` and `variants`, and the
-- sets of capabilities.
pub record Facts : Type 0 where
  pub protocol : Option ℕ
  pub software_version : Option Text
  pub target : Option Text
  pub variant : Option Text
  pub fleet_events : Bool
  pub update_capable : Bool
  pub version_capable : Bool
  pub log_capable : Bool
  pub pull_capable : Bool

-- A push that came before any inventory.
pub record Push : Type 0 where
  pub kind : FleetEventKind
  pub workers : List InventoryWorker
  pub seq : ℕ
  pub at : PulledAt

-- FleetActor
pub record Fleet : Type 0 where
  pub nodes : List (Text × ℕ)
  pub routes : List (Place × Text)
  pub node_ids : NodeIds
  pub inventories : List (Text × (NodeInventory × PulledAt))
  pub chat_refreshes : List (Text × (ℕ × Bool))
  pub chat_refresh_gen : ℕ
  pub facts : List (Text × Facts)
  pub node_downloads : List (Text × List Text)
  pub update_failures : List (Text × Text)
  pub connected_at : List (Text × ℕ)
  pub epochs : List (Text × ℕ)
  pub admit_gen : ℕ
  pub pending_pushes : List (Text × Push)
  pub fallback_inflight : List (Text × (ℕ × ℕ))
  pub fallback_gen : ℕ
  pub effects : List Effect

-- The fleet of `HubFleet::new`
abbrev pub new : Fleet
new = record {
  nodes = [];
  routes = [];
  node_ids = record { next = 1; by_endpoint = [] };
  inventories = [];
  chat_refreshes = [];
  chat_refresh_gen = 0;
  facts = [];
  node_downloads = [];
  update_failures = [];
  connected_at = [];
  epochs = [];
  admit_gen = 0;
  pending_pushes = [];
  fallback_inflight = [];
  fallback_gen = 0;
  effects = [];
}
