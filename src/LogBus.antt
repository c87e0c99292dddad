-- ===== src/LogBus.antt =====
-- src/log_bus.rs: the history of log lines, one bounded ring for each source, and the live fan-out. The
-- five fields with rings are one map by source, where a ring that is not there reads as empty. The lock
-- of a ring makes a push one step; the sends to the live subscribers follow the lock, and belong to the
-- step here.
use higgs.Base.Sort
use higgs.Base.Assoc.{get, insert, remove}
pub mod History
mod Examples
use higgs.Base.{
  ltb, string_eq, nat_eq, ◌==◌, Eq, retain, length, if◌then◌else◌, leb, arith, map, ◌++◌, ◌∷◌, [],
  List, some, none, Option, ◌&&◌, not, false, true, Bool, ◌↔◌, ◌∙◌, ap, refl, ◌≡◌, String, ◌-◌, ◌+◌,
  ℕ, drop,
}

pub data LogSource : Type 0 where
  serve worker : LogSource
  local_worker remote_node : ℕ → LogSource
  remote_worker : ℕ → ℕ → LogSource

unfoldable pub same_source : LogSource → LogSource → Bool
same_source serve serve = true
same_source worker worker = true
same_source (local_worker a) (local_worker b) = a == b
same_source (remote_node a) (remote_node b) = a == b
same_source (remote_worker a v) (remote_worker b w) = a == b && v == w
same_source _ _ = false

-- LogSource::matches_filter
unfoldable pub matches_filter : LogSource → LogSource → Bool
unfolding same_source
matches_filter (local_worker w) worker = true
matches_filter source filter = same_source source filter

pub same_source_iff : (a b : LogSource) → (same_source a b ≡ true) ↔ (a ≡ b)
unfolding same_source
same_source_iff serve serve = (λ _. refl, λ _. refl)
same_source_iff worker worker = (λ _. refl, λ _. refl)
same_source_iff (local_worker a) (local_worker b) =
    (λ e. ap local_worker ((nat_eq.decides a b).0 e), λ e. (nat_eq.decides a b).1 (cc e))
same_source_iff (remote_node a) (remote_node b) =
    (λ e. ap remote_node ((nat_eq.decides a b).0 e), λ e. (nat_eq.decides a b).1 (cc e))
same_source_iff (remote_worker a v) (remote_worker b w) = (
  λ e.
      ap (λ x. remote_worker x v) ((nat_eq.decides a b).0 (ground (arith, e)))
      ∙ ap (λ y. remote_worker b y) ((nat_eq.decides v w).0 (ground (arith, e))),
  λ e. rw ((nat_eq.decides a b).1 (cc e), (nat_eq.decides v w).1 (cc e)) refl,
)
same_source_iff _ _ = (λ e. cc e, λ e. cc e)

instance abbrev pub source_eq : Eq LogSource
source_eq = record { test = same_source; decides = same_source_iff }

-- RING_CAP
abbrev pub ring_cap : ℕ
ring_cap = 2000

-- A line with its stamp; a ring has the oldest first.
pub record Entry : Type 0 where
  pub seq : ℕ
  pub text : String

-- `sent` is what went to the live subscribers, and `serve_sent` to those of the daemon's log.
pub record LogBus : Type 0 where
  pub rings : List (LogSource × List Entry)
  pub next_seq : ℕ
  pub sent : List (LogSource × String)
  pub serve_sent : List String

-- LogBus::new
abbrev pub new : LogBus
new = record { rings = []; next_seq = 0; sent = []; serve_sent = [] }

-- `while ring.len() >= RING_CAP { ring.pop_front() }`
unfoldable pub make_room : List Entry → List Entry
make_room [] = []
make_room (e ∷ ring) =
    let rest = make_room ring in if leb ring_cap (length (e ∷ ring)) then rest else e ∷ ring

unfoldable pub push_ring : List Entry → Entry → List Entry
unfolding make_room
push_ring ring e = make_room ring ++ e ∷ []

-- `entry(key).or_default()`
unfoldable pub ring_or_empty : Option (List Entry) → List Entry
ring_or_empty none = []
ring_or_empty (some ring) = ring

unfoldable pub ring_of : LogSource → LogBus → List Entry
unfolding ring_or_empty get
ring_of source bus = ring_or_empty (get source bus.rings)

unfoldable pub push : LogSource → String → LogBus → LogBus
unfolding push_ring ring_of insert same_source
push source text bus = record {
  rings =
      insert source (push_ring (ring_of source bus) (record { seq = bus.next_seq; text = text }))
        bus.rings;
  next_seq = bus.next_seq + 1;
  sent = bus.sent ++ (source, text) ∷ [];
  serve_sent = if same_source source serve then bus.serve_sent ++ text ∷ [] else bus.serve_sent;
}

unfoldable pub evict_local : ℕ → LogBus → LogBus
unfolding remove
evict_local id bus = record bus { rings = remove (local_worker id) bus.rings }

unfoldable pub evict_remote : ℕ → ℕ → LogBus → LogBus
unfolding remove
evict_remote node id bus = record bus { rings = remove (remote_worker node id) bus.rings }

unfoldable pub of_node : ℕ → LogSource → Bool
of_node node (remote_worker n _) = n == node
of_node node (remote_node n) = n == node
of_node node _ = false

-- All the rings of a node's workers, and the node's own.
unfoldable pub evict_node : ℕ → LogBus → LogBus
unfolding retain of_node
evict_node node bus = record bus { rings = retain (λ r. not (of_node node r.0)) bus.rings }

-- `last_n`: the skip saturates at 0.
unfoldable pub last_n : List Entry → ℕ → List String
unfolding drop
last_n ring n = map (λ e. e.text) (drop (length ring - n) ring)

unfoldable pub entries_of : (LogSource → Bool) → List (LogSource × List Entry) → List Entry
entries_of p [] = []
entries_of p ((source, ring) ∷ rings) =
    let rest = entries_of p rings in if p source then ring ++ rest else rest

-- Several rings by their stamps.
unfoldable pub merged : List Entry → ℕ → List String
unfolding last_n
merged entries n = last_n (Sort.sort (λ a b. ltb a.seq b.seq) entries) n

unfoldable pub snapshot : ℕ → Option LogSource → LogBus → List String
unfolding merged entries_of last_n ring_of matches_filter
snapshot n none bus = merged (entries_of (λ _. true) bus.rings) n
snapshot n (some worker) bus = merged (entries_of (λ s. matches_filter s worker) bus.rings) n
snapshot n (some source) bus = last_n (ring_of source bus) n
