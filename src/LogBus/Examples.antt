-- ===== src/LogBus/Examples.antt =====
-- Lines of three sources, and a worker that has left.
use higgs.Base.Assoc.{get, insert, remove}
use higgs.Base.Sort
use higgs.LogBus.{
  snapshot, merged, entries_of, last_n, evict_node, of_node, push, ring_of, ring_or_empty,
  push_ring, make_room, ring_cap, matches_filter, same_source, remote_worker, local_worker, worker,
  serve, source_eq, new,
}
use higgs.Base.{string_eq, nat_eq, retain, ◌∷◌, [], List, some, none, refl, ◌≡◌, min, drop}
use higgs.LogBus.History.{snapshot-history, history, drop_node, push_line, apply_all, apply, Op}

abbrev lines : List Op
lines =
    push_line serve "a"
    ∷ push_line (local_worker 3) "b"
    ∷ push_line serve "c"
    ∷ push_line (remote_worker 1 2) "d"
    ∷ drop_node 1
    ∷ []

snapshot-history_example :
    snapshot 1 (some serve) (apply_all lines new)
    ≡ last_n (history serve lines 0 []) (min 1 ring_cap)
unfolding same_source
snapshot-history_example = snapshot-history lines serve 1 refl

all_sources : snapshot 2 none (apply_all lines new) ≡ "b" ∷ "c" ∷ []
unfolding snapshot merged entries_of last_n apply_all apply push push_ring make_room ring_of
    ring_or_empty evict_node of_node retain same_source get insert remove Sort.sort Sort.insert drop
all_sources = refl

all_workers : snapshot 9 (some worker) (apply_all lines new) ≡ "b" ∷ []
unfolding snapshot merged entries_of last_n apply_all apply push push_ring make_room ring_of
    ring_or_empty evict_node of_node retain same_source get insert remove Sort.sort Sort.insert drop
    matches_filter
all_workers = refl
