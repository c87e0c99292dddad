-- ===== src/Fleet/Timed.antt =====
-- What the state of src/node/fleet.rs keeps: which nodes are connected, since when, and under which id.
use mathlib.Core.Path.{subst}
use higgs.Base.Assoc.{
  get, insert, remove, contains_key, get-insert, get-remove, got_insert, got_remove,
}
use higgs.Base.Text.{Text, text_eq}
use higgs.Fleet.{Fleet, new, NodeIds}
use higgs.Fleet.Actions.{is_transport, assign, assign_to}
use higgs.Fleet.Handle.{Msg, Admission, handle, is_stale_gen, run}
use higgs.Fleet.Links.{Links, links}
use higgs.Fleet.Steps.{
  step, admit_links, bump_links, drop_links, retire_links, drain_links, handle-step, takes_route,
  either,
}
use higgs.Base.{
  List, [], ◌∷◌, some, none, Option, false, true, Bool, ℕ, ◌≡◌, ◌∙◌, refl, ap, sym, is_some, ◌&&◌,
  ◌||◌, not, ◌==◌, nat_eq, length, max, ◌<◌, ◌≤◌, ◌+◌, ◌^◌, arith, inl, inr, Bool-cases,
}

-- The ids are below the next one, and two nodes have two ids.
pub record FreshIds (ids : NodeIds) : Type 0 where
  pub below : (node : Text) {i : ℕ} → get node ids.by_endpoint ≡ some i → i < max ids.next 1
  pub apart :
      (node other : Text) {i : ℕ}
      → get node ids.by_endpoint ≡ some i
      → get other ids.by_endpoint ≡ some i
      → node ≡ other

-- A node has an origin of its uptime just when it is connected, and a connected node has an id.
pub record IsValid (l : Links) : Type 0 where
  pub timed : (node : Text) → contains_key node l.connected_at ≡ contains_key node l.nodes
  pub known :
      (node : Text)
      → contains_key node l.nodes ≡ true
      → contains_key node l.node_ids.by_endpoint ≡ true
  pub fresh : FreshIds l.node_ids

module _ {ℓ} {V : Type ℓ} where
  has-insert :
      (k j : Text) (v : V) (m : List (Text × V))
      → contains_key j (insert k v m) ≡ (k == j || contains_key j m)
  has-insert k j v m = elim (Bool-cases (k == j)) [
    | inl t ↦ rw (get-insert k j v m, t) refl
    | inr f ↦ rw (get-insert k j v m, f) refl
  ]

  has-remove :
      (k j : Text) (m : List (Text × V))
      → contains_key j (remove k m) ≡ (not (k == j) && contains_key j m)
  has-remove k j m = elim (Bool-cases (k == j)) [
    | inl t ↦ rw (get-remove k j m, t) refl
    | inr f ↦ rw (get-remove k j m, f) refl
  ]

-- The bound on the ids.
top : NodeIds → ℕ
top ids = max ids.next 1

assign_to-top :
    (found : Option ℕ) (node : Text) (ids : NodeIds)
    → top ids + 1 < 2 ^ 32
    → top (assign_to found node ids).1 ≤ top ids + 1
unfolding assign_to top
assign_to-top none node ids h = omega (arith, h)
assign_to-top (some id) node ids h = omega arith

assign_to-Fresh :
    (found : Option ℕ) (node : Text) (ids : NodeIds)
    → top ids + 1 < 2 ^ 32
    → FreshIds ids
    → FreshIds (assign_to found node ids).1
unfolding assign_to top
assign_to-Fresh (some id) node ids h v = v
assign_to-Fresh none node ids h v = record {
  below = λ n e. elim (got_insert node n (max ids.next 1) ids.by_endpoint e) [
    | inl (_, same) ↦ omega (arith, same, h)
    | inr (_, old) ↦ omega (arith, v.below n old, h)
  ];
  apart = λ n o e e'. elim (got_insert node n (max ids.next 1) ids.by_endpoint e) [
    | inl (here, same) ↦ elim (got_insert node o (max ids.next 1) ids.by_endpoint e') [
      | inl (there, _) ↦ sym here ∙ there
      | inr (_, old) ↦ ground (arith, v.below o old, same)
    ]
    | inr (_, old) ↦ elim (got_insert node o (max ids.next 1) ids.by_endpoint e') [
      | inl (_, same) ↦ ground (arith, v.below n old, same)
      | inr (_, old') ↦ v.apart n o old old'
    ]
  ];
}

assign_to-known :
    (found : Option ℕ) (node n : Text) (ids : NodeIds)
    → get node ids.by_endpoint ≡ found
    → (node == n || contains_key n ids.by_endpoint) ≡ true
    → contains_key n (assign_to found node ids).1.by_endpoint ≡ true
unfolding assign_to
assign_to-known none node n ids e h = has-insert node n (max ids.next 1) ids.by_endpoint ∙ h
assign_to-known (some id) node n ids e h = elim (Bool-cases (node == n)) [
  | inl t ↦ ap is_some (ap (λ k. get k ids.by_endpoint) (sym ((text_eq.decides node n).0 t)) ∙ e)
  | inr f ↦ sym (rw f refl) ∙ h
]

kept_known : (b : Bool) {x y : Bool} → (x ≡ true → y ≡ true) → (b || x) ≡ true → (b || y) ≡ true
kept_known true k e = refl
kept_known false k e = k e

admitted-IsValid :
    (a : Admission) (l : Links)
    → top l.node_ids + 1 < 2 ^ 32
    → IsValid l
    → IsValid (admit_links a l)
unfolding admit_links bump_links assign
admitted-IsValid a l h v = record {
  timed = λ n.
      has-insert a.node n a.now l.connected_at
      ∙ ap (λ b. a.node == n || b) (v.timed n)
      ∙ sym (has-insert a.node n a.transport l.nodes);
  known = λ n e.
      assign_to-known (get a.node l.node_ids.by_endpoint) a.node n l.node_ids refl
        (kept_known (a.node == n) (v.known n) (sym (has-insert a.node n a.transport l.nodes) ∙ e));
  fresh = assign_to-Fresh (get a.node l.node_ids.by_endpoint) a.node l.node_ids h v.fresh;
}

dropped-IsValid : (node : Text) (l : Links) → IsValid l → IsValid (drop_links node l)
unfolding drop_links
dropped-IsValid node l v = record {
  timed = λ n.
      has-remove node n l.connected_at
      ∙ ap (λ b. not (node == n) && b) (v.timed n)
      ∙ sym (has-remove node n l.nodes);
  known = λ n e. v.known n (ground (arith, has-remove node n l.nodes, e));
  fresh = v.fresh;
}

forgotten-Fresh :
    (node : Text) (ids : NodeIds)
    → FreshIds ids
    → FreshIds (record ids { by_endpoint = remove node ids.by_endpoint })
forgotten-Fresh node ids v = record {
  below = λ n e. v.below n (got_remove node n ids.by_endpoint e).1;
  apart = λ n o e e'.
      v.apart n o (got_remove node n ids.by_endpoint e).1 (got_remove node o ids.by_endpoint e').1;
}

retired-IsValid : (node : Text) (l : Links) → IsValid l → IsValid (retire_links node l)
unfolding retire_links bump_links drop_links
retired-IsValid node l v = record {
  timed = (dropped-IsValid node l v).timed;
  known = λ n e.
      ground
        (arith, has-remove node n l.nodes, has-remove node n l.node_ids.by_endpoint, v.known n, e);
  fresh = forgotten-Fresh node l.node_ids v.fresh;
}

bumped-IsValid : (node : Text) (l : Links) → IsValid l → IsValid (bump_links node l)
unfolding bump_links
bumped-IsValid node l v = record { timed = v.timed; known = v.known; fresh = v.fresh }

step-IsValid :
    (m : Msg) (b : Bool) (l : Links)
    → top l.node_ids + 1 < 2 ^ 32
    → IsValid l
    → IsValid (step m b l) × (top (step m b l).node_ids ≤ top l.node_ids + 1)
unfolding step admit_links bump_links drop_links retire_links drain_links assign top
step-IsValid (Msg.seed_node node) b l h v = (
  record {
    timed = v.timed;
    known = λ n e.
        assign_to-known (get node l.node_ids.by_endpoint) node n l.node_ids refl
          (rw (v.known n e) (ground arith));
    fresh = assign_to-Fresh (get node l.node_ids.by_endpoint) node l.node_ids h v.fresh;
  },
  assign_to-top (get node l.node_ids.by_endpoint) node l.node_ids h,
)
step-IsValid (Msg.admit_node a) b l h v =
    either (λ x. IsValid x × (top x.node_ids ≤ top l.node_ids + 1)) (is_stale_gen a.gen l.admit_gen)
      l (admit_links a l) (λ _. (v, omega arith))
      (λ _. (
        admitted-IsValid a l h v,
        assign_to-top (get a.node l.node_ids.by_endpoint) a.node l.node_ids h,
      ))
step-IsValid (Msg.drop_transport_if n transport) b l h v =
    either (λ x. IsValid x × (top x.node_ids ≤ top l.node_ids + 1))
      (is_transport transport (get n l.nodes)) (drop_links n l) l
      (λ _. (dropped-IsValid n l v, omega arith)) (λ _. (v, omega arith))
step-IsValid (Msg.remove_instance_if n worker model) b l h v =
    either (λ x. IsValid x × (top x.node_ids ≤ top l.node_ids + 1)) b (bump_links n l) l
      (λ _. (bumped-IsValid n l v, omega arith)) (λ _. (v, omega arith))
step-IsValid (Msg.retire n) b l h v = (retired-IsValid n l v, omega arith)
step-IsValid (Msg.bump_epoch n) b l h v = (bumped-IsValid n l v, omega arith)
step-IsValid Msg.disconnect_all b l h v =
    (record { timed = λ n. refl; known = λ n e. cc e; fresh = v.fresh }, omega arith)
step-IsValid Msg.bump_admit_gen b l h v =
    (record { timed = v.timed; known = v.known; fresh = v.fresh }, omega arith)
step-IsValid _ b l h v = (v, omega arith)

run-IsValid :
    (msgs : List Msg) (f : Fleet)
    → max f.node_ids.next 1 + length msgs < 2 ^ 32
    → IsValid (links f)
    → IsValid (links (run msgs f))
unfolding run links top
run-IsValid [] f h v = v
run-IsValid (m ∷ msgs) f h v =
    let (valid, by_one) = step-IsValid m (takes_route m f) (links f) (omega (arith, h)) v in
    let same = handle-step m f in
    let next = ap (λ (l : Links). l.node_ids.next) same in
    run-IsValid msgs (handle m f).0 (omega (arith, h, by_one, next))
      (subst IsValid (sym same) valid)

-- In a fleet that has handled any messages since it was made, a node has an origin of its uptime just when
-- it is connected, a connected node has an id, and no two nodes have one id, as long as there are fewer
-- messages than ids.
pub reached-IsValid : (msgs : List Msg) → length msgs + 1 < 2 ^ 32 → IsValid (links (run msgs new))
unfolding links get
reached-IsValid msgs h = run-IsValid msgs new (omega (arith, h)) (record {
  timed = λ n. refl;
  known = λ n e. cc e;
  fresh = record { below = λ n e. cc e; apart = λ n o e e'. cc e };
})
