-- ===== src/Fleet/Resolve.antt =====
-- How a served id is resolved in src/node/fleet.rs: the ids of src/node/served.rs over the routes, and
-- the route behind an id. The ids are computed on fuel, and `none` is that it runs out.
use higgs.Base.Assoc.{get, contains_key}
use higgs.Base.Text.{Text, text_eq, text_lt}
use higgs.Base.Sort.{sort}
use higgs.Fleet.{
  Fleet, NodeInventory, PulledAt, InventoryWorker, Place, place_eq, same_place, same_place_iff,
}
use higgs.Served.{Instance, served_ids}
use higgs.Served.Reached.{Reached, served_ids_total}
use higgs.Base.{
  string_eq, nat_eq, ◌==◌, List, [], ◌∷◌, some, none, Option, ◌&&◌, true, Bool, ℕ, find, retain,
  map, ◌≡◌, inl, inr, Bool-cases, ◌∙◌, refl, sym, ap, All,
}

unfoldable pub instances : List (Place × Text) → List (Instance Text)
instances [] = []
instances (((node, worker), model) ∷ routes) =
    let rest = instances routes in record { location = node; worker = worker; model = model } ∷ rest

-- FleetActor::served_ids
unfoldable pub served_of : Fleet → Option (List (Text × Place))
unfolding instances served_ids
served_of f = served_ids text_lt (instances f.routes)

unfoldable pub route_of : Fleet → Option Place → Option (Place × Text)
unfolding get
route_of f none = none
route_of f (some place) = elim (get place f.routes) [
  | none ↦ none
  | some model ↦ some (place, model)
]

-- ResolveServed
unfoldable pub resolve_served : Text → Fleet → Option (Option (Place × Text))
unfolding served_of route_of get
resolve_served served f = elim (served_of f) [
  | none ↦ none
  | some ids ↦ some (route_of f (get served ids))
]

-- worker_chat_capable
unfoldable pub is_chat_row : ℕ → Text → NodeInventory → Bool
unfolding find
is_chat_row worker model inv =
    elim (find (λ (w : InventoryWorker). w.worker_id == worker && w.model == model) inv.workers) [
      | none ↦ true
      | some w ↦ w.is_llm
    ]

unfoldable pub chat_capable_over : Option Text → Option (NodeInventory × PulledAt) → ℕ → Bool
unfolding is_chat_row
chat_capable_over none cached worker = true
chat_capable_over (some model) none worker = true
chat_capable_over (some model) (some (inv, at)) worker = is_chat_row worker model inv

unfoldable pub worker_chat_capable : Place → Fleet → Bool
unfolding chat_capable_over get
worker_chat_capable place f =
    chat_capable_over (get place f.routes) (get place.0 f.inventories) place.1

-- routed_models
unfoldable pub routed_models : Fleet → Option (List Text)
unfolding served_of worker_chat_capable retain sort
routed_models f = elim (served_of f) [
  | none ↦ none
  | some ids ↦ some (
      sort text_lt (
        map (λ (e : Text × Place). e.0)
          (retain (λ (e : Text × Place). contains_key e.1.0 f.nodes && worker_chat_capable e.1 f)
            ids)))
]

-- ServedOn
unfoldable pub served_on : Text → Fleet → Option (List Text)
unfolding served_of retain sort
served_on node f = elim (served_of f) [
  | none ↦ none
  | some ids ↦ some (
      sort text_lt
        (map (λ (e : Text × Place). e.0) (retain (λ (e : Text × Place). e.1.0 == node) ids)))
]

routed-Reached :
    (routes : List (Place × Text)) (ids : List (Text × Place)) (node : Text) (worker : ℕ)
    {model : Text}
    → All (Reached ids) (instances routes)
    → get (node, worker) routes ≡ some model
    → (served : Text) × (get served ids ≡ some (node, worker))
unfolding get instances
routed-Reached [] ids node worker r e = cc e
routed-Reached (((n, w), m) ∷ routes) ids node worker (r, rs) e =
    elim (Bool-cases (same_place (n, w) (node, worker))) [
      | inl t ↦ (r.id, r.found ∙ ap some ((same_place_iff (n, w) (node, worker)).0 t))
      | inr f ↦ routed-Reached routes ids node worker rs (sym (rw (f, get) refl) ∙ e)
    ]

resolves :
    (f : Fleet) (served : Text) {ids : List (Text × Place)} {place : Place} {model : Text}
    → served_of f ≡ some ids
    → get served ids ≡ some place
    → get place f.routes ≡ some model
    → resolve_served served f ≡ some (some (place, model))
unfolding resolve_served route_of
resolves f served computed found routed =
    rw (computed, resolve_served) (rw (found, route_of) (rw (routed, route_of) refl))

-- Every route is behind some id: the ids are computed, and the id resolves to the worker and the model
-- of the route, also while the node is not connected.
pub route-Resolved :
    (f : Fleet) (node : Text) (worker : ℕ) {model : Text}
    → get (node, worker) f.routes ≡ some model
    → (served : Text) × (resolve_served served f ≡ some (some ((node, worker), model)))
unfolding resolve_served served_of route_of
route-Resolved f node worker e =
    let (ids, computed, _, reached) = served_ids_total text_lt (instances f.routes) in
    let (served, found) = routed-Reached f.routes ids node worker reached e in
    (served, resolves f served computed found e)
