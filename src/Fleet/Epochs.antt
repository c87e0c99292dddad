-- ===== src/Fleet/Epochs.antt =====
-- The epochs of the nodes in src/node/fleet.rs, which tell a pull of an inventory that it is outdated.
use mathlib.Core.Path.{subst}
use higgs.Base.Assoc.{get, get_same, get_other}
use higgs.Base.Text.{Text, text_eq}
use higgs.Fleet.{Fleet, NodeInventory, PulledAt}
use higgs.Fleet.Actions.{succ_u64, is_transport, or_zero, epoch}
use higgs.Fleet.Commit.{commit_inventory}
use higgs.Fleet.Handle.{Msg, handle, is_stale_gen, run}
use higgs.Fleet.Links.{Links, links}
use higgs.Fleet.Steps.{
  step, admit_links, bump_links, drop_links, retire_links, drain_links, handle-step, takes_route,
  epoch_of, either,
}
use higgs.Base.{
  List, [], ◌∷◌, false, true, Bool, ℕ, ◌≡◌, ◌∙◌, refl, ap, sym, ◌&&◌, not, ◌==◌, nat_eq, length,
  ◌<◌, ◌≤◌, ◌+◌, ◌^◌, ◌%◌, arith, inl, inr, Bool-cases,
}

-- Whether the message makes the pulls of the node that are under way outdated: an admission that is not
-- refused, a retirement, a bump, and a route taken away.
unfoldable pub invalidates : Text → Msg → Bool → Links → Bool
unfolding is_stale_gen
invalidates node (Msg.admit_node a) b l = not (is_stale_gen a.gen l.admit_gen) && a.node == node
invalidates node (Msg.retire n) b l = n == node
invalidates node (Msg.bump_epoch n) b l = n == node
invalidates node (Msg.remove_instance_if n worker model) b l = b && n == node
invalidates node _ b l = false

-- How the epoch of a node goes on: it does not fall, rises by at most one, and rises when it has to.
Rises : Bool → ℕ → ℕ → Type 0
Rises must e e' = (e ≤ e') × (e' ≤ e + 1) × (must ≡ true → e' ≡ e + 1)

bumped :
    (n node : Text) (l : Links)
    → n ≡ node
    → epoch_of node l + 1 < 2 ^ 64
    → epoch_of node (bump_links n l) ≡ epoch_of node l + 1
unfolding bump_links succ_u64 epoch_of
bumped n node l p h =
    let same : epoch_of n l ≡ epoch_of node l = ap (λ k. epoch_of k l) p in
    let at : epoch_of n (bump_links n l) ≡ (epoch_of n l + 1) % 2 ^ 64 =
      ap or_zero (get_same n (succ_u64 (epoch_of n l)) l.epochs) in
    let other : epoch_of n (bump_links n l) ≡ epoch_of node (bump_links n l) =
      ap (λ k. epoch_of k (bump_links n l)) p in
    omega (arith, same, at, other, h)

bump-Rises :
    (n node : Text) (must : Bool) (l : Links)
    → (must ≡ true → n == node ≡ true)
    → epoch_of node l + 1 < 2 ^ 64
    → Rises must (epoch_of node l) (epoch_of node (bump_links n l))
unfolding bump_links succ_u64 epoch_of Rises
bump-Rises n node must l only h = elim (Bool-cases (n == node)) [
  | inl t ↦
      let at : epoch_of node (bump_links n l) ≡ epoch_of node l + 1 =
        bumped n node l ((text_eq.decides n node).0 t) h in
      (omega arith, omega arith, λ _. at)
  | inr f ↦
      let at : epoch_of node (bump_links n l) ≡ epoch_of node l =
        ap or_zero (get_other n node (succ_u64 (epoch_of n l)) l.epochs f) in
      (omega arith, omega arith, λ m. cc (only m, f))
]

same-Rises : (must : Bool) (e : ℕ) → must ≡ false → Rises must e e
unfolding Rises
same-Rises must e no_must = (omega arith, omega arith, λ m. cc (m, no_must))

step-Rises :
    (node : Text) (m : Msg) (b : Bool) (l : Links)
    → epoch_of node l + 1 < 2 ^ 64
    → Rises (invalidates node m b l) (epoch_of node l) (epoch_of node (step m b l))
unfolding step invalidates admit_links drop_links retire_links drain_links epoch_of bump_links
step-Rises node (Msg.admit_node a) b l h =
    either
      (λ x. Rises (invalidates node (Msg.admit_node a) b l) (epoch_of node l) (epoch_of node x))
      (is_stale_gen a.gen l.admit_gen) l (admit_links a l) (λ stale. same-Rises _ _ (rw stale refl))
      (λ current. bump-Rises a.node node _ l (λ m. sym (rw current refl) ∙ m) h)
step-Rises node (Msg.retire n) b l h = bump-Rises n node _ l (λ m. m) h
step-Rises node (Msg.bump_epoch n) b l h = bump-Rises n node _ l (λ m. m) h
step-Rises node (Msg.remove_instance_if n worker model) b l h =
    either (λ x. Rises (b && n == node) (epoch_of node l) (epoch_of node x)) b (bump_links n l) l
      (λ taken. bump-Rises n node _ l (λ m. sym (rw taken refl) ∙ m) h)
      (λ kept. same-Rises _ _ (rw kept refl))
step-Rises node (Msg.drop_transport_if n transport) b l h =
    either (λ x. Rises false (epoch_of node l) (epoch_of node x))
      (is_transport transport (get n l.nodes)) (drop_links n l) l (λ _. same-Rises false _ refl)
      (λ _. same-Rises false _ refl)
step-Rises node _ b l h = same-Rises false _ refl

handle-Rises :
    (node : Text) (m : Msg) (f : Fleet)
    → epoch node f + 1 < 2 ^ 64
    → Rises
        (invalidates node m (takes_route m f) (links f))
        (epoch node f)
        (epoch node (handle m f).0)
unfolding epoch epoch_of links
handle-Rises node m f h =
    subst
      (λ (l : Links).
        Rises (invalidates node m (takes_route m f) (links f)) (epoch node f) (epoch_of node l))
      (sym (handle-step m f)) (step-Rises node m (takes_route m f) (links f) h)

run-Rises :
    (node : Text) (msgs : List Msg) (f : Fleet)
    → epoch node f + length msgs < 2 ^ 64
    → (epoch node f ≤ epoch node (run msgs f))
      × (epoch node (run msgs f) ≤ epoch node f + length msgs)
unfolding run Rises
run-Rises node [] f h = (omega arith, omega arith)
run-Rises node (m ∷ msgs) f h =
    let (up, by_one, _) = handle-Rises node m f (omega (arith, h)) in
    let (up', by) = run-Rises node msgs (handle m f).0 (omega (arith, h, by_one)) in
    (omega arith, omega arith)

-- A pull of a node's inventory that was under way when a message made it outdated is refused and changes
-- nothing, whatever messages came before that message and after it: the pull carries the epoch of its
-- start. The epoch does not get to wrap around.
pub commit_inventory-Refused :
    (node : Text) (f : Fleet) (before : List Msg) (m : Msg) (after : List Msg)
    (inventory : NodeInventory) (at : PulledAt)
    → (let g = run before f in invalidates node m (takes_route m g) (links g)) ≡ true
    → epoch node f + length before + 1 + length after < 2 ^ 64
    → (let g = run after (handle m (run before f)).0 in
        commit_inventory node (epoch node f) inventory at g ≡ (g, false))
unfolding commit_inventory Rises
commit_inventory-Refused node f before m after inventory at must h =
    let (up, by) = run-Rises node before f (omega (arith, h)) in
    let (_, _, rises) = handle-Rises node m (run before f) (omega (arith, h, by)) in
    let risen = rises must in
    let (up', _) = run-Rises node after (handle m (run before f)).0 (omega (arith, h, by, risen)) in
    ground (arith, up, risen, up')
