-- ===== src/Fleet/Switch.antt =====
-- The kill switch of src/node/fleet.rs: which connections there are after DisconnectAll.
use higgs.Base.Assoc.{get, got_insert, got_remove}
use higgs.Base.Text.{Text, text_eq}
use higgs.Fleet.{Fleet}
use higgs.Fleet.Actions.{succ_u64, is_transport}
use higgs.Fleet.Handle.{Msg, Admission, handle, is_stale_gen, run}
use higgs.Fleet.Links.{Links, links}
use higgs.Fleet.Steps.{
  step, admit_links, bump_links, drop_links, retire_links, drain_links, either, handle-step,
  takes_route,
}
use higgs.Base.{
  List, [], ◌∷◌, some, none, Option, false, true, Bool, ℕ, ◌≡◌, ◌∙◌, refl, ap, sym, ◌&&◌, ◌==◌,
  nat_eq, ltb, any, length, ◌<◌, ◌≤◌, ◌+◌, ◌^◌, arith, ◌⊎◌, inl, inr,
}

-- Whether an admission is of a generation after `g`, or of none.
unfoldable pub is_newer_gen : ℕ → Option ℕ → Bool
is_newer_gen g none = true
is_newer_gen g (some k) = ltb g k

-- Whether the message admits the node with the transport, under a generation after `g`.
unfoldable pub admits : ℕ → Text → ℕ → Msg → Bool
unfolding is_newer_gen
admits g node t (Msg.admit_node a) = a.node == node && (a.transport == t && is_newer_gen g a.gen)
admits g node t _ = false

current_newer :
    (g : ℕ) (gen : Option ℕ) (admit_gen : ℕ)
    → g < admit_gen
    → is_stale_gen gen admit_gen ≡ false
    → is_newer_gen g gen ≡ true
unfolding is_newer_gen is_stale_gen
current_newer g none admit_gen lt h = refl
current_newer g (some k) admit_gen lt h = ground arith

step-gen :
    (m : Msg) (b : Bool) (l : Links)
    → l.admit_gen + 1 < 2 ^ 64
    → (l.admit_gen ≤ (step m b l).admit_gen) × ((step m b l).admit_gen ≤ l.admit_gen + 1)
unfolding step admit_links bump_links drop_links retire_links drain_links succ_u64
step-gen (Msg.admit_node a) b l h =
    either (λ x. (l.admit_gen ≤ x.admit_gen) × (x.admit_gen ≤ l.admit_gen + 1)) _ l
      (admit_links a l) (λ _. (omega arith, omega arith)) (λ _. (omega arith, omega arith))
step-gen (Msg.drop_transport_if node transport) b l h =
    either (λ x. (l.admit_gen ≤ x.admit_gen) × (x.admit_gen ≤ l.admit_gen + 1)) _
      (drop_links node l) l (λ _. (omega arith, omega arith)) (λ _. (omega arith, omega arith))
step-gen (Msg.remove_instance_if node worker model) b l h =
    either (λ x. (l.admit_gen ≤ x.admit_gen) × (x.admit_gen ≤ l.admit_gen + 1)) b
      (bump_links node l) l (λ _. (omega arith, omega arith)) (λ _. (omega arith, omega arith))
step-gen _ b l h = (omega arith, omega arith)

admitted-node :
    (g : ℕ) (a : Admission) (l : Links) (node : Text) {t : ℕ}
    → g < l.admit_gen
    → is_stale_gen a.gen l.admit_gen ≡ false
    → get node (admit_links a l).nodes ≡ some t
    → (get node l.nodes ≡ some t) ⊎ (admits g node t (Msg.admit_node a) ≡ true)
unfolding admit_links bump_links admits
admitted-node g a l node {t} lt h e = elim (got_insert a.node node a.transport l.nodes e) [
  | inl (same, same_t) ↦ inr (
      rw
        (
          (text_eq.decides a.node node).1 same,
          (nat_eq.decides a.transport t).1 same_t,
          current_newer g a.gen l.admit_gen lt h,
        )
        refl)
  | inr (_, kept) ↦ inl kept
]

step-node :
    (g : ℕ) (m : Msg) (b : Bool) (l : Links) (node : Text) {t : ℕ}
    → g < l.admit_gen
    → get node (step m b l).nodes ≡ some t
    → (get node l.nodes ≡ some t) ⊎ (admits g node t m ≡ true)
unfolding step bump_links drop_links retire_links drain_links get admits
step-node g (Msg.admit_node a) b l node {t} lt e =
    either
      (λ x.
        get node x.nodes ≡ some t
        → (get node l.nodes ≡ some t) ⊎ (admits g node t (Msg.admit_node a) ≡ true))
      (is_stale_gen a.gen l.admit_gen) l (admit_links a l) (λ _ kept. inl kept)
      (λ h e'. admitted-node g a l node lt h e') e
step-node g (Msg.drop_transport_if n transport) b l node {t} lt e =
    either (λ x. get node x.nodes ≡ some t → (get node l.nodes ≡ some t) ⊎ (false ≡ true))
      (is_transport transport (get n l.nodes)) (drop_links n l) l
      (λ _ e'. inl (got_remove n node l.nodes e').1) (λ _ kept. inl kept) e
step-node g (Msg.remove_instance_if n worker model) b l node {t} lt e =
    either (λ x. get node x.nodes ≡ some t → (get node l.nodes ≡ some t) ⊎ (false ≡ true)) b
      (bump_links n l) l (λ _ kept. inl kept) (λ _ kept. inl kept) e
step-node g (Msg.retire n) b l node lt e = inl (got_remove n node l.nodes e).1
step-node g Msg.disconnect_all b l node lt e = cc e
step-node g _ b l node lt e = inl e

run-node :
    (g : ℕ) (msgs : List Msg) (f : Fleet) (node : Text) {t : ℕ}
    → g < f.admit_gen
    → f.admit_gen + length msgs < 2 ^ 64
    → get node (run msgs f).nodes ≡ some t
    → (get node f.nodes ≡ some t) ⊎ (any (admits g node t) msgs ≡ true)
unfolding run any links
run-node g [] f node lt h e = inl e
run-node g (m ∷ msgs) f node {t} lt h e =
    let same = handle-step m f in
    let (up, by_one) = step-gen m (takes_route m f) (links f) (omega (arith, h)) in
    let gen = ap (λ (l : Links). l.admit_gen) same in
    elim (run-node g msgs (handle m f).0 node (omega arith) (omega arith) e) [
      | inl before ↦
          elim (step-node g m (takes_route m f) (links f) node lt
            (sym (ap (λ (l : Links). get node l.nodes) same) ∙ before)) [
              | inl kept ↦ inl kept
              | inr now ↦ inr (rw now refl)
            ]
      | inr later ↦ inr (ground (arith, later))
    ]

-- After DisconnectAll, and whatever messages come then, a node is connected only by an admission among
-- those messages, with that transport, that carries no generation or one after the generation at the
-- switch; the generation does not get to wrap around.
pub disconnect_all-Refuses :
    (f : Fleet) (msgs : List Msg) (node : Text) {t : ℕ}
    → f.admit_gen + 1 + length msgs < 2 ^ 64
    → get node (run msgs (handle Msg.disconnect_all f).0).nodes ≡ some t
    → any (admits f.admit_gen node t) msgs ≡ true
unfolding step drain_links links succ_u64 get
disconnect_all-Refuses f msgs node {t} h e =
    let same = handle-step Msg.disconnect_all f in
    let gen = ap (λ (l : Links). l.admit_gen) same in
    elim (run-node f.admit_gen msgs (handle Msg.disconnect_all f).0 node (omega (arith, gen, h))
      (omega (arith, gen, h)) e) [
        | inl before ↦
            let gone = sym (ap (λ (l : Links). get node l.nodes) same) ∙ before in cc gone
        | inr admitted ↦ admitted
      ]
