-- ===== src/Fleet/Links.antt =====
-- What the connections of src/node/fleet.rs are about: the transports, the origins of their uptime, the
-- epochs, the admission generation and the ids of the nodes.
use higgs.Base.Text.{Text, text_eq}
use higgs.Fleet.{NodeIds, Fleet, FleetEventKind, Effect, place_eq}
use higgs.Fleet.Actions.{act}
use higgs.Fleet.Handle.{emit_if}
use higgs.Base.{if◌then◌else◌, List, false, true, Bool, ℕ, ◌≡◌, ◌∙◌, refl}

-- The part of the state that the connections are about.
pub record Links : Type 0 where
  pub nodes : List (Text × ℕ)
  pub connected_at : List (Text × ℕ)
  pub epochs : List (Text × ℕ)
  pub admit_gen : ℕ
  pub node_ids : NodeIds

unfoldable pub links : Fleet → Links
links f = record {
  nodes = f.nodes;
  connected_at = f.connected_at;
  epochs = f.epochs;
  admit_gen = f.admit_gen;
  node_ids = f.node_ids;
}

pub record Untouched (f g : Fleet) : Type 0 where
  pub same : links g ≡ links f

pub same-Untouched : (f : Fleet) → Untouched f f
same-Untouched f = record { same = refl }

pub then-Untouched : {f g h : Fleet} → Untouched f g → Untouched g h → Untouched f h
then-Untouched a b = record { same = b.same ∙ a.same }

pub either-Untouched :
    (b : Bool) (f g h : Fleet) → Untouched f g → Untouched f h → Untouched f (if b then g else h)
either-Untouched true f g h l r = l
either-Untouched false f g h l r = r

pub first-Untouched {ℓ} :
    {R : Type ℓ} (b : Bool) (f : Fleet) (x y : Fleet × R)
    → Untouched f x.0
    → Untouched f y.0
    → Untouched f (if b then x else y).0
first-Untouched true f x y l r = l
first-Untouched false f x y l r = r

pub act-Untouched : (e : Effect) (f : Fleet) → Untouched f (act e f)
unfolding act links
act-Untouched e f = record { same = refl }

pub emit_if-Untouched :
    (b : Bool) (node : Text) (kind : FleetEventKind) (f : Fleet)
    → Untouched f (emit_if b node kind f)
unfolding emit_if links
emit_if-Untouched b node kind f =
    either-Untouched b f (act (Effect.emit node kind) f) f (act-Untouched (Effect.emit node kind) f)
      (same-Untouched f)
