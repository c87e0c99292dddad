-- ===== src/Auth/Paired.antt =====
-- The allowlist of src/auth.rs and its file.
use higgs.Base.Assoc.{get-insert, get-remove}
use higgs.Base.{
  string_eq, nat_eq, ◌==◌, if◌then◌else◌, arith, ◌∷◌, [], List, Option, ◌&&◌, false, true, ◌≢◌,
  refl, ◌≡◌, String,
}
use higgs.Auth.{
  relabel, ok, revoke, add, mutate, label, contains, failed, persisted, Saved, Allowlist,
  PairingsFile,
}

pub data Op : Type 0 where
  adds relabels : String → Option String → Saved → Op
  revokes : String → Saved → Op

unfoldable pub step : Allowlist → Op → Allowlist
step list (adds id name saved) = (add id name saved list).1
step list (relabels id name saved) = (relabel id name saved list).1
step list (revokes id saved) = (revoke id saved list).1

unfoldable pub run : Allowlist → List Op → Allowlist
unfolding step
run list [] = list
run list (op ∷ ops) = run (step list op) ops

-- The memory is what the file holds.
abbrev pub Agrees : Allowlist → Type 0
Agrees list = list.nodes ≡ list.disk

mutate-Agrees :
    (f : PairingsFile → PairingsFile) (saved : Saved) (list : Allowlist)
    → Agrees list
    → Agrees (mutate f saved list).1
unfolding mutate
mutate-Agrees f persisted list h = refl
mutate-Agrees f failed list h = h

step-Agrees : (list : Allowlist) (op : Op) → Agrees list → Agrees (step list op)
unfolding step add relabel revoke mutate
step-Agrees list (adds id name persisted) h = refl
step-Agrees list (adds id name failed) h = h
step-Agrees list (revokes id persisted) h = refl
step-Agrees list (revokes id failed) h = h
step-Agrees list (relabels id name persisted) h = ground arith
step-Agrees list (relabels id name failed) h = ground arith

-- Whatever is added, relabelled and revoked, and whichever of the saves fail, the ids that the hub
-- admits are those of the file: a list that agrees with its file goes on doing so.
pub run-Agrees : (list : Allowlist) (ops : List Op) → Agrees list → Agrees (run list ops)
unfolding run
run-Agrees list [] h = h
run-Agrees list (op ∷ ops) h = run-Agrees (step list op) ops (step-Agrees list op h)

-- Pairing admits the id, and revoking bars it, exactly if the save succeeds; no other id is touched
-- by either, and a failed save changes nothing at all.
contains-add-revoke :
    (id j : String) (name : Option String) (saved : Saved) (list : Allowlist)
    → (contains j (add id name saved list).1
        ≡ (if id == j && (add id name saved list).0 then true else contains j list))
      × (contains j (revoke id saved list).1
          ≡ (if id == j && (revoke id saved list).0 then false else contains j list))
      × ((add id name saved list).0 ≡ false → (add id name saved list).1 ≡ list)
      × ((revoke id saved list).0 ≡ false → (revoke id saved list).1 ≡ list)
unfolding contains add revoke mutate
contains-add-revoke id j name persisted list =
    ground (arith, get-insert id j name list.nodes, get-remove id j list.nodes)
contains-add-revoke id j name failed list = ground arith

-- A relabel pairs nobody and bars nobody, whatever the save does; it sets the label of a paired id
-- when it answers `ok true`, and otherwise every label stays.
relabel_pairs_nobody :
    (id j : String) (name : Option String) (saved : Saved) (list : Allowlist)
    → (contains j (relabel id name saved list).1 ≡ contains j list)
      × ((relabel id name saved list).0 ≡ ok true
          → label j (relabel id name saved list).1 ≡ (if id == j then name else label j list))
      × ((relabel id name saved list).0 ≢ ok true → (relabel id name saved list).1 ≡ list)
unfolding contains relabel label mutate
relabel_pairs_nobody id j name persisted list =
    ground (arith, get-insert id j name list.nodes, string_eq.decides id j)
relabel_pairs_nobody id j name failed list = ground arith
