-- ===== src/Keys/Store.antt =====
-- What the operations of src/keys.rs do to the stored keys.
use higgs.Base.Text.{Text, text_eq}
use higgs.Base.{
  any, Bool, retain-retain, retain-same, string_eq, nat_eq, ◌==◌, length-retain-le, retain, length,
  if◌then◌else◌, arith, map, ◌∷◌, [], some, none, Option, ◌||◌, not, false, true, refl, ◌≡◌, String,
  ◌≤◌, ◌+◌, ℕ,
}
use higgs.Keys.{grants, Scope, touch, remove_label, visible, ApiKeys, ApiKey}
use higgs.Keys.Authorize.{granted}

module _ (label : String) where
  abbrev unlabelled : ApiKey → Bool
  unlabelled k = not (k.label == label)

  abbrev spared : ApiKey → Bool
  spared k = k.hidden || unlabelled k

  visible-spared :
      (keys : ApiKeys) → visible (retain spared keys) ≡ retain unlabelled (visible keys)
  unfolding visible
  visible-spared keys =
      rw
        (
          retain-retain (λ k. not k.hidden) spared keys,
          retain-retain unlabelled (λ k. not k.hidden) keys,
        )
        (retain-same _ _ keys (λ k. ground arith))

  hidden_spared :
      (keys : ApiKeys) → retain (λ k. k.hidden) (retain spared keys) ≡ retain (λ k. k.hidden) keys
  hidden_spared keys =
      rw (retain-retain (λ k. k.hidden) spared keys) (retain-same _ _ keys (λ k. ground arith))

-- Removing a label drops exactly the visible keys that carry it, keeps every hidden key and the
-- order, and the count that is returned is the number of keys dropped.
remove_label_exact :
    (label : String) (keys : ApiKeys)
    → (visible (remove_label label keys).0 ≡ retain (λ k. not (k.label == label)) (visible keys))
      × (retain (λ k. k.hidden) (remove_label label keys).0 ≡ retain (λ k. k.hidden) keys)
      × (length (remove_label label keys).0 + (remove_label label keys).1 ≡ length keys)
unfolding remove_label
remove_label_exact label keys = (
  visible-spared label keys,
  hidden_spared label keys,
  omega (arith, length-retain-le (λ k. k.hidden || not (k.label == label)) keys),
)

-- Everything of a key but its last use.
abbrev pub unstamped : ApiKey → ApiKey
unstamped k = record k { last_used_ms = none }

-- The last use of the key that a digest finds.
unfoldable pub stamp : Text → ApiKeys → Option ℕ
stamp digest [] = none
stamp digest (k ∷ keys) = if k.sha256 == digest then k.last_used_ms else stamp digest keys

abbrev pub NotLater : Option ℕ → Option ℕ → Type 0
NotLater none t = Unit
NotLater (some s) none = ⊥
NotLater (some s) (some t) = s ≤ t

touch_identity :
    (d : Text) (now : ℕ) (keys : ApiKeys) → map unstamped (touch d now keys).0 ≡ map unstamped keys
unfolding touch
touch_identity d now [] = refl
touch_identity d now (k ∷ keys) = ground (arith, touch_identity d now keys)

touch_refused :
    (d : Text) (now : ℕ) (keys : ApiKeys)
    → (touch d now keys).1 ≡ false
    → (touch d now keys).0 ≡ keys
unfolding touch
touch_refused d now [] h = refl
touch_refused d now (k ∷ keys) h = ground (arith, touch_refused d now keys)

touch_advances :
    (d : Text) (now : ℕ) (keys : ApiKeys)
    → (touch d now keys).1 ≡ true
    → stamp d (touch d now keys).0 ≡ some now
unfolding touch stamp
touch_advances d now [] h = cc
touch_advances d now (k ∷ keys) h = ground (arith, touch_advances d now keys)

NotLater-refl : (o : Option ℕ) → NotLater o o
NotLater-refl none = tt
NotLater-refl (some t) = omega arith

touch_monotonic :
    (d j : Text) (now : ℕ) (keys : ApiKeys) → NotLater (stamp j keys) (stamp j (touch d now keys).0)
unfolding touch stamp
touch_monotonic d j now [] = tt
touch_monotonic d j now (k ∷ keys) = ground (
  arith,
  touch_monotonic d j now keys,
  NotLater-refl k.last_used_ms,
  NotLater-refl (stamp j keys),
)

granted-touch :
    (d j : Text) (now : ℕ) (r : Scope) (keys : ApiKeys)
    → granted j r (touch d now keys).0 ≡ granted j r keys
unfolding touch granted grants any
granted-touch d j now r [] = refl
granted-touch d j now r (k ∷ keys) = ground (arith, granted-touch d j now r keys)

-- Recording a use changes nothing but last-use stamps and so changes nobody's access; a stamp never
-- moves back; an accepted use leaves exactly the time given on the key that its digest finds, and a
-- refused one leaves the store as it was.
touch_exact :
    (d : Text) (now : ℕ) (keys : ApiKeys)
    → (map unstamped (touch d now keys).0 ≡ map unstamped keys)
      × ((j : Text) (r : Scope) → granted j r (touch d now keys).0 ≡ granted j r keys)
      × ((j : Text) → NotLater (stamp j keys) (stamp j (touch d now keys).0))
      × ((touch d now keys).1 ≡ true → stamp d (touch d now keys).0 ≡ some now)
      × ((touch d now keys).1 ≡ false → (touch d now keys).0 ≡ keys)
touch_exact d now keys = (
  touch_identity d now keys,
  (λ j r. granted-touch d j now r keys),
  (λ j. touch_monotonic d j now keys),
  touch_advances d now keys,
  touch_refused d now keys,
)
