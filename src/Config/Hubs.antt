-- ===== src/Config/Hubs.antt =====
-- The remembered hubs over the life of a configuration.
use higgs.Base.Text.{Text, text_beq, text_beq_iff}
use higgs.Config.{
  SavedHub, InstanceConfig, new, has_id, other_id, is_default, latest, most_recent, find_default,
  remember_hub, remove_hub, record_load, default_saved_hub,
}
use higgs.Base.{
  Bool-cases, ap, arith, if◌then◌else◌, leb, any, find, retain, length, ◌++◌, ◌∷◌, [], List, some,
  none, Option, not, false, true, Bool, inl, inr, sym, refl, ◌∙◌, ◌≡◌, ◌≤◌, ◌+◌, ℕ,
}

pub data Op (P : Type 0) : Type 0 where
  remember : SavedHub → Op P
  forget : Text → Op P
  loaded : Text → P → ℕ → Op P

-- The hubs and the default: the hubs have distinct ids, and the default is the id of one of them, or
-- there is neither.
data Chosen (hubs : List SavedHub) : Option Text → Type 0 where
  vacant : hubs ≡ [] → Chosen hubs none
  chosen : (id : Text) → any (has_id id) hubs ≡ true → Chosen hubs (some id)

module _ {A : Type 0} where
  any-last : (p : A → Bool) (xs : List A) (x : A) → p x ≡ true → any p (xs ++ x ∷ []) ≡ true
  unfolding any
  any-last p [] x h = ground (arith, h)
  any-last p (y ∷ ys) x h = ground (arith, any-last p ys x h)

  any-retain :
      (p q : A → Bool) (xs : List A)
      → ((x : A) → p x ≡ true → q x ≡ true)
      → any p xs ≡ true
      → any p (retain q xs) ≡ true
  unfolding any retain
  any-retain p q [] h e = e
  any-retain p q (x ∷ xs) h e = ground (arith, h x, any-retain p q xs h, e)

  length-retain-retain :
      (p q : A → Bool) (xs : List A) → length (retain p (retain q xs)) ≤ length (retain p xs)
  unfolding retain
  length-retain-retain p q [] = omega arith
  length-retain-retain p q (x ∷ xs) = ground (arith, length-retain-retain p q xs)

  length-retain-last :
      (p : A → Bool) (xs : List A) (x : A)
      → length (retain p (xs ++ x ∷ [])) ≡ length (retain p xs) + (if p x then 1 else 0)
  unfolding retain
  length-retain-last p [] x = ground arith
  length-retain-last p (y ∷ ys) x = ground (arith, length-retain-last p ys x)

  -- Of what a filter on the negation of `p` leaves, `p` holds of nothing.
  retain-not : (p : A → Bool) (xs : List A) → retain p (retain (λ x. not (p x)) xs) ≡ []
  unfolding retain
  retain-not p [] = refl
  retain-not p (x ∷ xs) = ground (arith, retain-not p xs)

  find-any :
      (p : A → Bool) (xs : List A) → any p xs ≡ true → (x : A) × (find p xs ≡ some x) × (p x ≡ true)
  unfolding any find
  find-any p [] e = cc e
  find-any p (x ∷ xs) e = elim (Bool-cases (p x)) [
    | inl t ↦ (x, rw t refl, t)
    | inr f ↦ let (y, m, h) = find-any p xs (ground (arith, e, f)) in (y, rw f m, h)
  ]

latest_among :
    (p : SavedHub → Bool) (b : SavedHub) (hs : List SavedHub)
    → p (latest b hs) ≡ true
    → any p (b ∷ hs) ≡ true
unfolding latest any
latest_among p b [] e = ground (arith, e)
latest_among p b (h ∷ hs) e = elim (Bool-cases (leb b.last_used_ms h.last_used_ms)) [
  | inl t ↦ ground (arith, latest_among p h hs, e, t)
  | inr f ↦ ground (arith, latest_among p b hs, e, f)
]

has_id_self : (h : SavedHub) → has_id h.hub_id h ≡ true
unfolding has_id
has_id_self h = (text_beq_iff h.hub_id h.hub_id).1 refl

same_id : (h : SavedHub) (id : Text) → has_id id h ≡ true → h.hub_id ≡ id
unfolding has_id
same_id h id = (text_beq_iff h.hub_id id).0

-- A hub of one id does not have another.
apart :
    (a b : Text) → text_beq a b ≡ false → (h : SavedHub) → has_id a h ≡ true → other_id b h ≡ true
unfolding has_id other_id
apart a b f h e = rw (same_id h a e, f) refl

most_recent-Chosen : (hubs : List SavedHub) → Chosen hubs (most_recent hubs)
unfolding most_recent
most_recent-Chosen [] = vacant refl
most_recent-Chosen (h ∷ hs) =
    chosen (latest h hs).hub_id
      (latest_among (has_id (latest h hs).hub_id) h hs (has_id_self (latest h hs)))

remove-Chosen :
    (id : Text) (hubs : List SavedHub) (d : Option Text)
    → Chosen hubs d
    → Chosen
        (retain (other_id id) hubs)
        (if is_default id d then most_recent (retain (other_id id) hubs) else d)
unfolding is_default retain
remove-Chosen id hubs none (vacant e) = vacant (ap (retain (other_id id)) e)
remove-Chosen id hubs (some _) (chosen d h) = elim (Bool-cases (text_beq d id)) [
  | inl t ↦ rw t (most_recent-Chosen (retain (other_id id) hubs))
  | inr f ↦ rw f (chosen d (any-retain (has_id d) (other_id id) hubs (apart d id f) h))
]

Single : List SavedHub → Type 0
Single hubs = (id : Text) → length (retain (has_id id) hubs) ≤ 1

cleared :
    (id a : Text) (hubs : List SavedHub)
    → a ≡ id
    → length (retain (has_id id) (retain (other_id a) hubs)) ≡ 0
unfolding other_id
cleared id a hubs e = rw (e, retain-not (has_id id) hubs) refl

remember-Single :
    (hub : SavedHub) (hubs : List SavedHub)
    → Single hubs
    → Single (retain (other_id hub.hub_id) hubs ++ hub ∷ [])
unfolding Single
remember-Single hub hubs s id =
    let kept = retain (other_id hub.hub_id) hubs in
    let grown = length-retain-last (has_id id) kept hub in
    let fewer = length-retain-retain (has_id id) (other_id hub.hub_id) hubs in
    elim (Bool-cases (has_id id hub)) [
      | inl t ↦ ground (arith, grown, t, cleared id hub.hub_id hubs (same_id hub id t))
      | inr f ↦ ground (arith, grown, f, fewer, s id)
    ]

module _ {P : Type 0} where
  unfoldable pub apply : Op P → InstanceConfig P → InstanceConfig P
  unfolding remember_hub remove_hub record_load
  apply (remember hub) c = remember_hub hub c
  apply (forget id) c = (remove_hub id c).1
  apply (loaded id params now_ms) c = record_load id params now_ms c

  unfoldable pub run : List (Op P) → InstanceConfig P → InstanceConfig P
  unfolding apply
  run [] c = c
  run (op ∷ ops) c = run ops (apply op c)

  -- What a bare `--node` finds.
  pub data Settled (c : InstanceConfig P) : Type 0 where
    unpaired : c.hubs ≡ [] → default_saved_hub c ≡ none → Settled c
    dials :
        (hub : SavedHub)
        → default_saved_hub c ≡ some hub
        → c.default_hub ≡ some hub.hub_id
        → Settled c

  Kept : InstanceConfig P → Type 0
  Kept c = Single c.hubs × Chosen c.hubs c.default_hub

  Kept-apply : (op : Op P) (c : InstanceConfig P) → Kept c → Kept (apply op c)
  unfolding Kept Single apply remember_hub remove_hub record_load
  Kept-apply (remember hub) c (s, d) = (
    remember-Single hub c.hubs s,
    chosen hub.hub_id (any-last (has_id hub.hub_id) _ hub (has_id_self hub)),
  )
  Kept-apply (forget id) c (s, d) = (
    λ i. ground (arith, s i, length-retain-retain (has_id i) (other_id id) c.hubs),
    remove-Chosen id c.hubs c.default_hub d,
  )
  Kept-apply (loaded id params now_ms) c k = k

  Kept-run : (ops : List (Op P)) (c : InstanceConfig P) → Kept c → Kept (run ops c)
  unfolding run
  Kept-run [] c k = k
  Kept-run (op ∷ ops) c k = Kept-run ops (apply op c) (Kept-apply op c k)

  found : (c : InstanceConfig P) (d : Option Text) → c.default_hub ≡ d → Chosen c.hubs d → Settled c
  unfolding default_saved_hub find_default
  found c none e (vacant v) = unpaired v (rw e refl)
  found c (some _) e (chosen id h) =
      let (hub, m, p) = find-any (has_id id) c.hubs h in
      dials hub (rw e m) (e ∙ ap some (sym (same_id hub id p)))

  -- After any remembered and forgotten hubs and recorded loads, from the empty configuration, each id is
  -- saved at most once, and the default hub is a saved one, found under its id, unless no hub is saved.
  pub run-Settled :
      (ops : List (Op P))
      → ((id : Text) → length (retain (has_id id) (run ops new).hubs) ≤ 1) × Settled (run ops new)
  unfolding Kept Single retain
  run-Settled ops =
      let (s, d) = Kept-run ops new (λ id. omega arith, vacant refl) in
      (s, found (run ops new) (run ops new).default_hub refl d)
