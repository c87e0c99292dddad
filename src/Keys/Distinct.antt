-- ===== src/Keys/Distinct.antt =====
-- The digests of the keystore of src/keys.rs.
use higgs.Base.Text.{Text, text_eq, text_beq_iff, trim}
use higgs.Base.{
  retain-append, ◌∙◌, retain-retain, retain-same, string_eq, nat_eq, ◌==◌, All, retain, Bool-cases,
  arith, ◌++◌, ◌∷◌, [], List, ◌&&◌, not, false, true, Bool, inr, inl, ◌≡◌, String, ℕ, All-retain_by,
  All-append, All-retain,
}
use higgs.Keys.{
  user_key, add_internal, internal_key, add, hash_token, is_empty, touch, remove_label, persistable,
  ApiKeys, ApiKey, Scope,
}
use mathlib.Core.List.{append-nil}

-- No two keys of the store have one digest.
abbrev pub IsDistinct : ApiKeys → Type 0
IsDistinct [] = Unit
IsDistinct (k ∷ keys) = All (λ j. (j.sha256 == k.sha256) ≡ false) keys × IsDistinct keys

retain-IsDistinct : (p : ApiKey → Bool) (xs : ApiKeys) → IsDistinct xs → IsDistinct (retain p xs)
unfolding retain
retain-IsDistinct p [] h = tt
retain-IsDistinct p (x ∷ xs) h = elim (Bool-cases (p x)) [
  | inl e ↦
      rw e (All-retain (λ j. (j.sha256 == x.sha256) ≡ false) p xs h.0, retain-IsDistinct p xs h.1)
  | inr e ↦ rw e (retain-IsDistinct p xs h.1)
]

append_one-IsDistinct :
    (k : ApiKey) (xs : ApiKeys)
    → All (λ j. (j.sha256 == k.sha256) ≡ false) xs
    → IsDistinct xs
    → IsDistinct (xs ++ k ∷ [])
append_one-IsDistinct k [] h d = (tt, tt)
append_one-IsDistinct k (x ∷ xs) h d = (
  All-append (λ j. (j.sha256 == x.sha256) ≡ false) xs (k ∷ []) d.0
      (ground (arith, h.0, text_beq_iff x.sha256 k.sha256, text_beq_iff k.sha256 x.sha256), tt),
  append_one-IsDistinct k xs h.1 d.1,
)

touch-All :
    (d j : Text) (now : ℕ) (keys : ApiKeys)
    → All (λ k. (k.sha256 == j) ≡ false) keys
    → All (λ k. (k.sha256 == j) ≡ false) (touch d now keys).0
unfolding touch
touch-All d j now [] h = tt
touch-All d j now (k ∷ keys) h = ground (arith, touch-All d j now keys h.1)

touch-IsDistinct :
    (d : Text) (now : ℕ) (keys : ApiKeys) → IsDistinct keys → IsDistinct (touch d now keys).0
unfolding touch
touch-IsDistinct d now [] h = tt
touch-IsDistinct d now (k ∷ keys) h =
    ground (arith, touch-All d k.sha256 now keys h.0, touch-IsDistinct d now keys h.1)

not-true : (b : Bool) → not b ≡ true → b ≡ false
not-true b h = ground arith

module _ (sha256 : Text → List ℕ) where
  add-IsDistinct :
      (token : Text) (label : String) (scopes : List Scope) (now : ℕ) (keys : ApiKeys)
      → IsDistinct keys
      → IsDistinct (add sha256 token label scopes now keys)
  unfolding add
  add-IsDistinct token label scopes now keys h =
      let p : ApiKey → Bool = λ k. not (k.sha256 == hash_token sha256 token) in
      append_one-IsDistinct (user_key sha256 token label scopes now) (retain p keys)
        (All-retain_by _ p keys (λ k e. not-true (k.sha256 == hash_token sha256 token) e))
        (retain-IsDistinct p keys h)

  add_internal-IsDistinct :
      (token : Text) (label : String) (scopes : List Scope) (now : ℕ) (keys : ApiKeys)
      → IsDistinct keys
      → IsDistinct (add_internal sha256 token label scopes now keys)
  unfolding add_internal
  add_internal-IsDistinct token label scopes now keys h =
      elim (Bool-cases (is_empty (trim token))) [
        | inl e ↦ rw e h
        | inr e ↦ rw e (
            let p : ApiKey → Bool = λ k.
              not (k.sha256 == hash_token sha256 token) && not (k.hidden && k.label == label) in
            append_one-IsDistinct (internal_key sha256 token label scopes now) (retain p keys)
              (All-retain_by _ p keys (λ k f. ground arith)) (retain-IsDistinct p keys h))
      ]

  -- The operations of the keystore that change it.
  pub data Op : Type 0 where
    adds adds_internal : Text → String → List Scope → ℕ → Op
    removes : String → Op
    touches : Text → ℕ → Op

  pub apply : Op → ApiKeys → ApiKeys
  apply (adds token label scopes now) keys = add sha256 token label scopes now keys
  apply (adds_internal token label scopes now) keys =
      add_internal sha256 token label scopes now keys
  apply (removes label) keys = (remove_label label keys).0
  apply (touches digest now) keys = (touch digest now keys).0

  pub run : List Op → ApiKeys → ApiKeys
  unfolding apply
  run [] keys = keys
  run (op ∷ ops) keys = run ops (apply op keys)

  apply-IsDistinct : (op : Op) (keys : ApiKeys) → IsDistinct keys → IsDistinct (apply op keys)
  unfolding apply
  apply-IsDistinct (adds token label scopes now) keys h =
      add-IsDistinct token label scopes now keys h
  apply-IsDistinct (adds_internal token label scopes now) keys h =
      add_internal-IsDistinct token label scopes now keys h
  apply-IsDistinct (removes label) keys h = unfold remove_label in retain-IsDistinct _ keys h
  apply-IsDistinct (touches digest now) keys h = touch-IsDistinct digest now keys h

  -- From a store whose digests are distinct, any sequence of the operations leads to one.
  run-IsDistinct : (ops : List Op) (keys : ApiKeys) → IsDistinct keys → IsDistinct (run ops keys)
  unfolding run
  run-IsDistinct [] keys h = h
  run-IsDistinct (op ∷ ops) keys h = run-IsDistinct ops (apply op keys) (apply-IsDistinct op keys h)

  -- Registering an internal token writes nothing new to disk: what is persisted afterwards is what
  -- was persisted before, less a user's key of the same digest.
  persistable-add_internal :
      (token : Text) (label : String) (scopes : List Scope) (now : ℕ) (keys : ApiKeys)
      → is_empty (trim token) ≡ false
      → persistable (add_internal sha256 token label scopes now keys)
        ≡ retain (λ k. not (k.sha256 == hash_token sha256 token)) (persistable keys)
  unfolding add_internal persistable retain
  persistable-add_internal token label scopes now keys h =
      let hid : ApiKey → Bool = λ k. not k.hidden in
      let q : ApiKey → Bool = λ k. not (k.sha256 == hash_token sha256 token) in
      let p : ApiKey → Bool = λ k. q k && not (k.hidden && k.label == label) in
      let k = internal_key sha256 token label scopes now in
      rw
        (
          h,
          retain-append hid (retain p keys) (k ∷ []),
          retain-retain hid p keys,
          retain-retain q hid keys,
        )
        (append-nil _ ∙ retain-same _ _ keys (λ j. ground arith))
