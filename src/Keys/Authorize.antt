-- ===== src/Keys/Authorize.antt =====
-- Who the keystore of src/keys.rs lets in.
use higgs.Base.Text.{trim, Text, text_eq, text_beq_iff}
use higgs.Base.{
  Bool-cases, not, inr, inl, retain, ◌++◌, ◌||◌, false, String, beq_refl, string_eq, nat_eq, ◌==◌,
  any, length, is_some, if◌then◌else◌, arith, ◌∷◌, [], List, some, none, Option, ◌&&◌, true, Bool,
  refl, ◌≡◌, ℕ,
}
use higgs.Keys.{
  add_internal, internal_key, is_empty, user_key, authorizing_sha, add, hash_token, ApiKey, grants,
  scan, ApiKeys, Scope,
}

-- Some key of that digest grants the scope.
unfoldable pub granted : Text → Scope → ApiKeys → Bool
granted digest required keys = any (λ k. k.sha256 == digest && grants k required) keys

same_length : (s t : Text) → (s == t) ≡ true → (length s == length t) ≡ true
same_length s t h = rw ((text_beq_iff s t).0 h) (beq_refl (length t))

scan-granted :
    (digest : Text) (required : Scope) (found : Option Text) (keys : ApiKeys)
    → scan digest required found keys ≡ (
        if is_some found then found else if granted digest required keys then some digest else none)
unfolding scan granted any
scan-granted digest required none [] = refl
scan-granted digest required (some d) [] = refl
scan-granted digest required none (k ∷ keys) = ground (
  arith,
  same_length k.sha256 digest,
  text_beq_iff k.sha256 digest,
  scan-granted digest required none keys,
  scan-granted digest required (some k.sha256) keys,
)
scan-granted digest required (some d) (k ∷ keys) =
    ground (arith, scan-granted digest required (some d) keys)

granted-append :
    (d : Text) (r : Scope) (xs ys : ApiKeys)
    → granted d r (xs ++ ys) ≡ granted d r xs || granted d r ys
unfolding granted any
granted-append d r [] ys = refl
granted-append d r (x ∷ xs) ys = ground (arith, granted-append d r xs ys)

-- A filter that keeps every key of the digest keeps what the digest grants.
granted-retain_kept :
    (d : Text) (r : Scope) (p : ApiKey → Bool) (xs : ApiKeys)
    → ((k : ApiKey) → (k.sha256 == d) ≡ true → p k ≡ true)
    → granted d r (retain p xs) ≡ granted d r xs
unfolding granted any retain
granted-retain_kept d r p [] h = refl
granted-retain_kept d r p (x ∷ xs) h = ground (arith, h x, granted-retain_kept d r p xs h)

granted-retain_dropped :
    (d : Text) (r : Scope) (p : ApiKey → Bool) (xs : ApiKeys)
    → ((k : ApiKey) → (k.sha256 == d) ≡ true → p k ≡ false)
    → granted d r (retain p xs) ≡ false
unfolding granted any retain
granted-retain_dropped d r p [] h = refl
granted-retain_dropped d r p (x ∷ xs) h = ground (arith, h x, granted-retain_dropped d r p xs h)

granted-retain_same :
    (d : Text) (r : Scope) (p q : ApiKey → Bool) (xs : ApiKeys)
    → ((k : ApiKey) → (k.sha256 == d) ≡ true → p k ≡ q k)
    → granted d r (retain p xs) ≡ granted d r (retain q xs)
unfolding granted any retain
granted-retain_same d r p q [] h = refl
granted-retain_same d r p q (x ∷ xs) h = ground (arith, h x, granted-retain_same d r p q xs h)

sha_other : (a d h : Text) → (h == d) ≡ false → (a == d) ≡ true → not (a == h) ≡ true
sha_other a d h e f = ground (arith, text_beq_iff a d, text_beq_iff a h, text_beq_iff h d)

sha_same : (a d h : Text) → (h == d) ≡ true → (a == d) ≡ true → not (a == h) ≡ false
sha_same a d h e f = ground (arith, text_beq_iff a d, text_beq_iff a h, text_beq_iff h d)

granted-one :
    (d : Text) (r : Scope) (k : ApiKey) → granted d r (k ∷ []) ≡ (k.sha256 == d && grants k r)
unfolding granted any
granted-one d r k = ground arith

module _ (sha256 : Text → List ℕ) where
  -- A token is authorized for a scope exactly if some key stored under its digest grants the scope,
  -- and then the answer is that digest; no earlier key of the store can hide a later one.
  pub authorizing_sha-granted :
      (token : Text) (required : Scope) (keys : ApiKeys)
      → authorizing_sha sha256 token required keys ≡ (
          if granted (hash_token sha256 token) required keys
          then some (hash_token sha256 token)
          else none)
  unfolding authorizing_sha
  authorizing_sha-granted token required keys =
      scan-granted (hash_token sha256 token) required none keys

  -- Adding a key decides exactly the tokens with its digest, by the new key's scopes alone, also
  -- where the digest was stored before; what any other digest is granted stays as it was.
  granted-add :
      (token : Text) (label : String) (scopes : List Scope) (now : ℕ) (keys : ApiKeys) (d : Text)
      (r : Scope)
      → granted d r (add sha256 token label scopes now keys) ≡ (
          if hash_token sha256 token == d
          then grants (user_key sha256 token label scopes now) r
          else granted d r keys)
  unfolding add
  granted-add token label scopes now keys d r =
      let p : ApiKey → Bool = λ k. not (k.sha256 == hash_token sha256 token) in
      let k = user_key sha256 token label scopes now in
      rw (granted-append d r (retain p keys) (k ∷ []), granted-one d r k)
        (elim (Bool-cases (hash_token sha256 token == d)) [
          | inl e ↦
              rw
                (
                  e,
                  granted-retain_dropped d r p keys
                      (λ a f. sha_same a.sha256 d (hash_token sha256 token) e f),
                )
                refl
          | inr e ↦
              rw
                (
                  e,
                  granted-retain_kept d r p keys
                      (λ a f. sha_other a.sha256 d (hash_token sha256 token) e f),
                )
                (ground arith)
        ])

  -- Registering an internal token that is not blank decides the tokens of its digest; every other
  -- digest keeps what it is granted by keys other than the hidden ones of that label, so a rotated
  -- internal token stops working and a user's key of the same label does not.
  granted-add_internal :
      (token : Text) (label : String) (scopes : List Scope) (now : ℕ) (keys : ApiKeys) (d : Text)
      (r : Scope)
      → is_empty (trim token) ≡ false
      → granted d r (add_internal sha256 token label scopes now keys) ≡ (
          if hash_token sha256 token == d
          then grants (internal_key sha256 token label scopes now) r
          else granted d r (retain (λ k. not (k.hidden && k.label == label)) keys))
  unfolding add_internal
  granted-add_internal token label scopes now keys d r h =
      let q : ApiKey → Bool = λ k. not (k.hidden && k.label == label) in
      let p : ApiKey → Bool = λ k. not (k.sha256 == hash_token sha256 token) && q k in
      let k = internal_key sha256 token label scopes now in
      rw (h, granted-append d r (retain p keys) (k ∷ []), granted-one d r k)
        (elim (Bool-cases (hash_token sha256 token == d)) [
          | inl e ↦
              rw
                (
                  e,
                  granted-retain_dropped d r p keys
                      (λ a f. rw (sha_same a.sha256 d (hash_token sha256 token) e f)),
                )
                refl
          | inr e ↦
              rw
                (
                  e,
                  granted-retain_same d r p q keys
                      (λ a f. rw (sha_other a.sha256 d (hash_token sha256 token) e f)),
                )
                (ground arith)
        ])
