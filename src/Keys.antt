-- ===== src/Keys.antt =====
-- src/keys.rs: the API keys of the HTTP surface. SHA-256 is a parameter, `sha256`, from a token to
-- the bytes of its digest; the clock is an argument. Constant-time comparison is plain equality.
pub mod Authorize
pub mod Store
pub mod Distinct
mod Examples
use higgs.Base.Text.{Text, codes, text_eq, to_ascii_lowercase, trim, hex_digit}
use higgs.Base.{
  string_eq, nat_eq, ◌==◌, any, retain, length, is_some, if◌then◌else◌, ltb, ◌++◌, ◌∷◌, [], List,
  some, none, Option, ◌||◌, ◌&&◌, not, false, true, Bool, String, ◌%◌, ◌/◌, ◌-◌, ℕ,
}

pub data Scope : Type 0 where
  chat models admin : Scope

-- `==` of the derived PartialEq
unfoldable pub same_scope : Scope → Scope → Bool
same_scope chat chat = true
same_scope models models = true
same_scope admin admin = true
same_scope _ _ = false

scope_named : Text → Option Scope
scope_named name =
    if name == codes "chat"
    then some chat
    else if name == codes "models"
    then some models
    else if name == codes "admin"
    then some admin
    else none

-- Scope::parse
unfoldable pub parse : Text → Option Scope
unfolding scope_named
parse s = scope_named (to_ascii_lowercase (trim s))

pub record ApiKey : Type 0 where
  pub sha256 : Text
  pub label : String
  pub scopes : List Scope
  pub created_at_ms : Option ℕ
  pub last_used_ms : Option ℕ
  pub hidden : Bool

-- ApiKey::grants
unfoldable pub grants : ApiKey → Scope → Bool
unfolding any same_scope
grants key required = any (λ s. same_scope s admin || same_scope s required) key.scopes

unfoldable pub bytes_to_hex : List ℕ → Text
bytes_to_hex [] = []
bytes_to_hex (b ∷ bytes) = hex_digit (b / 16) ∷ hex_digit (b % 16) ∷ bytes_to_hex bytes

-- The keystore is its list of keys.
abbrev pub ApiKeys : Type 0
ApiKeys = List ApiKey

-- What `save` writes.
unfoldable pub persistable : ApiKeys → ApiKeys
persistable keys = retain (λ k. not k.hidden) keys

-- ApiKeys::visible
unfoldable pub visible : ApiKeys → ApiKeys
visible keys = retain (λ k. not k.hidden) keys

-- ApiKeys::remove_label: the new keys, and how many were removed
unfoldable pub remove_label : String → ApiKeys → ApiKeys × ℕ
remove_label label keys =
    let kept = retain (λ k. k.hidden || not (k.label == label)) keys in
    (kept, length keys - length kept)

-- The guard `k.last_used_ms.is_none_or(|t| now_ms > t)` of `touch`.
unfoldable pub advances : Option ℕ → ℕ → Bool
advances none now_ms = true
advances (some t) now_ms = ltb t now_ms

-- ApiKeys::touch: the first key of that digest is the only one looked at
unfoldable pub touch : Text → ℕ → ApiKeys → ApiKeys × Bool
unfolding advances
touch digest now_ms [] = ([], false)
touch digest now_ms (k ∷ keys) =
    let (keys', done) = touch digest now_ms keys in
    if k.sha256 == digest
    then (if advances k.last_used_ms now_ms
        then (record k { last_used_ms = some now_ms } ∷ keys, true)
        else (k ∷ keys, false))
    else (k ∷ keys', done)

abbrev pub is_empty : Text → Bool
is_empty [] = true
is_empty (_ ∷ _) = false

-- The loop of `authorizing_sha`, over the rest of the keys, with `found`.
unfoldable pub scan : Text → Scope → Option Text → ApiKeys → Option Text
scan presented required found [] = found
scan presented required found (k ∷ keys) =
    let matches = length k.sha256 == length presented && k.sha256 == presented in
    scan presented required
      (if matches && grants k required && not (is_some found) then some k.sha256 else found) keys

no_keys : ApiKeys → Bool
no_keys [] = true
no_keys (_ ∷ _) = false

module _ (sha256 : Text → List ℕ) where
  unfoldable pub hash_token : Text → Text
  hash_token token = bytes_to_hex (sha256 token)

  abbrev pub user_key : Text → String → List Scope → ℕ → ApiKey
  user_key token label scopes now = record {
    sha256 = hash_token token;
    label = label;
    scopes = scopes;
    created_at_ms = some now;
    last_used_ms = none;
    hidden = false;
  }

  -- ApiKeys::add
  unfoldable pub add : Text → String → List Scope → ℕ → ApiKeys → ApiKeys
  add token label scopes now keys =
      retain (λ k. not (k.sha256 == hash_token token)) keys ++ user_key token label scopes now ∷ []

  abbrev pub internal_key : Text → String → List Scope → ℕ → ApiKey
  internal_key token label scopes now = record {
    sha256 = hash_token token;
    label = label;
    scopes = scopes;
    created_at_ms = some now;
    last_used_ms = none;
    hidden = true;
  }

  -- ApiKeys::add_internal
  unfoldable pub add_internal : Text → String → List Scope → ℕ → ApiKeys → ApiKeys
  add_internal token label scopes now keys =
      if is_empty (trim token)
      then keys
      else retain (λ k. not (k.sha256 == hash_token token) && not (k.hidden && k.label == label))
          keys
        ++ internal_key token label scopes now ∷ []

  -- ApiKeys::authorizing_sha
  unfoldable pub authorizing_sha : Text → Scope → ApiKeys → Option Text
  unfolding scan
  authorizing_sha token required keys = scan (hash_token token) required none keys

  -- ApiKeys::authorizes
  unfoldable pub authorizes : Text → Scope → ApiKeys → Bool
  unfolding no_keys
  authorizes token required keys = no_keys keys || is_some (authorizing_sha token required keys)
