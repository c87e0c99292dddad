-- ===== src/Config.antt =====
-- src/config.rs: the instance's configuration, with the hubs that a node has paired with. Texts are lists
-- of code points; the load parameters of a model are the parameter `P`. How the file is read and
-- written is not modelled.
use higgs.Base.Assoc.{get, insert}
use mathlib.Core.List.{reverse}
use higgs.Base.Text.{Text, text_eq, codes, text_beq, trim, starts_with}
pub mod Hubs
mod Examples
use higgs.Base.{
  string_eq, nat_eq, ◌==◌, if◌then◌else◌, leb, retain, find, length, ◌++◌, ◌∷◌, [], List, some,
  none, Option, not, false, true, Bool, ℕ,
}

pub record SavedHub : Type 0 where
  pub hub_id : Text
  pub ticket : Text
  pub label : Text
  pub last_used_ms : ℕ

pub record ModelRecord (P : Type 0) : Type 0 where
  pub load : Option P
  pub last_loaded_ms : ℕ

-- `release` is the field `release_url`.
pub record InstanceConfig (P : Type 0) : Type 0 where
  pub name : Text
  pub hubs : List SavedHub
  pub default_hub : Option Text
  pub models : List (Text × ModelRecord P)
  pub cors_origins : List Text
  pub release : Option Text

unfoldable default_release_url : Text
default_release_url = codes "https://github.com/AI-Experiri/higgs/releases"

-- str::trim_end_matches('/'), on the reversed text
unfoldable trim_slashes : Text → Text
trim_slashes [] = []
trim_slashes (c ∷ cs) = let rest = trim_slashes cs in if c == b'/' then rest else c ∷ cs

unfoldable url_of : Text → Text
unfolding default_release_url trim_slashes
url_of [] = default_release_url
url_of (c ∷ cs) = reverse (trim_slashes (reverse (c ∷ cs)))

-- h.hub_id == id
unfoldable pub has_id : Text → SavedHub → Bool
has_id id h = text_beq h.hub_id id

unfoldable pub other_id : Text → SavedHub → Bool
unfolding has_id
other_id id h = not (has_id id h)

unfoldable pub is_default : Text → Option Text → Bool
is_default id none = false
is_default id (some d) = text_beq d id

-- Iterator::max_by_key on `last_used_ms`: the last one of those that are the largest.
unfoldable pub latest : SavedHub → List SavedHub → SavedHub
latest best [] = best
latest best (h ∷ hs) = latest (if leb best.last_used_ms h.last_used_ms then h else best) hs

unfoldable pub most_recent : List SavedHub → Option Text
unfolding latest
most_recent [] = none
most_recent (h ∷ hs) = some (latest h hs).hub_id

unfoldable pub find_default : Option Text → List SavedHub → Option SavedHub
unfolding has_id
find_default none hubs = none
find_default (some id) hubs = find (has_id id) hubs

or_else : Option SavedHub → Option SavedHub → Option SavedHub
or_else none y = y
or_else (some x) y = some x

module _ {P : Type 0} where
  -- InstanceConfig::default
  abbrev pub new : InstanceConfig P
  new = record {
    name = [];
    hubs = [];
    default_hub = none;
    models = [];
    cors_origins = [];
    release = none;
  }

  unfoldable pub release_url : InstanceConfig P → Text
  unfolding url_of
  release_url c = elim c.release [ none ↦ url_of [] | some u ↦ url_of (trim u) ]

  unfoldable pub remember_hub : SavedHub → InstanceConfig P → InstanceConfig P
  unfolding other_id
  remember_hub hub c = record c {
    hubs = retain (other_id hub.hub_id) c.hubs ++ hub ∷ [];
    default_hub = some hub.hub_id;
  }

  unfoldable pub default_saved_hub : InstanceConfig P → Option SavedHub
  unfolding find_default
  default_saved_hub c = find_default c.default_hub c.hubs

  unfoldable pub find_hub : Text → InstanceConfig P → Option SavedHub
  unfolding or_else
  find_hub needle c =
      or_else (find (λ h. text_beq h.label needle) c.hubs)
        (find (λ h. starts_with needle h.hub_id) c.hubs)

  unfoldable pub remove_hub : Text → InstanceConfig P → Bool × InstanceConfig P
  unfolding other_id is_default most_recent
  remove_hub hub_id c =
      let rest = retain (other_id hub_id) c.hubs in
      let removed = not (length rest == length c.hubs) in
      let promoted = if is_default hub_id c.default_hub then most_recent rest else c.default_hub in
      (removed, record c { hubs = rest; default_hub = promoted })

  unfoldable pub record_load : Text → P → ℕ → InstanceConfig P → InstanceConfig P
  unfolding insert
  record_load id params now_ms c = record c {
    models = insert id (record { load = some params; last_loaded_ms = now_ms }) c.models;
  }

  unfoldable pub model_record : Text → InstanceConfig P → Option (ModelRecord P)
  unfolding get
  model_record id c = get id c.models
