-- ===== src/Auth.antt =====
-- src/auth.rs: the allowlist of paired nodes with its file, and the one-time pairing tokens. The
-- outcome of each save is an argument, and so are the random bytes of a token and the clock. The
-- maps are association lists: the order of their keys is not modelled.
pub mod Paired
pub mod Tokens
mod Examples
use higgs.Base.Text.{Text, codes, text_eq, hex_digit}
use higgs.Base.Assoc
use higgs.Base.Assoc.{get, insert, remove, contains_key}
use higgs.Base.{
  string_eq, nat_eq, if◌then◌else◌, ltb, ◌++◌, ◌∷◌, [], List, some, none, Option, not, false, true,
  Bool, String, min, ◌^◌, ◌%◌, ◌/◌, ◌-◌, ◌+◌, ℕ,
}

-- PairingsFile: paired id → optional label
abbrev pub PairingsFile : Type 0
PairingsFile = List (String × Option String)

-- The map in memory, and what the file holds.
pub record Allowlist : Type 0 where
  pub nodes : PairingsFile
  pub disk : PairingsFile

-- Whether writing the temporary file and renaming it succeeds; the rename is atomic, so a failure
-- leaves the file as it was.
pub data Saved : Type 0 where
  persisted failed : Saved

-- Allowlist::contains
unfoldable pub contains : String → Allowlist → Bool
contains id list = contains_key id list.nodes

-- `.flatten()` of an optional optional label
abbrev pub flatten : Option (Option String) → Option String
flatten none = none
flatten (some label) = label

-- Allowlist::label
unfoldable pub label : String → Allowlist → Option String
label id list = flatten (get id list.nodes)

-- Allowlist::mutate: `true` if the change is kept; otherwise the snapshot is put back.
unfoldable pub mutate : (PairingsFile → PairingsFile) → Saved → Allowlist → Bool × Allowlist
mutate f persisted list = (true, record { nodes = f list.nodes; disk = f list.nodes })
mutate f failed list = (false, list)

-- Allowlist::add
unfoldable pub add : String → Option String → Saved → Allowlist → Bool × Allowlist
add id name saved list = mutate (insert id name) saved list

-- Allowlist::remove
unfoldable pub revoke : String → Saved → Allowlist → Bool × Allowlist
revoke id saved list = mutate (Assoc.remove id) saved list

-- What `relabel` returns: an error, or whether the id was present.
pub data Relabelled : Type 0 where
  error : Relabelled
  ok : Bool → Relabelled

relabelled : Bool × Allowlist → Relabelled × Allowlist
relabelled (true, list) = (ok true, list)
relabelled (false, list) = (error, list)

-- Allowlist::relabel
unfoldable pub relabel : String → Option String → Saved → Allowlist → Relabelled × Allowlist
unfolding relabelled
relabel id name saved list =
    if not (contains_key id list.nodes)
    then (ok false, list)
    else relabelled (mutate (insert id name) saved list)

pub data TokenError : Type 0 where
  unknown_or_used expired : TokenError

pub data Verdict : Type 0 where
  accepted : Verdict
  rejected : TokenError → Verdict

-- PairingTokens: token → expiry in epoch-ms
abbrev pub PairingTokens : Type 0
PairingTokens = List (Text × ℕ)

unfoldable pub hex_encode : List ℕ → Text
hex_encode [] = []
hex_encode (b ∷ bytes) = hex_digit (b / 16) ∷ hex_digit (b % 16) ∷ hex_encode bytes

-- u64::saturating_add
abbrev pub u64_saturating_add : ℕ → ℕ → ℕ
u64_saturating_add a b = min (a + b) (2 ^ 64 - 1)

-- PairingTokens::mint
unfoldable pub mint : List ℕ → ℕ → ℕ → PairingTokens → Text × PairingTokens
mint raw now_ms ttl_ms live =
    let tok = codes "htk_" ++ hex_encode raw in
    (tok, insert tok (u64_saturating_add now_ms ttl_ms) live)

judge : ℕ → Option ℕ → Verdict
judge now_ms none = rejected unknown_or_used
judge now_ms (some expiry) = if ltb expiry now_ms then rejected expired else accepted

-- PairingTokens::validate
unfoldable pub validate : Text → ℕ → PairingTokens → Verdict
unfolding judge
validate token now_ms live = judge now_ms (get token live)

-- PairingTokens::burn
unfoldable pub burn : Text → PairingTokens → PairingTokens
burn token live = Assoc.remove token live

burn_if : Verdict → Text → PairingTokens → PairingTokens
burn_if accepted token live = burn token live
burn_if (rejected e) token live = live

-- PairingTokens::validate_and_burn
unfoldable pub validate_and_burn : Text → ℕ → PairingTokens → Verdict × PairingTokens
unfolding burn_if burn
validate_and_burn token now_ms live =
    let verdict = validate token now_ms live in (verdict, burn_if verdict token live)
