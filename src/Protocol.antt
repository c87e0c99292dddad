-- ===== src/Protocol.antt =====
-- `negotiate_version` of src/remote.rs: the protocol version that a hub and a node agree on.
pub mod Agreement
mod Examples
use higgs.Base.{
  string_eq, nat_eq, ◌==◌, any, retain, if◌then◌else◌, leb, ltb, ◌∷◌, [], List, some, none, Option,
  ◌&&◌, Bool, ℕ,
}

-- slice::contains
unfoldable pub contains : List ℕ → ℕ → Bool
contains xs v = any (λ x. x == v) xs

unfoldable pub larger : ℕ → Option ℕ → ℕ
larger x none = x
larger x (some m) = if ltb m x then x else m

-- Iterator::max
unfoldable pub maximum : List ℕ → Option ℕ
unfolding larger
maximum [] = none
maximum (x ∷ xs) = some (larger x (maximum xs))

-- The guards of the answer; `none` is a VersionMismatch.
unfoldable pub accepted : ℕ → ℕ → Option ℕ → Option ℕ
accepted peer_min our_min none = none
accepted peer_min our_min (some v) = if leb peer_min v && leb our_min v then some v else none

-- negotiate_version
unfoldable pub negotiate_version : List ℕ → ℕ → List ℕ → ℕ → Option ℕ
unfolding accepted
negotiate_version peer_versions peer_min our_versions our_min =
    accepted peer_min our_min (maximum (retain (contains our_versions) peer_versions))
