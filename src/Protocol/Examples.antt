-- ===== src/Protocol/Examples.antt =====
-- An old and a new peer of src/remote.rs.
use higgs.Protocol.Agreement.{negotiate_version-agreed}
use higgs.Base.{All, any, retain, leb, ◌∷◌, [], none, some, ◌||◌, not, true, refl, ◌≡◌, ◌≤◌}
use higgs.Protocol.{negotiate_version, accepted, maximum, larger, contains}

too_old : negotiate_version (1 ∷ []) 1 (2 ∷ 3 ∷ 1 ∷ []) 2 ≡ none
unfolding negotiate_version maximum larger retain contains any accepted
too_old = refl

negotiate_version-agreed_example :
    (negotiate_version (2 ∷ 3 ∷ 1 ∷ []) 2 (1 ∷ 2 ∷ []) 1 ≡ some 2)
    × (contains (1 ∷ 2 ∷ []) 2 ≡ true)
    × (contains (2 ∷ 3 ∷ 1 ∷ []) 2 ≡ true)
    × (1 ≤ 2)
    × (2 ≤ 2)
    × All (λ w. (not (contains (2 ∷ 3 ∷ 1 ∷ []) w) || leb w 2) ≡ true) (1 ∷ 2 ∷ [])
unfolding negotiate_version maximum larger retain contains any accepted
negotiate_version-agreed_example = negotiate_version-agreed (1 ∷ 2 ∷ []) (2 ∷ 3 ∷ 1 ∷ []) 1 2 2 refl
