-- ===== src/Keys/Examples.antt =====
-- The keystore of src/keys.rs on small inputs, with a stand-in for SHA-256.
use higgs.Base.Text.{Text, codes, text_eq, trim, trim_start, is_whitespace}
use higgs.Keys.Authorize.{authorizing_sha-granted, granted}
use higgs.Base.{
  string_eq, nat_eq, retain, if◌then◌else◌, ◌∷◌, [], List, some, none, false, true, refl, ◌≡◌, ℕ,
}
use higgs.Keys.{
  grants, authorizes, authorizing_sha, add_internal, add, hash_token, ApiKeys, bytes_to_hex, parse,
  admin, models, chat,
}

abbrev digest : Text → List ℕ
digest token = token

abbrev store : ApiKeys
store =
    add digest (codes "a") "ci" (chat ∷ []) 5
      (add_internal digest (codes "b") "host" (admin ∷ []) 4 [])

parse_padded : parse (codes " Admin ") ≡ some admin
unfolding parse trim trim_start is_whitespace
parse_padded = refl

parse_unknown : parse (codes "root") ≡ none
unfolding parse trim trim_start is_whitespace
parse_unknown = refl

authorizes-store :
    (authorizes digest (codes "a") chat store ≡ true)
    × (authorizes digest (codes "a") models store ≡ false)
    × (authorizes digest (codes "b") models store ≡ true)
    × (authorizes digest (codes "c") chat store ≡ false)
    × (authorizes digest (codes "c") chat [] ≡ true)
unfolding authorizes authorizing_sha add add_internal hash_token bytes_to_hex grants retain trim
    trim_start is_whitespace
authorizes-store = (refl, refl, refl, refl, refl)

authorizing_sha-granted_example : authorizing_sha digest (codes "a") chat store ≡ (
    if granted (hash_token digest (codes "a")) chat store
    then some (hash_token digest (codes "a"))
    else none)
authorizing_sha-granted_example = authorizing_sha-granted digest (codes "a") chat store

-- The old internal token is out after the rotation.
rotated :
    authorizes digest (codes "b") chat (add_internal digest (codes "n") "host" (admin ∷ []) 6 store)
    ≡ false
unfolding authorizes authorizing_sha add add_internal hash_token bytes_to_hex grants retain trim
    trim_start is_whitespace
rotated = refl
