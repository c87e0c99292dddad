-- ===== src/Auth/Examples.antt =====
-- The allowlist and the pairing tokens of src/auth.rs on small inputs.
use higgs.Base.Text.{codes, text_eq}
use higgs.Base.Assoc.{get}
use higgs.Auth.Paired
use higgs.Auth.Tokens
use higgs.Base.{string_eq, nat_eq, ◌∷◌, [], some, none, refl, ◌≡◌}
use higgs.Auth.{
  validate_and_burn, validate, mint, hex_encode, PairingTokens, rejected, accepted, expired,
  unknown_or_used, failed, persisted, Allowlist,
}

abbrev paired : Allowlist
paired = record { nodes = ("n1", some "mac") ∷ []; disk = ("n1", some "mac") ∷ [] }

run-Agrees_example :
    Paired.Agrees
      (Paired.run paired (Paired.adds "n2" none failed ∷ Paired.revokes "n1" persisted ∷ []))
run-Agrees_example =
    Paired.run-Agrees paired (Paired.adds "n2" none failed ∷ Paired.revokes "n1" persisted ∷ [])
      refl

abbrev tokens : PairingTokens
tokens = (codes "htk_0a", 100) ∷ []

mint_runs : (mint (0x1f ∷ 0xa0 ∷ []) 5 10 tokens).0 ≡ codes "htk_1fa0"
unfolding mint hex_encode
mint_runs = refl

validate_runs :
    (validate (codes "htk_0a") 100 tokens ≡ accepted)
    × (validate (codes "htk_0a") 101 tokens ≡ rejected expired)
    × (validate (codes "htk_0b") 1 tokens ≡ rejected unknown_or_used)
unfolding validate get
validate_runs = (refl, refl, refl)

token_single_use_example :
    (validate_and_burn (codes "htk_0a") 8 (
      Tokens.run
        (validate_and_burn (codes "htk_0a") 7 tokens).1
        (Tokens.mints (1 ∷ []) 7 5 ∷ []))).0
    ≡ rejected unknown_or_used
unfolding validate_and_burn validate get hex_encode
token_single_use_example =
    Tokens.token_single_use (codes "htk_0a") 7 8 tokens (Tokens.mints (1 ∷ []) 7 5 ∷ []) refl
      (refl, tt)
