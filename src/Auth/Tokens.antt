-- ===== src/Auth/Tokens.antt =====
-- The pairing tokens of src/auth.rs.
use higgs.Base.Text.{Text, codes, text_eq}
use higgs.Base.Assoc.{get, get-insert, get-remove}
use higgs.Base.{
  beq_refl, string_eq, nat_eq, ◌==◌, Bool-cases, if◌then◌else◌, leb, arith, ◌++◌, ◌∷◌, [], List,
  none, false, inr, inl, refl, ◌≡◌, ℕ,
}
use higgs.Auth.{
  validate_and_burn, burn, validate, mint, u64_saturating_add, hex_encode, PairingTokens, rejected,
  accepted, expired, unknown_or_used,
}

-- A freshly minted token is accepted up to and including the moment its life ends, and refused as
-- expired after it; minting leaves the verdict on every other token as it was.
validate-mint :
    (raw : List ℕ) (j : Text) (now_ms ttl_ms later : ℕ) (live : PairingTokens)
    → validate j later (mint raw now_ms ttl_ms live).1 ≡ (
        if (mint raw now_ms ttl_ms live).0 == j
        then (if leb later (u64_saturating_add now_ms ttl_ms) then accepted else rejected expired)
        else validate j later live)
unfolding validate mint
validate-mint raw j now_ms ttl_ms later live =
    let tok : Text = codes "htk_" ++ hex_encode raw in
    let expiry = u64_saturating_add now_ms ttl_ms in
    rw (get-insert tok j expiry live)
      (elim (Bool-cases (tok == j)) [ inl e ↦ rw e (ground arith) | inr e ↦ rw e refl ])

pub data Op : Type 0 where
  mints : List ℕ → ℕ → ℕ → Op
  presents : Text → ℕ → Op
  burns : Text → Op

unfoldable pub step : PairingTokens → Op → PairingTokens
step live (mints raw now_ms ttl_ms) = (mint raw now_ms ttl_ms live).1
step live (presents token now_ms) = (validate_and_burn token now_ms live).1
step live (burns token) = burn token live

unfoldable pub run : PairingTokens → List Op → PairingTokens
unfolding step
run live [] = live
run live (op ∷ ops) = run (step live op) ops

-- The random bytes never produce the token again.
abbrev pub NeverMints : Text → List Op → Type 0
NeverMints token [] = Unit
NeverMints token (mints raw now_ms ttl_ms ∷ ops) =
    ((codes "htk_" ++ hex_encode raw == token) ≡ false) × NeverMints token ops
NeverMints token (presents _ _ ∷ ops) = NeverMints token ops
NeverMints token (burns _ ∷ ops) = NeverMints token ops

step_unknown :
    (token : Text) (op : Op) (live : PairingTokens)
    → NeverMints token (op ∷ [])
    → get token live ≡ none
    → get token (step live op) ≡ none
unfolding step mint validate_and_burn validate burn
step_unknown token (mints raw now_ms ttl_ms) live m h =
    rw
      (
        get-insert (codes "htk_" ++ hex_encode raw) token (u64_saturating_add now_ms ttl_ms) live,
        m.0,
      )
      h
step_unknown token (presents t now_ms) live m h = ground (arith, get-remove t token live)
step_unknown token (burns t) live m h = ground (arith, get-remove t token live)

run_unknown :
    (token : Text) (ops : List Op) (live : PairingTokens)
    → NeverMints token ops
    → get token live ≡ none
    → get token (run live ops) ≡ none
unfolding run
run_unknown token [] live m h = h
run_unknown token (mints raw now_ms ttl_ms ∷ ops) live m h =
    run_unknown token ops (step live (mints raw now_ms ttl_ms)) m.1
      (step_unknown token (mints raw now_ms ttl_ms) live (m.0, tt) h)
run_unknown token (presents t now_ms ∷ ops) live m h =
    run_unknown token ops (step live (presents t now_ms)) m
      (step_unknown token (presents t now_ms) live tt h)
run_unknown token (burns t ∷ ops) live m h =
    run_unknown token ops (step live (burns t)) m (step_unknown token (burns t) live tt h)

burned :
    (token : Text) (now_ms : ℕ) (live : PairingTokens)
    → (validate_and_burn token now_ms live).0 ≡ accepted
    → get token (validate_and_burn token now_ms live).1 ≡ none
unfolding validate_and_burn validate
burned token now_ms live h = ground (arith, get-remove token token live, beq_refl token)

-- A pairing token admits once: after it was accepted and burned, whatever is minted, presented or
-- burned next, presenting it again at any time is refused as unknown or used, provided that the
-- random bytes do not produce it again.
pub token_single_use :
    (token : Text) (now_ms later : ℕ) (live : PairingTokens) (ops : List Op)
    → (validate_and_burn token now_ms live).0 ≡ accepted
    → NeverMints token ops
    → (validate_and_burn token later (run (validate_and_burn token now_ms live).1 ops)).0
      ≡ rejected unknown_or_used
unfolding validate_and_burn validate
token_single_use token now_ms later live ops h m =
    rw
      (run_unknown token ops (validate_and_burn token now_ms live).1 m (burned token now_ms live h))
      refl
