-- ===== src/Ledger/OwnRow.antt =====
-- What `claim_start` of src/catalog/ledger.rs leaves in the file.
use higgs.Ledger.Healthy.{Healthy, with_ledger-persists}
use higgs.Ledger.Pruning.{prune_bounds}
use higgs.Base.{
  beq_refl, string_eq, nat_eq, ◌==◌, retain-append, any, retain, arith, ◌++◌, ◌∷◌, [], List, ◌&&◌,
  not, false, true, Bool, ◌∙◌, ap, sym, refl, ◌≡◌, String, ℕ, retain-retain, retain-same,
}
use higgs.Ledger.{is_live, Os, Entry, same_status}
use higgs.Ledger.Claims.{claim_start, start_row, is_leftover, new_row, claimed, same_key, ClaimKey}
use higgs.Ledger.Pass.{Io}
use higgs.Ledger.Rows.{prune, sweep, is_stale, is_own}

own_live :
    (own : ℕ) (repo file : String) (e : Entry)
    → (is_live e && is_own own repo file e) ≡ is_own own repo file e
unfolding is_own
own_live own repo file e = ground arith

-- Pruning loses no row of this process's claims.
retain-own-prune :
    (own : ℕ) (repo file : String) (es : List Entry)
    → retain (is_own own repo file) (prune es) ≡ retain (is_own own repo file) es
retain-own-prune own repo file es =
    sym (retain-same _ _ (prune es) (own_live own repo file))
    ∙ sym (retain-retain (is_own own repo file) is_live (prune es))
    ∙ ap (retain (is_own own repo file)) (prune_bounds es).0
    ∙ retain-retain (is_own own repo file) is_live es
    ∙ retain-same _ _ es (own_live own repo file)

own_is_leftover :
    (os : Os) (repo file : String) (e : Entry)
    → (not (is_leftover os repo file e) && is_own os.own repo file e) ≡ false
unfolding is_own is_leftover
own_is_leftover os repo file e = ground arith

retain_nothing :
    (p : Entry → Bool) (es : List Entry) → ((e : Entry) → p e ≡ false) → retain p es ≡ []
unfolding retain
retain_nothing p [] h = refl
retain_nothing p (e ∷ es) h = ground (arith, h e, retain_nothing p es h)

is_own-new_row :
    (os : Os) (repo file : String)
    → retain (is_own os.own repo file) (new_row os repo file ∷ []) ≡ new_row os repo file ∷ []
unfolding retain is_own same_status
is_own-new_row os repo file = rw (beq_refl os.own, beq_refl repo, beq_refl file) refl

started_own :
    (os : Os) (repo file : String) (es : List Entry)
    → retain
        (is_own os.own repo file)
        (retain (λ e. not (is_leftover os repo file e)) es ++ new_row os repo file ∷ [])
      ≡ new_row os repo file ∷ []
started_own os repo file es =
    rw
      (
        retain-append (is_own os.own repo file) (retain (λ e. not (is_leftover os repo file e)) es)
            (new_row os repo file ∷ []),
        retain-retain (is_own os.own repo file) (λ e. not (is_leftover os repo file e)) es,
        retain_nothing (λ e. not (is_leftover os repo file e) && is_own os.own repo file e) es
            (own_is_leftover os repo file),
        is_own-new_row os repo file,
      )
      refl

foreign_kept :
    (os : Os) (repo file : String) (e : Entry)
    → (is_live e && not (is_stale os e) && not (e.pid == os.own)) ≡ true
    → is_leftover os repo file e ≡ false
unfolding is_stale is_leftover
foreign_kept os repo file e h = ground arith

-- When no claim on the key is active and the pass's file operations succeed, with no queued
-- terminal, `claim_start` gives the claim, and the file then has exactly one downloading row of this
-- process for the key, whatever rows it had: the new row.
pub claim_start-own_row :
    (root : String) (os : Os) (io : Io) (repo file : String) (rows : List Entry)
    (active : List ClaimKey)
    → Healthy io
    → any (λ k. same_key k (root, repo, file)) active ≡ false
    → let (answer, p) =
        claim_start root os io repo file
          (record { world = record { rows = rows; pending = [] }; active = active }) in
      (answer ≡ claimed (root, repo, file))
      × (retain (is_own os.own repo file) p.world.rows ≡ new_row os repo file ∷ [])
unfolding claim_start start_row
claim_start-own_row root os io repo file rows active good free =
    rw
      (
        free,
        with_ledger-persists root os io good (start_row os repo file) rows
            (retain (λ e. not (is_leftover os repo file e)) (sweep os rows)
              ++ new_row os repo file ∷ [])
            tt refl,
      )
      (refl, retain-own-prune os.own repo file _ ∙ started_own os repo file (sweep os rows))
