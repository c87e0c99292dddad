-- ===== src/Ledger/Pruning.antt =====
-- What pruning the history of src/catalog/ledger.rs keeps.
use higgs.Base.Sort.{sort, length-retain-sort}
use higgs.Base.{
  beq_refl, string_eq, nat_eq, ◌==◌, All, any, retain, length, Bool-cases, ltb, arith, ◌∷◌, [],
  List, ◌||◌, ◌&&◌, not, true, Bool, inr, inl, ap, refl, ◌≡◌, ◌≤◌, ◌+◌, suc, zero, ℕ, retain-retain,
  retain-same,
}
use higgs.Ledger.{is_live, max_terminal_entries, Entry}
use higgs.Ledger.Rows.{prune, is_cut, drop, ended_later, is_terminal}

match_self :
    (e : Entry)
    → (e.repo == e.repo && e.file == e.file && e.started_at_ms == e.started_at_ms) ≡ true
match_self e = ground (arith, beq_refl e.repo, beq_refl e.file, beq_refl e.started_at_ms)

All-is_cut_weaken :
    (c : Entry) (cut es : List Entry)
    → All (λ e. is_cut cut e ≡ true) es
    → All (λ e. is_cut (c ∷ cut) e ≡ true) es
unfolding is_cut any
All-is_cut_weaken c cut [] h = tt
All-is_cut_weaken c cut (e ∷ es) h = (ground (arith, h.0), All-is_cut_weaken c cut es h.1)

-- Every row of the cut is cut.
All-is_cut : (cut : List Entry) → All (λ e. is_cut cut e ≡ true) cut
unfolding is_cut any
All-is_cut [] = tt
All-is_cut (c ∷ cut) = (ground (arith, match_self c), All-is_cut_weaken c cut cut (All-is_cut cut))

retain_none :
    (p : Entry → Bool) (es : List Entry)
    → All (λ e. p e ≡ true) es
    → retain (λ e. not (p e)) es ≡ []
unfolding retain
retain_none p [] h = refl
retain_none p (e ∷ es) h = ground (arith, h.0, retain_none p es h.1)

-- At most `n` elements of a list stand before what `drop n` leaves.
length-retain-drop :
    (p : Entry → Bool) (n : ℕ) (es : List Entry)
    → length (retain p es) ≤ n + length (retain p (drop n es))
unfolding retain drop
length-retain-drop p zero es = omega arith
length-retain-drop p (suc n) [] = omega arith
length-retain-drop p (suc n) (e ∷ es) = ground (arith, length-retain-drop p n es)

terminals_left :
    (cut es : List Entry)
    → retain is_terminal (retain (λ e. is_live e || not (is_cut cut e)) es)
      ≡ retain (λ e. not (is_cut cut e)) (retain is_terminal es)
terminals_left cut es =
    rw
      (
        retain-retain is_terminal (λ e. is_live e || not (is_cut cut e)) es,
        retain-retain (λ e. not (is_cut cut e)) is_terminal es,
      )
      (retain-same _ _ es (λ e. ground arith))

-- Pruning leaves the live rows as they are and in their order, and at most fifty terminal rows.
pub prune_bounds :
    (es : List Entry)
    → (retain is_live (prune es) ≡ retain is_live es)
      × (length (retain is_terminal (prune es)) ≤ max_terminal_entries)
unfolding prune
prune_bounds es = elim (Bool-cases (ltb max_terminal_entries (length (retain is_terminal es)))) [
  | inr e ↦ rw e (refl, ground arith)
  | inl e ↦
      let terminal = retain is_terminal es in
      let sorted = sort ended_later terminal in
      let cut = drop max_terminal_entries sorted in
      let kept : Entry → Bool = λ x. not (is_cut cut x) in
      rw e (
        rw (retain-retain is_live (λ x. is_live x || kept x) es)
            (retain-same _ _ es (λ x. ground arith)),
        rw (terminals_left cut es) (
            omega (
              arith,
              length-retain-sort ended_later kept terminal,
              length-retain-drop kept max_terminal_entries sorted,
              ap length (retain_none (is_cut cut) cut (All-is_cut cut)),
            )),
      )
]
