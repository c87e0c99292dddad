-- ===== src/Served/Reached.antt =====
-- Every instance gets an id of its own, by which it is found.
use higgs.Base.Assoc.{get, remove, get_same, get_other}
use higgs.Base.Sort.{sort, sort-All, length-sort}
use higgs.Base.Text.{Text, text_eq, text_beq_iff}
use higgs.Served.{
  Instance, Assigned, contains, pick, or_zero, take_id, assign, assign_all, nothing, before,
  served_ids,
}
use higgs.Served.Picked.{pick_total, pick-free}
use higgs.Base.{
  Eq, any, length, ◌∷◌, [], List, some, none, Bool-cases, Option-cases, inl, inr, All, arith, true,
  false, Bool, ◌≡◌, ap, sym, refl, ◌∙◌, ◌+◌, suc, ℕ, ◌==◌, nat_eq, string_eq, absurd_bool, is_some,
}

module _ {L : Type 0} where
  -- The id of an instance among the ids.
  pub record Reached (out : List (Text × (L × ℕ))) (i : Instance L) : Type 0 where
    pub id : Text
    pub found : get id out ≡ some (i.location, i.worker)

  -- Every id that leads somewhere is taken.
  abbrev AllTaken : Assigned L → Type 0
  AllTaken s = (id : Text) → is_some (get id s.out) ≡ true → contains s.taken id ≡ true

  record Progress (es : List (Instance L)) (s s' : Assigned L) : Type 0 where
    taken : AllTaken s'
    counted : length s'.out ≡ length es + length s.out
    kept : (id : Text) (place : L × ℕ) → get id s.out ≡ some place → get id s'.out ≡ some place
    reached : All (Reached s'.out) es

  length-remove-none :
      (id : Text) (out : List (Text × (L × ℕ)))
      → get id out ≡ none
      → length (remove id out) ≡ length out
  unfolding get remove
  length-remove-none id [] e = refl
  length-remove-none id ((j, p) ∷ out) e = ground (arith, length-remove-none id out, e)

  free_unused :
      (s : Assigned L) (id : Text) → AllTaken s → contains s.taken id ≡ false → get id s.out ≡ none
  free_unused s id t f = elim (Option-cases (get id s.out)) [
    | inl e ↦ e
    | inr (p, e) ↦ absurd_bool (sym f ∙ t id (ap is_some e))
  ]

  step-Progress :
      (e : Instance L) (s : Assigned L) (picked : Text × ℕ)
      → AllTaken s
      → contains s.taken picked.0 ≡ false
      → Progress (e ∷ []) s (take_id e s picked)
  unfolding take_id any
  step-Progress e s (served, i) t f =
      let place : L × ℕ = (e.location, e.worker) in
      let unused = free_unused s served t f in
      record {
        taken = λ id h. elim (Bool-cases (served == id)) [
          | inl same ↦ rw same refl
          | inr other ↦
              rw (other, t id (ap is_some (sym (get_other served id place s.out other)) ∙ h)) refl
        ];
        counted = omega (arith, length-remove-none served s.out unused);
        kept = λ id p h. elim (Bool-cases (served == id)) [
          | inl same ↦ cc (unused, h, (text_beq_iff served id).0 same)
          | inr other ↦ get_other served id place s.out other ∙ h
        ];
        reached = (record { id = served; found = get_same served place s.out }, tt);
      }

  still-Reached :
      (es : List (Instance L)) (s s' s'' : Assigned L)
      → ((id : Text) (place : L × ℕ) → get id s'.out ≡ some place → get id s''.out ≡ some place)
      → All (Reached s'.out) es
      → All (Reached s''.out) es
  still-Reached [] s s' s'' k h = tt
  still-Reached (e ∷ es) s s' s'' k (r, h) = (
    record { id = r.id; found = k r.id (e.location, e.worker) r.found },
    still-Reached es s s' s'' k h,
  )

  assigned :
      (e : Instance L) (es : List (Instance L)) (s : Assigned L) (picked : Text × ℕ)
      → pick (suc (length s.taken)) s.taken e.model (or_zero (get e.model s.next_suffix))
        ≡ some picked
      → assign_all (e ∷ es) s ≡ assign_all es (take_id e s picked)
  unfolding assign_all assign
  assigned e es s picked p = rw (p, assign_all, assign) refl

  assign_all-Progress :
      (es : List (Instance L)) (s : Assigned L)
      → AllTaken s
      → (s' : Assigned L) × (assign_all es s ≡ some s') × Progress es s s'
  unfolding assign_all assign
  assign_all-Progress [] s t =
      (s, refl, record { taken = t; counted = omega arith; kept = λ id p h. h; reached = tt })
  assign_all-Progress (e ∷ es) s t =
      let i = or_zero (get e.model s.next_suffix) in
      let (picked, p) = pick_total (suc (length s.taken)) s.taken e.model i (omega arith) in
      let one =
        step-Progress e s picked t (pick-free (suc (length s.taken)) s.taken e.model i picked p) in
      let (s', q, rest) = assign_all-Progress es (take_id e s picked) one.taken in
      (
        s',
        assigned e es s picked p ∙ q,
        record {
          taken = rest.taken;
          counted = omega (arith, rest.counted, one.counted);
          kept = λ id place h. rest.kept id place (one.kept id place h);
          reached = (
            (still-Reached (e ∷ []) s (take_id e s picked) s' rest.kept one.reached).0,
            rest.reached,
          );
        },
      )

  module _ (before_location : L → L → Bool) ⦃order : Eq L⦄ where
    -- The ids are computed, however many instances there are and whatever their models are called: there
    -- are as many as instances, and each instance is found under one of them.
    pub served_ids_total :
        (instances : List (Instance L))
        → (out : List (Text × (L × ℕ))) × (served_ids before_location instances ≡ some out)
          × (length out ≡ length instances)
          × All (Reached out) instances
    unfolding served_ids get
    served_ids_total instances =
        let ordered = sort (before before_location) instances in
        let (s, e, p) = assign_all-Progress ordered nothing (λ id h. cc h) in
        (
          s.out,
          rw (e, served_ids) refl,
          omega (arith, p.counted, length-sort (before before_location) instances),
          sort-All (before before_location) (Reached s.out) instances p.reached,
        )
