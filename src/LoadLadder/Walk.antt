-- ===== src/LoadLadder/Walk.antt =====
-- How `run_oom_ladder` of src/api.rs walks the ladder.
use higgs.Base.{
  Option-cases, arith, map, some, none, Option, inr, inl, ◌⊎◌, ◌∙◌, ap, sym, length, is_some, ◌++◌,
  ◌∷◌, [], List, ◌&&◌, false, true, Bool, refl, ◌≡◌, ◌+◌, ℕ,
}
use higgs.LoadLadder.{
  run_oom_ladder, oom_ladder, walk, Text, err, ok, Result, oom_reason, load_oom_exhausted, LoadRung,
  NodeLoadParams,
}

-- Whether a load ran out of memory.
unfoldable pub is_oom : Result (Unit {0}) → Bool
is_oom (ok u) = false
is_oom (err e) = is_some (oom_reason e)

add_zero : (n : ℕ) → n + 0 ≡ n
add_zero n = omega arith

module _ {X : Type 0} where
  -- Whether each load of the list, from the attempt of that number, runs out of memory.
  unfoldable pub all_oom :
      (ℕ → NodeLoadParams X → Result (Unit {0})) → ℕ → List (NodeLoadParams X) → Bool
  unfolding is_oom
  all_oom load n [] = true
  all_oom load n (p ∷ ps) = is_oom (load n p) && all_oom load (n + 1) ps

  -- What an attempt that ends the walk makes the walk return.
  unfoldable pub returned : NodeLoadParams X → Result (Unit {0}) → Result (NodeLoadParams X)
  returned p (ok u) = ok p
  returned p (err e) = err e

  -- The walk ended at one attempt: those before it ran out of memory, and it did not.
  pub record EndsAt (load : ℕ → NodeLoadParams X → Result (Unit {0})) (n : ℕ)
      (tries : List (NodeLoadParams X)) (result : Result (NodeLoadParams X)) : Type 0 where
    pub before : List (NodeLoadParams X)
    pub it : NodeLoadParams X
    pub after : List (NodeLoadParams X)
    pub splits : tries ≡ before ++ it ∷ after
    pub earlier_oom : all_oom load n before ≡ true
    pub attempt : ℕ
    pub counts : attempt ≡ n + length before
    pub decides : is_oom (load attempt it) ≡ false
    pub result_is : result ≡ returned it (load attempt it)

  -- Every attempt ran out of memory.
  pub record Exhausted (load : ℕ → NodeLoadParams X → Result (Unit {0})) (n : ℕ)
      (tries : List (NodeLoadParams X)) (result : Result (NodeLoadParams X)) : Type 0 where
    pub last : Text
    pub every_oom : all_oom load n tries ≡ true
    pub result_is : result ≡ err (load_oom_exhausted (n + length tries) last)

  abbrev pub rung_params : LoadRung X → NodeLoadParams X
  rung_params r = r.params

  ends_now :
      (load : ℕ → NodeLoadParams X → Result (Unit {0})) (n : ℕ) (p : NodeLoadParams X)
      (ps : List (NodeLoadParams X)) (v : Result (Unit {0}))
      → load n p ≡ v
      → is_oom v ≡ false
      → EndsAt load n (p ∷ ps) (returned p v)
  unfolding all_oom
  ends_now load n p ps v h e = record {
    before = [];
    it = p;
    after = ps;
    splits = refl;
    earlier_oom = refl;
    attempt = n;
    counts = sym (add_zero n);
    decides = rw h e;
    result_is = rw h refl;
  }

  ends_later :
      (load : ℕ → NodeLoadParams X → Result (Unit {0})) (n : ℕ) (p : NodeLoadParams X)
      (ps : List (NodeLoadParams X)) (result : Result (NodeLoadParams X))
      → is_oom (load n p) ≡ true
      → EndsAt load (n + 1) ps result
      → EndsAt load n (p ∷ ps) result
  unfolding all_oom
  ends_later load n p ps result e later = record {
    before = p ∷ later.before;
    it = later.it;
    after = later.after;
    splits = ap (λ r. p ∷ r) later.splits;
    earlier_oom = rw e later.earlier_oom;
    attempt = later.attempt;
    counts = omega (arith, later.counts);
    decides = later.decides;
    result_is = later.result_is;
  }

  again-Exhausted :
      (load : ℕ → NodeLoadParams X → Result (Unit {0})) (n : ℕ) (p : NodeLoadParams X)
      (ps : List (NodeLoadParams X)) (result : Result (NodeLoadParams X))
      → is_oom (load n p) ≡ true
      → Exhausted load (n + 1) ps result
      → Exhausted load n (p ∷ ps) result
  unfolding all_oom
  again-Exhausted load n p ps result e later = record {
    last = later.last;
    every_oom = rw e later.every_oom;
    result_is = later.result_is ∙ ap (λ k. err (load_oom_exhausted k later.last)) (omega arith);
  }

  abbrev pub Ended :
      (ℕ → NodeLoadParams X → Result (Unit {0}))
      → ℕ
      → List (NodeLoadParams X)
      → Result (NodeLoadParams X)
      → Type 0
  Ended load n tries result = EndsAt load n tries result ⊎ Exhausted load n tries result

  later :
      (load : ℕ → NodeLoadParams X → Result (Unit {0})) (n : ℕ) (p : NodeLoadParams X)
      (ps : List (NodeLoadParams X)) (result : Result (NodeLoadParams X))
      → is_oom (load n p) ≡ true
      → Ended load (n + 1) ps result
      → Ended load n (p ∷ ps) result
  later load n p ps result e (inl x) = inl (ends_later load n p ps result e x)
  later load n p ps result e (inr x) = inr (again-Exhausted load n p ps result e x)

  -- One attempt and the rest of the walk.
  attempt-Ended :
      (load : ℕ → NodeLoadParams X → Result (Unit {0})) (n : ℕ) (p : NodeLoadParams X)
      (ps : List (NodeLoadParams X)) (rest : Text → Result (NodeLoadParams X))
      (v : Result (Unit {0}))
      → load n p ≡ v
      → ((r : Text) → Ended load (n + 1) ps (rest r))
      → Ended load n
          (p ∷ ps)
          (elim v [ ok u ↦ ok p | err e ↦ elim (oom_reason e) [ none ↦ err e | some r ↦ rest r ] ])
  unfolding is_oom returned
  attempt-Ended load n p ps rest (ok u) h ih = inl (ends_now load n p ps (ok u) h refl)
  attempt-Ended load n p ps rest (err e) h ih = elim (Option-cases (oom_reason e)) [
    | inl q ↦ rw q (inl (ends_now load n p ps (err e) h (rw q refl)))
    | inr (r, q) ↦ rw q (later load n p ps (rest r) (rw (h, q) refl) (ih r))
  ]

  walk-Ended :
      (load : ℕ → NodeLoadParams X → Result (Unit {0})) (n : ℕ) (rungs : List (LoadRung X))
      (last : Text)
      → Ended load n (map rung_params rungs) (walk load n rungs last)
  unfolding walk all_oom
  walk-Ended load n [] last = inr (record {
    last = last;
    every_oom = refl;
    result_is = ap (λ k. err (load_oom_exhausted k last)) (sym (add_zero n));
  })
  walk-Ended load n (rung ∷ rungs) last =
      attempt-Ended load n rung.params (map rung_params rungs) (walk load (n + 1) rungs)
        (load n rung.params) refl (walk-Ended load (n + 1) rungs)

  -- For every load function, the parameters as given and then the rungs of the ladder are tried in
  -- order, numbered from 0, up to the first attempt that does not run out of memory, whose outcome is
  -- returned: the parameters that loaded, or its error. If every attempt runs out of memory, the
  -- error is `load_oom_exhausted` with the number of attempts.
  pub run_oom_ladder-Ended :
      (default_rest : X) (np : NodeLoadParams X) (lc : Option ℕ)
      (load : ℕ → NodeLoadParams X → Result (Unit {0}))
      → Ended load 0
          (np ∷ map rung_params (oom_ladder default_rest np lc))
          (run_oom_ladder default_rest np lc load)
  unfolding run_oom_ladder
  run_oom_ladder-Ended default_rest np lc load =
      attempt-Ended load 0 np (map rung_params (oom_ladder default_rest np lc))
        (walk load 1 (oom_ladder default_rest np lc)) (load 0 np) refl
        (walk-Ended load 1 (oom_ladder default_rest np lc))
