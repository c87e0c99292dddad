-- ===== src/Supervisor/Waits.antt =====
-- Which receivers of src/actor.rs still wait, after each operation on the map of waiters.
use higgs.Base.Assoc.{get, insert, remove, get-insert, get-remove}
use higgs.Demux.{
  Reply, waiting, cancelled, answered, update, through, cancel, cancel_all, fulfil,
  get-update_absent, get-update_other, get-update,
}
use higgs.Base.{
  some-injective, absurd_bool, beq_refl, ◌∷◌, [], none, sym, Option-cases, arith, ◌∙◌, ap,
  string_eq, nat_eq, ◌==◌, Bool-cases, List, some, Option, ◌&&◌, not, false, true, Bool, inr, inl,
  refl, ◌≡◌, ℕ,
}

found-remove :
    (id i k : ℕ) (pending : List (ℕ × ℕ))
    → ((j : ℕ) → get id pending ≡ some j → (j == k) ≡ false)
    → get i pending ≡ some k
    → get i (remove id pending) ≡ some k
found-remove id i k pending ne q = elim (Bool-cases (id == i)) [
  | inr e ↦ get-remove id i pending ∙ rw e q
  | inl e ↦ absurd_bool (sym (ne k (rw ((nat_eq.decides id i).0 e) q)) ∙ beq_refl k)
]

pub found-insert :
    (id i k n : ℕ) (pending : List (ℕ × ℕ))
    → ((j : ℕ) → get id pending ≡ some j → (j == k) ≡ false)
    → get i pending ≡ some k
    → get i (insert id n pending) ≡ some k
found-insert id i k n pending ne q = elim (Bool-cases (id == i)) [
  | inr e ↦ get-insert id i n pending ∙ rw e q
  | inl e ↦ absurd_bool (sym (ne k (rw ((nat_eq.decides id i).0 e) q)) ∙ beq_refl k)
]

module _ {R : Type 0} where
  unfoldable pub is_waiting : Option (Reply R) → Bool
  is_waiting (some waiting) = true
  is_waiting _ = false

  -- Whether the receiver of a oneshot channel still waits.
  unfoldable pub awaits : ℕ → List (ℕ × Reply R) → Bool
  unfolding is_waiting
  awaits k m = is_waiting (get k m)

  -- What ends a wait and starts none.
  abbrev pub Ends : (Reply R → Reply R) → Type 0
  Ends f = (r : Reply R) → is_waiting (some (f r)) ≡ false

  pub cancel-Ends : (r : Reply R) → is_waiting (some (cancel r)) ≡ false
  unfolding cancel is_waiting
  cancel-Ends waiting = refl
  cancel-Ends cancelled = refl
  cancel-Ends (answered r) = refl

  pub fulfil-Ends : (resp : R) → Ends (fulfil resp)
  unfolding fulfil is_waiting
  fulfil-Ends resp waiting = refl
  fulfil-Ends resp cancelled = refl
  fulfil-Ends resp (answered r) = refl

  awaits-update_same :
      (f : Reply R → Reply R) (k : ℕ) (m : List (ℕ × Reply R))
      → Ends f
      → awaits k (update k f m) ≡ false
  unfolding awaits is_waiting
  awaits-update_same f k m h = elim (Option-cases (get k m)) [
    | inl e ↦ rw (get-update_absent f k m e) refl
    | inr (r, e) ↦ rw (get-update f k r m e) (h r)
  ]

  awaits-update :
      (f : Reply R → Reply R) (k j : ℕ) (m : List (ℕ × Reply R))
      → Ends f
      → awaits k (update j f m) ≡ (awaits k m && not (j == k))
  unfolding awaits
  awaits-update f k j m h = elim (Bool-cases (j == k)) [
    | inr e ↦ ap is_waiting (get-update_other f j k m e) ∙ rw e (ground arith)
    | inl e ↦ rw (e, (nat_eq.decides j k).0 e) (awaits-update_same f k m h ∙ ground arith)
  ]

  -- Every waiter that still waits can be found in the pending map.
  unfoldable pub Tracked : List (ℕ × ℕ) → List (ℕ × Reply R) → Type 0
  Tracked pending m = (k : ℕ) → awaits k m ≡ true → (id : ℕ) × (get id pending ≡ some k)

  pub awaits-through :
      (f : Reply R → Reply R) (o : Option ℕ) (k : ℕ) (m : List (ℕ × Reply R))
      → Ends f
      → awaits k (through o f m) ≡ true
      → (awaits k m ≡ true) × ((j : ℕ) → o ≡ some j → (j == k) ≡ false)
  unfolding through
  awaits-through f none k m h w = (w, λ j e. cc e)
  awaits-through f (some i) k m h w =
      let both = sym (awaits-update f k i m h) ∙ w in
      (ground (arith, both), λ j e. ground (arith, both, e))

  -- A waiter whose id leaves the map is ended through its sender.
  pub Tracked-remove :
      (f : Reply R → Reply R) (id : ℕ) (pending : List (ℕ × ℕ)) (m : List (ℕ × Reply R))
      → Ends f
      → Tracked pending m
      → Tracked (remove id pending) (through (get id pending) f m)
  unfolding Tracked
  Tracked-remove f id pending m h t k w =
      let (before, ne) = awaits-through f (get id pending) k m h w in
      let (i, q) = t k before in (i, found-remove id i k pending ne q)

  pub awaits-cancel_all_kept :
      (k : ℕ) (ps : List (ℕ × ℕ)) (m : List (ℕ × Reply R))
      → awaits k m ≡ false
      → awaits k (cancel_all ps m) ≡ false
  unfolding cancel_all
  awaits-cancel_all_kept k [] m e = e
  awaits-cancel_all_kept k ((i, j) ∷ ps) m e =
      awaits-cancel_all_kept k ps (update j cancel m)
        (awaits-update cancel k j m cancel-Ends ∙ rw e refl)

  pub awaits-cancel_all :
      (id k : ℕ) (ps : List (ℕ × ℕ)) (m : List (ℕ × Reply R))
      → get id ps ≡ some k
      → awaits k (cancel_all ps m) ≡ false
  unfolding cancel_all get
  awaits-cancel_all id k [] m e = cc e
  awaits-cancel_all id k ((i, j) ∷ ps) m e = elim (Bool-cases (i == id)) [
    | inr ne ↦ awaits-cancel_all id k ps (update j cancel m) (sym (rw ne refl) ∙ e)
    | inl eq ↦ awaits-cancel_all_kept k ps (update j cancel m) (
        rw (some-injective {a = j} {b = k} (sym (rw eq refl) ∙ e))
          (awaits-update_same cancel k m cancel-Ends))
  ]

  pub awaits-insert :
      (k n : ℕ) (r : Reply R) (m : List (ℕ × Reply R))
      → (n == k) ≡ false
      → awaits k (insert n r m) ≡ awaits k m
  unfolding awaits
  awaits-insert k n r m e = ap is_waiting (get-insert n k r m ∙ rw e refl)

  pub awaits-through_kept :
      (f : Reply R → Reply R) (o : Option ℕ) (k : ℕ) (m : List (ℕ × Reply R))
      → Ends f
      → awaits k m ≡ false
      → awaits k (through o f m) ≡ false
  unfolding through
  awaits-through_kept f none k m h e = e
  awaits-through_kept f (some j) k m h e = awaits-update f k j m h ∙ rw e refl

  -- Failing every waiter of the map leaves none that waits.
  pub awaits-fail_all :
      (k : ℕ) (pending : List (ℕ × ℕ)) (m : List (ℕ × Reply R))
      → Tracked pending m
      → awaits k (cancel_all pending m) ≡ false
  unfolding Tracked
  awaits-fail_all k pending m t = elim (Bool-cases (awaits k m)) [
    | inr e ↦ awaits-cancel_all_kept k pending m e
    | inl e ↦ let (i, q) = t k e in awaits-cancel_all i k pending m q
  ]
