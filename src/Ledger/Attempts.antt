-- ===== src/Ledger/Attempts.antt =====
-- `overwrite_last_failed_to_cancelled` of src/catalog/ledger.rs: the cancel of one attempt turns its
-- failed terminal, in the file and in the queue, into a cancelled one.
use higgs.Base.{
  Bool-cases, ltb→lt, inr, inl, ◌⊎◌, ap, refl, ◌<◌, ltb, arith, ◌++◌, ◌≡◌, string_eq, nat_eq, ◌==◌,
  any, if◌then◌else◌, leb, ◌∷◌, [], List, none, ◌&&◌, not, false, true, Bool, String, ℕ,
}
use higgs.Ledger.{unwrap_or, Os, LedgerEnd, Entry, same_status, cancelled, failed}
use higgs.Ledger.Pass.{with_ledger, mutated, Mutation, World, PendingTerminal, Io}
use higgs.Ledger.Healthy.{Healthy, with_ledger-settles, with_ledger-persists}
use higgs.Ledger.Rows.{prune, sweeps, sweep}

is_failed_end : LedgerEnd → Bool
is_failed_end (LedgerEnd.failed d) = true
is_failed_end _ = false

unfoldable pub queued_candidate : String → ℕ → String → String → ℕ → PendingTerminal → Bool
unfolding is_failed_end
queued_candidate root own repo file since p =
    p.pid == own
    && p.models_root == root
    && p.repo == repo
    && p.file == file
    && leb since p.ended_at_ms
    && is_failed_end p.end

unfoldable pub candidate : ℕ → String → String → ℕ → Entry → Bool
candidate own repo file since e =
    e.pid == own
    && e.repo == repo
    && e.file == file
    && same_status e.status failed
    && leb since (unwrap_or 0 e.ended_at_ms)

-- Whether a candidate of the list is at least as late: `max_by_key` takes the last of the latest.
unfoldable pub later {ℓ} : {A : Type ℓ} → (A → Bool) → (A → ℕ) → ℕ → List A → Bool
later test key at xs = any (λ x. test x && leb at (key x)) xs

-- `iter().enumerate().filter(test).max_by_key(key)` and a write at that index.
unfoldable pub update_newest {ℓ} :
    {A : Type ℓ} → (A → Bool) → (A → ℕ) → (A → A) → List A → List A × Bool
unfolding later
update_newest test key f [] = ([], false)
update_newest test key f (x ∷ xs) =
    let (rest, found) = update_newest test key f xs in
    if test x && not (later test key (key x) xs) then (f x ∷ xs, true) else (x ∷ rest, found)

cancel_pending : PendingTerminal → PendingTerminal
cancel_pending p = record p { end = LedgerEnd.cancelled }

unfoldable pub cancel_entry : Entry → Entry
cancel_entry e = record e { status = cancelled; detail = none }

overwrite_row : Os → String → String → ℕ → List Entry → Mutation (Unit {0})
unfolding cancel_entry
overwrite_row os repo file since es =
    let (es', found) =
      update_newest (candidate os.own repo file since) (λ e. unwrap_or 0 e.ended_at_ms) cancel_entry
        es in
    mutated tt es' found

-- overwrite_last_failed_to_cancelled
unfoldable pub overwrite_last_failed_to_cancelled :
    String → Os → Io → String → String → ℕ → World → World
unfolding overwrite_row cancel_pending
overwrite_last_failed_to_cancelled root os io repo file since w =
    let (pending, found) =
      update_newest (queued_candidate root os.own repo file since) (λ p. p.ended_at_ms)
        cancel_pending w.pending in
    (with_ledger root os io (overwrite_row os repo file since) (record w { pending = pending })).1

-- `xs` and `ys` differ in one place: `x` was the last of the latest elements that pass the test, and
-- became `f x`.
pub record Newest {ℓ} {A : Type ℓ} (test : A → Bool) (key : A → ℕ) (f : A → A) (xs ys : List A)
    : Type ℓ where
  pub before : List A
  pub it : A
  pub after : List A
  pub splits : xs ≡ before ++ it ∷ after
  pub changed : ys ≡ before ++ f it ∷ after
  pub passes : test it ≡ true
  pub none_newer : any (λ x. test x && ltb (key it) (key x)) before ≡ false
  pub none_later : later test key (key it) after ≡ false

module _ {ℓ} {A : Type ℓ} (test : A → Bool) (key : A → ℕ) (f : A → A) where
  later_up :
      (a b : ℕ) (xs : List A) → a < b → later test key a xs ≡ false → later test key b xs ≡ false
  unfolding later any
  later_up a b [] h e = refl
  later_up a b (x ∷ xs) h e = ground (arith, later_up a b xs)

  beats_all :
      (b : ℕ) (y : A) (before after : List A)
      → key y < b
      → later test key (key y) after ≡ false
      → any (λ z. test z && ltb (key y) (key z)) before ≡ false
      → later test key b (before ++ y ∷ after) ≡ false
  unfolding later any
  beats_all b y [] after lt h e = ground (arith, later_up (key y) b after lt h)
  beats_all b y (z ∷ before) after lt h e = ground (arith, beats_all b y before after lt h)

  beaten :
      (x y : A) (before after : List A)
      → (test x && not (later test key (key x) (before ++ y ∷ after))) ≡ false
      → later test key (key y) after ≡ false
      → any (λ z. test z && ltb (key y) (key z)) before ≡ false
      → (test x && ltb (key y) (key x)) ≡ false
  beaten x y before after e h b = elim (Bool-cases (ltb (key y) (key x))) [
    | inr l ↦ ground arith
    | inl l ↦ ground (arith, beats_all (key x) y before after (ltb→lt _ _ l) h b)
  ]

  later_none : (b : ℕ) (xs : List A) → any test xs ≡ false → later test key b xs ≡ false
  unfolding later any
  later_none b [] h = refl
  later_none b (x ∷ xs) h = ground (arith, later_none b xs)

  grow :
      (x : A) (xs ys : List A)
      → (test x && not (later test key (key x) xs)) ≡ false
      → Newest test key f xs ys
      → Newest test key f (x ∷ xs) (x ∷ ys)
  unfolding any
  grow x xs ys h n =
      let e : (test x && not (later test key (key x) (n.before ++ n.it ∷ n.after))) ≡ false =
        rw (← n.splits) h in
      record {
        before = x ∷ n.before;
        it = n.it;
        after = n.after;
        splits = ap (λ r. x ∷ r) n.splits;
        changed = ap (λ r. x ∷ r) n.changed;
        passes = n.passes;
        none_newer = rw (beaten x n.it n.before n.after e n.none_later n.none_newer) n.none_newer;
        none_later = n.none_later;
      }

  -- What `update_newest` does on every list.
  pub update_newest-Newest :
      (xs : List A)
      → ((any test xs ≡ false) × (update_newest test key f xs ≡ (xs, false)))
        ⊎ ((update_newest test key f xs).1 ≡ true)
          × Newest test key f xs (update_newest test key f xs).0
  unfolding update_newest any later
  update_newest-Newest [] = inl (refl, refl)
  update_newest-Newest (x ∷ xs) = elim (Bool-cases (test x && not (later test key (key x) xs))) [
    | inl e ↦ inr (
        rw e (
          refl,
          record {
            before = [];
            it = x;
            after = xs;
            splits = refl;
            changed = refl;
            passes = ground arith;
            none_newer = refl;
            none_later = ground arith;
          },
        ))
    | inr e ↦ elim (update_newest-Newest xs) [
      | inl h ↦ inl (ground (arith, later_none (key x) xs h.0), rw (e, h.1) refl)
      | inr h ↦ inr (rw e (h.0, grow x xs _ e h.1))
    ]
  ]

-- A failed terminal of this process for the key that ended within the attempt.
abbrev pub is_of_attempt : Os → String → String → ℕ → Entry → Bool
is_of_attempt os repo file since = candidate os.own repo file since

-- On a pass whose file operations succeed, with no queued terminal: if no failed row of this process
-- for the key ended at or after `since`, the file has the pruned swept rows where the sweep changed one,
-- and else the rows that it had; if there is one, exactly one swept row changes, the last of the latest
-- such rows, which becomes cancelled with no detail, and the file has these rows pruned. The pruning may
-- drop terminal rows, this one too.
pub overwrite-Newest :
    (root : String) (os : Os) (io : Io) (repo file : String) (since : ℕ) (rows : List Entry)
    → Healthy io
    → let es = sweep os rows in
      let result =
        (overwrite_last_failed_to_cancelled root os io repo file since
          (record { rows = rows; pending = [] })).rows in
      ((any (is_of_attempt os repo file since) es ≡ false)
        × (result ≡ (if sweeps os rows then prune es else rows)))
      ⊎ ((changed : List Entry) × (result ≡ prune changed)
          × Newest
              (is_of_attempt os repo file since)
              (λ e. unwrap_or 0 e.ended_at_ms)
              cancel_entry
              es
              changed)
unfolding overwrite_last_failed_to_cancelled overwrite_row update_newest
overwrite-Newest root os io repo file since rows good =
    let found =
      update_newest-Newest (candidate os.own repo file since) (λ e. unwrap_or 0 e.ended_at_ms)
        cancel_entry (sweep os rows) in
    elim found [
      | inl h ↦ inl (
        h.0,
        with_ledger-settles root os io good (overwrite_row os repo file since) rows (sweep os rows)
            tt (rw h.1 refl),
      )
      | inr h ↦ inr (
        _,
        ap (λ r. r.1.rows)
            (with_ledger-persists root os io good (overwrite_row os repo file since) rows _ tt
              (rw h.0 refl)),
        h.1,
      )
    ]
