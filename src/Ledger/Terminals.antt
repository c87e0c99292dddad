-- ===== src/Ledger/Terminals.antt =====
-- The terminals that src/catalog/ledger.rs queues when a write fails, and their replay.
use higgs.Ledger.Healthy.{Healthy}
use higgs.Base.{
  All, Bool-cases, inr, inl, beq_refl, any, retain, arith, ◌∷◌, [], List, Option, false, true, Bool,
  refl, ◌≡◌, String,
}
use higgs.Ledger.{Counters, Os, LedgerEnd, Entry}
use higgs.Ledger.Claims.{read_all, record_end, queued}
use higgs.Ledger.Pass.{
  mutated, with_ledger, Mutation, World, forget, replays, drain, is_ours, PendingTerminal, Io,
  parsed,
}
use higgs.Ledger.Rows.{prune, sweeps, sweep, sweep_entry, terminate, update_first, is_own}

found-any :
    (test : Entry → Bool) (f : Entry → Entry) (es : List Entry)
    → (update_first test f es).1 ≡ any test es
unfolding update_first any
found-any test f [] = refl
found-any test f (e ∷ es) = ground (arith, found-any test f es)

-- A pass that reads the file and cannot write it.
pub record WriteFails (io : Io) : Type 0 where
  pub readable_ok : (es : List Entry) → io.readable es ≡ parsed es
  pub no_write : io.written ≡ false

abbrev pub ended_rows : Os → String → String → LedgerEnd → Option Counters → List Entry → List Entry
ended_rows os repo file end counters rows =
    (update_first (is_own os.own repo file) (terminate end counters os.now_ms) rows).0

sweep_none : (os : Os) (es : List Entry) → sweeps os es ≡ false → sweep os es ≡ es
unfolding sweep sweeps any sweep_entry
sweep_none os [] h = refl
sweep_none os (e ∷ es) h = ground (arith, sweep_none os es)

-- Passes that only read, one after the other.
unfoldable pub reads : String → List (Os × Io) → World → World
reads root [] w = w
reads root ((os, io) ∷ rs) w = reads root rs (read_all root os io w).1

module _ (root : String) (os : Os) (repo file : String) (end : LedgerEnd)
    (counters : Option Counters) (rows : List Entry)
    (row : any (is_own os.own repo file) rows ≡ true) where
  drain-queued :
      drain root os.own (queued root os repo file end counters ∷ []) rows
      ≡ (ended_rows os repo file end counters rows, (repo, file, os.now_ms) ∷ [], [])
  unfolding drain is_ours
  drain-queued =
      rw
        (
          beq_refl root,
          beq_refl os.own,
          found-any (is_own os.own repo file) (terminate end counters os.now_ms) rows,
          row,
        )
        refl

  forget-queued :
      forget root os.own ((repo, file, os.now_ms) ∷ []) (queued root os repo file end counters ∷ [])
      ≡ []
  unfolding forget is_ours retain any replays
  forget-queued =
      rw (beq_refl root, beq_refl os.own, beq_refl repo, beq_refl file, beq_refl os.now_ms) refl

  forget_none : (ps : List PendingTerminal) → forget root os.own [] ps ≡ ps
  unfolding forget retain any replays
  forget_none [] = refl
  forget_none (p ∷ ps) = ground (arith, forget_none ps)

  -- A pass of this process that cannot write leaves the rows and the queue, whatever it was to do.
  pass-kept {ℓ} :
      {T : Type ℓ} (os' : Os) (io : Io) (mutate : List Entry → Mutation T)
      → os'.own ≡ os.own
      → WriteFails io
      → let w : World = record {
        rows = rows;
        pending = queued root os repo file end counters ∷ [];
      } in
        (with_ledger root os' io mutate w).1 ≡ w
  unfolding with_ledger
  pass-kept os' io mutate own fails =
      rw
        (
          fails.readable_ok rows,
          fails.no_write,
          own,
          drain-queued,
          forget_none (queued root os repo file end counters ∷ []),
        )
        (ground arith)

  -- The write of the terminal itself, which fails, queues it.
  record_end-queues :
      (io : Io)
      → WriteFails io
      → record_end root os io repo file end counters (record { rows = rows; pending = [] })
        ≡ record { rows = rows; pending = queued root os repo file end counters ∷ [] }
  unfolding record_end with_ledger drain
  record_end-queues io fails = elim (Bool-cases (sweeps os rows)) [
    | inl e ↦ rw (fails.readable_ok rows, fails.no_write, e, forget_none []) (ground arith)
    | inr e ↦
        rw
          (
            fails.readable_ok rows,
            fails.no_write,
            e,
            sweep_none os rows e,
            found-any (is_own os.own repo file) (terminate end counters os.now_ms) rows,
            row,
            forget_none [],
          )
          (ground arith)
  ]

  -- The reads of this process, each of which fails to write.
  unfoldable pub FailedReads : List (Os × Io) → Type 0
  FailedReads = All (λ r. (r.0.own ≡ os.own) × WriteFails r.1)

  reads-kept :
      (rs : List (Os × Io))
      → FailedReads rs
      → let w : World = record {
        rows = rows;
        pending = queued root os repo file end counters ∷ [];
      } in
        reads root rs w ≡ w
  unfolding FailedReads reads read_all
  reads-kept [] h = refl
  reads-kept ((os', io) ∷ rs) h =
      rw (pass-kept os' io (λ es. mutated es es false) h.0.0 h.0.1) (reads-kept rs h.1)

  pass-replays :
      (os' : Os) (io : Io)
      → os'.own ≡ os.own
      → Healthy io
      → (read_all root os' io
          (record { rows = rows; pending = queued root os repo file end counters ∷ [] })).1
        ≡ record {
          rows = prune (sweep os' (ended_rows os repo file end counters rows));
          pending = [];
        }
  unfolding read_all with_ledger
  pass-replays os' io own good =
      rw
        (
          good.opened_ok,
          good.lock_ok,
          good.read_ok rows,
          good.write_ok,
          own,
          drain-queued,
          forget_none (queued root os repo file end counters ∷ []),
          forget-queued,
        )
        refl

  -- For a process with a downloading row of its own for the key and no queued terminal: when the
  -- write of the row's terminal fails, the terminal is not lost. After any number of further reads
  -- that fail to write, the first read whose file operations succeed puts into the file the rows in
  -- which that row has the terminal's status, time and counters (swept and pruned as in every pass),
  -- and nothing is queued any more.
  pub terminal_survives :
      (io : Io) (rs : List (Os × Io)) (os' : Os) (io' : Io)
      → WriteFails io
      → FailedReads rs
      → os'.own ≡ os.own
      → Healthy io'
      → (read_all root os' io' (
          reads root rs (
            record_end root os io repo file end counters (record { rows = rows; pending = [] })))).1
        ≡ record {
          rows = prune (sweep os' (ended_rows os repo file end counters rows));
          pending = [];
        }
  terminal_survives io rs os' io' fails all_fail own good =
      rw (record_end-queues io fails, reads-kept rs all_fail) (pass-replays os' io' own good)
