-- ===== src/Ledger/Healthy.antt =====
-- A pass of `with_ledger` of src/catalog/ledger.rs whose file operations all succeed.
use higgs.Base.{if◌then◌else◌, retain, arith, [], List, false, true, refl, ◌≡◌, String}
use higgs.Ledger.Pass.{
  TryLock, with_ledger, forget, drain, try_locks, mutated, Mutation, Io, parsed, ok,
}
use higgs.Ledger.{Os, Entry}
use higgs.Ledger.Rows.{sweeps, prune, sweep}

pub record Healthy (io : Io) : Type 0 where
  pub opened_ok : io.opened ≡ true
  pub lock_ok : try_locks io.attempts 0 20 ≡ true
  pub read_ok : (es : List Entry) → io.readable es ≡ parsed es
  pub write_ok : io.written ≡ true

-- The passes of the tests and of the witnesses.
abbrev pub good_io : Io
good_io = record {
  opened = true;
  attempts = λ n. TryLock.locked;
  readable = parsed;
  written = true;
}

pub good_io-Healthy : Healthy good_io
unfolding try_locks
good_io-Healthy = record { opened_ok = refl; lock_ok = refl; read_ok = λ es. refl; write_ok = refl }

module _ {ℓ} {T : Type ℓ} (root : String) (os : Os) (io : Io) (good : Healthy io) where
  -- A pass with no queued terminal of ours that persists: the value, and the pruned entries.
  pub with_ledger-persists :
      (mutate : List Entry → Mutation T) (rows es : List Entry) (v : T)
      → mutate (sweep os rows) ≡ mutated v es true
      → with_ledger root os io mutate (record { rows = rows; pending = [] })
        ≡ (ok v, record { rows = prune es; pending = [] })
  unfolding with_ledger drain forget retain
  with_ledger-persists mutate rows es v h =
      rw (good.opened_ok, good.lock_ok, good.read_ok rows, h, good.write_ok) refl

  -- Its value alone, where it does not ask to persist.
  pub with_ledger-reads :
      (mutate : List Entry → Mutation T) (rows es : List Entry) (v : T)
      → mutate (sweep os rows) ≡ mutated v es false
      → (with_ledger root os io mutate (record { rows = rows; pending = [] })).0 ≡ ok v
  unfolding with_ledger drain forget retain
  with_ledger-reads mutate rows es v h =
      rw (good.opened_ok, good.lock_ok, good.read_ok rows, h, good.write_ok) (ground arith)

  -- The world it leaves, where it does not ask to persist.
  pub with_ledger-settles :
      (mutate : List Entry → Mutation T) (rows es : List Entry) (v : T)
      → mutate (sweep os rows) ≡ mutated v es false
      → (with_ledger root os io mutate (record { rows = rows; pending = [] })).1.rows
        ≡ (if sweeps os rows then prune es else rows)
  unfolding with_ledger drain forget retain
  with_ledger-settles mutate rows es v h =
      rw (good.opened_ok, good.lock_ok, good.read_ok rows, h, good.write_ok) (ground arith)
