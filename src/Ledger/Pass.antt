-- ===== src/Ledger/Pass.antt =====
-- `with_ledger` of src/catalog/ledger.rs: one read-modify-write pass under the file lock, with the
-- replay of queued terminals. A pass is one step: the file lock excludes the other processes.
use higgs.Base.{
  string_eq, nat_eq, ◌==◌, any, retain, if◌then◌else◌, ◌∷◌, [], List, some, none, Option, ◌||◌,
  ◌&&◌, not, false, true, Bool, String, ◌+◌, suc, zero, ℕ,
}
use higgs.Ledger.{Counters, Os, LedgerEnd, Entry}
use higgs.Ledger.Rows.{prune, sweeps, sweep, terminate, update_first, is_own}

-- One answer of try_lock_exclusive.
pub data TryLock : Type 0 where
  locked would_block lock_error : TryLock

-- What reading the file gives.
pub data Read : Type 0 where
  parsed : List Entry → Read
  corrupt not_found read_error : Read

-- The outcomes of a pass's file operations: opening the lock file, the answers to the attempts to
-- lock it, whether the file can be read and parsed, and whether the new file is written and renamed.
pub record Io : Type 0 where
  pub opened : Bool
  pub attempts : ℕ → TryLock
  pub readable : List Entry → Read
  pub written : Bool

pub record PendingTerminal : Type 0 where
  pub models_root : String
  pub repo : String
  pub file : String
  pub end : LedgerEnd
  pub final_counters : Option Counters
  pub ended_at_ms : ℕ
  pub pid : ℕ

-- The file of one models root, and the process's queue of terminals.
pub record World : Type 0 where
  pub rows : List Entry
  pub pending : List PendingTerminal

-- What the closure of a pass decides: to refuse, or a value, the entries and whether to persist.
pub data Mutation {ℓ} (T : Type ℓ) : Type ℓ where
  refuse : Mutation T
  mutated : T → List Entry → Bool → Mutation T

-- Result<T, LedgerIo>
pub data Outcome {ℓ} (T : Type ℓ) : Type ℓ where
  ok : T → Outcome T
  refused io_error : Outcome T

-- The bounded retry: attempts `n`, `n + 1`, … until the fuel of tries is out.
unfoldable pub try_locks : (ℕ → TryLock) → ℕ → ℕ → Bool
try_locks attempts n zero = false
try_locks attempts n (suc tries) = elim (attempts n) [
  | locked ↦ true
  | would_block ↦ try_locks attempts (n + 1) tries
  | lock_error ↦ false
]

-- A replayed terminal is known by its key and its time.
abbrev pub Replay : Type 0
Replay = String × String × ℕ

abbrev pub replay_of : PendingTerminal → Replay
replay_of p = (p.repo, p.file, p.ended_at_ms)

unfoldable pub is_ours : String → ℕ → PendingTerminal → Bool
is_ours root own p = p.models_root == root && p.pid == own

-- The drain: each of our queued terminals is applied to its row, or noted as missing.
unfoldable pub drain :
    String → ℕ → List PendingTerminal → List Entry → List Entry × List Replay × List Replay
drain root own [] es = (es, [], [])
drain root own (p ∷ ps) es =
    let (es', found) =
      update_first (is_own own p.repo p.file) (terminate p.end p.final_counters p.ended_at_ms) es in
    let (last, applied, missing) = drain root own ps (if is_ours root own p then es' else es) in
    if not (is_ours root own p)
    then (last, applied, missing)
    else if found
    then (last, replay_of p ∷ applied, missing)
    else (last, applied, replay_of p ∷ missing)

unfoldable pub replays : List Replay → PendingTerminal → Bool
replays list p = any (λ r. r.0 == p.repo && r.1 == p.file && r.2 == p.ended_at_ms) list

-- `pending.retain` after the drain, and after the write.
unfoldable pub forget : String → ℕ → List Replay → List PendingTerminal → List PendingTerminal
unfolding replays
forget root own list = retain (λ p. not (is_ours root own p && replays list p))

abbrev is_nil {ℓ} : {A : Type ℓ} → List A → Bool
is_nil [] = true
is_nil (_ ∷ _) = false

read_rows : Read → Option (List Entry)
read_rows (parsed es) = some es
read_rows corrupt = some []
read_rows not_found = some []
read_rows read_error = none

module _ {ℓ} {T : Type ℓ} (root : String) (os : Os) (io : Io) where
  -- The end of a pass: the write, and what the queue of terminals becomes.
  commit : Bool → List Replay → Mutation T → World → Outcome T × World
  commit swept applied refuse w = (refused, w)
  commit swept applied (mutated value es persist) w =
      if persist || swept
      then (if io.written
          then (
            ok value,
            record { rows = prune es; pending = forget root os.own applied w.pending },
          )
          else (io_error, w))
      else (ok value, w)

  -- The pass over the entries that were read.
  pass : (List Entry → Mutation T) → List Entry → World → Outcome T × World
  pass mutate es w =
      let (drained, applied, missing) = drain root os.own w.pending es in
      commit (not (is_nil applied) || sweeps os drained) applied (mutate (sweep os drained))
        (record w { pending = forget root os.own missing w.pending })

  -- with_ledger
  unfoldable pub with_ledger : (List Entry → Mutation T) → World → Outcome T × World
  unfolding pass commit read_rows
  with_ledger mutate w =
      if not (io.opened && try_locks io.attempts 0 20)
      then (io_error, w)
      else elim (read_rows (io.readable w.rows)) [
        | none ↦ (io_error, w)
        | some es ↦ pass mutate es w
      ]
