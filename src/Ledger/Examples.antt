-- ===== src/Ledger/Examples.antt =====
-- The ledger of src/catalog/ledger.rs on a small file: process 7 at work, process 9 gone.
use higgs.Base.Sort.{sort, insert}
use higgs.Ledger.Sweeping.{read_live_exact}
use higgs.Ledger.Pruning.{prune_bounds}
use higgs.Ledger.OwnRow.{claim_start-own_row}
use higgs.Ledger.Gate.{
  Holds, spec, answers, answers_refine, spec_answers, start_call, end_call, drop_call, Call,
}
use higgs.Ledger.Terminals.{FailedReads, terminal_survives, WriteFails, reads, ended_rows}
use higgs.Ledger.Attempts.{
  overwrite-Newest, overwrite_last_failed_to_cancelled, is_of_attempt, Newest, cancel_entry,
}
use higgs.Ledger.Healthy.{good_io, good_io-Healthy}
use higgs.Base.{
  string_eq, nat_eq, ◌==◌, any, retain, length, if◌then◌else◌, ◌∷◌, [], List, some, none, Option,
  ◌&&◌, not, false, true, Bool, ◌⊎◌, refl, ◌≡◌, String, ◌≤◌, ℕ,
}
use higgs.Ledger.{
  LedgerEnd, unwrap_or, is_live, entry_process_alive, same_incarnation, pid_alive,
  max_terminal_entries, Os, Entry, same_status, downloading, Status, failed,
}
use higgs.Ledger.Claims.{
  record_end, read_live, read_all, reads_before, claim_start, new_row, claimed, same_key, ClaimKey,
}
use higgs.Ledger.Pass.{with_ledger, forget, drain, try_locks, World, Io}
use higgs.Ledger.Rows.{
  prune, is_terminal, sweeps, sweep, sweep_entry, stale_detail, is_stale, lockless_expired, is_own,
}

abbrev os : Os
os = record {
  own = 7;
  kill_reaches = λ pid. pid == 7;
  pid_start_time = λ pid. some 100;
  lock_file_exists = λ repo file. true;
  is_key_stale = λ repo file. false;
  now_ms = 2000;
}

abbrev row : String → ℕ → Status → Option ℕ → Entry
row file pid status ended = record {
  repo = "o/r";
  file = file;
  pid = pid;
  pid_started_at = none;
  started_at_ms = 1000;
  downloaded = 5;
  total = some 10;
  status = status;
  ended_at_ms = ended;
  path = none;
  detail = none;
}

abbrev file_rows : List Entry
file_rows =
    row "a" 7 downloading none
    ∷ row "b" 9 downloading none
    ∷ row "c" 7 failed (some 1500)
    ∷ row "c" 7 failed (some 900)
    ∷ []

abbrev world : World
world = record { rows = file_rows; pending = [] }

abbrev any_row : Entry → Bool
any_row e = true

abbrev bad_io : Io
bad_io = record good_io { written = false }

bad_io-WriteFails : WriteFails bad_io
bad_io-WriteFails = record { readable_ok = λ es. refl; no_write = refl }

one_live : length (read_live "/m" os good_io world).0 ≡ 1
unfolding read_live read_all reads_before sort insert with_ledger try_locks drain forget sweep
    sweep_entry sweeps is_stale lockless_expired entry_process_alive pid_alive retain prune any
    stale_detail same_status same_incarnation
one_live = refl

read_live_exact_example :
    length (retain any_row (read_live "/m" os good_io world).0)
    ≡ length (retain (λ e. any_row e && is_live e && not (is_stale os e)) file_rows)
read_live_exact_example = read_live_exact "/m" os good_io file_rows any_row good_io-Healthy

prune_bounds_example :
    (retain is_live (prune file_rows) ≡ retain is_live file_rows)
    × (length (retain is_terminal (prune file_rows)) ≤ max_terminal_entries)
prune_bounds_example = prune_bounds file_rows

claim_start-own_row_example :
    ((claim_start "/m" os good_io "o/r" "a" (record { world = world; active = [] })).0
      ≡ claimed ("/m", "o/r", "a"))
    × (retain
          (is_own 7 "o/r" "a")
          (claim_start "/m" os good_io "o/r" "a"
            (record { world = world; active = [] })).1.world.rows
        ≡ new_row os "o/r" "a" ∷ [])
unfolding any
claim_start-own_row_example =
    claim_start-own_row "/m" os good_io "o/r" "a" file_rows [] good_io-Healthy refl

abbrev key : ClaimKey
key = ("/m", "o/r", "a")

abbrev calls : List Call
calls =
    start_call os bad_io key
    ∷ start_call os good_io key
    ∷ end_call os bad_io key (LedgerEnd.done "/m/a") none
    ∷ start_call os good_io key
    ∷ drop_call os good_io key
    ∷ []

calls_answered : spec_answers calls (λ k. false) ≡ false ∷ true ∷ false ∷ false ∷ false ∷ []
unfolding spec_answers spec same_key
calls_answered = refl

answers_refine_example :
    answers calls (record { world = world; active = [] }) ≡ spec_answers calls (λ k. false)
unfolding Holds any
answers_refine_example =
    answers_refine calls (record { world = world; active = [] }) (λ k. false) (λ k. refl)

terminal_survives_example :
    (read_all "/m" os good_io (
      reads "/m"
        ((os, bad_io) ∷ [])
        (record_end "/m" os bad_io "o/r" "a" (LedgerEnd.done "/m/a") none world))).1
    ≡ record {
      rows = prune (sweep os (ended_rows os "o/r" "a" (LedgerEnd.done "/m/a") none file_rows));
      pending = [];
    }
unfolding FailedReads any is_own same_status
terminal_survives_example =
    terminal_survives "/m" os "o/r" "a" (LedgerEnd.done "/m/a") none file_rows refl bad_io
      ((os, bad_io) ∷ []) os good_io bad_io-WriteFails ((refl, bad_io-WriteFails), tt) refl
      good_io-Healthy

overwrite-Newest_example :
    ((any (is_of_attempt os "o/r" "c" 1000) (sweep os file_rows) ≡ false)
      × ((overwrite_last_failed_to_cancelled "/m" os good_io "o/r" "c" 1000 world).rows
          ≡ (if sweeps os file_rows then prune (sweep os file_rows) else file_rows)))
    ⊎ ((changed : List Entry) × ((overwrite_last_failed_to_cancelled "/m" os good_io "o/r" "c" 1000
            world).rows
          ≡ prune changed)
        × Newest
            (is_of_attempt os "o/r" "c" 1000)
            (λ e. unwrap_or 0 e.ended_at_ms)
            cancel_entry
            (sweep os file_rows)
            changed)
overwrite-Newest_example = overwrite-Newest "/m" os good_io "o/r" "c" 1000 file_rows good_io-Healthy
