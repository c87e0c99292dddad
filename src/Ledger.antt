-- ===== src/Ledger.antt =====
-- src/catalog/ledger.rs: the machine's downloads ledger, and DownloadLedgerEntry and
-- DownloadLedgerStatus of src/catalog/wire.rs. What the operating system answers (processes, locks,
-- the clock) is a record of arguments, `Os`. The modules below have the sweep and the pruning of rows
-- (Rows), one pass under the file lock (Pass), the claims of a process (Claims) and the cancel of an
-- attempt (Attempts); the others are about them: Pruning, Sweeping, Healthy (passes without a
-- failure), OwnRow (what a claim writes), Gate (the active claims) and Terminals (the queue of
-- unwritten ends).
pub mod Rows
pub mod Pass
pub mod Claims
pub mod Healthy
pub mod Pruning
pub mod Sweeping
pub mod OwnRow
pub mod Gate
pub mod Terminals
pub mod Attempts
mod Examples
use higgs.Base.{
  string_eq, nat_eq, ◌==◌, if◌then◌else◌, leb, some, none, Option, not, false, true, Bool, String,
  ◌^◌, ◌*◌, ℕ,
}

pub data Status : Type 0 where
  downloading done failed cancelled : Status

unfoldable pub same_status : Status → Status → Bool
same_status downloading downloading = true
same_status done done = true
same_status failed failed = true
same_status cancelled cancelled = true
same_status _ _ = false

pub record Entry : Type 0 where
  pub repo : String
  pub file : String
  pub pid : ℕ
  pub pid_started_at : Option ℕ
  pub started_at_ms : ℕ
  pub downloaded : ℕ
  pub total : Option ℕ
  pub status : Status
  pub ended_at_ms : Option ℕ
  pub path : Option String
  pub detail : Option String

pub data LedgerEnd : Type 0 where
  done : String → LedgerEnd
  failed : String → LedgerEnd
  cancelled : LedgerEnd

-- What the operating system answers during one pass.
pub record Os : Type 0 where
  pub own : ℕ
  pub kill_reaches : ℕ → Bool
  pub pid_start_time : ℕ → Option ℕ
  pub lock_file_exists : String → String → Bool
  pub is_key_stale : String → String → Bool
  pub now_ms : ℕ

-- LOCKLESS_ROW_MAX_AGE_MS
abbrev pub lockless_row_max_age_ms : ℕ
lockless_row_max_age_ms = 24 * 60 * 60 * 1000

-- MAX_TERMINAL_ENTRIES
abbrev pub max_terminal_entries : ℕ
max_terminal_entries = 50

-- pid_alive: what is not a positive pid_t (an i32) is dead and is not probed.
unfoldable pub pid_alive : Os → ℕ → Bool
pid_alive os pid =
    if leb (2 ^ 31) pid then false else if pid == 0 then false else os.kill_reaches pid

unfoldable pub same_incarnation : Option ℕ → Option ℕ → Bool
same_incarnation (some recorded) (some current) = recorded == current
same_incarnation _ _ = true

-- entry_process_alive
unfoldable pub entry_process_alive : Os → Entry → Bool
unfolding same_incarnation
entry_process_alive os e =
    if not (pid_alive os e.pid)
    then false
    else same_incarnation e.pid_started_at (os.pid_start_time e.pid)

abbrev pub is_live : Entry → Bool
is_live e = same_status e.status downloading

-- Option::unwrap_or
abbrev pub unwrap_or : ℕ → Option ℕ → ℕ
unwrap_or d none = d
unwrap_or d (some n) = n

-- One transfer's last counters: bytes so far, and the total if it is known.
abbrev pub Counters : Type 0
Counters = ℕ × Option ℕ
