-- ===== src/Ledger/Rows.antt =====
-- The rows of the ledger in src/catalog/ledger.rs: the sweep, the pruning, and the terminal write.
use higgs.Base.Sort.{sort}
use higgs.Base.{
  string_eq, nat_eq, ◌==◌, any, retain, length, if◌then◌else◌, ltb, map, ◌∷◌, [], List, some, none,
  Option, ◌||◌, ◌&&◌, not, false, true, Bool, String, ◌-◌, suc, zero, ℕ,
}
use higgs.Ledger.{
  Status, lockless_row_max_age_ms, Counters, unwrap_or, is_live, entry_process_alive,
  max_terminal_entries, Os, LedgerEnd, Entry,
}

-- The test by which a process finds its own live row for a key.
unfoldable pub is_own : ℕ → String → String → Entry → Bool
is_own own repo file e = is_live e && e.pid == own && e.repo == repo && e.file == file

-- `entries.iter_mut().find(test)` and a write to what it found: the entries, and whether one was.
unfoldable pub update_first : (Entry → Bool) → (Entry → Entry) → List Entry → List Entry × Bool
update_first test f [] = ([], false)
update_first test f (e ∷ es) =
    let (rest, found) = update_first test f es in
    if test e then (f e ∷ es, true) else (e ∷ rest, found)

with_end : LedgerEnd → Entry → Entry
with_end (LedgerEnd.done p) e = record e { status = Status.done; path = some p }
with_end (LedgerEnd.failed d) e = record e { status = Status.failed; detail = some d }
with_end LedgerEnd.cancelled e = record e { status = Status.cancelled }

with_counters : Option Counters → Entry → Entry
with_counters none e = e
with_counters (some (d, t)) e = record e { downloaded = d; total = t }

-- The terminal write of `record_end`, and of the drain.
unfoldable pub terminate : LedgerEnd → Option Counters → ℕ → Entry → Entry
unfolding with_end with_counters
terminate end counters at e =
    with_end end (with_counters counters (record e { ended_at_ms = some at }))

-- The three tests of the sweep.
unfoldable pub lockless_expired : Os → Entry → Bool
lockless_expired os e =
    not (os.lock_file_exists e.repo e.file)
    && ltb lockless_row_max_age_ms (os.now_ms - e.started_at_ms)

unfoldable pub is_stale : Os → Entry → Bool
is_stale os e =
    not (entry_process_alive os e) || os.is_key_stale e.repo e.file || lockless_expired os e

unfoldable pub stale_detail : Os → Entry → String
stale_detail os e =
    if not (entry_process_alive os e)
    then "downloader process exited"
    else if os.is_key_stale e.repo e.file
    then "downloader released the machine lock without recording a terminal"
    else "stale lockless entry (pre-lock build or interrupted writer)"

unfoldable pub sweep_entry : Os → Entry → Entry
unfolding stale_detail
sweep_entry os e =
    if not (is_live e)
    then e
    else if is_stale os e
    then record e {
      status = Status.failed;
      ended_at_ms = some os.now_ms;
      detail = some (stale_detail os e);
    }
    else e

-- The sweep of `with_ledger`, and whether it changed a row.
unfoldable pub sweep : Os → List Entry → List Entry
sweep os = map (sweep_entry os)

unfoldable pub sweeps : Os → List Entry → Bool
sweeps os = any (λ e. is_live e && is_stale os e)

abbrev pub is_terminal : Entry → Bool
is_terminal e = not (is_live e)

-- Newest ended first.
unfoldable pub ended_later : Entry → Entry → Bool
ended_later a b = ltb (unwrap_or 0 b.ended_at_ms) (unwrap_or 0 a.ended_at_ms)

unfoldable pub drop : ℕ → List Entry → List Entry
drop zero es = es
drop (suc n) [] = []
drop (suc n) (e ∷ es) = drop n es

-- Whether a row of the cut has the key and start of `e`.
unfoldable pub is_cut : List Entry → Entry → Bool
is_cut cut e =
    any (λ c. c.repo == e.repo && c.file == e.file && c.started_at_ms == e.started_at_ms) cut

-- The pruning of terminal history.
unfoldable pub prune : List Entry → List Entry
prune es =
    let terminal = retain is_terminal es in
    if ltb max_terminal_entries (length terminal)
    then (let cut = drop max_terminal_entries (sort ended_later terminal) in
        retain (λ e. is_live e || not (is_cut cut e)) es)
    else es
