-- ===== src/Ledger/Claims.antt =====
-- The claims and the writes of src/catalog/ledger.rs: `claim_start`, `record_progress`,
-- `record_end`, the end and the drop of a claim, the cancel reconciliation and the readers.
use higgs.Base.Sort.{sort}
use higgs.Base.{
  string_eq, nat_eq, ◌==◌, any, retain, if◌then◌else◌, ltb, ◌++◌, ◌∷◌, [], List, none, Option, ◌||◌,
  ◌&&◌, not, false, true, Bool, String, ◌^◌, ◌-◌,
}
use higgs.Ledger.Pass.{
  with_ledger, io_error, refused, Outcome, mutated, Mutation, World, PendingTerminal, Io, ok,
}
use higgs.Ledger.{Status, Counters, unwrap_or, is_live, entry_process_alive, Os, LedgerEnd, Entry}
use higgs.Ledger.Rows.{terminate, update_first, is_own}

abbrev pub ClaimKey : Type 0
ClaimKey = String × String × String

unfoldable pub same_key : ClaimKey → ClaimKey → Bool
same_key a b = a.0 == b.0 && a.1 == b.1 && a.2 == b.2

-- One process at one models root: the ledger, and the active claims of the process.
pub record Process : Type 0 where
  pub world : World
  pub active : List ClaimKey

-- How `claim_start` answers: a claim, or HG090.
pub data Claim : Type 0 where
  claimed : ClaimKey → Claim
  in_flight : Claim

abbrev pub new_row : Os → String → String → Entry
new_row os repo file = record {
  repo = repo;
  file = file;
  pid = os.own;
  pid_started_at = os.pid_start_time os.own;
  started_at_ms = os.now_ms;
  downloaded = 0;
  total = none;
  status = Status.downloading;
  ended_at_ms = none;
  path = none;
  detail = none;
}

-- The rows that `claim_start` purges: our own leftovers for the key, and those of dead processes.
unfoldable pub is_leftover : Os → String → String → Entry → Bool
is_leftover os repo file e =
    is_live e
    && e.repo == repo
    && e.file == file
    && (e.pid == os.own || not (entry_process_alive os e))

unfoldable pub start_row : Os → String → String → List Entry → Mutation (Unit {0})
start_row os repo file es =
    mutated tt (retain (λ e. not (is_leftover os repo file e)) es ++ new_row os repo file ∷ []) true

-- The file refused (which releases the key), or it was written or unavailable (which does not).
unfoldable pub answer : ClaimKey → List ClaimKey → Outcome (Unit {0}) × World → Claim × Process
answer key active (refused, w) =
    (in_flight, record { world = w; active = retain (λ k. not (same_key k key)) active })
answer key active (ok v, w) = (claimed key, record { world = w; active = active })
answer key active (io_error, w) = (claimed key, record { world = w; active = active })

-- claim_start
unfoldable pub claim_start : String → Os → Io → String → String → Process → Claim × Process
unfolding answer
claim_start root os io repo file p =
    let key : ClaimKey = (root, repo, file) in
    if any (λ k. same_key k key) p.active
    then (in_flight, p)
    else answer key (key ∷ p.active) (with_ledger root os io (start_row os repo file) p.world)

progress_row : Os → String → String → Counters → List Entry → Mutation (Unit {0})
progress_row os repo file (downloaded, total) es =
    let (es', found) =
      update_first (is_own os.own repo file)
        (λ e. record e { downloaded = downloaded; total = total }) es in
    mutated tt es' found

-- record_progress
unfoldable pub record_progress : String → Os → Io → String → String → Counters → World → World
unfolding progress_row
record_progress root os io repo file counters w =
    (with_ledger root os io (progress_row os repo file counters) w).1

end_row : Os → String → String → LedgerEnd → Option Counters → List Entry → Mutation (Unit {0})
end_row os repo file end counters es =
    let (es', found) =
      update_first (is_own os.own repo file) (terminate end counters os.now_ms) es in
    mutated tt es' found

abbrev pub queued : String → Os → String → String → LedgerEnd → Option Counters → PendingTerminal
queued root os repo file end counters = record {
  models_root = root;
  repo = repo;
  file = file;
  end = end;
  final_counters = counters;
  ended_at_ms = os.now_ms;
  pid = os.own;
}

queue_if_failed : PendingTerminal → Outcome (Unit {0}) × World → World
queue_if_failed p (io_error, w) = record w { pending = w.pending ++ p ∷ [] }
queue_if_failed p (ok v, w) = w
queue_if_failed p (refused, w) = w

-- record_end
unfoldable pub record_end :
    String → Os → Io → String → String → LedgerEnd → Option Counters → World → World
unfolding end_row queue_if_failed
record_end root os io repo file end counters w =
    queue_if_failed (queued root os repo file end counters)
      (with_ledger root os io (end_row os repo file end counters) w)

-- LedgerClaim::end; a drop with no end is the end with `cancelled` and no counters.
unfoldable pub end_claim : ClaimKey → Os → Io → LedgerEnd → Option Counters → Process → Process
end_claim (root, repo, file) os io end counters p = record {
  world = record_end root os io repo file end counters p.world;
  active = retain (λ k. not (same_key k (root, repo, file))) p.active;
}

-- <LedgerClaim as Drop>::drop of a claim that was not ended
unfoldable pub drop_claim : ClaimKey → Os → Io → Process → Process
drop_claim key os io p = end_claim key os io LedgerEnd.cancelled none p

-- read_all: live rows first, then the newest ended.
unfoldable pub reads_before : Entry → Entry → Bool
reads_before a b =
    if is_live a
    then not (is_live b)
      || ltb (unwrap_or (2 ^ 64 - 1) b.ended_at_ms) (unwrap_or (2 ^ 64 - 1) a.ended_at_ms)
    else not (is_live b)
      && ltb (unwrap_or (2 ^ 64 - 1) b.ended_at_ms) (unwrap_or (2 ^ 64 - 1) a.ended_at_ms)

rows_read : Outcome (List Entry) → List Entry
rows_read (ok es) = sort reads_before es
rows_read refused = []
rows_read io_error = []

unfoldable pub read_all : String → Os → Io → World → List Entry × World
unfolding rows_read reads_before
read_all root os io w =
    let (r, w') = with_ledger root os io (λ es. mutated es es false) w in (rows_read r, w')

-- read_live
unfoldable pub read_live : String → Os → Io → World → List Entry × World
read_live root os io w = let (es, w') = read_all root os io w in (retain is_live es, w')
