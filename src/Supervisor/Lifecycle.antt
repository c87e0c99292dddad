-- ===== src/Supervisor/Lifecycle.antt =====
-- The life of a worker process in src/supervisor.rs: `do_spawn`, `stop`, and `reader_task` with
-- `attempt_restart`, interleaved at each access to what they share. There is one caller of `do_spawn`
-- and `stop`, which the program's callers ensure; readers of earlier starts may still run. A process
-- is one that the factory made and nobody has waited for; what the factory answers is an argument of
-- a step.
use higgs.Base.Assoc.{get}
pub mod Readers
pub mod Quiet
pub mod Stopped
pub mod Owned
pub mod Onward
pub mod Lists
pub mod Moving
pub mod Change
pub mod Calling
pub mod Halts
pub mod Leaks
mod Examples
use higgs.Base.{
  string_eq, nat_eq, ◌==◌, if◌then◌else◌, ◌∷◌, [], List, some, none, Option, ◌||◌, false, true,
  Bool, ◌-◌, ◌+◌, ℕ,
}

pub data Event : Type 0 where
  worker_died worker_restarted : Event

-- Where the caller stands: in do_spawn behind the swap of `running`, the reset of `stopped`, the new
-- generation, the factory, the store in `proc` and the new `write_tx`; in stop behind the flag, the
-- dropped sender, the lock of `proc` with what it takes from there, and the reaping.
pub data Caller : Type 0 where
  idle claimed unflagged : Caller
  bumped built stored wired : ℕ → Caller
  flagged unwired : Caller
  reaping : Bool → Caller
  reaped : Caller

-- Where a reader stands in reader_task and attempt_restart, by what it does next.
pub data Pc : Type 0 where
  reading check_generation check_stopped : Pc
  die : Bool → Pc
  announce_death wake recheck_generation spawn guard_stopped abandon : Pc
  lock_proc recheck_stopped replace wire_writer announce_restart : Pc
  lock_old reap_old give_up leave gone : Pc

-- Inner, with a count of the processes; `proc` and `write_tx` are whether they hold one. The readers
-- stand by their generation.
pub record Sup : Type 0 where
  pub generation : ℕ
  pub stopped : Bool
  pub running : Bool
  pub write_tx : Bool
  pub proc : Bool
  pub processes : ℕ
  pub events : List Event
  pub caller : Caller
  pub readers : List (ℕ × Pc)

unfoldable pub caller_locks : Caller → Bool
caller_locks (reaping _) = true
caller_locks reaped = true
caller_locks _ = false

unfoldable pub reader_locks : Pc → Bool
reader_locks recheck_stopped = true
reader_locks replace = true
reader_locks reap_old = true
reader_locks _ = false

unfoldable pub some_reader_locks : List (ℕ × Pc) → Bool
unfolding reader_locks
some_reader_locks [] = false
some_reader_locks ((_, pc) ∷ readers) = reader_locks pc || some_reader_locks readers

-- The lock of `proc` is held by whoever stands where the code holds its guard.
unfoldable pub proc_locked : Sup → Bool
unfolding caller_locks some_reader_locks
proc_locked s = caller_locks s.caller || some_reader_locks s.readers

abbrev pub count : Bool → ℕ
count b = if b then 1 else 0

-- A process has been waited for.
abbrev pub reap : Bool → ℕ → ℕ
reap b n = n - count b

-- do_spawn from its first access, if the caller is free
unfoldable pub begin_start : Caller → Sup → Sup
begin_start idle s = if s.running then s else record s { running = true; caller = claimed }
begin_start _ s = s

-- stop from its first access
unfoldable pub begin_stop : Caller → Sup → Sup
begin_stop idle s = record s { stopped = true; caller = flagged }
begin_stop _ s = s

-- The next access of do_spawn; `ok` is the answer of the factory.
unfoldable pub start_on : Bool → Caller → Sup → Sup
unfolding proc_locked
start_on ok claimed s = record s { stopped = false; caller = unflagged }
start_on ok unflagged s = record s {
  generation = s.generation + 1;
  caller = bumped (s.generation + 1);
}
start_on ok (bumped gen) s =
    if ok
    then record s { processes = s.processes + 1; caller = built gen }
    else record s { running = false; caller = idle }
-- try_lock: without the lock, the handle is dropped and the process stays
start_on ok (built gen) s =
    if proc_locked s
    then record s { caller = stored gen }
    else record s { proc = true; caller = stored gen }
start_on ok (stored gen) s = record s { write_tx = true; caller = wired gen }
start_on ok (wired gen) s = record s { readers = (gen, reading) ∷ s.readers; caller = idle }
start_on ok _ s = s

-- The next access of stop, after the request to shut down, which changes nothing here.
unfoldable pub stop_on : Caller → Sup → Sup
unfolding proc_locked
stop_on flagged s = record s { write_tx = false; caller = unwired }
stop_on unwired s = if proc_locked s then s else record s { proc = false; caller = reaping s.proc }
stop_on (reaping child) s = record s { processes = reap child s.processes; caller = reaped }
stop_on reaped s = record s { running = false; caller = idle }
stop_on _ s = s

unfoldable pub in_stop : Caller → Bool
in_stop flagged = true
in_stop unwired = true
in_stop (reaping _) = true
in_stop reaped = true
in_stop _ = false

-- The next access of the caller.
unfoldable pub go_on : Bool → Caller → Sup → Sup
unfolding start_on stop_on in_stop
go_on ok c s = if in_stop c then stop_on c s else start_on ok c s

-- The next access of the reader of generation `gen`, and where it stands then.
unfoldable pub read_on : ℕ → Bool → Pc → Sup → Pc × Sup
unfolding proc_locked
read_on gen ok reading s = (check_generation, s)
read_on gen ok check_generation s = (if s.generation == gen then check_stopped else gone, s)
read_on gen ok check_stopped s = (die s.stopped, s)
read_on gen ok (die deliberate) s =
    (if deliberate then leave else announce_death, record s { write_tx = false })
read_on gen ok announce_death s = (wake, record s { events = worker_died ∷ s.events })
read_on gen ok wake s = (if s.stopped then leave else recheck_generation, s)
read_on gen ok recheck_generation s = (if s.generation == gen then spawn else gone, s)
read_on gen ok spawn s =
    if ok then (guard_stopped, record s { processes = s.processes + 1 }) else (lock_old, s)
read_on gen ok guard_stopped s = (if s.stopped then abandon else lock_proc, s)
read_on gen ok abandon s = (leave, record s { processes = reap true s.processes })
read_on gen ok lock_proc s = (if proc_locked s then lock_proc else recheck_stopped, s)
read_on gen ok recheck_stopped s = (if s.stopped then abandon else replace, s)
read_on gen ok replace s =
    (wire_writer, record s { processes = reap s.proc s.processes; proc = true })
read_on gen ok wire_writer s = (announce_restart, record s { write_tx = true })
read_on gen ok announce_restart s = (reading, record s { events = worker_restarted ∷ s.events })
read_on gen ok lock_old s = (if proc_locked s then lock_old else reap_old, s)
read_on gen ok reap_old s =
    (give_up, record s { processes = reap s.proc s.processes; proc = false })
read_on gen ok give_up s = (leave, record s { events = worker_died ∷ s.events })
read_on gen ok leave s = (gone, record s { running = false })
read_on gen ok gone s = (gone, s)

unfoldable pub moved : ℕ → Pc → List (ℕ × Pc) → List (ℕ × Pc)
moved gen pc [] = []
moved gen pc ((g, p) ∷ readers) =
    let rest = moved gen pc readers in if g == gen then (g, pc) ∷ readers else (g, p) ∷ rest

unfoldable pub reader_step : ℕ → Bool → Option Pc → Sup → Sup
unfolding read_on moved
reader_step gen ok none s = s
reader_step gen ok (some pc) s =
    let (next, t) = read_on gen ok pc s in record t { readers = moved gen next s.readers }

pub data Action : Type 0 where
  start stop : Action
  caller : Bool → Action
  reader : ℕ → Bool → Action

unfoldable pub act : Action → Sup → Sup
unfolding begin_start begin_stop go_on reader_step get
act start s = begin_start s.caller s
act stop s = begin_stop s.caller s
act (caller ok) s = go_on ok s.caller s
act (reader gen ok) s = reader_step gen ok (get gen s.readers) s

unfoldable pub act_all : List Action → Sup → Sup
unfolding act
act_all [] s = s
act_all (a ∷ actions) s = act_all actions (act a s)

-- Supervisor::new
abbrev pub fresh : Sup
fresh = record {
  generation = 0;
  stopped = false;
  running = false;
  write_tx = false;
  proc = false;
  processes = 0;
  events = [];
  caller = idle;
  readers = [];
}
