-- ===== src/Supervisor/Replay.antt =====
-- The replay of the last load after a restart in src/supervisor.rs: `record_last_load`,
-- `clear_last_load` and `replay_load`, interleaved at each access to what they share. A replay has an
-- identity; its load and what comes of it are not modelled.
use higgs.Base.Assoc.{get, insert, remove}
pub mod Current
mod Examples
use higgs.Base.{
  string_eq, nat_eq, ◌==◌, if◌then◌else◌, ◌∷◌, [], List, some, none, Option, ◌&&◌, not, false, Bool,
  ◌-◌, ◌+◌, ℕ,
}

-- Where a replay stands: it has cloned the parameters, then read the epoch; its task has then seen that
-- the worker is not stopped, and that the epoch is still the same.
pub data Replay (L : Type 0) : Type 0 where
  cloned : L → Replay L
  captured willing : L → ℕ → Replay L
  current : L → Replay L

-- `unbumped` are the writes of `last_load` whose epoch is still to come; `sent` are the loads that
-- replays have sent, the last first.
pub record Loads (L : Type 0) : Type 0 where
  pub last_load : Option L
  pub load_epoch : ℕ
  pub stopped : Bool
  pub unbumped : ℕ
  pub replays : List (ℕ × Replay L)
  pub sent : List L

-- The accesses: a load or an unload writes `last_load`, then bumps the epoch; a replay clones, captures
-- and its task looks at `stopped`, looks at the epoch and sends; `stop` and `start` write `stopped`.
pub data Access (L : Type 0) : Type 0 where
  write : Option L → Access L
  bump : Access L
  clone capture look_stopped look_epoch send : ℕ → Access L
  flag : Bool → Access L

module _ {L : Type 0} where
  abbrev pub no_loads : Loads L
  no_loads = record {
    last_load = none;
    load_epoch = 0;
    stopped = false;
    unbumped = 0;
    replays = [];
    sent = [];
  }

  -- `let Some(load_params) = ... else { return }`
  unfoldable pub clone_as : ℕ → Option L → Loads L → Loads L
  unfolding insert
  clone_as id none s = s
  clone_as id (some params) s = record s { replays = insert id (cloned params) s.replays }

  unfoldable pub capture_as : ℕ → Option (Replay L) → Loads L → Loads L
  unfolding insert
  capture_as id none s = s
  capture_as id (some (cloned params)) s = record s {
    replays = insert id (captured params s.load_epoch) s.replays;
  }
  capture_as id (some _) s = s

  -- The task returns when the worker was stopped.
  unfoldable pub look_stopped_as : ℕ → Option (Replay L) → Loads L → Loads L
  unfolding insert remove
  look_stopped_as id (some (captured params epoch)) s =
      if s.stopped
      then record s { replays = remove id s.replays }
      else record s { replays = insert id (willing params epoch) s.replays }
  look_stopped_as id _ s = s

  -- The task returns when the epoch is another.
  unfoldable pub look_epoch_as : ℕ → Option (Replay L) → Loads L → Loads L
  unfolding insert remove
  look_epoch_as id (some (willing params epoch)) s =
      if s.load_epoch == epoch
      then record s { replays = insert id (current params) s.replays }
      else record s { replays = remove id s.replays }
  look_epoch_as id _ s = s

  unfoldable pub send_as : ℕ → Option (Replay L) → Loads L → Loads L
  unfolding remove
  send_as id (some (current params)) s = record s {
    replays = remove id s.replays;
    sent = params ∷ s.sent;
  }
  send_as id _ s = s

  unfoldable pub access : Access L → Loads L → Loads L
  unfolding clone_as capture_as look_stopped_as look_epoch_as send_as get
  access (write load) s = record s { last_load = load; unbumped = s.unbumped + 1 }
  access bump s =
      if s.unbumped == 0
      then s
      else record s { load_epoch = s.load_epoch + 1; unbumped = s.unbumped - 1 }
  access (clone id) s = clone_as id s.last_load s
  access (capture id) s = capture_as id (get id s.replays) s
  access (look_stopped id) s = look_stopped_as id (get id s.replays) s
  access (look_epoch id) s = look_epoch_as id (get id s.replays) s
  access (send id) s = send_as id (get id s.replays) s
  access (flag b) s = record s { stopped = b }

  -- The state after accesses, the last of which stands first.
  unfoldable pub after : List (Access L) → Loads L
  unfolding access
  after [] = no_loads
  after (a ∷ past) = access a (after past)
