-- ===== src/Supervisor.antt =====
-- The request path of src/supervisor.rs under the death of its worker: `send_request` with its
-- timeouts, the responses that the reader delivers, `on_worker_death` and `install_writer`. Each
-- takes a lock several times, and between two of them every other task may run: the steps between
-- locks are the constructors of `Step`.
use higgs.Base.Assoc.{get, insert, remove, get-insert, get-remove}
use higgs.Demux.{
  ReplyDemux, Reply, register_pending, remove_pending, correlate, fail_all_pending, clear_sinks,
  waiting, cancelled, answered,
}
pub mod Waits
pub mod Death
pub mod Lifecycle
pub mod Replay
mod Examples
use higgs.Base.{
  ◌&&◌, string_eq, nat_eq, if◌then◌else◌, ◌++◌, ◌∷◌, [], List, some, none, Option, false, true,
  Bool, ℕ,
}

-- What the tasks around one worker share: the demultiplexer, and whether `write_tx` is installed.
-- `sending` are the callers between the registration of their waiter and the send, by request id;
-- `awaited` are the waiters of the callers that sent and now await their response; `refused` are
-- those whose send failed.
pub record Inner (R : Type 0) : Type 0 where
  pub demux : ReplyDemux R
  pub write_tx : Bool
  pub sending : List (ℕ × ℕ)
  pub awaited : List ℕ
  pub refused : List ℕ

pub data Step (R : Type 0) : Type 0 where
  register : ℕ → Step R
  transmit : ℕ → Bool → Step R
  withdraw : ℕ → Step R
  respond : ℕ → R → Step R
  install_writer : Step R
  clear_write_tx : Step R
  fail_pending : Step R
  drop_sinks : Step R

module _ {R : Type 0} where
  -- The send of `send_request`: it fails when no writer is installed, or its task has ended.
  unfoldable pub transmit_as : ℕ → Bool → Option ℕ → Inner R → Inner R
  transmit_as id alive none s = s
  transmit_as id alive (some k) s =
      if s.write_tx && alive
      then record s { sending = remove id s.sending; awaited = k ∷ s.awaited }
      else record s { sending = remove id s.sending; refused = k ∷ s.refused }

  unfoldable pub step : Step R → Inner R → Inner R
  unfolding transmit_as
  step (register id) s =
      let (k, demux) = register_pending id s.demux in
      record s { demux = demux; sending = insert id k s.sending }
  step (transmit id alive) s = transmit_as id alive (get id s.sending) s
  -- `remove_pending` of a caller whose send failed, or who timed out
  step (withdraw id) s = record s { demux = remove_pending id s.demux }
  step (respond id resp) s = record s { demux = correlate id resp s.demux }
  step install_writer s = record s { write_tx = true }
  step clear_write_tx s = record s { write_tx = false }
  step fail_pending s = record s { demux = fail_all_pending s.demux }
  step drop_sinks s = record s { demux = clear_sinks s.demux }

  unfoldable pub run : List (Step R) → Inner R → Inner R
  run [] s = s
  run (op ∷ ops) s = run ops (step op s)

  -- on_worker_death, with what the other tasks do between its steps and after them
  unfoldable pub on_worker_death : List (Step R) → List (Step R) → List (Step R) → List (Step R)
  on_worker_death first second third =
      clear_write_tx ∷ first ++ fail_pending ∷ second ++ drop_sinks ∷ third

  -- Supervisor as `new` leaves it
  abbrev pub new : Inner R
  new = record {
    demux = higgs.Demux.new;
    write_tx = false;
    sending = [];
    awaited = [];
    refused = [];
  }
