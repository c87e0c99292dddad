-- ===== src/Supervisor/Replay/Examples.antt =====
-- A replay while another load is being recorded, and one that a whole load has overtaken.
use higgs.Base.Assoc.{get, insert, remove}
use higgs.Supervisor.Replay.{
  after, access, send_as, look_epoch_as, look_stopped_as, capture_as, clone_as, send, look_epoch,
  look_stopped, capture, clone, bump, write, flag, Access,
}
use higgs.Base.{string_eq, nat_eq, ◌∷◌, [], List, some, true, refl, ◌≡◌, ℕ}
use higgs.Supervisor.Replay.Current.{replay_current, Seen}

-- The last access first: the worker is stopped and 6 is recorded between the look at the epoch and the
-- send of 5.
abbrev one_load : List (Access ℕ)
one_load =
    write (some 6)
    ∷ flag true
    ∷ look_epoch 1
    ∷ look_stopped 1
    ∷ capture 1
    ∷ clone 1
    ∷ bump
    ∷ write (some 5)
    ∷ []

replay_current_example : Seen 1 5 one_load
unfolding after access clone_as capture_as look_stopped_as look_epoch_as send_as get insert remove
replay_current_example = replay_current one_load 1 5 refl

-- The load of 6 is recorded between the clone of 5 and the capture of the epoch: 5 is sent all the same.
abbrev overtaken : List (Access ℕ)
overtaken =
    send 1
    ∷ look_epoch 1
    ∷ look_stopped 1
    ∷ capture 1
    ∷ bump
    ∷ write (some 6)
    ∷ clone 1
    ∷ bump
    ∷ write (some 5)
    ∷ []

stale_load_sent :
    ((after overtaken).sent ≡ 5 ∷ [])
    × ((after overtaken).last_load ≡ some 6)
    × ((after overtaken).unbumped ≡ 0)
unfolding after access clone_as capture_as look_stopped_as look_epoch_as send_as get insert remove
stale_load_sent = (refl, refl, refl)
