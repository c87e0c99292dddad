-- ===== src/Supervisor/Lifecycle/Examples.antt =====
-- A stop that meets a restart, and the start that overlaps the restart of an earlier worker.
use higgs.Base.Assoc.{get}
use higgs.Supervisor.Lifecycle.{
  in_stop, stop_on, start_on, caller_locks, fresh, act_all, act, reader, caller, stop, start,
  Action, reader_step, moved, read_on, go_on, begin_stop, begin_start, proc_locked,
  some_reader_locks, reader_locks,
}
use higgs.Base.{string_eq, nat_eq, ◌++◌, ◌∷◌, [], List, false, true, refl, ◌≡◌, suc, zero, ℕ}
use higgs.Supervisor.Lifecycle.Stopped.{stopped_for_good, is_start}
use higgs.Supervisor.Lifecycle.Owned.{
  calm, calm_step, early, all_settled, settled, owners, hands, reader_hand, caller_hand,
}
use higgs.Supervisor.Lifecycle.Leaks.{no_process_left}

abbrev times : ℕ → Action → List Action
times zero a = []
times (suc n) a = a ∷ times n a

-- The worker of the first start has died, and its reader has spawned another.
abbrev restarting : List Action
restarting = start ∷ times 6 (caller true) ++ times 8 (reader 1 true)

abbrev until_reaped : List Action
until_reaped = restarting ++ stop ∷ times 3 (caller true)

abbrev to_the_end : List Action
to_the_end = reader 1 true ∷ caller true ∷ times 3 (reader 1 true)

stopped_for_good_example : (act_all to_the_end (act_all until_reaped fresh)).proc ≡ false
unfolding act_all act begin_start begin_stop go_on start_on stop_on in_stop reader_step read_on
    moved get is_start proc_locked caller_locks some_reader_locks reader_locks
stopped_for_good_example =
    stopped_for_good until_reaped to_the_end refl (refl, (refl, (refl, (refl, (refl, tt)))))

no_process_left_example : (act_all (until_reaped ++ to_the_end) fresh).processes ≡ 0
unfolding act_all act begin_start begin_stop go_on start_on stop_on in_stop reader_step read_on
    moved get is_start proc_locked caller_locks some_reader_locks reader_locks calm calm_step
    all_settled settled early
no_process_left_example =
    no_process_left until_reaped to_the_end refl refl (refl, (refl, (refl, (refl, (refl, tt)))))
      refl refl

two_processes : (act_all restarting fresh).processes ≡ 2
unfolding act_all act begin_start go_on start_on stop_on in_stop reader_step read_on moved get
    proc_locked caller_locks some_reader_locks reader_locks
two_processes = refl

-- The reader of the first worker takes the lock when the next start has reset `stopped`; the start finds
-- the lock taken and drops the handle of its process, which nothing holds any more.
abbrev overlapping : List Action
overlapping =
    restarting
    ++ reader 1 true ∷ stop ∷ times 4 (caller true)
    ++ start ∷ times 2 (caller true)
    ++ times 2 (reader 1 true)
    ++ times 4 (caller true)
    ++ times 3 (reader 1 true)

process_lost :
    ((act_all overlapping fresh).processes ≡ 2)
    × ((owners (act_all overlapping fresh) ≡ 1) × (calm overlapping fresh ≡ false))
unfolding act_all act begin_start begin_stop go_on start_on stop_on in_stop reader_step read_on
    moved get proc_locked caller_locks some_reader_locks reader_locks calm calm_step all_settled
    settled early owners caller_hand hands reader_hand
process_lost = (refl, (refl, refl))
