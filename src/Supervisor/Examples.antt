-- ===== src/Supervisor/Examples.antt =====
-- A death of the worker of src/supervisor.rs between the registration and the send of one request,
-- and after the send of another.
use higgs.Base.Assoc.{get, insert, remove}
use higgs.Supervisor.{
  Step, run, step, new, on_worker_death, register, transmit, withdraw, install_writer, transmit_as,
}
use higgs.Supervisor.Waits.{awaits}
use higgs.Supervisor.Death.{is_install, no_caller_waits}
use higgs.Demux.{register_pending}
use higgs.Base.{true, string_eq, nat_eq, All, ◌++◌, ◌∷◌, [], List, false, refl, ◌≡◌, ℕ}

abbrev before : List (Step ℕ)
before = install_writer ∷ register 1 ∷ transmit 1 true ∷ register 2 ∷ []

abbrev racing : List (Step ℕ)
racing = transmit 2 true ∷ []

abbrev late : List (Step ℕ)
late = withdraw 2 ∷ register 3 ∷ transmit 3 true ∷ withdraw 3 ∷ []

no_caller_waits_example :
    All
      (λ k. awaits k (run (before ++ on_worker_death racing late []) new).demux.oneshots ≡ false)
      (run (before ++ on_worker_death racing late []) new).awaited
unfolding is_install
no_caller_waits_example =
    no_caller_waits before racing late [] (refl, tt) (refl, (refl, (refl, (refl, tt)))) tt

one_accepted : (run (before ++ on_worker_death racing late []) new).awaited ≡ 0 ∷ []
unfolding run step on_worker_death register_pending insert remove get transmit_as
one_accepted = refl
