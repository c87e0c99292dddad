-- ===== src/Cancel/Examples.antt =====
-- Two downloads and a cancel, and a cancel that meets a failing download.
use higgs.Base.Assoc.{get, insert, remove}
use higgs.Cancel.{
  report, same_node, in_flight, reported, set, change, Channel, PullKey, register, cancel, key_eq,
  new,
}
use higgs.Base.{
  string_eq, nat_eq, if◌then◌else◌, ◌∷◌, [], List, some, none, false, true, refl, ◌≡◌, ℕ, take,
}
use higgs.Cancel.Guards.{cancel_exact, apply_all, apply, tick, register_key, Op}
use higgs.Cancel.Pull.{cancellable_pull, Turn, failure, path, landed}

abbrev model_a : PullKey
model_a = record { node = none; repo = "org/a"; file = "a.gguf" }

abbrev model_b : PullKey
model_b = record { node = some "n1"; repo = "org/b"; file = "b.gguf" }

abbrev two_pulls : List Op
two_pulls =
    register_key model_a ∷ register_key model_b ∷ register_key model_a ∷ tick 1 50 (some 100) ∷ []

abbrev running : Channel
running = record { fired = false; received = true; downloaded = 50; total = 100 }

cancel_exact_example : cancel model_b (apply_all two_pulls new) ≡ (
    if running.received
    then (
      true,
      record (apply_all two_pulls new) {
        channels = insert 1 (record running { fired = true }) (apply_all two_pulls new).channels;
      },
    )
    else (false, apply_all two_pulls new))
unfolding apply_all apply register set change get insert remove same_node
cancel_exact_example = cancel_exact two_pulls model_b 1 running refl refl

announced :
    in_flight (apply_all two_pulls new)
    ≡ record { key = model_b; downloaded = 50; total = some 100 }
      ∷ record { key = model_a; downloaded = 0; total = none }
      ∷ []
unfolding in_flight apply_all apply register set change get insert remove same_node reported report
    take
announced = refl

-- The cancel comes while the second poll fails.
abbrev failing : List (Turn ℕ ℕ)
failing =
    record { answer = none; seen = false; looked = false }
    ∷ record { answer = some (failure 7); seen = true; looked = true }
    ∷ []

-- A file that lands at the poll at which the cancel is seen is reported as landed.
landed_anyway :
    cancellable_pull {P = ℕ} {E = ℕ} false none false
      (record { answer = some (path 5); seen = true; looked = true } ∷ [])
    ≡ record { pulled = some (landed 5); overwrites = 0 }
unfolding cancellable_pull
landed_anyway = refl
