-- ===== src/LoadLadder/Examples.antt =====
-- The ladder of src/load_robustness.rs for a model of 32 layers that was to be wholly on the GPU.
use higgs.LoadLadder.Walk.{Ended, rung_params, run_oom_ladder-Ended}
use higgs.Base.Text.{starts_with, codes}
use higgs.Base.{if◌then◌else◌, ltb, any, map, ◌∷◌, some, none, refl, ◌≡◌, ℕ}
use higgs.LoadLadder.{
  run_oom_ladder, oom_ladder, with_kv_off, walk, kv_changes, is_cpu_only, err, ok, Result,
  oom_reason, engine_load_failed, HiggsError, is_oom_reason, contains, NodeLoadParams, all,
}

abbrev base : NodeLoadParams ℕ
base = record { id = "m"; ctx_len = none; gpu_layers = some all; threads = none; params = none }

abbrev out_of_memory : HiggsError
out_of_memory = engine_load_failed (codes "CUDA error: out of memory")

-- The first two attempts run out of memory.
abbrev load : ℕ → NodeLoadParams ℕ → Result (Unit {0})
load n p = if ltb n 2 then err out_of_memory else ok tt

second_rung_loads : run_oom_ladder 0 base (some 32) load ≡ ok (with_kv_off 0 base)
unfolding run_oom_ladder walk oom_ladder oom_reason is_oom_reason contains starts_with any
    kv_changes is_cpu_only
second_rung_loads = refl

run_oom_ladder-Ended_example :
    Ended load 0
      (base ∷ map rung_params (oom_ladder 0 base (some 32)))
      (run_oom_ladder 0 base (some 32) load)
run_oom_ladder-Ended_example = run_oom_ladder-Ended 0 base (some 32) load
