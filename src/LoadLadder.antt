-- ===== src/LoadLadder.antt =====
-- src/load_robustness.rs, the ladder of cheaper loads after an out-of-memory failure, and
-- `run_oom_ladder` of src/api.rs, which walks it; NodeLoadParams of src/remote.rs and GpuLayers of
-- src/worker/engine/mod.rs. The engine parameters that the ladder never looks at are one field `rest`
-- of a type with an equality test. The load is a function of the attempt's number.
use higgs.Base.Text.{starts_with, Text, codes, to_ascii_lowercase, text_eq}
pub mod Rungs
pub mod Walk
mod Examples
use higgs.Base.{
  string_eq, nat_eq, ◌==◌, any, if◌then◌else◌, leb, ◌++◌, ◌∷◌, [], List, some, none, Option, ◌||◌,
  ◌&&◌, not, false, true, Bool, String, ◌/◌, ◌+◌, ℕ,
}

pub data GpuLayers : Type 0 where
  all : GpuLayers
  count : ℕ → GpuLayers

same_layers : GpuLayers → GpuLayers → Bool
same_layers all all = true
same_layers (count n) (count m) = n == m
same_layers _ _ = false

-- LlamaCppParams
pub record EngineParams (X : Type 0) : Type 0 where
  pub gpu_layers : GpuLayers
  pub offload_kqv : Option Bool
  pub rest : X

pub record NodeLoadParams (X : Type 0) : Type 0 where
  pub id : String
  pub ctx_len : Option ℕ
  pub gpu_layers : Option GpuLayers
  pub threads : Option ℕ
  pub params : Option (EngineParams X)

-- What a rung says it degraded.
pub data What : Type 0 where
  plain_retry kv_moved halved_after_kv halved all_cpu_after_kv all_cpu : What

pub record LoadRung (X : Type 0) : Type 0 where
  pub params : NodeLoadParams X
  pub what : What

-- str::contains
unfoldable pub contains : Text → Text → Bool
unfolding starts_with
contains pattern [] = starts_with pattern []
contains pattern (c ∷ cs) = starts_with pattern (c ∷ cs) || contains pattern cs

-- SIGNATURES
abbrev pub signatures : List Text
signatures =
    codes "out of memory"
    ∷ codes "failed to allocate"
    ∷ codes "unable to allocate"
    ∷ codes "cannot allocate"
    ∷ codes "insufficient memory"
    ∷ codes "not enough memory"
    ∷ codes "cudamalloc failed"
    ∷ codes "cuda error: out of memory"
    ∷ codes "mtlbuffer"
    ∷ codes "ggml_backend_alloc"
    ∷ codes "buffer allocation failed"
    ∷ codes "alloc_tensor_range"
    ∷ []

-- is_oom_reason
unfoldable pub is_oom_reason : Text → Bool
unfolding contains
is_oom_reason reason = any (λ s. contains s (to_ascii_lowercase reason)) signatures

-- The errors of a load that the walk tells apart.
pub data HiggsError : Type 0 where
  engine_load_failed : Text → HiggsError
  worker_rpc : Text → Option Text → HiggsError
  other_error : ℕ → HiggsError
  load_oom_exhausted : ℕ → Text → HiggsError

-- oom_reason
unfoldable pub oom_reason : HiggsError → Option Text
oom_reason (engine_load_failed reason) = if is_oom_reason reason then some reason else none
oom_reason (worker_rpc message (some code)) =
    if code == codes "HG004" && is_oom_reason message then some message else none
oom_reason (worker_rpc message none) = none
oom_reason (other_error n) = none
oom_reason (load_oom_exhausted n last) = none

-- Result<NodeLoadParams, HiggsError>, and what a load returns
pub data Result (A : Type 0) : Type 0 where
  ok : A → Result A
  err : HiggsError → Result A

-- matches!(_, Some(GpuLayers::Count { n: 0 }))
unfoldable pub is_cpu_only : Option GpuLayers → Bool
is_cpu_only (some (count n)) = n == 0
is_cpu_only (some all) = false
is_cpu_only none = false

-- Whether `offload_kqv` is already false, which is when `with_kv_off` changes nothing.
unfoldable pub is_kv_off : Option Bool → Bool
is_kv_off (some b) = not b
is_kv_off none = false

-- The `match current` of `reduce_gpu_layers`.
unfoldable pub reduced : Option GpuLayers → Option ℕ → Bool → Option (GpuLayers × What)
reduced none layer_count moved = none
reduced (some (count n)) layer_count moved =
    if leb 2 n then some (count (n / 2), if moved then halved_after_kv else halved) else none
reduced (some all) none moved = some (count 0, if moved then all_cpu_after_kv else all_cpu)
reduced (some all) (some total) moved =
    if leb 2 total
    then some (count (total / 2), if moved then halved_after_kv else halved)
    else some (count 0, if moved then all_cpu_after_kv else all_cpu)

module _ {X : Type 0} where
  -- `kv_off != *base`: the two differ in `params` alone, and there in `offload_kqv` alone.
  unfoldable pub kv_changes : NodeLoadParams X → Bool
  unfolding is_kv_off
  kv_changes base = elim base.params [ none ↦ true | some lc ↦ not (is_kv_off lc.offload_kqv) ]

  -- The layers of the load: the top-level field, else that of the engine parameters.
  unfoldable pub current_layers : NodeLoadParams X → Option GpuLayers
  current_layers p = elim p.gpu_layers [
    | some g ↦ some g
    | none ↦ elim p.params [ some lc ↦ some lc.gpu_layers | none ↦ none ]
  ]

  unfoldable pub as_rung : NodeLoadParams X → Option (GpuLayers × What) → Option (LoadRung X)
  as_rung base none = none
  as_rung base (some (target, what)) =
      some (record { params = record base { gpu_layers = some target }; what = what })

  -- reduce_gpu_layers
  unfoldable pub reduce_gpu_layers : NodeLoadParams X → Option ℕ → Bool → Option (LoadRung X)
  unfolding reduced as_rung
  reduce_gpu_layers base layer_count moved =
      as_rung base (reduced (current_layers base) layer_count moved)

  unfoldable pub to_list : Option (LoadRung X) → List (LoadRung X)
  to_list none = []
  to_list (some r) = r ∷ []

  -- The loop of `run_oom_ladder` over the rungs, from the attempt of that number.
  unfoldable pub walk :
      (ℕ → NodeLoadParams X → Result (Unit {0}))
      → ℕ
      → List (LoadRung X)
      → Text
      → Result (NodeLoadParams X)
  walk load attempt [] last = err (load_oom_exhausted attempt last)
  walk load attempt (rung ∷ rungs) last = elim (load attempt rung.params) [
    | ok u ↦ ok rung.params
    | err e ↦ elim (oom_reason e) [ none ↦ err e | some r ↦ walk load (attempt + 1) rungs r ]
  ]

module _ {X : Type 0} (default_rest : X) where
  -- LlamaCppParams::default
  abbrev pub default_params : EngineParams X
  default_params = record { gpu_layers = count 0; offload_kqv = none; rest = default_rest }

  unfoldable pub params_or_default : Option (EngineParams X) → EngineParams X
  params_or_default none = default_params
  params_or_default (some lc) = lc

  -- with_kv_off
  unfoldable pub with_kv_off : NodeLoadParams X → NodeLoadParams X
  unfolding params_or_default
  with_kv_off p = record p {
    params = some (record (params_or_default p.params) { offload_kqv = some false });
  }

  -- oom_ladder
  unfoldable pub oom_ladder : NodeLoadParams X → Option ℕ → List (LoadRung X)
  unfolding to_list
  oom_ladder base layer_count =
      let moved = not (is_cpu_only base.gpu_layers) && kv_changes base in
      record { params = base; what = plain_retry }
        ∷ (if moved then record { params = with_kv_off base; what = kv_moved } ∷ [] else [])
      ++ to_list (reduce_gpu_layers (with_kv_off base) layer_count moved)

  -- run_oom_ladder
  unfoldable pub run_oom_ladder :
      NodeLoadParams X
      → Option ℕ
      → (ℕ → NodeLoadParams X → Result (Unit {0}))
      → Result (NodeLoadParams X)
  unfolding walk
  run_oom_ladder np layer_count load = elim (load 0 np) [
    | ok u ↦ ok np
    | err e ↦ elim (oom_reason e) [
      | none ↦ err e
      | some r ↦ walk load 1 (oom_ladder np layer_count) r
    ]
  ]
