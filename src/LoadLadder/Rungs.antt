-- ===== src/LoadLadder/Rungs.antt =====
-- What every rung of the ladder of src/load_robustness.rs keeps and what it gives up.
use higgs.Base.{ltb, some, Option, ◌||◌, ◌&&◌, not, false, true, Bool, ◌≡◌}
use higgs.LoadLadder.{
  kv_moved, What, current_layers, kv_changes, params_or_default, LoadRung, NodeLoadParams, count,
  all, GpuLayers,
}

-- Fewer layers on the GPU: any count is fewer than all.
unfoldable pub fewer : Option GpuLayers → Option GpuLayers → Bool
fewer (some (count n)) (some (count m)) = ltb n m
fewer (some (count n)) (some all) = true
fewer _ _ = false

module _ {X : Type 0} (default_rest : X) where
  -- What the ladder never changes.
  pub record Kept (base p : NodeLoadParams X) : Type 0 where
    pub id : p.id ≡ base.id
    pub ctx_len : p.ctx_len ≡ base.ctx_len
    pub threads : p.threads ≡ base.threads
    pub rest :
        (params_or_default default_rest p.params).rest
        ≡ (params_or_default default_rest base.params).rest
    pub layers :
        (params_or_default default_rest p.params).gpu_layers
        ≡ (params_or_default default_rest base.params).gpu_layers

  -- Less memory on the GPU: the KV cache has moved off it, or fewer layers are on it.
  unfoldable pub cheaper : NodeLoadParams X → NodeLoadParams X → Bool
  cheaper base p =
      (kv_changes base && not (kv_changes p)) || fewer (current_layers p) (current_layers base)

  -- What a rung does: the one that moves the KV cache leaves the layers, and switches `offload_kqv` off
  -- where it was on; any other puts fewer layers on the GPU.
  unfoldable pub Does : What → NodeLoadParams X → NodeLoadParams X → Type 0
  unfolding kv_changes current_layers fewer
  Does kv_moved base p =
      (p.gpu_layers ≡ base.gpu_layers) × (kv_changes base ≡ true) × (kv_changes p ≡ false)
  Does _ base p = fewer p.gpu_layers (current_layers base) ≡ true

  unfoldable pub Rung : NodeLoadParams X → LoadRung X → Type 0
  Rung base r = Kept base r.params × (cheaper base r.params ≡ true) × Does r.what base r.params
