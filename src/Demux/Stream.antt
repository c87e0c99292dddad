-- ===== src/Demux/Stream.antt =====
-- What the stream of one request receives through the demultiplexer of src/actor.rs.
use higgs.Base.Assoc.{get, get-insert, get-remove}
use higgs.DeltaQueue.{State, ChatDelta, delta_channel, send, drop_sender}
use higgs.Base.{
  beq_refl, All, Bool-cases, inr, inl, sym, refl, string_eq, nat_eq, ◌==◌, if◌then◌else◌, arith,
  ◌∷◌, [], List, some, not, false, true, Bool, ◌∙◌, ◌≡◌, ◌<◌, ℕ,
}
use higgs.Demux.{
  get-update, get-through, through, route_chunk, remove_sink, register_sink, ReplyDemux,
}

-- What the readers and the callers do with the sinks while a stream is open.
pub data Op : Type 0 where
  register : ℕ → Op
  unregister : ℕ → Op
  route : ℕ → ChatDelta → Op

module _ {R : Type 0} where
  unfoldable pub step : Op → ReplyDemux R → ReplyDemux R
  step (register j) d = (register_sink j d).1
  step (unregister j) d = remove_sink j d
  step (route j delta) d = route_chunk j delta d

  unfoldable pub run : List Op → ReplyDemux R → ReplyDemux R
  run [] d = d
  run (op ∷ ops) d = run ops (step op d)

  -- Channels are made with fresh identities, and no two requests send to one.
  pub record Fresh (d : ReplyDemux R) : Type 0 where
    pub sinks_below : (j k : ℕ) → get j d.chat_sinks ≡ some k → k < d.next

  pub record Owns (d : ReplyDemux R) (id c : ℕ) (s : State) : Type 0 where
    pub sink : get id d.chat_sinks ≡ some c
    pub alone :
        (j : ℕ) → (j == id) ≡ false → (k : ℕ) → get j d.chat_sinks ≡ some k → (k == c) ≡ false
    pub below : c < d.next
    pub queue : get c d.queues ≡ some s

-- Whether an operation leaves the sink of the request registered as it is.
unfoldable pub keeps : ℕ → Op → Bool
keeps id (register j) = not (j == id)
keeps id (unregister j) = not (j == id)
keeps id (route j delta) = true

-- The deltas of the request, in the order of the operations.
unfoldable pub deltas_for : ℕ → List Op → List ChatDelta
deltas_for id [] = []
deltas_for id (route j delta ∷ ops) =
    let rest = deltas_for id ops in if j == id then delta ∷ rest else rest
deltas_for id (_ ∷ ops) = deltas_for id ops

unfoldable pub sends : List ChatDelta → State → State
sends [] s = s
sends (d ∷ ds) s = sends ds (send s d)

above : (c n : ℕ) → c < n → (n == c) ≡ false
above c n h = ground arith

module _ {R : Type 0} (id c : ℕ) where
  Owns-register :
      (j : ℕ) (d : ReplyDemux R) (s : State)
      → (j == id) ≡ false
      → Owns d id c s
      → Owns (register_sink j d).1 id c s
  unfolding register_sink
  Owns-register j d s e o = record {
    sink = get-insert j id d.next d.chat_sinks ∙ rw e o.sink;
    alone = λ i ne k h.
        let h' = sym (get-insert j i d.next d.chat_sinks) ∙ h in
        ground (arith, h', above c d.next o.below, o.alone i ne k);
    below = ground (arith, o.below);
    queue =
        get-insert d.next c delta_channel (through (get j d.chat_sinks) drop_sender d.queues)
        ∙ rw (above c d.next o.below)
            (get-through (get j d.chat_sinks) drop_sender c d.queues (o.alone j e) ∙ o.queue);
  }

  Owns-unregister :
      (j : ℕ) (d : ReplyDemux R) (s : State)
      → (j == id) ≡ false
      → Owns d id c s
      → Owns (remove_sink j d) id c s
  unfolding remove_sink
  Owns-unregister j d s e o = record {
    sink = get-remove j id d.chat_sinks ∙ rw e o.sink;
    alone = λ i ne k h.
        let h' = sym (get-remove j i d.chat_sinks) ∙ h in ground (arith, h', o.alone i ne k);
    below = o.below;
    queue = get-through (get j d.chat_sinks) drop_sender c d.queues (o.alone j e) ∙ o.queue;
  }

  Owns-route_other :
      (j : ℕ) (delta : ChatDelta) (d : ReplyDemux R) (s : State)
      → (j == id) ≡ false
      → Owns d id c s
      → Owns (route_chunk j delta d) id c s
  unfolding route_chunk
  Owns-route_other j delta d s e o = record {
    sink = o.sink;
    alone = o.alone;
    below = o.below;
    queue = get-through (get j d.chat_sinks) (λ q. send q delta) c d.queues (o.alone j e) ∙ o.queue;
  }

  Owns-route :
      (delta : ChatDelta) (d : ReplyDemux R) (s : State)
      → Owns d id c s
      → Owns (route_chunk id delta d) id c (send s delta)
  unfolding route_chunk through
  Owns-route delta d s o = record {
    sink = o.sink;
    alone = o.alone;
    below = o.below;
    queue = rw o.sink (get-update (λ q. send q delta) c s d.queues o.queue);
  }

  Owns-run :
      (ops : List Op) (d : ReplyDemux R) (s : State)
      → All (λ op. keeps id op ≡ true) ops
      → Owns d id c s
      → Owns (run ops d) id c (sends (deltas_for id ops) s)
  unfolding run step keeps deltas_for sends
  Owns-run [] d s h o = o
  Owns-run (register j ∷ ops) d s h o =
      Owns-run ops (register_sink j d).1 s h.1 (Owns-register j d s (ground (arith, h.0)) o)
  Owns-run (unregister j ∷ ops) d s h o =
      Owns-run ops (remove_sink j d) s h.1 (Owns-unregister j d s (ground (arith, h.0)) o)
  Owns-run (route j delta ∷ ops) d s h o = elim (Bool-cases (j == id)) [
    | inl e ↦
        rw (e, (nat_eq.decides j id).0 e)
          (Owns-run ops (route_chunk id delta d) (send s delta) h.1 (Owns-route delta d s o))
    | inr e ↦ rw e (Owns-run ops (route_chunk j delta d) s h.1 (Owns-route_other j delta d s e o))
  ]

module _ {R : Type 0} where
  Owns-registered :
      (id : ℕ) (d : ReplyDemux R) → Fresh d → Owns (register_sink id d).1 id d.next delta_channel
  unfolding register_sink
  Owns-registered id d f = record {
    sink = get-insert id id d.next d.chat_sinks ∙ rw (beq_refl id) refl;
    alone = λ i ne k h.
        let h' = sym (get-insert id i d.next d.chat_sinks) ∙ h in
        ground (arith, h', f.sinks_below i k, ne);
    below = omega arith;
    queue =
        get-insert d.next d.next delta_channel (through (get id d.chat_sinks) drop_sender d.queues)
        ∙ rw (beq_refl d.next) refl;
  }

  -- When a request registers its sink, where channels have fresh identities, then whatever sinks of
  -- other requests are registered and removed and whatever chunks arrive afterwards, the queue that
  -- it received holds what the deltas routed under its id, in their order, put into a new delta
  -- queue: no chunk of another request, and none of its own is lost before its sink is removed.
  pub queue_of_stream :
      (id : ℕ) (d : ReplyDemux R) (ops : List Op)
      → Fresh d
      → All (λ op. keeps id op ≡ true) ops
      → let (c, d') = register_sink id d in
        get c (run ops d').queues ≡ some (sends (deltas_for id ops) delta_channel)
  unfolding register_sink
  queue_of_stream id d ops f h =
      let o =
        Owns-run id d.next ops (register_sink id d).1 delta_channel h (Owns-registered id d f) in
      o.queue
