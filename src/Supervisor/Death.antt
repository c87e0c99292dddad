-- ===== src/Supervisor/Death.antt =====
-- No caller waits for a worker that has died: the two orders of src/supervisor.rs, registration before
-- the send and the loss of the writer before the waiters are failed, close every race.
use higgs.Base.Assoc.{get, insert, get-insert, get-remove}
use higgs.Demux.{
  Reply, register_pending, remove_pending, correlate, fail_all_pending, clear_sinks, waiting,
  through, cancel, cancel_all, fulfil,
}
use higgs.Supervisor.Waits.{
  is_waiting, awaits-fail_all, awaits, Tracked, Tracked-remove, awaits-through, awaits-through_kept,
  awaits-insert, cancel-Ends, fulfil-Ends, found-insert,
}
use higgs.Base.{
  absurd_bool, ◌&&◌, ◌++◌, true, Bool, beq_refl, string_eq, nat_eq, ◌==◌, All, Bool-cases, arith,
  ◌∷◌, [], List, some, none, Option, false, inr, inl, ◌∙◌, sym, refl, ◌≡◌, ◌<◌, ◌+◌, ℕ,
}
use higgs.Supervisor.{
  on_worker_death, new, run, transmit_as, drop_sinks, fail_pending, clear_write_tx, install_writer,
  respond, withdraw, transmit, register, Step, Inner, step,
}

weaken_below : (n : ℕ) (ks : List ℕ) → All (λ k. k < n) ks → All (λ k. k < n + 1) ks
weaken_below n [] h = tt
weaken_below n (k ∷ ks) h = (omega (arith, h.0), weaken_below n ks h.1)

module _ {R : Type 0} where
  -- Every waiting receiver is found in the map, and identities are fresh.
  record Ready (s : Inner R) : Type 0 where
    tracked : Tracked s.demux.pending s.demux.oneshots
    sending_below : (id k : ℕ) → get id s.sending ≡ some k → k < s.demux.next
    awaited_below : All (λ k. k < s.demux.next) s.awaited

  -- No caller that sent is waiting, and no caller can send.
  record Settled (s : Inner R) : Type 0 where
    ready : Ready s
    no_writer : s.write_tx ≡ false
    none_awaits : All (λ k. awaits k s.demux.oneshots ≡ false) s.awaited

  -- Whether a step installs a writer.
  unfoldable pub is_install : Step R → Bool
  is_install install_writer = true
  is_install _ = false

  Tracked-register :
      (id n : ℕ) (pending : List (ℕ × ℕ)) (m : List (ℕ × Reply R))
      → Tracked pending m
      → Tracked (insert id n pending) (insert n waiting (through (get id pending) cancel m))
  unfolding Tracked
  Tracked-register id n pending m t k w = elim (Bool-cases (n == k)) [
    | inl e ↦ (id, get-insert id id n pending ∙ rw (beq_refl id, (nat_eq.decides n k).0 e) refl)
    | inr e ↦
        let (before, ne) =
          awaits-through cancel (get id pending) k m cancel-Ends
            (sym (awaits-insert k n waiting _ e) ∙ w) in
        let (i, q) = t k before in (i, found-insert id i k n pending ne q)
  ]

  Tracked-fail_all :
      (pending : List (ℕ × ℕ)) (m : List (ℕ × Reply R))
      → Tracked pending m
      → Tracked [] (cancel_all pending m)
  unfolding Tracked
  Tracked-fail_all pending m t k w = absurd_bool (sym (awaits-fail_all k pending m t) ∙ w)

  Ready-transmit :
      (id : ℕ) (alive : Bool) (o : Option ℕ) (s : Inner R)
      → get id s.sending ≡ o
      → Ready s
      → Ready (transmit_as id alive o s)
  unfolding transmit_as
  Ready-transmit id alive none s e r = r
  Ready-transmit id alive (some k) s e r = elim (Bool-cases (s.write_tx && alive)) [
    | inl w ↦ rw w record {
      tracked = r.tracked;
      sending_below =
          λ i j h. ground (arith, r.sending_below i j, sym (get-remove id i s.sending) ∙ h);
      awaited_below = (r.sending_below id k e, r.awaited_below);
    }
    | inr w ↦ rw w record {
      tracked = r.tracked;
      sending_below =
          λ i j h. ground (arith, r.sending_below i j, sym (get-remove id i s.sending) ∙ h);
      awaited_below = r.awaited_below;
    }
  ]

  Ready-step : (op : Step R) (s : Inner R) → Ready s → Ready (step op s)
  unfolding step register_pending remove_pending correlate fail_all_pending clear_sinks
  Ready-step (register id) s r = record {
    tracked = Tracked-register id s.demux.next s.demux.pending s.demux.oneshots r.tracked;
    sending_below = λ i j h.
        ground (arith, r.sending_below i j, sym (get-insert id i s.demux.next s.sending) ∙ h);
    awaited_below = weaken_below s.demux.next s.awaited r.awaited_below;
  }
  Ready-step (transmit id alive) s r = Ready-transmit id alive (get id s.sending) s refl r
  Ready-step (withdraw id) s r = record {
    tracked = Tracked-remove cancel id s.demux.pending s.demux.oneshots cancel-Ends r.tracked;
    sending_below = r.sending_below;
    awaited_below = r.awaited_below;
  }
  Ready-step (respond id resp) s r = record {
    tracked =
        Tracked-remove (fulfil resp) id s.demux.pending s.demux.oneshots (fulfil-Ends resp)
          r.tracked;
    sending_below = r.sending_below;
    awaited_below = r.awaited_below;
  }
  Ready-step install_writer s r = record {
    tracked = r.tracked;
    sending_below = r.sending_below;
    awaited_below = r.awaited_below;
  }
  Ready-step clear_write_tx s r = record {
    tracked = r.tracked;
    sending_below = r.sending_below;
    awaited_below = r.awaited_below;
  }
  Ready-step fail_pending s r = record {
    tracked = Tracked-fail_all s.demux.pending s.demux.oneshots r.tracked;
    sending_below = r.sending_below;
    awaited_below = r.awaited_below;
  }
  Ready-step drop_sinks s r = record {
    tracked = r.tracked;
    sending_below = r.sending_below;
    awaited_below = r.awaited_below;
  }

  Ready-run : (ops : List (Step R)) (s : Inner R) → Ready s → Ready (run ops s)
  unfolding run
  Ready-run [] s r = r
  Ready-run (op ∷ ops) s r = Ready-run ops (step op s) (Ready-step op s r)

  none_await :
      (ks : List ℕ) (m m' : List (ℕ × Reply R))
      → ((k : ℕ) → awaits k m ≡ false → awaits k m' ≡ false)
      → All (λ k. awaits k m ≡ false) ks
      → All (λ k. awaits k m' ≡ false) ks
  none_await [] m m' f h = tt
  none_await (k ∷ ks) m m' f h = (f k h.0, none_await ks m m' f h.1)

  none_await_fresh :
      (n : ℕ) (o : Option ℕ) (ks : List ℕ) (m : List (ℕ × Reply R))
      → All (λ k. k < n) ks
      → All (λ k. awaits k m ≡ false) ks
      → All (λ k. awaits k (insert n waiting (through o cancel m)) ≡ false) ks
  none_await_fresh n o [] m b h = tt
  none_await_fresh n o (k ∷ ks) m b h = (
    awaits-insert k n waiting (through o cancel m) (ground (arith, b.0))
        ∙ awaits-through_kept cancel o k m cancel-Ends h.0,
    none_await_fresh n o ks m b.1 h.1,
  )

  each_ended :
      (ks : List ℕ) (pending : List (ℕ × ℕ)) (m : List (ℕ × Reply R))
      → Tracked pending m
      → All (λ k. awaits k (cancel_all pending m) ≡ false) ks
  each_ended [] pending m t = tt
  each_ended (k ∷ ks) pending m t = (awaits-fail_all k pending m t, each_ended ks pending m t)

  Settled-fail : (s : Inner R) → Ready s → s.write_tx ≡ false → Settled (step fail_pending s)
  unfolding step fail_all_pending
  Settled-fail s r w = record {
    ready = Ready-step fail_pending s r;
    no_writer = w;
    none_awaits = each_ended s.awaited s.demux.pending s.demux.oneshots r.tracked;
  }

  no_writer-transmit :
      (id : ℕ) (alive : Bool) (o : Option ℕ) (s : Inner R)
      → s.write_tx ≡ false
      → (transmit_as id alive o s).write_tx ≡ false
  unfolding transmit_as
  no_writer-transmit id alive none s w = w
  no_writer-transmit id alive (some k) s w = rw w refl

  Settled-transmit :
      (id : ℕ) (alive : Bool) (o : Option ℕ) (s : Inner R)
      → get id s.sending ≡ o
      → Settled s
      → Settled (transmit_as id alive o s)
  unfolding transmit_as
  Settled-transmit id alive none s e q = q
  Settled-transmit id alive (some k) s e q =
      let ready : Ready (transmit_as id alive (some k) s) =
        Ready-transmit id alive (some k) s e q.ready in
      record {
        ready = ready;
        no_writer = rw q.no_writer refl;
        none_awaits = rw q.no_writer q.none_awaits;
      }

  Settled-step :
      (op : Step R) (s : Inner R) → is_install op ≡ false → Settled s → Settled (step op s)
  unfolding step register_pending remove_pending correlate fail_all_pending clear_sinks is_install
  Settled-step (register id) s h q = record {
    ready = Ready-step (register id) s q.ready;
    no_writer = q.no_writer;
    none_awaits =
        none_await_fresh s.demux.next (get id s.demux.pending) s.awaited s.demux.oneshots
          q.ready.awaited_below q.none_awaits;
  }
  Settled-step (transmit id alive) s h q = Settled-transmit id alive (get id s.sending) s refl q
  Settled-step (withdraw id) s h q = record {
    ready = Ready-step (withdraw id) s q.ready;
    no_writer = q.no_writer;
    none_awaits =
        none_await s.awaited s.demux.oneshots _
          (λ k. awaits-through_kept cancel (get id s.demux.pending) k s.demux.oneshots cancel-Ends)
          q.none_awaits;
  }
  Settled-step (respond id resp) s h q = record {
    ready = Ready-step (respond id resp) s q.ready;
    no_writer = q.no_writer;
    none_awaits =
        none_await s.awaited s.demux.oneshots _
          (λ k.
            awaits-through_kept (fulfil resp) (get id s.demux.pending) k s.demux.oneshots
              (fulfil-Ends resp))
          q.none_awaits;
  }
  Settled-step install_writer s h q = absurd_bool (sym h)
  Settled-step clear_write_tx s h q = record {
    ready = Ready-step clear_write_tx s q.ready;
    no_writer = refl;
    none_awaits = q.none_awaits;
  }
  Settled-step fail_pending s h q = record {
    ready = Ready-step fail_pending s q.ready;
    no_writer = q.no_writer;
    none_awaits = each_ended s.awaited s.demux.pending s.demux.oneshots q.ready.tracked;
  }
  Settled-step drop_sinks s h q = record {
    ready = Ready-step drop_sinks s q.ready;
    no_writer = q.no_writer;
    none_awaits = q.none_awaits;
  }

  Settled-run :
      (ops : List (Step R)) (s : Inner R)
      → All (λ op. is_install op ≡ false) ops
      → Settled s
      → Settled (run ops s)
  unfolding run
  Settled-run [] s h q = q
  Settled-run (op ∷ ops) s h q = Settled-run ops (step op s) h.1 (Settled-step op s h.0 q)

  no_writer-step :
      (op : Step R) (s : Inner R)
      → is_install op ≡ false
      → s.write_tx ≡ false
      → (step op s).write_tx ≡ false
  unfolding step is_install register_pending
  no_writer-step (register id) s h w = w
  no_writer-step (transmit id alive) s h w = no_writer-transmit id alive (get id s.sending) s w
  no_writer-step (withdraw id) s h w = w
  no_writer-step (respond id resp) s h w = w
  no_writer-step install_writer s h w = absurd_bool (sym h)
  no_writer-step clear_write_tx s h w = refl
  no_writer-step fail_pending s h w = w
  no_writer-step drop_sinks s h w = w

  no_writer-run :
      (ops : List (Step R)) (s : Inner R)
      → All (λ op. is_install op ≡ false) ops
      → s.write_tx ≡ false
      → (run ops s).write_tx ≡ false
  unfolding run
  no_writer-run [] s h w = w
  no_writer-run (op ∷ ops) s h w = no_writer-run ops (step op s) h.1 (no_writer-step op s h.0 w)

  run-append : (xs ys : List (Step R)) (s : Inner R) → run (xs ++ ys) s ≡ run ys (run xs s)
  unfolding run
  run-append [] ys s = refl
  run-append (x ∷ xs) ys s = run-append xs ys (step x s)

  Ready-new : Ready (new {R = R})
  unfolding Tracked awaits is_waiting get
  Ready-new = record {
    tracked = λ k w. absurd_bool w;
    sending_below = λ id k h. cc h;
    awaited_below = tt;
  }

  -- From a new supervisor, after any history of requests, timeouts, responses, restarts and deaths,
  -- and whatever the other tasks do between the steps of `on_worker_death` and after them, except to
  -- install another writer: no caller whose send was accepted still waits for its response.
  pub no_caller_waits :
      (before first second third : List (Step R))
      → All (λ op. is_install op ≡ false) first
      → All (λ op. is_install op ≡ false) second
      → All (λ op. is_install op ≡ false) third
      → let s = run (before ++ on_worker_death first second third) new in
        All (λ k. awaits k s.demux.oneshots ≡ false) s.awaited
  unfolding on_worker_death run step is_install
  no_caller_waits before first second third h1 h2 h3 =
      let s0 = step clear_write_tx (run before new) in
      let r0 : Ready s0 =
        Ready-step clear_write_tx (run before new) (Ready-run before new Ready-new) in
      let s1 = run first s0 in
      let q1 : Settled (step fail_pending s1) =
        Settled-fail s1 (Ready-run first s0 r0) (no_writer-run first s0 h1 refl) in
      let q2 : Settled (run second (step fail_pending s1)) =
        Settled-run second (step fail_pending s1) h2 q1 in
      let q3 = Settled-run (drop_sinks ∷ third) (run second (step fail_pending s1)) (refl, h3) q2 in
      let s' = run before new in
      rw
        (
          run-append before (on_worker_death first second third) new,
          run-append (clear_write_tx ∷ first ++ fail_pending ∷ second) (drop_sinks ∷ third) s',
          run-append (clear_write_tx ∷ first) (fail_pending ∷ second) s',
        )
        q3.none_awaits
