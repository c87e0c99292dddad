-- ===== src/DeltaQueue/Invariant.antt =====
-- What holds of the queue between two operations of src/delta_queue.rs.
use higgs.Base.{ℕ, ◌+◌, ◌≤◌, ◌≡◌, true, false, List, [], ◌∷◌, arith, length, length-append}
use higgs.DeltaQueue.{
  drops_receiver, drops_sender, try_recvs, recvs, drop_receiver, drop_sender, sends, delta_channel,
  ended, step, run, try_recv, Op, recv, ChatDelta, State, cap_bytes, merges, push_delta, send,
}

-- The undelivered bytes.
abbrev pub backlog : List ChatDelta → ℕ
backlog [] = 0
backlog (d ∷ ds) = length d.text + backlog ds

-- No two neighbours could still be merged.
abbrev pub IsMerged : List ChatDelta → Type 0
IsMerged [] = Unit
IsMerged (d ∷ []) = Unit
IsMerged (d ∷ e ∷ ds) = (merges d e ≡ false) × IsMerged (e ∷ ds)

pub record Inv (s : State) : Type 0 where
  pub counted : s.overflowed ≡ false → s.buffered_bytes ≡ backlog s.entries
  pub capped : s.buffered_bytes ≤ cap_bytes
  pub emptied : s.overflowed ≡ true → s.entries ≡ []
  pub merged : IsMerged s.entries

pub backlog-push_delta :
    (ds : List ChatDelta) (d : ChatDelta) → backlog (push_delta ds d) ≡ backlog ds + length d.text
unfolding push_delta
backlog-push_delta [] d = omega arith
backlog-push_delta (b ∷ []) d = ground (arith, length-append b.text d.text)
backlog-push_delta (a ∷ b ∷ ds) d = omega (arith, backlog-push_delta (b ∷ ds) d)

-- Merging keeps the kind of the entry.
push_delta-IsMerged :
    (ds : List ChatDelta) (d : ChatDelta) → IsMerged ds → IsMerged (push_delta ds d)
unfolding push_delta merges
push_delta-IsMerged [] d h = tt
push_delta-IsMerged (a ∷ []) d h = ground arith
push_delta-IsMerged (a ∷ b ∷ []) d h = ground arith
push_delta-IsMerged (a ∷ b ∷ c ∷ ds) d h = (h.0, push_delta-IsMerged (b ∷ c ∷ ds) d h.1)

send-Inv : (s : State) (d : ChatDelta) → Inv s → Inv (send s d)
unfolding send
send-Inv s d h =
    ground (arith, backlog-push_delta s.entries d, push_delta-IsMerged s.entries d h.merged)

recv-Inv : (s : State) → Inv s → Inv (recv s).1
unfolding recv
recv-Inv s h = grind arith

try_recv-Inv : (s : State) → Inv s → Inv (try_recv s).1
unfolding try_recv
try_recv-Inv s h = grind arith

-- From a state that satisfies the invariant, any operation of either half leads to one: the byte
-- counter is the backlog until an overflow and stays within the cap, an overflowed queue is empty,
-- and no two neighbouring entries could still be merged.
pub step-Inv : (s : State) (op : Op) → Inv s → Inv (step s op)
unfolding step
step-Inv s (sends d) h = send-Inv s d h
step-Inv s recvs h = recv-Inv s h
step-Inv s try_recvs h = try_recv-Inv s h
step-Inv s drops_sender h = unfold drop_sender in ground arith
step-Inv s drops_receiver h = unfold drop_receiver in ground arith

run-Inv : (s : State) (ops : List Op) → Inv s → Inv (run s ops)
unfolding run
run-Inv s [] h = h
run-Inv s (op ∷ ops) h = run-Inv (step s op) ops (step-Inv s op h)

-- After any operations on a new queue, in any order, the queue holds exactly its byte counter unless
-- it overflowed, never more than the cap, nothing once it overflowed, and only entries that could
-- not be merged with their neighbours.
pub run-delta_channel-Inv : (ops : List Op) → Inv (run delta_channel ops)
run-delta_channel-Inv ops = run-Inv delta_channel ops (ground arith)

step_aborted :
    (s : State) (op : Op)
    → s.overflowed ≡ true
    → s.entries ≡ []
    → ((step s op).overflowed ≡ true) × ((step s op).entries ≡ []) × ((recv (step s op)).0 ≡ ended)
unfolding step send recv try_recv drop_sender drop_receiver
step_aborted s (sends d) o e = ground arith
step_aborted s _ o e = ground arith

-- Once the cap has tripped, whatever either half does afterwards, the flag stays set and a receive
-- reports the end of the stream: an aborted stream cannot be taken for one that goes on.
pub run_aborted :
    (s : State) (ops : List Op)
    → Inv s
    → s.overflowed ≡ true
    → ((run s ops).overflowed ≡ true) × ((recv (run s ops)).0 ≡ ended)
unfolding run
run_aborted s [] h o = (o, unfold recv in ground arith)
run_aborted s (op ∷ ops) h o =
    run_aborted (step s op) ops (step-Inv s op h) (step_aborted s op o (h.emptied o)).0
