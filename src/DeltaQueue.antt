-- ===== src/DeltaQueue.antt =====
-- src/delta_queue.rs: the bounded, merging queue between the producer of chat deltas and its one
-- consumer, and ChatDelta of src/worker/engine/mod.rs. A text is the list of its bytes. The lock
-- makes every method one atomic step, so a run is a list of them; `notify` only wakes the consumer.
pub mod Invariant
pub mod Lossless
mod Examples
use higgs.Base.{
  ℕ, ◌+◌, ◌-◌, ◌*◌, ◌^◌, min, Bool, true, false, not, ◌&&◌, ◌||◌, Option, none, some, List, [], ◌∷◌,
  ◌++◌, ltb, length, if◌then◌else◌,
}

pub data ChatDeltaKind : Type 0 where
  content reasoning tool_call : ChatDeltaKind

pub record ChatDelta : Type 0 where
  pub kind : ChatDeltaKind
  pub text : List ℕ

-- `==` of the derived PartialEq
unfoldable pub same_kind : ChatDeltaKind → ChatDeltaKind → Bool
same_kind content content = true
same_kind reasoning reasoning = true
same_kind tool_call tool_call = true
same_kind _ _ = false

-- CAP_BYTES
abbrev pub cap_bytes : ℕ
cap_bytes = 8 * 1024 * 1024

abbrev pub usize_max : ℕ
usize_max = 2 ^ 64 - 1

-- usize::saturating_add
abbrev pub saturating_add : ℕ → ℕ → ℕ
saturating_add a b = min (a + b) usize_max

pub record State : Type 0 where
  pub entries : List ChatDelta
  pub buffered_bytes : ℕ
  pub overflowed : Bool
  pub closed : Bool

-- delta_channel: the state that both halves share
abbrev pub delta_channel : State
delta_channel = record { entries = []; buffered_bytes = 0; overflowed = false; closed = false }

-- The guard of the merging arm of `send`.
unfoldable pub merges : ChatDelta → ChatDelta → Bool
unfolding same_kind
merges back delta = same_kind back.kind delta.kind && not (same_kind delta.kind tool_call)

-- The `match s.entries.back_mut()` of `send`.
unfoldable pub push_delta : List ChatDelta → ChatDelta → List ChatDelta
unfolding merges
push_delta [] delta = delta ∷ []
push_delta (back ∷ []) delta =
    if merges back delta
    then record back { text = back.text ++ delta.text } ∷ []
    else back ∷ delta ∷ []
push_delta (first ∷ second ∷ rest) delta = first ∷ push_delta (second ∷ rest) delta

-- DeltaSender::send
unfoldable pub send : State → ChatDelta → State
send s delta =
    if s.closed || s.overflowed
    then s
    else if ltb cap_bytes (saturating_add s.buffered_bytes (length delta.text))
    then record s { entries = []; overflowed = true }
    else record s {
      buffered_bytes = s.buffered_bytes + length delta.text;
      entries = push_delta s.entries delta;
    }

-- <DeltaSender as Drop>::drop
unfoldable pub drop_sender : State → State
drop_sender s = record s { closed = true }

-- One round of the loop in DeltaReceiver::recv: an item, the end of the stream, or a wait.
pub data Recv : Type 0 where
  item : ChatDelta → Recv
  ended waiting : Recv

recv_entries : List ChatDelta → State → Recv × State
recv_entries [] s = (if s.closed || s.overflowed then ended else waiting, s)
recv_entries (d ∷ rest) s =
    (item d, record s { entries = rest; buffered_bytes = s.buffered_bytes - length d.text })

unfoldable pub recv : State → Recv × State
unfolding recv_entries
recv s = recv_entries s.entries s

pop_entries : List ChatDelta → State → Option ChatDelta × State
pop_entries [] s = (none, s)
pop_entries (d ∷ rest) s =
    (some d, record s { entries = rest; buffered_bytes = s.buffered_bytes - length d.text })

-- DeltaReceiver::pop, which `try_recv` calls
unfoldable pub try_recv : State → Option ChatDelta × State
unfolding pop_entries
try_recv s = pop_entries s.entries s

-- <DeltaReceiver as Drop>::drop
unfoldable pub drop_receiver : State → State
drop_receiver s = record s { closed = true; entries = []; buffered_bytes = 0 }

-- What either half may do, in any order.
pub data Op : Type 0 where
  sends : ChatDelta → Op
  recvs try_recvs drops_sender drops_receiver : Op

unfoldable pub step : State → Op → State
unfolding send recv try_recv drop_sender drop_receiver
step s (sends d) = send s d
step s recvs = (recv s).1
step s try_recvs = (try_recv s).1
step s drops_sender = drop_sender s
step s drops_receiver = drop_receiver s

unfoldable pub run : State → List Op → State
unfolding step
run s [] = s
run s (op ∷ ops) = run (step s op) ops
