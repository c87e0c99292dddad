-- ===== src/DeltaQueue/Lossless.antt =====
-- The contract of the merging queue of src/delta_queue.rs, against the plain stream of what was
-- sent: a text delta is its bytes, each with the kind; a tool-call fragment is one whole.
use mathlib.Core.List.{map-append, append-nil, append_assoc}
use higgs.Base.{
  some, none, Option, suc, zero, length, ◌≤◌, ◌+◌, Bool-cases, inr, inl, sym, arith, false, ◌∙◌,
  map, ◌++◌, ◌∷◌, [], List, true, refl, ◌≡◌, ℕ,
}
use higgs.DeltaQueue.{
  drop_sender, step, recvs, sends, cap_bytes, delta_channel, recv_entries, same_kind, recv, waiting,
  ended, item, Recv, send, push_delta, merges, State, ChatDelta, tool_call, reasoning, content,
  ChatDeltaKind,
}
use higgs.DeltaQueue.Invariant.{backlog-push_delta, step-Inv, Inv, backlog}

pub data Atom : Type 0 where
  byte : ChatDeltaKind → ℕ → Atom
  fragment : List ℕ → Atom

abbrev atoms_of : ChatDeltaKind → List ℕ → List Atom
atoms_of content text = map (byte content) text
atoms_of reasoning text = map (byte reasoning) text
atoms_of tool_call text = fragment text ∷ []

abbrev pub atoms : List ChatDelta → List Atom
atoms [] = []
atoms (d ∷ ds) = atoms_of d.kind d.text ++ atoms ds

pub atoms-append : (ds es : List ChatDelta) → atoms (ds ++ es) ≡ atoms ds ++ atoms es
atoms-append [] es = refl
atoms-append (d ∷ ds) es = simp (atoms-append ds es, append_assoc)

same_kind_atoms :
    (k j : ChatDeltaKind) (s t : List ℕ)
    → same_kind k j ≡ true
    → same_kind j tool_call ≡ false
    → atoms_of k (s ++ t) ≡ atoms_of k s ++ atoms_of j t
unfolding same_kind
same_kind_atoms content content s t h n = map-append (byte content) s t
same_kind_atoms reasoning reasoning s t h n = map-append (byte reasoning) s t
same_kind_atoms _ _ s t h n = ground arith

-- Merging loses nothing.
atoms-push_delta :
    (ds : List ChatDelta) (d : ChatDelta)
    → atoms (push_delta ds d) ≡ atoms ds ++ atoms_of d.kind d.text
unfolding push_delta merges
atoms-push_delta [] d = append-nil _
atoms-push_delta (b ∷ []) d = ground (
  arith,
  same_kind_atoms b.kind d.kind b.text d.text,
  append-nil (atoms_of d.kind d.text),
  append-nil (atoms_of b.kind b.text),
  append-nil (atoms_of b.kind (b.text ++ d.text)),
)
atoms-push_delta (a ∷ b ∷ ds) d = simp (atoms-push_delta (b ∷ ds) d, append_assoc)

-- The producer and the consumer of a request that is being served, in any order.
pub data Turn : Type 0 where
  produce : ChatDelta → Turn
  consume : Turn

-- What the consumer is handed, and the state that is left.
abbrev pub handed : Recv → List ChatDelta
handed (item d) = d ∷ []
handed ended = []
handed waiting = []

unfoldable pub serve : State → List Turn → List ChatDelta × State
serve s [] = ([], s)
serve s (produce d ∷ turns) = serve (send s d) turns
serve s (consume ∷ turns) =
    let (r, s') = recv s in let (out, last) = serve s' turns in (handed r ++ out, last)

abbrev pub produced : List Turn → List ChatDelta
produced [] = []
produced (produce d ∷ turns) = d ∷ produced turns
produced (consume ∷ turns) = produced turns

send_lossless :
    (s : State) (d : ChatDelta)
    → s.closed ≡ false
    → (send s d).overflowed ≡ false
    → (atoms (send s d).entries ≡ atoms s.entries ++ atoms_of d.kind d.text)
      × ((send s d).closed ≡ false)
unfolding send
send_lossless s d c o = ground (arith, atoms-push_delta s.entries d)

recv_entries_lossless :
    (ds : List ChatDelta) (s : State)
    → s.entries ≡ ds
    → (atoms (handed (recv_entries ds s).0) ++ atoms (recv_entries ds s).1.entries ≡ atoms ds)
      × ((recv_entries ds s).1.closed ≡ s.closed)
      × ((recv_entries ds s).1.overflowed ≡ s.overflowed)
unfolding recv_entries
recv_entries_lossless [] s e = ground arith
recv_entries_lossless (d ∷ ds) s e = (simp append-nil, refl, refl)

recv_lossless :
    (s : State)
    → (atoms (handed (recv s).0) ++ atoms (recv s).1.entries ≡ atoms s.entries)
      × ((recv s).1.closed ≡ s.closed)
      × ((recv s).1.overflowed ≡ s.overflowed)
unfolding recv
recv_lossless s = recv_entries_lossless s.entries s refl

send_sticky : (s : State) (d : ChatDelta) → s.overflowed ≡ true → (send s d).overflowed ≡ true
unfolding send
send_sticky s d o = ground arith

serve_sticky :
    (s : State) (turns : List Turn) → s.overflowed ≡ true → (serve s turns).1.overflowed ≡ true
unfolding serve
serve_sticky s [] o = o
serve_sticky s (produce d ∷ turns) o = serve_sticky (send s d) turns (send_sticky s d o)
serve_sticky s (consume ∷ turns) o = serve_sticky (recv s).1 turns ((recv_lossless s).2 ∙ o)

-- An overflow, once there, shows at the end of the run.
not_overflowed_before :
    (s : State) (turns : List Turn) → (serve s turns).1.overflowed ≡ false → s.overflowed ≡ false
not_overflowed_before s turns h = elim (Bool-cases s.overflowed) [
  | inl o ↦ cc (serve_sticky s turns o)
  | inr o ↦ o
]

serve_lossless_from :
    (s : State) (turns : List Turn)
    → s.closed ≡ false
    → (serve s turns).1.overflowed ≡ false
    → atoms (serve s turns).0 ++ atoms (serve s turns).1.entries
      ≡ atoms s.entries ++ atoms (produced turns)
unfolding serve
serve_lossless_from s [] c o = sym (append-nil _)
serve_lossless_from s (produce d ∷ turns) c o =
    let ok = send_lossless s d c (not_overflowed_before (send s d) turns o) in
    serve_lossless_from (send s d) turns ok.1 o ∙ simp (ok.0, append_assoc)
serve_lossless_from s (consume ∷ turns) c o =
    let kept = recv_lossless s in
    let ih = serve_lossless_from (recv s).1 turns (kept.1 ∙ c) o in
    rw (← kept.0) (simp (atoms-append, append_assoc, ih))

-- Serving a new queue with any interleaving of sends and receives that does not trip the cap: what
-- the consumer was handed, followed by what is still queued, is byte for byte and in order what was
-- sent, each byte in its own stream, and every tool-call fragment whole.
pub serve_lossless :
    (turns : List Turn)
    → (serve delta_channel turns).1.overflowed ≡ false
    → atoms (serve delta_channel turns).0 ++ atoms (serve delta_channel turns).1.entries
      ≡ atoms (produced turns)
serve_lossless turns o = serve_lossless_from delta_channel turns refl o

backlog-send :
    (s : State) (d : ChatDelta)
    → Inv s
    → s.overflowed ≡ false
    → s.closed ≡ false
    → backlog s.entries + length d.text ≤ cap_bytes
    → ((send s d).overflowed ≡ false)
      × ((send s d).closed ≡ false)
      × (backlog (send s d).entries ≡ backlog s.entries + length d.text)
unfolding send
backlog-send s d h o c room = ground (arith, backlog-push_delta s.entries d, h.counted o)

backlog-recv : (s : State) → backlog (recv s).1.entries ≤ backlog s.entries
unfolding recv
backlog-recv s = ground arith

serve_within_cap :
    (s : State) (turns : List Turn)
    → Inv s
    → s.overflowed ≡ false
    → s.closed ≡ false
    → backlog s.entries + backlog (produced turns) ≤ cap_bytes
    → (serve s turns).1.overflowed ≡ false
unfolding serve
serve_within_cap s [] h o c room = o
serve_within_cap s (produce d ∷ turns) h o c room =
    let kept = backlog-send s d h o c (omega arith) in
    serve_within_cap (send s d) turns (unfold step in step-Inv s (sends d) h) kept.0 kept.1
      (omega (arith, kept.2))
serve_within_cap s (consume ∷ turns) h o c room =
    let kept = recv_lossless s in
    serve_within_cap (recv s).1 turns (unfold step in step-Inv s recvs h) (kept.2 ∙ o) (kept.1 ∙ c)
      (omega (arith, backlog-recv s))

-- `while let Some(d) = rx.recv().await`: the loop of a consumer; `none` if it would have to wait
-- or the fuel is out.
unfoldable pub drain : ℕ → State → Option (List ChatDelta)
drain zero s = none
drain (suc fuel) s = elim (recv s).0 [
  | item d ↦ elim (drain fuel (recv s).1) [ none ↦ none | some ds ↦ some (d ∷ ds) ]
  | ended ↦ some []
  | waiting ↦ none
]

drain-entries :
    (ds : List ChatDelta) (s : State)
    → s.entries ≡ ds
    → s.closed ≡ true
    → drain (suc (length ds)) s ≡ some ds
unfolding drain recv
drain-entries [] s e c = ground arith
drain-entries (d ∷ ds) s e c = rw (e, recv_entries) (ground (arith, drain-entries ds (recv s).1))

-- If the deltas of a request fit under the cap together, then after any interleaving of sends and
-- receives and the drop of the sender, receiving until the end terminates within one round more
-- than there are entries, and all that the consumer has received is exactly what was sent.
pub drained_stream_complete :
    (turns : List Turn)
    → backlog (produced turns) ≤ cap_bytes
    → (rest : List ChatDelta) × (drain
          (suc (length (serve delta_channel turns).1.entries))
          (drop_sender (serve delta_channel turns).1)
        ≡ some rest)
      × (atoms ((serve delta_channel turns).0 ++ rest) ≡ atoms (produced turns))
unfolding drop_sender
drained_stream_complete turns room =
    let last = (serve delta_channel turns).1 in
    let fits = serve_within_cap delta_channel turns (ground arith) refl refl (omega arith) in
    (
      last.entries,
      drain-entries last.entries (record last { closed = true }) refl refl,
      atoms-append (serve delta_channel turns).0 last.entries ∙ serve_lossless turns fits,
    )
