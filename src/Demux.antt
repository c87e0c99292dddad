-- ===== src/Demux.antt =====
-- `ReplyDemux` of src/actor.rs: the waiters for responses and the sinks of chat streams, by request
-- id. Each oneshot channel and each delta queue has an identity, under which its receiver finds it
-- after the map has let go of its sender. Every method locks one map once, and is one step.
use higgs.Base.Assoc.{get, insert, remove, get-insert, get-remove}
use higgs.DeltaQueue.{State, ChatDelta, delta_channel, send, drop_sender}
pub mod Stream
mod Examples
use higgs.Base.{
  arith, beq_refl, string_eq, nat_eq, ◌==◌, Option-cases, ◌∷◌, [], List, some, none, Option, false,
  inr, inl, ◌∙◌, refl, ◌≡◌, ◌+◌, ℕ,
}

-- What the receiver of a oneshot channel sees.
pub data Reply (R : Type 0) : Type 0 where
  waiting cancelled : Reply R
  answered : R → Reply R

pub record ReplyDemux (R : Type 0) : Type 0 where
  pub pending : List (ℕ × ℕ)
  pub chat_sinks : List (ℕ × ℕ)
  pub oneshots : List (ℕ × Reply R)
  pub queues : List (ℕ × State)
  pub next : ℕ

unfoldable pub written {ℓ} : {A : Type ℓ} → ℕ → (A → A) → List (ℕ × A) → Option A → List (ℕ × A)
written k f m none = m
written k f m (some s) = insert k (f s) m

-- A write to the channel of that identity, where it exists.
unfoldable pub update {ℓ} : {A : Type ℓ} → ℕ → (A → A) → List (ℕ × A) → List (ℕ × A)
unfolding written
update k f m = written k f m (get k m)

-- The write through a sender that a map may hold.
unfoldable pub through {ℓ} : {A : Type ℓ} → Option ℕ → (A → A) → List (ℕ × A) → List (ℕ × A)
through none f m = m
through (some k) f m = update k f m

close_all : List (ℕ × ℕ) → List (ℕ × State) → List (ℕ × State)
close_all [] m = m
close_all ((id, k) ∷ ks) m = close_all ks (update k drop_sender m)

module _ {R : Type 0} where
  -- ReplyDemux::new
  abbrev pub new : ReplyDemux R
  new = record { pending = []; chat_sinks = []; oneshots = []; queues = []; next = 0 }

  -- A sender that is dropped before it answers cancels its receiver.
  unfoldable pub cancel : Reply R → Reply R
  cancel waiting = cancelled
  cancel r = r

  unfoldable pub fulfil : R → Reply R → Reply R
  fulfil resp waiting = answered resp
  fulfil resp r = r

  -- register_pending; an earlier waiter of the id is dropped with its sender.
  unfoldable pub register_pending : ℕ → ReplyDemux R → ℕ × ReplyDemux R
  register_pending id d = (
    d.next,
    record d {
      pending = insert id d.next d.pending;
      oneshots = insert d.next waiting (through (get id d.pending) cancel d.oneshots);
      next = d.next + 1;
    },
  )

  -- remove_pending
  unfoldable pub remove_pending : ℕ → ReplyDemux R → ReplyDemux R
  remove_pending id d = record d {
    pending = remove id d.pending;
    oneshots = through (get id d.pending) cancel d.oneshots;
  }

  -- correlate, for a response with the id
  unfoldable pub correlate : ℕ → R → ReplyDemux R → ReplyDemux R
  correlate id resp d = record d {
    pending = remove id d.pending;
    oneshots = through (get id d.pending) (fulfil resp) d.oneshots;
  }

  unfoldable pub cancel_all : List (ℕ × ℕ) → List (ℕ × Reply R) → List (ℕ × Reply R)
  cancel_all [] m = m
  cancel_all ((id, k) ∷ ks) m = cancel_all ks (update k cancel m)

  -- fail_all_pending
  unfoldable pub fail_all_pending : ReplyDemux R → ReplyDemux R
  fail_all_pending d = record d { pending = []; oneshots = cancel_all d.pending d.oneshots }

  -- register_sink; an earlier sink of the id is dropped.
  unfoldable pub register_sink : ℕ → ReplyDemux R → ℕ × ReplyDemux R
  register_sink id d = (
    d.next,
    record d {
      chat_sinks = insert id d.next d.chat_sinks;
      queues = insert d.next delta_channel (through (get id d.chat_sinks) drop_sender d.queues);
      next = d.next + 1;
    },
  )

  -- remove_sink
  unfoldable pub remove_sink : ℕ → ReplyDemux R → ReplyDemux R
  remove_sink id d = record d {
    chat_sinks = remove id d.chat_sinks;
    queues = through (get id d.chat_sinks) drop_sender d.queues;
  }

  -- route_chunk
  unfoldable pub route_chunk : ℕ → ChatDelta → ReplyDemux R → ReplyDemux R
  route_chunk id delta d = record d {
    queues = through (get id d.chat_sinks) (λ s. send s delta) d.queues;
  }

  -- clear_sinks
  unfoldable pub clear_sinks : ReplyDemux R → ReplyDemux R
  unfolding close_all
  clear_sinks d = record d { chat_sinks = []; queues = close_all d.chat_sinks d.queues }

get-written_other {ℓ} :
    {A : Type ℓ} (k c : ℕ) (f : A → A) (m : List (ℕ × A)) (o : Option A)
    → (k == c) ≡ false
    → get c (written k f m o) ≡ get c m
unfolding written
get-written_other k c f m none e = refl
get-written_other k c f m (some s) e = get-insert k c (f s) m ∙ rw e refl

get-written {ℓ} :
    {A : Type ℓ} (c : ℕ) (f : A → A) (m : List (ℕ × A)) (o : Option A) (s : A)
    → o ≡ some s
    → get c (written c f m o) ≡ some (f s)
unfolding written
get-written c f m none s e = cc e
get-written c f m (some t) s e = get-insert c c (f t) m ∙ rw (beq_refl c) (ground (arith, e))

-- A write through a sender of another channel leaves a channel as it was.
pub get-through {ℓ} :
    {A : Type ℓ} (o : Option ℕ) (f : A → A) (c : ℕ) (m : List (ℕ × A))
    → ((k : ℕ) → o ≡ some k → (k == c) ≡ false)
    → get c (through o f m) ≡ get c m
unfolding through update
get-through none f c m h = refl
get-through (some k) f c m h = get-written_other k c f m (get k m) (h k refl)

-- A write through its own sender changes it.
pub get-update {ℓ} :
    {A : Type ℓ} (f : A → A) (c : ℕ) (s : A) (m : List (ℕ × A))
    → get c m ≡ some s
    → get c (update c f m) ≡ some (f s)
unfolding update
get-update f c s m e = get-written c f m (get c m) s e

get-written_none {ℓ} :
    {A : Type ℓ} (f : A → A) (c : ℕ) (m : List (ℕ × A)) (o : Option A)
    → o ≡ none
    → get c (written c f m o) ≡ get c m
unfolding written
get-written_none f c m none e = refl
get-written_none f c m (some s) e = cc e

pub get-update_absent {ℓ} :
    {A : Type ℓ} (f : A → A) (c : ℕ) (m : List (ℕ × A))
    → get c m ≡ none
    → get c (update c f m) ≡ none
unfolding update
get-update_absent f c m e = get-written_none f c m (get c m) e ∙ e

-- A write to another channel leaves a channel as it was.
pub get-update_other {ℓ} :
    {A : Type ℓ} (f : A → A) (j c : ℕ) (m : List (ℕ × A))
    → (j == c) ≡ false
    → get c (update j f m) ≡ get c m
unfolding update
get-update_other f j c m e = get-written_other j c f m (get j m) e
