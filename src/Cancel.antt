-- ===== src/Cancel.antt =====
-- src/catalog/cancel.rs: the registry of downloads that can be cancelled. A `watch` channel and the
-- counters of its download have one fresh identity; the lock makes each method one step. The module
-- Pull is `cancellable_pull`.
use higgs.Base.Assoc.{get, insert, remove, contains_key}
pub mod Guards
pub mod Pull
pub mod Landed
mod Examples
use higgs.Base.{
  beq_refl, arith, ◌∙◌, some-injective, string_eq, nat_eq, ◌==◌, Eq, if◌then◌else◌, map, [], List,
  some, none, Option, ◌&&◌, false, true, Bool, ◌↔◌, ap, refl, ◌≡◌, String, ◌+◌, ℕ, take,
}

-- the target node, the repository and the file
pub record PullKey : Type 0 where
  pub node : Option String
  pub repo : String
  pub file : String

unfoldable pub same_node : Option String → Option String → Bool
same_node none none = true
same_node (some a) (some b) = a == b
same_node _ _ = false

same_node_iff : (a b : Option String) → (same_node a b ≡ true) ↔ (a ≡ b)
unfolding same_node
same_node_iff none none = (λ _. refl, λ _. refl)
same_node_iff (some a) (some b) =
    (λ e. ap some ((string_eq.decides a b).0 e), λ e. (string_eq.decides a b).1 (some-injective e))
same_node_iff none (some b) = (λ e. cc e, λ e. cc e)
same_node_iff (some a) none = (λ e. cc e, λ e. cc e)

abbrev pub same_key : PullKey → PullKey → Bool
same_key a b = same_node a.node b.node && (a.repo == b.repo && a.file == b.file)

same_fields : (a b : PullKey) → a.node ≡ b.node → a.repo ≡ b.repo → a.file ≡ b.file → a ≡ b
same_fields a b n r f =
    ap (λ x. record a { node = x }) n
    ∙ ap (λ x. record a { node = b.node; repo = x }) r
    ∙ ap (λ x. record a { node = b.node; repo = b.repo; file = x }) f

same_key_refl : (a : PullKey) → same_key a a ≡ true
same_key_refl a = rw ((same_node_iff a.node a.node).1 refl, beq_refl a.repo, beq_refl a.file) refl

pub same_key_iff : (a b : PullKey) → (same_key a b ≡ true) ↔ (a ≡ b)
same_key_iff a b = (
  λ e.
      same_fields a b ((same_node_iff a.node b.node).0 (ground (arith, e)))
        ((string_eq.decides a.repo b.repo).0 (ground (arith, e)))
        ((string_eq.decides a.file b.file).0 (ground (arith, e))),
  λ e. rw (← e) (same_key_refl a),
)

instance abbrev pub key_eq : Eq PullKey
key_eq = record { test = same_key; decides = same_key_iff }

-- A watch channel, whether its receiver lives, and PullProgress; a total of 0 is an unknown one.
pub record Channel : Type 0 where
  pub fired : Bool
  pub received : Bool
  pub downloaded : ℕ
  pub total : ℕ

-- PullCancelRegistry, with the channels its entries send to and the guards that live.
pub record Registry : Type 0 where
  pub entries : List (PullKey × ℕ)
  pub channels : List (ℕ × Channel)
  pub guards : List (ℕ × PullKey)
  pub next : ℕ

-- PullCancelRegistry::new
abbrev pub new : Registry
new = record { entries = []; channels = []; guards = []; next = 0 }

-- Some identity of the guard, the receiver and the counters, or none: already in flight.
unfoldable pub register : PullKey → Registry → Option ℕ × Registry
unfolding get insert
register key r = if contains_key key r.entries then (none, r) else (
  some r.next,
  record {
    entries = insert key r.next r.entries;
    channels =
        insert r.next (record { fired = false; received = true; downloaded = 0; total = 0 })
          r.channels;
    guards = insert r.next key r.guards;
    next = r.next + 1;
  },
)

-- `entry.tx.send(true)`: refused when the receiver is gone
unfoldable pub send_true : ℕ → Option Channel → Registry → Bool × Registry
unfolding insert
send_true k none r = (false, r)
send_true k (some c) r =
    if c.received
    then (true, record r { channels = insert k (record c { fired = true }) r.channels })
    else (false, r)

unfoldable pub cancel_entry : Option ℕ → Registry → Bool × Registry
unfolding send_true get
cancel_entry none r = (false, r)
cancel_entry (some k) r = send_true k (get k r.channels) r

-- Whether the cancel is accepted; otherwise nothing is in flight under the key.
unfoldable pub cancel : PullKey → Registry → Bool × Registry
unfolding cancel_entry get
cancel key r = cancel_entry (get key r.entries) r

unfoldable pub release : ℕ → Option PullKey → Registry → Registry
unfolding remove
release k none r = r
release k (some key) r = record r { entries = remove key r.entries; guards = remove k r.guards }

-- PullCancelGuard::drop
unfoldable pub drop_guard : ℕ → Registry → Registry
unfolding release get
drop_guard k r = release k (get k r.guards) r

unfoldable pub change : ℕ → (Channel → Channel) → Option Channel → Registry → Registry
unfolding insert
change k f none r = r
change k f (some c) r = record r { channels = insert k (f c) r.channels }

-- `cancellable_pull` has resolved and dropped its receiver.
unfoldable pub drop_receiver : ℕ → Registry → Registry
unfolding change get
drop_receiver k r = change k (λ c. record c { received = false }) (get k r.channels) r

abbrev total_or_zero : Option ℕ → ℕ
total_or_zero none = 0
total_or_zero (some n) = n

-- PullProgress::set
unfoldable pub set : ℕ → ℕ → Option ℕ → Registry → Registry
unfolding change get
set k downloaded total r =
    change k (λ c. record c { downloaded = downloaded; total = total_or_zero total })
      (get k r.channels) r

pub record InFlightPull : Type 0 where
  pub key : PullKey
  pub downloaded : ℕ
  pub total : Option ℕ

unfoldable pub report : PullKey → Option Channel → InFlightPull
report key none = record { key = key; downloaded = 0; total = none }
report key (some c) = record {
  key = key;
  downloaded = c.downloaded;
  total = if c.total == 0 then none else some c.total;
}

unfoldable pub reported : List (ℕ × Channel) → PullKey × ℕ → InFlightPull
unfolding get report
reported channels (key, k) = report key (get k channels)

unfoldable pub in_flight : Registry → List InFlightPull
unfolding take reported
in_flight r = map (reported r.channels) (take 16 r.entries)
