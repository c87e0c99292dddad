-- ===== src/Cancel/Guards.antt =====
-- A registration belongs to the one guard that made it, so that a cancel reaches the download that runs.
use higgs.Base.Assoc.{get_other, get_same, get_left, got_insert, got_remove, get, insert}
use higgs.Cancel.{
  change, cancel_entry, send_true, key_eq, new, set, drop_guard, release, Channel, PullKey,
  register, drop_receiver, cancel, Registry,
}
use higgs.Base.{
  Option-cases, if◌then◌else◌, ◌≢◌, ap, some-injective, absurd_bool, string_eq, nat_eq, ◌==◌, Eq,
  Bool-cases, arith, ◌∷◌, [], List, some, none, Option, false, true, inr, inl, ◌∙◌, sym, refl, ◌≡◌,
  ◌<◌, ◌+◌, ℕ,
}

pub data Op : Type 0 where
  register_key cancel_key : PullKey → Op
  end_guard end_receiver : ℕ → Op
  tick : ℕ → ℕ → Option ℕ → Op

unfoldable pub apply : Op → Registry → Registry
unfolding register cancel drop_guard drop_receiver set
apply (register_key key) r = (register key r).1
apply (cancel_key key) r = (cancel key r).1
apply (end_guard k) r = drop_guard k r
apply (end_receiver k) r = drop_receiver k r
apply (tick k downloaded total) r = set k downloaded total r

unfoldable pub apply_all : List Op → Registry → Registry
unfolding apply
apply_all [] r = r
apply_all (op ∷ ops) r = apply_all ops (apply op r)

-- The entries and the guards point at each other.
record Tied (r : Registry) : Type 0 where
  entry_of : (k : ℕ) (key : PullKey) → get k r.guards ≡ some key → get key r.entries ≡ some k
  guard_of : (k : ℕ) (key : PullKey) → get key r.entries ≡ some k → get k r.guards ≡ some key
  below : (k : ℕ) (key : PullKey) → get k r.guards ≡ some key → k < r.next

differs {ℓ} : {K : Type ℓ} ⦃e : Eq K⦄ (k j : K) → (k ≡ j → false ≡ true) → k == j ≡ false
differs ⦃e⦄ k j n = elim (Bool-cases (k == j)) [
  | inl t ↦ absurd_bool (n ((e.decides k j).0 t))
  | inr f ↦ f
]

Tied-new : Tied new
unfolding get
Tied-new = record {
  entry_of = λ k key h. cc h;
  guard_of = λ k key h. cc h;
  below = λ k key h. cc h;
}

Tied-insert :
    (key : PullKey) (r : Registry) (channels : List (ℕ × Channel))
    → get key r.entries ≡ none
    → Tied r
    → Tied (record r {
      entries = insert key r.next r.entries;
      channels = channels;
      guards = insert r.next key r.guards;
      next = r.next + 1;
    })
Tied-insert key r channels n t = record {
  entry_of = λ k j h. elim (got_insert r.next k key r.guards h) [
    | inl q ↦ rw (← q.0, ← q.1) (get_same key r.next r.entries)
    | inr q ↦
        let old = t.entry_of k j q.1 in
        get_other key j r.next r.entries (differs key j λ c. cc (n, old, c)) ∙ old
  ];
  guard_of = λ k j h. elim (got_insert key j r.next r.entries h) [
    | inl q ↦ rw (← q.0, ← q.1) (get_same r.next key r.guards)
    | inr q ↦
        let old = t.guard_of k j q.1 in
        get_other r.next k key r.guards (differs r.next k λ c. ground (arith, t.below k j old, c))
        ∙ old
  ];
  below = λ k j h. elim (got_insert r.next k key r.guards h) [
    | inl q ↦ omega (arith, q.0)
    | inr q ↦ omega (arith, t.below k j q.1)
  ];
}

Tied-release :
    (k : ℕ) (key : PullKey) (r : Registry)
    → get k r.guards ≡ some key
    → Tied r
    → Tied (release k (some key) r)
unfolding release
Tied-release k key r g t = record {
  entry_of = λ i j h.
      let q = got_remove k i r.guards h in
      let old = t.entry_of i j q.1 in
      get_left key j r.entries (
        differs key j λ c.
          sym q.0
          ∙ (nat_eq.decides k i).1
              (some-injective (sym (t.entry_of k key g) ∙ ap (λ x. get x r.entries) c ∙ old)))
      ∙ old;
  guard_of = λ i j h.
      let q = got_remove key j r.entries h in
      let old = t.guard_of i j q.1 in
      get_left k i r.guards (
        differs k i λ c.
          sym q.0
          ∙ (key_eq.decides key j).1 (some-injective (sym g ∙ ap (λ x. get x r.guards) c ∙ old)))
      ∙ old;
  below = λ i j h. t.below i j (got_remove k i r.guards h).1;
}

-- Channels and counters do not matter.
Tied-channels :
    (r : Registry) (channels : List (ℕ × Channel))
    → Tied r
    → Tied (record r { channels = channels })
Tied-channels r channels t = record {
  entry_of = t.entry_of;
  guard_of = t.guard_of;
  below = t.below;
}

Tied-change :
    (k : ℕ) (f : Channel → Channel) (o : Option Channel) (r : Registry)
    → Tied r
    → Tied (change k f o r)
unfolding change
Tied-change k f none r t = t
Tied-change k f (some c) r t = Tied-channels r _ t

Tied-send_true : (k : ℕ) (o : Option Channel) (r : Registry) → Tied r → Tied (send_true k o r).1
unfolding send_true
Tied-send_true k none r t = t
Tied-send_true k (some c) r t = elim (Bool-cases c.received) [
  | inl e ↦ rw e (Tied-channels r _ t)
  | inr e ↦ rw e t
]

Tied-cancel_entry : (o : Option ℕ) (r : Registry) → Tied r → Tied (cancel_entry o r).1
unfolding cancel_entry
Tied-cancel_entry none r t = t
Tied-cancel_entry (some k) r t = Tied-send_true k (get k r.channels) r t

Tied-register : (key : PullKey) (r : Registry) → Tied r → Tied (register key r).1
unfolding register
Tied-register key r t = elim (Option-cases (get key r.entries)) [
  | inl n ↦ rw n (Tied-insert key r _ n t)
  | inr s ↦ rw s.1 t
]

Tied-drop_guard :
    (k : ℕ) (o : Option PullKey) (r : Registry) → get k r.guards ≡ o → Tied r → Tied (release k o r)
unfolding release
Tied-drop_guard k none r e t = t
Tied-drop_guard k (some key) r e t = Tied-release k key r e t

Tied-apply : (op : Op) (r : Registry) → Tied r → Tied (apply op r)
unfolding apply cancel drop_guard drop_receiver set
Tied-apply (register_key key) r t = Tied-register key r t
Tied-apply (cancel_key key) r t = Tied-cancel_entry (get key r.entries) r t
Tied-apply (end_guard k) r t = Tied-drop_guard k (get k r.guards) r refl t
Tied-apply (end_receiver k) r t = Tied-change k _ (get k r.channels) r t
Tied-apply (tick k downloaded total) r t = Tied-change k _ (get k r.channels) r t

Tied-apply_all : (ops : List Op) (r : Registry) → Tied r → Tied (apply_all ops r)
unfolding apply_all
Tied-apply_all [] r t = t
Tied-apply_all (op ∷ ops) r t = Tied-apply_all ops (apply op r) (Tied-apply op r t)

-- After any registrations, cancels, ends and ticks, a cancel of the key that a living guard holds is
-- accepted while the guard's download has its receiver, and then fires the channel of that guard and
-- changes nothing else; once the download has resolved, the cancel is refused and changes nothing.
pub cancel_exact :
    (ops : List Op) (key : PullKey) (k : ℕ) (c : Channel)
    → get k (apply_all ops new).guards ≡ some key
    → get k (apply_all ops new).channels ≡ some c
    → cancel key (apply_all ops new) ≡ (
        if c.received
        then (
          true,
          record (apply_all ops new) {
            channels = insert k (record c { fired = true }) (apply_all ops new).channels;
          },
        )
        else (false, apply_all ops new))
unfolding cancel cancel_entry send_true
cancel_exact ops key k c g h = rw ((Tied-apply_all ops new Tied-new).entry_of k key g, h) refl

-- A key that no guard holds is not in flight: a cancel is refused.
pub cancel_unheld :
    (ops : List Op) (key : PullKey)
    → ((k : ℕ) → get k (apply_all ops new).guards ≢ some key)
    → cancel key (apply_all ops new) ≡ (false, apply_all ops new)
unfolding cancel cancel_entry
cancel_unheld ops key n = elim (Option-cases (get key (apply_all ops new).entries)) [
  | inl e ↦ rw e refl
  | inr s ↦ absurd (n s.0 ((Tied-apply_all ops new Tied-new).guard_of s.0 key s.1))
]
