-- ===== src/Supervisor/Replay/Current.antt =====
-- What a replay that sends its load has seen before.
use mathlib.Core.Path.{subst}
use mathlib.Core.List.{head-eq_of_cons-eq}
use higgs.Base.Assoc.{got_insert, got_remove, get, insert, remove}
use higgs.Supervisor.Replay.{
  after, send_as, look_epoch_as, look_stopped_as, capture_as, clone_as, flag, send, look_epoch,
  look_stopped, clone, bump, write, access, capture, Access, captured, cloned, willing, current,
  Replay, Loads,
}
use higgs.Base.{
  ◌∙◌, ◌==◌, length, Bool-cases, arith, false, inr, inl, ◌≢◌, ap, refl, string_eq, nat_eq, ◌∷◌, [],
  List, some, none, Option, ◌⊎◌, ◌≡◌, ◌<◌, ◌≤◌, ℕ, ◌++◌, sym,
}

module _ {L : Type 0} where
  -- `past` is the accesses of `now` up to some moment.
  unfoldable pub Before : List (Access L) → List (Access L) → Type 0
  Before past now = (since : List (Access L)) × (now ≡ since ++ past)

  -- What an access has done and found that puts the replay where it stands.
  Came : ℕ → Access L → Loads L → Replay L → Type 0
  Came id a s (cloned params) = (a ≡ clone id) × (s.last_load ≡ some params)
  Came id a s (captured params epoch) =
      (a ≡ capture id) × (get id s.replays ≡ some (cloned params)) × (s.load_epoch ≡ epoch)
  Came id a s (willing params epoch) =
      (a ≡ look_stopped id)
      × (get id s.replays ≡ some (captured params epoch))
      × (s.stopped ≡ false)
  Came id a s (current params) =
      (a ≡ look_epoch id)
      × (epoch : ℕ) × (get id s.replays ≡ some (willing params epoch))
      × (s.load_epoch ≡ epoch)

  Origin : ℕ → Access L → Loads L → Replay L → Type 0
  Origin id a s r = (get id s.replays ≡ some r) ⊎ Came id a s r

  inserted :
      (j id : ℕ) (a : Access L) (s : Loads L) (put r : Replay L)
      → Came j a s put
      → get id (insert j put s.replays) ≡ some r
      → Origin id a s r
  unfolding Origin
  inserted j id a s put r c e = elim (got_insert j id put s.replays e) [
    | inl (p, q) ↦ inr (subst (λ x. Came x a s r) p (subst (Came j a s) q c))
    | inr (_, k) ↦ inl k
  ]

  removed :
      (j id : ℕ) (a : Access L) (s : Loads L) (r : Replay L)
      → get id (remove j s.replays) ≡ some r
      → Origin id a s r
  unfolding Origin
  removed j id a s r e = inl (got_remove j id s.replays e).1

  cloned-Origin :
      (j id : ℕ) (o : Option L) (s : Loads L) (r : Replay L)
      → s.last_load ≡ o
      → get id (clone_as j o s).replays ≡ some r
      → Origin id (clone j) s r
  unfolding clone_as Came Origin
  cloned-Origin j id none s r o e = inl e
  cloned-Origin j id (some params) s r o e = inserted j id (clone j) s (cloned params) r (refl, o) e

  captured-Origin :
      (j id : ℕ) (o : Option (Replay L)) (s : Loads L) (r : Replay L)
      → get j s.replays ≡ o
      → get id (capture_as j o s).replays ≡ some r
      → Origin id (capture j) s r
  unfolding capture_as Came Origin
  captured-Origin j id (some (cloned params)) s r o e =
      inserted j id (capture j) s (captured params s.load_epoch) r (refl, o, refl) e
  captured-Origin j id none s r o e = inl e
  captured-Origin j id (some (captured _ _)) s r o e = inl e
  captured-Origin j id (some (willing _ _)) s r o e = inl e
  captured-Origin j id (some (current _)) s r o e = inl e

  stopped-Origin :
      (j id : ℕ) (o : Option (Replay L)) (s : Loads L) (r : Replay L)
      → get j s.replays ≡ o
      → get id (look_stopped_as j o s).replays ≡ some r
      → Origin id (look_stopped j) s r
  unfolding look_stopped_as Came Origin
  stopped-Origin j id (some (captured params epoch)) s r o e = elim (Bool-cases s.stopped) [
    | inl t ↦ removed j id (look_stopped j) s r (rw t at e)
    | inr f ↦ inserted j id (look_stopped j) s (willing params epoch) r (refl, o, f) (rw f at e)
  ]
  stopped-Origin j id none s r o e = inl e
  stopped-Origin j id (some (cloned _)) s r o e = inl e
  stopped-Origin j id (some (willing _ _)) s r o e = inl e
  stopped-Origin j id (some (current _)) s r o e = inl e

  epoch-Origin :
      (j id : ℕ) (o : Option (Replay L)) (s : Loads L) (r : Replay L)
      → get j s.replays ≡ o
      → get id (look_epoch_as j o s).replays ≡ some r
      → Origin id (look_epoch j) s r
  unfolding look_epoch_as Came Origin
  epoch-Origin j id (some (willing params epoch)) s r o e =
      elim (Bool-cases (s.load_epoch == epoch)) [
        | inl t ↦
            inserted j id (look_epoch j) s (current params) r
              (refl, epoch, o, (nat_eq.decides s.load_epoch epoch).0 t) (rw t at e)
        | inr f ↦ removed j id (look_epoch j) s r (rw f at e)
      ]
  epoch-Origin j id none s r o e = inl e
  epoch-Origin j id (some (cloned _)) s r o e = inl e
  epoch-Origin j id (some (captured _ _)) s r o e = inl e
  epoch-Origin j id (some (current _)) s r o e = inl e

  send-Origin :
      (j id : ℕ) (o : Option (Replay L)) (s : Loads L) (r : Replay L)
      → get id (send_as j o s).replays ≡ some r
      → Origin id (send j) s r
  unfolding send_as Origin
  send-Origin j id (some (current params)) s r e = removed j id (send j) s r e
  send-Origin j id none s r e = inl e
  send-Origin j id (some (cloned _)) s r e = inl e
  send-Origin j id (some (captured _ _)) s r e = inl e
  send-Origin j id (some (willing _ _)) s r e = inl e

  origin :
      (id : ℕ) (a : Access L) (s : Loads L) (r : Replay L)
      → get id (access a s).replays ≡ some r
      → Origin id a s r
  unfolding access Origin
  origin id (write load) s r e = inl e
  origin id bump s r e = elim (Bool-cases (s.unbumped == 0)) [
    | inl t ↦ inl (rw t at e)
    | inr f ↦ inl (rw f at e)
  ]
  origin id (clone j) s r e = cloned-Origin j id s.last_load s r refl e
  origin id (capture j) s r e = captured-Origin j id (get j s.replays) s r refl e
  origin id (look_stopped j) s r e = stopped-Origin j id (get j s.replays) s r refl e
  origin id (look_epoch j) s r e = epoch-Origin j id (get j s.replays) s r refl e
  origin id (send j) s r e = send-Origin j id (get j s.replays) s r e
  origin id (flag b) s r e = inl e

  -- Wherever a replay stands, an access before has put it there.
  history :
      (id : ℕ) (now : List (Access L)) (r : Replay L)
      → get id (after now).replays ≡ some r
      → (a : Access L) × (past : List (Access L)) × Before (a ∷ past) now × Came id a (after past) r
  unfolding after Before Origin get
  history id [] r e = cc e
  history id (b ∷ now) r e = elim (origin id b (after now) r e) [
    | inl kept ↦
        let (a, past, (since, same), came) = history id now r kept in
        (a, past, (b ∷ since, ap (λ x. b ∷ x) same), came)
    | inr came ↦ (b, now, ([], refl), came)
  ]

  -- Since the epoch `e`, and until it changes, the last load is `l` unless a bump is to come.
  Kept : Option L → ℕ → Loads L → Type 0
  Kept l e s = (e ≤ s.load_epoch) × (s.load_epoch ≡ e → (0 < s.unbumped) ⊎ (s.last_load ≡ l))

  stopped-Kept :
      (l : Option L) (e j : ℕ) (o : Option (Replay L)) (s : Loads L)
      → Kept l e s
      → Kept l e (look_stopped_as j o s)
  unfolding look_stopped_as Kept
  stopped-Kept l e j (some (captured params epoch)) s k = elim (Bool-cases s.stopped) [
    | inl t ↦ rw t (k.0, k.1)
    | inr f ↦ rw f (k.0, k.1)
  ]
  stopped-Kept l e j none s k = k
  stopped-Kept l e j (some (cloned _)) s k = k
  stopped-Kept l e j (some (willing _ _)) s k = k
  stopped-Kept l e j (some (current _)) s k = k

  epoch-Kept :
      (l : Option L) (e j : ℕ) (o : Option (Replay L)) (s : Loads L)
      → Kept l e s
      → Kept l e (look_epoch_as j o s)
  unfolding look_epoch_as Kept
  epoch-Kept l e j (some (willing params epoch)) s k = elim (Bool-cases (s.load_epoch == epoch)) [
    | inl t ↦ rw t (k.0, k.1)
    | inr f ↦ rw f (k.0, k.1)
  ]
  epoch-Kept l e j none s k = k
  epoch-Kept l e j (some (cloned _)) s k = k
  epoch-Kept l e j (some (captured _ _)) s k = k
  epoch-Kept l e j (some (current _)) s k = k

  others-Kept :
      (l : Option L) (e j : ℕ) (o : Option (Replay L)) (s : Loads L)
      → Kept l e s
      → Kept l e (capture_as j o s) × Kept l e (send_as j o s)
  unfolding capture_as send_as Kept
  others-Kept l e j none s k = (k, k)
  others-Kept l e j (some (cloned _)) s k = ((k.0, k.1), k)
  others-Kept l e j (some (captured _ _)) s k = (k, k)
  others-Kept l e j (some (willing _ _)) s k = (k, k)
  others-Kept l e j (some (current _)) s k = (k, (k.0, k.1))

  clone-Kept :
      (l : Option L) (e j : ℕ) (o : Option L) (s : Loads L) → Kept l e s → Kept l e (clone_as j o s)
  unfolding clone_as Kept
  clone-Kept l e j none s k = k
  clone-Kept l e j (some params) s k = (k.0, k.1)

  access-Kept :
      (l : Option L) (e : ℕ) (a : Access L) (s : Loads L) → Kept l e s → Kept l e (access a s)
  unfolding access Kept
  access-Kept l e (write load) s k = (k.0, λ _. inl (omega arith))
  access-Kept l e bump s k = elim (Bool-cases (s.unbumped == 0)) [
    | inl t ↦ rw t k
    | inr f ↦ rw f (omega (arith, k.0), λ q. absurd (omega (arith, k.0, q)))
  ]
  access-Kept l e (clone j) s k = clone-Kept l e j s.last_load s k
  access-Kept l e (capture j) s k = (others-Kept l e j (get j s.replays) s k).0
  access-Kept l e (look_stopped j) s k = stopped-Kept l e j (get j s.replays) s k
  access-Kept l e (look_epoch j) s k = epoch-Kept l e j (get j s.replays) s k
  access-Kept l e (send j) s k = (others-Kept l e j (get j s.replays) s k).1
  access-Kept l e (flag b) s k = (k.0, k.1)

  since-Kept :
      (l : Option L) (e : ℕ) (past since : List (Access L))
      → Kept l e (after past)
      → Kept l e (after (since ++ past))
  unfolding after
  since-Kept l e past [] k = k
  since-Kept l e past (a ∷ since) k =
      access-Kept l e a (after (since ++ past)) (since-Kept l e past since k)

  before-Kept :
      (l : Option L) (e : ℕ) (a : Access L) (past now : List (Access L))
      → Before (a ∷ past) now
      → Kept l e (after past)
      → Kept l e (after now)
  unfolding Before after
  before-Kept l e a past now (since, same) k =
      subst (λ x. Kept l e (after x)) (sym same)
        (since-Kept l e (a ∷ past) since (access-Kept l e a (after past) k))

  not_longer : (x : L) (xs : List L) → xs ≢ x ∷ xs
  not_longer x xs e = ground (arith, ap length e)

  sent-current :
      (id : ℕ) (o : Option (Replay L)) (s : Loads L) (params : L)
      → (send_as id o s).sent ≡ params ∷ s.sent
      → o ≡ some (current params)
  unfolding send_as
  sent-current id (some (current p)) s params e = ap (λ x. some (current x)) (head-eq_of_cons-eq e)
  sent-current id none s params e = absurd (not_longer params s.sent e)
  sent-current id (some (cloned _)) s params e = absurd (not_longer params s.sent e)
  sent-current id (some (captured _ _)) s params e = absurd (not_longer params s.sent e)
  sent-current id (some (willing _ _)) s params e = absurd (not_longer params s.sent e)

  -- What a replay has gone through that sends `params` after `now`: the moments before its clone, its
  -- capture of the epoch, its look at `stopped` and its look at the epoch, in this order.
  pub record Seen (id : ℕ) (params : L) (now : List (Access L)) : Type 0 where
    pub cloning : List (Access L)
    pub capturing : List (Access L)
    pub stopping : List (Access L)
    pub looking : List (Access L)
    pub clones : Before (clone id ∷ cloning) capturing
    pub captures : Before (capture id ∷ capturing) stopping
    pub stops : Before (look_stopped id ∷ stopping) looking
    pub looks : Before (look_epoch id ∷ looking) now
    pub was_last : (after cloning).last_load ≡ some params
    pub not_stopped : (after stopping).stopped ≡ false
    pub same_epoch : (after looking).load_epoch ≡ (after capturing).load_epoch
    pub unchanged :
        (0 < (after looking).unbumped) ⊎ ((after looking).last_load ≡ (after capturing).last_load)

  -- A replay that sends a load has, in this order, cloned it when it was the last one recorded, captured
  -- the epoch, seen the worker not stopped, and looked at the epoch; and at this last look the last load
  -- recorded was still that of the capture, unless the bump of the epoch for a later one was to come.
  pub replay_current :
      (now : List (Access L)) (id : ℕ) (params : L)
      → (access (send id) (after now)).sent ≡ params ∷ (after now).sent
      → Seen id params now
  unfolding access Came Before Kept
  replay_current now id params e =
      let s = after now in
      let (a, looking, looks, (by_look, epoch, willing_at, same)) =
        history id now (current params) (sent-current id (get id s.replays) s params e) in
      let (b, stopping, stops, (by_stop, captured_at, running)) =
        history id looking (willing params epoch) willing_at in
      let (c, capturing, captures, (by_capture, cloned_at, captured_epoch)) =
        history id stopping (captured params epoch) captured_at in
      let (d, cloning, clones, (by_clone, last)) = history id capturing (cloned params) cloned_at in
      let t = after capturing in
      let kept = before-Kept t.last_load t.load_epoch b stopping looking stops (
        before-Kept t.last_load t.load_epoch c capturing stopping captures
          (omega arith, λ _. inr refl)) in
      record {
        cloning = cloning;
        capturing = capturing;
        stopping = stopping;
        looking = looking;
        clones = subst (λ x. Before (x ∷ cloning) capturing) by_clone clones;
        captures = subst (λ x. Before (x ∷ capturing) stopping) by_capture captures;
        stops = subst (λ x. Before (x ∷ stopping) looking) by_stop stops;
        looks = subst (λ x. Before (x ∷ looking) now) by_look looks;
        was_last = last;
        not_stopped = running;
        same_epoch = same ∙ sym captured_epoch;
        unchanged = kept.1 (same ∙ sym captured_epoch);
      }
