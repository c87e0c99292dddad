-- ===== src/LogBus/History.antt =====
-- A ring is the end of its source's history.
use higgs.Base.Assoc.{get, insert, remove, get-insert, get-remove}
use higgs.LogBus.{
  snapshot, last_n, worker, new, same_source_iff, ring_of, ring_or_empty, push_ring, evict_node,
  of_node, evict_remote, evict_local, push, make_room, Entry, ring_cap, same_source, remote_worker,
  local_worker, LogSource, source_eq, LogBus,
}
use higgs.Base.{
  absurd_bool, map, min, some, Option, false, true, Bool, retain, length-append, Bool-cases, leb→le,
  leb, none, not, inr, inl, ◌∙◌, ap, sym, string_eq, nat_eq, length, if◌then◌else◌, arith, ◌++◌,
  ◌∷◌, [], List, refl, ◌≡◌, String, ◌≤◌, ◌-◌, ◌+◌, suc, zero, ℕ, drop,
}

pub data Op : Type 0 where
  push_line : LogSource → String → Op
  drop_local drop_node : ℕ → Op
  drop_remote : ℕ → ℕ → Op

unfoldable pub apply : Op → LogBus → LogBus
unfolding push evict_local evict_node evict_remote
apply (push_line source text) bus = push source text bus
apply (drop_local id) bus = evict_local id bus
apply (drop_node node) bus = evict_node node bus
apply (drop_remote node id) bus = evict_remote node id bus

unfoldable pub apply_all : List Op → LogBus → LogBus
unfolding apply
apply_all [] bus = bus
apply_all (op ∷ ops) bus = apply_all ops (apply op bus)

-- Every line of a source since its last eviction, without a bound.
unfoldable pub noted : LogSource → Op → ℕ → List Entry → List Entry
unfolding same_source of_node
noted s (push_line source text) n h =
    if same_source source s then h ++ record { seq = n; text = text } ∷ [] else h
noted s (drop_local id) n h = if same_source (local_worker id) s then [] else h
noted s (drop_node node) n h = if of_node node s then [] else h
noted s (drop_remote node id) n h = if same_source (remote_worker node id) s then [] else h

unfoldable pub stamped : Op → ℕ → ℕ
stamped (push_line _ _) n = n + 1
stamped _ n = n

unfoldable pub history : LogSource → List Op → ℕ → List Entry → List Entry
unfolding noted stamped
history s [] n h = h
history s (op ∷ ops) n h = history s ops (stamped op n) (noted s op n h)

-- The last lines that fit a ring.
unfoldable pub kept : List Entry → List Entry
unfolding drop
kept h = drop (length h - ring_cap) h

drop-snoc :
    (k : ℕ) (h : List Entry) (e : Entry) → k ≤ length h → drop k (h ++ e ∷ []) ≡ drop k h ++ e ∷ []
unfolding drop
drop-snoc zero h e l = refl
drop-snoc (suc k) [] e l = ground (arith, l)
drop-snoc (suc k) (x ∷ h) e l = drop-snoc k h e (omega (arith, l))

drop_nil : (k : ℕ) → drop {A = Entry} k [] ≡ []
unfolding drop
drop_nil zero = refl
drop_nil (suc k) = refl

drop-drop : (j k : ℕ) (h : List Entry) → drop k (drop j h) ≡ drop (j + k) h
unfolding drop
drop-drop zero k h = ap (λ n. drop n h) (omega arith)
drop-drop (suc j) k [] = drop_nil k ∙ sym (drop_nil (suc j + k))
drop-drop (suc j) k (x ∷ h) =
    let same : suc (j + k) ≡ suc j + k = omega arith in
    drop-drop j k h ∙ ap (λ n. drop n (x ∷ h)) same

length-drop : (k : ℕ) (h : List Entry) → length (drop k h) ≡ length h - k
unfolding drop
length-drop zero h = omega arith
length-drop (suc k) [] = omega arith
length-drop (suc k) (x ∷ h) = omega (arith, length-drop k h)

make_room-drop : (ring : List Entry) → make_room ring ≡ drop (suc (length ring) - ring_cap) ring
unfolding make_room drop
make_room-drop [] = sym (drop_nil (1 - ring_cap))
make_room-drop (e ∷ ring) = elim (Bool-cases (leb ring_cap (suc (length ring)))) [
  | inl t ↦
      let same : suc (suc (length ring) - ring_cap) ≡ suc (suc (length ring)) - ring_cap =
        omega (arith, leb→le ring_cap (suc (length ring)) t) in
      rw t (make_room-drop ring ∙ ap (λ n. drop n (e ∷ ring)) same)
  | inr f ↦
      let none : 0 ≡ suc (suc (length ring)) - ring_cap = ground (arith, f) in
      rw f (ap (λ n. drop n (e ∷ ring)) none)
]

push_ring-kept : (h : List Entry) (e : Entry) → push_ring (kept h) e ≡ kept (h ++ e ∷ [])
unfolding push_ring kept
push_ring-kept h e =
    let cut : (length h - ring_cap) + (suc (length (drop (length h - ring_cap) h)) - ring_cap)
        ≡ length (h ++ e ∷ []) - ring_cap =
      omega (arith, length-drop (length h - ring_cap) h, length-append h (e ∷ [])) in
    ap (λ r. r ++ e ∷ [])
      (make_room-drop (drop (length h - ring_cap) h)
        ∙ drop-drop (length h - ring_cap) _ h
        ∙ ap (λ n. drop n h) cut)
    ∙ sym
        (drop-snoc (length (h ++ e ∷ []) - ring_cap) h e (omega (arith, length-append h (e ∷ []))))

if_read :
    (b : Bool) (x y : Option (List Entry))
    → ring_or_empty (if b then x else y) ≡ (if b then ring_or_empty x else ring_or_empty y)
if_read true x y = refl
if_read false x y = refl

-- A removed ring reads as empty, and the others as before.
ring_removed :
    (k s : LogSource) (bus : LogBus)
    → ring_of s (record bus { rings = remove k bus.rings })
      ≡ (if same_source k s then [] else ring_of s bus)
unfolding ring_of ring_or_empty
ring_removed k s bus =
    ap ring_or_empty (get-remove k s bus.rings) ∙ if_read (same_source k s) none (get s bus.rings)

ring_inserted :
    (k s : LogSource) (ring : List Entry) (rings : List (LogSource × List Entry))
    → ring_or_empty (get s (insert k ring rings))
      ≡ (if same_source k s then ring else ring_or_empty (get s rings))
unfolding ring_or_empty
ring_inserted k s ring rings =
    ap ring_or_empty (get-insert k s ring rings)
    ∙ if_read (same_source k s) (some ring) (get s rings)

hidden :
    (node : ℕ) (k s : LogSource) (ring : List Entry) (rings : List (LogSource × List Entry))
    → of_node node k ≡ true
    → (if of_node node s then [] else ring_or_empty (get s rings)) ≡ (
        if of_node node s
        then []
        else ring_or_empty (if same_source k s then some ring else get s rings))
hidden node k s ring rings t = elim (Bool-cases (same_source k s)) [
  | inl e ↦
      let here : of_node node s ≡ true = ap (of_node node) (sym ((same_source_iff k s).0 e)) ∙ t in
      rw here refl
  | inr n ↦ rw n refl
]

ring_node :
    (node : ℕ) (s : LogSource) (rings : List (LogSource × List Entry))
    → ring_or_empty (get s (retain (λ r. not (of_node node r.0)) rings))
      ≡ (if of_node node s then [] else ring_or_empty (get s rings))
unfolding ring_or_empty get retain
ring_node node s [] = ground arith
ring_node node s ((k, ring) ∷ rings) = elim (Bool-cases (of_node node k)) [
  | inl t ↦ rw t (ring_node node s rings ∙ hidden node k s ring rings t)
  | inr f ↦ elim (Bool-cases (same_source k s)) [
    | inl e ↦
        let other : of_node node s ≡ false =
          ap (of_node node) (sym ((same_source_iff k s).0 e)) ∙ f in
        rw (f, e, other) refl
    | inr n ↦ rw (f, n) (ring_node node s rings)
  ]
]

pushed :
    (source s : LogSource) (bus : LogBus) (h : List Entry) (line : Entry)
    → ring_of s bus ≡ kept h
    → (if same_source source s then push_ring (ring_of source bus) line else ring_of s bus)
      ≡ kept (if same_source source s then h ++ line ∷ [] else h)
pushed source s bus h line e = elim (Bool-cases (same_source source s)) [
  | inl t ↦ rw t (
      ap (λ r. push_ring r line) (ap (λ x. ring_of x bus) ((same_source_iff source s).0 t) ∙ e)
      ∙ push_ring-kept h line)
  | inr f ↦ rw f e
]

dropped :
    (b : Bool) (bus : LogBus) (s : LogSource) (h : List Entry)
    → ring_of s bus ≡ kept h
    → (if b then [] else ring_of s bus) ≡ kept (if b then [] else h)
unfolding kept
dropped true bus s h e = sym (drop_nil (0 - ring_cap))
dropped false bus s h e = e

ring_of-apply :
    (op : Op) (s : LogSource) (bus : LogBus) (h : List Entry)
    → ring_of s bus ≡ kept h
    → ring_of s (apply op bus) ≡ kept (noted s op bus.next_seq h)
unfolding apply push evict_local evict_remote evict_node noted ring_of
ring_of-apply (push_line source text) s bus h e =
    ring_inserted source s _ bus.rings
    ∙ pushed source s bus h (record { seq = bus.next_seq; text = text }) e
ring_of-apply (drop_local id) s bus h e =
    ring_removed (local_worker id) s bus ∙ dropped (same_source (local_worker id) s) bus s h e
ring_of-apply (drop_remote node id) s bus h e =
    ring_removed (remote_worker node id) s bus
    ∙ dropped (same_source (remote_worker node id) s) bus s h e
ring_of-apply (drop_node node) s bus h e =
    ring_node node s bus.rings ∙ dropped (of_node node s) bus s h e

stamped-apply : (op : Op) (bus : LogBus) → (apply op bus).next_seq ≡ stamped op bus.next_seq
unfolding apply push evict_local evict_remote evict_node stamped
stamped-apply (push_line source text) bus = refl
stamped-apply (drop_local id) bus = refl
stamped-apply (drop_remote node id) bus = refl
stamped-apply (drop_node node) bus = refl

ring_of-run :
    (ops : List Op) (s : LogSource) (bus : LogBus) (n : ℕ) (h : List Entry)
    → bus.next_seq ≡ n
    → ring_of s bus ≡ kept h
    → ring_of s (apply_all ops bus) ≡ kept (history s ops n h)
unfolding apply_all history
ring_of-run [] s bus n h q e = e
ring_of-run (op ∷ ops) s bus n h q e =
    ring_of-run ops s (apply op bus) (stamped op n) (noted s op n h)
      (stamped-apply op bus ∙ ap (stamped op) q)
      (ring_of-apply op s bus h e ∙ ap (λ m. kept (noted s op m h)) q)

-- A ring is the end of the history of its source: the last 2000 lines pushed to it since its last
-- eviction, with their stamps and in the order of the pushes, whatever was pushed to other sources and
-- evicted there.
pub ring_of-history :
    (ops : List Op) (s : LogSource) → ring_of s (apply_all ops new) ≡ kept (history s ops 0 [])
unfolding ring_of ring_or_empty get kept
ring_of-history ops s = ring_of-run ops s new 0 [] refl (sym (drop_nil (0 - ring_cap)))

snapshot-ring :
    (n : ℕ) (s : LogSource) (bus : LogBus)
    → same_source s worker ≡ false
    → snapshot n (some s) bus ≡ last_n (ring_of s bus) n
unfolding snapshot same_source
snapshot-ring n worker bus e = absurd_bool (sym e)
snapshot-ring n _ bus e = refl

last_n-kept : (h : List Entry) (n : ℕ) → last_n (kept h) n ≡ last_n h (min n ring_cap)
unfolding last_n kept
last_n-kept h n =
    let cut : (length h - ring_cap) + (length (drop (length h - ring_cap) h) - n)
        ≡ length h - min n ring_cap =
      omega (arith, length-drop (length h - ring_cap) h) in
    ap (map λ e. e.text) (drop-drop (length h - ring_cap) _ h ∙ ap (λ m. drop m h) cut)

-- After any pushes and evictions, the snapshot of one source is the last lines of its history, at most
-- as many as are asked for and at most 2000: those pushed to it since its last eviction, oldest first,
-- whatever was pushed to other sources and evicted there. The union filter `worker` is left out.
pub snapshot-history :
    (ops : List Op) (s : LogSource) (n : ℕ)
    → same_source s worker ≡ false
    → snapshot n (some s) (apply_all ops new) ≡ last_n (history s ops 0 []) (min n ring_cap)
snapshot-history ops s n e =
    snapshot-ring n s (apply_all ops new) e
    ∙ ap (λ r. last_n r n) (ring_of-history ops s)
    ∙ last_n-kept (history s ops 0 []) n
