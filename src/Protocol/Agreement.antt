-- ===== src/Protocol/Agreement.antt =====
-- Both ends of a connection agree on a version: src/remote.rs.
use higgs.Base.{
  some-injective, absurd_bool, All, Option-cases, leb, ◌||◌, not, ◌∙◌, ap, sym, beq_refl, string_eq,
  nat_eq, ◌==◌, any, retain, Bool-cases, arith, ◌∷◌, [], List, some, none, Option, ◌&&◌, false,
  true, Bool, inr, inl, refl, ◌≡◌, ◌≤◌, ℕ,
}
use higgs.Protocol.{negotiate_version, accepted, maximum, larger, contains}

larger-contains :
    (x : ℕ) (xs : List ℕ) (o : Option ℕ)
    → ((m : ℕ) → o ≡ some m → contains xs m ≡ true)
    → contains (x ∷ xs) (larger x o) ≡ true
unfolding contains larger any
larger-contains x xs none h = ground (arith, beq_refl x)
larger-contains x xs (some m) h = ground (arith, beq_refl x, h m refl)

maximum-contains : (xs : List ℕ) (m : ℕ) → maximum xs ≡ some m → contains xs m ≡ true
unfolding maximum
maximum-contains [] m e = cc e
maximum-contains (x ∷ xs) m e =
    rw (← some-injective e) (larger-contains x xs (maximum xs) (maximum-contains xs))

le_larger : (x v : ℕ) (o : Option ℕ) → x ≡ v → v ≤ larger x o
unfolding larger
le_larger x v none e = omega (arith, e)
le_larger x v (some m) e = ground (arith, e)

contains-maximum :
    (xs : List ℕ) (v : ℕ) → contains xs v ≡ true → (m : ℕ) × (maximum xs ≡ some m) × (v ≤ m)
unfolding maximum contains any larger
contains-maximum [] v h = absurd_bool h
contains-maximum (x ∷ xs) v h = elim (Bool-cases (contains xs v)) [
  | inl e ↦ let (m, q, le) = contains-maximum xs v e in (_, refl, rw q (ground (arith, le)))
  | inr e ↦ (_, refl, le_larger x v (maximum xs) (ground (arith, h, e, nat_eq.decides x v)))
]

contains_kept :
    (x v : ℕ) (pv r c : Bool)
    → r ≡ (c && pv)
    → (x ≡ v → pv ≡ true)
    → (x == v || r) ≡ ((x == v || c) && pv)
contains_kept x v pv r c h k = ground (arith, h, k, nat_eq.decides x v)

contains_dropped :
    (x v : ℕ) (pv r c : Bool) → r ≡ (c && pv) → (x ≡ v → pv ≡ false) → r ≡ ((x == v || c) && pv)
contains_dropped x v pv r c h k = ground (arith, h, k, nat_eq.decides x v)

contains-retain :
    (p : ℕ → Bool) (xs : List ℕ) (v : ℕ) → contains (retain p xs) v ≡ (contains xs v && p v)
unfolding contains retain any
contains-retain p [] v = refl
contains-retain p (x ∷ xs) v = elim (Bool-cases (p x)) [
  | inl e ↦ rw e (
      contains_kept x v (p v) (contains (retain p xs) v) (contains xs v) (contains-retain p xs v)
        (λ q. rw (← q) e))
  | inr e ↦ rw e (
      contains_dropped x v (p v) (contains (retain p xs) v) (contains xs v) (contains-retain p xs v)
        (λ q. rw (← q) e))
]

-- Lists with the same elements have the same maximum.
maximum-same :
    (xs ys : List ℕ) → ((v : ℕ) → contains xs v ≡ contains ys v) → maximum xs ≡ maximum ys
maximum-same xs ys h = elim (Option-cases (maximum xs)) [
  | inr (m, e) ↦
      let (m', e', le) = contains-maximum ys m (sym (h m) ∙ maximum-contains xs m e) in
      let (m'', e'', le') = contains-maximum xs m' (h m' ∙ maximum-contains ys m' e') in
      let same : m'' ≡ m = some-injective (sym e'' ∙ e) in
      e ∙ ap some (omega (arith, le, le', same)) ∙ sym e'
  | inl e ↦ elim (Option-cases (maximum ys)) [
    | inl e' ↦ e ∙ sym e'
    | inr (m', e') ↦
        let (m'', e'', le') = contains-maximum xs m' (h m' ∙ maximum-contains ys m' e') in
        absurd_bool (cc (e, e''))
  ]
]

accepted_sym : (a b : ℕ) (o : Option ℕ) → accepted a b o ≡ accepted b a o
unfolding accepted
accepted_sym a b none = refl
accepted_sym a b (some v) = ground arith

and_sym : (a b : Bool) → (a && b) ≡ (b && a)
and_sym a b = ground arith

-- Both ends compute the same answer: swapping the two sides' versions and minima changes nothing.
negotiate_version-symmetric :
    (peer our : List ℕ) (peer_min our_min : ℕ)
    → negotiate_version peer peer_min our our_min ≡ negotiate_version our our_min peer peer_min
unfolding negotiate_version
negotiate_version-symmetric peer our peer_min our_min =
    ap (accepted peer_min our_min) (
      maximum-same (retain (contains our) peer) (retain (contains peer) our) (λ v.
        contains-retain (contains our) peer v
        ∙ and_sym (contains peer v) (contains our v)
        ∙ sym (contains-retain (contains peer) our v)))
    ∙ accepted_sym peer_min our_min (maximum (retain (contains peer) our))

accepted-some :
    (a b v : ℕ) (o : Option ℕ) → accepted a b o ≡ some v → (o ≡ some v) × (a ≤ v) × (b ≤ v)
unfolding accepted
accepted-some a b v none e = cc e
accepted-some a b v (some w) e = ground (arith, e)

bound_common :
    (our ws : List ℕ) (v : ℕ)
    → ((w : ℕ) → contains ws w ≡ true → (not (contains our w) || leb w v) ≡ true)
    → All (λ w. (not (contains our w) || leb w v) ≡ true) ws
unfolding contains any
bound_common our [] v h = tt
bound_common our (w ∷ ws) v h =
    (h w (ground (arith, beq_refl w)), bound_common our ws v (λ u e. h u (ground (arith, e))))

below :
    (our peer : List ℕ) (v w : ℕ)
    → maximum (retain (contains our) peer) ≡ some v
    → contains peer w ≡ true
    → (not (contains our w) || leb w v) ≡ true
below our peer v w q c = elim (Bool-cases (contains our w)) [
  | inr e ↦ rw e refl
  | inl e ↦
      let (m, q', le) =
        contains-maximum (retain (contains our) peer) w
          (contains-retain (contains our) peer w ∙ rw (c, e) refl) in
      let same : m ≡ v = some-injective (sym q' ∙ q) in rw e (ground (arith, le, same))
]

-- The version that is agreed on is one that both sides speak, not below either side's minimum, and
-- not below any other version of the peer that we speak.
negotiate_version-common :
    (peer our : List ℕ) (peer_min our_min v : ℕ)
    → negotiate_version peer peer_min our our_min ≡ some v
    → (contains peer v ≡ true)
      × (contains our v ≡ true)
      × (peer_min ≤ v)
      × (our_min ≤ v)
      × All (λ w. (not (contains our w) || leb w v) ≡ true) peer
unfolding negotiate_version
negotiate_version-common peer our peer_min our_min v e =
    let (q, l1, l2) = accepted-some peer_min our_min v _ e in
    let both =
      sym (contains-retain (contains our) peer v)
      ∙ maximum-contains (retain (contains our) peer) v q in
    (
      ground (arith, both),
      ground (arith, both),
      l1,
      l2,
      bound_common our peer v (λ w c. below our peer v w q c),
    )

-- When one side arrives at a version, the other side, with the two sides' versions and minima swapped,
-- arrives at the same; it is one that both sides speak, not below either side's minimum, and not below
-- any other version of the peer that we speak.
pub negotiate_version-agreed :
    (peer our : List ℕ) (peer_min our_min v : ℕ)
    → negotiate_version peer peer_min our our_min ≡ some v
    → (negotiate_version our our_min peer peer_min ≡ some v)
      × (contains peer v ≡ true)
      × (contains our v ≡ true)
      × (peer_min ≤ v)
      × (our_min ≤ v)
      × All (λ w. (not (contains our w) || leb w v) ≡ true) peer
negotiate_version-agreed peer our peer_min our_min v e =
    let (a, b, c, d, f) = negotiate_version-common peer our peer_min our_min v e in
    (sym (negotiate_version-symmetric peer our peer_min our_min) ∙ e, a, b, c, d, f)
