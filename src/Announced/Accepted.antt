-- ===== src/Announced/Accepted.antt =====
-- What src/remote.rs keeps of the announced downloads.
use higgs.Base.Text.{text_eq}
use higgs.Base.{
  ◌∙◌, ap, ◌<◌, retain, leb, ltb, some, none, Option, ◌||◌, ◌&&◌, All-retain_by, All, any, length,
  Bool-cases, arith, map, ◌∷◌, [], List, false, true, Bool, inr, inl, refl, ◌≡◌, ◌≤◌, suc, zero, ℕ,
}
use higgs.Announced.{
  accept_announced_downloads, is_placed, consistent_total, Key, normalized, take, dedup, same,
  folded, HelloDownload,
}

has : List Key → HelloDownload → Bool
has seen d = any (λ k. same k (folded d)) seen

-- No two entries have the same key.
unfoldable pub DistinctKeys : List HelloDownload → Type 0
DistinctKeys [] = Unit
DistinctKeys (d ∷ ds) = All (λ e. same (folded d) (folded e) ≡ false) ds × DistinctKeys ds

fresh_tail :
    (k : Key) (seen : List Key) (ds : List HelloDownload)
    → All (λ d. has (k ∷ seen) d ≡ false) ds
    → All (λ d. has seen d ≡ false) ds × All (λ d. same k (folded d) ≡ false) ds
unfolding has any
fresh_tail k seen [] h = (tt, tt)
fresh_tail k seen (d ∷ ds) h =
    let (a, b) = fresh_tail k seen ds h.1 in ((ground (arith, h.0), a), (ground (arith, h.0), b))

dedup-fresh :
    (seen : List Key) (ds : List HelloDownload) → All (λ d. has seen d ≡ false) (dedup seen ds)
unfolding dedup has
dedup-fresh seen [] = tt
dedup-fresh seen (d ∷ ds) = elim (Bool-cases (any (λ k. same k (folded d)) seen)) [
  | inl e ↦ rw e (dedup-fresh seen ds)
  | inr e ↦ rw e (e, (fresh_tail (folded d) seen _ (dedup-fresh (folded d ∷ seen) ds)).0)
]

dedup-DistinctKeys : (seen : List Key) (ds : List HelloDownload) → DistinctKeys (dedup seen ds)
unfolding dedup DistinctKeys
dedup-DistinctKeys seen [] = tt
dedup-DistinctKeys seen (d ∷ ds) = elim (Bool-cases (any (λ k. same k (folded d)) seen)) [
  | inl e ↦ rw e (dedup-DistinctKeys seen ds)
  | inr e ↦ rw e (
    (fresh_tail (folded d) seen _ (dedup-fresh (folded d ∷ seen) ds)).1,
    dedup-DistinctKeys (folded d ∷ seen) ds,
  )
]

All-take {ℓ} : {A : Type ℓ} (P : A → Type 0) (n : ℕ) (xs : List A) → All P xs → All P (take n xs)
unfolding take
All-take P zero xs h = tt
All-take P (suc n) [] h = tt
All-take P (suc n) (x ∷ xs) h = (h.0, All-take P n xs h.1)

take-DistinctKeys : (n : ℕ) (ds : List HelloDownload) → DistinctKeys ds → DistinctKeys (take n ds)
unfolding take DistinctKeys
take-DistinctKeys zero ds h = tt
take-DistinctKeys (suc n) [] h = tt
take-DistinctKeys (suc n) (d ∷ ds) h =
    (All-take (λ e. same (folded d) (folded e) ≡ false) n ds h.0, take-DistinctKeys n ds h.1)

length-take {ℓ} : {A : Type ℓ} (n : ℕ) (xs : List A) → length (take n xs) ≤ n
unfolding take
length-take zero xs = omega arith
length-take (suc n) [] = omega arith
length-take (suc n) (x ∷ xs) = omega (arith, length-take n xs)

length-map {ℓ} : {A : Type ℓ} (f : A → A) (xs : List A) → length (map f xs) ≡ length xs
length-map f [] = refl
length-map f (x ∷ xs) = omega (arith, length-map f xs)

All-normalized :
    (d : HelloDownload) (ds : List HelloDownload)
    → All (λ e. same (folded d) (folded e) ≡ false) ds
    → All (λ e. same (folded (normalized d)) (folded e) ≡ false) (map normalized ds)
unfolding folded normalized
All-normalized d [] h = tt
All-normalized d (e ∷ ds) h = (h.0, All-normalized d ds h.1)

normalized-DistinctKeys :
    (ds : List HelloDownload) → DistinctKeys ds → DistinctKeys (map normalized ds)
unfolding DistinctKeys
normalized-DistinctKeys [] h = tt
normalized-DistinctKeys (d ∷ ds) h = (All-normalized d ds h.0, normalized-DistinctKeys ds h.1)

-- The counters make sense: a known total is positive and at least what has been downloaded.
unfoldable pub is_sound : HelloDownload → Bool
is_sound d = elim d.total [ none ↦ true | some t ↦ ltb 0 t && leb d.downloaded t ]

total_sound :
    (downloaded : ℕ) (total : Option ℕ)
    → elim (consistent_total downloaded total) [
      | none ↦ true
      | some t ↦ ltb 0 t && leb downloaded t
    ]
      ≡ true
unfolding consistent_total
total_sound downloaded none = refl
total_sound downloaded (some t) = ground arith

is_sound-normalized : (d : HelloDownload) → is_sound (normalized d) ≡ true
unfolding is_sound normalized
is_sound-normalized d = total_sound d.downloaded d.total

unfoldable pub Shown : HelloDownload → Type 0
Shown d = (is_placed d ≡ true) × (is_sound d ≡ true)

normalized-Shown :
    (ds : List HelloDownload) → All (λ d. is_placed d ≡ true) ds → All Shown (map normalized ds)
unfolding Shown is_placed normalized
normalized-Shown [] h = tt
normalized-Shown (d ∷ ds) h = ((h.0, is_sound-normalized d), normalized-Shown ds h.1)

All-dedup :
    (P : HelloDownload → Type 0) (seen : List Key) (ds : List HelloDownload)
    → All P ds
    → All P (dedup seen ds)
unfolding dedup
All-dedup P seen [] h = tt
All-dedup P seen (d ∷ ds) h = elim (Bool-cases (any (λ k. same k (folded d)) seen)) [
  | inl e ↦ rw e (All-dedup P seen ds h.1)
  | inr e ↦ rw e (h.0, All-dedup P (folded d ∷ seen) ds h.1)
]

-- Whatever a node announces, a hub keeps at most 16 entries; no two of them have the same repository
-- and file, case folded; each has a place under the models root; and each total that is kept is
-- positive and not less than what has been downloaded.
pub accept_announced_downloads-Shown :
    (raw : List HelloDownload)
    → (length (accept_announced_downloads raw) ≤ 16)
      × DistinctKeys (accept_announced_downloads raw)
      × All Shown (accept_announced_downloads raw)
unfolding accept_announced_downloads
accept_announced_downloads-Shown raw =
    let unique = dedup [] (retain is_placed raw) in
    (
      omega (arith, length-map normalized (take 16 unique), length-take 16 unique),
      normalized-DistinctKeys (take 16 unique)
          (take-DistinctKeys 16 unique (dedup-DistinctKeys [] (retain is_placed raw))),
      normalized-Shown (take 16 unique) (
          All-take _ 16 unique
            (All-dedup _ [] (retain is_placed raw) (All-retain_by _ is_placed raw (λ x h. h)))),
    )

-- Whether a list has an entry of the key.
unfoldable pub shows : List HelloDownload → Key → Bool
shows ds k = any (λ e. same (folded e) k) ds

same-eq : (a b : Key) → same a b ≡ true → a ≡ b
unfolding same
same-eq (r, f) (r', f') h = ground (arith, h, text_eq.decides r r', text_eq.decides f f')

seen_already :
    (f k : Key) (seen : List Key)
    → any (λ j. same j f) seen ≡ true
    → (same f k || any (λ j. same j k) seen) ≡ any (λ j. same j k) seen
seen_already f k seen h = elim (Bool-cases (same f k)) [
  | inl e ↦ rw (e, ← same-eq f k e, h) refl
  | inr e ↦ rw e refl
]

shows-dedup :
    (k : Key) (seen : List Key) (ds : List HelloDownload)
    → (shows (dedup seen ds) k || any (λ j. same j k) seen)
      ≡ (shows ds k || any (λ j. same j k) seen)
unfolding dedup shows any
shows-dedup k seen [] = refl
shows-dedup k seen (d ∷ ds) = elim (Bool-cases (any (λ j. same j (folded d)) seen)) [
  | inl e ↦ rw e (shows-dedup k seen ds ∙ ground (arith, seen_already (folded d) k seen e))
  | inr e ↦ rw e (ground (arith, shows-dedup k (folded d ∷ seen) ds))
]

shows_unseen : (k : Key) (ds : List HelloDownload) → shows (dedup [] ds) k ≡ shows ds k
unfolding any
shows_unseen k ds = ground (arith, shows-dedup k [] ds)

take-all {ℓ} : {A : Type ℓ} (n : ℕ) (xs : List A) → length (take n xs) < n → take n xs ≡ xs
unfolding take
take-all zero xs h = ground (arith, h)
take-all (suc n) [] h = refl
take-all (suc n) (x ∷ xs) h = ap (λ r. x ∷ r) (take-all n xs (omega (arith, h)))

shows-normalized : (k : Key) (ds : List HelloDownload) → shows (map normalized ds) k ≡ shows ds k
unfolding shows any folded normalized
shows-normalized k [] = refl
shows-normalized k (d ∷ ds) = ap (λ b. same (folded d) k || b) (shows-normalized k ds)

-- While fewer than 16 entries are kept, none is lost: the keys that the kept entries show are those
-- of the announced entries that have a place under the models root.
shows-accept_announced_downloads :
    (raw : List HelloDownload) (k : Key)
    → length (accept_announced_downloads raw) < 16
    → shows (accept_announced_downloads raw) k ≡ shows (retain is_placed raw) k
unfolding accept_announced_downloads
shows-accept_announced_downloads raw k h =
    let unique = dedup [] (retain is_placed raw) in
    let short : length (take 16 unique) < 16 = rw (← length-map normalized (take 16 unique)) h in
    shows-normalized k (take 16 unique)
    ∙ ap (λ r. shows r k) (take-all 16 unique short)
    ∙ shows_unseen k (retain is_placed raw)
