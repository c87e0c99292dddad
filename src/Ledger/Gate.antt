-- ===== src/Ledger/Gate.antt =====
-- The gate of active claims in src/catalog/ledger.rs against a set of keys.
use higgs.Base.{
  retain, Bool-cases, if◌then◌else◌, inr, inl, ◌∙◌, ap, sym, refl, String, string_eq, any, arith,
  ◌∷◌, [], List, Option, ◌||◌, ◌&&◌, not, false, true, Bool, ◌≡◌,
}
use higgs.Ledger.{Counters, Os, LedgerEnd}
use higgs.Ledger.Claims.{
  answer, start_row, drop_claim, end_claim, claim_start, in_flight, claimed, Claim, Process,
  same_key, ClaimKey,
}
use higgs.Ledger.Pass.{io_error, refused, Outcome, World, ok, with_ledger, Io}

-- One call on the gate, with what the system answers to it.
pub data Call : Type 0 where
  start_call : Os → Io → ClaimKey → Call
  end_call : Os → Io → ClaimKey → LedgerEnd → Option Counters → Call
  drop_call : Os → Io → ClaimKey → Call

-- Whether a call is refused, where it is a `claim_start`.
unfoldable pub is_refused : Claim → Bool
is_refused in_flight = true
is_refused (claimed k) = false

unfoldable pub apply : Call → Process → Bool × Process
unfolding is_refused
apply (start_call os io (root, repo, file)) p =
    let (a, p') = claim_start root os io repo file p in (is_refused a, p')
apply (end_call os io key e counters) p = (false, end_claim key os io e counters p)
apply (drop_call os io key) p = (false, drop_claim key os io p)

unfoldable pub answers : List Call → Process → List Bool
answers [] p = []
answers (c ∷ cs) p = let (a, p') = apply c p in a ∷ answers cs p'

-- The specification: a set of held keys, and no file.
abbrev pub Held : Type 0
Held = ClaimKey → Bool

unfoldable pub spec : Call → Held → Bool × Held
spec (start_call os io key) held = (held key, λ k. same_key k key || held k)
spec (end_call os io key e counters) held = (false, λ k. not (same_key k key) && held k)
spec (drop_call os io key) held = (false, λ k. not (same_key k key) && held k)

unfoldable pub spec_answers : List Call → Held → List Bool
spec_answers [] held = []
spec_answers (c ∷ cs) held = let (a, held') = spec c held in a ∷ spec_answers cs held'

-- The process holds exactly the keys of the set.
unfoldable pub Holds : Process → Held → Type 0
Holds p held = (k : ClaimKey) → any (λ j. same_key j k) p.active ≡ held k

same_key-eq : (a b : ClaimKey) → same_key a b ≡ true → a ≡ b
unfolding same_key
same_key-eq (r, s, t) (r', s', t') h =
    ground (arith, string_eq.decides r r', string_eq.decides s s', string_eq.decides t t')

same_key_sym : (a b : ClaimKey) → same_key a b ≡ same_key b a
unfolding same_key
same_key_sym (r, s, t) (r', s', t') = ground (
  arith,
  string_eq.decides r r',
  string_eq.decides s s',
  string_eq.decides t t',
  string_eq.decides r' r,
  string_eq.decides s' s,
  string_eq.decides t' t,
)

any-retain :
    (q r : ClaimKey → Bool) (ks : List ClaimKey) → any q (retain r ks) ≡ any (λ j. r j && q j) ks
unfolding any retain
any-retain q r [] = refl
any-retain q r (j ∷ ks) = ground (arith, any-retain q r ks)

any-split :
    (b : Bool) (q r : ClaimKey → Bool) (ks : List ClaimKey)
    → ((j : ClaimKey) → (r j && q j) ≡ (b && q j))
    → any (λ j. r j && q j) ks ≡ (b && any q ks)
unfolding any
any-split b q r [] h = ground arith
any-split b q r (j ∷ ks) h = ground (arith, h j, any-split b q r ks h)

release_other :
    (key k j : ClaimKey)
    → (not (same_key j key) && same_key j k) ≡ (not (same_key k key) && same_key j k)
release_other key k j = elim (Bool-cases (same_key j k)) [
  | inl e ↦ rw (e, same_key-eq j k e) refl
  | inr e ↦ rw e (ground arith)
]

any-release :
    (key k : ClaimKey) (ks : List ClaimKey)
    → any (λ j. same_key j k) (retain (λ j. not (same_key j key)) ks)
      ≡ (not (same_key k key) && any (λ j. same_key j k) ks)
any-release key k ks =
    any-retain (λ j. same_key j k) (λ j. not (same_key j key)) ks
    ∙ any-split (not (same_key k key)) (λ j. same_key j k) (λ j. not (same_key j key)) ks
        (release_other key k)

is_refusal : Outcome (Unit {0}) → Bool
is_refusal refused = true
is_refusal (ok v) = false
is_refusal io_error = false

started :
    (root : String) (os : Os) (io : Io) (repo file : String) (w : World)
    → is_refusal (with_ledger root os io (start_row os repo file) w).0 ≡ false
unfolding with_ledger start_row is_refusal
started root os io repo file w = ground arith

answer_active :
    (key : ClaimKey) (active : List ClaimKey) (o : Outcome (Unit {0})) (w : World)
    → is_refusal o ≡ false
    → (is_refused (answer key active (o, w)).0 ≡ false)
      × ((answer key active (o, w)).1.active ≡ active)
unfolding answer is_refusal is_refused
answer_active key active (ok v) w h = (refl, refl)
answer_active key active refused w h = cc h
answer_active key active io_error w h = (refl, refl)

-- The pass of a claim is never refused, so its key is held whatever the file operations gave.
start_active :
    (root : String) (os : Os) (io : Io) (repo file : String) (p : Process)
    → let key : ClaimKey = (root, repo, file) in
      let (a, p') = claim_start root os io repo file p in
      let held = any (λ j. same_key j key) p.active in
      (is_refused a ≡ held) × (p'.active ≡ (if held then p.active else key ∷ p.active))
unfolding claim_start is_refused answer
start_active root os io repo file p =
    elim (Bool-cases (any (λ j. same_key j (root, repo, file)) p.active)) [
      | inl e ↦ rw e (refl, refl)
      | inr e ↦ rw e (
          answer_active (root, repo, file) ((root, repo, file) ∷ p.active) _
            (with_ledger root os io (start_row os repo file) p.world).1
            (started root os io repo file p.world))
    ]

any-key :
    (key k : ClaimKey) (ks : List ClaimKey)
    → any (λ j. same_key j key) ks ≡ true
    → (same_key k key || any (λ j. same_key j k) ks) ≡ any (λ j. same_key j k) ks
any-key key k ks h = elim (Bool-cases (same_key k key)) [
  | inl e ↦ rw (e, same_key-eq k key e, h) refl
  | inr e ↦ rw e refl
]

apply-spec :
    (c : Call) (p : Process) (held : Held)
    → Holds p held
    → ((apply c p).0 ≡ (spec c held).0) × Holds (apply c p).1 (spec c held).1
unfolding apply spec Holds end_claim drop_claim any
apply-spec (start_call os io (root, repo, file)) p held h =
    let s = start_active root os io repo file p in
    elim (Bool-cases (any (λ j. same_key j (root, repo, file)) p.active)) [
      | inl e ↦ (s.0 ∙ h _, λ k. rw (s.1, e, ← h k) (sym (any-key (root, repo, file) k p.active e)))
      | inr e ↦ (s.0 ∙ h _, λ k. rw (s.1, e, same_key_sym k (root, repo, file), ← h k) refl)
    ]
apply-spec (end_call os io (root, repo, file) e counters) p held h = (
  refl,
  λ k.
      any-release (root, repo, file) k p.active
      ∙ ap (λ b. not (same_key k (root, repo, file)) && b) (h k),
)
apply-spec (drop_call os io (root, repo, file)) p held h = (
  refl,
  λ k.
      any-release (root, repo, file) k p.active
      ∙ ap (λ b. not (same_key k (root, repo, file)) && b) (h k),
)

-- From a process that holds the keys of a set, every sequence of `claim_start`, `end` and drop of
-- claims is answered as that set answers it, whatever the ledger file's operations give: a claim is
-- refused just when its key is held, and a key is held from a claim until its end or drop.
pub answers_refine :
    (cs : List Call) (p : Process) (held : Held)
    → Holds p held
    → answers cs p ≡ spec_answers cs held
unfolding answers spec_answers
answers_refine [] p held h = refl
answers_refine (c ∷ cs) p held h =
    let (a, h') = apply-spec c p held h in
    cc (a, answers_refine cs (apply c p).1 (spec c held).1 h')
