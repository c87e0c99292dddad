-- ===== src/Updates/Rules.antt =====
-- Rules for what an operation leads to from where, and for what holds wherever it fails or the process
-- dies.
use higgs.Base.{if◌then◌else◌, Bool, true, false, List, [], ◌∷◌, ◌≡◌, refl}
use higgs.Updates.{
  Disk, World, Answer, done, failed, failed_late, crashed, Sight, clear, seen, if_read, read_with,
  look, Outcome, M, continue, forgive, ◌>>=◌, pure, lift, get_disk, answered, attempt, elsewhere,
  best_effort, ok, err, dead, apply_failed,
}
use higgs.Updates.Apply.{refuse_unless}

-- `Always` holds of the disk at every failure and death, `Q` of the value and the disk where there is one.
module _ (Always : Disk → Type 0) where
  abbrev pub After : {A : Type 0} → (A → Disk → Type 0) → Outcome A → Disk → Type 0
  After Q (ok a) d = Always d × Q a d
  After Q (err e) d = Always d
  After Q dead d = Always d

  pub record Safe {A : Type 0} (P : Disk → Type 0) (m : M A) (Q : A → Disk → Type 0) : Type 0 where
    pub at : (w : World) → Always w.disk → P w.disk → After Q (m w).0 ((m w).1).disk

  module _ {A : Type 0} {P : Disk → Type 0} {Q : A → Disk → Type 0} where
    pub Safe-pure : (a : A) → ((d : Disk) → P d → Q a d) → Safe P (pure a) Q
    unfolding pure
    Safe-pure a h = record { at = λ w i p. (i, h w.disk p) }

    pub Safe-lift :
        (r : Outcome A) → ((a : A) (d : Disk) → r ≡ ok a → P d → Q a d) → Safe P (lift r) Q
    unfolding lift
    Safe-lift (ok a) h = record { at = λ w i p. (i, h a w.disk refl p) }
    Safe-lift (err e) h = record { at = λ w i p. i }
    Safe-lift dead h = record { at = λ w i p. i }

    pub Safe-if :
        (b : Bool) (m n : M A)
        → (b ≡ true → Safe P m Q)
        → (b ≡ false → Safe P n Q)
        → Safe P (if b then m else n) Q
    Safe-if true m n km kn = km refl
    Safe-if false m n km kn = kn refl

  module _ {A B : Type 0} {Q : A → Disk → Type 0} {R : B → Disk → Type 0} where
    continue-After :
        (f : A → M B) (r : Outcome A) (w : World)
        → ((a : A) → Safe (Q a) (f a) R)
        → After Q r w.disk
        → After R (continue r f w).0 ((continue r f w).1).disk
    continue-After f (ok a) w k h = (k a).at w h.0 h.1
    continue-After f (err e) w k h = h
    continue-After f dead w k h = h

    pub Safe-bind :
        {P : Disk → Type 0} (m : M A) (f : A → M B)
        → Safe P m Q
        → ((a : A) → Safe (Q a) (f a) R)
        → Safe P (m >>= f) R
    unfolding ◌>>=◌
    Safe-bind m f km kf = record { at = λ w i p. continue-After f (m w).0 (m w).1 kf (km.at w i p) }

  pub Safe-from :
      {A : Type 0} {P P' : Disk → Type 0} {Q : A → Disk → Type 0} (m : M A)
      → ((d : Disk) → P' d → P d)
      → Safe P m Q
      → Safe P' m Q
  Safe-from m f s = record { at = λ w i p. s.at w i (f w.disk p) }

  read_at :
      {B : Type 0} {P : Disk → Type 0} {R : B → Disk → Type 0} (f : Disk → M B)
      → ((d : Disk) (s : Sight) → Always d → P d → Safe (λ e. d ≡ e) (f (seen s d)) R)
      → (sights : List Sight) (w : World) → Always w.disk
      → P w.disk
      → (let (r, w') = read_with sights w in After R (continue r f w').0 ((continue r f w').1).disk)
  unfolding read_with seen if_read
  read_at f k [] w i p = (k w.disk clear i p).at w i refl
  read_at f k (s ∷ rest) w i p = (k w.disk s i p).at (record w { sights = rest }) i refl

  -- The rest may use what holds of the disk that was read, of which it has what the read sees.
  pub Safe-get :
      {B : Type 0} {P : Disk → Type 0} {R : B → Disk → Type 0} (f : Disk → M B)
      → ((d : Disk) (s : Sight) → Always d → P d → Safe (λ e. d ≡ e) (f (seen s d)) R)
      → Safe P (get_disk >>= f) R
  unfolding ◌>>=◌
  Safe-get f k = record { at = λ w i p. read_at f k w.sights w i p }

  pub Safe-look :
      {B : Type 0} {P : Disk → Type 0} {R : B → Disk → Type 0} (s : Sight) (f : Disk → M B)
      → ((d : Disk) → Always d → P d → Safe (λ e. d ≡ e) (f (seen s d)) R)
      → Safe P (look s >>= f) R
  unfolding ◌>>=◌
  Safe-look s f k = record { at = λ w i p. (k w.disk i p).at w i refl }

  module _ (Q : Disk → Type 0) where
    answered-After :
        (f : Disk → Disk) (d : World) (answers : List Answer)
        → Always (f d.disk) × Q (f d.disk)
        → Always d.disk
        → After (λ _. Q) (answered f d answers).0 ((answered f d answers).1).disk
    unfolding answered
    answered-After f d [] h i = h
    answered-After f d (done ∷ rest) h i = h
    answered-After f d (failed ∷ rest) h i = i
    answered-After f d (failed_late ∷ rest) h i = h.0
    answered-After f d (crashed ∷ rest) h i = i

  module _ {P : Disk → Type 0} {Q : Disk → Type 0} where
    pub Safe-attempt :
        (f : Disk → Disk)
        → ((d : Disk) → Always d → P d → Always (f d) × Q (f d))
        → Safe P (attempt f) (λ _. Q)
    unfolding attempt
    Safe-attempt f h = record { at = λ w i p. answered-After Q f w w.answers (h w.disk i p) i }

  pub Safe-elsewhere : {P : Disk → Type 0} → Safe P elsewhere (λ _. P)
  unfolding elsewhere
  Safe-elsewhere = Safe-attempt (λ d. d) (λ d i p. (i, p))

  module _ (Q : Disk → Type 0) where
    forgiven-After :
        (f : Disk → Disk) (d : World) (answers : List Answer)
        → Always (f d.disk) × Q (f d.disk)
        → Always d.disk
        → Q d.disk
        → After (λ _. Q) (forgive (answered f d answers).0) ((answered f d answers).1).disk
    unfolding answered
    forgiven-After f d [] h i q = h
    forgiven-After f d (done ∷ rest) h i q = h
    forgiven-After f d (failed ∷ rest) h i q = (i, q)
    forgiven-After f d (failed_late ∷ rest) h i q = h
    forgiven-After f d (crashed ∷ rest) h i q = i

  module _ {P Q : Disk → Type 0} where
    -- An operation that is attempted at best may be left undone.
    pub Safe-best_effort :
        (f : Disk → Disk)
        → ((d : Disk) → P d → Q d)
        → ((d : Disk) → Always d → P d → Always (f d) × Q (f d))
        → Safe P (best_effort (attempt f)) (λ _. Q)
    unfolding best_effort attempt
    Safe-best_effort f undone h = record {
      at = λ w i p. forgiven-After Q f w w.answers (h w.disk i p) i (undone w.disk p);
    }

  module _ {P : Disk → Type 0} where
    pub Safe-flush : Safe P (best_effort elsewhere) (λ _. P)
    unfolding elsewhere
    Safe-flush = Safe-best_effort (λ d. d) (λ d p. p) (λ d i p. (i, p))

  pub Safe-refuse_unless :
      {P : Disk → Type 0} (b : Bool) → Safe P (refuse_unless b) (λ _ d. P d × (b ≡ true))
  unfolding refuse_unless
  Safe-refuse_unless true = Safe-pure tt (λ d p. (p, refl))
  Safe-refuse_unless false = Safe-lift (err apply_failed) (λ a d e p. cc e)

  pub Safe-refuse : {P : Disk → Type 0} (b : Bool) → Safe P (refuse_unless b) (λ _. P)
  unfolding refuse_unless
  Safe-refuse true = Safe-pure tt (λ d p. p)
  Safe-refuse false = Safe-lift (err apply_failed) (λ a d e p. cc e)

  pub Safe-given :
      {A : Type 0} {P : Disk → Type 0} {F : Type 0} {Q : A → Disk → Type 0} (m : M A)
      → (F → Safe P m Q)
      → Safe (λ d. P d × F) m Q
  Safe-given m k = record { at = λ w i p. (k p.1).at w i p.0 }
