-- ===== src/Updates/OnTrial.antt =====
-- What `install.sh` does meanwhile, and a flip on trial, keep an installation good; the version is then on
-- trial, with a marker that names what was read for it.
use mathlib.Core.Path.{subst}
use higgs.Base.Text.{Text, text_eq}
use higgs.Base.{
  Bool, true, false, ◌≡◌, refl, ap, ◌∙◌, some, none, Option, arith, some-injective, Bool-cases, inl,
  inr, [], nat_eq, string_eq,
}
use higgs.Updates.{
  Semver, TrialMarker, Disk, Sight, seen, if_read, is_installed_version, remove_boot_fails,
  current_target, keep_v, flip_current_to,
}
use higgs.Updates.Apply.{Staging, repoint, by_others, flip_on_trial}
use higgs.Updates.Rules.{
  Safe, Safe-bind, Safe-look, Safe-attempt, Safe-elsewhere, Safe-from, Safe-flush,
}
use higgs.Updates.Runnable.{flipped, Good, Runs, same_files, next}

-- The version `vname` is linked, and a previous one has been marked of which `Rel` holds; where nothing has
-- come between the marker and the flip, it is on trial with this marker.
pub record Trial (Rel : Option Text → Type 0) (latest : Option Text) (vname : Text) (d : Disk)
    : Type 0 where
  pub prev : Option Text
  pub linked : d.link ≡ some vname
  pub marked : latest ≡ none → d.trial ≡ some (record { to = vname; prev = prev })
  pub unspent : d.boot_fails ≡ none
  pub related : Rel prev

module _ (semver : Semver) where
  kept_v : (o : Option Text) (c : Text) → keep_v o ≡ some c → o ≡ some c
  unfolding keep_v
  kept_v none c e = e
  kept_v (some name) c e = ground (arith, e)

  was_read : (b : Bool) (o : Option Text) (c : Text) → if_read b o ≡ some c → o ≡ some c
  unfolding if_read
  was_read true o c e = e
  was_read false o c e = cc e

  fresh_install :
      (v : Text) (d : Disk)
      → Runs semver v d
      → Good semver
          (record d { link = some v; trial = none; boot_fails = none; failed_targets = [] })
  unfolding is_installed_version
  fresh_install v d r = record {
    current_runs = λ c h. rw (← some-injective h) r;
    prev_runs = λ t p h k. cc h;
  }

  -- What `install.sh` does keeps the installation good, and what holds of it either way.
  repointed :
      (P : Disk → Type 0) (o : Option Text) (d : Disk)
      → ((v : Text)
          → o ≡ some v
          → P (record d { link = some v; trial = none; boot_fails = none; failed_targets = [] }))
      → Good semver d
      → P d
      → Good semver (repoint semver o d) × P (repoint semver o d)
  unfolding repoint
  repointed P none d h g p = (g, p)
  repointed P (some v) d h g p = elim (Bool-cases (is_installed_version semver v d)) [
    | inl t ↦ rw t (fresh_install v d t, h v refl)
    | inr f ↦ rw f (g, p)
  ]

  pub by_others-kept :
      (P : Disk → Type 0) (o : Option Text)
      → ((v : Text) (d : Disk)
          → o ≡ some v
          → P d
          → P (record d { link = some v; trial = none; boot_fails = none; failed_targets = [] }))
      → Safe (Good semver) P (by_others semver o) (λ _. P)
  unfolding by_others
  by_others-kept P o h = record { at = λ w i p. repointed P o w.disk (λ v e. h v w.disk e p) i p }

  module _ (Rel : Option Text → Type 0) (vname : Text) where
    marking : Disk → Option Text → Disk
    marking d prev = record d { trial = some (record { to = vname; prev = prev }) }

    -- What the marker will name can be run, and so can the new version.
    Read : Option Text → Disk → Type 0
    Read prev d = Runs semver vname d × ((p : Text) → prev ≡ some p → Runs semver p d)

    found-Read :
        (s : Sight) (d : Disk)
        → Good semver d
        → Runs semver vname d
        → Read (current_target (seen s d)) d
    unfolding current_target seen Read
    found-Read s d g r =
        (r, λ p e. g.current_runs p (was_read s.link d.link p (kept_v (if_read s.link d.link) p e)))

    repointed-Read :
        (prev : Option Text) (v : Text) (d : Disk)
        → Read prev d
        → Read prev
            (record d { link = some v; trial = none; boot_fails = none; failed_targets = [] })
    unfolding Read is_installed_version
    repointed-Read prev v d r = r

    marked-Good :
        (prev : Option Text) (d : Disk) → Good semver d → Read prev d → Good semver (marking d prev)
    unfolding is_installed_version marking Read
    marked-Good prev d g r = record {
      current_runs = g.current_runs;
      prev_runs = λ t p h k. r.1 p (ap (λ (m : TrialMarker). m.prev) (some-injective h) ∙ k);
    }

    MarkedBy : Option Text → Option Text → Disk → Type 0
    MarkedBy latest prev d =
        Runs semver vname d × (latest ≡ none → d.trial ≡ some (record { to = vname; prev = prev }))

    Unspent : Option Text → Option Text → Disk → Type 0
    Unspent latest prev d = MarkedBy latest prev d × (d.boot_fails ≡ none)

    module _ (prev latest : Option Text) where
      uncounted :
          Safe (Good semver) (MarkedBy latest prev) remove_boot_fails (λ _. Unspent latest prev)
      unfolding remove_boot_fails is_installed_version MarkedBy Unspent
      uncounted =
          Safe-attempt (Good semver) (λ d. record d { boot_fails = none })
            (λ d i p. (same_files semver d _ refl refl refl i, ((p.0, p.1), refl)))

      flipped-Trial :
          Rel prev
          → Safe
              (Good semver)
              (Unspent latest prev)
              (flip_current_to vname)
              (λ _. Trial Rel latest vname)
      unfolding flip_current_to is_installed_version MarkedBy Unspent
      flipped-Trial q = next semver _ _ (Safe-elsewhere (Good semver)) (
          Safe-bind (Good semver) _ _
            (Safe-attempt (Good semver) (λ d. record d { link = some vname })
              (λ d i (p, b). (
                flipped semver vname d p.0 i,
                record { prev = prev; linked = refl; marked = p.1; unspent = b; related = q },
              )))
            (λ _. Safe-flush (Good semver)))

    -- `install.sh` removes the marker.
    repointed-Unspent :
        (prev latest : Option Text) (v : Text) (d : Disk)
        → latest ≡ some v
        → Unspent latest prev d
        → Unspent latest prev
            (record d { link = some v; trial = none; boot_fails = none; failed_targets = [] })
    unfolding MarkedBy Unspent is_installed_version
    repointed-Unspent prev latest v d e (p, b) = ((p.0, λ n. cc (e, n)), refl)

    pub flip_on_trial-Trial :
        (s : Staging)
        → Safe
            (Good semver)
            (λ d. Runs semver vname d × Rel (current_target (seen s.marking d)))
            (flip_on_trial semver vname s)
            (λ _. Trial Rel s.before_flip vname)
    unfolding flip_on_trial MarkedBy Unspent marking is_installed_version Read
    flip_on_trial-Trial s = Safe-look (Good semver) s.marking _ λ d i (r, q).
        let prev = current_target (seen s.marking d) in
        let always = Good semver in
        Safe-from always {P = Read prev} _
          (λ e same. subst (Read prev) same (found-Read s.marking d i r))
          (next semver _ _
            (by_others-kept (Read prev) s.before_marker (λ v e _. repointed-Read prev v e))
            (Safe-bind always _ _
              (Safe-attempt always {Q = MarkedBy s.before_flip prev} (λ e. marking e prev)
                (λ e j f. (marked-Good prev e j f, (f.0, λ _. refl))))
              (λ _. Safe-bind always _ _ (uncounted prev s.before_flip) (λ _.
                next semver _ _
                  (by_others-kept (Unspent s.before_flip prev) s.before_flip
                    (repointed-Unspent prev s.before_flip))
                  (flipped-Trial prev s.before_flip q)))))
