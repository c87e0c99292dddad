-- ===== src/Updates/Runnable.antt =====
-- What `current` names can always be run, and so can what a trial would be rolled back to.
use higgs.Base.Text.{Text, text_eq}
use higgs.Base.{
  ◌++◌, Bool, true, false, [], ◌∷◌, ◌≡◌, refl, sym, ◌∙◌, some, none, Option, some-injective,
  string_eq, nat_eq,
}
use higgs.Updates.{
  strip_v, Semver, TrialMarker, Disk, Sight, seen, M, ◌>>=◌, ◌>>◌, pure, get_disk,
  is_installed_version, is_failed_target, record_failed_target, record_update_failure, remove_trial,
  remove_boot_fails, flip_current_to,
}
use higgs.Updates.Boot
use higgs.Updates.Rules.{
  Safe, Safe-pure, Safe-if, Safe-bind, Safe-get, Safe-attempt, Safe-elsewhere, Safe-best_effort,
  Safe-from, Safe-flush,
}

module _ (semver : Semver) where
  abbrev pub Runs : Text → Disk → Type 0
  Runs vname d = is_installed_version semver vname d ≡ true

  pub record Good (d : Disk) : Type 0 where
    pub current_runs : (c : Text) → d.link ≡ some c → Runs c d
    pub prev_runs : (t : TrialMarker) (p : Text) → d.trial ≡ some t → t.prev ≡ some p → Runs p d

  -- No read fails that looks at a version directory.
  pub seen-Runs : (v : Text) (s : Sight) (d : Disk) → Runs v (seen s d) → Runs v d
  unfolding is_installed_version seen
  seen-Runs v s d r = r

  abbrev pub Any : Disk → Type 0
  Any d = Unit

  abbrev Kept : (Disk → Disk) → Type 0
  Kept f = (d : Disk) → Good d → Good (f d)

  pub same_files :
      (d e : Disk) → d.link ≡ e.link → d.trial ≡ e.trial → d.dirs ≡ e.dirs → Good d → Good e
  unfolding is_installed_version
  same_files d e l t s g = record {
    current_runs = λ c h. rw (← s) (g.current_runs c (l ∙ h));
    prev_runs = λ m p h k. rw (← s) (g.prev_runs m p (t ∙ h) k);
  }

  no_trial : (d : Disk) → Good d → Good (record d { trial = none })
  unfolding is_installed_version
  no_trial d g = record { current_runs = g.current_runs; prev_runs = λ t p h k. cc h }

  pub flipped : (v : Text) (d : Disk) → Runs v d → Good d → Good (record d { link = some v })
  unfolding is_installed_version
  flipped v d r g = record {
    current_runs = λ c h. rw (← some-injective h) r;
    prev_runs = g.prev_runs;
  }

  module _ (v : Text) where
    -- An operation that changes neither the link, the trial nor the directories.
    module _ (f : Disk → Disk) (l : (d : Disk) → (f d).link ≡ d.link)
        (t : (d : Disk) → (f d).trial ≡ d.trial) (s : (d : Disk) → (f d).dirs ≡ d.dirs) where
      quiet : (d : Disk) → Good d → Runs v d → Good (f d) × Runs v (f d)
      unfolding is_installed_version
      quiet d g r = (same_files d (f d) (sym (l d)) (sym (t d)) (sym (s d)) g, rw (s d) r)

    pub Safe-boot_fails : Safe Good (Runs v) remove_boot_fails (λ _. Runs v)
    unfolding remove_boot_fails
    Safe-boot_fails = Safe-attempt Good _ (quiet _ (λ d. refl) (λ d. refl) (λ d. refl))

    pub Safe-flip : Safe Good (Runs v) (flip_current_to v) (λ _. Runs v)
    unfolding flip_current_to is_installed_version
    Safe-flip = Safe-bind Good _ _ (Safe-elsewhere Good) λ _.
        Safe-bind Good _ _ (Safe-attempt Good _ (λ d i p. (flipped v d p i, p)))
          λ _. Safe-flush Good

    pub Safe-failed_target :
        (vname : Text) → Safe Good (Runs v) (record_failed_target vname) (λ _. Runs v)
    unfolding record_failed_target
    Safe-failed_target vname = Safe-get Good _ λ d sight i p.
        Safe-if Good (is_failed_target vname (seen sight d)) _ _
          (λ _. Safe-pure Good tt (λ e s. rw (← s) p))
          (λ _.
            Safe-best_effort Good _ (λ e s. rw (← s) p)
              (λ e j s.
                quiet
                  (λ c. record c { failed_targets = (seen sight d).failed_targets ++ vname ∷ [] })
                  (λ d. refl) (λ d. refl) (λ d. refl) e j (rw (← s) p)))

    Safe-update_failure :
        (from to reason : Text)
        → Safe Good (Runs v) (record_update_failure from to reason) (λ _. Runs v)
    unfolding record_update_failure
    Safe-update_failure from to reason =
        Safe-best_effort Good _ (λ e p. p) (quiet _ (λ d. refl) (λ d. refl) (λ d. refl))

    pub Safe-remove_trial : Safe Good (Runs v) remove_trial (λ _. Runs v)
    unfolding remove_trial is_installed_version
    Safe-remove_trial = Safe-attempt Good _ (λ d i p. (no_trial d i, p))

  pub ending : {A : Type 0} {P : Disk → Type 0} (a : A) → Safe Good P (pure a) (λ _. Any)
  ending a = Safe-pure Good a (λ d p. tt)

  -- A step that keeps `P`, and what comes after it.
  pub next :
      {A B : Type 0} {P : Disk → Type 0} {Q : B → Disk → Type 0} (m : M A) (k : M B)
      → Safe Good P m (λ _. P)
      → Safe Good P k Q
      → Safe Good P (m >> k) Q
  next m k h g = Safe-bind Good m (λ _. k) h (λ _. g)

  Safe-perform :
      (prev failed_to reason : Text)
      → Safe Good Any (Boot.perform_trial_rollback semver prev failed_to reason) (λ _. Any)
  unfolding Boot.perform_trial_rollback
  Safe-perform prev failed_to reason = Safe-get Good _ λ d sight i p.
      Safe-if Good (is_installed_version semver prev (seen sight d)) _ _
        (λ r.
          Safe-from Good {P = Runs prev} _ (λ e s. rw (← s) (seen-Runs prev sight d r))
            (next _ _ (Safe-boot_fails prev) (
              next _ _ (Safe-flip prev) (
                next _ _ (Safe-failed_target prev failed_to) (
                  next _ _ (Safe-update_failure prev (strip_v prev) (strip_v failed_to) reason) (
                    next _ _ (Safe-remove_trial prev)
                      (next _ _ (Safe-flush Good) (ending true))))))))
        (λ _. Safe-pure Good false (λ e s. tt))

  roll_back_to-Good :
      (prev : Option Text) (failed_to reason : Text)
      → Safe Good Any (Boot.roll_back_to semver prev failed_to reason) (λ _. Any)
  unfolding Boot.roll_back_to
  roll_back_to-Good none failed_to reason = ending none
  roll_back_to-Good (some prev) failed_to reason =
      search (Safe-bind Good, Safe-perform prev failed_to reason, ending)

  pub remove_trial-Good : Safe Good Any remove_trial (λ _. Any)
  unfolding remove_trial
  remove_trial-Good = Safe-attempt Good _ (λ d i p. (no_trial d i, tt))

  pub remove_boot_fails-Good : Safe Good Any remove_boot_fails (λ _. Any)
  unfolding remove_boot_fails
  remove_boot_fails-Good = Safe-attempt Good _ (λ d i p. (same_files d _ refl refl refl i, tt))

  ruleset trial_rules = (remove_trial-Good, remove_boot_fails-Good, roll_back_to-Good, ending)

  discard_stale-Good : (locked : Bool) → Safe Good Any (Boot.discard_stale semver locked) (λ _. Any)
  unfolding Boot.discard_stale
  discard_stale-Good true = search (next, Safe-flush Good, trial_rules)
  discard_stale-Good false = ending none

  spent_trial-Good :
      (t : Option TrialMarker) (d : Disk) (locked : Bool)
      → Safe Good Any (Boot.spent_trial semver t d locked) (λ _. Any)
  unfolding Boot.spent_trial
  spent_trial-Good none d locked = ending none
  spent_trial-Good (some t) d locked = search (Safe-if Good, discard_stale-Good, trial_rules)

  pub reading_to :
      {A : Type 0} {Q : A → Disk → Type 0} (f : Disk → M A)
      → ((d : Disk) → Safe Good Any (f d) Q)
      → Safe Good Any (get_disk >>= f) Q
  reading_to f k =
      Safe-get Good f (λ d s i p. Safe-from Good (f (seen s d)) (λ _ _. tt) (k (seen s d)))

  -- What only reads the disk before `f`.
  pub reading :
      {A : Type 0} (f : Disk → M A)
      → ((d : Disk) → Safe Good Any (f d) (λ _. Any))
      → Safe Good Any (get_disk >>= f) (λ _. Any)
  reading = reading_to

  pub boot_rollback-Good :
      (lock : Boot.LockAttempt) → Safe Good Any (Boot.boot_rollback_if_spent semver lock) (λ _. Any)
  unfolding Boot.boot_rollback_if_spent Boot.with_boot_lock Boot.boot_rollback_body
  boot_rollback-Good Boot.held = reading _ (λ d. spent_trial-Good d.trial d true)
  boot_rollback-Good Boot.contended = ending none
  boot_rollback-Good Boot.lock_failed = reading _ (λ d. spent_trial-Good d.trial d false)

  forced-Good :
      (t : Option TrialMarker) (d : Disk) (running_version : Text)
      → Safe Good Any (Boot.forced semver t d running_version) (λ _. Any)
  unfolding Boot.forced
  forced-Good none d running_version = ending none
  forced-Good (some t) d running_version = search (Safe-if Good, trial_rules)

  -- A hook that does the same whether the lock is held or broken.
  locked-Good :
      {A : Type 0} (lock : Boot.LockAttempt) (skip : A) (m : M A)
      → Safe Good Any m (λ _. Any)
      → Safe Good Any (Boot.with_boot_lock lock skip (λ _. m)) (λ _. Any)
  unfolding Boot.with_boot_lock
  locked-Good Boot.held skip m h = h
  locked-Good Boot.contended skip m h = ending skip
  locked-Good Boot.lock_failed skip m h = h

  pub force_rollback-Good :
      (lock : Boot.LockAttempt) (running_version : Text)
      → Safe Good Any (Boot.force_rollback_trial semver lock running_version) (λ _. Any)
  unfolding Boot.force_rollback_trial Boot.force_rollback_trial_body
  force_rollback-Good lock running_version =
      locked-Good lock none _ (reading _ (λ d. forced-Good d.trial d running_version))

  count_boot-Good :
      (t : Option TrialMarker) (running_version : Text)
      → Safe Good Any (Boot.count_boot t running_version) (λ _. Any)
  unfolding Boot.count_boot
  count_boot-Good none running_version = remove_boot_fails-Good
  count_boot-Good (some t) running_version =
      Safe-if Good (Boot.trial_is_for t running_version) _ _
        (λ _. Safe-attempt Good _ (λ d i p. (same_files d _ refl refl refl i, tt))) (λ _. ending tt)

  pub record_boot_attempt-Good :
      (lock : Boot.LockAttempt) (running_version : Text)
      → Safe Good Any (Boot.record_boot_attempt lock running_version) (λ _. Any)
  unfolding Boot.record_boot_attempt
  record_boot_attempt-Good lock running_version =
      locked-Good lock tt _ (reading _ (λ d. count_boot-Good d.trial running_version))

  commit_if-Good : (pending : Bool) → Safe Good Any (Boot.commit_if pending) (λ _. Any)
  unfolding Boot.commit_if
  commit_if-Good true = search (next, Safe-flush Good, trial_rules)
  commit_if-Good false = ending tt

  pub confirm_alive-Good :
      (lock : Boot.LockAttempt) (running_version : Text)
      → Safe Good Any (Boot.confirm_alive lock running_version) (λ _. Any)
  unfolding Boot.confirm_alive
  confirm_alive-Good lock running_version =
      locked-Good lock tt _
        (reading _ (λ d. commit_if-Good (Boot.is_trial_pending_for d running_version)))
