-- ===== src/Updates/Boot.antt =====
-- The boot guard of src/node/self_update.rs: the rollback of a version on trial that keeps failing to
-- boot, the count of its boots, and its commit.
use higgs.Base.Text.{Text, codes, text_eq}
use higgs.Base.{
  string_eq, nat_eq, ◌==◌, if◌then◌else◌, leb, ltb, some, none, Option, ◌&&◌, not, false, true,
  Bool, ◌+◌, ◌-◌, ◌^◌, ℕ,
}
use higgs.Updates.{
  Semver, TrialMarker, Disk, M, ◌>>=◌, ◌>>◌, pure, get_disk, attempt, elsewhere, best_effort,
  version_name, strip_v, is_installed_version, is_live, record_failed_target, record_update_failure,
  remove_trial, remove_boot_fails, flip_current_to,
}

-- The answer of UpdateLock::try_acquire.
pub data LockAttempt : Type 0 where
  held contended lock_failed : LockAttempt

abbrev pub boot_fail_budget : ℕ
boot_fail_budget = 3

unfoldable pub read_boot_fails : Option ℕ → ℕ
read_boot_fails none = 0
read_boot_fails (some n) = n

unfoldable pub prev_of : Option TrialMarker → Option Text
prev_of none = none
prev_of (some t) = t.prev

unfoldable pub decide_rollback : Option TrialMarker → ℕ → ℕ → Option Text
unfolding prev_of
decide_rollback trial fails budget = if leb budget fails then prev_of trial else none

unfoldable pub trial_is_for : TrialMarker → Text → Bool
unfolding version_name
trial_is_for t running_version = t.to == version_name running_version

unfoldable pub is_pending_for : Option TrialMarker → Text → Bool
unfolding trial_is_for
is_pending_for none running_version = false
is_pending_for (some t) running_version = trial_is_for t running_version

unfoldable pub is_trial_pending_for : Disk → Text → Bool
unfolding is_pending_for
is_trial_pending_for d running_version = is_pending_for d.trial running_version

unfoldable pub with_boot_lock : {A : Type 0} → LockAttempt → A → (Bool → M A) → M A
with_boot_lock held skip body = body true
with_boot_lock contended skip body = pure skip
with_boot_lock lock_failed skip body = body false

unfoldable pub crash_looped : Text
crash_looped = codes "crash-looped on boot — rolled back"

unfoldable pub not_tracked : Text
not_tracked = codes "could not track the update's boot health (disk full?) — rolled back untested"

module _ (semver : Semver) where
  unfoldable pub perform_trial_rollback : Text → Text → Text → M Bool
  unfolding is_installed_version remove_boot_fails flip_current_to record_failed_target
      record_update_failure strip_v remove_trial best_effort elsewhere
  perform_trial_rollback prev failed_to reason = do
    d ← get_disk
    if is_installed_version semver prev d
        then (do
          remove_boot_fails
          flip_current_to prev
          record_failed_target failed_to
          record_update_failure (strip_v prev) (strip_v failed_to) reason
          remove_trial
          best_effort elsewhere
          pure true)
        else pure false

  -- The marker is stale. Only with the lock are it and the counter removed.
  unfoldable pub discard_stale : Bool → M (Option Text)
  unfolding remove_trial remove_boot_fails best_effort elsewhere
  discard_stale locked =
      if locked
      then (do remove_trial; remove_boot_fails; best_effort elsewhere; pure none)
      else pure none

  unfoldable pub roll_back_to : Option Text → Text → Text → M (Option Text)
  unfolding perform_trial_rollback
  roll_back_to none failed_to reason = pure none
  roll_back_to (some prev) failed_to reason = do
    rolled ← perform_trial_rollback prev failed_to reason
    pure (if rolled then some prev else none)

  unfoldable pub spent_trial : Option TrialMarker → Disk → Bool → M (Option Text)
  unfolding is_live discard_stale roll_back_to decide_rollback read_boot_fails crash_looped
  spent_trial none d locked = pure none
  spent_trial (some t) d locked =
      if not (is_live t d)
      then discard_stale locked
      else roll_back_to (decide_rollback (some t) (read_boot_fails d.boot_fails) boot_fail_budget)
          t.to crash_looped

  unfoldable pub boot_rollback_body : Bool → M (Option Text)
  unfolding spent_trial
  boot_rollback_body locked = do d ← get_disk; spent_trial d.trial d locked

  unfoldable pub boot_rollback_if_spent : LockAttempt → M (Option Text)
  unfolding with_boot_lock boot_rollback_body
  boot_rollback_if_spent lock = with_boot_lock lock none boot_rollback_body

  unfoldable pub forced : Option TrialMarker → Disk → Text → M (Option Text)
  unfolding is_live trial_is_for roll_back_to not_tracked
  forced none d running_version = pure none
  forced (some t) d running_version =
      if trial_is_for t running_version && is_live t d
      then roll_back_to t.prev t.to not_tracked
      else pure none

  unfoldable pub force_rollback_trial_body : Text → M (Option Text)
  unfolding forced
  force_rollback_trial_body running_version = do d ← get_disk; forced d.trial d running_version

  unfoldable pub force_rollback_trial : LockAttempt → Text → M (Option Text)
  unfolding with_boot_lock force_rollback_trial_body
  force_rollback_trial lock running_version =
      with_boot_lock lock none (λ _. force_rollback_trial_body running_version)

-- u32::saturating_add(1)
unfoldable pub saturating_inc : ℕ → ℕ
saturating_inc n = if ltb n (2 ^ 32 - 1) then n + 1 else n

unfoldable pub count_boot : Option TrialMarker → Text → M (Unit {0})
unfolding trial_is_for saturating_inc read_boot_fails attempt remove_boot_fails
count_boot none running_version = remove_boot_fails
count_boot (some t) running_version =
    if trial_is_for t running_version
    then attempt
        (λ d. record d { boot_fails = some (saturating_inc (read_boot_fails d.boot_fails)) })
    else pure tt

unfoldable pub record_boot_attempt : LockAttempt → Text → M (Unit {0})
unfolding with_boot_lock count_boot
record_boot_attempt lock running_version =
    with_boot_lock lock tt (λ _. do d ← get_disk; count_boot d.trial running_version)

unfoldable pub commit_if : Bool → M (Unit {0})
unfolding remove_trial remove_boot_fails best_effort elsewhere
commit_if pending =
    if pending then (do remove_trial; remove_boot_fails; best_effort elsewhere) else pure tt

unfoldable pub confirm_alive : LockAttempt → Text → M (Unit {0})
unfolding with_boot_lock commit_if is_trial_pending_for
confirm_alive lock running_version =
    with_boot_lock lock tt
      (λ _. do d ← get_disk; commit_if (is_trial_pending_for d running_version))
