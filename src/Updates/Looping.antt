-- ===== src/Updates/Looping.antt =====
-- A version that keeps failing to boot is rolled back, reported, and not taken again.
use higgs.Base.Text.{Text, text_eq}
use higgs.Base.{
  ◌≢◌, List, [], ◌∷◌, ◌++◌, some, none, Option, ◌≡◌, ◌==◌, any, if◌then◌else◌, zero, suc, ℕ, nat_eq,
  string_eq,
}
use higgs.Updates.{
  Answer, Semver, UpdateFailed, VersionDir, Disk, World, M, ok, version_name, strip_v,
  sanitize_version,
}
use higgs.Updates.Eligibility.{BuildIdentity}
use higgs.Updates.Boot.{held, boot_rollback_if_spent, record_boot_attempt, crash_looped}
use mathlib.Core.Logic.{◌≢◌}
use higgs.Updates.Intact.{disk_after}

module _ (semver : Semver) (own : BuildIdentity) where
  -- A daemon of the version `ver` boots, under the lock and with no failure of the file system, and dies
  -- before it is admitted.
  unfoldable pub crash : Text → Disk → Disk
  unfolding boot_rollback_if_spent record_boot_attempt
  crash ver d =
      disk_after semver own (record_boot_attempt held ver)
        (disk_after semver own (boot_rollback_if_spent semver held) d [] []) [] []

  unfoldable pub crashes : ℕ → Text → Disk → Disk
  unfolding crash
  crashes zero ver d = d
  crashes (suc n) ver d = crash ver (crashes n ver d)

  module _ (ver prev : Text) (dirs : List (Text × VersionDir)) (failed_targets : List Text)
      (last_fail : Option UpdateFailed) where
    -- `ver` is on trial, over `prev`.
    abbrev pub on_trial : Option ℕ → Disk
    on_trial boot_fails = record {
      link = some (version_name ver);
      dirs = dirs;
      trial = some (record { to = version_name ver; prev = some prev });
      boot_fails = boot_fails;
      failed_targets = failed_targets;
      last_fail = last_fail;
    }

    noted : List Text
    noted =
        if any (λ v. v == version_name ver) failed_targets
        then failed_targets
        else failed_targets ++ version_name ver ∷ []

    unfoldable pub failure : UpdateFailed
    failure = record {
      from = sanitize_version (strip_v prev);
      to = sanitize_version ver;
      reason = crash_looped;
    }

    rolled_back : Disk
    rolled_back = record {
      link = some prev;
      dirs = dirs;
      trial = none;
      boot_fails = none;
      failed_targets = noted;
      last_fail = some failure;
    }

  -- An operation that is refused before it has written anything.
  pub record Refused {A : Type 0} (m : M A) (w : World) : Type 0 where
    pub same : (m w).1 ≡ w
    pub fails : (a : A) → (m w).0 ≢ ok a

  -- A world in which the reads succeed.
  abbrev seeing : Disk → List Answer → World
  seeing d answers = record { disk = d; answers = answers; sights = [] }
