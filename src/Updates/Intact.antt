-- ===== src/Updates/Intact.antt =====
-- Over any operations on an installation, with any failures and deaths, `current` names a version that
-- can be run, as long as a pruning can read what it keeps.
use higgs.Base.Text.{Text}
use higgs.Base.{◌≡◌, All, Bool, List, [], ◌∷◌, string_eq, nat_eq}
use higgs.Updates.{Semver, Disk, World, Answer, Sight, clear, Outcome, M, ok, err, dead}
use higgs.Updates.Eligibility.{BuildIdentity, UpdateManifest}
use higgs.Updates.Boot.{
  LockAttempt, boot_rollback_if_spent, force_rollback_trial, record_boot_attempt, confirm_alive,
}
use higgs.Updates.Apply.{Staging, stage_and_flip, rollback, prune}
use higgs.Updates.Rules.{Safe, After}
use higgs.Updates.Runnable.{
  Good, Any, boot_rollback-Good, force_rollback-Good, record_boot_attempt-Good, confirm_alive-Good,
}
use higgs.Updates.Applied.{stage_and_flip-Trial}
use higgs.Updates.Pruned.{rollback-Runs, prune-Unnamed}

-- What may be done with an installation: the hooks of a boot and of a running daemon, each with what the
-- lock answers, and the operations that hold the lock.
pub data Op : Type 0 where
  boot force : LockAttempt → Text → Op
  attempted alive : LockAttempt → Text → Op
  update : UpdateManifest → Staging → Bool → Op
  back : Op
  pruned : Sight → Op

-- A pruning sees the link and the marker when it plans what it keeps.
abbrev pub Sees : Op → Type 0
Sees (boot _ _) = Unit
Sees (force _ _) = Unit
Sees (attempted _ _) = Unit
Sees (alive _ _) = Unit
Sees (update _ _ _) = Unit
Sees back = Unit
Sees (pruned s) = s ≡ clear

module _ (semver : Semver) (own : BuildIdentity) where
  abbrev pub disk_after : {A : Type 0} → M A → Disk → List Answer → List Sight → Disk
  disk_after m d answers sights =
      (m (record { disk = d; answers = answers; sights = sights })).1.disk

  -- The disk after one operation, with the outcomes of its file operations and what its reads can see.
  unfoldable pub apply : Op → List Answer → List Sight → Disk → Disk
  unfolding boot_rollback_if_spent force_rollback_trial record_boot_attempt confirm_alive
      stage_and_flip rollback prune
  apply (boot lock running) answers sights d =
      disk_after (boot_rollback_if_spent semver lock) d answers sights
  apply (force lock running) answers sights d =
      disk_after (force_rollback_trial semver lock running) d answers sights
  apply (attempted lock running) answers sights d =
      disk_after (record_boot_attempt lock running) d answers sights
  apply (alive lock running) answers sights d =
      disk_after (confirm_alive lock running) d answers sights
  apply (update m s allow_downgrade) answers sights d =
      disk_after (stage_and_flip semver own m s allow_downgrade) d answers sights
  apply back answers sights d = disk_after (rollback semver) d answers sights
  apply (pruned s) answers sights d = disk_after (prune semver s) d answers sights

  unfoldable pub apply_all : List (Op × List Answer × List Sight) → Disk → Disk
  unfolding apply
  apply_all [] d = d
  apply_all ((op, answers, sights) ∷ ops) d = apply_all ops (apply op answers sights d)

  after-Always :
      {A : Type 0} (Q : A → Disk → Type 0) (r : Outcome A) (d : Disk)
      → After (Good semver) Q r d
      → Good semver d
  after-Always Q (ok a) d h = h.0
  after-Always Q (err e) d h = h
  after-Always Q dead d h = h

  pub safe-Good :
      {A : Type 0} {Q : A → Disk → Type 0} (m : M A) (d : Disk) (answers : List Answer)
      (sights : List Sight)
      → Safe (Good semver) (Any semver) m Q
      → Good semver d
      → Good semver (disk_after m d answers sights)
  safe-Good {Q = Q} m d answers sights s g =
      let w : World = record { disk = d; answers = answers; sights = sights } in
      after-Always Q (m w).0 ((m w).1).disk (s.at w g tt)

  apply-Good :
      (op : Op) (answers : List Answer) (sights : List Sight) (d : Disk)
      → Sees op
      → Good semver d
      → Good semver (apply op answers sights d)
  unfolding apply
  apply-Good (boot lock running) answers sights d _ =
      safe-Good _ d answers sights (boot_rollback-Good semver lock)
  apply-Good (force lock running) answers sights d _ =
      safe-Good _ d answers sights (force_rollback-Good semver lock running)
  apply-Good (attempted lock running) answers sights d _ =
      safe-Good _ d answers sights (record_boot_attempt-Good semver lock running)
  apply-Good (alive lock running) answers sights d _ =
      safe-Good _ d answers sights (confirm_alive-Good semver lock running)
  apply-Good (update m s allow_downgrade) answers sights d _ =
      safe-Good _ d answers sights (stage_and_flip-Trial semver own m allow_downgrade s)
  apply-Good back answers sights d _ = safe-Good _ d answers sights (rollback-Runs semver)
  apply-Good (pruned s) answers sights d h = safe-Good _ d answers sights (prune-Unnamed semver s h)

  -- From an installation in which `current` and the rollback target of a trial name versions that can be
  -- run, any operations lead to such an installation, whatever their file operations fail at, wherever
  -- the process dies in them, whatever the lock answers, whichever versions `install.sh` points `current` at
  -- before the last look of an apply, its read for the marker, its marker and its flip, and whichever of their reads of the link and the markers fail, but for those with which a
  -- pruning plans what it keeps: these succeed.
  pub apply_all-Good :
      (ops : List (Op × List Answer × List Sight)) (d : Disk)
      → All (λ e. Sees e.0) ops
      → Good semver d
      → Good semver (apply_all ops d)
  unfolding apply_all
  apply_all-Good [] d h g = g
  apply_all-Good ((op, answers, sights) ∷ ops) d h g =
      apply_all-Good ops (apply op answers sights d) h.1 (apply-Good op answers sights d h.0 g)
