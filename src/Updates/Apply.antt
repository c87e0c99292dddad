-- ===== src/Updates/Apply.antt =====
-- `stage_and_flip`, `rollback` and `prune` of src/node/self_update.rs.
use higgs.Base.Assoc.{get, insert, remove}
use higgs.Base.Sort.{sort}
use higgs.Base.Text.{text_lt, Text, codes, text_eq, to_ascii_lowercase}
use higgs.Base.{
  string_eq, nat_eq, ◌==◌, if◌then◌else◌, any, retain, some, none, Option, ◌&&◌, ◌||◌, not, false,
  true, Bool, List, [], ◌∷◌, map,
}
use higgs.Updates.{
  names, Semver, TrialMarker, VersionDir, Disk, Outcome, M, ◌>>=◌, ◌>>◌, pure, lift, get_disk, look,
  Sight, attempt, elsewhere, ok, err, apply_failed, version_name, is_version_dir_name,
  is_managed_install, is_installed_version, is_live, is_failed_target, current_target,
  record_failed_target, remove_trial, remove_boot_fails, flip_current_to, clear_update_failure,
}
use higgs.Updates.Boot.{prev_of}
use higgs.Updates.Eligibility.{
  BuildIdentity, UpdateManifest, installed_identity, evaluate_eligibility,
}

-- What the archive, the file system and the smoke test give: whether the tree of `bin` is safe; the
-- staged files; whether `higgs` is a regular executable among them and the archive is flat; the words
-- that the staged binary prints, if it runs; whether the version directory is free of ACLs; and the
-- versions at which `install.sh`, which shares no lock, points `current`, if any: before the last look at
-- `current`, before it is read for the marker, before the marker is made, and before the flip. The sights
-- are those of the last two reads.
pub record Staging : Type 0 where
  pub safe_tree : Bool
  pub files : List Text
  pub regular_exec : Bool
  pub flat : Bool
  pub reported : Option (List Text)
  pub no_acl : Bool
  pub before_look : Option Text
  pub before_read : Option Text
  pub before_marker : Option Text
  pub before_flip : Option Text
  pub checking : Sight
  pub marking : Sight

unfoldable pub refuse_unless : Bool → M (Unit {0})
unfolding lift pure
refuse_unless true = pure tt
refuse_unless false = lift (err apply_failed)

-- A trial that is live refuses the update; a stale one is discarded.
unfoldable pub settle_trial : Option TrialMarker → Disk → M (Unit {0})
unfolding is_live remove_trial remove_boot_fails
settle_trial none d = pure tt
settle_trial (some t) d =
    if is_live t d then lift (err apply_failed) else (do remove_trial; remove_boot_fails)

unfoldable pub smoke : Text → Option (List Text) → M (Unit {0})
unfolding any
smoke ver none = lift (err apply_failed)
smoke ver (some words) = refuse_unless (any (λ word. word == ver) words)

abbrev pub fresh_dir : VersionDir
fresh_dir = record { is_dir = true; runnable = false; variant = none }

-- The directory of a new version; one that is there is left.
unfoldable pub new_dir :
    Text → Option VersionDir → List (Text × VersionDir) → List (Text × VersionDir)
unfolding insert
new_dir vname none dirs = insert vname fresh_dir dirs
new_dir vname (some _) dirs = dirs

unfoldable pub create_dir : Text → Disk → Disk
unfolding get new_dir
create_dir vname d = record d { dirs = new_dir vname (get vname d.dirs) d.dirs }

unfoldable pub changed :
    (VersionDir → VersionDir)
    → Text
    → Option VersionDir
    → List (Text × VersionDir)
    → List (Text × VersionDir)
unfolding insert
changed f vname none dirs = dirs
changed f vname (some dir) dirs = insert vname (f dir) dirs

unfoldable pub change_dir : (VersionDir → VersionDir) → Text → Disk → Disk
unfolding get changed
change_dir f vname d = record d { dirs = changed f vname (get vname d.dirs) d.dirs }

-- Whether the name is free, or a real directory.
unfoldable pub takes_dir : Option VersionDir → Bool
takes_dir none = true
takes_dir (some dir) = dir.is_dir

abbrev pub now_runnable : Bool → VersionDir → VersionDir
now_runnable is_binary dir = record dir { runnable = dir.runnable || is_binary }

-- Each file is flushed, then renamed into the version directory.
unfoldable pub publish_files : Text → List Text → M (Unit {0})
unfolding elsewhere attempt change_dir
publish_files vname [] = pure tt
publish_files vname (name ∷ names) = do
  elsewhere
  attempt (change_dir (now_runnable (name == codes "higgs")) vname)
  publish_files vname names

unfoldable pub publish : Text → Text → Staging → M (Unit {0})
unfolding publish_files elsewhere attempt create_dir change_dir takes_dir get
publish vname variant s = do
  d ← get_disk
  refuse_unless (takes_dir (get vname d.dirs))
  attempt (create_dir vname)
  elsewhere
  refuse_unless s.no_acl
  elsewhere
  publish_files vname s.files
  attempt (change_dir (λ dir. record dir { variant = some variant }) vname)
  elsewhere

module _ (semver : Semver) where
  -- `install.sh` publishes a version and removes the markers before it points `current` at the version.
  unfoldable pub repoint : Option Text → Disk → Disk
  unfolding is_installed_version
  repoint none d = d
  repoint (some vname) d =
      if is_installed_version semver vname d
      then record d { link = some vname; trial = none; boot_fails = none; failed_targets = [] }
      else d

  unfoldable pub by_others : Option Text → M (Unit {0})
  unfolding repoint
  by_others vname w = (ok tt, record w { disk = repoint vname w.disk })

  -- The marker with the version that `current` names, then the flip.
  unfoldable pub flip_on_trial : Text → Staging → M (Unit {0})
  unfolding current_target attempt remove_boot_fails flip_current_to by_others
  flip_on_trial vname s = do
    d ← look s.marking
    by_others s.before_marker
    attempt (λ e. record e { trial = some (record { to = vname; prev = current_target d }) })
    remove_boot_fails
    by_others s.before_flip
    flip_current_to vname

  unfoldable pub check_eligible : BuildIdentity → UpdateManifest → Bool → M (Unit {0})
  unfolding installed_identity evaluate_eligibility
  check_eligible own m allow_downgrade = do
    d ← get_disk
    lift (evaluate_eligibility semver (installed_identity own d) m allow_downgrade)

  unfoldable pub check_again : BuildIdentity → UpdateManifest → Sight → Bool → M (Unit {0})
  unfolding installed_identity evaluate_eligibility
  check_again own m s allow_downgrade = do
    d ← look s
    lift (evaluate_eligibility semver (installed_identity own d) m allow_downgrade)

  unfoldable pub stage_and_flip : BuildIdentity → UpdateManifest → Staging → Bool → M (Unit {0})
  unfolding settle_trial check_eligible check_again is_failed_target elsewhere smoke publish
      flip_on_trial clear_update_failure version_name
  stage_and_flip own m s allow_downgrade = do
    refuse_unless s.safe_tree
    d ← get_disk
    settle_trial d.trial d
    check_eligible own m allow_downgrade
    e ← get_disk
    refuse_unless (not (is_failed_target (version_name m.version) e))
    elsewhere
    elsewhere
    refuse_unless (s.regular_exec && any (λ name. name == codes "higgs") s.files)
    refuse_unless s.flat
    smoke m.version s.reported
    publish (version_name m.version) m.variant s
    by_others s.before_look
    check_again own m s.checking allow_downgrade
    by_others s.before_read
    flip_on_trial (version_name m.version) s
    clear_update_failure

  unfoldable pub target_of : Option TrialMarker → Disk → Outcome Text
  unfolding is_live is_installed_version
  target_of none d = err apply_failed
  target_of (some t) d =
      if is_live t d
      then elim t.prev [
        | none ↦ err apply_failed
        | some prev ↦ if is_installed_version semver prev d then ok prev else err apply_failed
      ]
      else err apply_failed

  unfoldable pub rollback_target : M Text
  unfolding target_of is_managed_install
  rollback_target = do
    d ← get_disk
    refuse_unless (is_managed_install d)
    lift (target_of d.trial d)

  unfoldable pub poison : Option TrialMarker → M (Unit {0})
  unfolding record_failed_target
  poison none = pure tt
  poison (some t) = record_failed_target t.to

  unfoldable pub rollback : M Text
  unfolding rollback_target flip_current_to remove_trial remove_boot_fails poison
  rollback = do
    d ← get_disk
    prev ← rollback_target
    flip_current_to prev
    remove_trial
    remove_boot_fails
    poison d.trial
    pure prev

  unfoldable pub keeps_name : Text → Option Text → Bool
  keeps_name name none = false
  keeps_name name (some kept) = to_ascii_lowercase kept == to_ascii_lowercase name

  unfoldable pub is_pruned : Disk → Text × VersionDir → Bool
  unfolding is_version_dir_name keeps_name prev_of current_target
  is_pruned d (name, dir) =
      is_version_dir_name semver name
      && (not (keeps_name name (current_target d) || keeps_name name (prev_of d.trial))
          && dir.is_dir)

  unfoldable pub plan_of : Disk → List Text
  unfolding is_pruned retain sort text_lt
  plan_of d = sort text_lt (map (λ (e : Text × VersionDir). e.0) (retain (is_pruned d) d.dirs))

  -- The last read is that of the link and of the marker, for what is kept.
  unfoldable pub prune_plan : Sight → M (List Text)
  unfolding is_managed_install elsewhere plan_of
  prune_plan s = do
    d ← get_disk
    refuse_unless (is_managed_install d)
    elsewhere
    kept ← look s
    pure (plan_of kept)

  unfoldable pub remove_dirs : List Text → M (Unit {0})
  unfolding attempt remove
  remove_dirs [] = pure tt
  remove_dirs (name ∷ names) = do
    attempt (λ d. record d { dirs = remove name d.dirs })
    remove_dirs names

  unfoldable pub prune : Sight → M (List Text)
  unfolding prune_plan remove_dirs
  prune s = do plan ← prune_plan s; remove_dirs plan; pure plan
