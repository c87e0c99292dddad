-- ===== src/Updates/Dirs.antt =====
-- The steps of an apply that do not touch `current`, and the directories of versions: what could be run
-- still can.
use higgs.Base.Assoc.{get, insert, get_other, get_same}
use higgs.Base.Text.{Text, text_eq, text_beq_iff}
use higgs.Base.{
  Bool, true, false, ◌&&◌, List, ◌≡◌, refl, sym, ap, ◌∙◌, some, none, Option, arith, Bool-cases,
  Option-cases, inl, inr, ◌==◌, string_eq, nat_eq,
}
use higgs.Updates.{
  Semver, TrialMarker, VersionDir, Disk, Outcome, M, lift, err, is_installed_version,
  is_version_dir_name, is_runnable, is_live,
}
use higgs.Updates.Apply.{
  takes_dir, refuse_unless, settle_trial, smoke, create_dir, change_dir, fresh_dir, new_dir,
  changed,
}
use higgs.Updates.Rules.{Safe, Safe-lift, Safe-if}
use higgs.Updates.Runnable.{Good, Any, ending, next, remove_trial-Good, remove_boot_fails-Good}

module _ (semver : Semver) where
  -- The operation keeps a good installation, at every point.
  abbrev pub Sound : {A : Type 0} → M A → Type 0
  Sound m = Safe (Good semver) (Any semver) m (λ _. Any semver)

  pub lift-Sound : {A : Type 0} (r : Outcome A) → Sound (lift r)
  lift-Sound r = Safe-lift (Good semver) r (λ a d e p. tt)

  pub refuse-Sound : (b : Bool) → Sound (refuse_unless b)
  unfolding refuse_unless
  refuse-Sound true = ending semver tt
  refuse-Sound false = lift-Sound (err _)

  pub settle_trial-Sound : (t : Option TrialMarker) (d : Disk) → Sound (settle_trial t d)
  unfolding settle_trial
  settle_trial-Sound none d = ending semver tt
  settle_trial-Sound (some t) d =
      Safe-if (Good semver) (is_live t d) _ _ (λ _. lift-Sound (err _))
        (λ _. next semver _ _ (remove_trial-Good semver) (remove_boot_fails-Good semver))

  pub smoke-Sound : (ver : Text) (words : Option (List Text)) → Sound (smoke ver words)
  unfolding smoke
  smoke-Sound ver none = lift-Sound (err _)
  smoke-Sound ver (some words) = refuse-Sound _

  -- A new entry of `vname` that can be run if the old one could.
  entered :
      (dir : VersionDir) (vname v : Text) (dirs : List (Text × VersionDir))
      → (is_runnable (get vname dirs) ≡ true → is_runnable (some dir) ≡ true)
      → is_runnable (get v dirs) ≡ true
      → is_runnable (get v (insert vname dir dirs)) ≡ true
  entered dir vname v dirs h r = elim (Bool-cases (vname == v)) [
    | inl t ↦
        let same = (text_beq_iff vname v).0 t in
        ap is_runnable
          (ap (λ x. get x (insert vname dir dirs)) (sym same) ∙ get_same vname dir dirs)
        ∙ h (ap (λ x. is_runnable (get x dirs)) same ∙ r)
    | inr n ↦ ap is_runnable (get_other vname v dir dirs n) ∙ r
  ]

  pub changed_lem :
      (f : VersionDir → VersionDir) (vname v : Text) (dirs : List (Text × VersionDir))
      → ((dir : VersionDir) → is_runnable (some dir) ≡ true → is_runnable (some (f dir)) ≡ true)
      → is_runnable (get v dirs) ≡ true
      → is_runnable (get v (changed f vname (get vname dirs) dirs)) ≡ true
  unfolding changed
  changed_lem f vname v dirs h r = elim (Option-cases (get vname dirs)) [
    | inl e ↦ rw e r
    | inr (dir, e) ↦ rw e (entered (f dir) vname v dirs (λ k. h dir (ap is_runnable (sym e) ∙ k)) r)
  ]

  pub created :
      (vname v : Text) (dirs : List (Text × VersionDir))
      → is_runnable (get v dirs) ≡ true
      → is_runnable (get v (new_dir vname (get vname dirs) dirs)) ≡ true
  unfolding new_dir is_runnable
  created vname v dirs r = elim (Option-cases (get vname dirs)) [
    | inl e ↦ rw e (entered fresh_dir vname v dirs (λ k. cc (ap is_runnable (sym e) ∙ k)) r)
    | inr (dir, e) ↦ rw e r
  ]

  pub conj : (a b c : Bool) → (b ≡ true → c ≡ true) → a && b ≡ true → a && c ≡ true
  conj a b c h e = ground (arith, h, e)

  -- New directories where each that could be run still can.
  pub enriched :
      (d : Disk) (dirs : List (Text × VersionDir))
      → ((v : Text) → is_runnable (get v d.dirs) ≡ true → is_runnable (get v dirs) ≡ true)
      → Good semver d
      → Good semver (record d { dirs = dirs })
  unfolding is_installed_version
  enriched d dirs h g = record {
    current_runs = λ c e. conj (is_version_dir_name semver c) _ _ (h c) (g.current_runs c e);
    prev_runs = λ t p e k. conj (is_version_dir_name semver p) _ _ (h p) (g.prev_runs t p e k);
  }

  module _ (vname : Text) where
    -- The directory is there, and its `higgs` too if `b`.
    unfoldable pub Stage : Bool → Disk → Type 0
    Stage b d =
        (dir : VersionDir) × (get vname d.dirs ≡ some dir)
        × (dir.is_dir ≡ true)
        × (b ≡ true → dir.runnable ≡ true)

    pub created-Stage :
        (d : Disk) → takes_dir (get vname d.dirs) ≡ true → Stage false (create_dir vname d)
    unfolding Stage create_dir new_dir takes_dir
    created-Stage d h = elim (Option-cases (get vname d.dirs)) [
      | inl e ↦ (fresh_dir, rw e (get_same vname fresh_dir d.dirs), refl, λ x. cc x)
      | inr (dir, e) ↦ (dir, rw e e, ap takes_dir (sym e) ∙ h, λ x. cc x)
    ]

    pub changed-Stage :
        (f : VersionDir → VersionDir) (b c : Bool) (d : Disk)
        → ((dir : VersionDir) → (f dir).is_dir ≡ dir.is_dir)
        → ((dir : VersionDir)
            → (b ≡ true → dir.runnable ≡ true)
            → c ≡ true
            → (f dir).runnable ≡ true)
        → Stage b d
        → Stage c (change_dir f vname d)
    unfolding Stage change_dir changed
    changed-Stage f b c d same runs (dir, e, i, r) =
        (f dir, rw e (get_same vname (f dir) d.dirs), same dir ∙ i, runs dir r)
