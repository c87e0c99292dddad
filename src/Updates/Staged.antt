-- ===== src/Updates/Staged.antt =====
-- `stage_and_flip` keeps an installation good: the new version can be run before `current` names it.
use mathlib.Core.Path.{subst}
use higgs.Base.Assoc.{get}
use higgs.Base.Text.{Text, codes, text_eq}
use higgs.Base.{
  string_eq, nat_eq, Bool, true, false, ◌||◌, List, [], ◌∷◌, ◌≡◌, refl, some, arith, any, ◌==◌,
}
use higgs.Updates.{names, Semver, VersionDir, Disk, seen, is_runnable}
use higgs.Updates.Apply.{
  Staging, publish, publish_files, create_dir, change_dir, takes_dir, now_runnable, new_dir,
  changed,
}
use higgs.Updates.Rules.{
  Safe, Safe-pure, Safe-bind, Safe-get, Safe-attempt, Safe-elsewhere, Safe-refuse_unless,
  Safe-refuse,
}
use higgs.Updates.Runnable.{Good, Any, next}
use higgs.Updates.Dirs.{changed_lem, created, enriched, Stage, created-Stage, changed-Stage}

module _ (semver : Semver) where
  module _ (vname : Text) where
    stays_runnable :
        (b : Bool) (dir : VersionDir)
        → is_runnable (some dir) ≡ true
        → is_runnable (some (now_runnable b dir)) ≡ true
    unfolding is_runnable
    stays_runnable b dir h = ground (arith, h)

    or_false : (b : Bool) → b || false ≡ b
    or_false true = refl
    or_false false = refl

    or_assoc : (a b c : Bool) → (a || b) || c ≡ a || (b || c)
    or_assoc true b c = refl
    or_assoc false b c = refl

    stays_Good :
        (f : VersionDir → VersionDir) (d : Disk)
        → ((dir : VersionDir) → is_runnable (some dir) ≡ true → is_runnable (some (f dir)) ≡ true)
        → Good semver d
        → Good semver (change_dir f vname d)
    unfolding change_dir
    stays_Good f d h =
        enriched semver d (changed f vname (get vname d.dirs) d.dirs)
          (λ v. changed_lem semver f vname v d.dirs h)

    now_there :
        (b x : Bool) (dir : VersionDir)
        → (b ≡ true → dir.runnable ≡ true)
        → b || x ≡ true
        → (now_runnable x dir).runnable ≡ true
    now_there b x dir h e = ground (arith, h, e)

    publish_files-Stage :
        (b : Bool) (names : List Text)
        → Safe
            (Good semver)
            (Stage semver vname b)
            (publish_files vname names)
            (λ _. Stage semver vname (b || any (λ name. name == codes "higgs") names))
    unfolding publish_files any
    publish_files-Stage b [] = Safe-pure (Good semver) tt (λ d p. rw (or_false b) p)
    publish_files-Stage b (name ∷ names) =
        let is_binary = name == codes "higgs" in
        subst
          (λ c.
            Safe (Good semver) (Stage semver vname b) (publish_files vname (name ∷ names))
              (λ _. Stage semver vname c))
          (or_assoc b is_binary (any (λ n. n == codes "higgs") names))
          (next semver _ _ (Safe-elsewhere (Good semver)) (
            Safe-bind (Good semver) _ _
              (Safe-attempt (Good semver) (change_dir (now_runnable is_binary) vname) (λ d i p. (
                stays_Good (now_runnable is_binary) d (stays_runnable is_binary) i,
                changed-Stage semver vname (now_runnable is_binary) b (b || is_binary) d
                    (λ dir. refl) (now_there b is_binary) p,
              )))
              (λ _. publish_files-Stage (b || is_binary) names)))

    create_dir-Good : (d : Disk) → Good semver d → Good semver (create_dir vname d)
    unfolding create_dir
    create_dir-Good d =
        enriched semver d (new_dir vname (get vname d.dirs) d.dirs)
          (λ v. created semver vname v d.dirs)

    same_runs :
        (variant : Text) (dir : VersionDir)
        → is_runnable (some dir) ≡ true
        → is_runnable (some (record dir { variant = some variant })) ≡ true
    unfolding is_runnable
    same_runs variant dir h = h

    pub publish-Stage :
        (variant : Text) (s : Staging)
        → any (λ name. name == codes "higgs") s.files ≡ true
        → Safe (Good semver) (Any semver) (publish vname variant s) (λ _. Stage semver vname true)
    unfolding publish seen
    publish-Stage variant s h = Safe-get (Good semver) _ λ d sight i p.
        Safe-bind (Good semver) _ _
          (Safe-refuse_unless (Good semver) (takes_dir (get vname d.dirs)))
          λ _.
            Safe-bind (Good semver) _ _
              (Safe-attempt (Good semver) (create_dir vname)
                (λ e j (q, t). (create_dir-Good e j, created-Stage semver vname e (rw (← q) t))))
              λ _. next semver _ _ (Safe-elsewhere (Good semver)) (
                next semver _ _ (Safe-refuse (Good semver) s.no_acl) (
                  next semver _ _ (Safe-elsewhere (Good semver)) (
                    Safe-bind (Good semver) _ _ (publish_files-Stage false s.files) λ _.
                      Safe-bind (Good semver) _ _
                        (Safe-attempt (Good semver)
                          (change_dir (λ dir. record dir { variant = some variant }) vname)
                          (λ e j q. (
                            stays_Good _ e (same_runs variant) j,
                            changed-Stage semver vname _ true true e (λ dir. refl) (λ dir k. k)
                                (rw (← h) q),
                          )))
                        λ _. Safe-elsewhere (Good semver))))
