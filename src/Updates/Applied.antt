-- ===== src/Updates/Applied.antt =====
-- What an apply that succeeds leaves, with `install.sh` at work meanwhile and with reads that fail; and at
-- every point of it the installation stays good.
use mathlib.Core.Path.{subst}
use higgs.Base.Text.{Text, codes, text_eq, text_beq_iff}
use higgs.Base.{
  Bool, true, false, ◌&&◌, ◌≡◌, refl, sym, ap, ◌∙◌, some, none, Option, arith, any, ◌==◌, [],
  nat_eq, string_eq,
}
use higgs.Updates.{
  Semver, Disk, Sight, seen, clear, ◌>>◌, is_installed_version, is_version_dir_name, is_runnable,
  clear_update_failure, current_target, version_name, ok, strip_prefix_v,
}
use higgs.Updates.Eligibility.{
  BuildIdentity, UpdateManifest, evaluate_eligibility, compare_versions, installed_identity,
  version_or, version_of,
}
use higgs.Updates.Apply.{
  Staging, stage_and_flip, publish, by_others, flip_on_trial, check_eligible, check_again,
}
use higgs.Updates.Rules.{
  Safe, Safe-lift, Safe-bind, Safe-get, Safe-look, Safe-elsewhere, Safe-from, Safe-best_effort,
  Safe-flush, Safe-refuse_unless, Safe-refuse, Safe-given,
}
use higgs.Updates.Runnable.{Good, Runs, Any, same_files, next, reading_to}
use higgs.Updates.Dirs.{settle_trial-Sound, smoke-Sound, Stage}
use higgs.Updates.Staged.{publish-Stage}
use higgs.Updates.OnTrial.{Trial, by_others-kept, flip_on_trial-Trial}

module _ (semver : Semver) where
  module _ (own : BuildIdentity) (m : UpdateManifest) (allow_downgrade : Bool) where
    -- The manifest may replace the version `prev`.
    pub record Replaces (prev : Option Text) : Type 0 where
      pub target : m.target ≡ own.target
      pub versions :
          compare_versions semver
            (semver.parse m.version)
            (semver.parse (version_or own.version (version_of prev)))
            allow_downgrade
          ≡ ok tt

    eligible-Replaces :
        (d : Disk)
        → evaluate_eligibility semver (installed_identity own d) m allow_downgrade ≡ ok tt
        → Replaces (current_target d)
    unfolding evaluate_eligibility installed_identity
    eligible-Replaces d e = record {
      target = ground (arith, e, text_beq_iff m.target own.target);
      versions = ground (arith, e);
    }

    parsed-is_version :
        (o : Option semver.Version) (f : Option semver.Version)
        → compare_versions semver o f allow_downgrade ≡ ok tt
        → elim o [ none ↦ false | some _ ↦ true ] ≡ true
    unfolding compare_versions
    parsed-is_version none f e = cc e
    parsed-is_version (some v) f e = refl

    Replaces-is_version :
        (prev : Option Text)
        → Replaces prev
        → is_version_dir_name semver (version_name m.version) ≡ true
    unfolding is_version_dir_name version_name strip_prefix_v
    Replaces-is_version prev r = parsed-is_version (semver.parse m.version) _ r.versions

    check_eligible-kept :
        {P : Disk → Type 0}
        → Safe (Good semver) P (check_eligible semver own m allow_downgrade) (λ _. P)
    unfolding check_eligible
    check_eligible-kept {P} =
        Safe-get (Good semver) _ λ d s i p. Safe-lift (Good semver) _ (λ a e r same. subst P same p)

    -- The last look found a version that the manifest may replace, and it is `prev` where `install.sh` did
    -- not flip `current` before it was read again and both reads of it succeeded.
    pub record Found (s : Staging) (marking : Sight) (prev : Option Text) : Type 0 where
      pub at : Option Text
      pub allowed : Replaces at
      pub same : s.before_read ≡ none → s.checking ≡ clear → marking ≡ clear → prev ≡ at

    check_again-Found :
        {P : Disk → Type 0} (s : Staging)
        → Safe
            (Good semver)
            P
            (check_again semver own m s.checking allow_downgrade)
            (λ _ d. P d × Found s clear (current_target d))
    unfolding check_again current_target seen
    check_again-Found {P} s = Safe-look (Good semver) s.checking _ λ d i p.
        Safe-lift (Good semver) _ (λ a e r same. (
          subst P same p,
          subst (λ x. Found s clear (current_target x)) same
              (record {
                at = current_target (seen s.checking d);
                allowed = eligible-Replaces (seen s.checking d) r;
                same = λ n c k. ap (λ x. current_target (seen x d)) (sym c);
              }),
        ))

    Ready : Text → Staging → Disk → Type 0
    Ready vname s d = Stage semver vname true d × Found s clear (current_target d)

    repointed-Ready :
        (vname : Text) (s : Staging) (v : Text) (d : Disk)
        → s.before_read ≡ some v
        → Ready vname s d
        → Ready vname s
            (record d { link = some v; trial = none; boot_fails = none; failed_targets = [] })
    unfolding Ready Stage
    repointed-Ready vname s v d e (p, f) =
        (p, record { at = f.at; allowed = f.allowed; same = λ n. cc (e, n) })

    Stage-Runs :
        (vname : Text) (d : Disk)
        → is_version_dir_name semver vname ≡ true
        → Stage semver vname true d
        → Runs semver vname d
    unfolding Stage is_installed_version is_runnable
    Stage-Runs vname d h (dir, e, i, r) = rw (e, h, i, r refl) refl

    ready :
        (vname : Text) (s : Staging) (d : Disk)
        → vname ≡ version_name m.version
        → Ready vname s d
        → Runs semver vname d × Found s s.marking (current_target (seen s.marking d))
    unfolding Ready current_target seen
    ready vname s d e (p, f) = (
      Stage-Runs vname d (rw e (Replaces-is_version f.at f.allowed)) p,
      record {
        at = f.at;
        allowed = f.allowed;
        same = λ n c k. ap (λ x. current_target (seen x d)) k ∙ f.same n c refl;
      },
    )

    forgotten :
        (Rel : Option Text → Type 0) (latest : Option Text) (vname : Text)
        → Safe
            (Good semver)
            (Trial Rel latest vname)
            clear_update_failure
            (λ _. Trial Rel latest vname)
    unfolding clear_update_failure
    forgotten Rel latest vname =
        next semver _ _
          (Safe-best_effort (Good semver) (λ d. record d { last_fail = none }) (λ d p. p)
            (λ d i p. (
              same_files semver d _ refl refl refl i,
              record {
                prev = p.prev;
                linked = p.linked;
                marked = p.marked;
                unspent = p.unspent;
                related = p.related;
              },
            )))
          (Safe-flush (Good semver))

    and_right : (b c : Bool) → b && c ≡ true → c ≡ true
    and_right b c h = ground (arith, h)

    -- From the publication on.
    published-Trial :
        (s : Staging)
        → any (λ name. name == codes "higgs") s.files ≡ true
        → Safe
            (Good semver)
            (Any semver)
            (publish (version_name m.version) m.variant s
              >> (by_others semver s.before_look
                  >> (check_again semver own m s.checking allow_downgrade
                      >> (by_others semver s.before_read
                          >> (flip_on_trial semver (version_name m.version) s
                              >> clear_update_failure)))))
            (λ _. Trial (Found s s.marking) s.before_flip (version_name m.version))
    unfolding Stage Ready
    published-Trial s h =
        let vname = version_name m.version in
        let always = Good semver in
        Safe-bind always _ _ (publish-Stage semver vname m.variant s h) λ _.
          next semver _ _
            (by_others-kept semver (Stage semver vname true) s.before_look (λ v d e p. p))
            (Safe-bind always _ _ (check_again-Found s) λ _.
              next semver _ _
                (by_others-kept semver (Ready vname s) s.before_read (repointed-Ready vname s))
                (Safe-bind always _ _
                  (Safe-from always _ (λ d p. ready vname s d refl p)
                    (flip_on_trial-Trial semver (Found s s.marking) vname s))
                  (λ _. forgotten (Found s s.marking) s.before_flip vname)))

    -- From an installation that is good, an apply is at every point in one, whatever fails and wherever
    -- the process dies; where it succeeds, the new version is linked, its count of failed boots is clear,
    -- and the manifest may replace the version that the last look at `current` found. `Trial` and `Found` say
    -- when it is on trial, and what its marker names.
    pub stage_and_flip-Trial :
        (s : Staging)
        → Safe
            (Good semver)
            (Any semver)
            (stage_and_flip semver own m s allow_downgrade)
            (λ _. Trial (Found s s.marking) s.before_flip (version_name m.version))
    unfolding stage_and_flip
    stage_and_flip-Trial s =
        let always = Good semver in
        next semver _ _ (Safe-refuse always s.safe_tree) (
          reading_to semver _ λ d. next semver _ _ (settle_trial-Sound semver d.trial d) (
            next semver _ _ check_eligible-kept (
              reading_to semver _ λ e. next semver _ _ (Safe-refuse always _) (
                next semver _ _ (Safe-elsewhere always) (
                  next semver _ _ (Safe-elsewhere always) (
                    Safe-bind always _ _ (Safe-refuse_unless always _) λ _. Safe-given always _ λ h.
                      next semver _ _ (Safe-refuse always s.flat) (
                        next semver _ _ (smoke-Sound semver m.version s.reported)
                          (published-Trial s (and_right s.regular_exec _ h)))))))))
