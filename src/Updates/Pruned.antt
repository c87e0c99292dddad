-- ===== src/Updates/Pruned.antt =====
-- `prune` leaves what `current` names and what a trial would be rolled back to, where it can read them, and
-- `rollback` goes back to a version that can be run.
use mathlib.Core.Path.{subst}
use higgs.Base.Assoc.{remove, get_left}
use higgs.Base.Sort.{All-sort}
use higgs.Base.Text.{Text, text_eq, text_beq_iff, to_ascii_lowercase, starts_with, text_lt}
use higgs.Base.{
  Bool, true, false, ◌&&◌, ◌||◌, List, [], ◌∷◌, ◌≡◌, sym, ap, ◌∙◌, some, none, Option, arith, ◌==◌,
  Bool-cases, inl, inr, Option-cases, not, nat_eq, string_eq, All, retain, map, beq_refl,
}
use higgs.Updates.{
  names, Semver, TrialMarker, VersionDir, Disk, is_installed_version, is_version_dir_name,
  current_target, Sight, clear, seen, if_read, keep_v, ok, strip_prefix_v,
}
use higgs.Updates.Boot.{prev_of}
use higgs.Updates.Apply.{
  rollback, prune, target_of, rollback_target, poison, is_pruned, plan_of, prune_plan, remove_dirs,
  keeps_name,
}
use higgs.Updates.Rules.{
  Safe, Safe-pure, Safe-lift, Safe-bind, Safe-get, Safe-look, Safe-attempt, Safe-elsewhere,
  Safe-refuse,
}
use higgs.Updates.Runnable.{
  Good, Runs, Any, seen-Runs, Safe-flip, Safe-failed_target, Safe-remove_trial, Safe-boot_fails,
  ending, next, reading_to,
}

seen_clear : (s : Sight) (d : Disk) → s ≡ clear → seen s d ≡ d
unfolding seen if_read
seen_clear s d h = ap (λ x. seen x d) h

module _ (semver : Semver) where
  found_target :
      (t : Option TrialMarker) (d : Disk) (p : Text) → target_of semver t d ≡ ok p → Runs semver p d
  unfolding target_of
  found_target none d p e = cc e
  found_target (some t) d p e = elim (Option-cases t.prev) [
    | inl n ↦ ground (arith, e, n)
    | inr (q, s) ↦ ground (arith, e, s)
  ]

  rollback_target-Runs : Safe (Good semver) (Any semver) (rollback_target semver) (Runs semver)
  unfolding rollback_target
  rollback_target-Runs = Safe-get (Good semver) _ λ d s i p.
      next semver _ _ (Safe-refuse (Good semver) _) (
        Safe-lift (Good semver) _ (λ q e r same.
          subst (Runs semver q) same
            (seen-Runs semver q s d (found_target (seen s d).trial (seen s d) q r))))

  poison-Runs :
      (v : Text) (t : Option TrialMarker)
      → Safe (Good semver) (Runs semver v) (poison semver t) (λ _. Runs semver v)
  unfolding poison
  poison-Runs v none = Safe-pure (Good semver) tt (λ d p. p)
  poison-Runs v (some t) = Safe-failed_target semver v t.to

  pub rollback-Runs : Safe (Good semver) (Any semver) (rollback semver) (λ _. Any semver)
  unfolding rollback
  rollback-Runs = reading_to semver _ λ d. Safe-bind (Good semver) _ _ rollback_target-Runs λ prev.
      next semver _ _ (Safe-flip semver prev) (
        next semver _ _ (Safe-remove_trial semver prev) (
          next semver _ _ (Safe-boot_fails semver prev)
            (next semver _ _ (poison-Runs prev d.trial) (ending semver prev))))

  -- Neither `current` nor the marker names it.
  record Unnamed (name : Text) (d : Disk) : Type 0 where
    not_current : (c : Text) → d.link ≡ some c → name == c ≡ false
    not_prev : (t : TrialMarker) (p : Text) → d.trial ≡ some t → t.prev ≡ some p → name == p ≡ false

  AllUnnamed : List Text → Disk → Type 0
  AllUnnamed names d = All (λ name. Unnamed name d) names

  without : Text → Disk → Disk
  without name d = record d { dirs = remove name d.dirs }

  still-Runs :
      (name v : Text) (d : Disk)
      → name == v ≡ false
      → Runs semver v d
      → Runs semver v (without name d)
  unfolding without is_installed_version
  still-Runs name v d n r = rw (get_left name v d.dirs n) r

  without-Good :
      (name : Text) (d : Disk) → Unnamed name d → Good semver d → Good semver (without name d)
  unfolding without
  without-Good name d u g = record {
    current_runs = λ c e. still-Runs name c d (u.not_current c e) (g.current_runs c e);
    prev_runs = λ t p e k. still-Runs name p d (u.not_prev t p e k) (g.prev_runs t p e k);
  }

  without-AllUnnamed :
      (name : Text) (d : Disk) (names : List Text)
      → AllUnnamed names d
      → AllUnnamed names (without name d)
  unfolding AllUnnamed without
  without-AllUnnamed name d [] h = tt
  without-AllUnnamed name d (n ∷ names) h = (
    record { not_current = h.0.not_current; not_prev = h.0.not_prev },
    without-AllUnnamed name d names h.1,
  )

  remove_dirs-Good :
      (names : List Text)
      → Safe (Good semver) (AllUnnamed names) (remove_dirs semver names) (λ _. Any semver)
  unfolding remove_dirs without AllUnnamed
  remove_dirs-Good [] = ending semver tt
  remove_dirs-Good (name ∷ names) =
      Safe-bind (Good semver) _ _
        (Safe-attempt (Good semver) (without name)
          (λ d i u. (without-Good name d u.0 i, without-AllUnnamed name d names u.1)))
        (λ _. remove_dirs-Good names)

  -- A version directory's name starts with the `v` that `current_target` asks for.
  named_v : (c : Text) → is_version_dir_name semver c ≡ true → keep_v (some c) ≡ some c
  unfolding is_version_dir_name strip_prefix_v keep_v starts_with
  named_v [] h = cc h
  named_v (x ∷ xs) h = ground (arith, h)

  differs :
      (name c : Text) (o : Option Text)
      → o ≡ some c
      → keeps_name semver name o ≡ false
      → name == c ≡ false
  unfolding keeps_name
  differs name c o e k = elim (Bool-cases (name == c)) [
    | inl t ↦
        let same = (text_beq_iff name c).0 t in
        let clash : true ≡ false =
          sym (beq_refl (to_ascii_lowercase c))
          ∙ (ap (λ x. to_ascii_lowercase c == to_ascii_lowercase x) (sym same)
              ∙ (ap (keeps_name semver name) (sym e) ∙ k)) in
        cc clash
    | inr f ↦ f
  ]

  both_false : (v a b c : Bool) → v && (not (a || b) && c) ≡ true → (a ≡ false) × (b ≡ false)
  both_false v a b c h = ground (arith, h)

  is_named : (v : Text) (d : Disk) → Runs semver v d → is_version_dir_name semver v ≡ true
  unfolding is_installed_version
  is_named v d h = ground (arith, h)

  pruned-Unnamed :
      (d : Disk) (e : Text × VersionDir)
      → Good semver d
      → is_pruned semver d e ≡ true
      → Unnamed e.0 d
  unfolding is_pruned current_target
  pruned-Unnamed d (name, dir) g h =
      let free =
        both_false (is_version_dir_name semver name) (keeps_name semver name (keep_v d.link))
          (keeps_name semver name (prev_of d.trial)) dir.is_dir h in
      record {
        not_current = λ c e.
            differs name c (keep_v d.link)
              (ap keep_v e ∙ named_v c (is_named c d (g.current_runs c e))) free.0;
        not_prev = λ t p e k. differs name p (prev_of d.trial) (ap prev_of e ∙ k) free.1;
      }

  kept-AllUnnamed :
      (d : Disk) (es : List (Text × VersionDir))
      → Good semver d
      → AllUnnamed (map (λ (e : Text × VersionDir). e.0) (retain (is_pruned semver d) es)) d
  unfolding AllUnnamed retain
  kept-AllUnnamed d [] g = tt
  kept-AllUnnamed d (e ∷ es) g = elim (Bool-cases (is_pruned semver d e)) [
    | inl t ↦ rw t (pruned-Unnamed d e g t, kept-AllUnnamed d es g)
    | inr f ↦ rw f (kept-AllUnnamed d es g)
  ]

  plan-AllUnnamed : (d : Disk) → Good semver d → AllUnnamed (plan_of semver d) d
  unfolding plan_of AllUnnamed
  plan-AllUnnamed d g = All-sort text_lt (λ name. Unnamed name d) _ (kept-AllUnnamed d d.dirs g)

  planned :
      (s : Sight) → s ≡ clear → Safe (Good semver) (Any semver) (prune_plan semver s) AllUnnamed
  unfolding prune_plan
  planned s h = reading_to semver _ λ d. next semver _ _ (Safe-refuse (Good semver) _) (
      next semver _ _ (Safe-elsewhere (Good semver)) (
        Safe-look (Good semver) s _ λ d i p.
          Safe-pure (Good semver) (plan_of semver (seen s d)) (λ e same.
            subst (AllUnnamed (plan_of semver (seen s d))) same (
              subst (λ x. AllUnnamed (plan_of semver x) d) (sym (seen_clear s d h))
                (plan-AllUnnamed d i)))))

  pub prune-Unnamed :
      (s : Sight) → s ≡ clear → Safe (Good semver) (Any semver) (prune semver s) (λ _. Any semver)
  unfolding prune
  prune-Unnamed s h =
      Safe-bind (Good semver) _ _ (planned s h)
        λ plan. Safe-bind (Good semver) _ _ (remove_dirs-Good plan) λ _. ending semver plan
