-- ===== src/Updates/Examples.antt =====
-- An installation that updates from `v1` to `v2`, with a stand-in for `semver` whose versions are digits.
use Prim.Native.Nat.{compare}
use higgs.Base.Text.{Text, codes, text_eq}
use higgs.Base.{
  map, List, [], ◌∷◌, some, none, true, false, ◌≡◌, refl, ℕ, some-injective, string_eq, nat_eq,
}
use higgs.Updates.{
  err, apply_failed, Semver, Disk, VersionDir, Answer, Sight, clear, done, failed, crashed,
  is_installed_version, ◌>>=◌,
}
use higgs.Updates.Eligibility.{BuildIdentity, UpdateManifest}
use higgs.Updates.Boot.{held, lock_failed}
use higgs.Base.Assoc.{remove}
use higgs.Updates.Apply.{refuse_unless, by_others, Staging, stage_and_flip}
use higgs.Updates.Runnable.{Good}
use higgs.Updates.Intact.{
  apply_all-Good, apply_all, apply, Op, boot, attempted, update, back, pruned,
}

abbrev digits : Semver
digits = record {
  Version = ℕ;
  parse = λ t. elim t [ [] ↦ none | c ∷ cs ↦ some c ];
  cmp_precedence = compare;
}

abbrev build : BuildIdentity
build = record { version = codes "1"; target = codes "arm"; variant = codes "cpu" }

abbrev dir : VersionDir
dir = record { is_dir = true; runnable = true; variant = some (codes "cpu") }

abbrev installed : Disk
installed = record {
  link = some (codes "v1");
  dirs = (codes "v1", dir) ∷ (codes "v0", dir) ∷ [];
  trial = none;
  boot_fails = none;
  failed_targets = [];
  last_fail = none;
}

abbrev two : UpdateManifest
two = record { version = codes "2"; target = codes "arm"; variant = codes "cpu" }

abbrev archive : Staging
archive = record {
  safe_tree = true;
  files = codes "README" ∷ codes "higgs" ∷ [];
  regular_exec = true;
  flat = true;
  reported = some (codes "higgs" ∷ codes "2" ∷ []);
  no_acl = true;
  before_look = none;
  before_read = none;
  before_marker = none;
  before_flip = none;
  checking = clear;
  marking = clear;
}

installed-Good : Good digits installed
unfolding is_installed_version
installed-Good = record {
  current_runs = λ c e. rw (← some-injective e) refl;
  prev_runs = λ t p e k. cc e;
}

-- Reads of which all fail.
abbrev blind : Sight
blind = record { link = false; trial = false; boot_fails = false; failed_targets = false }

abbrev life : List (Op × List Answer × List Sight)
life =
    (update two archive false, done ∷ done ∷ done ∷ done ∷ done ∷ done ∷ failed ∷ [], [])
    ∷ (update two archive false, [], [])
    ∷ (attempted held (codes "2"), [], [])
    ∷ (boot lock_failed (codes "2"), crashed ∷ [], [])
    ∷ (pruned clear, [], [])
    ∷ (back, [], blind ∷ [])
    ∷ []

apply_all-Good_example : Good digits (apply_all digits build life installed)
apply_all-Good_example =
    apply_all-Good digits build life installed (tt, (tt, (tt, (tt, (refl, (tt, tt))))))
      installed-Good

updated :
    (apply_all digits build
      ((update two archive false, [], []) ∷ (pruned clear, [], []) ∷ [])
      installed).trial
    ≡ some (record { to = codes "v2"; prev = some (codes "v1") })
unfolding apply_all apply ◌>>=◌ refuse_unless by_others remove
updated = refl

-- A version whose trial is pending is not replaced, and a live trial is not pruned away.
stacked :
    (stage_and_flip digits build two archive true (record {
      disk = apply_all digits build ((update two archive false, [], []) ∷ []) installed;
      answers = [];
      sights = [];
    })).0
    ≡ err apply_failed
unfolding apply_all apply ◌>>=◌ refuse_unless by_others remove
stacked = refl

kept_dirs :
    map
      (λ (e : Text × VersionDir). e.0)
      (apply_all digits build
        ((update two archive false, [], []) ∷ (pruned clear, [], []) ∷ [])
        installed).dirs
    ≡ codes "v2" ∷ codes "v1" ∷ []
unfolding apply_all apply ◌>>=◌ refuse_unless by_others remove
kept_dirs = refl

-- A pruning that cannot read the marker takes the version that the trial would be rolled back to.
pruned_unread :
    map
      (λ (e : Text × VersionDir). e.0)
      (apply_all digits build
        ((update two archive false, [], [])
          ∷ (pruned (record clear { trial = false }), [], [])
          ∷ [])
        installed).dirs
    ≡ codes "v2" ∷ []
unfolding apply_all apply ◌>>=◌ refuse_unless by_others remove
pruned_unread = refl
