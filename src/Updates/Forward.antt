-- ===== src/Updates/Forward.antt =====
-- An update that is not allowed to downgrade is above the version that its last look found.
use Prim.Native.Nat.{Ordering}
use higgs.Base.Text.{Text}
use higgs.Base.{some, none, Option, ◌≡◌}
use higgs.Updates.{clear, Semver}
use higgs.Updates.Eligibility.{BuildIdentity, UpdateManifest, version_or, version_of}
use higgs.Updates.Apply.{Staging}

module _ (semver : Semver) (own : BuildIdentity) (m : UpdateManifest) where
  -- The manifest's version is above `prev`, or above that of this build where `prev` is none.
  pub record Newer (prev : Option Text) : Type 0 where
    pub to : semver.Version
    pub from : semver.Version
    pub parsed : semver.parse m.version ≡ some to
    pub replaced : semver.parse (version_or own.version (version_of prev)) ≡ some from
    pub above : semver.cmp_precedence to from ≡ Ordering.gt

  -- The manifest's version is above the one that the last look at `current` found, which is `prev` where
  -- `install.sh` did not flip `current` before it was read again and both reads succeeded.
  pub record Above (s : Staging) (prev : Option Text) : Type 0 where
    pub at : Option Text
    pub newer : Newer at
    pub same : s.before_read ≡ none → s.checking ≡ clear → s.marking ≡ clear → prev ≡ at
