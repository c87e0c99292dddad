-- ===== src/Updates/Eligibility.antt =====
-- `evaluate_eligibility` and `installed_identity` of src/node/self_update.rs.
use higgs.Base.Text.{Text, text_eq, trim, trim_start, is_whitespace, to_ascii_lowercase}
use higgs.Base.Assoc.{get}
use higgs.Base.{
  if◌then◌else◌, ◌==◌, [], ◌∷◌, some, none, Option, ◌&&◌, not, false, true, Bool, string_eq, nat_eq,
}
use higgs.Updates.{
  Semver, Disk, Outcome, ok, err, target_mismatch, not_newer, manifest_invalid, apply_failed,
  current_target, strip_prefix_v, version_name,
}
use Prim.Native.Nat.{Ordering}

pub record BuildIdentity : Type 0 where
  pub version : Text
  pub target : Text
  pub variant : Text

-- UpdateManifest, without its artifact
pub record UpdateManifest : Type 0 where
  pub version : Text
  pub target : Text
  pub variant : Text

unfoldable pub version_or : Text → Option Text → Text
version_or own none = own
version_or own (some v) = v

unfoldable pub non_empty_or : Text → Text → Text
non_empty_or own [] = own
non_empty_or own (c ∷ cs) = c ∷ cs

unfoldable pub variant_or : Text → Option Text → Text
unfolding trim trim_start is_whitespace non_empty_or
variant_or own none = own
variant_or own (some s) = non_empty_or own (trim s)

unfoldable pub version_of : Option Text → Option Text
unfolding strip_prefix_v
version_of none = none
version_of (some name) = strip_prefix_v name

-- The content of `.variant` in the directory of a version.
unfoldable pub read_variant : Option Text → Disk → Option Text
unfolding get version_name
read_variant none d = none
read_variant (some v) d = elim (get (version_name v) d.dirs) [
  | none ↦ none
  | some dir ↦ dir.variant
]

-- `own` is BuildIdentity::current.
unfoldable pub installed_identity : BuildIdentity → Disk → BuildIdentity
unfolding current_target version_of version_or variant_or read_variant
installed_identity own d = record {
  version = version_or own.version (version_of (current_target d));
  target = own.target;
  variant = variant_or own.variant (read_variant (version_of (current_target d)) d);
}

unfoldable pub refuses : Ordering → Bool → Bool
refuses Ordering.gt allow_downgrade = false
refuses Ordering.eq allow_downgrade = true
refuses Ordering.lt allow_downgrade = not allow_downgrade

-- str::eq_ignore_ascii_case
unfoldable pub eq_ignore_ascii_case : Text → Text → Bool
eq_ignore_ascii_case a b = to_ascii_lowercase a == to_ascii_lowercase b

unfoldable pub compare_versions :
    (semver : Semver) → Option semver.Version → Option semver.Version → Bool → Outcome (Unit {0})
unfolding refuses
compare_versions semver none from allow_downgrade = err manifest_invalid
compare_versions semver (some to) none allow_downgrade = err apply_failed
compare_versions semver (some to) (some from) allow_downgrade =
    if refuses (semver.cmp_precedence to from) allow_downgrade then err not_newer else ok tt

unfoldable pub evaluate_eligibility :
    Semver → BuildIdentity → UpdateManifest → Bool → Outcome (Unit {0})
unfolding compare_versions eq_ignore_ascii_case
evaluate_eligibility semver running m allow_downgrade =
    if not (m.target == running.target)
    then err target_mismatch
    else if not (m.variant == running.variant)
    then err target_mismatch
    else if not (m.version == running.version) && eq_ignore_ascii_case m.version running.version
    then err not_newer
    else compare_versions semver (semver.parse m.version) (semver.parse running.version)
        allow_downgrade
