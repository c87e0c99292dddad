-- ===== src/Updates.antt =====
-- src/node/self_update.rs: the update of an installation by itself, with the trial of the new version.
-- Here are the files of the `bin` directory and the operations on them; Updates.Boot is the boot guard,
-- Updates.Eligibility the policy, and Updates.Apply the apply, the rollback and the pruning. A file
-- operation takes its outcome from a list of answers, so that it may fail, and the process may die at it; a
-- read takes what it sees from a list of sights.
-- The parsing of versions by the crate `semver` is a parameter.
use higgs.Base.Assoc.{get}
use higgs.Base.Text.{Text, codes, text_eq, is_alphanumeric, starts_with, all}
pub mod Eligibility
pub mod Boot
pub mod Apply
pub mod Rules
pub mod Runnable
pub mod Dirs
pub mod Staged
pub mod OnTrial
pub mod Applied
pub mod Pruned
pub mod Intact
pub mod Forward
pub mod Looping
mod Examples
use higgs.Base.{
  string_eq, nat_eq, ◌==◌, any, retain, take, if◌then◌else◌, leb, ltb, ◌++◌, ◌∷◌, [], List, some,
  none, Option, ◌||◌, ◌&&◌, not, false, true, Bool, ◌+◌, ◌-◌, ◌^◌, ℕ,
}
use Prim.Native.Nat.{Ordering}

-- What the update takes from the crate `semver`.
pub record Semver : Type 1 where
  pub Version : Type 0
  pub parse : Text → Option Version
  pub cmp_precedence : Version → Version → Ordering

-- TrialMarker
pub record TrialMarker : Type 0 where
  pub to : Text
  pub prev : Option Text

-- UpdateFailed
pub record UpdateFailed : Type 0 where
  pub from : Text
  pub to : Text
  pub reason : Text

-- A node of the name `v<ver>` in `bin`: whether it is a real directory, whether its `higgs` is a regular,
-- executable file, and its `.variant`.
pub record VersionDir : Type 0 where
  pub is_dir : Bool
  pub runnable : Bool
  pub variant : Option Text

-- The `bin` directory: the target of the link `current`, the version directories, `.update-trial`,
-- `.update-bootfails`, `.update-failed` and `.update-lastfail`.
pub record Disk : Type 0 where
  pub link : Option Text
  pub dirs : List (Text × VersionDir)
  pub trial : Option TrialMarker
  pub boot_fails : Option ℕ
  pub failed_targets : List Text
  pub last_fail : Option UpdateFailed

-- The outcome of one file operation: it is done, it fails and changes nothing, it fails after it has taken
-- effect (the flush of the directory in `write_atomic`), or the process dies.
pub data Answer : Type 0 where
  done failed failed_late crashed : Answer

-- What a read can see: one of these that fails is taken for a file that is not there.
pub record Sight : Type 0 where
  pub link : Bool
  pub trial : Bool
  pub boot_fails : Bool
  pub failed_targets : Bool

abbrev pub clear : Sight
clear = record { link = true; trial = true; boot_fails = true; failed_targets = true }

-- `Result::ok` after a read
unfoldable pub if_read : {A : Type 0} → Bool → Option A → Option A
if_read true o = o
if_read false o = none

unfoldable pub seen : Sight → Disk → Disk
unfolding if_read
seen s d = record d {
  link = if_read s.link d.link;
  trial = if_read s.trial d.trial;
  boot_fails = if_read s.boot_fails d.boot_fails;
  failed_targets = if s.failed_targets then d.failed_targets else [];
}

-- The operations of which no answer is given are done, and the reads of which no sight is given see all.
pub record World : Type 0 where
  pub disk : Disk
  pub answers : List Answer
  pub sights : List Sight

-- HG086, HG085, HG083 and HG087
pub data HiggsError : Type 0 where
  target_mismatch not_newer manifest_invalid apply_failed : HiggsError

pub data Outcome (A : Type 0) : Type 0 where
  ok : A → Outcome A
  err : HiggsError → Outcome A
  dead : Outcome A

abbrev pub M : Type 0 → Type 0
M A = World → Outcome A × World

abbrev pub continue : {A B : Type 0} → Outcome A → (A → M B) → M B
continue (ok a) f w = f a w
continue (err e) f w = (err e, w)
continue dead f w = (dead, w)

unfoldable pub pure : {A : Type 0} → A → M A
pure a w = (ok a, w)

unfoldable pub lift : {A : Type 0} → Outcome A → M A
lift r w = (r, w)

unfoldable pub look : Sight → M Disk
unfolding seen
look s w = (ok (seen s w.disk), w)

unfoldable pub read_with : List Sight → M Disk
unfolding seen
read_with [] w = (ok w.disk, w)
read_with (s ∷ rest) w = (ok (seen s w.disk), record w { sights = rest })

-- What the next read finds.
unfoldable pub get_disk : M Disk
unfolding read_with
get_disk w = read_with w.sights w

infixl 5 ◌>>=◌ ◌>>◌
unfoldable pub ◌>>=◌ : {A B : Type 0} → M A → (A → M B) → M B
unfolding pure lift get_disk look
◌>>=◌ m f w = let (r, w') = m w in continue r f w'

abbrev pub ◌>>◌ : {A B : Type 0} → M A → M B → M B
m >> k = m >>= λ _. k

-- One file operation with the effect `f`.
unfoldable pub answered : (Disk → Disk) → World → List Answer → Outcome (Unit {0}) × World
answered f w [] = (ok tt, record w { disk = f w.disk; answers = [] })
answered f w (done ∷ rest) = (ok tt, record w { disk = f w.disk; answers = rest })
answered f w (failed ∷ rest) = (err apply_failed, record w { answers = rest })
answered f w (failed_late ∷ rest) = (err apply_failed, record w { disk = f w.disk; answers = rest })
answered f w (crashed ∷ rest) = (dead, record w { answers = rest })

unfoldable pub attempt : (Disk → Disk) → M (Unit {0})
unfolding answered
attempt f w = answered f w w.answers

-- An operation on other files, or a flush.
unfoldable pub elsewhere : M (Unit {0})
unfolding attempt
elsewhere = attempt (λ d. d)

abbrev pub forgive : Outcome (Unit {0}) → Outcome (Unit {0})
forgive (ok _) = ok tt
forgive (err _) = ok tt
forgive dead = dead

-- `let _ = …`
unfoldable pub best_effort : M (Unit {0}) → M (Unit {0})
best_effort m w = let (r, w') = m w in (forgive r, w')

unfoldable pub version_name : Text → Text
version_name ver = b'v' ∷ ver

unfoldable pub strip_v : Text → Text
strip_v [] = []
strip_v (c ∷ cs) = if c == b'v' then cs else c ∷ cs

-- strip_prefix('v')
unfoldable pub strip_prefix_v : Text → Option Text
strip_prefix_v [] = none
strip_prefix_v (c ∷ cs) = if c == b'v' then some cs else none

unfoldable pub is_version_dir_name : Semver → Text → Bool
unfolding strip_prefix_v
is_version_dir_name semver name = elim (strip_prefix_v name) [
  | none ↦ false
  | some v ↦ elim (semver.parse v) [ none ↦ false | some _ ↦ true ]
]

unfoldable pub keep_v : Option Text → Option Text
keep_v none = none
keep_v (some name) = if starts_with (codes "v") name then some name else none

unfoldable pub current_target : Disk → Option Text
unfolding keep_v starts_with
current_target d = keep_v d.link

unfoldable pub is_managed_install : Disk → Bool
is_managed_install d = elim d.link [ none ↦ false | some _ ↦ true ]

unfoldable pub is_runnable : Option VersionDir → Bool
is_runnable none = false
is_runnable (some dir) = dir.is_dir && dir.runnable

unfoldable pub is_installed_version : Semver → Text → Disk → Bool
unfolding is_version_dir_name is_runnable get
is_installed_version semver vname d =
    is_version_dir_name semver vname && is_runnable (get vname d.dirs)

-- `Some(t.to.as_str()) == current_target(bin).as_deref()`
unfoldable pub names : Text → Option Text → Bool
names to none = false
names to (some c) = to == c

unfoldable pub is_live : TrialMarker → Disk → Bool
unfolding names current_target
is_live t d = names t.to (current_target d)

unfoldable pub is_failed_target : Text → Disk → Bool
unfolding any
is_failed_target vname d = any (λ v. v == vname) d.failed_targets

unfoldable pub record_failed_target : Text → M (Unit {0})
unfolding is_failed_target best_effort attempt
record_failed_target vname = do
  d ← get_disk
  if is_failed_target vname d
      then pure tt
      else best_effort (attempt (λ e. record e { failed_targets = d.failed_targets ++ vname ∷ [] }))

-- remote.rs, sanitize_version
unfoldable pub is_version_char : ℕ → Bool
is_version_char c = is_alphanumeric c || c == b'.' || c == b'+' || c == b'-' || c == b'_'

unfoldable pub sanitize_version : Text → Text
unfolding is_version_char retain take
sanitize_version raw = take 64 (retain is_version_char raw)

-- The reasons are literals that `sanitize_display` does not change.
unfoldable pub record_update_failure : Text → Text → Text → M (Unit {0})
unfolding sanitize_version best_effort attempt
record_update_failure from to reason = best_effort (
    attempt (λ d. record d {
      last_fail =
          some (record { from = sanitize_version from; to = sanitize_version to; reason = reason });
    }))

unfoldable pub clear_update_failure : M (Unit {0})
unfolding best_effort attempt elsewhere
clear_update_failure =
    best_effort (attempt (λ d. record d { last_fail = none })) >> best_effort elsewhere

-- What reading the marker gives, and the report with whether it is conclusive.
unfoldable pub report_of : Text → Option UpdateFailed → Option UpdateFailed
report_of running none = none
report_of running (some f) = if f.from == running then some f else none

-- `readable` is false where the read fails otherwise than for lack of the file.
unfoldable pub reportable_update_failure_for : Bool → Text → Disk → Option UpdateFailed × Bool
unfolding sanitize_version report_of
reportable_update_failure_for readable running_version d =
    if readable
    then (report_of (sanitize_version running_version) d.last_fail, true)
    else (none, false)

unfoldable pub remove_trial : M (Unit {0})
unfolding attempt
remove_trial = attempt (λ d. record d { trial = none })

unfoldable pub remove_boot_fails : M (Unit {0})
unfolding attempt
remove_boot_fails = attempt (λ d. record d { boot_fails = none })

-- A temporary link is made, then renamed over `current`.
unfoldable pub flip_current_to : Text → M (Unit {0})
unfolding elsewhere attempt best_effort
flip_current_to vname = do
  elsewhere
  attempt (λ d. record d { link = some vname })
  best_effort elsewhere
