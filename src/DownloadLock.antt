-- ===== src/DownloadLock.antt =====
-- src/catalog/download_lock.rs: the machine-wide lock of a download. A path is the list of its components,
-- the last first; a repository and a file are lists of bytes; SHA-256 is the parameter `sha256`. What the
-- file system and the kernel answer to each call is an argument.
use higgs.Base.Text.{Text, codes, to_ascii_lowercase, hex_digit, text_beq}
pub mod Key
mod Examples
use higgs.Base.{
  if◌then◌else◌, ◌++◌, ◌∷◌, [], List, ◌&&◌, false, true, Bool, ◌%◌, ◌/◌, ◌+◌, suc, zero, ℕ,
}

abbrev pub PathBuf : Type 0
PathBuf = List Text

-- Path::join with one component
abbrev pub join : PathBuf → Text → PathBuf
join path component = component ∷ path

-- The components of two paths are the same.
unfoldable pub same_path : PathBuf → PathBuf → Bool
same_path [] [] = true
same_path (a ∷ p) (b ∷ q) = text_beq a b && same_path p q
same_path _ _ = false

unfoldable pub locks_dir : PathBuf → PathBuf
locks_dir models_root = join models_root (codes ".download-locks")

-- `format!("{b:02x}")` of each byte
unfoldable pub hex : List ℕ → Text
hex [] = []
hex (b ∷ bytes) = hex_digit (b / 16) ∷ hex_digit (b % 16) ∷ hex bytes

-- What is hashed: the lower-case repository, a zero byte, the lower-case file.
unfoldable pub hashed : Text → Text → List ℕ
hashed repo file = to_ascii_lowercase repo ++ 0 ∷ to_ascii_lowercase file

-- The answers of try_lock_exclusive: taken, held by another, or an error.
pub data TryLock : Type 0 where
  taken would_block failed : TryLock

-- DownloadLock, without its open file
pub record DownloadLock : Type 0 where
  pub path : PathBuf

-- Result<DownloadLock, HiggsError>: HG034, HubFileWrite, is a file operation that failed, and HG090,
-- DownloadInFlight, a lock that another process holds.
pub data Acquired : Type 0 where
  guard : DownloadLock → Acquired
  hub_file_write download_in_flight : Acquired

unfoldable pub answered : DownloadLock → TryLock → Acquired → Acquired
answered lock taken next = guard lock
answered lock would_block next = next
answered lock failed next = hub_file_write

-- The loop of `acquire` with `left` tries left; `kernel` gives the answer of each try by its number.
unfoldable pub tries : DownloadLock → (kernel : ℕ → TryLock) → (left i : ℕ) → Acquired
unfolding answered
tries lock kernel zero i = download_in_flight
tries lock kernel (suc left) i =
    let next = tries lock kernel left (i + 1) in answered lock (kernel i) next

unfoldable pub is_taken : TryLock → Bool
is_taken taken = true
is_taken would_block = false
is_taken failed = false

module _ (sha256 : List ℕ → List ℕ) where
  unfoldable pub lock_path : PathBuf → Text → Text → PathBuf
  unfolding locks_dir hex hashed
  lock_path models_root repo file =
      join (locks_dir models_root) (hex (sha256 (hashed repo file)) ++ codes ".lock")

  -- `made` and `opened` are whether the directory and the file could be had.
  unfoldable pub acquire :
      (made opened : Bool) → (kernel : ℕ → TryLock) → PathBuf → Text → Text → Acquired
  unfolding lock_path tries
  acquire made opened kernel models_root repo file =
      if made && opened
      then tries (record { path = lock_path models_root repo file }) kernel 5 0
      else hub_file_write

  -- DownloadLock::protects
  unfoldable pub protects : DownloadLock → PathBuf → Text → Text → Bool
  unfolding same_path lock_path
  protects lock models_root repo file = same_path lock.path (lock_path models_root repo file)

  -- `exists` is `is_file` of a path.
  unfoldable pub lock_file_exists : (exists : PathBuf → Bool) → PathBuf → Text → Text → Bool
  unfolding lock_path
  lock_file_exists exists models_root repo file = exists (lock_path models_root repo file)

  -- `opens` is whether the file at a path can be opened without being created, and `kernel` the answer of
  -- the one try on it; the probe's lock is released before it returns.
  unfoldable pub is_key_stale :
      (opens : PathBuf → Bool) → (kernel : PathBuf → TryLock) → PathBuf → Text → Text → Bool
  unfolding lock_path is_taken
  is_key_stale opens kernel models_root repo file =
      let path = lock_path models_root repo file in opens path && is_taken (kernel path)
