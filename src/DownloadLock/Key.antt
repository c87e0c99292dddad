-- ===== src/DownloadLock/Key.antt =====
-- Which downloads share a lock.
use mathlib.Core.List.{head-eq_of_cons-eq, tail-eq_of_cons-eq, append_cancel_right}
use higgs.Base.Text.{codes, Text, text_beq_iff, to_ascii_lowercase, hex_digit, lower}
use higgs.Base.{
  if◌then◌else◌, false, ◌&&◌, Bool, ◌+◌, suc, zero, ◌∙◌, ap, sym, ◌%◌, ◌/◌, All, arith, ◌++◌, ◌∷◌,
  [], List, true, ◌↔◌, ◌≢◌, refl, ◌≡◌, ◌<◌, ℕ,
}
use higgs.DownloadLock.{
  hub_file_write, protects, acquire, lock_path, tries, guard, Acquired, DownloadLock, failed,
  would_block, taken, TryLock, locks_dir, answered, hashed, hex, same_path, PathBuf,
}

same_cons {ℓ} : {A : Type ℓ} (a b : A) (xs ys : List A) → a ≡ b → xs ≡ ys → a ∷ xs ≡ b ∷ ys
same_cons a b xs ys e f = ap (λ x. x ∷ xs) e ∙ ap (λ t. b ∷ t) f

same_path_iff : (p q : PathBuf) → (same_path p q ≡ true) ↔ (p ≡ q)
unfolding same_path
same_path_iff [] [] = (λ _. refl, λ _. refl)
same_path_iff (a ∷ p) (b ∷ q) = (
  λ e.
      same_cons a b p q ((text_beq_iff a b).0 (ground (arith, e)))
        ((same_path_iff p q).0 (ground (arith, e))),
  λ e.
      rw ((text_beq_iff a b).1 (head-eq_of_cons-eq e))
        ((same_path_iff p q).1 (tail-eq_of_cons-eq e)),
)
same_path_iff [] (b ∷ q) = (λ e. cc e, λ e. cc e)
same_path_iff (a ∷ p) [] = (λ e. cc e, λ e. cc e)

hex_digit-injective : (m n : ℕ) → m < 16 → n < 16 → hex_digit m ≡ hex_digit n → m ≡ n
hex_digit-injective m n a b e = ground (arith, a, b, e)

hex-injective :
    (xs ys : List ℕ) → All (λ b. b < 256) xs → All (λ b. b < 256) ys → hex xs ≡ hex ys → xs ≡ ys
unfolding hex
hex-injective [] [] h k e = refl
hex-injective [] (y ∷ ys) h k e = cc e
hex-injective (x ∷ xs) [] h k e = cc e
hex-injective (x ∷ xs) (y ∷ ys) h k e =
    let high : x / 16 ≡ y / 16 =
      hex_digit-injective (x / 16) (y / 16) (omega (arith, h.0)) (omega (arith, k.0))
        (head-eq_of_cons-eq e) in
    let low : x % 16 ≡ y % 16 =
      hex_digit-injective (x % 16) (y % 16) (omega arith) (omega arith)
        (head-eq_of_cons-eq (tail-eq_of_cons-eq e)) in
    same_cons x y xs ys (omega (arith, high, low))
      (hex-injective xs ys h.1 k.1 (tail-eq_of_cons-eq (tail-eq_of_cons-eq e)))

no_zero-lower : (c : ℕ) → c ≢ 0 → lower c ≢ 0
no_zero-lower c n e = ground (arith, e)

-- The zero byte ends the repository.
hashed-injective :
    (r r' f f' : Text)
    → All (λ c. c ≢ 0) r
    → All (λ c. c ≢ 0) r'
    → hashed r f ≡ hashed r' f'
    → (to_ascii_lowercase r ≡ to_ascii_lowercase r')
      × (to_ascii_lowercase f ≡ to_ascii_lowercase f')
unfolding hashed
hashed-injective [] [] f f' h k e = (refl, tail-eq_of_cons-eq e)
hashed-injective [] (y ∷ r') f f' h k e = absurd (no_zero-lower y k.0 (sym (head-eq_of_cons-eq e)))
hashed-injective (x ∷ r) [] f f' h k e = absurd (no_zero-lower x h.0 (head-eq_of_cons-eq e))
hashed-injective (x ∷ r) (y ∷ r') f f' h k e =
    let rest = hashed-injective r r' f f' h.1 k.1 (tail-eq_of_cons-eq e) in
    (same_cons _ _ _ _ (head-eq_of_cons-eq e) rest.0, rest.1)

answered-guard :
    (lock l : DownloadLock) (t : TryLock) (next : Acquired)
    → answered lock t next ≡ guard l
    → (next ≡ guard l → lock ≡ l)
    → lock ≡ l
unfolding answered
answered-guard lock l taken next e h = ground (arith, e)
answered-guard lock l would_block next e h = h e
answered-guard lock l failed next e h = cc e

tries-guard :
    (lock l : DownloadLock) (kernel : ℕ → TryLock) (left i : ℕ)
    → tries lock kernel left i ≡ guard l
    → lock ≡ l
unfolding tries
tries-guard lock l kernel zero i e = cc e
tries-guard lock l kernel (suc left) i e =
    answered-guard lock l (kernel i) (tries lock kernel left (i + 1)) e
      (tries-guard lock l kernel left (i + 1))

acquired-guard :
    (b : Bool) (lock l : DownloadLock) (kernel : ℕ → TryLock)
    → (if b then tries lock kernel 5 0 else hub_file_write) ≡ guard l
    → lock ≡ l
acquired-guard true lock l kernel e = tries-guard lock l kernel 5 0 e
acquired-guard false lock l kernel e = cc e

hashed-same :
    (repo repo' file file' : Text)
    → to_ascii_lowercase repo ≡ to_ascii_lowercase repo'
    → to_ascii_lowercase file ≡ to_ascii_lowercase file'
    → hashed repo file ≡ hashed repo' file'
unfolding hashed
hashed-same repo repo' file file' r f =
    ap (λ x. x ++ 0 ∷ to_ascii_lowercase file) r ∙ ap (λ x. to_ascii_lowercase repo' ++ 0 ∷ x) f

module _ (sha256 : List ℕ → List ℕ) where
  acquire-path :
      (made opened : Bool) (kernel : ℕ → TryLock) (models_root : PathBuf) (repo file : Text)
      (lock : DownloadLock)
      → acquire sha256 made opened kernel models_root repo file ≡ guard lock
      → lock.path ≡ lock_path sha256 models_root repo file
  unfolding acquire
  acquire-path made opened kernel models_root repo file lock e = sym (
      ap (λ l. l.path)
        (acquired-guard (made && opened) (record { path = lock_path sha256 models_root repo file })
          lock kernel e))

  -- A lock that was acquired for one download protects another exactly when the models roots are the same
  -- and the repositories and files differ at most in the case of letters, where SHA-256 gives bytes and
  -- does not collide on the two keys, and no repository has a zero byte.
  pub protects-acquire :
      (made opened : Bool) (kernel : ℕ → TryLock) (models_root models_root' : PathBuf)
      (repo file repo' file' : Text) (lock : DownloadLock)
      → acquire sha256 made opened kernel models_root repo file ≡ guard lock
      → All (λ c. c ≢ 0) repo
      → All (λ c. c ≢ 0) repo'
      → All (λ b. b < 256) (sha256 (hashed repo file))
      → All (λ b. b < 256) (sha256 (hashed repo' file'))
      → (sha256 (hashed repo file) ≡ sha256 (hashed repo' file')
          → hashed repo file ≡ hashed repo' file')
      → (protects sha256 lock models_root' repo' file' ≡ true) ↔ (
          (models_root ≡ models_root')
          × ((to_ascii_lowercase repo ≡ to_ascii_lowercase repo')
              × (to_ascii_lowercase file ≡ to_ascii_lowercase file')))
  unfolding protects lock_path locks_dir
  protects-acquire made opened kernel models_root models_root' repo file repo' file' lock e z z' b
        b' c =
      let path = acquire-path made opened kernel models_root repo file lock e in
      let there = lock_path sha256 models_root' repo' file' in
      (
        λ h.
            let same = sym path ∙ (same_path_iff lock.path there).0 h in
            let bytes =
              hex-injective (sha256 (hashed repo file)) (sha256 (hashed repo' file')) b b'
                (append_cancel_right _ _ (codes ".lock") (head-eq_of_cons-eq same)) in
            (
              tail-eq_of_cons-eq (tail-eq_of_cons-eq same),
              hashed-injective repo repo' file file' z z' (c bytes),
            ),
        λ h.
            let key =
              ap (λ x. hex (sha256 x) ++ codes ".lock")
                (hashed-same repo repo' file file' h.1.0 h.1.1) in
            (same_path_iff lock.path there).1
              (path ∙ same_cons _ _ _ _ key (ap (λ x. codes ".download-locks" ∷ x) h.0)),
      )
