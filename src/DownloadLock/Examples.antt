-- ===== src/DownloadLock/Examples.antt =====
-- A lock got at the third try, and the keys it protects.
use higgs.Base.Text.{codes, to_ascii_lowercase}
use higgs.Base.{if◌then◌else◌, ltb, arith, ◌∷◌, [], List, false, true, ◌↔◌, refl, ◌≡◌, ℕ}
use higgs.DownloadLock.{
  is_key_stale, protects, acquire, lock_path, is_taken, tries, download_in_flight, DownloadLock,
  would_block, taken, TryLock, hashed, PathBuf, answered,
}
use higgs.DownloadLock.Key.{protects-acquire}

abbrev same_bytes : List ℕ → List ℕ
same_bytes bytes = bytes

-- A probe of another process has the lock during the first two tries.
abbrev probed : ℕ → TryLock
probed i = if ltb i 2 then would_block else taken

abbrev held_by_other : ℕ → TryLock
held_by_other i = would_block

abbrev root : PathBuf
root = codes "models" ∷ []

abbrev held : DownloadLock
held = record { path = lock_path same_bytes root (codes "A/b") (codes "M") }

protects-acquire_example : (protects same_bytes held root (codes "a/B") (codes "m") ≡ true) ↔ (
    (root ≡ root)
    × ((to_ascii_lowercase (codes "A/b") ≡ to_ascii_lowercase (codes "a/B"))
        × (to_ascii_lowercase (codes "M") ≡ to_ascii_lowercase (codes "m"))))
unfolding acquire tries answered hashed
protects-acquire_example =
    protects-acquire same_bytes true true probed root root (codes "A/b") (codes "M") (codes "a/B")
      (codes "m") held refl (omega arith, (omega arith, (omega arith, tt)))
      (omega arith, (omega arith, (omega arith, tt)))
      (omega arith, (omega arith, (omega arith, (omega arith, (omega arith, tt)))))
      (omega arith, (omega arith, (omega arith, (omega arith, (omega arith, tt))))) (λ e. e)

in_flight :
    acquire same_bytes true true held_by_other root (codes "A/b") (codes "M") ≡ download_in_flight
unfolding acquire tries answered
in_flight = refl

stale :
    (is_key_stale same_bytes (λ _. true) (λ _. taken) root (codes "a") (codes "m") ≡ true)
    × (is_key_stale same_bytes (λ _. false) (λ _. taken) root (codes "a") (codes "m") ≡ false)
unfolding is_key_stale is_taken
stale = (refl, refl)
