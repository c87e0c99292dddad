-- ===== src/Announced.antt =====
-- `accept_announced_downloads` of src/remote.rs: what a hub keeps of the downloads that a node
-- announces to it, and HelloDownload.
use higgs.Base.Text.{Text, codes, text_eq, to_ascii_lowercase}
use higgs.Downloads.{dest_path}
pub mod Accepted
mod Examples
use higgs.Base.{
  string_eq, nat_eq, ◌==◌, any, retain, is_some, if◌then◌else◌, leb, ltb, map, ◌∷◌, [], List, some,
  none, Option, ◌&&◌, Bool, suc, zero, ℕ,
}

pub record HelloDownload : Type 0 where
  pub repo : Text
  pub file : Text
  pub downloaded : ℕ
  pub total : Option ℕ
  pub cancellable : Bool

-- The key of an entry: its names with the case of ASCII letters folded.
abbrev pub Key : Type 0
Key = Text × Text

unfoldable pub folded : HelloDownload → Key
folded d = (to_ascii_lowercase d.repo, to_ascii_lowercase d.file)

unfoldable pub same : Key → Key → Bool
same a b = a.0 == b.0 && a.1 == b.1

-- `filter(|d| seen.insert(..))`, with the keys that were seen.
unfoldable pub dedup : List Key → List HelloDownload → List HelloDownload
dedup seen [] = []
dedup seen (d ∷ ds) =
    let kept = d ∷ dedup (folded d ∷ seen) ds in
    let skipped = dedup seen ds in if any (λ k. same k (folded d)) seen then skipped else kept

-- Iterator::take
unfoldable pub take {ℓ} : {A : Type ℓ} → ℕ → List A → List A
take zero xs = []
take (suc n) [] = []
take (suc n) (x ∷ xs) = x ∷ take n xs

unfoldable pub consistent_total : ℕ → Option ℕ → Option ℕ
consistent_total downloaded none = none
consistent_total downloaded (some t) = if ltb 0 t && leb downloaded t then some t else none

-- The counters, with an impossible total dropped.
unfoldable pub normalized : HelloDownload → HelloDownload
unfolding consistent_total
normalized d = record d { total = consistent_total d.downloaded d.total }

unfoldable pub is_placed : HelloDownload → Bool
is_placed d = is_some (dest_path d.repo d.file)

-- accept_announced_downloads
unfoldable pub accept_announced_downloads : List HelloDownload → List HelloDownload
accept_announced_downloads raw = map normalized (take 16 (dedup [] (retain is_placed raw)))
