-- ===== src/Announced/Examples.antt =====
-- Downloads that a node announces, of which src/remote.rs keeps two.
use higgs.Base.Text.{starts_with, codes}
use higgs.Base.Text.{all}
use higgs.Downloads.{
  dest_path, split, push_char, is_repo, is_repo_segment, is_model_file, is_safe_segment,
  is_safe_char, ends_with, components, first_components, rest_components, component, join, escapes,
}
use higgs.Announced.Accepted.{accept_announced_downloads-Shown, Shown, DistinctKeys}
use higgs.Base.{
  All, any, retain, length, ◌∷◌, [], List, some, none, Option, false, refl, ◌≡◌, String, ◌≤◌, ℕ,
}
use higgs.Announced.{
  accept_announced_downloads, is_placed, normalized, consistent_total, take, dedup, same, folded,
  HelloDownload,
}

abbrev announced : String → String → ℕ → Option ℕ → HelloDownload
announced repo file downloaded total = record {
  repo = codes repo;
  file = codes file;
  downloaded = downloaded;
  total = total;
  cancellable = false;
}

abbrev raw : List HelloDownload
raw =
    announced "o/m" "a.gguf" 5 (some 3)
    ∷ announced "O/m" "A.gguf" 6 (some 9)
    ∷ announced "../m" "a.gguf" 1 none
    ∷ announced "o/m" "b.gguf" 5 (some 8)
    ∷ []

accept_announced_downloads-Shown_example :
    (length (accept_announced_downloads raw) ≤ 16)
    × DistinctKeys (accept_announced_downloads raw)
    × All Shown (accept_announced_downloads raw)
accept_announced_downloads-Shown_example = accept_announced_downloads-Shown raw

two_kept :
    accept_announced_downloads raw
    ≡ announced "o/m" "a.gguf" 5 none ∷ announced "o/m" "b.gguf" 5 (some 8) ∷ []
unfolding accept_announced_downloads retain is_placed dedup take normalized consistent_total folded
    same any dest_path split push_char is_repo is_repo_segment is_model_file is_safe_segment
    is_safe_char all ends_with starts_with components first_components rest_components component
    join escapes
two_kept = refl
