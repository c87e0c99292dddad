-- ===== src/Downloads/Examples.antt =====
-- Places of downloads of src/download.rs.
use higgs.Base.Text.{starts_with, all, Text, codes}
use higgs.Downloads.Confined.{dest_path-accepts, dest_path-confined}
use higgs.Base.{◌++◌, ◌∷◌, [], List, some, none, true, refl, ◌≡◌}
use higgs.Downloads.{
  dest_path, normal, Component, is_model_file, is_repo, is_repo_segment, is_safe_segment,
  is_safe_char, ends_with, split, push_char,
}

abbrev place : List Component
place = normal (codes "org") ∷ normal (codes "m-1") ∷ normal (codes "q4.GGUF") ∷ []

placed : dest_path (codes "org/m-1") (codes "q4.GGUF") ≡ some place
unfolding is_repo_segment is_model_file is_safe_segment is_safe_char all ends_with starts_with
placed = dest_path-accepts (codes "org") (codes "m-1") (codes "q4.GGUF") refl refl refl

dest_path-confined_example :
    (org : Text) × (model : Text) × (codes "org/m-1" ≡ org ++ 47 ∷ model)
    × (is_repo_segment org ≡ true)
    × (is_repo_segment model ≡ true)
    × (is_model_file (codes "q4.GGUF") ≡ true)
    × (place ≡ normal org ∷ normal model ∷ normal (codes "q4.GGUF") ∷ [])
dest_path-confined_example = dest_path-confined (codes "org/m-1") (codes "q4.GGUF") place placed

no_parent : dest_path (codes "../m-1") (codes "q4.gguf") ≡ none
unfolding dest_path split push_char is_repo is_repo_segment is_safe_segment is_safe_char all
no_parent = refl
