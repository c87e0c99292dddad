-- ===== src/Downloads.antt =====
-- `dest_path` and `is_safe_segment` of src/download.rs: where a download lands under the models root.
-- A name is a text; the lengths that the code compares are those of texts that are ASCII by then.
-- `std::path` is modelled as far as the code uses it: on Unix, with `/` as its one separator.
use higgs.Base.Text.{starts_with, all, Text, codes, text_eq, is_alphanumeric, to_ascii_lowercase}
use mathlib.Core.List.{reverse}
pub mod Confined
mod Examples
use higgs.Base.{
  string_eq, nat_eq, ◌==◌, any, length, if◌then◌else◌, leb, ◌++◌, ◌∷◌, [], List, some, none, Option,
  ◌||◌, ◌&&◌, not, false, true, Bool, ◌-◌, ◌+◌, ℕ,
}

-- str::split('/')
unfoldable pub push_char : ℕ → List Text → List Text
push_char c [] = (c ∷ []) ∷ []
push_char c (s ∷ ss) = (c ∷ s) ∷ ss

unfoldable pub split : Text → List Text
unfolding push_char
split [] = [] ∷ []
split (c ∷ cs) = let rest = split cs in if c == 47 then [] ∷ rest else push_char c rest

-- str::ends_with
unfoldable pub ends_with : Text → Text → Bool
unfolding starts_with
ends_with suffix s = starts_with (reverse suffix) (reverse s)

unfoldable pub is_safe_char : ℕ → Bool
is_safe_char c = is_alphanumeric c || c == 46 || c == 95 || c == 45

-- is_safe_segment
unfoldable pub is_safe_segment : Text → Bool
unfolding is_safe_char
is_safe_segment s =
    not (s == []) && not (s == codes ".") && not (s == codes "..") && all is_safe_char s

-- NAME_MAX and TEMP_SUFFIX_MAX
abbrev pub name_max : ℕ
name_max = 255

abbrev pub temp_suffix_max : ℕ
temp_suffix_max = 6 + 10 + 1 + 20

unfoldable pub is_repo_segment : Text → Bool
is_repo_segment s = is_safe_segment s && leb (length s) name_max

unfoldable pub is_repo : List Text → Bool
is_repo (org ∷ model ∷ []) = is_repo_segment org && is_repo_segment model
is_repo _ = false

unfoldable pub is_model_file : Text → Bool
is_model_file file =
    is_safe_segment file
    && leb (length file) (name_max - temp_suffix_max)
    && ends_with (codes ".gguf") (to_ascii_lowercase file)

-- std::path::Component
pub data Component : Type 0 where
  root_dir current_dir parent_dir : Component
  normal : Text → Component

unfoldable pub component : Text → List Component
component s =
    if s == []
    then []
    else if s == codes "."
    then []
    else if s == codes ".."
    then parent_dir ∷ []
    else normal s ∷ []

unfoldable pub rest_components : List Text → List Component
unfolding component
rest_components [] = []
rest_components (s ∷ ss) = component s ++ rest_components ss

-- Path::components: a leading empty segment is the root, a leading `.` is kept.
unfoldable pub first_components : List Text → List Component
first_components [] = []
first_components (s ∷ []) = if s == codes "." then current_dir ∷ [] else component s
first_components (s ∷ ss) =
    if s == []
    then root_dir ∷ rest_components ss
    else if s == codes "."
    then current_dir ∷ rest_components ss
    else component s ++ rest_components ss

unfoldable pub components : Text → List Component
unfolding first_components
components s = first_components (split s)

-- PathBuf::join: an absolute path replaces, another is put behind a separator.
unfoldable pub join : Text → Text → Text
join base [] = base ++ 47 ∷ []
join base (c ∷ cs) = if c == 47 then c ∷ cs else base ++ 47 ∷ c ∷ cs

unfoldable pub escapes : Component → Bool
escapes parent_dir = true
escapes root_dir = true
escapes current_dir = false
escapes (normal s) = false

-- dest_path, as the path below the models root
unfoldable pub dest_path : Text → Text → Option (List Component)
dest_path repo file =
    let rel = components (join repo file) in
    if not (is_repo (split repo))
    then none
    else if not (is_model_file file)
    then none
    else if any escapes rel
    then none
    else some rel
