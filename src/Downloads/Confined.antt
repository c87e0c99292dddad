-- ===== src/Downloads/Confined.antt =====
-- A download stays under the models root: src/download.rs accepts `org/model` and one file name of
-- safe segments, and nothing else.
use mathlib.Core.List.{append_assoc}
use higgs.Base.Text.{all, Text, text_eq}
use higgs.Base.{
  some-injective, absurd_bool, any, some, none, sym, string_eq, nat_eq, ◌==◌, length, Bool-cases,
  arith, false, inr, inl, ◌∙◌, ap, ◌<◌, ℕ, ◌++◌, ◌∷◌, [], List, true, refl, ◌≡◌,
}
use higgs.Downloads.{
  dest_path, escapes, first_components, rest_components, Component, is_model_file, is_repo,
  is_repo_segment, join, components, component, normal, is_safe_segment, is_safe_char, split,
  push_char,
}

none_some {ℓ} : {A : Type ℓ} {path : List Component} → none ≡ some path → A
none_some e = cc e

absurd_lt {ℓ} : {A : Type ℓ} → 0 < 0 → A
absurd_lt h = ground (arith, h)

no_slash : (c : ℕ) → is_safe_char c ≡ true → (c == 47) ≡ false
unfolding is_safe_char
no_slash c h = ground (arith, h)

split-no_slash : (s : Text) → all is_safe_char s ≡ true → split s ≡ s ∷ []
unfolding split push_char all
split-no_slash [] h = refl
split-no_slash (c ∷ cs) h =
    rw (no_slash c (ground (arith, h)), split-no_slash cs (ground (arith, h))) refl

split-segment :
    (s rest : Text) → all is_safe_char s ≡ true → split (s ++ 47 ∷ rest) ≡ s ∷ split rest
unfolding split push_char all
split-segment [] rest h = refl
split-segment (c ∷ cs) rest h =
    rw (no_slash c (ground (arith, h)), split-segment cs rest (ground (arith, h))) refl

-- The text that a list of segments was split from.
unfoldable glue : List Text → Text
glue [] = []
glue (s ∷ []) = s
glue (s ∷ t ∷ ts) = s ++ 47 ∷ glue (t ∷ ts)

glue-push_char : (c : ℕ) (ss : List Text) → glue (push_char c ss) ≡ c ∷ glue ss
unfolding glue push_char
glue-push_char c [] = refl
glue-push_char c (s ∷ []) = refl
glue-push_char c (s ∷ t ∷ ts) = refl

glue-cut : (ss : List Text) → 0 < length ss → glue ([] ∷ ss) ≡ 47 ∷ glue ss
unfolding glue
glue-cut [] h = absurd_lt h
glue-cut (s ∷ ss) h = refl

length-push_char : (c : ℕ) (ss : List Text) → 0 < length (push_char c ss)
unfolding push_char
length-push_char c [] = omega arith
length-push_char c (s ∷ ss) = omega arith

length-split : (s : Text) → 0 < length (split s)
unfolding split
length-split [] = omega arith
length-split (c ∷ cs) = elim (Bool-cases (c == 47)) [
  | inl e ↦ rw e (omega arith)
  | inr e ↦ rw e (length-push_char c (split cs))
]

glue-split : (s : Text) → glue (split s) ≡ s
unfolding split glue
glue-split [] = refl
glue-split (c ∷ cs) = elim (Bool-cases (c == 47)) [
  | inr e ↦ rw e (glue-push_char c (split cs) ∙ ap (λ r. c ∷ r) (glue-split cs))
  | inl e ↦ rw e (
      glue-cut (split cs) (length-split cs)
      ∙ rw ((nat_eq.decides c 47).0 e) (ap (λ r. 47 ∷ r) (glue-split cs)))
]

component-safe : (s : Text) → is_safe_segment s ≡ true → component s ≡ normal s ∷ []
unfolding component is_safe_segment
component-safe s h = ground (arith, h)

segment_chars : (s : Text) → is_safe_segment s ≡ true → all is_safe_char s ≡ true
unfolding is_safe_segment
segment_chars s h = ground (arith, h)

join-segment : (base file : Text) → is_safe_segment file ≡ true → join base file ≡ base ++ 47 ∷ file
unfolding join all
join-segment base [] h = refl
join-segment base (c ∷ cs) h = rw (no_slash c (ground (arith, segment_chars (c ∷ cs) h))) refl

first_components-safe :
    (org : Text) (ss : List Text)
    → is_safe_segment org ≡ true
    → 0 < length ss
    → first_components (org ∷ ss) ≡ normal org ∷ rest_components ss
unfolding first_components component is_safe_segment
first_components-safe org [] h n = absurd_lt n
first_components-safe org (s ∷ ss) h n = ground (arith, h)

rest_components-safe :
    (model file : Text)
    → is_safe_segment model ≡ true
    → is_safe_segment file ≡ true
    → rest_components (model ∷ file ∷ []) ≡ normal model ∷ normal file ∷ []
unfolding rest_components
rest_components-safe model file hm hf = rw (component-safe model hm, component-safe file hf) refl

components-safe :
    (org model file : Text)
    → is_safe_segment org ≡ true
    → is_safe_segment model ≡ true
    → is_safe_segment file ≡ true
    → components (join (org ++ 47 ∷ model) file) ≡ normal org ∷ normal model ∷ normal file ∷ []
unfolding components
components-safe org model file ho hm hf =
    rw
      (
        join-segment (org ++ 47 ∷ model) file hf,
        append_assoc org (47 ∷ model) (47 ∷ file),
        split-segment org (model ++ 47 ∷ file) (segment_chars org ho),
        split-segment model file (segment_chars model hm),
        split-no_slash file (segment_chars file hf),
      )
      (first_components-safe org (model ∷ file ∷ []) ho (omega arith)
        ∙ ap (λ r. normal org ∷ r) (rest_components-safe model file hm hf))

safe_repo : (s : Text) → is_repo_segment s ≡ true → is_safe_segment s ≡ true
unfolding is_repo_segment
safe_repo s h = ground (arith, h)

safe_file : (s : Text) → is_model_file s ≡ true → is_safe_segment s ≡ true
unfolding is_model_file
safe_file s h = ground (arith, h)

-- Every organisation, model and file name of safe segments within the bounds of the file system has
-- a place: the three names, in this order, below the models root.
pub dest_path-accepts :
    (org model file : Text)
    → is_repo_segment org ≡ true
    → is_repo_segment model ≡ true
    → is_model_file file ≡ true
    → dest_path (org ++ 47 ∷ model) file ≡ some (normal org ∷ normal model ∷ normal file ∷ [])
unfolding dest_path is_repo any escapes
dest_path-accepts org model file ho hm hf =
    rw
      (
        split-segment org model (segment_chars org (safe_repo org ho)),
        split-no_slash model (segment_chars model (safe_repo model hm)),
        ho,
        hm,
        hf,
        components-safe org model file (safe_repo org ho) (safe_repo model hm) (safe_file file hf),
      )
      refl

accepted :
    (repo file : Text) (path : List Component)
    → dest_path repo file ≡ some path
    → (is_repo (split repo) ≡ true) × (is_model_file file ≡ true)
unfolding dest_path
accepted repo file path h = elim (Bool-cases (is_repo (split repo))) [
  | inr e ↦ none_some (sym (rw e refl) ∙ h)
  | inl e ↦ elim (Bool-cases (is_model_file file)) [
    | inl f ↦ (e, f)
    | inr f ↦ none_some (sym (rw (e, f) refl) ∙ h)
  ]
]

two_segments :
    (ss : List Text)
    → is_repo ss ≡ true
    → (org : Text) × (model : Text) × (ss ≡ org ∷ model ∷ [])
      × (is_repo_segment org ≡ true)
      × (is_repo_segment model ≡ true)
unfolding is_repo
two_segments [] h = absurd_bool h
two_segments (a ∷ []) h = absurd_bool h
two_segments (a ∷ b ∷ []) h = (a, b, refl, ground (arith, h), ground (arith, h))
two_segments (a ∷ b ∷ c ∷ ss) h = absurd_bool h

-- What is accepted lies below the models root: the repository is `org/model`, all three names are
-- safe segments within the bounds, and the place is these three names in this order.
pub dest_path-confined :
    (repo file : Text) (path : List Component)
    → dest_path repo file ≡ some path
    → (org : Text) × (model : Text) × (repo ≡ org ++ 47 ∷ model)
      × (is_repo_segment org ≡ true)
      × (is_repo_segment model ≡ true)
      × (is_model_file file ≡ true)
      × (path ≡ normal org ∷ normal model ∷ normal file ∷ [])
unfolding glue
dest_path-confined repo file path h =
    let (r, f) = accepted repo file path h in
    let (org, model, e, ho, hm) = two_segments (split repo) r in
    let same : repo ≡ org ++ 47 ∷ model = sym (glue-split repo) ∙ ap glue e in
    let place =
      sym (dest_path-accepts org model file ho hm f) ∙ ap (λ x. dest_path x file) (sym same) ∙ h in
    (org, model, same, ho, hm, f, some-injective (sym place))
