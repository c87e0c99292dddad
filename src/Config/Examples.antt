-- ===== src/Config/Examples.antt =====
-- A configuration that pairs with three hubs, pairs again with the first, and leaves hubs.
use higgs.Config.Hubs.{run-Settled, run, apply, Op, remember, forget, loaded, Settled}
use higgs.Config.{
  SavedHub, InstanceConfig, new, has_id, other_id, is_default, latest, most_recent, remember_hub,
  remove_hub, record_load, find_hub, release_url, url_of, trim_slashes, model_record, or_else,
}
use higgs.Base.Text.{Text, codes, text_eq, starts_with, trim, trim_start, is_whitespace}
use higgs.Base.Assoc.{get, insert, remove}
use higgs.Base.{
  string_eq, nat_eq, retain, find, length, ◌++◌, ◌∷◌, [], List, some, refl, ◌≡◌, ◌≤◌, ℕ,
}

abbrev saved : Text → Text → ℕ → SavedHub
saved id label now = record { hub_id = id; ticket = codes "t"; label = label; last_used_ms = now }

abbrev one_hub : SavedHub
one_hub = saved (codes "aa1") (codes "one") 5

abbrev two_hub : SavedHub
two_hub = saved (codes "ab2") (codes "two") 9

abbrev three_hub : SavedHub
three_hub = saved (codes "ac3") (codes "aa") 9

abbrev again : SavedHub
again = saved (codes "aa1") (codes "one") 12

abbrev pairings : List (Op ℕ)
pairings =
    remember one_hub
    ∷ remember two_hub
    ∷ loaded (codes "m") 7 10
    ∷ remember three_hub
    ∷ remember again
    ∷ []

abbrev leaving : List (Op ℕ)
leaving = pairings ++ forget (codes "aa1") ∷ remember one_hub ∷ forget (codes "ab2") ∷ []

run-Settled_example :
    ((id : Text) → length (retain (has_id id) (run leaving new).hubs) ≤ 1)
    × Settled (run leaving new)
run-Settled_example = run-Settled leaving

paired_again : (run pairings new).hubs ≡ two_hub ∷ three_hub ∷ again ∷ []
unfolding run apply remember_hub other_id has_id retain record_load
paired_again = refl

-- Of two hubs that were used last at the same time, the later in the list is promoted.
promoted : (remove_hub (codes "aa1") (run pairings new)).1.default_hub ≡ some (codes "ac3")
unfolding run apply remember_hub remove_hub other_id has_id retain record_load is_default
    most_recent latest
promoted = refl

-- A label is looked for before the start of an id.
by_label : find_hub (codes "aa") (run pairings new) ≡ some three_hub
unfolding run apply remember_hub other_id has_id retain record_load find_hub find or_else
    starts_with
by_label = refl

by_id : find_hub (codes "aa1") (run pairings new) ≡ some again
unfolding run apply remember_hub other_id has_id retain record_load find_hub find or_else
    starts_with
by_id = refl

recorded :
    model_record (codes "m") (run pairings new)
    ≡ some (record { load = some 7; last_loaded_ms = 10 })
unfolding run apply remember_hub other_id has_id retain record_load model_record get insert remove
recorded = refl

mirror : InstanceConfig ℕ → Text → InstanceConfig ℕ
mirror c url = record c { release = some url }

trimmed : release_url (mirror new (codes " http://m/r// ")) ≡ codes "http://m/r"
unfolding mirror release_url url_of trim trim_start is_whitespace trim_slashes
trimmed = refl
