-- ===== src/Served.antt =====
-- src/node/served.rs: the ids under which the running instances are called, `org/model`, `org/model-1`
-- and so on. The locations and their order are parameters. The loop that looks for a free id runs on
-- fuel, and `none` is that it runs out.
use mathlib.Core.List.{reverse}
use higgs.Base.Assoc.{get, insert, remove}
use higgs.Base.Sort.{sort}
use higgs.Base.Text.{Text, text_eq, text_lt}
pub mod Decimal
pub mod Picked
pub mod Reached
mod Examples
use higgs.Base.{
  Eq, string_eq, nat_eq, ◌==◌, any, ltb, length, if◌then◌else◌, ◌++◌, ◌∷◌, [], List, some, none,
  Option, ◌||◌, ◌&&◌, false, true, Bool, ◌%◌, ◌/◌, ◌+◌, suc, zero, ℕ,
}

-- The decimal digits of a number, the last first, with fuel for them.
unfoldable pub digits : ℕ → ℕ → Text
digits zero n = []
digits (suc fuel) n =
    let rest = digits fuel (n / 10) in if ltb n 10 then (n + 48) ∷ [] else (n % 10 + 48) ∷ rest

-- `format!("{i}")`
unfoldable pub decimal : ℕ → Text
unfolding digits
decimal n = reverse (digits (suc n) n)

unfoldable pub candidate : Text → ℕ → Text
unfolding decimal
candidate model i = if i == 0 then model else model ++ b'-' ∷ decimal i

-- `HashSet::contains`
abbrev pub contains : List Text → Text → Bool
contains taken id = any (λ t. t == id) taken

-- The loop: the first id from the suffix `i` on that is not taken, and the next suffix.
unfoldable pub pick : ℕ → List Text → Text → ℕ → Option (Text × ℕ)
unfolding candidate any
pick zero taken model i = none
pick (suc fuel) taken model i =
    let rest = pick fuel taken model (i + 1) in
    if contains taken (candidate model i) then rest else some (candidate model i, i + 1)

pub record Instance (L : Type 0) : Type 0 where
  pub location : L
  pub worker : ℕ
  pub model : Text

pub record Assigned (L : Type 0) : Type 0 where
  pub taken : List Text
  pub next_suffix : List (Text × ℕ)
  pub out : List (Text × (L × ℕ))

abbrev pub or_zero : Option ℕ → ℕ
or_zero none = 0
or_zero (some i) = i

module _ {L : Type 0} where
  unfoldable pub take_id : Instance L → Assigned L → Text × ℕ → Assigned L
  unfolding insert
  take_id e s (served, i) = record {
    taken = served ∷ s.taken;
    next_suffix = insert e.model i s.next_suffix;
    out = insert served (e.location, e.worker) s.out;
  }

  unfoldable pub assign : Instance L → Assigned L → Option (Assigned L)
  unfolding take_id pick get
  assign e s =
      elim (pick (suc (length s.taken)) s.taken e.model (or_zero (get e.model s.next_suffix))) [
        | none ↦ none
        | some picked ↦ some (take_id e s picked)
      ]

  unfoldable pub assign_all : List (Instance L) → Assigned L → Option (Assigned L)
  unfolding assign
  assign_all [] s = some s
  assign_all (e ∷ es) s = elim (assign e s) [ none ↦ none | some s' ↦ assign_all es s' ]

  abbrev pub nothing : Assigned L
  nothing = record { taken = []; next_suffix = []; out = [] }

  module _ (before_location : L → L → Bool) ⦃e : Eq L⦄ where
    -- The order by model, location and worker.
    unfoldable pub before : Instance L → Instance L → Bool
    unfolding text_lt
    before a b =
        text_lt a.model b.model
        || (a.model == b.model
            && (before_location a.location b.location
                || (a.location == b.location && ltb a.worker b.worker)))

    unfoldable pub served_ids : List (Instance L) → Option (List (Text × (L × ℕ)))
    unfolding before sort assign_all
    served_ids instances = elim (assign_all (sort before instances) nothing) [
      | none ↦ none
      | some s ↦ some s.out
    ]
