-- ===== src/Cancel/Landed.antt =====
-- What a download that can be cancelled reports.
use higgs.Cancel.Pull.{Turn, failure, path, Fetched, erred, landed, cancelled, Ended}
use higgs.Base.{is_some, List, Option, ◌||◌, ◌∷◌, some, none, false, true, Bool, ◌≡◌}

module _ {P E : Type 0} where
  -- A turn that ends the pull: the future is ready, or the cancel is seen.
  unfoldable pub settles : Turn P E → Bool
  settles t = is_some t.answer || t.seen

  -- The poll before the `select!` looks at the channel only after the future.
  abbrev pub polls : Option (Fetched P E) → Bool → List (Turn P E) → List (Turn P E)
  polls first looked turns = record { answer = first; seen = false; looked = looked } ∷ turns

  -- What a pull that was not stopped at once reports, by the first turn that settles it.
  pub data Honest : Option (Turn P E) → Ended P E → Type 0 where
    has_landed :
        {t : Turn P E} {e : Ended P E} (p : P)
        → t.answer ≡ some (path p)
        → e.pulled ≡ some (landed p)
        → e.overwrites ≡ 0
        → Honest (some t) e
    has_stopped :
        {t : Turn P E} {e : Ended P E}
        → t.answer ≡ none
        → t.seen ≡ true
        → e.pulled ≡ some cancelled
        → e.overwrites ≡ 0
        → Honest (some t) e
    has_failed_cancelled :
        {t : Turn P E} {e : Ended P E} (x : E)
        → t.answer ≡ some (failure x)
        → t.looked ≡ true
        → e.pulled ≡ some cancelled
        → e.overwrites ≡ 1
        → Honest (some t) e
    has_failed :
        {t : Turn P E} {e : Ended P E} (x : E)
        → t.answer ≡ some (failure x)
        → t.looked ≡ false
        → e.pulled ≡ some (erred x)
        → e.overwrites ≡ 0
        → Honest (some t) e
    unfinished : {e : Ended P E} → e.pulled ≡ none → e.overwrites ≡ 0 → Honest none e
