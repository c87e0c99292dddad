-- ===== src/Cancel/Pull.antt =====
-- `cancellable_pull` of src/catalog/cancel.rs. The download is a future: each poll of it has an answer,
-- its result or that it is pending. The stop channel is what a look at it sees. Both are arguments, one
-- answer for each poll and one for each look.
use higgs.Base.{if◌then◌else◌, ◌∷◌, [], List, some, none, Option, false, true, Bool, ℕ}

-- Result<PathBuf, HiggsError>, where the second is HG089, DownloadCancelled
pub data Pulled (P E : Type 0) : Type 0 where
  landed : P → Pulled P E
  cancelled : Pulled P E
  erred : E → Pulled P E

-- What the future's own result is: a path, or an error.
pub data Fetched (P E : Type 0) : Type 0 where
  path : P → Fetched P E
  failure : E → Fetched P E

-- One turn of `select!`: the answer of the poll, then whether the cancel is seen, and what the last
-- look at the channel sees if the future was ready.
pub record Turn (P E : Type 0) : Type 0 where
  pub answer : Option (Fetched P E)
  pub seen : Bool
  pub looked : Bool

-- How a pull ended, with how often it had the ledger's failure overwritten; `none` when the turns have
-- run out.
pub record Ended (P E : Type 0) : Type 0 where
  pub pulled : Option (Pulled P E)
  pub overwrites : ℕ

module _ {P E : Type 0} where
  -- The future was ready, and the channel is looked at again.
  unfoldable pub conclude : Bool → Fetched P E → Ended P E
  conclude fired (path p) = record { pulled = some (landed p); overwrites = 0 }
  conclude true (failure e) = record { pulled = some cancelled; overwrites = 1 }
  conclude false (failure e) = record { pulled = some (erred e); overwrites = 0 }

  abbrev pub stopped : Ended P E
  stopped = record { pulled = some cancelled; overwrites = 0 }

  unfoldable pub turn : Option (Fetched P E) → Bool → Bool → Ended P E → Ended P E
  unfolding conclude
  turn (some r) seen looked next = conclude looked r
  turn none seen looked next = if seen then stopped else next

  -- The `select!`, biased toward the future, over the wake-ups of the task.
  unfoldable pub select : List (Turn P E) → Ended P E
  unfolding turn
  select [] = record { pulled = none; overwrites = 0 }
  select (t ∷ turns) = let next = select turns in turn t.answer t.seen t.looked next

  unfoldable pub poll_first : Bool → Option (Fetched P E) → List (Turn P E) → Ended P E
  unfolding conclude select
  poll_first looked (some r) turns = conclude looked r
  poll_first looked none turns = select turns

  unfoldable pub cancellable_pull :
      (fired : Bool) → Option (Fetched P E) → (looked : Bool) → List (Turn P E) → Ended P E
  unfolding poll_first
  cancellable_pull fired first looked turns =
      if fired then stopped else poll_first looked first turns
