-- ===== src/Supervisor/Lifecycle/Owned.antt =====
-- Who holds a process, the schedules on which starts do not overlap the restarts of earlier workers, and the
-- invariant on them: every process is held by `proc`, by the caller, or by the reader of the current
-- generation, which stands first.
use higgs.Supervisor.Lifecycle.{
  act, reader, start, Action, gone, leave, give_up, replace, recheck_stopped, lock_proc, abandon,
  guard_stopped, die, check_generation, reading, Pc, reaping, wired, stored, built, bumped,
  unflagged, claimed, idle, Caller, count, Sup,
}
use higgs.Base.{
  string_eq, nat_eq, All, ◌∷◌, [], List, ◌&&◌, not, false, true, Bool, ◌⊎◌, ◌≡◌, ◌<◌, ◌+◌, ℕ,
}

-- What holds a process besides `proc`.
unfoldable pub caller_hand : Caller → ℕ
caller_hand (built _) = 1
caller_hand (reaping child) = count child
caller_hand _ = 0

unfoldable pub reader_hand : Pc → ℕ
reader_hand guard_stopped = 1
reader_hand abandon = 1
reader_hand lock_proc = 1
reader_hand recheck_stopped = 1
reader_hand replace = 1
reader_hand _ = 0

unfoldable pub hands : List (ℕ × Pc) → ℕ
unfolding reader_hand
hands [] = 0
hands ((_, pc) ∷ readers) = reader_hand pc + hands readers

unfoldable pub owners : Sup → ℕ
unfolding caller_hand hands
owners s = count s.proc + caller_hand s.caller + hands s.readers

-- A reader that waits for its worker, is about to look at the generation, or has returned.
unfoldable pub settled : Pc → Bool
settled reading = true
settled check_generation = true
settled gone = true
settled _ = false

unfoldable pub all_settled : List (ℕ × Pc) → Bool
unfolding settled
all_settled [] = true
all_settled ((_, pc) ∷ readers) = settled pc && all_settled readers

-- Before the generation is new, the readers rest.
unfoldable pub early : Caller → Bool
early claimed = true
early unflagged = true
early _ = false

unfoldable pub calm_step : Action → Sup → Bool
unfolding all_settled early
calm_step start s = all_settled s.readers
calm_step (reader _ _) s = not (early s.caller)
calm_step _ s = true

unfoldable pub calm : List Action → Sup → Bool
unfolding calm_step act
calm [] s = true
calm (a ∷ actions) s = let rest = calm actions (act a s) in calm_step a s && rest

-- A reader of an earlier generation, which can only return.
unfoldable pub Old : ℕ → ℕ × Pc → Type 0
Old n r = (r.0 < n) × (settled r.1 ≡ true)

-- A worker that the caller has not stopped is running.
unfoldable pub Alive : Sup → Type 0
Alive s = s.caller ≡ idle → s.stopped ≡ false → s.running ≡ true

-- What the reader of the current generation has seen and still holds, by the phase of the caller,
-- `stopped` and `proc`.
unfoldable pub Extra : Pc → Caller → Bool → Bool → Type 0
Extra (die deliberate) c st pr = deliberate ≡ true → st ≡ true
Extra abandon c st pr = st ≡ true
Extra leave c st pr = (st ≡ true) ⊎ (pr ≡ false)
Extra give_up c st pr = pr ≡ false
Extra replace c st pr = c ≡ idle → st ≡ false
Extra _ c st pr = Unit

unfoldable pub returned : Pc → Bool
returned gone = true
returned _ = false

unfoldable pub Fit : Sup → Pc → Type 0
unfolding Alive
Fit s pc = (returned pc ≡ false → Alive s) × Extra pc s.caller s.stopped s.proc

unfoldable pub Shape : ℕ → (Pc → Type 0) → List (ℕ × Pc) → Type 0
Shape n F [] = Unit
Shape n F ((g, pc) ∷ rest) = (((g ≡ n) × F pc) ⊎ Old n (g, pc)) × All (Old n) rest

pub record Idle (s : Sup) : Type 0 where
  pub off : s.running ≡ false → s.proc ≡ false
  pub halted : s.stopped ≡ true → s.proc ≡ false

pub record Early (s : Sup) : Type 0 where
  pub empty : s.proc ≡ false
  pub is_running : s.running ≡ true
  pub rest : all_settled s.readers ≡ true

pub record Late (gen : ℕ) (s : Sup) : Type 0 where
  pub current : gen ≡ s.generation
  pub is_running : s.running ≡ true
  pub unstopped : s.stopped ≡ false
  pub old : All (Old s.generation) s.readers

unfoldable pub Phase : Caller → Sup → Type 0
Phase idle s = Idle s
Phase claimed s = Early s
Phase unflagged s = Early s × (s.stopped ≡ false)
Phase (bumped g) s = Late g s × (s.proc ≡ false)
Phase (built g) s = Late g s × (s.proc ≡ false)
Phase (stored g) s = Late g s
Phase (wired g) s = Late g s
Phase _ s = Unit

pub record Steady (s : Sup) : Type 0 where
  pub is_owned : s.processes ≡ owners s
  pub shape : Shape s.generation (Fit s) s.readers
  pub phase : Phase s.caller s
