-- ===== src/Ledger/Sweeping.antt =====
-- What the sweep of src/catalog/ledger.rs decides, and what its readers report.
use higgs.Base.Sort.{sort, length-retain-sort}
use higgs.Ledger.Healthy.{Healthy, with_ledger-reads}
use higgs.Base.{
  retain, length, Bool-cases, arith, ◌∷◌, [], List, ◌&&◌, not, false, Bool, inr, inl, refl, ◌≡◌,
  String, retain-retain,
}
use higgs.Ledger.{is_live, Os, Entry, same_status}
use higgs.Ledger.Claims.{read_live, read_all, reads_before}
use higgs.Ledger.Pass.{mutated, Io}
use higgs.Ledger.Rows.{sweep, sweep_entry, is_stale}

is_live-sweep_entry :
    (os : Os) (e : Entry) → is_live (sweep_entry os e) ≡ (is_live e && not (is_stale os e))
unfolding sweep_entry same_status
is_live-sweep_entry os e = ground arith

sweep_entry_kept : (os : Os) (e : Entry) → is_live e && is_stale os e ≡ false → sweep_entry os e ≡ e
unfolding sweep_entry
sweep_entry_kept os e h = ground arith

live_after :
    (os : Os) (p : Entry → Bool) (e : Entry)
    → (is_live (sweep_entry os e) && p (sweep_entry os e))
      ≡ (p e && is_live e && not (is_stale os e))
live_after os p e = elim (Bool-cases (is_live e && is_stale os e)) [
  | inl h ↦ rw (is_live-sweep_entry os e) (ground arith)
  | inr h ↦ rw (sweep_entry_kept os e h) (ground arith)
]

retain-sweep :
    (os : Os) (p : Entry → Bool) (es : List Entry)
    → length (retain (λ e. is_live e && p e) (sweep os es))
      ≡ length (retain (λ e. p e && is_live e && not (is_stale os e)) es)
unfolding sweep retain
retain-sweep os p [] = refl
retain-sweep os p (e ∷ es) = ground (arith, live_after os p e, retain-sweep os p es)

-- On a pass whose file operations succeed, with no queued terminal, the rows that `read_live` gives
-- are, for every test `p` and counted, the rows of the file that are downloading and not stale.
pub read_live_exact :
    (root : String) (os : Os) (io : Io) (rows : List Entry) (p : Entry → Bool)
    → Healthy io
    → length (retain p (read_live root os io (record { rows = rows; pending = [] })).0)
      ≡ length (retain (λ e. p e && is_live e && not (is_stale os e)) rows)
unfolding read_live read_all
read_live_exact root os io rows p good =
    rw
      (with_ledger-reads root os io good (λ es. mutated es es false) rows (sweep os rows)
        (sweep os rows) refl)
      (rw
        (
          retain-retain p is_live (sort reads_before (sweep os rows)),
          length-retain-sort reads_before (λ e. is_live e && p e) (sweep os rows),
        )
        (retain-sweep os p rows))
