-- ===== src/Commands/Scan.antt =====
-- `runScan` of cmd/limewire-purge/main.go, behind its flags and the opening of both databases.
pub mod Filled
use limewire_purge.Prelude.{ℕ, Bool, true, false, List, Option, none, some, ◌==◌, if◌then◌else◌}
use limewire_purge.Errors.{Err, wrapped, message, empty_scan, Result, ok, err}
use limewire_purge.Progress.Tables.{ScanRow, Binding}
use limewire_purge.Progress.Session.{Db}
use limewire_purge.Progress.Scan.{bind, begin_scan, insert_scan, finish_scan}
use limewire_purge.Progress.Counts.{counts}
use limewire_purge.Bsdb.{Page, Scanned, reconcile, scan}
use limewire_purge.Commands.{
  Command, ◌>>=◌, ◌>>◌, pure, throw, refuse_if, refuse, given, in_database,
}

-- The callback of the scan: the rows are inserted, and an error ends the scan.
abbrev error_of {ℓ} : {A : Type ℓ} → Result A → Option Err
error_of (ok a) = none
error_of (err e) = some e

unfoldable pub store_rows : List ScanRow → Db → Option Err × Db
store_rows rows db = let (r, db') = insert_scan rows db in (error_of r, db')

abbrev unless_failed {ℓ} : {A : Type ℓ} → Result A → Result (Unit {0})
unless_failed (ok a) = ok tt
unless_failed (err e) = err e

-- The counts that are printed in the end.
show_counts : {W : Type 0} → Command W (Unit {0})
show_counts (db, w) = let (r, db') = counts db in (unless_failed r, (db', w))

module _ {W : Type 0} (count : W → Result ℕ × W) (query : ℕ → ℕ → W → Result Page × W) where
  -- sc.Count
  count_live : Command W ℕ
  count_live (db, w) = let (r, w') = count w in (r, (db, w'))

  -- A scan without fuel has no result; that stands as an error here.
  after_scan : Db × W → Option (Scanned Db) × W → Result ℕ × (Db × W)
  after_scan (db, w) (none, w') = (err (message "out of fuel"), (db, w'))
  after_scan (db, w) (some s, w') = elim s.error [
    | none ↦ (ok s.total, (s.state, w'))
    | some e ↦ (err (wrapped "the list is marked incomplete" e), (s.state, w'))
  ]

  -- sc.Scan with the callback
  scan_list : (batch fuel : ℕ) → Command W ℕ
  unfolding after_scan store_rows
  scan_list batch fuel (db, w) = after_scan (db, w) (scan query batch store_rows fuel db w)

  -- The list is counted again and sealed.
  seal_list : (live total : ℕ) → Command W (Unit {0})
  unfolding count_live show_counts
  seal_list live total = do
    after ← count_live
    refuse (reconcile live after total)
    in_database (finish_scan total)
    show_counts

  -- From `Bind` on.
  fill_list : (batch fuel live : ℕ) → Binding → Command W (Unit {0})
  unfolding seal_list scan_list
  fill_list batch fuel live b = do
    in_database (bind b)
    in_database (begin_scan live)
    total ← scan_list batch fuel
    seal_list live total

  after_count : Bool → (batch fuel : ℕ) → Result Binding → ℕ → Command W (Unit {0})
  unfolding fill_list
  after_count true batch fuel binding live = pure tt
  after_count false batch fuel binding live = do
    refuse_if (live == 0) empty_scan
    b ← given binding
    fill_list batch fuel live b

  -- `runScan`
  unfoldable pub run_scan : Bool → (batch fuel : ℕ) → Result Binding → Command W (Unit {0})
  unfolding count_live after_count
  run_scan count_only batch fuel binding = do
    live ← count_live
    after_count count_only batch fuel binding live
