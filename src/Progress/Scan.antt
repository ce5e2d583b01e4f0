-- ===== src/Progress/Scan.antt =====
-- The binding and the object list of a progress database: internal/progress/task.go, and
-- `InsertScan` of progress.go.
pub mod Sealed
use text.Mathlib.Text.{◌==◌ as str_eq}
use limewire_purge.Prelude.{
  ℕ, Bool, true, false, not, ◌||◌, List, [], ◌∷◌, ◌++◌, Option, none, some, ltb, ◌==◌,
  if◌then◌else◌, length,
}
use limewire_purge.Errors.{Err, message, empty_scan}
use limewire_purge.Progress.Tables.{ScanRow, Binding, ScanStatus, Meta, Tables}
use limewire_purge.Progress.Session.{
  M, ◌>>=◌, ◌>>◌, pure, throw, refuse_if, query, exec, check_lock,
}
use limewire_purge.Progress.Rows.{exists}

pub data Field : Type 0 where
  chain_id sp_operator object_storage spdb bucket bucket_id : Field

abbrev differing : Bool → Field → List Field
differing true f = []
differing false f = f ∷ []

-- `Binding.Diff`
unfoldable pub diff : Binding → Binding → List Field
diff b now =
    differing (str_eq b.chain_id now.chain_id) chain_id
    ++ (differing (str_eq b.sp_operator now.sp_operator) sp_operator
        ++ (differing (str_eq b.storage now.storage) object_storage
            ++ (differing (str_eq b.spdb now.spdb) spdb
                ++ (differing (str_eq b.bucket now.bucket) bucket
                    ++ differing (b.bucket_id == now.bucket_id) bucket_id))))

abbrev no_task : Err
no_task = message "progress database has no task binding yet"

-- `if d := …Diff(b); len(d) > 0`
unfoldable pub refuse_differences : List Field → M (Unit {0})
unfolding pure throw
refuse_differences [] = pure tt
refuse_differences (f ∷ more) = throw (message "progress database belongs to another task")

unfoldable pub check_row : Binding → Option Meta → M (Unit {0})
unfolding throw diff refuse_differences
check_row b none = throw no_task
check_row b (some m) = refuse_differences (diff m.binding b)

-- `CheckBinding`
unfoldable pub check_binding : Binding → M (Unit {0})
unfolding check_row
check_binding b = do task ← query (λ t. t.meta); check_row b task

-- INSERT IGNORE INTO task_meta: an existing row stays.
unfoldable pub insert_meta : Binding → Tables → Tables
insert_meta b t = elim t.meta [
  | some m ↦ t
  | none ↦ record t {
    meta = some (record {
      binding = b;
      scan_status = ScanStatus.not_scanned;
      scan_bsdb_count = none;
      scan_rows = none;
    });
  }
]

-- Without a binding the database must hold neither a list nor results.
unfoldable pub refuse_adoption : Option Meta → M (Unit {0})
refuse_adoption (some m) = pure tt
refuse_adoption none = do
  used ← query (λ t. ltb 0 (length t.scan_objects) || ltb 0 (length t.progress))
  refuse_if used (message "progress database has objects or results but no task binding")

-- `Bind`
unfoldable pub bind : Binding → M (Unit {0})
unfolding refuse_adoption insert_meta check_binding
bind b = do task ← query (λ t. t.meta); refuse_adoption task; exec (insert_meta b); check_binding b

abbrev pub is_complete : Option Meta → Bool
is_complete none = false
is_complete (some m) = elim m.scan_status [ ScanStatus.complete ↦ true | _ ↦ false ]

-- `RequireCompleteScan`
unfoldable pub require_complete_scan : M (Unit {0})
require_complete_scan = do
  task ← query (λ t. t.meta)
  refuse_if (not (is_complete task)) (message "object list is not complete")

unfoldable pub set_meta : (Meta → Meta) → Tables → Tables
set_meta f t = elim t.meta [ none ↦ t | some m ↦ record t { meta = some (f m) } ]

-- `BeginScan`
unfoldable pub begin_scan : ℕ → M (Unit {0})
unfolding set_meta
begin_scan bsdb_count = do
  check_lock
  task ← query (λ t. t.meta)
  refuse_if (is_complete task) (message "scan is already COMPLETE and frozen")
  tasks ← query (λ t. length t.tasks)
  refuse_if (not (tasks == 0)) (message "cannot change a manifest after subtasks exist")
  exec (
      set_meta (λ m. record m {
        scan_status = ScanStatus.running;
        scan_bsdb_count = some bsdb_count;
        scan_rows = none;
      }))

-- INSERT IGNORE INTO scan_objects: a row whose key is there already is skipped.
insert_scan_rows : List ScanRow → List ScanRow → List ScanRow
insert_scan_rows [] stored = stored
insert_scan_rows (r ∷ rows) stored =
    insert_scan_rows rows
      (if exists (λ s. s.object_id == r.object_id) stored then stored else stored ++ r ∷ [])

-- `InsertScan`
unfoldable pub insert_scan : List ScanRow → M (Unit {0})
unfolding insert_scan_rows exists
insert_scan rows = do
  check_lock
  elim rows [
    | [] ↦ pure tt
    | r ∷ more ↦ exec (λ t. record t { scan_objects = insert_scan_rows (r ∷ more) t.scan_objects })
  ]

-- `FinishScan`
unfoldable pub finish_scan : ℕ → M (Unit {0})
unfolding set_meta
finish_scan rows = do
  refuse_if (rows == 0) empty_scan
  check_lock
  actual ← query (λ t. length t.scan_objects)
  refuse_if (not (actual == rows)) (message "persisted scan count differs from source")
  exec (set_meta (λ m. record m { scan_status = ScanStatus.complete; scan_rows = some rows }))
