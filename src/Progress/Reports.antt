-- ===== src/Progress/Reports.antt =====
-- The reports of a progress database: `Outstanding`, `Subtasks`, `LockedBy` and `VerifyReport` of
-- internal/progress/subtask.go. The details of a row, which are only shown, are left out.
use limewire_purge.Prelude.{
  ℕ, Bool, true, false, not, ◌&&◌, ◌||◌, List, [], ◌∷◌, Option, none, some, ltb, ◌==◌,
}
use limewire_purge.Progress.Tables.{ScanRow, Subtask, TaskObject, VerifyStatus, Tables}
use limewire_purge.Progress.Session.{M, ◌>>=◌, pure, query}
use limewire_purge.Progress.Rows.{count, exists, select, sort_by, is_residue, is_error}

-- No task holds the object.
unfoldable pub is_unassigned : Tables → ScanRow → Bool
unfolding exists
is_unassigned t s = not (exists (λ o. o.object_id == s.object_id) t.objects)

-- It is deferred, and no later task holds the object.
unfoldable pub is_unresolved : Tables → TaskObject → Bool
unfolding exists
is_unresolved t o =
    o.deferred
    && not (exists (λ n. n.object_id == o.object_id && ltb o.task_id n.task_id) t.objects)

-- `Outstanding`
unfoldable pub outstanding : M (ℕ × ℕ)
unfolding count is_unassigned is_unresolved
outstanding = do
  unassigned ← query (λ t. count (is_unassigned t) t.scan_objects)
  deferred ← query (λ t. count (is_unresolved t) t.objects)
  pure (unassigned, deferred)

-- `Subtasks`
unfoldable pub subtasks : M (List Subtask)
unfolding sort_by
subtasks = query (λ t. sort_by (λ s. s.id) t.tasks)

-- `LockedBy`
unfoldable pub locked_by : Subtask → Option ℕ → Bool
locked_by s none = false
locked_by s (some owner) = elim s.connection [ none ↦ false | some id ↦ owner == id ]

-- One row of a report: deferred, or with the result of the check.
pub data Kind : Type 0 where
  deferred : Kind
  checked : VerifyStatus → Kind

unfoldable pub in_report : Subtask → TaskObject → Bool
in_report s o =
    o.task_id == s.id
    && (o.deferred
        || (o.verify_generation == s.generation
            && (is_error o.verify_status || is_residue o.verify_status)))

unfoldable pub report_rows : List TaskObject → List (ℕ × Kind)
report_rows [] = []
report_rows (o ∷ os) =
    (o.object_id, elim o.deferred [ true ↦ deferred | false ↦ checked o.verify_status ])
    ∷ report_rows os

-- `VerifyReport`
unfoldable pub verify_report : Subtask → M (List (ℕ × Kind))
unfolding select sort_by in_report report_rows
verify_report s =
    query (λ t. report_rows (sort_by (λ o. o.object_id) (select (in_report s) t.objects)))
