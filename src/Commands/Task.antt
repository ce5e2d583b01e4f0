-- ===== src/Commands/Task.antt =====
-- `runTask` of cmd/limewire-purge/tasks.go, behind its flags and the opening of the database.
use limewire_purge.Prelude.{ℕ, Bool, List, Option, none, some, Bytes, ◌==◌}
use limewire_purge.Errors.{message, Result}
use limewire_purge.Progress.Tables.{ScanRow, Binding, Subtask}
use limewire_purge.Progress.Session.{query}
use limewire_purge.Progress.Rows.{sub_counts}
use limewire_purge.Progress.Capacity.{parse_capacity}
use limewire_purge.Progress.Scan.{check_binding, require_complete_scan}
use limewire_purge.Progress.Resolve.{subtask, resolve_admin_subtask}
use limewire_purge.Progress.Create.{create_subtask}
use limewire_purge.Progress.Admin.{defer_object, resume_safety}
use limewire_purge.Commands.{Command, ◌>>=◌, ◌>>◌, pure, throw, refuse_if, given, in_database}
use limewire_purge.Commands.Purge.{with_task_error}

-- The action with its flags; `exclude` is another name of `defer`.
pub data Action : Type 0 where
  create : (size : Bytes) → (max : ℕ) → (retry_deferred : Bool) → Action
  defer : (id oid : ℕ) → (reason : Bytes) → Action
  resume : (id : ℕ) → (reason : Bytes) → Action

-- `printSubtask`: the counts are read.
print_subtask : {W : Type 0} → Subtask → Command W (Unit {0})
print_subtask s = do shown ← in_database (query (sub_counts s.id)); pure tt

-- `ParseCapacity` and its error.
capacity_of : {W : Type 0} → Option ℕ → Command W ℕ
capacity_of none = throw (message "invalid capacity")
capacity_of (some n) = pure n

-- The task is read again and shown, behind a change that succeeded.
show_again : {W : Type 0} → Subtask → Command W (Unit {0}) → Command W (Unit {0})
unfolding print_subtask
show_again s change = do change; now ← in_database (subtask s.id); print_subtask now

module _ {W : Type 0} (digest_rows : List ScanRow → ℕ) where
  act : Action → Command W (Unit {0})
  unfolding print_subtask capacity_of show_again
  act (create size max retry_deferred) = do
    n ← capacity_of (parse_capacity size)
    s ← in_database (create_subtask digest_rows n max retry_deferred)
    with_task_error (print_subtask s)
  act (defer id oid reason) = do
    s ← in_database (resolve_admin_subtask id)
    with_task_error (
        show_again s (do
          refuse_if (oid == 0) (message "--oid is required")
          in_database (defer_object s oid reason)))
  act (resume id reason) = do
    s ← in_database (resolve_admin_subtask id)
    with_task_error (show_again s (in_database (resume_safety s reason)))

  -- `runTask`
  unfoldable pub run_task : Action → Result Binding → Command W (Unit {0})
  unfolding act
  run_task action binding = do
    b ← given binding
    in_database (check_binding b)
    in_database require_complete_scan
    act action
