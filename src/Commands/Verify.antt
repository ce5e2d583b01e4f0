-- ===== src/Commands/Verify.antt =====
-- `runVerify` of cmd/limewire-purge/verify.go, behind its flags and the opening of the database. The
-- run of the checks and the writing of the report file are parameters.
pub mod Closed
use limewire_purge.Prelude.{ℕ, Bool, true, false, List, Option, none, some, if◌then◌else◌}
use limewire_purge.Errors.{Err, wrapped, no_verify_task, message, Result, ok, err}
use limewire_purge.Progress.Tables.{ScanRow, Binding, Subtask}
use limewire_purge.Progress.Session.{Db, query}
use limewire_purge.Progress.Rows.{sub_counts}
use limewire_purge.Progress.Scan.{check_binding, require_complete_scan}
use limewire_purge.Progress.Resolve.{subtask, resolve_verify_subtask}
use limewire_purge.Progress.Create.{check_manifest}
use limewire_purge.Progress.Verifying.{begin_verify, complete_verify}
use limewire_purge.Progress.Reports.{Kind, verify_report}
use limewire_purge.S3Store.{Client, ensure_versioning_disabled}
use limewire_purge.Commands.{
  Command, ◌>>=◌, ◌>>◌, pure, throw, refuse_if, refuse, given, in_database, outside,
}
use limewire_purge.Commands.Purge.{with_task_error, hold_global}

module _ {W : Type 0} (storage : Client W) (new_store : W → Option Err × W)
    (digest_rows : List ScanRow → ℕ) (run : Subtask → Db × W → Option Err × (Db × W))
    (write_report : List (ℕ × Kind) → W → Option Err × W) where
  abbrev pub run_error : Option Err × (Db × W) → Result (Unit {0}) × (Db × W)
  run_error (none, st) = (ok tt, st)
  run_error (some e, st) = (err e, st)

  -- r.Run(ctx), unless the task was verified before.
  check_unless_done : Bool → Subtask → Command W (Unit {0})
  check_unless_done true s = pure tt
  check_unless_done false s = λ st. run_error (run s st)

  complete_unless_done : Bool → Subtask → Command W (Unit {0})
  complete_unless_done true s = pure tt
  complete_unless_done false s = in_database (complete_verify s)

  -- Behind `BeginVerify`: the checks, the report, the completion, and the state that is printed.
  pub verify_task : Subtask → Command W (Unit {0})
  unfolding check_unless_done complete_unless_done
  verify_task s = do
    check_unless_done s.done_at s
    rows ← in_database (verify_report s)
    written ← outside (write_report rows)
    refuse written
    complete_unless_done s.done_at s
    now ← in_database (subtask s.id)
    shown ← in_database (query (sub_counts now.id))
    pure tt

  verify_storage : Bool → Bool → Subtask → Command W (Unit {0})
  unfolding verify_task
  verify_storage allow_versioned restart s = do
    made ← outside new_store
    refuse made
    versioned ← outside (ensure_versioning_disabled storage allow_versioned)
    refuse versioned
    begun ← in_database (begin_verify digest_rows s restart)
    verify_task begun

  check_list : Bool → Bool → Subtask → Result (Unit {0}) × (Db × W) → Result (Unit {0}) × (Db × W)
  unfolding verify_storage
  check_list allow_versioned restart s (ok u, st) = verify_storage allow_versioned restart s st
  check_list allow_versioned restart s (err e, st) = hold_global s e st

  verify_manifest : Bool → Bool → Subtask → Command W (Unit {0})
  unfolding check_list
  verify_manifest allow_versioned restart s st =
      check_list allow_versioned restart s (in_database (check_manifest digest_rows s) st)

  -- `runVerify`; `bad_settings` is the test of QPS, retries and timeout, and the text put around
  -- ErrNoVerifyTask is left out.
  unfoldable pub run_verify :
      (bad_settings allow_versioned restart : Bool) → ℕ → Result Binding → Command W (Unit {0})
  unfolding verify_manifest
  run_verify bad_settings allow_versioned restart id binding = do
    refuse_if bad_settings (message "invalid QPS/retry/timeout")
    b ← given binding
    in_database (check_binding b)
    in_database require_complete_scan
    s ← in_database (resolve_verify_subtask id)
    with_task_error (verify_manifest allow_versioned restart s)
