-- ===== src/Commands/Purge.antt =====
-- `runPurge` of cmd/limewire-purge/main.go, and `holdGlobal` and `withTaskError` of tasks.go. The run
-- itself is a parameter: any of the runs of Purge.Pool.
pub mod Chain
pub mod Steps
pub mod Guarded
use limewire_purge.Prelude.{
  ℕ, ◌+◌, ◌-◌, Bool, true, false, not, ◌&&◌, ◌||◌, List, Option, none, some, Bytes, ℤ, pos, negsuc,
  codes, bytes_eq, ltb, ◌==◌, if◌then◌else◌,
}
use limewire_purge.Errors.{Err, wrapped, message, joined, Result, ok, err}
use limewire_purge.Progress.Tables.{ScanRow, Binding, Subtask}
use limewire_purge.Progress.Session.{Db, query}
use limewire_purge.Progress.Rows.{SubCounts, sub_counts}
use limewire_purge.Progress.Scan.{check_binding, require_complete_scan}
use limewire_purge.Progress.Resolve.{resolve_purge_subtask, is_held}
use limewire_purge.Progress.Create.{check_manifest}
use limewire_purge.Progress.Purging.{begin_purge, complete_purge, hold}
use limewire_purge.S3Store.{Client, ensure_versioning_disabled}
use limewire_purge.Commands.{
  Command, ◌>>=◌, ◌>>◌, pure, throw, refuse_if, refuse, given, in_database, outside,
}

pub record Flags : Type 0 where
  pub task_id : ℕ
  pub execute : Bool
  pub dry_run : Bool
  pub chain_id : Bytes
  pub bucket_id : ℕ
  pub allow_versioned : Bool
  -- *conc <= 0 || *qps <= 0 || *maxRetry < 0 || *chainTimeout <= 0 || *s3Timeout <= 0
  pub bad_settings : Bool
  pub data_chunks : ℕ
  pub segment_size : ℕ

-- The checks of the flags against each other.
check_flags : {W : Type 0} → Flags → Command W (Unit {0})
check_flags f = do
  refuse_if (not f.execute && not f.dry_run) (message "real deletion requires --execute")
  refuse_if (f.execute && f.dry_run) (message "choose --execute or --dry-run, not both")
  refuse_if f.bad_settings (message "invalid concurrency/QPS/retry/timeout")

-- `withTaskError`
abbrev task_error {ℓ} : {A : Type ℓ} → Result A → Result A
task_error (ok a) = ok a
task_error (err e) = err (wrapped "task" e)

unfoldable pub with_task_error : {W : Type 0} → Command W (Unit {0}) → Command W (Unit {0})
with_task_error m st = let (r, st') = m st in (task_error r, st')

abbrev held_error : Err → Result (Unit {0}) → Err
held_error cause (ok u) = cause
held_error cause (err e) = joined cause e

-- `holdGlobal`; the text of the error is kept short.
unfoldable pub hold_global : {W : Type 0} → Subtask → Err → Command W (Unit {0})
hold_global s cause (db, w) =
    let (r, db') = hold s.id none (codes "held") db in (err (held_error cause r), (db', w))

abbrev pub other_bucket : Err
other_bucket = message "chain says another bucket id"

abbrev or_chain : ℕ → ℕ → ℕ
or_chain given chain = if given == 0 then chain else given

-- What the command meets outside of the progress database: the SDK's client of the storage and the
-- error of its making, and the chain client's.
pub record Outside (W : Type 0) : Type 0 where
  pub storage : Client W
  pub new_store : W → Option Err × W
  pub new_chain : W → Option Err × W
  pub head_bucket : W → Result ℕ × W
  -- the data chunks and the segment size, both 0 on an error
  pub redundancy_params : W → (ℕ × ℕ) × W

module _ {W : Type 0} (O : Outside W) (digest_rows : List ScanRow → ℕ)
    (run : Subtask → (data_chunks segment_size total : ℕ) → Db × W → Option Err × (Db × W)) where
  -- Behind `Run`: the objects left, and the milestone.
  finish_task : Bool → Subtask → Command W (Unit {0})
  finish_task true task = pure tt
  finish_task false task = do
    left ← in_database (query (sub_counts task.id))
    refuse_if (ltb 0 (left.pending + left.failed)) (message "rerun purge")
    in_database (complete_purge task)

  begin_task : Bool → Subtask → Command W (Unit {0})
  begin_task true task = pure tt
  begin_task false task = in_database (begin_purge digest_rows task)

  abbrev pub run_error : Option Err × (Db × W) → Result (Unit {0}) × (Db × W)
  run_error (none, st) = (ok tt, st)
  run_error (some e, st) = (err e, st)

  -- r.Run(ctx, cnt.Total-cnt.Deferred)
  start_run : Subtask → ℕ × ℕ → ℕ → Command W (Unit {0})
  start_run task (chunks, segment) total st = run_error (run task chunks segment total st)

  -- The layout for the size check: the flags', and the chain's where one is 0.
  pub read_layout : Flags → Bool → Command W (ℕ × ℕ)
  read_layout f true = do
    params ← outside O.redundancy_params
    pure (or_chain f.data_chunks params.0, or_chain f.segment_size params.1)
  read_layout f false = pure (f.data_chunks, f.segment_size)

  -- The bucket is the one of the chain.
  purge_bucket : Flags → Subtask → Command W (Unit {0})
  unfolding finish_task begin_task start_run read_layout
  purge_bucket f task = do
    params ← read_layout f (f.data_chunks == 0 || f.segment_size == 0)
    counts ← in_database (query (sub_counts task.id))
    refuse_if (counts.total == 0) (message "scan_objects is empty; run scan first")
    begin_task f.dry_run task
    start_run task params (counts.total - counts.deferred)
    finish_task f.dry_run task

  unless_other : Flags → Subtask → Bool → Command W (Unit {0})
  unfolding purge_bucket hold_global
  unless_other f task true = purge_bucket f task
  unless_other f task false = hold_global task other_bucket

  check_bucket : Flags → Subtask → Result ℕ → Command W (Unit {0})
  unfolding unless_other
  check_bucket f task (err e) = throw e
  check_bucket f task (ok id) = unless_other f task (id == f.bucket_id)

  -- The list of the task is the one that was recorded.
  purge_storage : Flags → Subtask → Command W (Unit {0})
  unfolding check_bucket
  purge_storage f task = do
    made ← outside O.new_store
    refuse made
    versioned ← outside (ensure_versioning_disabled O.storage f.allow_versioned)
    refuse versioned
    connected ← outside O.new_chain
    refuse connected
    id ← outside O.head_bucket
    check_bucket f task id

  -- `CheckManifest`, whose error holds the task.
  check_list : Flags → Subtask → Result (Unit {0}) × (Db × W) → Result (Unit {0}) × (Db × W)
  unfolding purge_storage hold_global
  check_list f task (ok u, st) = purge_storage f task st
  check_list f task (err e, st) = hold_global task e st

  purge_manifest : Flags → Subtask → Command W (Unit {0})
  unfolding check_list
  purge_manifest f task st = check_list f task (in_database (check_manifest digest_rows task) st)

  pub purge_task : Flags → Subtask → Command W (Unit {0})
  unfolding purge_manifest
  purge_task f task = do
    refuse_if (task.done_at || is_held task) (message "task is completed or on SAFETY_HOLD")
    purge_manifest f task

  -- `runPurge` behind the configuration's chain id and binding, with the database opened and locked.
  unfoldable pub run_purge : Flags → Result Bytes → Result Binding → Command W (Unit {0})
  unfolding check_flags purge_task with_task_error
  run_purge f config_chain binding = do
    check_flags f
    chain ← given config_chain
    refuse_if (not (bytes_eq f.chain_id chain))
        (message "--chain-id does not match the SP config's chain")
    b ← given binding
    in_database (check_binding b)
    in_database require_complete_scan
    task ← in_database (resolve_purge_subtask f.task_id)
    with_task_error (purge_task f task)
