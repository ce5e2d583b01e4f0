-- ===== src/Tests/Commanding.antt =====
-- The commands on a small session: one object is scanned, and a preview of its task runs.
use limewire_purge.Prelude.{
  ℕ, ◌+◌, ◌≡◌, refl, Bool, true, false, List, [], ◌∷◌, Option, none, some, pos, codes, take, ◌||◌,
  if◌then◌else◌, bytes_eq,
}
use limewire_purge.Decimal.{parse_uint}
use limewire_purge.Errors.{Err, Result, ok, err}
use limewire_purge.Progress.Tables.{ScanRow, Binding, Subtask, Tables}
use limewire_purge.Progress.Session.{
  Db, check_lock, query, refuse_if, exec, exec_get, pure, throw, ◌>>=◌, ◌>>◌,
}
use limewire_purge.Progress.Rows.{
  exists, sub_counts, count, counts_at, counts_for, insert_by, select, sort_by, total,
}
use limewire_purge.Progress.Create.{check_manifest}
use limewire_purge.Progress.Scan.{
  bind, refuse_adoption, insert_meta, check_binding, check_row, refuse_differences, diff,
  begin_scan, insert_scan, finish_scan, set_meta, require_complete_scan,
}
use limewire_purge.Progress.Counts.{counts}
use limewire_purge.Bsdb.{ObjectRow, Page, scan, scan_row, trim_prefix, read_rows, reconcile}
use limewire_purge.Bsdb.Rows.{behind, all_read}
use limewire_purge.Progress.Resolve.{
  is_held, resolve_purge_subtask, current_task, or_throw, require_no_safety_hold,
  resolve_current_subtask, resolve_subtask, row, select_current, subtask,
}
use limewire_purge.S3Store.{Client, ensure_versioning_disabled}
use limewire_purge.Commands.{refuse, given, in_database, outside}
use limewire_purge.Commands.Scan.{store_rows, run_scan}
use limewire_purge.Commands.Scan.Filled.{ScannedFor, run_scan-ScannedFor}
use limewire_purge.Commands.Purge.{Flags, Outside, run_purge, with_task_error}
use limewire_purge.Commands.Purge.Steps.{KeptByReads}
use limewire_purge.Tests.Database.{open_db}
use limewire_purge.Commands.Purge.Chain.{Guarded}
use limewire_purge.Commands.Purge.Guarded.{run_purge-keeps}

abbrev the_task : Binding
the_task = record {
  chain_id = "c";
  sp_operator = "o";
  storage = "s";
  spdb = "d";
  bucket = "b";
  bucket_id = 1;
}

abbrev no_tables : Tables
no_tables = record {
  meta = none;
  scan_objects = [];
  progress = [];
  tasks = [];
  objects = [];
  events = [];
  next_task = 1;
}

abbrev opened : Db
opened = record {
  tables = no_tables;
  lock = some (record { id = 9; lost = none });
  owner = some 9;
  interrupted = false;
  script = [];
}

abbrev one_object : List ObjectRow
one_object =
    record {
      id = 4;
      object_id = codes "42";
      payload_size = 7;
      status = "OBJECT_STATUS_SEALED";
      version = pos 0;
    }
    ∷ []

abbrev count_one : ℕ → Result ℕ × ℕ
count_one w = (ok 1, w + 1)

abbrev rows_behind : ℕ → ℕ → ℕ → Result Page × ℕ
rows_behind last batch w =
    (ok (record { rows = all_read (take batch (behind last one_object)); error = none }), w + 1)

scanned : (run_scan count_one rows_behind false 2 2 (ok the_task) (opened, 0)).0 ≡ ok tt
unfolding run_scan bind refuse_adoption insert_meta check_binding check_row refuse_differences diff
    begin_scan insert_scan finish_scan set_meta check_lock query refuse_if exec exec_get pure throw
    ◌>>=◌ ◌>>◌ exists scan scan_row trim_prefix parse_uint read_rows reconcile counts store_rows
    refuse given in_database limewire_purge.Commands.◌>>=◌ limewire_purge.Commands.◌>>◌
    limewire_purge.Commands.refuse_if
scanned = refl

run_scan-ScannedFor_example :
    ScannedFor count_one rows_behind 2 2
      (ok the_task)
      (opened, 0)
      (run_scan count_one rows_behind false 2 2 (ok the_task) (opened, 0)).1
run_scan-ScannedFor_example =
    run_scan-ScannedFor count_one rows_behind 2 2 (ok the_task) (opened, 0) tt scanned

-- The world is the number of deletions.
abbrev storage : Client ℕ
storage = record {
  list_objects_v2 = λ prefix max token w. (err (Err.message "none"), w);
  delete_objects = λ keys w. (ok (record { deleted = []; errors = [] }), w + 1);
  bucket_versioning = λ w. (ok "", w);
}

abbrev surroundings : Outside ℕ
surroundings = record {
  storage = storage;
  new_store = λ w. (none, w);
  new_chain = λ w. (none, w);
  head_bucket = λ w. (ok 1, w);
  redundancy_params = λ w. ((4, 16), w);
}

abbrev preview : Flags
preview = record {
  task_id = 1;
  execute = false;
  dry_run = true;
  chain_id = codes "c";
  bucket_id = 1;
  allow_versioned = false;
  bad_settings = false;
  data_chunks = 0;
  segment_size = 16;
}

abbrev digest_of : List ScanRow → ℕ
digest_of rows = 1

-- A run that would delete from a verified task.
abbrev careless : Subtask → (data_chunks segment_size total : ℕ) → Db × ℕ → Option Err × (Db × ℕ)
careless task chunks segment total (db, w) = (none, (db, if task.done_at then w + 1 else w))

abbrev NoneDeleted : ℕ → Type 0
NoneDeleted w = w ≡ 0

reads_only : KeptByReads surroundings NoneDeleted
unfolding ensure_versioning_disabled
reads_only = record {
  new_store = λ w i. i;
  new_chain = λ w i. i;
  versioning = λ allow w i. i;
  head_bucket = λ w i. i;
  redundancy_params = λ w i. i;
}

careless-Guarded :
    (task : Subtask) (chunks segment total : ℕ) (st : Db × ℕ)
    → Guarded surroundings digest_of careless preview task
        (ok (codes "c"))
        (ok the_task)
        (open_db, 0)
        st
    → NoneDeleted st.1
    → NoneDeleted (careless task chunks segment total st).1.1
careless-Guarded task chunks segment total (db, w) guard i =
    by_state task.done_at (is_held task) guard.open_task
  where
    by_state : (done held : Bool) → (done || held) ≡ false → NoneDeleted (if done then w + 1 else w)
    by_state false held open_still = i
    by_state true held open_still = absurd (cc)

run_purge-keeps_example :
    NoneDeleted
      (run_purge surroundings digest_of careless preview
        (ok (codes "c"))
        (ok the_task)
        (open_db, 0)).1.1
run_purge-keeps_example =
    run_purge-keeps surroundings digest_of careless NoneDeleted reads_only preview (ok (codes "c"))
      (ok the_task) (open_db, 0) careless-Guarded refl

-- On this database the checks pass, and the run starts: its error is the command's.
abbrev failing : Subtask → (data_chunks segment_size total : ℕ) → Db × ℕ → Option Err × (Db × ℕ)
failing task chunks segment total st = (some (Err.message "run"), st)

started :
    (run_purge surroundings digest_of failing preview (ok (codes "c")) (ok the_task) (open_db, 0)).0
    ≡ err (Err.wrapped "task" (Err.message "run"))
unfolding run_purge limewire_purge.Commands.◌>>◌ limewire_purge.Commands.refuse_if given bytes_eq
    in_database check_binding ◌>>=◌ query require_complete_scan refuse_if resolve_purge_subtask ◌>>◌
    check_manifest outside refuse ensure_versioning_disabled sub_counts with_task_error
    limewire_purge.Commands.pure limewire_purge.Commands.throw limewire_purge.Commands.◌>>=◌
    current_task or_throw require_no_safety_hold resolve_current_subtask resolve_subtask row
    select_current subtask count counts_at counts_for exists insert_by select sort_by total
    check_row diff refuse_differences pure throw
started = refl
