-- ===== src/Tests/Database.antt =====
-- Small progress databases, and operations on them (internal/progress).
use limewire_purge.Prelude.{ℕ, ◌≡◌, refl, true, false, List, [], ◌∷◌, none, some, codes, pos}
use limewire_purge.Errors.{ok}
use limewire_purge.Progress.Tables.{
  ScanRow, ProgressStatus, Subtask, Phase, VerifyStatus, Binding, ScanStatus, Tables,
}
use limewire_purge.Progress.Session.{
  Answer, fine, reply_lost, Db, check_lock, query, refuse_if, exec, exec_get, pure, throw, ◌>>=◌,
  ◌>>◌,
}
use limewire_purge.Progress.Rows.{
  exists, sub_counts, counts_for, counts_at, select, count, total, update_tasks,
}
use limewire_purge.Progress.Resolve.{subtask, row, resolve_purge_subtask}
use limewire_purge.Progress.Create.{create_subtask}
use limewire_purge.Progress.Purging.{begin_purge}
use limewire_purge.Progress.Verifying.{complete_verify, is_unverified, end_verify}
use limewire_purge.Progress.Verifying.Accepted.{Completed, complete_verify-Completed}
use limewire_purge.Progress.Scan.{
  bind, refuse_adoption, insert_meta, check_binding, check_row, refuse_differences, diff,
  finish_scan, begin_scan, set_meta,
}
use limewire_purge.Progress.Scan.Sealed.{
  Bound, Sealed, Reopened, bind-Bound, finish_scan-Sealed, begin_scan-Reopened,
}
use limewire_purge.Progress.Held.{
  Refused, begin_purge-Refused, create_subtask-Refused, resolve_purge_subtask-Refused,
}
use limewire_purge.Progress.Current.Create.{OneCurrent}
use limewire_purge.Progress.Current.Reached.{
  create, begin, perform, no_tasks, performed, Reached-OneCurrent,
}

abbrev digest : List ScanRow → ℕ
digest [] = 0
digest (r ∷ rows) = 1

abbrev verifying : Subtask
verifying = record {
  id = 1;
  target_bytes = 100;
  object_count = 1;
  logical_bytes = 40;
  digest = 1;
  phase = Phase.verify;
  hold_reason = [];
  hold_oid = none;
  generation = 2;
  done_at = false;
  purged_at = true;
  connection = none;
}

abbrev held_task : Subtask
held_task = record verifying { hold_reason = codes "identity" }

abbrev tables_of : List Subtask → Tables
tables_of tasks = record {
  meta = some (record {
    binding = record {
      chain_id = "c";
      sp_operator = "o";
      storage = "s";
      spdb = "d";
      bucket = "b";
      bucket_id = 1;
    };
    scan_status = ScanStatus.complete;
    scan_bsdb_count = some 1;
    scan_rows = some 1;
  });
  scan_objects =
      record { object_id = 5; payload_size = 40; status = "sealed"; version = pos 1 } ∷ [];
  progress =
      record {
        object_id = 5;
        status = ProgressStatus.done;
        deleted_keys = 1;
        deleted_bytes = 40;
        role = none;
        expected_bytes = none;
      }
      ∷ [];
  tasks = tasks;
  objects =
      record {
        task_id = 1;
        object_id = 5;
        deferred = false;
        verify_generation = 2;
        verify_status = VerifyStatus.pass;
      }
      ∷ [];
  events = [];
  next_task = 2;
}

-- A session that holds the lock.
abbrev session : Tables → List Answer → Db
session t script = record {
  tables = t;
  lock = some (record { id = 9; lost = none });
  owner = some 9;
  interrupted = false;
  script = script;
}

abbrev held_db : Db
held_db = session (tables_of (held_task ∷ [])) []

begin_purge-Refused_example : Refused held_db.tables (begin_purge digest verifying held_db)
unfolding exists
begin_purge-Refused_example = begin_purge-Refused digest verifying held_db refl

create_subtask-Refused_example : Refused held_db.tables (create_subtask digest 100 10 false held_db)
unfolding exists
create_subtask-Refused_example = create_subtask-Refused digest 100 10 false held_db refl

resolve_purge_subtask-Refused_example : Refused held_db.tables (resolve_purge_subtask 1 held_db)
unfolding exists
resolve_purge_subtask-Refused_example = resolve_purge_subtask-Refused 1 held_db refl

abbrev pub open_db : Db
open_db = session (tables_of (verifying ∷ [])) []

verified : (complete_verify verifying open_db).0 ≡ ok tt
unfolding complete_verify check_lock query refuse_if exec exec_get pure throw ◌>>=◌ ◌>>◌ subtask row
    sub_counts counts_for counts_at select count total update_tasks is_unverified end_verify
verified = refl

complete_verify-Completed_example :
    Completed verifying open_db.tables (complete_verify verifying open_db).1.tables
complete_verify-Completed_example = complete_verify-Completed verifying open_db tt verified

-- A task is made, then a commit whose reply is lost follows.
abbrev fresh_tables : Tables
fresh_tables = record (tables_of []) { objects = []; progress = [] }

abbrev after_create : Tables
after_create = perform digest (create 100 10 false) (session fresh_tables [])

abbrev after_begin : Tables
after_begin =
    perform digest (begin verifying)
      (session after_create (fine ∷ fine ∷ fine ∷ fine ∷ reply_lost ∷ []))

Reached-OneCurrent_example : OneCurrent after_begin
Reached-OneCurrent_example = Reached-OneCurrent digest after_begin (
    performed (session after_create (fine ∷ fine ∷ fine ∷ fine ∷ reply_lost ∷ [])) (begin verifying)
      (performed (session fresh_tables []) (create 100 10 false) (no_tasks fresh_tables refl)))

abbrev binding_of : ℕ → Binding
binding_of id = record {
  chain_id = "c";
  sp_operator = "o";
  storage = "s";
  spdb = "d";
  bucket = "b";
  bucket_id = id;
}

-- A database that nothing is bound to, and the same with its binding and one listed object.
abbrev empty_tables : Tables
empty_tables = record fresh_tables { meta = none; scan_objects = [] }

abbrev listed_tables : Tables
listed_tables = record fresh_tables {
  meta = some (record {
    binding = binding_of 1;
    scan_status = ScanStatus.running;
    scan_bsdb_count = some 1;
    scan_rows = none;
  });
}

bound : (bind (binding_of 1) (session empty_tables [])).0 ≡ ok tt
unfolding bind refuse_adoption insert_meta check_binding check_row refuse_differences diff query
    refuse_if exec exec_get pure throw ◌>>=◌ ◌>>◌
bound = refl

bind-Bound_example : Bound (binding_of 1) (bind (binding_of 1) (session empty_tables [])).1.tables
bind-Bound_example = bind-Bound (binding_of 1) (session empty_tables []) tt bound

finished : (finish_scan 1 (session listed_tables [])).0 ≡ ok tt
unfolding finish_scan check_lock query refuse_if exec exec_get pure throw ◌>>=◌ ◌>>◌ set_meta
finished = refl

finish_scan-Sealed_example :
    Sealed 1 listed_tables (finish_scan 1 (session listed_tables [])).1.tables
finish_scan-Sealed_example = finish_scan-Sealed 1 (session listed_tables []) tt finished

begun : (begin_scan 1 (session listed_tables [])).0 ≡ ok tt
unfolding begin_scan check_lock query refuse_if exec exec_get pure throw ◌>>=◌ ◌>>◌ set_meta
begun = refl

begin_scan-Reopened_example : Reopened listed_tables
begin_scan-Reopened_example = begin_scan-Reopened 1 (session listed_tables []) tt begun
