-- ===== src/Progress/Tables.antt =====
-- The tables of the progress database (internal/progress/progress.go, EnsureSchema, and task.go). A
-- timestamp column is a flag that says whether it is set; a text that is only shown is left out.
use limewire_purge.Prelude.{ℕ, Bool, List, Option, Bytes, String, ℤ}
use limewire_purge.Purge.SizeCheck.{Role}

pub record ScanRow : Type 0 where
  pub object_id : ℕ
  pub payload_size : ℕ
  pub status : String
  pub version : ℤ

pub data ProgressStatus : Type 0 where
  done failed : ProgressStatus

-- One row of purge_progress.
pub record ProgressRow : Type 0 where
  pub object_id : ℕ
  pub status : ProgressStatus
  pub deleted_keys : ℕ
  pub deleted_bytes : ℕ
  pub role : Option Role
  pub expected_bytes : Option ℕ

pub data Phase : Type 0 where
  ready purge verify : Phase

-- One row of purge_tasks, which is also the struct `Subtask`. An empty `hold_reason` means no hold.
pub record Subtask : Type 0 where
  pub id : ℕ
  pub target_bytes : ℕ
  pub object_count : ℕ
  pub logical_bytes : ℕ
  pub digest : ℕ
  pub phase : Phase
  pub hold_reason : Bytes
  pub hold_oid : Option ℕ
  pub generation : ℕ
  pub done_at : Bool
  pub purged_at : Bool
  pub connection : Option ℕ

pub data VerifyStatus : Type 0 where
  pending pass residue error : VerifyStatus

-- One row of task_objects.
pub record TaskObject : Type 0 where
  pub task_id : ℕ
  pub object_id : ℕ
  pub deferred : Bool
  pub verify_generation : ℕ
  pub verify_status : VerifyStatus

pub data Action : Type 0 where
  defer resume : Action

-- One row of task_events.
pub record TaskEvent : Type 0 where
  pub task_id : ℕ
  pub object_id : Option ℕ
  pub action : Action
  pub reason : Bytes

pub record Binding : Type 0 where
  pub chain_id : String
  pub sp_operator : String
  pub storage : String
  pub spdb : String
  pub bucket : String
  pub bucket_id : ℕ

pub data ScanStatus : Type 0 where
  not_scanned running complete : ScanStatus

-- The row of task_meta.
pub record Meta : Type 0 where
  pub binding : Binding
  pub scan_status : ScanStatus
  pub scan_bsdb_count : Option ℕ
  pub scan_rows : Option ℕ

-- `next_task` is the AUTO_INCREMENT counter of purge_tasks.
pub record Tables : Type 0 where
  pub meta : Option Meta
  pub scan_objects : List ScanRow
  pub progress : List ProgressRow
  pub tasks : List Subtask
  pub objects : List TaskObject
  pub events : List TaskEvent
  pub next_task : ℕ
