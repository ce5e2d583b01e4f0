-- ===== src/Commands/Purge/Chain.antt =====
-- The calls behind which `runPurge` of cmd/limewire-purge/main.go starts a run, as a chain of states:
-- each call is made in the state that the one before it left.
use limewire_purge.Prelude.{ℕ, ◌≡◌, ◌⊎◌, true, false, ◌||◌, List, Option, none, Bytes, ◌==◌}
use limewire_purge.Errors.{Err, Result, ok}
use limewire_purge.Progress.Tables.{ScanRow, Binding, Subtask}
use limewire_purge.Progress.Session.{Db, query}
use limewire_purge.Progress.Rows.{SubCounts, sub_counts}
use limewire_purge.Progress.Scan.{check_binding, require_complete_scan}
use limewire_purge.Progress.Resolve.{resolve_purge_subtask, is_held}
use limewire_purge.Progress.Create.{check_manifest}
use limewire_purge.Progress.Purging.{begin_purge}
use limewire_purge.S3Store.{ensure_versioning_disabled}
use limewire_purge.Commands.{in_database, outside}
use limewire_purge.Commands.Purge.{Flags, Outside, read_layout}

module _ {W : Type 0} (O : Outside W) (digest_rows : List ScanRow → ℕ)
    (run : Subtask → (data_chunks segment_size total : ℕ) → Db × W → Option Err × (Db × W))
    (f : Flags) (task : Subtask) where
  -- `BeginPurge` has succeeded, or the run is a preview and nothing was called.
  abbrev pub Begun : (st at : Db × W) → Type 0
  Begun st at =
      ((f.dry_run ≡ true) × (at ≡ st))
      ⊎ ((f.dry_run ≡ false) × (in_database (begin_purge digest_rows task) st ≡ (ok tt, at)))

  -- The layout was read, the task counted, and found not to be empty.
  pub record Counted (st at : Db × W) : Type 0 where
    pub params : ℕ × ℕ
    pub laid_out : Db × W
    pub layout :
        read_layout O digest_rows run f (f.data_chunks == 0 || f.segment_size == 0) st
        ≡ (ok params, laid_out)
    pub counts : SubCounts
    pub counted : Db × W
    pub count : in_database (query (sub_counts task.id)) laid_out ≡ (ok counts, counted)
    pub not_empty : (counts.total == 0) ≡ false
    pub begun : Begun counted at

  -- The bucket is not versioned, unless that is allowed, and the chain gives it the expected id.
  pub record Prepared (st at : Db × W) : Type 0 where
    pub stored : Db × W
    pub new_store : outside O.new_store st ≡ (ok none, stored)
    pub unversioned : Db × W
    pub versioning :
        outside (ensure_versioning_disabled O.storage f.allow_versioned) stored
        ≡ (ok none, unversioned)
    pub connected : Db × W
    pub new_chain : outside O.new_chain unversioned ≡ (ok none, connected)
    pub known : Db × W
    pub same_bucket : outside O.head_bucket connected ≡ (ok (ok f.bucket_id), known)
    pub counted : Counted known at

  -- The list of the task is the recorded one.
  pub record Listed (st at : Db × W) : Type 0 where
    pub listed : Db × W
    pub same_list : in_database (check_manifest digest_rows task) st ≡ (ok tt, listed)
    pub prepared : Prepared listed at

  -- From the command's start to the state in which the run of the task starts.
  pub record Guarded (config_chain : Result Bytes) (binding : Result Binding) (start at : Db × W)
      : Type 0 where
    pub confirmed : (f.execute ≡ true) ⊎ (f.dry_run ≡ true)
    pub same_chain : config_chain ≡ ok f.chain_id
    pub bound_to : Binding
    pub configured : binding ≡ ok bound_to
    pub bound : Db × W
    pub same_binding : in_database (check_binding bound_to) start ≡ (ok tt, bound)
    pub complete : Db × W
    pub complete_scan : in_database require_complete_scan bound ≡ (ok tt, complete)
    pub resolved : Db × W
    pub task_found : in_database (resolve_purge_subtask f.task_id) complete ≡ (ok task, resolved)
    pub open_task : (task.done_at || is_held task) ≡ false
    pub list_checked : Listed resolved at
