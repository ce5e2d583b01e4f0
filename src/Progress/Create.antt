-- ===== src/Progress/Create.antt =====
-- `CreateSubtask` and `CheckManifest` of internal/progress/subtask.go. The digest, SHA-256 over the
-- printed rows, is a parameter.
use limewire_purge.Prelude.{
  ℕ, ◌+◌, Bool, false, not, ◌&&◌, ◌||◌, List, [], ◌∷◌, ◌++◌, none, some, ltb, ◌==◌, if◌then◌else◌,
  length, take,
}
use limewire_purge.Errors.{message, no_rows, no_unassigned, Result, ok, err}
use limewire_purge.Progress.Tables.{
  ScanRow, ProgressRow, ProgressStatus, Subtask, Phase, TaskObject, VerifyStatus, Tables,
}
use limewire_purge.Progress.Session.{
  M, ◌>>=◌, ◌>>◌, pure, throw, refuse_if, query, exec, exec_get, transaction, check_lock,
}
use limewire_purge.Progress.Rows.{select, exists, count, sort_by, update}
use limewire_purge.Progress.Resolve.{
  try, or_throw, subtask, resolve_subtask, require_no_safety_hold, is_no_current,
}
use limewire_purge.Progress.Scan.{require_complete_scan}
use limewire_purge.Progress.Capacity.{select_capacity}

-- NOT EXISTS a row of task_objects for the object.
unfoldable pub is_unassigned : Tables → ScanRow → Bool
unfolding exists
is_unassigned t s = not (exists (λ o. o.object_id == s.object_id) t.objects)

-- A deferred membership in a task whose deletion is complete, with no newer membership.
unfoldable pub is_retryable : Tables → ScanRow → Bool
unfolding exists
is_retryable t s =
    exists
      (λ o.
        o.object_id == s.object_id
        && (o.deferred
            && (exists (λ k. k.id == o.task_id && k.purged_at) t.tasks
                && not (
                    exists (λ n. n.object_id == o.object_id && ltb o.task_id n.task_id)
                      t.objects))))
      t.objects

pub candidates : Bool → ℕ → Tables → List ScanRow
unfolding is_unassigned is_retryable select sort_by
candidates retry_deferred max t = take max (
    sort_by (λ s. s.object_id)
      (select (if retry_deferred then is_retryable t else is_unassigned t) t.scan_objects))

-- Results of objects that no task holds.
pub legacy_results : Tables → ℕ
unfolding count exists
legacy_results t = count (λ p. not (exists (λ o. o.object_id == p.object_id) t.objects)) t.progress

abbrev pub new_object : ℕ → ScanRow → TaskObject
new_object id r = record {
  task_id = id;
  object_id = r.object_id;
  deferred = false;
  verify_generation = 0;
  verify_status = VerifyStatus.pending;
}

abbrev pub set_failed : ProgressRow → ProgressRow
set_failed p = record p { status = ProgressStatus.failed }

unfoldable pub insert_object : ℕ → ScanRow → Tables → Tables
insert_object id r t = record t { objects = t.objects ++ new_object id r ∷ [] }

unfoldable pub reset_progress : ℕ → Tables → Tables
reset_progress oid t = record t {
  progress = update (λ p. p.object_id == oid) set_failed t.progress;
}

abbrev pub new_task : ℕ → ℕ → ℕ → ℕ → ℕ → Subtask
new_task id target objects bytes digest = record {
  id = id;
  target_bytes = target;
  object_count = objects;
  logical_bytes = bytes;
  digest = digest;
  phase = Phase.ready;
  hold_reason = [];
  hold_oid = none;
  generation = 1;
  done_at = false;
  purged_at = false;
  connection = none;
}

unfoldable pub insert_task : ℕ → ℕ → ℕ → ℕ → Tables → Tables
insert_task target objects bytes digest t = record t {
  tasks = t.tasks ++ new_task t.next_task target objects bytes digest ∷ [];
  next_task = t.next_task + 1;
}

-- The loop over the selected rows.
unfoldable pub insert_objects : ℕ → Bool → List ScanRow → M (Unit {0})
unfolding insert_object reset_progress
insert_objects id retry_deferred [] = pure tt
insert_objects id retry_deferred (r ∷ rows) = do
  exec (insert_object id r)
  (if retry_deferred then exec (reset_progress r.object_id) else pure tt)
  insert_objects id retry_deferred rows

module _ (digest_rows : List ScanRow → ℕ) where
  -- `CheckManifest`: the rows of the task, as they are now, against the count and the digest.
  pub manifest : ℕ → Tables → List ScanRow
  unfolding sort_by select exists
  manifest id t =
      sort_by (λ s. s.object_id)
        (select (λ s. exists (λ o. o.task_id == id && o.object_id == s.object_id) t.objects)
          t.scan_objects)

  unfoldable pub check_manifest : Subtask → M (Unit {0})
  unfolding manifest
  check_manifest s = do
    rows ← query (manifest s.id)
    refuse_if (not (length rows == s.object_count) || not (digest_rows rows == s.digest))
        (message "subtask manifest changed")

  unfoldable pub insert_batch : ℕ → Bool → List ScanRow × ℕ → M ℕ
  unfolding insert_task insert_objects
  insert_batch target retry_deferred (selected, bytes) = do
    refuse_if (length selected == 0) no_unassigned
    id ←
        exec_get (λ t. t.next_task)
          (insert_task target (length selected) bytes (digest_rows selected))
    insert_objects id retry_deferred selected
    check_lock
    pure id

  -- The body of the transaction, behind SELECT … FOR UPDATE of the row of task_meta.
  unfoldable pub allocate : ℕ → ℕ → Bool → M ℕ
  unfolding candidates insert_batch
  allocate target max retry_deferred = do
    meta ← query (λ t. t.meta)
    elim meta [ none ↦ throw no_rows | some m ↦ pure (tt {0}) ]
    rows ← query (candidates retry_deferred max)
    batch ← or_throw (select_capacity rows target max)
    insert_batch target retry_deferred batch

  unfoldable pub create_new : ℕ → ℕ → Bool → M Subtask
  unfolding legacy_results allocate subtask
  create_new target max retry_deferred = do
    legacy ← query legacy_results
    refuse_if (ltb 0 legacy) (message "unassigned legacy purge results")
    id ← transaction (allocate target max retry_deferred)
    subtask id

  -- A current task is returned as it is; only its absence lets a new one be made.
  unfoldable pub unless_current : ℕ → ℕ → Bool → Result Subtask → M Subtask
  unfolding create_new
  unless_current target max retry_deferred (ok s) = pure s
  unless_current target max retry_deferred (err e) =
      if is_no_current e then create_new target max retry_deferred else throw e

  -- `CreateSubtask`
  unfoldable pub create_subtask : ℕ → ℕ → Bool → M Subtask
  unfolding unless_current
  create_subtask target max retry_deferred = do
    check_lock
    refuse_if (target == 0 || (max == 0 || ltb 100000 max))
        (message "target or max-objects out of range")
    require_complete_scan
    require_no_safety_hold
    current ← try (resolve_subtask 0)
    unless_current target max retry_deferred current
