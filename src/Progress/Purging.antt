-- ===== src/Progress/Purging.antt =====
-- The operations of a deletion run on the progress database: `ClaimSubtask`, `BeginPurge`,
-- `CompletePurge`, `Hold`, `DoneSubtask` and `CheckMember` of internal/progress/subtask.go, and `Fail`
-- of progress.go.
use limewire_purge.Prelude.{
  ℕ, ◌+◌, Bool, true, not, ◌&&◌, ◌||◌, List, [], ◌∷◌, Option, none, some, Bytes, ltb, ◌==◌,
  if◌then◌else◌, take,
}
use limewire_purge.Errors.{message, no_rows, ok}
use limewire_purge.Purge.SizeCheck.{Role}
use limewire_purge.Progress.Tables.{
  ScanRow, ProgressRow, ProgressStatus, Subtask, Phase, TaskObject, VerifyStatus, Tables,
}
use limewire_purge.Progress.Session.{
  M, ◌>>=◌, ◌>>◌, refuse_if, query, exec, transaction, check_lock,
}
use limewire_purge.Progress.Rows.{
  SubCounts, sub_counts, update_tasks, select, exists, sort_by, update, processed, active_member,
  member, is_residue,
}
use limewire_purge.Progress.Resolve.{subtask, is_held, require_no_safety_hold}
use limewire_purge.Progress.Create.{check_manifest, set_failed}

-- The objects that a run still has to delete: never processed, failed, or found to have residue.
unfoldable pub wants_purge : ℕ → Tables → ScanRow → Bool
unfolding exists
wants_purge id t s =
    exists
      (λ o.
        active_member id s.object_id o
        && (not (processed t s.object_id) || is_residue o.verify_status))
      t.objects

unfoldable pub claim_subtask : ℕ → ℕ → ℕ → M (List ScanRow)
unfolding wants_purge select sort_by
claim_subtask id after limit = query λ t. take limit (
    sort_by (λ s. s.object_id)
      (select (λ s. ltb after s.object_id && wants_purge id t s) t.scan_objects))

-- p.lock.id
unfoldable pub lock_id : M (Option ℕ)
lock_id db = (ok (elim db.lock [ none ↦ none | some l ↦ some l.id ]), db)

-- Objects with residue are to be deleted again.
unfoldable pub requeue_residue : ℕ → Tables → Tables
unfolding exists
requeue_residue id t = record t {
  progress =
      update
        (λ p. exists (λ o. active_member id p.object_id o && is_residue o.verify_status) t.objects)
        set_failed t.progress;
}

-- done_at IS NULL AND hold_reason=''
abbrev pub is_open : ℕ → Subtask → Bool
is_open id s = s.id == id && (not s.done_at && not (is_held s))

unfoldable pub start_purge : Option ℕ → Subtask → Subtask
start_purge connection s = record s {
  phase = Phase.purge;
  generation = s.generation + 1;
  connection = connection;
}

module _ (digest_rows : List ScanRow → ℕ) where
  unfoldable pub begin_purge : Subtask → M (Unit {0})
  unfolding update_tasks requeue_residue start_purge
  begin_purge s = do
    check_lock
    refuse_if (s.done_at || is_held s) (message "task is completed or on SAFETY_HOLD")
    require_no_safety_hold
    check_manifest digest_rows s
    connection ← lock_id
    transaction (do
      exec (requeue_residue s.id)
      exec (update_tasks (is_open s.id) (start_purge connection)))

unfoldable pub end_purge : Subtask → Subtask
end_purge s = record s { phase = Phase.purge; purged_at = true }

unfoldable pub is_incomplete : SubCounts → Subtask → Bool
is_incomplete c s =
    c.total == 0 || (not (c.total == s.object_count) || ltb 0 (c.pending + c.failed))

-- `CompletePurge`: the milestone is kept on later repairs, and the guards are read back.
unfoldable pub complete_purge : Subtask → M (Unit {0})
unfolding update_tasks end_purge is_incomplete
complete_purge s = do
  check_lock
  c ← query (sub_counts s.id)
  refuse_if (is_incomplete c s) (message "deletion incomplete")
  exec (update_tasks (is_open s.id) end_purge)
  now ← subtask s.id
  refuse_if (not now.purged_at || (is_held now || now.done_at))
      (message "task could not be marked deletion-complete")

unfoldable pub set_hold : Bytes → Option ℕ → Subtask → Subtask
set_hold reason oid s = record s { hold_reason = take 3900 reason; hold_oid = oid }

-- `Hold`: the reason is cut to 3900 characters.
unfoldable pub hold : ℕ → Option ℕ → Bytes → M (Unit {0})
unfolding update_tasks set_hold
hold id oid reason = do
  check_lock
  exec (update_tasks (λ s. s.id == id && not s.done_at) (set_hold reason oid))

-- INSERT … ON DUPLICATE KEY UPDATE: the new row, or the change of the stored one.
upsert : ProgressRow → (ProgressRow → ProgressRow) → List ProgressRow → List ProgressRow
upsert new change [] = new ∷ []
upsert new change (p ∷ rows) =
    if p.object_id == new.object_id then change p ∷ rows else p ∷ upsert new change rows

abbrev or_old {ℓ} : {A : Type ℓ} → Option A → Option A → Option A
or_old none old = old
or_old (some a) old = some a

abbrev kept_role : Role → Option Role → Option Role
kept_role Role.nothing old = old
kept_role role old = some role

unfoldable pub set_done : (oid keys bytes : ℕ) → Role → Option ℕ → Tables → Tables
unfolding upsert
set_done oid keys bytes role expected t = record t {
  progress =
      upsert
        (record {
          object_id = oid;
          status = ProgressStatus.done;
          deleted_keys = keys;
          deleted_bytes = bytes;
          role = some role;
          expected_bytes = expected;
        })
        (λ p. record p {
          status = ProgressStatus.done;
          deleted_keys = p.deleted_keys + keys;
          deleted_bytes = p.deleted_bytes + bytes;
          role = kept_role role p.role;
          expected_bytes = or_old expected p.expected_bytes;
        })
        t.progress;
}

abbrev pub unverified : TaskObject → TaskObject
unverified o = record o { verify_generation = 0; verify_status = VerifyStatus.pending }

unfoldable pub reset_verify : ℕ → ℕ → Tables → Tables
reset_verify id oid t = record t { objects = update (member id oid) unverified t.objects }

-- `SELECT 1 FROM task_objects … AND deferred=0`, scanned: no row is an error.
require_member : ℕ → ℕ → M (Unit {0})
unfolding exists
require_member id oid = do
  found ← query (λ t. exists (active_member id oid) t.objects)
  refuse_if (not found) no_rows

-- `DoneSubtask`: the result, and the end of a stale residue marker, in one transaction.
unfoldable pub done_subtask : (id oid keys bytes : ℕ) → Role → Option ℕ → M (Unit {0})
unfolding require_member set_done reset_verify
done_subtask id oid keys bytes role expected = do
  check_lock
  transaction (do
    require_member id oid
    exec (set_done oid keys bytes role expected)
    exec (reset_verify id oid))

-- `CheckMember`
unfoldable pub check_member : ℕ → ℕ → M (Unit {0})
unfolding require_member
check_member id oid = do check_lock; require_member id oid

unfoldable pub set_fail : (oid keys bytes : ℕ) → Tables → Tables
unfolding upsert
set_fail oid keys bytes t = record t {
  progress =
      upsert
        (record {
          object_id = oid;
          status = ProgressStatus.failed;
          deleted_keys = keys;
          deleted_bytes = bytes;
          role = none;
          expected_bytes = none;
        })
        (λ p. record p {
          status = ProgressStatus.failed;
          deleted_keys = p.deleted_keys + keys;
          deleted_bytes = p.deleted_bytes + bytes;
        })
        t.progress;
}

-- `Fail` of the database behind the `CheckMember` of the adapter (cmd/limewire-purge/main.go).
unfoldable pub fail_member : (id oid keys bytes : ℕ) → M (Unit {0})
unfolding check_member set_fail
fail_member id oid keys bytes = do check_member id oid; exec (set_fail oid keys bytes)
