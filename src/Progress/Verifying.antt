-- ===== src/Progress/Verifying.antt =====
-- The operations of a verification run: `BeginVerify`, `VerifyPending`, `RecordVerify` and
-- `CompleteVerify` of internal/progress/subtask.go.
pub mod Accepted
use limewire_purge.Prelude.{
  ℕ, ◌+◌, ◌≡◌, Bool, true, false, not, ◌&&◌, ◌||◌, List, [], ◌∷◌, Option, none, some, ltb, ◌==◌,
  if◌then◌else◌, take,
}
use limewire_purge.Errors.{Err, message, Result, ok, err}
use limewire_purge.Progress.Tables.{ScanRow, Subtask, Phase, TaskObject, VerifyStatus, Tables}
use limewire_purge.Progress.Session.{
  Db, M, ◌>>=◌, ◌>>◌, pure, throw, refuse_if, query, exec, check_lock,
}
use limewire_purge.Progress.Rows.{
  SubCounts, sub_counts, update_tasks, select, sort_by, update, has_id, active_member, is_pass,
}
use limewire_purge.Progress.Resolve.{subtask, is_held}
use limewire_purge.Progress.Create.{check_manifest}
use limewire_purge.Progress.Purging.{lock_id}

unfoldable pub start_verify : ℕ → Option ℕ → Subtask → Subtask
start_verify generation connection s = record s {
  phase = Phase.verify;
  generation = generation;
  done_at = false;
  purged_at = true;
  connection = connection;
}

module _ (digest_rows : List ScanRow → ℕ) where
  unfoldable pub begin_new : Subtask → Bool → M Subtask
  unfolding start_verify update_tasks
  begin_new s restart = do
    check_manifest digest_rows s
    c ← query (sub_counts s.id)
    refuse_if (ltb 0 (c.pending + c.failed)) (message "task has unprocessed/failed objects")
    connection ← lock_id
    exec (
        update_tasks (has_id s.id)
          (start_verify (if restart then s.generation + 1 else s.generation) connection))
    subtask s.id

  -- `BeginVerify`: a verified task is returned as it is, unless a restart is asked for.
  unfoldable pub begin_verify : Subtask → Bool → M Subtask
  unfolding begin_new
  begin_verify s restart = do
    check_lock
    refuse_if (is_held s) (message "SAFETY_HOLD: investigate and task resume first")
    (if s.done_at && not restart then pure s else begin_new s restart)

unfoldable pub wants_verify : Subtask → TaskObject → Bool
wants_verify s o =
    o.task_id == s.id
    && (not o.deferred
        && (not (o.verify_generation == s.generation) || not (is_pass o.verify_status)))

ids_of : List TaskObject → List ℕ
ids_of [] = []
ids_of (o ∷ os) = o.object_id ∷ ids_of os

-- `VerifyPending`
unfoldable pub verify_pending : Subtask → ℕ → ℕ → M (List ℕ)
unfolding wants_verify select sort_by ids_of
verify_pending s after limit = query λ t. take limit (
    ids_of (
      sort_by (λ o. o.object_id)
        (select (λ o. ltb after o.object_id && wants_verify s o) t.objects)))

unfoldable pub set_verified : ℕ → VerifyStatus → TaskObject → TaskObject
set_verified generation status o = record o {
  verify_generation = generation;
  verify_status = status;
}

abbrev is_pending : VerifyStatus → Bool
is_pending VerifyStatus.pending = true
is_pending _ = false

-- `RecordVerify`: the result is PASS, ERROR or RESIDUE.
unfoldable pub record_verify : Subtask → ℕ → VerifyStatus → M (Unit {0})
unfolding set_verified
record_verify s oid status = do
  refuse_if (is_pending status) (message "invalid verification result")
  check_lock
  exec (λ t. record t {
    objects = update (active_member s.id oid) (set_verified s.generation status) t.objects;
  })

unfoldable pub end_verify : Subtask → Subtask
end_verify s = record s { done_at = true }

abbrev in_verify : Phase → Bool
in_verify Phase.verify = true
in_verify _ = false

unfoldable pub is_unverified : SubCounts → Subtask → Bool
is_unverified c s =
    not (c.total == s.object_count)
    || (ltb 0 (c.pending + c.failed) || not (c.verified + c.deferred == c.total))

-- hold_reason='' AND phase='VERIFY' AND verify_generation=?
abbrev pub is_verifying : Subtask → Subtask → Bool
is_verifying s now =
    now.id == s.id && (not (is_held now) && (in_verify now.phase && now.generation == s.generation))

-- `CompleteVerify`
unfoldable pub complete_verify : Subtask → M (Unit {0})
unfolding end_verify update_tasks is_unverified
complete_verify s = do
  check_lock
  c ← query (sub_counts s.id)
  refuse_if (is_unverified c s) (message "verification incomplete")
  exec (update_tasks (is_verifying s) end_verify)
  now ← subtask s.id
  refuse_if (not now.done_at) (message "task could not be finalized")
