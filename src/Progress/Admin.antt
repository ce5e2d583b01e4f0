-- ===== src/Progress/Admin.antt =====
-- What an operator decides: `DeferObject` and `ResumeSafety` of internal/progress/subtask.go, and the
-- state that `status` shows.
pub mod State
use limewire_purge.Prelude.{
  ℕ, ◌+◌, ◌≡◌, Bool, true, false, not, ◌&&◌, ◌||◌, List, [], ◌∷◌, ◌++◌, Option, none, some, Bytes,
  codes, ltb, leb, ◌==◌, if◌then◌else◌, length,
}
use limewire_purge.Errors.{Err, message, Result, ok, err}
use limewire_purge.Progress.Tables.{Subtask, TaskObject, Action, TaskEvent, Tables}
use limewire_purge.Progress.Session.{
  Db, M, ◌>>=◌, ◌>>◌, pure, throw, refuse_if, query, exec, exec_get, transaction, check_lock,
}
use limewire_purge.Progress.Rows.{
  SubCounts, sub_counts, update_tasks, count, update, has_id, active_member,
}
use limewire_purge.Progress.Resolve.{is_held}
use limewire_purge.Progress.Purging.{complete_purge}

-- strings.TrimSpace(reason) == "": ASCII white space only.
abbrev is_space : ℕ → Bool
is_space c = c == b' ' || (leb 9 c && leb c 13)

unfoldable pub is_blank : Bytes → Bool
is_blank [] = true
is_blank (c ∷ s) = is_space c && is_blank s

abbrev set_deferred : TaskObject → TaskObject
set_deferred o = record o { deferred = true }

unfoldable pub defer_member : ℕ → ℕ → Tables → Tables
defer_member id oid t = record t { objects = update (active_member id oid) set_deferred t.objects }

unfoldable pub add_event : TaskEvent → Tables → Tables
add_event e t = record t { events = t.events ++ e ∷ [] }

abbrev pub release : Subtask → Subtask
release s = record s { hold_reason = []; hold_oid = none }

unfoldable pub clear_hold : ℕ → Tables → Tables
unfolding update_tasks
clear_hold id t = update_tasks (has_id id) release t

-- The hold is about another object, or about none.
abbrev pub is_unrelated : Subtask → ℕ → Bool
is_unrelated s oid = elim s.hold_oid [ none ↦ true | some held ↦ not (held == oid) ]

-- `DeferObject`
unfoldable pub defer_object : Subtask → ℕ → Bytes → M (Unit {0})
unfolding is_blank defer_member add_event clear_hold count
defer_object s oid reason = do
  refuse_if (is_blank reason) (message "--reason is required")
  refuse_if (ltb 3900 (length reason)) (message "--reason must be at most 3900 characters")
  refuse_if s.done_at (message "cannot defer from a completed task")
  refuse_if (is_held s && is_unrelated s oid)
      (message "global/unrelated safety hold cannot be bypassed by deferring this object")
  check_lock
  transaction (do
    n ← exec_get (λ t. count (active_member s.id oid) t.objects) (defer_member s.id oid)
    refuse_if (not (n == 1)) (message "OID is not an active member of this task")
    exec (
        add_event
          (record { task_id = s.id; object_id = some oid; action = Action.defer; reason = reason }))
    (if is_held s then exec (clear_hold s.id) else pure tt))
  c ← query (sub_counts s.id)
  (if c.pending + c.failed == 0 then complete_purge s else pure tt)

-- `ResumeSafety`
unfoldable pub resume_safety : Subtask → Bytes → M (Unit {0})
unfolding is_blank add_event clear_hold
resume_safety s reason = do
  refuse_if (is_blank reason) (message "--reason is required")
  refuse_if (not (is_held s)) (message "task is not on SAFETY_HOLD")
  check_lock
  transaction (do
    exec (
        add_event (record {
          task_id = s.id;
          object_id = none;
          action = Action.resume;
          reason = reason ++ (codes "; previous hold: " ++ s.hold_reason);
        }))
    exec (clear_hold s.id))
