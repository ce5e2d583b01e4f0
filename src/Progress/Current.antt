-- ===== src/Progress/Current.antt =====
-- At most one task at a time awaits its deletion (internal/progress/subtask.go): the reason why
-- `selectCurrent` need not choose.
pub mod Create
pub mod Reached
use limewire_purge.Prelude.{
  ℕ, suc, ◌+◌, ◌≤◌, ◌≡◌, refl, Bool, true, false, List, [], ◌∷◌, Option, none, some, Bytes,
  Bool-cases, inl, inr, arith, if◌then◌else◌,
}
use limewire_purge.Purge.SizeCheck.{Role}
use limewire_purge.Progress.Tables.{ScanRow, Subtask, TaskEvent, Tables, VerifyStatus}
use limewire_purge.Progress.Session.{Db, M}
use limewire_purge.Progress.Current.Create.{OneCurrent, create_subtask-OneCurrent}
use limewire_purge.Progress.Session.Keeping.{
  Keeps, Keeps->>=, Keeps->>, Keeps-exec, Keeps-exec_get, keeping,
}
use limewire_purge.Progress.Rows.{count, update, update_tasks, is_current, has_id}
use limewire_purge.Progress.Resolve.{
  try, or_throw, subtask, resolve_subtask, require_no_safety_hold, is_no_current, current_tasks,
}
use limewire_purge.Progress.Create.{check_manifest}
use limewire_purge.Progress.Reads.{reading, Keeps-if}
use limewire_purge.Progress.Create.{create_subtask}
use limewire_purge.Progress.Verifying.{
  start_verify, begin_new, begin_verify, end_verify, complete_verify, record_verify,
}
use limewire_purge.Progress.Admin.{
  defer_member, add_event, clear_hold, release, defer_object, resume_safety,
}
use limewire_purge.Progress.Purging.{
  requeue_residue, start_purge, end_purge, begin_purge, complete_purge, hold, done_subtask,
  check_member, fail_member,
}

count-update-le {ℓ} :
    {A : Type ℓ} (p q : A → Bool) (f : A → A) (xs : List A)
    → ((x : A) → p (f x) ≡ true → p x ≡ true)
    → count p (update q f xs) ≤ count p xs
unfolding count
count-update-le p q f [] h = omega arith
count-update-le p q f (x ∷ xs) h = ground (arith, count-update-le p q f xs h, h x)

update_tasks-OneCurrent :
    (q : Subtask → Bool) (f : Subtask → Subtask)
    → ((s : Subtask) → is_current (f s) ≡ true → is_current s ≡ true)
    → (t : Tables) → OneCurrent t
    → OneCurrent (update_tasks q f t)
unfolding update_tasks
update_tasks-OneCurrent q f h t one = omega (arith, count-update-le is_current q f t.tasks h)

pub hold-OneCurrent :
    (id : ℕ) (oid : Option ℕ) (reason : Bytes) → Keeps OneCurrent (hold id oid reason)
unfolding hold
hold-OneCurrent id oid reason = search (keeping, Keeps-exec, update_tasks-OneCurrent)

requeue_residue-OneCurrent :
    (id : ℕ) (t : Tables) → OneCurrent t → OneCurrent (requeue_residue id t)
unfolding requeue_residue
requeue_residue-OneCurrent id t one = one

start_purge-OneCurrent :
    (connection : Option ℕ) (s : Subtask)
    → is_current (start_purge connection s) ≡ true
    → is_current s ≡ true
unfolding start_purge
start_purge-OneCurrent connection s h = h

end_purge-OneCurrent : (s : Subtask) → is_current (end_purge s) ≡ true → is_current s ≡ true
unfolding end_purge
end_purge-OneCurrent s h = ground (arith, h)

pub begin_purge-OneCurrent :
    (digest_rows : List ScanRow → ℕ) (s : Subtask) → Keeps OneCurrent (begin_purge digest_rows s)
unfolding begin_purge
begin_purge-OneCurrent digest_rows s =
    search
      (
        keeping, reading, Keeps-exec, update_tasks-OneCurrent, start_purge-OneCurrent,
        requeue_residue-OneCurrent,
      )
      depth 12

pub complete_purge-OneCurrent : (s : Subtask) → Keeps OneCurrent (complete_purge s)
unfolding complete_purge
complete_purge-OneCurrent s =
    search (keeping, reading, Keeps-exec, update_tasks-OneCurrent, end_purge-OneCurrent) depth 12

pub done_subtask-OneCurrent :
    (id oid keys bytes : ℕ) (role : Role) (expected : Option ℕ)
    → Keeps OneCurrent (done_subtask id oid keys bytes role expected)
unfolding done_subtask
done_subtask-OneCurrent id oid keys bytes role expected = search (keeping, Keeps-exec) depth 12

pub fail_member-OneCurrent :
    (id oid keys bytes : ℕ) → Keeps OneCurrent (fail_member id oid keys bytes)
unfolding fail_member check_member
fail_member-OneCurrent id oid keys bytes = search (keeping, Keeps-exec) depth 12

start_verify-OneCurrent :
    (generation : ℕ) (connection : Option ℕ) (s : Subtask)
    → is_current (start_verify generation connection s) ≡ true
    → is_current s ≡ true
unfolding start_verify
start_verify-OneCurrent generation connection s h = absurd (ground (arith, h))

begin_new-OneCurrent :
    (digest_rows : List ScanRow → ℕ) (s : Subtask) (restart : Bool)
    → Keeps OneCurrent (begin_new digest_rows s restart)
unfolding begin_new
begin_new-OneCurrent digest_rows s restart =
    search (keeping, reading, Keeps-exec, update_tasks-OneCurrent, start_verify-OneCurrent) depth 12

pub begin_verify-OneCurrent :
    (digest_rows : List ScanRow → ℕ) (s : Subtask) (restart : Bool)
    → Keeps OneCurrent (begin_verify digest_rows s restart)
unfolding begin_verify
begin_verify-OneCurrent digest_rows s restart =
    search (keeping, Keeps-if, begin_new-OneCurrent) depth 12

pub record_verify-OneCurrent :
    (s : Subtask) (oid : ℕ) (status : VerifyStatus) → Keeps OneCurrent (record_verify s oid status)
unfolding record_verify
record_verify-OneCurrent s oid status = search (keeping, Keeps-exec) depth 12

end_verify-OneCurrent : (s : Subtask) → is_current (end_verify s) ≡ true → is_current s ≡ true
unfolding end_verify
end_verify-OneCurrent s h = absurd (ground (arith, h))

pub complete_verify-OneCurrent : (s : Subtask) → Keeps OneCurrent (complete_verify s)
unfolding complete_verify
complete_verify-OneCurrent s =
    search (keeping, reading, Keeps-exec, update_tasks-OneCurrent, end_verify-OneCurrent) depth 12

clear_hold-OneCurrent : (id : ℕ) (t : Tables) → OneCurrent t → OneCurrent (clear_hold id t)
unfolding clear_hold
clear_hold-OneCurrent id t one = update_tasks-OneCurrent (has_id id) release (λ s h. h) t one

add_event-OneCurrent : (e : TaskEvent) (t : Tables) → OneCurrent t → OneCurrent (add_event e t)
unfolding add_event
add_event-OneCurrent e t one = one

defer_member-OneCurrent :
    (id oid : ℕ) (t : Tables) → OneCurrent t → OneCurrent (defer_member id oid t)
unfolding defer_member
defer_member-OneCurrent id oid t one = one

pub defer_object-OneCurrent :
    (s : Subtask) (oid : ℕ) (reason : Bytes) → Keeps OneCurrent (defer_object s oid reason)
unfolding defer_object
defer_object-OneCurrent s oid reason =
    search
      (
        keeping, Keeps-if, Keeps-exec, Keeps-exec_get, clear_hold-OneCurrent, add_event-OneCurrent,
        defer_member-OneCurrent, complete_purge-OneCurrent,
      )
      depth 14

pub resume_safety-OneCurrent :
    (s : Subtask) (reason : Bytes) → Keeps OneCurrent (resume_safety s reason)
unfolding resume_safety
resume_safety-OneCurrent s reason =
    search (keeping, Keeps-exec, clear_hold-OneCurrent, add_event-OneCurrent) depth 14
