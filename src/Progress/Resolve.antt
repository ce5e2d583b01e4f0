-- ===== src/Progress/Resolve.antt =====
-- Which task a command works on: `Subtask`, `ResolveSubtask` and its kin, `selectCurrent` and
-- `RequireNoSafetyHold` of internal/progress/subtask.go.
use limewire_purge.Prelude.{
  ℕ, Bool, true, false, not, ◌&&◌, List, [], ◌∷◌, Option, none, some, ◌==◌, take, if◌then◌else◌,
}
use limewire_purge.Errors.{Err, no_rows, no_current_task, no_verify_task, message, Result, ok, err}
use limewire_purge.Progress.Tables.{Subtask, Tables}
use limewire_purge.Progress.Session.{M, ◌>>=◌, ◌>>◌, pure, throw, refuse_if, query}
use limewire_purge.Progress.Rows.{select, sort_by, find, exists, has_id, is_current, is_empty}

unfoldable pub or_throw {ℓ} : {A : Type ℓ} → Result A → M A
unfolding pure throw
or_throw (ok a) = pure a
or_throw (err e) = throw e

-- row.Scan: a missing row is sql.ErrNoRows.
unfoldable pub row {ℓ} : {A : Type ℓ} → Option A → M A
unfolding pure throw
row (some a) = pure a
row none = throw no_rows

-- A call whose error the caller looks at.
unfoldable pub try {ℓ} : {A : Type ℓ} → M A → M (Result A)
try m db = let (r, db') = m db in (ok r, db')

-- `Subtask`
unfoldable pub subtask : ℕ → M Subtask
unfolding row
subtask id = do s ← query (λ t. find (has_id id) t.tasks); row s

-- `selectCurrent`; an expected id of 0 is no expectation.
unfoldable pub select_current : List Subtask → ℕ → Result Subtask
select_current [] expected = err no_current_task
select_current (s ∷ t ∷ found) expected = err (message "multiple unfinished subtasks")
select_current (s ∷ []) expected =
    if not (expected == 0) && not (expected == s.id)
    then err (message "--task-id does not match current task")
    else ok s

abbrev pub current_tasks : Tables → List Subtask
current_tasks t = take 2 (sort_by (λ s. s.id) (select is_current t.tasks))

unfoldable pub current_task : M Subtask
unfolding or_throw select_current select sort_by
current_task = do found ← query current_tasks; or_throw (select_current found 0)

-- `ResolveSubtask`
unfoldable pub resolve_subtask : ℕ → M Subtask
unfolding subtask current_task
resolve_subtask id = if id == 0 then current_task else subtask id

-- `ResolveCurrentSubtask`
unfoldable pub resolve_current_subtask : ℕ → M Subtask
unfolding resolve_subtask
resolve_current_subtask expected = do
  s ← resolve_subtask 0
  or_throw (select_current (s ∷ []) expected)

abbrev pub is_held : Subtask → Bool
is_held s = not (is_empty s.hold_reason)

-- `RequireNoSafetyHold`
unfoldable pub require_no_safety_hold : M (Unit {0})
unfolding exists
require_no_safety_hold = do
  held ← query (λ t. exists is_held t.tasks)
  refuse_if held (message "SAFETY_HOLD on a task")

explicit_purge_task : ℕ → Subtask → M Subtask
unfolding resolve_current_subtask
explicit_purge_task id s =
    if s.done_at
    then throw (message "task already verified")
    else if s.purged_at
    then pure s
    else resolve_current_subtask id

-- `ResolvePurgeSubtask`
unfoldable pub resolve_purge_subtask : ℕ → M Subtask
unfolding require_no_safety_hold explicit_purge_task subtask
resolve_purge_subtask id = do
  require_no_safety_hold
  (if id == 0 then resolve_current_subtask id else (do s ← subtask id; explicit_purge_task id s))

abbrev awaits_verify : Subtask → Bool
awaits_verify s = not s.done_at && s.purged_at

-- `ResolveVerifySubtask`: the oldest task that is deletion-complete and not verified.
unfoldable pub resolve_verify_subtask : ℕ → M Subtask
unfolding subtask
resolve_verify_subtask id =
    if id == 0
    then (do
      s ← query (λ t. find awaits_verify (sort_by (λ s. s.id) t.tasks))
      elim s [ none ↦ throw no_verify_task | some s ↦ pure s ])
    else subtask id

abbrev pub is_no_current : Err → Bool
is_no_current no_current_task = true
is_no_current _ = false

after_current : Result Subtask → M Subtask
unfolding resolve_verify_subtask
after_current (ok s) = pure s
after_current (err e) = if is_no_current e then resolve_verify_subtask 0 else throw e

after_held : Option Subtask → M Subtask
unfolding after_current resolve_current_subtask
after_held (some s) = pure s
after_held none = do r ← try (resolve_current_subtask 0); after_current r

-- `ResolveAdminSubtask`: a held task, then the current one, then the oldest one to verify.
unfoldable pub resolve_admin_subtask : ℕ → M Subtask
unfolding after_held subtask
resolve_admin_subtask id =
    if id == 0
    then (do
      held ← query (λ t. find (λ s. not s.done_at && is_held s) (sort_by (λ s. s.id) t.tasks))
      after_held held)
    else subtask id
