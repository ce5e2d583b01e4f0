-- ===== src/Progress/Admin/State.antt =====
-- `Subtask.State` of internal/progress/subtask.go.
use limewire_purge.Prelude.{Bool, ◌||◌, ltb, if◌then◌else◌}
use limewire_purge.Progress.Tables.{Subtask, Phase}
use limewire_purge.Progress.Rows.{SubCounts}
use limewire_purge.Progress.Resolve.{is_held}

pub data State : Type 0 where
  safety_hold done_with_exceptions done ready verifying running verify_failed retry_pending : State
  awaiting_verify : State

-- Nobody works on the task.
idle : SubCounts → State
idle c =
    if ltb 0 c.residue || ltb 0 c.verify_errors
    then verify_failed
    else if ltb 0 c.pending || ltb 0 c.failed
    then retry_pending
    else awaiting_verify

unfoldable pub state : Subtask → SubCounts → Bool → State
unfolding idle
state s c locked =
    if is_held s
    then safety_hold
    else if s.done_at
    then if ltb 0 c.deferred then done_with_exceptions else done
    else elim s.phase [
      | Phase.ready ↦ ready
      | Phase.verify ↦ if locked then verifying else idle c
      | Phase.purge ↦ if locked then running else idle c
    ]
