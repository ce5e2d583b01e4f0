-- ===== src/Commands/Verify/Closed.antt =====
-- A verification that succeeds has closed its task (cmd/limewire-purge/verify.go, runVerify).
use limewire_purge.Prelude.{ℕ, ◌≡◌, refl, ◌⊎◌, inl, inr, Bool, true, false, List, Option}
use limewire_purge.Errors.{Err, ok}
use limewire_purge.Progress.Tables.{ScanRow, Subtask}
use limewire_purge.Progress.Session.{Db}
use limewire_purge.Progress.Reports.{Kind}
use limewire_purge.Progress.Verifying.{complete_verify}
use limewire_purge.S3Store.{Client}
use limewire_purge.Commands.Inversion.{halves, then_halves, in_database_sound}
use limewire_purge.Commands.Verify.{complete_unless_done, verify_task}

module _ {W : Type 0} (storage : Client W) (new_store : W → Option Err × W)
    (digest_rows : List ScanRow → ℕ) (run : Subtask → Db × W → Option Err × (Db × W))
    (write_report : List (ℕ × Kind) → W → Option Err × W) where
  complete_unless_done_sound :
      (done : Bool) (s : Subtask) (st : Db × W) (u : Unit {0})
      → (complete_unless_done storage new_store digest_rows run write_report done s st).0 ≡ ok u
      → (done ≡ true) ⊎ ((db : Db) × ((complete_verify s db).0 ≡ ok u))
  unfolding complete_unless_done
  complete_unless_done_sound true s st u e = inl refl
  complete_unless_done_sound false s st u e =
      inr (st.0, (in_database_sound (complete_verify s) st u e).0)

  -- Behind `BeginVerify`, the command succeeds only where the task was verified before, or its
  -- completion succeeds.
  pub verify_task-completes :
      (s : Subtask) (st : Db × W) (u : Unit {0})
      → (verify_task storage new_store digest_rows run write_report s st).0 ≡ ok u
      → (s.done_at ≡ true) ⊎ ((db : Db) × ((complete_verify s db).0 ≡ ok tt))
  unfolding verify_task
  verify_task-completes s st u e =
      let first = then_halves _ _ st u e in
      let rows = halves _ _ _ u first.second in
      let written = halves _ _ _ u rows.second in
      let clean = then_halves _ _ _ u written.second in
      let last = then_halves _ _ _ u clean.second in
      complete_unless_done_sound s.done_at s _ tt last.first
