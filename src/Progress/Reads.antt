-- ===== src/Progress/Reads.antt =====
-- The operations of internal/progress that only read leave the tables as they are.
use limewire_purge.Prelude.{ℕ, Bool, true, false, ◌==◌, List, Option, none, some, if◌then◌else◌}
use limewire_purge.Errors.{Result, ok, err}
use limewire_purge.Progress.Tables.{ScanRow, Subtask, Tables}
use limewire_purge.Progress.Session.{M}
use limewire_purge.Progress.Session.Keeping.{Keeps, Keeps-pure, Keeps-throw, keeping}
use limewire_purge.Progress.Resolve.{
  or_throw, row, try, subtask, resolve_subtask, current_task, require_no_safety_hold,
}
use limewire_purge.Progress.Scan.{require_complete_scan}
use limewire_purge.Progress.Create.{check_manifest}
use limewire_purge.Progress.Purging.{lock_id}

module _ {κ} {I : Tables → Type κ} where
  pub Keeps-row {ℓ} : {A : Type ℓ} (o : Option A) → Keeps I (row o)
  unfolding row
  Keeps-row none = Keeps-throw _
  Keeps-row (some a) = Keeps-pure a

  pub Keeps-or_throw {ℓ} : {A : Type ℓ} (r : Result A) → Keeps I (or_throw r)
  unfolding or_throw
  Keeps-or_throw (ok a) = Keeps-pure a
  Keeps-or_throw (err e) = Keeps-throw e

  pub Keeps-try {ℓ} : {A : Type ℓ} {m : M A} → Keeps I m → Keeps I (try m)
  unfolding try
  Keeps-try km = record { run = km.run }

  pub Keeps-if {ℓ} :
      {A : Type ℓ} (b : Bool) {m k : M A} → Keeps I m → Keeps I k → Keeps I (if b then m else k)
  Keeps-if true km kk = km
  Keeps-if false km kk = kk

  pub Keeps-subtask : (id : ℕ) → Keeps I (subtask id)
  unfolding subtask
  Keeps-subtask id = search (keeping, Keeps-row)

  pub Keeps-lock_id : Keeps I lock_id
  unfolding lock_id
  Keeps-lock_id = record { run = λ db i. i }

  pub Keeps-require_no_safety_hold : Keeps I require_no_safety_hold
  unfolding require_no_safety_hold
  Keeps-require_no_safety_hold = search keeping

  pub Keeps-require_complete_scan : Keeps I require_complete_scan
  unfolding require_complete_scan
  Keeps-require_complete_scan = search keeping

  pub Keeps-check_manifest :
      (digest_rows : List ScanRow → ℕ) (s : Subtask) → Keeps I (check_manifest digest_rows s)
  unfolding check_manifest
  Keeps-check_manifest digest_rows s = search keeping

  Keeps-current_task : Keeps I current_task
  unfolding current_task
  Keeps-current_task = search (keeping, Keeps-or_throw)

  pub Keeps-resolve_subtask : (id : ℕ) → Keeps I (resolve_subtask id)
  unfolding resolve_subtask
  Keeps-resolve_subtask id = Keeps-if (id == 0) Keeps-current_task (Keeps-subtask id)

pub ruleset reading = (
  Keeps-row, Keeps-or_throw, Keeps-try, Keeps-subtask, Keeps-lock_id, Keeps-require_no_safety_hold,
  Keeps-require_complete_scan, Keeps-check_manifest, Keeps-resolve_subtask,
)
