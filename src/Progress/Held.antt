-- ===== src/Progress/Held.antt =====
-- While a task is on SAFETY_HOLD no deletion is started and no task is made
-- (internal/progress/subtask.go, RequireNoSafetyHold and its callers).
use limewire_purge.Prelude.{ℕ, ◌≡◌, refl, ◌∙◌, Bool, true, false, List, arith}
use limewire_purge.Errors.{Result, ok, err}
use limewire_purge.Progress.Tables.{ScanRow, Subtask, Tables}
use limewire_purge.Progress.Session.{Db, M, ◌>>=◌, ◌>>◌, throw, refuse_if, query}
use limewire_purge.Progress.Session.Keeping.{Keeps, Keeps-refuse_if, Keeps-check_lock}
use limewire_purge.Progress.Rows.{exists}
use limewire_purge.Progress.Resolve.{is_held, require_no_safety_hold, resolve_purge_subtask}
use limewire_purge.Progress.Reads.{Keeps-require_complete_scan}
use limewire_purge.Progress.Create.{create_subtask}
use limewire_purge.Progress.Purging.{begin_purge}

abbrev pub has_hold : Tables → Bool
has_hold t = exists is_held t.tasks

abbrev pub succeeded {ℓ} : {A : Type ℓ} → Result A → Bool
succeeded (ok a) = true
succeeded (err e) = false

-- The outcome is an error, and no table is changed.
pub record Refused {ℓ} {A : Type ℓ} (before : Tables) (r : Result A × Db) : Type 0 where
  pub unchanged : r.1.tables ≡ before
  pub failed : succeeded r.0 ≡ false

-- In a held state the run is refused.
record Blocks {ℓ} {A : Type ℓ} (m : M A) : Type 0 where
  run : (db : Db) → has_hold db.tables ≡ true → Refused db.tables (m db)

-- A run that changes no table.
abbrev Reads {ℓ} : {A : Type ℓ} → M A → Type 0
Reads m = (t : Tables) → Keeps (λ t'. t' ≡ t) m

module _ {ℓ μ} {A : Type ℓ} {B : Type μ} where
  abbrev go_on : (A → M B) → Result A × Db → Result B × Db
  go_on f r = elim r.0 [ ok a ↦ f a r.1 | err e ↦ (err e, r.1) ]

  Blocks-first : {m : M A} (f : A → M B) → Blocks m → Blocks (m >>= f)
  unfolding ◌>>=◌
  Blocks-first {m = m} f blocks = record {
    run = λ db held. go db.tables (m db) (blocks.run db held);
  }
    where
      go : (t : Tables) (r : Result A × Db) → Refused t r → Refused t (go_on f r)
      go t (ok a, db') stop = absurd (ground (arith, stop.failed))
      go t (err e, db') stop = record { unchanged = stop.unchanged; failed = refl }

  Blocks-later : {m : M A} {f : A → M B} → Reads m → ((a : A) → Blocks (f a)) → Blocks (m >>= f)
  unfolding ◌>>=◌
  Blocks-later {m = m} {f = f} reads blocks = record {
    run = λ db held. go db.tables held (m db) ((reads db.tables).run db refl);
  }
    where
      go :
          (t : Tables)
          → has_hold t ≡ true
          → (r : Result A × Db) → r.1.tables ≡ t
          → Refused t (go_on f r)
      go t held (err e, db') same = record { unchanged = same; failed = refl }
      go t held (ok a, db') same =
          let stop = (blocks a).run db' (rw same held) in
          record { unchanged = stop.unchanged ∙ same; failed = stop.failed }

module _ {μ} {B : Type μ} where
  Blocks-first_of_two : {m : M (Unit {0})} (k : M B) → Blocks m → Blocks (m >> k)
  unfolding ◌>>◌
  Blocks-first_of_two k blocks = Blocks-first (λ _. k) blocks

  Blocks-second : {m : M (Unit {0})} {k : M B} → Reads m → Blocks k → Blocks (m >> k)
  unfolding ◌>>◌
  Blocks-second reads blocks = Blocks-later reads (λ _. blocks)

require_no_safety_hold-Blocks : Blocks require_no_safety_hold
unfolding require_no_safety_hold query refuse_if throw ◌>>=◌
require_no_safety_hold-Blocks = record {
  run = λ db held. record { unchanged = ground (arith, held); failed = ground (arith, held) };
}

begin_purge-Blocks :
    (digest_rows : List ScanRow → ℕ) (s : Subtask) → Blocks (begin_purge digest_rows s)
unfolding begin_purge
begin_purge-Blocks digest_rows s =
    Blocks-second (λ t. Keeps-check_lock)
      (Blocks-second (λ t. Keeps-refuse_if _ _)
        (Blocks-first_of_two _ require_no_safety_hold-Blocks))

create_subtask-Blocks :
    (digest_rows : List ScanRow → ℕ) (target max : ℕ) (retry_deferred : Bool)
    → Blocks (create_subtask digest_rows target max retry_deferred)
unfolding create_subtask
create_subtask-Blocks digest_rows target max retry_deferred =
    Blocks-second (λ t. Keeps-check_lock)
      (Blocks-second (λ t. Keeps-refuse_if _ _)
        (Blocks-second (λ t. Keeps-require_complete_scan)
          (Blocks-first_of_two _ require_no_safety_hold-Blocks)))

resolve_purge_subtask-Blocks : (id : ℕ) → Blocks (resolve_purge_subtask id)
unfolding resolve_purge_subtask
resolve_purge_subtask-Blocks id = Blocks-first_of_two _ require_no_safety_hold-Blocks

-- While any task is on SAFETY_HOLD, `BeginPurge` of every task is refused and changes no table,
-- whatever the database answers and whoever owns the lock.
pub begin_purge-Refused :
    (digest_rows : List ScanRow → ℕ) (s : Subtask) (db : Db)
    → has_hold db.tables ≡ true
    → Refused db.tables (begin_purge digest_rows s db)
begin_purge-Refused digest_rows s db held = (begin_purge-Blocks digest_rows s).run db held

-- While any task is on SAFETY_HOLD, `CreateSubtask` is refused and changes no table, with every target
-- and also where it would only return the current task.
pub create_subtask-Refused :
    (digest_rows : List ScanRow → ℕ) (target max : ℕ) (retry_deferred : Bool) (db : Db)
    → has_hold db.tables ≡ true
    → Refused db.tables (create_subtask digest_rows target max retry_deferred db)
create_subtask-Refused digest_rows target max retry_deferred db held =
    (create_subtask-Blocks digest_rows target max retry_deferred).run db held

-- While any task is on SAFETY_HOLD, no task is resolved for a deletion run, neither by its id nor as
-- the current one.
pub resolve_purge_subtask-Refused :
    (id : ℕ) (db : Db) → has_hold db.tables ≡ true → Refused db.tables (resolve_purge_subtask id db)
resolve_purge_subtask-Refused id db held = (resolve_purge_subtask-Blocks id).run db held
