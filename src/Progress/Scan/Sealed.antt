-- ===== src/Progress/Scan/Sealed.antt =====
-- What a successful binding and a sealed object list are (internal/progress/task.go, Bind,
-- CheckBinding, BeginScan and FinishScan).
use text.Mathlib.TextEquality.{eq_iff}
use limewire_purge.Prelude.{
  ℕ, ◌≡◌, ◌≢◌, refl, sym, ap, subst, ◌∙◌, false, not, List, [], ◌∷◌, Option, none, some, ◌==◌,
  length, arith,
}
use limewire_purge.Errors.{ok}
use limewire_purge.Progress.Tables.{Binding, Meta, ScanStatus, Tables}
use limewire_purge.Progress.Session.{Db, M, pure, throw}
use limewire_purge.Progress.Session.Success.{
  Ensures, Ensures->>=, Ensures->>, Ensures-weaken, Ensures-from, Ensures-query, Ensures-refuse_if,
  Ensures-exec, Ensures-check_lock,
}
use limewire_purge.Progress.Scan.{
  Field, diff, refuse_differences, check_row, check_binding, bind, finish_scan, begin_scan,
  set_meta, is_complete,
}

-- Every field of the binding agrees.
pub record SameBinding (b now : Binding) : Type 0 where
  pub same_chain : b.chain_id ≡ now.chain_id
  pub same_operator : b.sp_operator ≡ now.sp_operator
  pub same_storage : b.storage ≡ now.storage
  pub same_spdb : b.spdb ≡ now.spdb
  pub same_bucket : b.bucket ≡ now.bucket
  pub same_bucket_id : b.bucket_id ≡ now.bucket_id

diff_sound : (b now : Binding) → diff b now ≡ [] → SameBinding b now
unfolding diff
diff_sound b now e = ground (
  arith,
  eq_iff b.chain_id now.chain_id,
  eq_iff b.sp_operator now.sp_operator,
  eq_iff b.storage now.storage,
  eq_iff b.spdb now.spdb,
  eq_iff b.bucket now.bucket,
)

-- The row of the task is there, and it is the binding's.
pub record Bound (b : Binding) (t : Tables) : Type 0 where
  pub row : Meta
  pub stored : t.meta ≡ some row
  pub same : SameBinding row.binding b

refuse_differences-none {κ} :
    {P : Tables → Type κ} (ds : List Field)
    → Ensures P (refuse_differences ds) (λ _ t. P t × (ds ≡ []))
unfolding refuse_differences pure throw
refuse_differences-none [] = record { run = λ db p a e. (p, refl) }
refuse_differences-none (f ∷ more) = record { run = λ db p a e. cc }

check_row-Bound :
    (b : Binding) (task : Option Meta)
    → Ensures (λ t. Unit {0} × (task ≡ t.meta)) (check_row b task) (λ _ t. Bound b t)
unfolding check_row throw
check_row-Bound b none = record { run = λ db p a e. cc }
check_row-Bound b (some m) =
    Ensures-weaken _ _
      (λ _ t ((_, seen), same). record {
        row = m;
        stored = sym seen;
        same = diff_sound m.binding b same;
      })
      (refuse_differences-none (diff m.binding b))

check_binding-Ensures {κ} :
    {P : Tables → Type κ} (b : Binding) → Ensures P (check_binding b) (λ _ t. Bound b t)
unfolding check_binding
check_binding-Ensures {P = P} b =
    Ensures->>= (λ task t. P t × (task ≡ t.meta)) (λ _ t. Bound b t) _ (Ensures-query (λ t. t.meta))
      (λ task. Ensures-from (λ t (p, seen). (tt, seen)) (check_row-Bound b task))

Ensures-any {ℓ κ} : {A : Type ℓ} {P : Tables → Type κ} (m : M A) → Ensures P m (λ _ _. Unit {0})
Ensures-any m = record { run = λ db p a e. tt }

bind-Ensures : (b : Binding) → Ensures (λ _. Unit {0}) (bind b) (λ _ t. Bound b t)
unfolding bind
bind-Ensures b =
    Ensures->>= (λ _ _. Unit {0}) _ _ (Ensures-any _)
      λ task.
        Ensures->> (λ _. Unit {0}) _ _ (Ensures-any _)
          (Ensures->> (λ _. Unit {0}) _ _ (Ensures-any _) (check_binding-Ensures b))

-- A `Bind` that succeeds, whatever the server answers, leaves a database whose stored binding agrees
-- with the given one in every field, also where it was bound before.
pub bind-Bound :
    (b : Binding) (db : Db) (u : Unit {0}) → (bind b db).0 ≡ ok u → Bound b (bind b db).1.tables
bind-Bound b db u e = (bind-Ensures b).run db tt u e

-- The row of the task with a complete list of so many rows.
abbrev pub sealed_row : ℕ → Option Meta → Option Meta
sealed_row rows none = none
sealed_row rows (some m) =
    some (record m { scan_status = ScanStatus.complete; scan_rows = some rows })

-- What it takes to seal an object list.
pub record Sealed (rows : ℕ) (before after : Tables) : Type 0 where
  pub nonempty : rows ≢ 0
  pub counted : length before.scan_objects ≡ rows
  pub same_list : after.scan_objects ≡ before.scan_objects
  pub same_tasks : after.tasks ≡ before.tasks
  pub marked : after.meta ≡ sealed_row rows before.meta

abbrev seal : ℕ → Tables → Tables
seal rows = set_meta (λ m. record m { scan_status = ScanStatus.complete; scan_rows = some rows })

seal-Sealed :
    (rows : ℕ) (t : Tables)
    → (rows == 0) ≡ false
    → not (length t.scan_objects == rows) ≡ false
    → Sealed rows t (seal rows t)
unfolding set_meta
seal-Sealed rows t nonempty counted = record {
  nonempty = ground (arith, nonempty);
  counted = ground (arith, counted);
  same_list = ground arith;
  same_tasks = ground arith;
  marked = ground arith;
}

finish_scan-Ensures :
    (rows : ℕ) (before : Tables)
    → Ensures (λ t. t ≡ before) (finish_scan rows) (λ _ after. Sealed rows before after)
unfolding finish_scan
finish_scan-Ensures rows before = Ensures->> _ _ _ (Ensures-refuse_if (rows == 0) _) (
    Ensures->> _ _ _ Ensures-check_lock (
      Ensures->>= _ _ _ (Ensures-query (λ t. length t.scan_objects)) λ actual.
        Ensures->> _ _ _ (Ensures-refuse_if (not (actual == rows)) _) (
          Ensures-weaken _ _
            (λ _ t (x, (((same, nonempty), counted), enough), written).
              subst (Sealed rows before) (sym (written ∙ ap (seal rows) same)) (
                seal-Sealed rows before nonempty (
                  subst (λ n. not (n == rows) ≡ false)
                    (counted ∙ ap (λ t. length t.scan_objects) same) enough)))
            (Ensures-exec (seal rows)))))

-- A `FinishScan` that succeeds, whatever the server answers, was told of a nonempty list whose length
-- is the number of stored rows; the list and the tasks stay, and the row of the task, if there is one,
-- is complete with that number.
pub finish_scan-Sealed :
    (rows : ℕ) (db : Db) (u : Unit {0})
    → (finish_scan rows db).0 ≡ ok u
    → Sealed rows db.tables (finish_scan rows db).1.tables
finish_scan-Sealed rows db u e = (finish_scan-Ensures rows db.tables).run db refl u e

-- What it takes to list objects anew: no list is sealed, and there are no tasks.
pub record Reopened (before : Tables) : Type 0 where
  pub unsealed : is_complete before.meta ≡ false
  pub no_tasks : before.tasks ≡ []

length-zero {ℓ} : {A : Type ℓ} (xs : List A) → not (length xs == 0) ≡ false → xs ≡ []
length-zero [] e = refl
length-zero (x ∷ xs) e = absurd (ground (arith, e))

begin_scan-Ensures :
    (bsdb_count : ℕ) (before : Tables)
    → Ensures (λ t. t ≡ before) (begin_scan bsdb_count) (λ _ _. Reopened before)
unfolding begin_scan
begin_scan-Ensures bsdb_count before = Ensures->> _ _ _ Ensures-check_lock (
    Ensures->>= _ _ _ (Ensures-query (λ t. t.meta)) λ task.
      Ensures->> _ _ _ (Ensures-refuse_if (is_complete task) _) (
        Ensures->>= _ _ _ (Ensures-query (λ t. length t.tasks)) λ tasks.
          Ensures->> _ _ _ (Ensures-refuse_if (not (tasks == 0)) _) (
            Ensures-weaken _ _
              (λ _ t (x, ((((same, seen), unsealed), counted), no_task), written). record {
                unsealed =
                    subst (λ m. is_complete m ≡ false) (seen ∙ ap (λ t. t.meta) same) unsealed;
                no_tasks = length-zero before.tasks (
                    subst (λ n. not (n == 0) ≡ false) (counted ∙ ap (λ t. length t.tasks) same)
                      no_task);
              })
              (Ensures-exec _))))

-- `BeginScan` succeeds, whatever the server answers, only where no object list is sealed and no task
-- exists: a sealed list and the manifests of tasks are frozen.
pub begin_scan-Reopened :
    (bsdb_count : ℕ) (db : Db) (u : Unit {0})
    → (begin_scan bsdb_count db).0 ≡ ok u
    → Reopened db.tables
begin_scan-Reopened bsdb_count db u e = (begin_scan-Ensures bsdb_count db.tables).run db refl u e
