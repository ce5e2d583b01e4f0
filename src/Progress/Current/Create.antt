-- ===== src/Progress/Current/Create.antt =====
-- A new task is made only where no task is current (internal/progress/subtask.go, CreateSubtask).
use limewire_purge.Prelude.{
  ℕ, ◌+◌, ◌≤◌, ◌≡◌, refl, sym, subst, ◌∙◌, Bool, true, false, inl, inr, List, [], ◌∷◌, ◌++◌, Option,
  none, some, length, take, Bool-cases, arith,
}
use limewire_purge.Errors.{Err, no_rows, Result, ok, err}
use limewire_purge.Progress.Tables.{ScanRow, Subtask, Meta, Tables}
use limewire_purge.Progress.Session.{Db, M, ◌>>=◌, pure, throw, query}
use limewire_purge.Progress.Session.Keeping.{
  Keeps, Keeps->>, Keeps-throw, Keeps-pure, Keeps-query, Keeps-refuse_if, Keeps-exec,
  Keeps-check_lock, keeping,
}
use limewire_purge.Progress.Session.Turning.{
  Turns, Turns-from, Turns-to_Keeps, Turns->>=, Turns->>, Turns-exec_get, Turns-transaction,
  Turns-Keeps, Turns-reads,
}
use limewire_purge.Progress.Rows.{count, select, sort_by, insert_by, is_current}
use limewire_purge.Progress.Resolve.{
  try, or_throw, resolve_subtask, current_task, current_tasks, select_current, is_no_current,
}
use limewire_purge.Progress.Create.{
  create_subtask, unless_current, create_new, allocate, insert_batch, insert_objects, insert_task,
  insert_object, reset_progress, legacy_results, new_task,
}
use limewire_purge.Progress.Capacity.{select_capacity}
use limewire_purge.Progress.Reads.{
  Keeps-or_throw, Keeps-subtask, Keeps-require_no_safety_hold, Keeps-require_complete_scan,
}

abbrev pub OneCurrent : Tables → Type 0
OneCurrent t = count is_current t.tasks ≤ 1

abbrev pub NoCurrent : Tables → Type 0
NoCurrent t = count is_current t.tasks ≡ 0

NoCurrent-OneCurrent : (t : Tables) → NoCurrent t → OneCurrent t
NoCurrent-OneCurrent t none_current = omega arith

count-append {ℓ} :
    {A : Type ℓ} (p : A → Bool) (xs ys : List A) → count p (xs ++ ys) ≡ count p xs + count p ys
unfolding count
count-append p [] ys = omega arith
count-append p (x ∷ xs) ys = omega (arith, count-append p xs ys)

insert_task-OneCurrent :
    (target objects bytes digest : ℕ) (t : Tables)
    → NoCurrent t
    → OneCurrent (insert_task target objects bytes digest t)
unfolding insert_task count
insert_task-OneCurrent target objects bytes digest t h =
    omega (
      arith,
      count-append is_current t.tasks (new_task t.next_task target objects bytes digest ∷ []),
    )

insert_objects-OneCurrent :
    (id : ℕ) (retry_deferred : Bool) (rows : List ScanRow)
    → Keeps OneCurrent (insert_objects id retry_deferred rows)
unfolding insert_objects
insert_objects-OneCurrent id retry_deferred [] = Keeps-pure tt
insert_objects-OneCurrent id retry_deferred (r ∷ rows) =
    Keeps->> (Keeps-exec (insert_object id r) (unfold insert_object in λ t i. i)) (
      Keeps->>
        (elim (Bool-cases retry_deferred) [
          | inl again ↦
              rw again (Keeps-exec (reset_progress r.object_id) (unfold reset_progress in λ t i. i))
          | inr fresh ↦ rw fresh (Keeps-pure tt)
        ])
        (insert_objects-OneCurrent id retry_deferred rows))

-- The task list is empty where the first two of the sorted selection are none.
insert_by-nonempty {ℓ} : {A : Type ℓ} (f : A → ℕ) (x : A) (xs : List A) → insert_by f x xs ≡ [] → ⊥
unfolding insert_by
insert_by-nonempty f x [] e = cc
insert_by-nonempty f x (y ∷ ys) e = ground (arith, e)

take_two-nil {ℓ} : {A : Type ℓ} (xs : List A) → take 2 xs ≡ [] → xs ≡ []
take_two-nil [] e = refl
take_two-nil (x ∷ xs) e = cc

sort_select-nil {ℓ} :
    {A : Type ℓ} (f : A → ℕ) (p : A → Bool) (xs : List A)
    → sort_by f (select p xs) ≡ []
    → count p xs ≡ 0
unfolding sort_by select count
sort_select-nil f p [] e = refl
sort_select-nil f p (x ∷ xs) e = elim (Bool-cases (p x)) [
  | inl yes_x ↦ absurd (insert_by-nonempty f x (sort_by f (select p xs)) (ground (arith, yes_x, e)))
  | inr no_x ↦ ground (arith, no_x, sort_select-nil f p xs (ground (arith, no_x, e)))
]

select_current-none :
    (found : List Subtask) (e : Err)
    → select_current found 0 ≡ err e
    → is_no_current e ≡ true
    → found ≡ []
unfolding select_current
select_current-none [] e same none_found = refl
select_current-none (s ∷ []) e same none_found = cc
select_current-none (s ∷ t ∷ found) e same none_found = absurd (ground (arith, same, none_found))

query_seen :
    (db : Db) (found : List Subtask)
    → (query current_tasks db).0 ≡ ok found
    → found ≡ current_tasks (query current_tasks db).1.tables
unfolding query
query_seen db found e = ground (arith, e)

query_failed : (db : Db) (e : Err) → (query current_tasks db).0 ≡ err e → is_no_current e ≡ false
unfolding query
query_failed db e same = ground (arith, same)

-- What the question for the current task has established.
abbrev Answered : Result Subtask → Tables → Type 0
Answered (ok s) t = OneCurrent t
Answered (err e) t = (OneCurrent t) × (is_no_current e ≡ true → NoCurrent t)

or_throw-Answered :
    (r : Result Subtask) (db : Db)
    → OneCurrent db.tables
    → ((e : Err) → r ≡ err e → is_no_current e ≡ true → NoCurrent db.tables)
    → Answered (or_throw r db).0 (or_throw r db).1.tables
unfolding or_throw pure throw
or_throw-Answered (ok s) db i h = i
or_throw-Answered (err e) db i h = (i, h e refl)

current_tasks-nil : (t : Tables) → current_tasks t ≡ [] → NoCurrent t
current_tasks-nil t e =
    sort_select-nil (λ s. s.id) is_current t.tasks
      (take_two-nil (sort_by (λ s. s.id) (select is_current t.tasks)) e)

listed-Answered :
    (q : Result (List Subtask) × Db)
    → OneCurrent q.1.tables
    → ((found : List Subtask) → q.0 ≡ ok found → found ≡ current_tasks q.1.tables)
    → ((e : Err) → q.0 ≡ err e → is_no_current e ≡ false)
    → (r : Result Subtask × Db)
    → r ≡ elim q.0 [ ok found ↦ or_throw (select_current found 0) q.1 | err e ↦ (err e, q.1) ]
    → Answered r.0 r.1.tables
listed-Answered (ok found, db) i seen failed r same =
    subst (λ r. Answered r.0 r.1.tables) (sym same)
      (or_throw-Answered (select_current found 0) db i λ e said none_found.
        current_tasks-nil db.tables
          (sym (seen found refl) ∙ select_current-none found e said none_found))
listed-Answered (err e, db) i seen failed r same =
    subst (λ r. Answered r.0 r.1.tables) (sym same)
      (i, λ none_found. absurd (ground (arith, failed e refl, none_found)))

try_current-Turns : Turns OneCurrent (try (resolve_subtask 0)) Answered OneCurrent
unfolding try resolve_subtask current_task ◌>>=◌
try_current-Turns = record {
  run = λ db i.
      listed-Answered (query current_tasks db)
        ((Keeps-query {I = OneCurrent} current_tasks).run db i) (query_seen db) (query_failed db) _
        refl;
}

module _ (digest_rows : List ScanRow → ℕ) (target max : ℕ) (retry_deferred : Bool) where
  insert_batch-Turns :
      (batch : List ScanRow × ℕ)
      → Turns NoCurrent
          (insert_batch digest_rows target retry_deferred batch)
          (λ _. OneCurrent)
          OneCurrent
  unfolding insert_batch
  insert_batch-Turns (selected, bytes) =
      Turns->> OneCurrent NoCurrent (λ _. OneCurrent) _
        (Turns-reads OneCurrent (Keeps-refuse_if _ _) NoCurrent-OneCurrent)
        (Turns->>= OneCurrent (λ _. OneCurrent) (λ _. OneCurrent) _
          (Turns-exec_get OneCurrent (λ _. OneCurrent) _ _ NoCurrent-OneCurrent
            (insert_task-OneCurrent target (length selected) bytes (digest_rows selected))
            (insert_task-OneCurrent target (length selected) bytes (digest_rows selected)))
          λ id. Turns-Keeps OneCurrent (search (keeping, insert_objects-OneCurrent)) (λ t i. i))

  require_meta-Keeps :
      (meta : Option Meta)
      → Keeps NoCurrent
          (elim meta as (λ _. M (Unit {0})) [ none ↦ throw no_rows | some m ↦ pure (tt {0}) ])
  require_meta-Keeps none = Keeps-throw no_rows
  require_meta-Keeps (some m) = Keeps-pure tt

  allocate-Turns :
      Turns NoCurrent (allocate digest_rows target max retry_deferred) (λ _. OneCurrent) OneCurrent
  unfolding allocate
  allocate-Turns =
      Turns->>= OneCurrent (λ _. NoCurrent) (λ _. OneCurrent) _
        (Turns-reads OneCurrent (Keeps-query _) NoCurrent-OneCurrent)
        λ meta.
          Turns->> OneCurrent NoCurrent (λ _. OneCurrent) _
            (Turns-reads OneCurrent (require_meta-Keeps meta) NoCurrent-OneCurrent)
            (Turns->>= OneCurrent (λ _. NoCurrent) (λ _. OneCurrent) _
              (Turns-reads OneCurrent (Keeps-query _) NoCurrent-OneCurrent)
              λ rows.
                Turns->>= OneCurrent (λ _. NoCurrent) (λ _. OneCurrent) _
                  (Turns-reads OneCurrent (Keeps-or_throw (select_capacity rows target max))
                    NoCurrent-OneCurrent)
                  insert_batch-Turns)

  create_new-Turns :
      Turns NoCurrent
        (create_new digest_rows target max retry_deferred)
        (λ _. OneCurrent)
        OneCurrent
  unfolding create_new
  create_new-Turns =
      Turns->>= OneCurrent (λ _. NoCurrent) (λ _. OneCurrent) _
        (Turns-reads OneCurrent (Keeps-query legacy_results) NoCurrent-OneCurrent)
        λ legacy.
          Turns->> OneCurrent NoCurrent (λ _. OneCurrent) _
            (Turns-reads OneCurrent (Keeps-refuse_if _ _) NoCurrent-OneCurrent)
            (Turns->>= OneCurrent (λ _. OneCurrent) (λ _. OneCurrent) _
              (Turns-transaction OneCurrent (λ _. OneCurrent) NoCurrent-OneCurrent (λ _ t i. i)
                allocate-Turns)
              λ id. Turns-Keeps OneCurrent (Keeps-subtask id) (λ t i. i))

  unless_current-Turns :
      (r : Result Subtask)
      → Turns
          (Answered r)
          (unless_current digest_rows target max retry_deferred r)
          (λ _. OneCurrent)
          OneCurrent
  unfolding unless_current
  unless_current-Turns (ok s) = Turns-Keeps OneCurrent (Keeps-pure s) (λ t i. i)
  unless_current-Turns (err e) = elim (Bool-cases (is_no_current e)) [
    | inl no_task ↦ rw no_task (Turns-from (λ t (i, h). h no_task) create_new-Turns)
    | inr other ↦ rw other (Turns-Keeps OneCurrent (Keeps-throw e) (λ t (i, h). i))
  ]

  -- `CreateSubtask` never makes a second current task, on success and on every error.
  pub create_subtask-OneCurrent :
      Keeps OneCurrent (create_subtask digest_rows target max retry_deferred)
  unfolding create_subtask
  create_subtask-OneCurrent = Keeps->> Keeps-check_lock (
      Keeps->> (Keeps-refuse_if _ _) (
        Keeps->> Keeps-require_complete_scan (
          Keeps->> Keeps-require_no_safety_hold (
            Turns-to_Keeps (
              Turns->>= OneCurrent Answered (λ _. OneCurrent) _ try_current-Turns
                unless_current-Turns)))))
