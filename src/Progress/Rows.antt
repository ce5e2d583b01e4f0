-- ===== src/Progress/Rows.antt =====
-- The queries of internal/progress over the tables, as functions: what each WHERE clause selects, in
-- the order that its ORDER BY gives, and what the sums of `SubCounts` count.
use limewire_purge.Prelude.{
  ℕ, ◌+◌, Bool, true, false, not, ◌&&◌, ◌||◌, List, [], ◌∷◌, Option, none, some, Bytes, leb, ◌==◌,
  if◌then◌else◌, length,
}
use limewire_purge.Progress.Tables.{
  ProgressRow, ProgressStatus, Subtask, TaskObject, VerifyStatus, Tables,
}

module _ {ℓ} {A : Type ℓ} where
  unfoldable pub select : (A → Bool) → List A → List A
  select p [] = []
  select p (x ∷ xs) = if p x then x ∷ select p xs else select p xs

  -- UPDATE … SET f WHERE p
  abbrev pub update : (A → Bool) → (A → A) → List A → List A
  update p f [] = []
  update p f (x ∷ xs) = (if p x then f x else x) ∷ update p f xs

  unfoldable pub exists : (A → Bool) → List A → Bool
  exists p [] = false
  exists p (x ∷ xs) = p x || exists p xs

  abbrev pub find : (A → Bool) → List A → Option A
  find p [] = none
  find p (x ∷ xs) = if p x then some x else find p xs

  unfoldable pub count : (A → Bool) → List A → ℕ
  count p [] = 0
  count p (x ∷ xs) = (if p x then 1 else 0) + count p xs

  unfoldable pub total : (A → ℕ) → List A → ℕ
  total f [] = 0
  total f (x ∷ xs) = f x + total f xs

  -- ORDER BY f, in ascending order.
  unfoldable pub insert_by : (A → ℕ) → A → List A → List A
  insert_by f x [] = x ∷ []
  insert_by f x (y ∷ ys) = if leb (f x) (f y) then x ∷ y ∷ ys else y ∷ insert_by f x ys

  unfoldable pub sort_by : (A → ℕ) → List A → List A
  unfolding insert_by
  sort_by f [] = []
  sort_by f (x ∷ xs) = insert_by f x (sort_by f xs)

abbrev pub is_empty : Bytes → Bool
is_empty [] = true
is_empty (c ∷ s) = false

abbrev pub is_done : ProgressStatus → Bool
is_done ProgressStatus.done = true
is_done ProgressStatus.failed = false

abbrev pub is_pass : VerifyStatus → Bool
is_pass VerifyStatus.pass = true
is_pass _ = false

abbrev pub is_residue : VerifyStatus → Bool
is_residue VerifyStatus.residue = true
is_residue _ = false

abbrev pub is_error : VerifyStatus → Bool
is_error VerifyStatus.error = true
is_error _ = false

-- LEFT JOIN purge_progress p ON p.object_id = o
abbrev pub progress_of : Tables → ℕ → Option ProgressRow
progress_of t oid = find (λ p. p.object_id == oid) t.progress

abbrev pub processed : Tables → ℕ → Bool
processed t oid = elim (progress_of t oid) [ none ↦ false | some p ↦ is_done p.status ]

abbrev pub has_failed : Tables → ℕ → Bool
has_failed t oid = elim (progress_of t oid) [ none ↦ false | some p ↦ not (is_done p.status) ]

-- done_at IS NULL AND purged_at IS NULL
abbrev pub is_current : Subtask → Bool
is_current s = not s.done_at && not s.purged_at

abbrev pub has_id : ℕ → Subtask → Bool
has_id id s = s.id == id

abbrev pub member : ℕ → ℕ → TaskObject → Bool
member id oid o = o.task_id == id && o.object_id == oid

abbrev pub active_member : ℕ → ℕ → TaskObject → Bool
active_member id oid o = member id oid o && not o.deferred

-- UPDATE purge_tasks SET f WHERE p
unfoldable pub update_tasks : (Subtask → Bool) → (Subtask → Subtask) → Tables → Tables
update_tasks p f t = record t { tasks = update p f t.tasks }

-- `SubCounts`
pub record SubCounts : Type 0 where
  pub total : ℕ
  pub deferred : ℕ
  pub pending : ℕ
  pub failed : ℕ
  pub processed : ℕ
  pub verified : ℕ
  pub residue : ℕ
  pub verify_errors : ℕ
  pub deleted_keys : ℕ
  pub deleted_bytes : ℕ

abbrev pub objects_of : Tables → ℕ → List TaskObject
objects_of t id = select (λ o. o.task_id == id) t.objects

abbrev pub this_generation : ℕ → TaskObject → Bool
this_generation generation o = not o.deferred && o.verify_generation == generation

-- The joined generation is that of the task; without a task no row is joined.
unfoldable pub counts_at : Tables → List TaskObject → ℕ → SubCounts
counts_at t os generation = record {
  total = length os;
  deferred = count (λ o. o.deferred) os;
  pending =
      count
        (λ o. not o.deferred && (not (processed t o.object_id) && not (has_failed t o.object_id)))
        os;
  failed = count (λ o. not o.deferred && has_failed t o.object_id) os;
  processed = count (λ o. not o.deferred && processed t o.object_id) os;
  verified = count (λ o. this_generation generation o && is_pass o.verify_status) os;
  residue = count (λ o. this_generation generation o && is_residue o.verify_status) os;
  verify_errors = count (λ o. this_generation generation o && is_error o.verify_status) os;
  deleted_keys =
      total (λ o. elim (progress_of t o.object_id) [ none ↦ 0 | some p ↦ p.deleted_keys ]) os;
  deleted_bytes =
      total (λ o. elim (progress_of t o.object_id) [ none ↦ 0 | some p ↦ p.deleted_bytes ]) os;
}

-- The row of the task, or none.
unfoldable pub counts_for : ℕ → Tables → Option Subtask → SubCounts
unfolding counts_at count total select
counts_for id t none = counts_at t [] 0
counts_for id t (some s) = counts_at t (objects_of t id) s.generation

unfoldable pub sub_counts : ℕ → Tables → SubCounts
unfolding counts_for
sub_counts id t = counts_for id t (find (has_id id) t.tasks)
