-- ===== src/Progress/Verifying/Accepted.antt =====
-- What it takes to complete a verification (internal/progress/subtask.go, CompleteVerify).
use limewire_purge.Prelude.{
  ℕ, ◌+◌, ◌≤◌, ◌≡◌, refl, sym, subst, ap, ◌∙◌, ◌⊎◌, inl, inr, Bool, true, false, not, ◌&&◌, List,
  [], ◌∷◌, Option, none, some, length, All, Bool-cases, arith,
}
use limewire_purge.Errors.{ok}
use limewire_purge.Progress.Tables.{Subtask, TaskObject, Tables}
use limewire_purge.Progress.Session.{Db, pure, throw}
use limewire_purge.Progress.Session.Success.{
  Ensures, Ensures->>=, Ensures->>, Ensures-weaken, Ensures-query, Ensures-refuse_if, Ensures-exec,
  Ensures-check_lock,
}
use limewire_purge.Progress.Rows.{
  counts_at, counts_for, sub_counts, objects_of, count, find, update, update_tasks, has_id,
  processed, has_failed, is_pass, this_generation,
}
use limewire_purge.Progress.Resolve.{row, subtask}
use limewire_purge.Progress.Verifying.{is_unverified, is_verifying, end_verify, complete_verify}

module _ {ℓ} {A : Type ℓ} where
  count-le-length :
      (p q : A → Bool) (xs : List A)
      → ((x : A) → p x ≡ true → q x ≡ false)
      → count p xs + count q xs ≤ length xs
  unfolding count
  count-le-length p q [] apart = omega arith
  count-le-length p q (x ∷ xs) apart = ground (arith, count-le-length p q xs apart, apart x)

  -- Two disjoint counts that add up to the length leave nothing out.
  count-All :
      (p q : A → Bool) (xs : List A)
      → ((x : A) → p x ≡ true → q x ≡ false)
      → length xs ≤ count p xs + count q xs
      → All (λ x. (p x ≡ true) ⊎ (q x ≡ true)) xs
  unfolding count
  count-All p q [] apart h = tt
  count-All p q (x ∷ xs) apart h = (
    ground (arith, count-le-length p q xs apart, apart x, h),
    count-All p q xs apart (ground (arith, h, apart x)),
  )

  count-zero : (p : A → Bool) (xs : List A) → count p xs ≡ 0 → All (λ x. p x ≡ false) xs
  unfolding count
  count-zero p [] h = tt
  count-zero p (x ∷ xs) h = (ground (arith, h), count-zero p xs (ground (arith, h)))

  All-three {κ μ ν ξ} :
      {P : A → Type κ} {Q : A → Type μ} {R : A → Type ν} {S : A → Type ξ} (xs : List A)
      → ((x : A) → P x → Q x → R x → S x)
      → All P xs
      → All Q xs
      → All R xs
      → All S xs
  All-three [] f ps qs rs = tt
  All-three (x ∷ xs) f (p, ps) (q, qs) (r, rs) = (f x p q r, All-three xs f ps qs rs)

-- An object of the task is deferred, or it is processed and has passed in this generation.
abbrev pub IsSettled : Tables → ℕ → TaskObject → Type 0
IsSettled t generation o =
    (o.deferred ≡ true)
    ⊎ ((o.verify_generation ≡ generation)
        × (is_pass o.verify_status ≡ true)
        × (processed t o.object_id ≡ true))

-- The task as it was stored, with all of its objects settled.
pub record Settled (s : Subtask) (t : Tables) : Type 0 where
  pub stored : Subtask
  pub found : find (has_id s.id) t.tasks ≡ some stored
  pub whole : length (objects_of t s.id) ≡ s.object_count
  pub settled : All (IsSettled t stored.generation) (objects_of t s.id)

abbrev is_verified : ℕ → TaskObject → Bool
is_verified generation o = this_generation generation o && is_pass o.verify_status

abbrev is_waiting : Tables → TaskObject → Bool
is_waiting t o = not o.deferred && (not (processed t o.object_id) && not (has_failed t o.object_id))

abbrev is_failing : Tables → TaskObject → Bool
is_failing t o = not o.deferred && has_failed t o.object_id

settle_object :
    (t : Tables) (generation : ℕ) (o : TaskObject)
    → (o.deferred ≡ true) ⊎ (is_verified generation o ≡ true)
    → is_waiting t o ≡ false
    → is_failing t o ≡ false
    → IsSettled t generation o
settle_object t generation o (inl deferred) going fine = inl deferred
settle_object t generation o (inr verified) going fine = elim (Bool-cases o.deferred) [
  | inl deferred ↦ inl deferred
  | inr active ↦
      inr (ground (arith, verified), ground (arith, verified), ground (arith, active, going, fine))
]

counts-IsSettled :
    (s : Subtask) (t : Tables) (generation : ℕ)
    → is_unverified (counts_at t (objects_of t s.id) generation) s ≡ false
    → (length (objects_of t s.id) ≡ s.object_count)
      × All (IsSettled t generation) (objects_of t s.id)
unfolding is_unverified counts_at
counts-IsSettled s t generation h =
    let os = objects_of t s.id in
    let none_waiting : count (is_waiting t) os ≡ 0 = ground (arith, h) in
    let none_failing : count (is_failing t) os ≡ 0 = ground (arith, h) in
    let all_counted : length os ≤ count (λ o. o.deferred) os + count (is_verified generation) os =
      ground (arith, h) in
    (
      ground (arith, h),
      All-three os (settle_object t generation)
          (count-All (λ o. o.deferred) (is_verified generation) os (λ o d. ground (arith, d))
            all_counted)
          (count-zero (is_waiting t) os none_waiting) (count-zero (is_failing t) os none_failing),
    )

find-end_verify :
    (s : Subtask) (tasks : List Subtask) (now : Subtask)
    → find (has_id s.id) (update (is_verifying s) end_verify tasks) ≡ some now
    → (stored : Subtask) × (find (has_id s.id) tasks ≡ some stored)
unfolding end_verify
find-end_verify s [] now e = cc
find-end_verify s (x ∷ tasks) now e = elim (Bool-cases (has_id s.id x)) [
  | inl same ↦ (x, ground (arith, same))
  | inr other ↦
      let (stored, found) = find-end_verify s tasks now (ground (arith, other, e)) in
      (stored, ground (arith, other, found))
]

-- What the steps of a completion have established at its end.
record Ended (s : Subtask) (before after : Tables) : Type 0 where
  enough : is_unverified (sub_counts s.id before) s ≡ false
  written : after ≡ update_tasks (is_verifying s) end_verify before
  now : Subtask
  read_back : find (has_id s.id) after.tasks ≡ some now
  finalized : now.done_at ≡ true

Ensures-row {κ} :
    {P : Tables → Type κ} (id : ℕ) (o : Option Subtask)
    → Ensures
        (λ t. P t × (o ≡ find (has_id id) t.tasks))
        (row o)
        (λ s t. P t × (find (has_id id) t.tasks ≡ some s))
unfolding row pure throw
Ensures-row id none = record { run = λ db p a e. cc }
Ensures-row id (some s) = record { run = λ db (p, same) a e. (p, ground (arith, same, e)) }

Ensures-subtask {κ} :
    {P : Tables → Type κ} (id : ℕ)
    → Ensures P (subtask id) (λ s t. P t × (find (has_id id) t.tasks ≡ some s))
unfolding subtask
Ensures-subtask {P = P} id =
    Ensures->>= (λ o t. P t × (o ≡ find (has_id id) t.tasks)) _ row
      (Ensures-query (λ t. find (has_id id) t.tasks)) (Ensures-row id)

complete_verify-Ensures :
    (s : Subtask) (before : Tables)
    → Ensures (λ t. t ≡ before) (complete_verify s) (λ _ after. Ended s before after)
unfolding complete_verify
complete_verify-Ensures s before = Ensures->> _ _ _ Ensures-check_lock (
    Ensures->>= _ _ _ (Ensures-query (sub_counts s.id)) λ c.
      Ensures->> _ _ _ (Ensures-refuse_if (is_unverified c s) _) (
        Ensures->> _ _ _ (Ensures-exec (update_tasks (is_verifying s) end_verify)) (
          Ensures->>= _ _ _ (Ensures-subtask s.id) λ now.
            Ensures-weaken _ _
              (λ _ t (((x, ((same, counted), enough), written), found), kept). record {
                enough = rw (sym same, sym counted) enough;
                written = written ∙ ap (update_tasks (is_verifying s) end_verify) same;
                now = now;
                read_back = found;
                finalized = ground (arith, kept);
              })
              (Ensures-refuse_if (not now.done_at) _))))

sub_counts-counts_at :
    (id : ℕ) (t : Tables) (stored : Subtask)
    → find (has_id id) t.tasks ≡ some stored
    → sub_counts id t ≡ counts_at t (objects_of t id) stored.generation
unfolding sub_counts counts_for
sub_counts-counts_at id t stored found = ap (counts_for id t) found

sub_counts-Settled :
    (s : Subtask) (t : Tables) (stored : Subtask)
    → find (has_id s.id) t.tasks ≡ some stored
    → is_unverified (sub_counts s.id t) s ≡ false
    → Settled s t
sub_counts-Settled s t stored found enough =
    let (whole, settled) =
      counts-IsSettled s t stored.generation (
        subst (λ c. is_unverified c s ≡ false) (sub_counts-counts_at s.id t stored found) enough) in
    record { stored = stored; found = found; whole = whole; settled = settled }

-- A completion that went well: the task was settled in every object, its row alone is marked, and it
-- is read back as done.
pub record Completed (s : Subtask) (before after : Tables) : Type 0 where
  pub settled : Settled s before
  pub written : after ≡ update_tasks (is_verifying s) end_verify before
  pub now : Subtask
  pub read_back : find (has_id s.id) after.tasks ≡ some now
  pub done : now.done_at ≡ true

-- `CompleteVerify` succeeds, whatever the server answers, only if every object of the stored task is
-- deferred, or is processed and has passed in the generation of the task, and their number is the one
-- of the task; then only the rows that the guarded update selects are marked, and the task is read
-- back as done.
pub complete_verify-Completed :
    (s : Subtask) (db : Db) (u : Unit {0})
    → (complete_verify s db).0 ≡ ok u
    → Completed s db.tables (complete_verify s db).1.tables
unfolding update_tasks
complete_verify-Completed s db u e =
    let x = (complete_verify-Ensures s db.tables).run db refl u e in
    let (stored, found) =
      find-end_verify s db.tables.tasks x.now
        (sym (ap (λ t. find (has_id s.id) t.tasks) x.written) ∙ x.read_back) in
    record {
      settled = sub_counts-Settled s db.tables stored found x.enough;
      written = x.written;
      now = x.now;
      read_back = x.read_back;
      done = x.finalized;
    }
