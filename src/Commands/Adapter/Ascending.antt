-- ===== src/Commands/Adapter/Ascending.antt =====
-- What the database answers to a claim goes on behind the cursor, so no object is handled twice.
use limewire_purge.Prelude.{
  ℕ, zero, suc, ◌+◌, ◌<◌, ◌≤◌, ◌≡◌, ◌≢◌, refl, sym, subst, Bool, true, false, ◌&&◌, List, [], ◌∷◌,
  take, All, ltb, ltb→lt, leb, if◌then◌else◌, arith,
}
use limewire_purge.Errors.{Result, ok}
use limewire_purge.Progress.Tables.{ScanRow, Tables}
use limewire_purge.Progress.Session.{Db, pure}
use limewire_purge.Progress.Session.Success.{
  Ensures, Ensures->>, Ensures->>=, Ensures-query, Ensures-check_lock,
}
use limewire_purge.Progress.Rows.{select, insert_by, sort_by}
use limewire_purge.Progress.Purging.{claim_subtask, wants_purge}
use limewire_purge.Purge.Env.{Claimed}
use limewire_purge.Purge.Pool.{Pool, start_of_run, Reach}
use limewire_purge.Purge.Pool.Once.{count, Above, sent_once}
use limewire_purge.Commands.Adapter.{to_claimed, claim}

-- The primary key of scan_objects.
abbrev pub Distinct : List ScanRow → Type 0
Distinct [] = Unit
Distinct (r ∷ rows) = All (λ q. q.object_id ≢ r.object_id) rows × Distinct rows

-- Rows with ids above a number, each above the one before it.
abbrev Rising : ℕ → List ScanRow → Type 0
Rising after [] = Unit
Rising after (r ∷ rows) = (after < r.object_id) × Rising r.object_id rows

if_both {ℓ κ} :
    {A : Type ℓ} (Q : A → Type κ) (b : Bool) (x y : A)
    → (b ≡ true → Q x)
    → (b ≡ false → Q y)
    → Q (if b then x else y)
if_both Q true x y h k = h refl
if_both Q false x y h k = k refl

abbrev by_id : ScanRow → ℕ
by_id s = s.object_id

module _ {κ} (P : ScanRow → Type κ) where
  All-select : (p : ScanRow → Bool) (rows : List ScanRow) → All P rows → All P (select p rows)
  unfolding select
  All-select p [] h = tt
  All-select p (r ∷ rows) (h, hs) =
      if_both (All P) (p r) (r ∷ select p rows) (select p rows) (λ e. (h, All-select p rows hs))
        (λ e. All-select p rows hs)

  All-insert :
      (r : ScanRow) (rows : List ScanRow) → P r → All P rows → All P (insert_by by_id r rows)
  unfolding insert_by
  All-insert r [] h hs = (h, tt)
  All-insert r (q ∷ rows) h (k, ks) =
      if_both (All P) (leb r.object_id q.object_id) (r ∷ q ∷ rows) (q ∷ insert_by by_id r rows)
        (λ e. (h, (k, ks))) (λ e. (k, All-insert r rows h ks))

  All-sort : (rows : List ScanRow) → All P rows → All P (sort_by by_id rows)
  unfolding sort_by
  All-sort [] h = tt
  All-sort (r ∷ rows) (h, hs) = All-insert r (sort_by by_id rows) h (All-sort rows hs)

select-above :
    (after : ℕ) (p : ScanRow → Bool) (rows : List ScanRow)
    → All (λ r. after < r.object_id) (select (λ s. ltb after s.object_id && p s) rows)
unfolding select
select-above after p [] = tt
select-above after p (r ∷ rows) =
    if_both (All (λ q. after < q.object_id)) (ltb after r.object_id && p r)
      (r ∷ select (λ s. ltb after s.object_id && p s) rows) _
      (λ e. (
        first_test (ltb after r.object_id) (p r) (ltb→lt after r.object_id) e,
        select-above after p rows,
      ))
      (λ e. select-above after p rows)
  where
    first_test :
        (b c : Bool) → (b ≡ true → after < r.object_id) → (b && c) ≡ true → after < r.object_id
    first_test true c h e = h refl
    first_test false c h e = absurd (cc)

select-Distinct :
    (p : ScanRow → Bool) (rows : List ScanRow) → Distinct rows → Distinct (select p rows)
unfolding select
select-Distinct p [] h = tt
select-Distinct p (r ∷ rows) (h, hs) =
    if_both Distinct (p r) (r ∷ select p rows) (select p rows)
      (λ e. (All-select (λ q. q.object_id ≢ r.object_id) p rows h, select-Distinct p rows hs))
      (λ e. select-Distinct p rows hs)

insert-Rising :
    (after : ℕ) (r : ScanRow) (rows : List ScanRow)
    → after < r.object_id
    → All (λ q. q.object_id ≢ r.object_id) rows
    → Rising after rows
    → Rising after (insert_by by_id r rows)
unfolding insert_by
insert-Rising after r [] h others rising = (h, tt)
insert-Rising after r (q ∷ rows) h (other, others) (k, rising) =
    if_both (Rising after) (leb r.object_id q.object_id) (r ∷ q ∷ rows) (q ∷ insert_by by_id r rows)
      (λ e. (h, (apart r.object_id q.object_id other e, rising)))
      (λ e. (k, insert-Rising q.object_id r rows (behind r.object_id q.object_id e) others rising))
  where
    apart : (a b : ℕ) → b ≢ a → leb a b ≡ true → a < b
    apart a b h e = ground (arith, h, e)

    behind : (a b : ℕ) → leb a b ≡ false → b < a
    behind a b e = ground (arith, e)

sort-Rising :
    (after : ℕ) (rows : List ScanRow)
    → All (λ r. after < r.object_id) rows
    → Distinct rows
    → Rising after (sort_by by_id rows)
unfolding sort_by
sort-Rising after [] h distinct = tt
sort-Rising after (r ∷ rows) (h, hs) (others, distinct) =
    insert-Rising after r (sort_by by_id rows) h
      (All-sort (λ q. q.object_id ≢ r.object_id) rows others) (sort-Rising after rows hs distinct)

to_claimed-Above :
    (limit after : ℕ) (rows : List ScanRow)
    → Rising after rows
    → Above after (to_claimed (take limit rows))
unfolding to_claimed
to_claimed-Above zero after rows h = tt
to_claimed-Above (suc n) after [] h = tt
to_claimed-Above (suc n) after (r ∷ rows) (h, hs) = (h, to_claimed-Above n r.object_id rows hs)

pure_value {ℓ} : {A : Type ℓ} (a : A) (db : Db) (b : A) → (pure a db).0 ≡ ok b → a ≡ b
unfolding pure
pure_value a db b e = cc

claimed-Above :
    (id after limit : ℕ) (t : Tables)
    → Distinct t.scan_objects
    → Above after (
        to_claimed (
          take limit (
            sort_by by_id
              (select (λ s. ltb after s.object_id && wants_purge id t s) t.scan_objects))))
claimed-Above id after limit t distinct = to_claimed-Above limit after _ (
    sort-Rising after _ (select-above after (wants_purge id t) t.scan_objects)
      (select-Distinct (λ s. ltb after s.object_id && wants_purge id t s) t.scan_objects distinct))

claim-Ensures :
    (id after limit : ℕ)
    → Ensures (λ t. Distinct t.scan_objects) (claim id after limit) (λ rows t. Above after rows)
unfolding claim claim_subtask
claim-Ensures id after limit = Ensures->> _ _ _ Ensures-check_lock (
    Ensures->>= _ _ _ (Ensures-query _) λ rows. record {
      run = λ db (distinct, same) a e. subst (Above after) (pure_value (to_claimed rows) db a e) (
          subst (λ z. Above after (to_claimed z)) (sym same)
            (claimed-Above id after limit db.tables distinct));
    })

-- The answers that the adapter can give to the claims of a run, for a task: each in some session whose
-- object list has its primary key.
abbrev pub FromDatabase : ℕ → ℕ → ℕ → Result (List Claimed) → Type 0
FromDatabase id after limit answer =
    (db : Db) × Distinct db.tables.scan_objects × ((claim id after limit db).0 ≡ answer)

-- In a run whose claims the progress database answers, in whatever states it is meanwhile, as long as
-- ids are unique in the object list, each object is at every moment in at most one place, and there
-- only once: handled, dropped, with a worker, or in the channel.
pub sent_once-FromDatabase :
    (id conc : ℕ) (t : Pool) (oid : ℕ)
    → Reach conc (FromDatabase id) start_of_run t
    → count oid t.channel
        + count oid t.checking
        + count oid t.working
        + count oid t.handled
        + count oid t.dropped
      ≤ 1
sent_once-FromDatabase id conc t oid reached =
    sent_once conc (FromDatabase id)
      (λ after limit rows (db, distinct, same).
        (claim-Ensures id after limit).run db distinct rows same)
      t oid reached
