-- ===== src/Commands/Scan/Filled.antt =====
-- A scan that succeeds has filled and sealed the list that the server counts, before and after.
use limewire_purge.Prelude.{
  ℕ, ◌≡◌, refl, sym, subst, ap, ◌∙◌, inl, inr, false, Option, none, some, Option-cases, ◌==◌, arith,
}
use limewire_purge.Errors.{Result, ok, err}
use limewire_purge.Progress.Tables.{Binding, Tables}
use limewire_purge.Progress.Session.{Db}
use limewire_purge.Progress.Scan.{bind, begin_scan, finish_scan}
use limewire_purge.Progress.Scan.Sealed.{
  Sealed, finish_scan-Sealed, Reopened, begin_scan-Reopened, Bound, bind-Bound,
}
use limewire_purge.Progress.Session.Keeping.{Keeps, keeping}
use limewire_purge.Progress.Counts.{counts}
use limewire_purge.Bsdb.{Page, Scanned, reconcile, scan}
use limewire_purge.Commands.{Command, ◌>>=◌}
use limewire_purge.Commands.Scan.{
  store_rows, show_counts, count_live, after_scan, scan_list, seal_list, fill_list, after_count,
  run_scan,
}
use limewire_purge.Commands.World.{after_first}
use limewire_purge.Commands.Succeeds.{
  Succeeds, in_database_then-Succeeds, refuse_if-Succeeds, refuse-Succeeds, given-Succeeds,
}

reconcile_sound :
    (before after read : ℕ)
    → reconcile before after read ≡ none
    → (before ≡ after) × (read ≡ before)
unfolding reconcile
reconcile_sound before after read e = ground (arith, e)

counts-Keeps : {I : Tables → Type 0} → Keeps I counts
unfolding counts
counts-Keeps = search keeping

module _ {W : Type 0} (count : W → Result ℕ × W) (query : ℕ → ℕ → W → Result Page × W)
    (batch fuel : ℕ) where
  -- The scan behind `BeginScan`, of as many objects as were counted, in the given database and world:
  -- it read them all without an error, the server counted as many again right behind it, and the list
  -- that it left was sealed with that number.
  pub record Filled (live : ℕ) (begun : Db) (asked : W) (end : Db × W) : Type 0 where
    pub list : Scanned Db
    pub read : W
    pub scanned : scan query batch store_rows fuel begun asked ≡ (some list, read)
    pub complete : list.error ≡ none
    pub all_read : list.total ≡ live
    pub counted_behind : count read ≡ (ok live, end.1)
    pub sealed : Sealed live list.state.tables end.0.tables

  -- From the command's start to its end: the server counted objects, the database was bound to the
  -- task of the configuration, then reopened for as many rows, filled and sealed.
  pub record ScannedFor (binding : Result Binding) (start end : Db × W) : Type 0 where
    pub live : ℕ
    pub asked : W
    pub counted_before : count start.1 ≡ (ok live, asked)
    pub some_object : (live == 0) ≡ false
    pub task : Binding
    pub configured : binding ≡ ok task
    pub bound_db : Db
    pub bound_by : bind task start.0 ≡ (ok tt, bound_db)
    pub bound : Bound task bound_db.tables
    pub reopened : Reopened bound_db.tables
    pub begun_db : Db
    pub begun_by : begin_scan live bound_db ≡ (ok tt, begun_db)
    pub filled : Filled live begun_db asked end

  module _ {ℓ} (Q : Db × W → Type ℓ) where
    count_live-Succeeds :
        (f : ℕ → Command W (Unit {0})) (db : Db) (w : W)
        → ((n : ℕ) (w' : W) → count w ≡ (ok n, w') → Succeeds Q (f n (db, w')))
        → Succeeds Q ((count_live count query >>= f) (db, w))
    unfolding ◌>>=◌ count_live
    count_live-Succeeds f db w k = by_answer (count w) refl
      where
        by_answer : (r : Result ℕ × W) → count w ≡ r → Succeeds Q (after_first f (r.0, (db, r.1)))
        by_answer (ok n, w') same = k n w' same
        by_answer (err e, w') same = λ bad. absurd (cc)

    show_counts-Succeeds :
        (db : Db) (w : W)
        → ((db' : Db) → db'.tables ≡ db.tables → Q (db', w))
        → Succeeds Q (show_counts (db, w))
    unfolding show_counts
    show_counts-Succeeds db w k same =
        k (counts db).1 ((counts-Keeps {I = λ t. t ≡ db.tables}).run db refl)

    scan_list-Succeeds :
        (f : ℕ → Command W (Unit {0})) (db : Db) (w : W)
        → ((s : Scanned Db) (w' : W)
            → scan query batch store_rows fuel db w ≡ (some s, w')
            → s.error ≡ none
            → Succeeds Q (f s.total (s.state, w')))
        → Succeeds Q ((scan_list count query batch fuel >>= f) (db, w))
    unfolding ◌>>=◌ scan_list
    scan_list-Succeeds f db w k = by_scan (scan query batch store_rows fuel db w) refl
      where
        by_scan :
            (r : Option (Scanned Db) × W)
            → scan query batch store_rows fuel db w ≡ r
            → Succeeds Q (after_first f (after_scan count query (db, w) r))
        by_scan (none, w') same = unfold after_scan in λ bad. absurd (cc)
        by_scan (some s, w') same =
            unfold after_scan in
            elim (Option-cases s.error) [
              | inl fine ↦ simp fine (k s w' same fine)
              | inr (e, failed) ↦ simp failed (λ bad. absurd (cc))
            ]

  seal_list-Filled :
      (live : ℕ) (begun : Db) (asked : W) (s : Scanned Db) (w : W)
      → scan query batch store_rows fuel begun asked ≡ (some s, w)
      → s.error ≡ none
      → Succeeds (Filled live begun asked) (seal_list count query live s.total (s.state, w))
  unfolding seal_list
  seal_list-Filled live begun asked s w scanned complete =
      let Q = Filled live begun asked in
      count_live-Succeeds Q _ s.state w λ after w' counted.
        refuse-Succeeds Q (reconcile live after s.total) _ _ λ reconciled.
          let (same_count, all_read) = reconcile_sound live after s.total reconciled in
          in_database_then-Succeeds Q (finish_scan s.total) _ s.state w' λ db finished.
            show_counts-Succeeds Q db w' λ db' stands. record {
              list = s;
              read = w;
              scanned = scanned;
              complete = complete;
              all_read = all_read;
              counted_behind = counted ∙ ap (λ n. (ok n, w')) (sym same_count);
              sealed =
                  subst (λ n. Sealed n s.state.tables db'.tables) all_read
                    (subst (Sealed s.total s.state.tables)
                      (ap (λ r. r.1.tables) finished ∙ sym stands)
                      (finish_scan-Sealed s.total s.state tt (ap (λ r. r.0) finished)));
            }

  -- A `scan` that succeeds, and was to do more than count, whatever the servers answer and for any
  -- fuel, went through these steps, each in the state that the one before it left: the server counted
  -- objects, more than 0; `Bind` bound the database to the task of the configuration; `BeginScan` found
  -- no sealed list and no tasks; the scan read as many rows as were counted, without an error; the
  -- server counted as many again; and the list that the scan left was sealed with that number.
  pub run_scan-ScannedFor :
      (binding : Result Binding) (st : Db × W) (u : Unit {0})
      → (run_scan count query false batch fuel binding st).0 ≡ ok u
      → ScannedFor binding st (run_scan count query false batch fuel binding st).1
  unfolding run_scan after_count fill_list
  run_scan-ScannedFor binding (db, w) u =
      let Q = ScannedFor binding (db, w) in
      count_live-Succeeds Q _ db w λ live asked counted.
        refuse_if-Succeeds Q (live == 0) _ _ _ λ some_object.
          given-Succeeds Q binding _ _ λ task configured.
            in_database_then-Succeeds Q (bind task) _ db asked λ bound_db bound_by.
              in_database_then-Succeeds Q (begin_scan live) _ bound_db asked λ begun_db begun_by.
                scan_list-Succeeds Q _ begun_db asked λ s w' scanned complete same. record {
                  live = live;
                  asked = asked;
                  counted_before = counted;
                  some_object = some_object;
                  task = task;
                  configured = configured;
                  bound_db = bound_db;
                  bound_by = bound_by;
                  bound =
                      subst (λ r. Bound task r.1.tables) bound_by
                        (bind-Bound task db tt (ap (λ r. r.0) bound_by));
                  reopened = begin_scan-Reopened live bound_db tt (ap (λ r. r.0) begun_by);
                  begun_db = begun_db;
                  begun_by = begun_by;
                  filled = seal_list-Filled live begun_db asked s w' scanned complete same;
                }
