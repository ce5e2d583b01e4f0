-- ===== src/Commands/Purge/Steps.antt =====
-- The outside world through the steps of `runPurge` from the task on (cmd/limewire-purge/main.go).
use limewire_purge.Prelude.{
  ℕ, ◌≡◌, refl, ap, ◌∙◌, inl, inr, Bool, true, false, ◌||◌, List, Option, none, some, ◌==◌, ==_iff,
}
use limewire_purge.Errors.{Err, Result, ok, err}
use limewire_purge.Progress.Tables.{ScanRow, Subtask}
use limewire_purge.Progress.Session.{Db, query}
use limewire_purge.Progress.Rows.{sub_counts}
use limewire_purge.Progress.Resolve.{is_held}
use limewire_purge.Progress.Create.{check_manifest}
use limewire_purge.Progress.Purging.{begin_purge}
use limewire_purge.S3Store.{ensure_versioning_disabled}
use limewire_purge.Commands.{pure, throw, in_database, outside}
use limewire_purge.Commands.World.{
  Leaves->>=, Leaves->>, Leaves-refuse_if, Leaves-refuse, in_database-Leaves, outside-Leaves,
  pure-Leaves,
}
use limewire_purge.Commands.Inversion.{ran}
use limewire_purge.Commands.Purge.{
  Flags, Outside, other_bucket, with_task_error, hold_global, finish_task, begin_task, start_run,
  run_error, read_layout, unless_other, purge_bucket, check_bucket, purge_storage, check_list,
  purge_manifest, purge_task,
}
use limewire_purge.Commands.Purge.Chain.{Begun, Counted, Prepared, Listed}

-- Nothing that the command does outside of the database breaks `I`, apart from the run.
pub record KeptByReads {W : Type 0} (O : Outside W) (I : W → Type 0) : Type 0 where
  pub new_store : (w : W) → I w → I (O.new_store w).1
  pub new_chain : (w : W) → I w → I (O.new_chain w).1
  pub versioning : (allow : Bool) (w : W) → I w → I (ensure_versioning_disabled O.storage allow w).1
  pub head_bucket : (w : W) → I w → I (O.head_bucket w).1
  pub redundancy_params : (w : W) → I w → I (O.redundancy_params w).1

hold_global-Leaves :
    {W : Type 0}
    → (I : W → Type 0) (s : Subtask) (e : Err) (st : Db × W) → I st.1
    → I (hold_global s e st).1.1
unfolding hold_global
hold_global-Leaves I s e (db, w) i = i

module _ {W : Type 0} (O : Outside W) (digest_rows : List ScanRow → ℕ)
    (run : Subtask → (data_chunks segment_size total : ℕ) → Db × W → Option Err × (Db × W))
    (I : W → Type 0) (reads : KeptByReads O I) (f : Flags) where
  finish_task-Leaves :
      (dry : Bool) (task : Subtask) (st : Db × W)
      → I st.1
      → I (finish_task O digest_rows run dry task st).1.1
  unfolding finish_task
  finish_task-Leaves true task st i = pure-Leaves I tt st i
  finish_task-Leaves false task st i =
      let i' = in_database-Leaves I (query (sub_counts task.id)) st i in
      Leaves->>= I _ _ st i'
        λ left same. Leaves-refuse_if I _ _ _ _ i' λ fine. in_database-Leaves I _ _ i'

  read_layout-Leaves :
      (unknown : Bool) (st : Db × W) → I st.1 → I (read_layout O digest_rows run f unknown st).1.1
  unfolding read_layout
  read_layout-Leaves true st i =
      let i' = outside-Leaves I O.redundancy_params st (reads.redundancy_params st.1 i) in
      Leaves->>= I _ _ st i' (λ params same. pure-Leaves I _ _ i')
  read_layout-Leaves false st i = pure-Leaves I _ st i

  begin_task-Leaves :
      (dry : Bool) (task : Subtask) (st : Db × W)
      → I st.1
      → I (begin_task O digest_rows run dry task st).1.1
  unfolding begin_task
  begin_task-Leaves true task st i = pure-Leaves I tt st i
  begin_task-Leaves false task st i = in_database-Leaves I _ st i

  begin_task-Begun :
      (dry : Bool) (task : Subtask) (st : Db × W)
      → f.dry_run ≡ dry
      → (begin_task O digest_rows run dry task st).0 ≡ ok tt
      → Begun O digest_rows run f task st (begin_task O digest_rows run dry task st).1
  unfolding begin_task pure
  begin_task-Begun true task st same e = inl (same, refl)
  begin_task-Begun false task st same e =
      inr (same, ran (in_database (begin_purge digest_rows task)) st e)

  -- What the run of a task may rely on, in the state in which it starts.
  module _ (task : Subtask) (Guard : Db × W → Type 0)
      (run_keeps : (chunks segment total : ℕ) (st : Db × W)
        → Guard st
        → I st.1
        → I (run task chunks segment total st).1.1) where
    run_error-Leaves : (r : Option Err × (Db × W)) → I r.1.1 → I (run_error O digest_rows run r).1.1
    run_error-Leaves (none, st) i = i
    run_error-Leaves (some e, st) i = i

    start_run-Leaves :
        (params : ℕ × ℕ) (total : ℕ) (st : Db × W)
        → Guard st
        → I st.1
        → I (start_run O digest_rows run task params total st).1.1
    unfolding start_run
    start_run-Leaves (chunks, segment) total st g i =
        run_error-Leaves _ (run_keeps chunks segment total st g i)

    purge_bucket-Leaves :
        (st : Db × W)
        → ((at : Db × W) → Counted O digest_rows run f task st at → Guard at)
        → I st.1
        → I (purge_bucket O digest_rows run f task st).1.1
    unfolding purge_bucket
    purge_bucket-Leaves st guard i =
        Leaves->>= I _ _ st (read_layout-Leaves _ st i) λ params laid_out.
          let i1 = read_layout-Leaves _ st i in
          Leaves->>= I _ _ _ (in_database-Leaves I _ _ i1) λ counts counted.
            let i2 = in_database-Leaves I (query (sub_counts task.id)) _ i1 in
            Leaves-refuse_if I _ _ _ _ i2 λ not_empty.
              let i3 = begin_task-Leaves f.dry_run task _ i2 in
              Leaves->> I _ _ _ i3 λ begun.
                let g = guard _ (record {
                  params = params;
                  laid_out = _;
                  layout = ran (read_layout O digest_rows run f _) st laid_out;
                  counts = counts;
                  counted = _;
                  count = ran (in_database (query (sub_counts task.id))) _ counted;
                  not_empty = not_empty;
                  begun = begin_task-Begun f.dry_run task _ refl begun;
                }) in
                Leaves->> I _ _ _ (start_run-Leaves params _ _ g i3)
                  λ done. finish_task-Leaves f.dry_run task _ (start_run-Leaves params _ _ g i3)

    unless_other-Leaves :
        (same : Bool) (st : Db × W)
        → (same ≡ true → (at : Db × W) → Counted O digest_rows run f task st at → Guard at)
        → I st.1
        → I (unless_other O digest_rows run f task same st).1.1
    unfolding unless_other
    unless_other-Leaves true st guard i = purge_bucket-Leaves st (guard refl) i
    unless_other-Leaves false st guard i = hold_global-Leaves I task other_bucket st i

    check_bucket-Leaves :
        (answer : Result ℕ) (st : Db × W)
        → (answer ≡ ok f.bucket_id
            → (at : Db × W) → Counted O digest_rows run f task st at
            → Guard at)
        → I st.1
        → I (check_bucket O digest_rows run f task answer st).1.1
    unfolding check_bucket throw
    check_bucket-Leaves (err e) st guard i = i
    check_bucket-Leaves (ok id) st guard i =
        unless_other-Leaves (id == f.bucket_id) st
          (λ same. guard (ap ok ((==_iff id f.bucket_id).0 same))) i

    purge_storage-Leaves :
        (st : Db × W)
        → ((at : Db × W) → Prepared O digest_rows run f task st at → Guard at)
        → I st.1
        → I (purge_storage O digest_rows run f task st).1.1
    unfolding purge_storage
    purge_storage-Leaves st guard i =
        let check_versions = ensure_versioning_disabled O.storage f.allow_versioned in
        let i1 = outside-Leaves I O.new_store st (reads.new_store _ i) in
        Leaves->>= I _ _ st i1 λ made was_made. Leaves-refuse I made _ _ i1 λ stored.
          let i2 = outside-Leaves I check_versions _ (reads.versioning _ _ i1) in
          Leaves->>= I _ _ _ i2 λ versioned was_versioned.
            Leaves-refuse I versioned _ _ i2 λ unversioned.
              let i3 = outside-Leaves I O.new_chain _ (reads.new_chain _ i2) in
              Leaves->>= I _ _ _ i3 λ made_chain was_made_chain.
                Leaves-refuse I made_chain _ _ i3 λ connected.
                  let i4 = outside-Leaves I O.head_bucket _ (reads.head_bucket _ i3) in
                  Leaves->>= I _ _ _ i4 λ id was_id.
                    check_bucket-Leaves id _
                      (λ same at counted. guard at (record {
                        stored = _;
                        new_store = ran (outside O.new_store) _ (was_made ∙ ap ok stored);
                        unversioned = _;
                        versioning =
                            ran (outside check_versions) _ (was_versioned ∙ ap ok unversioned);
                        connected = _;
                        new_chain = ran (outside O.new_chain) _ (was_made_chain ∙ ap ok connected);
                        known = _;
                        same_bucket = ran (outside O.head_bucket) _ (was_id ∙ ap ok same);
                        counted = counted;
                      }))
                      i4

    purge_manifest-Leaves :
        (st : Db × W)
        → ((at : Db × W) → Listed O digest_rows run f task st at → Guard at)
        → I st.1
        → I (purge_manifest O digest_rows run f task st).1.1
    unfolding purge_manifest check_list
    purge_manifest-Leaves st guard i =
        by_check (in_database (check_manifest digest_rows task) st) refl
          (in_database-Leaves I _ st i)
      where
        by_check :
            (r : Result (Unit {0}) × (Db × W))
            → in_database (check_manifest digest_rows task) st ≡ r
            → I r.1.1
            → I (check_list O digest_rows run f task r).1.1
        by_check (ok u, st') same j =
            purge_storage-Leaves st'
              (λ at p. guard at (record { listed = st'; same_list = same; prepared = p })) j
        by_check (err e, st') same j = hold_global-Leaves I task e st' j

    pub named_task-Leaves :
        (st : Db × W)
        → ((task.done_at || is_held task) ≡ false
            → (at : Db × W) → Listed O digest_rows run f task st at
            → Guard at)
        → I st.1
        → I (with_task_error (purge_task O digest_rows run f task) st).1.1
    unfolding with_task_error purge_task
    named_task-Leaves st guard i =
        Leaves-refuse_if I _ _ _ st i λ still_open. purge_manifest-Leaves st (guard still_open) i
