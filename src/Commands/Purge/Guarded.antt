-- ===== src/Commands/Purge/Guarded.antt =====
-- What stands before a deletion run starts (cmd/limewire-purge/main.go, runPurge).
use limewire_purge.Prelude.{
  ℕ, ◌≡◌, ◌⊎◌, refl, sym, ap, subst, ◌∙◌, inl, inr, Bool, true, false, not, ◌&&◌, List, Option,
  Bytes, bytes_eq, bytes_eq-eq, arith,
}
use limewire_purge.Errors.{Err, Result, ok}
use limewire_purge.Progress.Tables.{ScanRow, Binding, Subtask}
use limewire_purge.Progress.Session.{Db}
use limewire_purge.Progress.Scan.{check_binding, require_complete_scan}
use limewire_purge.Progress.Resolve.{resolve_purge_subtask}
use limewire_purge.Commands.{Command, ◌>>=◌, ◌>>◌, pure, throw, refuse_if, in_database}
use limewire_purge.Commands.World.{
  Leaves->>=, Leaves->>, Leaves-refuse_if, Leaves-given, in_database-Leaves,
}
use limewire_purge.Commands.Inversion.{ran, refuse_if_sound, then_halves}
use limewire_purge.Commands.Purge.{Flags, Outside, check_flags, run_purge}
use limewire_purge.Commands.Purge.Chain.{Guarded}
use limewire_purge.Commands.Purge.Steps.{KeptByReads, named_task-Leaves}

same_bytes : (a b : Bytes) → not (bytes_eq a b) ≡ false → a ≡ b
same_bytes a b e = bytes_eq-eq a b (ground (arith, e))

refusals_stay :
    {W : Type 0}
    → (a b c : Bool) (x y z : Err) (st : Db × W)
    → ((refuse_if a x >> (refuse_if b y >> refuse_if c z)) st).1 ≡ st
unfolding ◌>>◌ ◌>>=◌ refuse_if pure throw
refusals_stay true b c x y z st = refl
refusals_stay false true c x y z st = refl
refusals_stay false false true x y z st = refl
refusals_stay false false false x y z st = refl

check_flags_stays : {W : Type 0} → (f : Flags) (st : Db × W) → (check_flags f st).1 ≡ st
unfolding check_flags
check_flags_stays f st = refusals_stay _ _ _ _ _ _ st

module _ {W : Type 0} (O : Outside W) (digest_rows : List ScanRow → ℕ)
    (run : Subtask → (data_chunks segment_size total : ℕ) → Db × W → Option Err × (Db × W))
    (I : W → Type 0) (reads : KeptByReads O I) (f : Flags) where
  check_flags_confirmed :
      (st : Db × W) → (check_flags f st).0 ≡ ok tt → (f.execute ≡ true) ⊎ (f.dry_run ≡ true)
  unfolding check_flags
  check_flags_confirmed st e =
      by_flags f.execute f.dry_run refl refl
        (refuse_if_sound _ _ st tt (then_halves _ _ st tt e).first)
    where
      by_flags :
          (execute dry : Bool)
          → f.execute ≡ execute
          → f.dry_run ≡ dry
          → (not execute && not dry) ≡ false
          → (f.execute ≡ true) ⊎ (f.dry_run ≡ true)
      by_flags true dry e d h = inl e
      by_flags false true e d h = inr d
      by_flags false false e d h = absurd (cc)

  Leaves-check_flags {κ} :
      {B : Type κ} (k : Command W B) (st : Db × W)
      → I st.1
      → ((f.execute ≡ true) ⊎ (f.dry_run ≡ true) → I (k st).1.1)
      → I ((check_flags f >> k) st).1.1
  Leaves-check_flags k st i h =
      let same = sym (check_flags_stays f st) in
      Leaves->> I _ k st (subst (λ st'. I st'.1) same i)
        λ fine. subst (λ st'. I (k st').1.1) same (h (check_flags_confirmed st fine))

  -- Whatever a run of a guarded task keeps, and the reads of the set-up keep, the whole `purge` keeps:
  -- no run starts, and so nothing is deleted, unless deletion is confirmed or this is a preview, the
  -- chain id is that of the configuration, and these calls have succeeded, the first on the database
  -- that the command met and each further one on the state that the one before it left: the check of
  -- the binding, that of the scan, the resolution of the task, which is open and not held, the check
  -- of its list, the client and the versioning of the bucket, the chain's answer with the expected id,
  -- the layout, the count of objects, which is not 0, and, unless this is a preview, `BeginPurge`,
  -- which leaves the state that the run starts in.
  pub run_purge-keeps :
      (config_chain : Result Bytes) (binding : Result Binding) (st : Db × W)
      → ((task : Subtask) (chunks segment total : ℕ) (at : Db × W)
          → Guarded O digest_rows run f task config_chain binding st at
          → I at.1
          → I (run task chunks segment total at).1.1)
      → I st.1
      → I (run_purge O digest_rows run f config_chain binding st).1.1
  unfolding run_purge
  run_purge-keeps config_chain binding st run_keeps i = Leaves-check_flags _ st i λ confirmed.
      Leaves-given I config_chain _ st i λ chain chain_given.
        Leaves-refuse_if I (not (bytes_eq f.chain_id chain)) _ _ st i λ chain_fine.
          Leaves-given I binding _ st i λ b configured.
            let i1 = in_database-Leaves I (check_binding b) st i in
            Leaves->> I _ _ st i1 λ bound.
              let i2 = in_database-Leaves I require_complete_scan _ i1 in
              Leaves->> I _ _ _ i2 λ complete.
                let i3 = in_database-Leaves I (resolve_purge_subtask f.task_id) _ i2 in
                Leaves->>= I _ _ _ i3 λ task resolved.
                  named_task-Leaves O digest_rows run I reads f task
                    (Guarded O digest_rows run f task config_chain binding st) (run_keeps task) _
                    (λ still_open at list_checked. record {
                      confirmed = confirmed;
                      same_chain =
                          chain_given ∙ ap ok (sym (same_bytes f.chain_id chain chain_fine));
                      bound_to = b;
                      configured = configured;
                      bound = _;
                      same_binding = ran (in_database (check_binding b)) st bound;
                      complete = _;
                      complete_scan = ran (in_database require_complete_scan) _ complete;
                      resolved = _;
                      task_found = ran (in_database (resolve_purge_subtask f.task_id)) _ resolved;
                      open_task = still_open;
                      list_checked = list_checked;
                    })
                    i3
