-- ===== src/Purge/Handle/Report.antt =====
-- A failure is never lost: it shows in what the run reports (internal/purge/purge.go, handle, stop,
-- halt and finish).
use limewire_purge.Prelude.{
  ℕ, ◌≡◌, ◌↔◌, ◌⊎◌, true, false, inl, inr, [], Option, none, some, Option-cases, Bool-cases,
  Yields->>=, arith,
}
use limewire_purge.Errors.{Err, is_safety, joined, message}
use limewire_purge.Purge.Env.{Claimed, Options, Env}
use limewire_purge.Purge.Process.{Attempt, process_one}
use limewire_purge.Purge.Handle.{
  Tally, has, halt, after_fail, record_failure, after_done, record_done, stop_failed, halt_failed,
  unless_cut_short, failed_attempt, settle, attempt, unless_cancelled, handle, count_attempt,
  count_failed, finish,
}

-- The run is over without any trouble.
pub record AllWell (t : Tally) (claim_error cancelled : Option Err) : Type 0 where
  pub not_halted : t.halt_error ≡ none
  pub claimed_all : claim_error ≡ none
  pub not_stopped : t.stop_error ≡ none
  pub none_failed : t.failed ≡ 0
  pub all_recorded : t.unrecorded ≡ []
  pub not_cancelled : cancelled ≡ none

finish_sound :
    (t : Tally) (claim_error cancelled : Option Err)
    → finish t claim_error cancelled ≡ none
    → AllWell t claim_error cancelled
unfolding finish
finish_sound t claim_error cancelled e = ground arith

finish_complete :
    (t : Tally) (claim_error cancelled : Option Err)
    → AllWell t claim_error cancelled
    → finish t claim_error cancelled ≡ none
unfolding finish
finish_complete t claim_error cancelled well = ground arith

-- A run reports no error exactly when it was neither halted nor stopped nor cancelled, every claim
-- succeeded, no object failed, and every result is in the progress table.
pub finish-none_iff :
    (t : Tally) (claim_error cancelled : Option Err)
    → (finish t claim_error cancelled ≡ none) ↔ AllWell t claim_error cancelled
finish-none_iff t claim_error cancelled =
    (finish_sound t claim_error cancelled, finish_complete t claim_error cancelled)

-- The error that a run reports after a safety violation is still one.
pub finish-is_safety :
    (t : Tally) (claim_error cancelled : Option Err) (h : Err)
    → t.halt_error ≡ some h
    → is_safety h ≡ true
    → (e : Err) × (finish t claim_error cancelled ≡ some e) × (is_safety e ≡ true)
unfolding finish
finish-is_safety t claim_error cancelled h halted safe = elim (Option-cases t.stop_error) [
  | inl going ↦ (joined h (message "problems"), ground arith, ground arith)
  | inr (s, stopped) ↦ (joined h (joined s (message "problems")), ground arith, ground arith)
]

-- Unless the run was halted or stopped, no object has failed and every result is recorded.
abbrev pub IsAlarmed : Tally → Type 0
IsAlarmed t =
    (has t.halt_error ≡ true)
    ⊎ (has t.stop_error ≡ true)
    ⊎ ((t.failed ≡ 0) × (t.failed_list ≡ []) × (t.unrecorded ≡ []))

module _ {W : Type 0} (E : Env W) where
  abbrev Alarms : Option Tally × W → Type 0
  Alarms r = (t : Tally) → r.0 ≡ some t → IsAlarmed t

  record_failure-Alarms :
      (c : Claimed) (res : Attempt) (e : Err) (t : Tally) (w : W)
      → (has t.halt_error ≡ true) ⊎ (has t.stop_error ≡ true)
      → Alarms (record_failure E c res e t w)
  unfolding record_failure
  record_failure-Alarms c res e t w loud = go _ _
    where
      go : (written : Option Err) (w : W) → Alarms (after_fail E c t written w)
      go (some e) w t' same = unfold after_fail in ground arith
      go none w t' same = unfold after_fail in ground arith

  record_done-Alarms :
      (opt : Options) (c : Claimed) (res : Attempt) (t : Tally) (w : W)
      → IsAlarmed t
      → Alarms (record_done E opt c res t w)
  unfolding record_done
  record_done-Alarms opt c res t w alarmed = go _ _
    where
      go : (written : Option Err) (w : W) → Alarms (after_done E c t written w)
      go (some e) w t' same = unfold after_done in ground arith
      go none w t' same = unfold after_done in ground arith

  halt-has :
      (oid : ℕ) (e : Err) (t : Tally) (w : W) (t' : Tally)
      → (halt E oid e t w).0 ≡ some t'
      → has t'.halt_error ≡ true
  unfolding halt
  halt-has oid e t w t' same = ground arith

  failed_attempt-Alarms :
      (c : Claimed) (res : Attempt) (e : Err) (t : Tally) (w : W)
      → IsAlarmed t
      → Alarms (failed_attempt E c res e t w)
  unfolding failed_attempt
  failed_attempt-Alarms c res e t w alarmed t' same = elim (Bool-cases (is_safety e)) [
    | inl safe ↦ halting t' (ground (arith, safe))
    | inr plain ↦ unless_cut (E.context_error w).0 (E.context_error w).1 t' (ground (arith, plain))
  ]
    where
      halting : Alarms (halt_failed E c res e t w)
      halting =
          unfold halt_failed in
          Yields->>= (λ t' _. has t'.halt_error ≡ true) (λ t' _. IsAlarmed t') (halt E c.oid e t)
            (λ t'. record_failure E c res e (count_failed t')) w (halt-has c.oid e t w)
            λ t' w' loud.
              record_failure-Alarms c res e (count_failed t') w' (unfold count_failed in inl loud)

      unless_cut : (cut : Option Err) (w : W) → Alarms (unless_cut_short E c res e t cut w)
      unless_cut (some e') w t' same = unfold unless_cut_short in ground arith
      unless_cut none w t' same =
          unfold unless_cut_short stop_failed in
          record_failure-Alarms c res e _ w (ground arith) t' same

  module _ (opt : Options) (fuel : ℕ) (c : Claimed) (t : Tally) where
    settle-Alarms :
        (res : Attempt) (t : Tally) (w : W) (error : Option Err)
        → opt.dry_run ≡ false
        → IsAlarmed t
        → Alarms (settle E opt c res t error w)
    unfolding settle
    settle-Alarms res t w (some e) wet alarmed =
        simp wet (failed_attempt-Alarms c res e t w alarmed)
    settle-Alarms res t w none wet alarmed = simp wet (record_done-Alarms opt c res t w alarmed)

    attempt-Alarms : (w : W) → opt.dry_run ≡ false → IsAlarmed t → Alarms (attempt E opt fuel c t w)
    unfolding attempt count_attempt
    attempt-Alarms w wet alarmed =
        Yields->>= (λ _ _. Unit {0}) (λ t' _. IsAlarmed t') (process_one E opt fuel c)
          (λ res. settle E opt c res (count_attempt opt c res t) res.error) w (λ _ _. tt)
          λ res w' _. settle-Alarms res (count_attempt opt c res t) w' res.error wet alarmed

    -- Handling an object in a real run loses no failure: if an object failed, was put on the list of
    -- failures, or has no record in the progress table, then the run is halted or stopped, so that
    -- `finish` reports an error and no further object is started.
    pub handle-IsAlarmed :
        (w : W) (t' : Tally)
        → opt.dry_run ≡ false
        → IsAlarmed t
        → (handle E opt fuel c t w).0 ≡ some t'
        → IsAlarmed t'
    unfolding handle
    handle-IsAlarmed w t' wet alarmed same = go _ _ t' same
      where
        go : (cancelled : Option Err) (w : W) → Alarms (unless_cancelled E opt fuel c t cancelled w)
        go (some e) w t' same = unfold unless_cancelled in ground arith
        go none w t' same = unfold unless_cancelled in attempt-Alarms w wet alarmed t' same
