-- ===== src/Purge/Handle/Keeps.antt =====
-- What handling one object may do to the world (internal/purge/purge.go, handle).
use limewire_purge.Prelude.{
  ℕ, ◌≡◌, refl, true, false, Option, none, some, world->>=, world_at->>=, arith,
}
use limewire_purge.Errors.{Err}
use limewire_purge.Purge.SizeCheck.{SizeCheck}
use limewire_purge.Purge.Env.{Claimed, Options, Env}
use limewire_purge.Purge.Clear.Safety.{KeptByReads, KeptByDeletes}
use limewire_purge.Purge.Process.{Attempt, process_one}
use limewire_purge.Purge.Process.Keeps.{process_one-keeps, process_one-keeps_in_dry_run}
use limewire_purge.Purge.Process.Outcome.{Verified, process_one-Verified}
use limewire_purge.Purge.Handle.{
  Tally, halt, after_fail, record_failure, after_done, record_done, stop_failed, halt_failed,
  unless_cut_short, failed_attempt, settle, attempt, unless_cancelled, handle, check_of,
  count_attempt, count_failed,
}

-- A property that the records of a failure and of a safety violation do not break.
pub record KeptByFailures {κ} {W : Type 0} (E : Env W) (I : W → Type κ) : Type κ where
  pub fail : (oid keys bytes : ℕ) (e : Err) (w : W) → I w → I (E.fail oid keys bytes e w).1
  pub cancel : (w : W) → I w → I (E.cancel w).1
  pub on_safety : (oid : ℕ) (e : Err) (w : W) → I w → I (E.on_safety oid e w).1

-- An attempt begun somewhere has left this world, and verified the object on its way.
abbrev pub VerifiedAfter : {W : Type 0} → Env W → Options → Claimed → W → Type 0
VerifiedAfter {W} E opt c w = (fuel : ℕ) × (start : W) × Verified E opt c fuel start w

-- A property that recording a verified object does not break.
abbrev pub KeptByVerifiedDone {κ} : {W : Type 0} → Env W → Options → Claimed → (W → Type κ) → Type κ
KeptByVerifiedDone {W} E opt c I =
    (keys bytes : ℕ) (check : SizeCheck) (w : W)
    → VerifiedAfter E opt c w
    → I w
    → I (E.done c.oid keys bytes check w).1

module _ {κ} {W : Type 0} (E : Env W) (I : W → Type κ) (opt : Options) (reads : KeptByReads E I)
    (failures : KeptByFailures E I) where
  record_failure-keeps :
      (c : Claimed) (res : Attempt) (e : Err) (t : Tally) (w : W)
      → I w
      → I (record_failure E c res e t w).1
  unfolding record_failure
  record_failure-keeps c res e t w i = go _ _ (failures.fail c.oid res.keys res.bytes e w i)
    where
      go : (written : Option Err) (w : W) → I w → I (after_fail E c t written w).1
      go (some e) w i = unfold after_fail in i
      go none w i = unfold after_fail in i

  record_done-keeps :
      (c : Claimed) (res : Attempt) (t : Tally) (w : W)
      → KeptByVerifiedDone E opt c I
      → VerifiedAfter E opt c w
      → I w
      → I (record_done E opt c res t w).1
  unfolding record_done
  record_done-keeps c res t w dones v i =
      go _ _ (dones res.keys res.bytes (check_of opt res c) w v i)
    where
      go : (written : Option Err) (w : W) → I w → I (after_done E c t written w).1
      go (some e) w i = unfold after_done in i
      go none w i = unfold after_done in i

  halt-keeps : (oid : ℕ) (e : Err) (t : Tally) (w : W) → I w → I (halt E oid e t w).1
  unfolding halt
  halt-keeps oid e t w i =
      let w' = (E.cancel w).1 in
      let cancelled = failures.cancel w i in
      ground (arith, i, failures.on_safety oid e w' cancelled)

  failed_attempt-keeps :
      (c : Claimed) (res : Attempt) (e : Err) (t : Tally) (w : W)
      → I w
      → I (failed_attempt E c res e t w).1
  unfolding failed_attempt
  failed_attempt-keeps c res e t w i =
      let cut = unless_cut (E.context_error w).0 (E.context_error w).1 (reads.context_error w i) in
      ground (arith, cut, halting)
    where
      halting : I (halt_failed E c res e t w).1
      halting =
          unfold halt_failed in
          world->>= I (halt E c.oid e t) (λ t'. record_failure E c res e (count_failed t')) w
            (halt-keeps c.oid e t w i) (λ t'. record_failure-keeps c res e (count_failed t'))

      unless_cut : (cut : Option Err) (w : W) → I w → I (unless_cut_short E c res e t cut w).1
      unless_cut (some e') w i = unfold unless_cut_short in i
      unless_cut none w i =
          unfold unless_cut_short stop_failed in record_failure-keeps c res e _ w i

  settle-keeps :
      (c : Claimed) (res : Attempt) (t : Tally) (w : W)
      → KeptByVerifiedDone E opt c I
      → opt.dry_run ≡ false
      → (error : Option Err) → (error ≡ none → VerifiedAfter E opt c w)
      → I w
      → I (settle E opt c res t error w).1
  unfolding settle
  settle-keeps c res t w dones wet (some e) v i = ground (arith, failed_attempt-keeps c res e t w i)
  settle-keeps c res t w dones wet none v i =
      simp wet (record_done-keeps c res t w dones (v refl) i)

  module _ (fuel : ℕ) (c : Claimed) (t : Tally) where
    attempt-keeps :
        opt.dry_run ≡ false
        → KeptByDeletes E c.oid I
        → KeptByVerifiedDone E opt c I
        → (w : W) → I w
        → I (attempt E opt fuel c t w).1
    unfolding attempt
    attempt-keeps wet deletes dones w i =
        world_at->>= I (process_one E opt fuel c)
          (λ res. settle E opt c res (count_attempt opt c res t) res.error) w
          (process_one-keeps E I opt reads fuel c deletes w i)
          λ res same.
            settle-keeps c res (count_attempt opt c res t) _ dones wet res.error
              (λ clean. (fuel, w, process_one-Verified E opt c fuel w res wet same clean))
              (process_one-keeps E I opt reads fuel c deletes w i)

    -- In a real run, handling an object reads, deletes pieces of that object only, may record its
    -- failure or a safety violation, and records it as done only in a world that an attempt left behind
    -- a confirmed identity, an empty listing at the end of the clearing of each prefix, and a re-check
    -- that found both empty: whatever those calls keep is kept, in every environment.
    pub handle-keeps :
        opt.dry_run ≡ false
        → KeptByDeletes E c.oid I
        → KeptByVerifiedDone E opt c I
        → (w : W) → I w
        → I (handle E opt fuel c t w).1
    unfolding handle
    handle-keeps wet deletes dones w i = go _ _ (reads.context_error w i)
      where
        go :
            (cancelled : Option Err) (w : W)
            → I w
            → I (unless_cancelled E opt fuel c t cancelled w).1
        go (some e) w i = unfold unless_cancelled in i
        go none w i = unfold unless_cancelled in attempt-keeps wet deletes dones w i

module _ {κ} {W : Type 0} (E : Env W) (I : W → Type κ) (opt : Options) (reads : KeptByReads E I)
    (fuel : ℕ) (c : Claimed) (t : Tally) where
  -- A dry run deletes nothing and records nothing: whatever the reads keep is kept.
  pub handle-keeps_in_dry_run : opt.dry_run ≡ true → (w : W) → I w → I (handle E opt fuel c t w).1
  unfolding handle
  handle-keeps_in_dry_run dry w i = go _ _ (reads.context_error w i)
    where
      go :
          (cancelled : Option Err) (w : W) → I w → I (unless_cancelled E opt fuel c t cancelled w).1
      go (some e) w i = unfold unless_cancelled in i
      go none w i =
          unfold unless_cancelled attempt in
          world->>= I (process_one E opt fuel c)
            (λ res. settle E opt c res (count_attempt opt c res t) res.error) w
            (process_one-keeps_in_dry_run E I opt reads fuel c dry w i)
            λ res w' i'. unfold settle in simp dry i'
