-- ===== src/Purge/Process/Keeps.antt =====
-- What one object attempt may do to the world (internal/purge/purge.go, ProcessOne).
use limewire_purge.Prelude.{
  ℕ, ◌≡◌, refl, Bool, true, false, inl, inr, Option, none, some, Bytes, Bool-cases, Step, world->>=,
  arith,
}
use limewire_purge.Errors.{Err, Result, ok, err}
use limewire_purge.Pieceop.{prefixes}
use limewire_purge.Purge.Env.{ObjectHead, Claimed, Options, Env}
use limewire_purge.Purge.Clear.{Cleared, clear_prefix}
use limewire_purge.Purge.Clear.Safety.{
  KeptByReads, KeptByDeletes, wait-keeps, clear_prefix-keeps, clear_prefix-keeps_in_dry_run,
}
use limewire_purge.Purge.Process.{
  Attempt, no_attempt, unless_failed, after_empty, ask_empty, recheck, recheck_both, after_cleared,
  clear_second, clear_both, after_head, ask_chain, process_one, add_cleared,
}
use limewire_purge.Purge.Process.Identity.{SameIdentity, identity_diff-nil_iff}

module _ {κ} {W : Type 0} (E : Env W) (I : W → Type κ) (opt : Options)
    (reads : KeptByReads E I) where
  -- A step keeps the property.
  abbrev Keeps : Step W Attempt → Type κ
  Keeps next = (w : W) → I w → I (next w).1

  unless_failed-Keeps :
      (error : Option Err) (res : Attempt) (next : Step W Attempt)
      → Keeps next
      → Keeps (unless_failed E opt error res next)
  unfolding unless_failed
  unless_failed-Keeps (some e) res next keeps w i = i
  unless_failed-Keeps none res next keeps w i = keeps w i

  after_empty-Keeps :
      (res : Attempt) (next : Step W Attempt) (answer : Result Bool)
      → Keeps next
      → Keeps (after_empty E opt res next answer)
  unfolding after_empty
  after_empty-Keeps res next (err e) keeps w i = i
  after_empty-Keeps res next (ok false) keeps w i = i
  after_empty-Keeps res next (ok true) keeps w i = keeps w i

  recheck-Keeps :
      (prefix : Bytes) (res : Attempt) (next : Step W Attempt)
      → Keeps next
      → Keeps (recheck E opt prefix res next)
  unfolding recheck ask_empty
  recheck-Keeps prefix res next keeps w i =
      unless_failed-Keeps _ res (ask_empty E opt prefix res next)
        (λ w' i'. after_empty-Keeps res next _ keeps _ (reads.is_empty prefix w' i')) _
        (wait-keeps E I reads w i)

  recheck_both-Keeps : (oid : ℕ) (res : Attempt) → Keeps (recheck_both E opt oid res)
  unfolding recheck_both
  recheck_both-Keeps oid res w i = elim (Bool-cases opt.dry_run) [
    | inl dry ↦ simp dry i
    | inr wet ↦ simp wet (
        recheck-Keeps (prefixes oid).0 res _ (recheck-Keeps (prefixes oid).1 res _ (λ w' i'. i')) w
          i)
  ]

  after_cleared-Keeps :
      (first : Bool) (res : Attempt) (next : Attempt → Step W Attempt) (c : Cleared)
      → ((res : Attempt) → Keeps (next res))
      → Keeps (after_cleared E opt first res next c)
  unfolding after_cleared
  after_cleared-Keeps first res next c keeps w i =
      ground (arith, keeps (add_cleared first res c) w i)

  module _ (fuel oid : ℕ)
      (clears : (prefix : Bytes) (w : W) → I w → I (clear_prefix E opt oid prefix fuel w).1) where
    clear_second-Keeps : (res : Attempt) → Keeps (clear_second E opt fuel oid res)
    unfolding clear_second
    clear_second-Keeps res w i =
        world->>= I (clear_prefix E opt oid (prefixes oid).1 fuel)
          (after_cleared E opt false res (recheck_both E opt oid)) w (clears (prefixes oid).1 w i)
          (λ c. after_cleared-Keeps false res (recheck_both E opt oid) c (recheck_both-Keeps oid))

    clear_both-Keeps : Keeps (clear_both E opt fuel oid)
    unfolding clear_both
    clear_both-Keeps w i =
        world->>= I (clear_prefix E opt oid (prefixes oid).0 fuel)
          (after_cleared E opt true no_attempt (clear_second E opt fuel oid)) w
          (clears (prefixes oid).0 w i)
          (λ c.
            after_cleared-Keeps true no_attempt (clear_second E opt fuel oid) c clear_second-Keeps)

  module _ (fuel : ℕ) (c : Claimed) where
    after_head-Keeps :
        ((prefix : Bytes) (w : W) → I w → I (clear_prefix E opt c.oid prefix fuel w).1)
        → (answer : Result ObjectHead) → Keeps (after_head E opt fuel c answer)
    unfolding after_head
    after_head-Keeps clears (err e) w i = i
    after_head-Keeps clears (ok h) w i = ground (arith, i, clear_both-Keeps fuel c.oid clears w i)

    process_one-Keeps_by :
        ((prefix : Bytes) (w : W) → I w → I (clear_prefix E opt c.oid prefix fuel w).1)
        → Keeps (process_one E opt fuel c)
    unfolding process_one ask_chain
    process_one-Keeps_by clears w i =
        unless_failed-Keeps _ no_attempt (ask_chain E opt fuel c)
          (λ w' i'. after_head-Keeps clears _ _ (reads.head_object c.oid w' i')) _ (reads.check w i)

    -- An attempt at an object keeps whatever neither a read nor a deletion of well-formed pieces of
    -- that object breaks, in every environment, on every branch, and also in a run that is cut off.
    pub process_one-keeps :
        KeptByDeletes E c.oid I → (w : W) → I w → I (process_one E opt fuel c w).1
    process_one-keeps deletes =
        process_one-Keeps_by λ prefix. clear_prefix-keeps E I reads opt c.oid prefix deletes fuel

    -- In a dry run an attempt only reads.
    pub process_one-keeps_in_dry_run :
        opt.dry_run ≡ true → (w : W) → I w → I (process_one E opt fuel c w).1
    process_one-keeps_in_dry_run dry =
        process_one-Keeps_by
          λ prefix w. clear_prefix-keeps_in_dry_run E I reads opt c.oid prefix fuel w dry

    -- Unless the chain's answer agrees with the snapshot in id, bucket, status, version and payload
    -- size, an attempt only reads, whatever the store would do.
    pub process_one-keeps_unless_confirmed :
        ((w : W) (h : ObjectHead)
          → (E.head_object c.oid w).0 ≡ ok h
          → ¬ SameIdentity c h opt.bucket)
        → (w : W) → I w
        → I (process_one E opt fuel c w).1
    unfolding process_one ask_chain
    process_one-keeps_unless_confirmed differs w i =
        unless_failed-Keeps _ no_attempt (ask_chain E opt fuel c)
          (λ w' i'. refused _ _ (reads.head_object c.oid w' i') (differs w')) _ (reads.check w i)
      where
        refused :
            (answer : Result ObjectHead) (w : W)
            → I w
            → ((h : ObjectHead) → answer ≡ ok h → ¬ SameIdentity c h opt.bucket)
            → I (after_head E opt fuel c answer w).1
        refused (err e) w i no_match = unfold after_head in i
        refused (ok h) w i no_match =
            unfold after_head in
            ground (arith, i, (identity_diff-nil_iff c h opt.bucket).0, no_match h refl)
