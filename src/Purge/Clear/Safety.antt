-- ===== src/Purge/Clear/Safety.antt =====
-- What the purge loop may do to the world: read, and delete pieces of its own object
-- (internal/purge/purge.go, clearPrefix).
use limewire_purge.Prelude.{
  ℕ, zero, suc, ◌+◌, ◌≡◌, true, inl, inr, List, [], ◌∷◌, Option, none, some, Bytes, All, Bool-cases,
  arith,
}
use limewire_purge.Errors.{Err, Result, ok, err}
use limewire_purge.Pieceop.{keep_only}
use limewire_purge.Pieceop.Keep.{IsPieceOf, keep_only-Splits}
use limewire_purge.Purge.Env.{Object, Deletion, Options, Preview, Env, unless_error, wait}
use limewire_purge.Purge.Clear.{
  Round, Again, retry_after, list_failed, after_failures, after_request, after_delete,
  delete_listed, after_listing, listed, one_round, rounds, blame, count_deleted, size_of, reasons,
  preview, preview_page, clear_prefix, keys_of, backoff_ms,
}

-- A property that no read-only call of the environment breaks.
pub record KeptByReads {κ} {W : Type 0} (E : Env W) (I : W → Type κ) : Type κ where
  pub context_error : (w : W) → I w → I (E.context_error w).1
  pub check : (w : W) → I w → I (E.check w).1
  pub rate_wait : (w : W) → I w → I (E.rate_wait w).1
  pub sleep : (n : ℕ) (w : W) → I w → I (E.sleep n w).1
  pub list_keys : (prefix : Bytes) (max : ℕ) (w : W) → I w → I (E.list_keys prefix max w).1
  pub list_all :
      (prefix : Bytes) (page : List Object → Preview → W → (Option Err × Preview) × W)
      → ((objs : List Object) (p : Preview) (w : W) → I w → I (page objs p w).1)
      → (p : Preview) (w : W) → I w
      → I (E.list_all prefix page p w).1
  pub is_empty : (prefix : Bytes) (w : W) → I w → I (E.is_empty prefix w).1
  pub head_object : (oid : ℕ) (w : W) → I w → I (E.head_object oid w).1

-- A property that no deletion of pieces of the object breaks.
abbrev pub KeptByDeletes {κ} : {W : Type 0} → Env W → ℕ → (W → Type κ) → Type κ
KeptByDeletes {W} E oid I =
    (batch : List Bytes) (w : W) → All (IsPieceOf oid) batch → I w → I (E.delete_keys oid batch w).1

world-unless_error {κ} :
    {W : Type 0} (I : W → Type κ) (r : Option Err × W) (next : W → Option Err × W)
    → I r.1
    → ((w : W) → I w → I (next w).1)
    → I (unless_error r next).1
world-unless_error I (none, w) next i k = k w i
world-unless_error I (some e, w) next i k = i

module _ {κ} {W : Type 0} (E : Env W) (I : W → Type κ) (reads : KeptByReads E I) where
  pub wait-keeps : (w : W) → I w → I (wait E w).1
  unfolding wait
  wait-keeps w i = ground (
    arith,
    reads.context_error w i,
    reads.check (E.context_error w).1,
    reads.rate_wait (E.check (E.context_error w).1).1,
  )

  module _ (opt : Options) (oid : ℕ) (prefix : Bytes) (again : Again {W = W} E opt oid prefix)
      (again_keeps : (s : Round) (w : W) → I w → I (again s w).1) where
    retry_after-keeps :
        (n : ℕ) (s : Round) (w : W) → I w → I (retry_after E opt oid prefix again n s w).1
    unfolding retry_after
    retry_after-keeps n s w i =
        ground (arith, reads.sleep (backoff_ms n) w i, again_keeps s (E.sleep (backoff_ms n) w).1)

    list_failed-keeps :
        (s : Round) (e : Err) (w : W) → I w → I (list_failed E opt oid prefix again s e w).1
    unfolding list_failed
    list_failed-keeps s e w i = ground (
      arith,
      retry_after-keeps (s.list_fails + 1) (record s { list_fails = s.list_fails + 1 }) w i,
    )

    after_failures-keeps :
        (batch reason : List Bytes) (s : Round) (w : W)
        → I w
        → I (after_failures E opt oid prefix again batch reason s w).1
    unfolding after_failures
    after_failures-keeps batch reason s w i =
        let b =
          blame opt.max_retry reason batch (record { fails = s.fails; worst = 0; stuck = [] }) in
        ground (arith, retry_after-keeps b.worst (record s { fails = b.fails }) w i)

    after_request-keeps :
        (objs : List Object) (batch : List Bytes) (s : Round) (d : Deletion) (w : W)
        → I w
        → I (after_request E opt oid prefix again objs batch s d w).1
    unfolding after_request
    after_request-keeps objs batch s d w i =
        let s' = count_deleted (size_of objs) d.deleted s in
        ground (arith, again_keeps s' w i, after_failures-keeps batch (reasons batch d) s' w i)

    after_delete-keeps :
        (objs : List Object) (batch : List Bytes) (s : Round) (d : Deletion) (w : W)
        → I w
        → I (after_delete E opt oid prefix again objs batch s d w).1
    unfolding after_delete
    after_delete-keeps objs batch s d w i = ground (arith, after_request-keeps objs batch s d w i)

    module _ (deletes : KeptByDeletes E oid I) where
      delete_listed-keeps :
          (objs : List Object) (s : Round) (w : W)
          → I w
          → I (delete_listed E opt oid prefix again objs s w).1
      unfolding delete_listed
      delete_listed-keeps objs s w i =
          let batch = (keep_only (keys_of objs) oid).0 in
          let w' = (wait E w).1 in
          let (d, w'') = E.delete_keys oid batch w' in
          let pieces = (keep_only-Splits (keys_of objs) oid).kept_pieces in
          let waited = wait-keeps w i in
          let gone = deletes batch w' pieces waited in
          ground (arith, waited, after_delete-keeps objs batch s d w'' gone)

      after_listing-keeps :
          (s : Round) (r : Result (List Object)) (w : W)
          → I w
          → I (after_listing E opt oid prefix again s r w).1
      unfolding after_listing listed
      after_listing-keeps s (err e) w i = list_failed-keeps s e w i
      after_listing-keeps s (ok []) w i = i
      after_listing-keeps s (ok (o ∷ objs)) w i =
          delete_listed-keeps (o ∷ objs) (record s { list_fails = 0 }) w i

      one_round-keeps : (s : Round) (w : W) → I w → I (one_round E opt oid prefix again s w).1
      unfolding one_round
      one_round-keeps s w i =
          let w' = (wait E w).1 in
          let (listing, w'') = E.list_keys prefix 1000 w' in
          let waited = wait-keeps w i in
          ground (
            arith,
            waited,
            after_listing-keeps s listing w'' (reads.list_keys prefix 1000 w' waited),
          )

  preview_page-keeps :
      (opt : Options) (oid : ℕ) (prefix : Bytes) (objs : List Object) (p : Preview) (w : W)
      → I w
      → I (preview_page E opt oid prefix objs p w).1
  unfolding preview_page
  preview_page-keeps opt oid prefix objs p w i = wait-keeps w i

  -- A dry run only reads: whatever no read breaks is kept, however the store answers.
  pub clear_prefix-keeps_in_dry_run :
      (opt : Options) (oid : ℕ) (prefix : Bytes) (fuel : ℕ) (w : W)
      → opt.dry_run ≡ true
      → I w
      → I (clear_prefix E opt oid prefix fuel w).1
  unfolding clear_prefix preview
  clear_prefix-keeps_in_dry_run opt oid prefix fuel w dry i = rw dry (
      reads.list_all prefix (preview_page E opt oid prefix) (preview_page-keeps opt oid prefix) _ w
        i)

  module _ (opt : Options) (oid : ℕ) (prefix : Bytes) (deletes : KeptByDeletes E oid I) where
    rounds-keeps : (fuel : ℕ) (s : Round) (w : W) → I w → I (rounds E opt oid prefix fuel s w).1
    unfolding rounds
    rounds-keeps zero s w i = i
    rounds-keeps (suc fuel) s w i =
        one_round-keeps opt oid prefix (rounds E opt oid prefix fuel) (rounds-keeps fuel) deletes s
          w i

    -- Whatever neither a read nor a deletion of well-formed pieces of this object breaks is kept, in
    -- every environment, on every branch, and also in a run that is cut off.
    pub clear_prefix-keeps : (fuel : ℕ) (w : W) → I w → I (clear_prefix E opt oid prefix fuel w).1
    unfolding clear_prefix
    clear_prefix-keeps fuel w i = elim (Bool-cases opt.dry_run) [
      | inl dry ↦ unfold clear_prefix in clear_prefix-keeps_in_dry_run opt oid prefix fuel w dry i
      | inr wet ↦ rw wet (rounds-keeps fuel _ w i)
    ]
