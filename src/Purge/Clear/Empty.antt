-- ===== src/Purge/Clear/Empty.antt =====
-- A prefix counts as cleared only on an empty listing (internal/purge/purge.go, clearPrefix).
use limewire_purge.Prelude.{
  ℕ, zero, suc, ◌+◌, ◌≡◌, refl, false, List, [], ◌∷◌, Option, none, some, Bytes, Step, arith,
}
use limewire_purge.Errors.{Err, safety, wrapped, message, Result, ok, err}
use limewire_purge.Pieceop.{keep_only}
use limewire_purge.Purge.Env.{Object, Deletion, Options, Env, wait}
use limewire_purge.Purge.Clear.{
  Cleared, Round, Again, retry_after, list_failed, after_failures, after_request, after_delete,
  delete_listed, listed, after_listing, one_round, rounds, clear_prefix, keys_of, blame,
  count_deleted, size_of, reasons, stopped, cleared, unless_stopped, send_batch, list_prefix,
  unknown_keys, start,
}

-- The rule of the loop: a property of outcomes holds of every run if it holds where the fuel runs
-- out, where a round stops with an error, and where a listing is empty.
module _ {κ} {W : Type 0} (E : Env W) (opt : Options) (oid : ℕ) (prefix : Bytes)
    (P : Option Cleared × W → Type κ) (at_end : (w : W) → P (none, w))
    (at_error : (c : Cleared) (e : Err) (w : W) → c.error ≡ some e → P (some c, w))
    (at_empty : (s : Round) (before w : W)
      → E.list_keys prefix 1000 before ≡ (ok [], w)
      → P (some (cleared s), w)) where
  stopped-holds : (s : Round) (e : Err) (w : W) → P (some (stopped s e), w)
  unfolding stopped
  stopped-holds s e w = at_error _ e w refl

  unless_stopped-holds :
      (interrupted : Option Err) (s : Round) (next : Step W Cleared) (w : W)
      → P (next w)
      → P (unless_stopped interrupted s next w)
  unfolding unless_stopped
  unless_stopped-holds (some e) s next w h = stopped-holds s e w
  unless_stopped-holds none s next w h = h

  module _ (again : Again E opt oid prefix)
      (again_holds : (s : Round) (w : W) → P (again s w)) where
    retry_after-holds : (n : ℕ) (s : Round) (w : W) → P (retry_after E opt oid prefix again n s w)
    unfolding retry_after
    retry_after-holds n s w = unless_stopped-holds _ s (again s) _ (again_holds s _)

    list_failed-holds : (s : Round) (e : Err) (w : W) → P (list_failed E opt oid prefix again s e w)
    unfolding list_failed
    list_failed-holds s e w =
        let s' = record s { list_fails = s.list_fails + 1 } in
        ground (
          arith,
          stopped-holds s' (wrapped "list failed after retries" e) w,
          retry_after-holds s'.list_fails s' w,
        )

    after_failures-holds :
        (batch reason : List Bytes) (s : Round) (w : W)
        → P (after_failures E opt oid prefix again batch reason s w)
    unfolding after_failures
    after_failures-holds batch reason s w =
        let b =
          blame opt.max_retry reason batch (record { fails = s.fails; worst = 0; stuck = [] }) in
        let s' = record s { fails = b.fails } in
        ground (
          arith,
          stopped-holds s' (message "pieces still failing after retries") w,
          retry_after-holds b.worst s' w,
        )

    after_request-holds :
        (objs : List Object) (batch : List Bytes) (s : Round) (d : Deletion) (w : W)
        → P (after_request E opt oid prefix again objs batch s d w)
    unfolding after_request
    after_request-holds objs batch s d w =
        let s' = count_deleted (size_of objs) d.deleted s in
        ground (arith, again_holds s' w, after_failures-holds batch (reasons batch d) s' w)

    after_delete-holds :
        (objs : List Object) (batch deleted failed : List Bytes) (error : Option Err) (s : Round)
        (w : W)
        → P (
            after_delete E opt oid prefix again objs batch s
              (record { deleted = deleted; failed = failed; error = error })
              w)
    unfolding after_delete
    after_delete-holds objs batch deleted failed none s w = after_request-holds objs batch s _ w
    after_delete-holds objs batch deleted failed (some e) s w =
        let d : Deletion = record { deleted = deleted; failed = failed; error = some e } in
        ground (arith, stopped-holds s (safety e) w, after_request-holds objs batch s d w)

    send_batch-holds :
        (objs : List Object) (batch : List Bytes) (s : Round) (w : W)
        → P (send_batch E opt oid prefix again objs batch s w)
    unfolding send_batch
    send_batch-holds objs batch s w =
        let (d, w') = E.delete_keys oid batch w in
        after_delete-holds objs batch d.deleted d.failed d.error s w'

    delete_listed-holds :
        (objs : List Object) (s : Round) (w : W) → P (delete_listed E opt oid prefix again objs s w)
    unfolding delete_listed
    delete_listed-holds objs s w =
        let (batch, rejected) = keep_only (keys_of objs) oid in
        let (interrupted, w') = wait E w in
        let next = send_batch E opt oid prefix again objs batch s in
        ground (
          arith,
          stopped-holds s unknown_keys w,
          unless_stopped-holds interrupted s next w' (send_batch-holds objs batch s w'),
        )

    after_listing-holds :
        (s : Round) (r : Result (List Object)) (before w : W)
        → E.list_keys prefix 1000 before ≡ (r, w)
        → P (after_listing E opt oid prefix again s r w)
    unfolding after_listing listed
    after_listing-holds s (err e) before w called = list_failed-holds s e w
    after_listing-holds s (ok []) before w called = at_empty s before w called
    after_listing-holds s (ok (o ∷ objs)) before w called =
        delete_listed-holds (o ∷ objs) (record s { list_fails = 0 }) w

    one_round-holds : (s : Round) (w : W) → P (one_round E opt oid prefix again s w)
    unfolding one_round
    one_round-holds s w =
        unless_stopped-holds _ s (list_prefix E opt oid prefix again s) _
          (unfold list_prefix in after_listing-holds s _ (wait E w).1 _ refl)

  rounds-holds : (fuel : ℕ) (s : Round) (w : W) → P (rounds E opt oid prefix fuel s w)
  unfolding rounds
  rounds-holds zero s w = at_end w
  rounds-holds (suc fuel) s w =
      one_round-holds (rounds E opt oid prefix fuel) (rounds-holds fuel) s w

module _ {W : Type 0} (E : Env W) (opt : Options) (oid : ℕ) (prefix : Bytes) where
  -- The call that led to this world listed the prefix from its start, and nothing was there.
  abbrev pub SeenEmpty : W → Type 0
  SeenEmpty w = (before : W) × (E.list_keys prefix 1000 before ≡ (ok [], w))

  clear_prefix-rounds :
      (fuel : ℕ) (w : W)
      → opt.dry_run ≡ false
      → clear_prefix E opt oid prefix fuel w ≡ rounds E opt oid prefix fuel start w
  unfolding clear_prefix
  clear_prefix-rounds fuel w wet = simp wet

  -- A real run that returns without an error has just listed the prefix and found nothing: no batch
  -- that was accepted, and no retry that ran out, is taken for an empty prefix.
  pub clear_prefix-SeenEmpty :
      (fuel : ℕ) (w : W) (c : Cleared)
      → opt.dry_run ≡ false
      → (clear_prefix E opt oid prefix fuel w).0 ≡ some c
      → c.error ≡ none
      → SeenEmpty (clear_prefix E opt oid prefix fuel w).1
  clear_prefix-SeenEmpty fuel w c wet h clean =
      let e = clear_prefix-rounds fuel w wet in
      rw e (
        rounds-holds E opt oid prefix
          (λ r. (c : Cleared) → r.0 ≡ some c → c.error ≡ none → SeenEmpty r.1)
          (λ w' c' gone _. absurd (ground (arith, gone)))
          (λ d e' w' failed c' same ok'. absurd (ground (arith, failed, same, ok')))
          (λ s before w' called c' _ _. (before, called)) fuel start w c (rw e at h) clean)
