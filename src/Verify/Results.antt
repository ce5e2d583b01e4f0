-- ===== src/Verify/Results.antt =====
-- Which results a verification run records (internal/verify/verify.go, Run).
use limewire_purge.Prelude.{
  ℕ, zero, suc, ◌+◌, Bool, true, false, List, [], ◌∷◌, Option, none, some, Bytes, Step,
}
use limewire_purge.Errors.{Err, wrapped, Result, ok, err}
use limewire_purge.Pieceop.{prefixes}
use limewire_purge.Progress.Tables.{VerifyStatus}
use limewire_purge.Verify.{
  Env, unless_failed, unless_stopped, after_failure, after_query, query_prefix, one_attempt,
  retry_from, retry, check_object, record_result, verify_row, verify_rows, after_rows,
  after_pending, ask_pending, one_batch, batches, run,
}
use limewire_purge.Verify.Judged.{Judged, check_object-Judged}

-- A property that no call but the recording of a result breaks.
pub record KeptByChecks {κ} {W : Type 0} (E : Env W) (I : W → Type κ) : Type κ where
  pub context_error : (w : W) → I w → I (E.context_error w).1
  pub check : (w : W) → I w → I (E.check w).1
  pub rate_wait : (w : W) → I w → I (E.rate_wait w).1
  pub backoff : (n : ℕ) (w : W) → I w → I (E.backoff n w).1
  pub is_empty : (prefix : Bytes) (w : W) → I w → I (E.is_empty prefix w).1
  pub verify_pending : (after max : ℕ) (w : W) → I w → I (E.verify_pending after max w).1

module _ {κ} {W : Type 0} (E : Env W) (I : W → Type κ) (checks : KeptByChecks E I) where
  abbrev Keeps {ℓ} : {A : Type ℓ} → (W → A × W) → Type κ
  Keeps f = (w : W) → I w → I (f w).1

  unless_failed-Keeps :
      (e : Option Err) (next : W → Result Bool × W) → Keeps next → Keeps (unless_failed e next)
  unfolding unless_failed
  unless_failed-Keeps (some e) next k w i = i
  unless_failed-Keeps none next k w i = k w i

  unless_stopped-Keeps :
      (e : Option Err) (next : W → Result ℕ × W) → Keeps next → Keeps (unless_stopped e next)
  unfolding unless_stopped
  unless_stopped-Keeps (some e) next k w i = i
  unless_stopped-Keeps none next k w i = k w i

  abbrev Rest : Option (W → Result Bool × W) → Type κ
  Rest none = Unit
  Rest (some next) = Keeps next

  after_failure-Keeps :
      (attempt : ℕ) (e : Err) (again : Option (W → Result Bool × W))
      → Rest again
      → Keeps (after_failure E attempt e again)
  unfolding after_failure
  after_failure-Keeps attempt e none rest w i =
      unless_failed-Keeps _ (λ v. (err (wrapped "after attempts" e), v)) (λ v j. j) _
        (checks.context_error w i)
  after_failure-Keeps attempt e (some next) rest w i =
      unless_failed-Keeps _
        (λ v. unless_failed (E.backoff attempt v).0 next (E.backoff attempt v).1)
        (λ v j. unless_failed-Keeps _ next rest _ (checks.backoff attempt v j)) _
        (checks.context_error w i)

  after_query-Keeps :
      (attempt : ℕ) (again : Option (W → Result Bool × W)) (answer : Result Bool)
      → Rest again
      → Keeps (after_query E attempt again answer)
  unfolding after_query
  after_query-Keeps attempt again (ok b) rest w i = i
  after_query-Keeps attempt again (err e) rest w i = after_failure-Keeps attempt e again rest w i

  one_attempt-Keeps :
      (prefix : Bytes) (attempt : ℕ) (again : Option (W → Result Bool × W))
      → Rest again
      → Keeps (one_attempt E prefix attempt again)
  unfolding one_attempt query_prefix
  one_attempt-Keeps prefix attempt again rest w i =
      unless_failed-Keeps _
        (λ v. unless_failed (E.check v).0 (query_prefix E prefix attempt again) (E.check v).1)
        (λ v j.
          unless_failed-Keeps _ (query_prefix E prefix attempt again)
            (λ u l. after_query-Keeps attempt again _ rest _ (checks.is_empty prefix u l)) _
            (checks.check v j))
        _ (checks.rate_wait w i)

  retry_from-Keeps : (prefix : Bytes) (left attempt : ℕ) → Keeps (retry_from E prefix left attempt)
  unfolding retry_from
  retry_from-Keeps prefix zero attempt = one_attempt-Keeps prefix attempt none tt
  retry_from-Keeps prefix (suc left) attempt =
      one_attempt-Keeps prefix attempt (some (retry_from E prefix left (attempt + 1)))
        (retry_from-Keeps prefix left (attempt + 1))

  check_object-Keeps : (max_retry oid : ℕ) → Keeps (check_object E max_retry oid)
  unfolding check_object retry
  check_object-Keeps max_retry oid w i =
      retry_from-Keeps (prefixes oid).1 max_retry 0 _
        (retry_from-Keeps (prefixes oid).0 max_retry 0 w i)

  module _ (max_retry : ℕ)
      (results : (oid : ℕ) (status : VerifyStatus) (w : W)
        → Judged E max_retry oid status
        → I w
        → I (E.record_verify oid status w).1) where
    record_result-Keeps :
        (oid : ℕ) (status : VerifyStatus) (rest : ℕ → W → Result ℕ × W)
        → Judged E max_retry oid status
        → Keeps (rest oid)
        → Keeps (record_result E oid status rest)
    unfolding record_result
    record_result-Keeps oid status rest judged k w i =
        unless_stopped-Keeps _
          (λ v.
            unless_stopped (E.record_verify oid status v).0 (rest oid)
              (E.record_verify oid status v).1)
          (λ v j. unless_stopped-Keeps _ (rest oid) k _ (results oid status v judged j)) _
          (checks.context_error w i)

    verify_row-Keeps :
        (oid : ℕ) (rest : ℕ → W → Result ℕ × W)
        → Keeps (rest oid)
        → Keeps (verify_row E max_retry oid rest)
    unfolding verify_row
    verify_row-Keeps oid rest k w i =
        unless_stopped-Keeps _
          (λ v.
            record_result E oid (check_object E max_retry oid v).0 rest
              (check_object E max_retry oid v).1)
          (λ v j.
            record_result-Keeps oid _ rest (check_object-Judged E max_retry oid v) k _
              (check_object-Keeps max_retry oid v j))
          _ (checks.check w i)

    verify_rows-Keeps : (rows : List ℕ) (after : ℕ) → Keeps (verify_rows E max_retry rows after)
    unfolding verify_rows
    verify_rows-Keeps [] after = λ w i. i
    verify_rows-Keeps (oid ∷ rows) after =
        verify_row-Keeps oid (verify_rows E max_retry rows) (verify_rows-Keeps rows oid)

    module _ (again : ℕ → Step W (Option Err))
        (again_keeps : (after : ℕ) → Keeps (again after)) where
      after_rows-Keeps : (answer : Result ℕ) → Keeps (after_rows E again answer)
      unfolding after_rows
      after_rows-Keeps (err e) w i = i
      after_rows-Keeps (ok after) w i = again_keeps after w i

      after_pending-Keeps :
          (after : ℕ) (answer : Result (List ℕ))
          → Keeps (after_pending E max_retry again after answer)
      unfolding after_pending
      after_pending-Keeps after (err e) w i = i
      after_pending-Keeps after (ok []) w i = i
      after_pending-Keeps after (ok (oid ∷ rows)) w i =
          after_rows-Keeps _ _ (verify_rows-Keeps (oid ∷ rows) after w i)

      one_batch-Keeps : (after : ℕ) → Keeps (one_batch E max_retry again after)
      unfolding one_batch
      one_batch-Keeps after w i = go _ _ (checks.context_error w i)
        where
          go : (cancelled : Option Err) → Keeps (ask_pending E max_retry again after cancelled)
          go (some e) w i = unfold ask_pending in i
          go none w i =
              unfold ask_pending in
              after_pending-Keeps after _ _ (checks.verify_pending after 1000 w i)

    batches-Keeps : (fuel after : ℕ) → Keeps (batches E max_retry fuel after)
    unfolding batches
    batches-Keeps zero after = λ w i. i
    batches-Keeps (suc fuel) after =
        one_batch-Keeps (batches E max_retry fuel) (batches-Keeps fuel) after

    -- A verification run records only results that the store's answers support: whatever the checks
    -- and such records keep is kept, on every branch and for any fuel.
    pub run-keeps :
        (bad_settings : Bool) (fuel : ℕ) (w : W) → I w → I (run E bad_settings max_retry fuel w).1
    unfolding run
    run-keeps true fuel w i = i
    run-keeps false fuel w i = batches-Keeps fuel 0 w i
