-- ===== src/Verify.antt =====
-- internal/verify/verify.go: the residue check of one object, its retries, and the loop over the
-- objects of a task. The details of a result, which are only shown, are left out.
pub mod Judged
pub mod Results
pub mod Ends
use limewire_purge.Prelude.{
  ℕ, zero, suc, ◌+◌, Bool, true, false, List, [], ◌∷◌, Option, none, some, Bytes, if◌then◌else◌,
  ◌||◌, Step, ◌>>=◌, pure, call, out_of_fuel,
}
use limewire_purge.Errors.{Err, wrapped, message, Result, ok, err}
use limewire_purge.Pieceop.{prefixes}
use limewire_purge.Progress.Tables.{VerifyStatus}

-- The interfaces Store and Progress for the runner's task, Check (`none` where it is nil), the
-- limiter, the context, and Backoff with its default.
pub record Env (W : Type 0) : Type 0 where
  pub context_error : W → Option Err × W
  pub check : W → Option Err × W
  pub rate_wait : W → Option Err × W
  pub backoff : ℕ → W → Option Err × W
  pub is_empty : Bytes → W → Result Bool × W
  pub verify_pending : ℕ → ℕ → W → Result (List ℕ) × W
  pub record_verify : ℕ → VerifyStatus → W → Option Err × W

-- `if err != nil { return err }`
unfoldable pub unless_failed :
    {W : Type 0} → Option Err → (W → Result Bool × W) → W → Result Bool × W
unless_failed (some e) next w = (err e, w)
unless_failed none next w = next w

abbrev is_residue : Result Bool → Bool
is_residue (ok false) = true
is_residue _ = false

abbrev is_problem : Result Bool → Bool
is_problem (err e) = true
is_problem _ = false

-- Residue, where any query has proved it, goes before a failed query.
unfoldable pub judge : Result Bool → Result Bool → VerifyStatus
judge first second =
    if is_residue first || is_residue second
    then VerifyStatus.residue
    else if is_problem first || is_problem second
    then VerifyStatus.error
    else VerifyStatus.pass

unfoldable pub unless_stopped : {W : Type 0} → Option Err → (W → Result ℕ × W) → W → Result ℕ × W
unless_stopped (some e) next w = (err e, w)
unless_stopped none next w = next w

module _ {W : Type 0} (E : Env W) where
  -- The query of attempt `attempt` failed by `e`: the context, the last attempt, the backoff.
  after_failure : ℕ → Err → Option (W → Result Bool × W) → W → Result Bool × W
  unfolding unless_failed
  after_failure attempt e again w =
      let (cancelled, w') = E.context_error w in
      unless_failed cancelled
        (elim again [
          | none ↦ λ v. (err (wrapped "after attempts" e), v)
          | some next ↦
              λ v. (let (stopped, v') = E.backoff attempt v in unless_failed stopped next v')
        ])
        w'

  after_query : ℕ → Option (W → Result Bool × W) → Result Bool → W → Result Bool × W
  unfolding after_failure
  after_query attempt again (ok empty) w = (ok empty, w)
  after_query attempt again (err e) w = after_failure attempt e again w

  query_prefix : Bytes → ℕ → Option (W → Result Bool × W) → W → Result Bool × W
  unfolding after_query
  query_prefix prefix attempt again w =
      let (answer, w') = E.is_empty prefix w in after_query attempt again answer w'

  -- One turn of the loop of `retry`: the limiter and the lock, then the query.
  one_attempt : Bytes → ℕ → Option (W → Result Bool × W) → W → Result Bool × W
  unfolding query_prefix unless_failed
  one_attempt prefix attempt again w =
      let (limited, w') = E.rate_wait w in
      unless_failed limited
        (λ v.
          let (lost, v') = E.check v in unless_failed lost (query_prefix prefix attempt again) v')
        w'

  -- `retry` from attempt `attempt` on, with `left` further ones.
  retry_from : Bytes → (left attempt : ℕ) → W → Result Bool × W
  unfolding one_attempt
  retry_from prefix zero attempt = one_attempt prefix attempt none
  retry_from prefix (suc left) attempt =
      one_attempt prefix attempt (some (retry_from prefix left (attempt + 1)))

  unfoldable pub retry : ℕ → Bytes → W → Result Bool × W
  unfolding retry_from
  retry max_retry prefix = retry_from prefix max_retry 0

  -- `checkObject`
  unfoldable pub check_object : ℕ → ℕ → W → VerifyStatus × W
  unfolding judge
  check_object max_retry oid w =
      let (first, w') = retry max_retry (prefixes oid).0 w in
      let (second, w'') = retry max_retry (prefixes oid).1 w' in (judge first second, w'')

  -- The rows of one batch: an error, or the id of the last row.
  abbrev Rest : Type 0
  Rest = ℕ → W → Result ℕ × W

  -- An incomplete check gets no result.
  record_result : ℕ → VerifyStatus → Rest → W → Result ℕ × W
  unfolding unless_stopped
  record_result oid status rest w =
      let (cancelled, w') = E.context_error w in
      unless_stopped cancelled
        (λ v.
          let (failed, v') = E.record_verify oid status v in unless_stopped failed (rest oid) v')
        w'

  verify_row : ℕ → ℕ → Rest → W → Result ℕ × W
  unfolding record_result unless_stopped
  verify_row max_retry oid rest w =
      let (lost, w') = E.check w in
      unless_stopped lost
        (λ v. let (status, v') = check_object max_retry oid v in record_result oid status rest v')
        w'

  verify_rows : ℕ → List ℕ → Rest
  unfolding verify_row
  verify_rows max_retry [] after w = (ok after, w)
  verify_rows max_retry (oid ∷ rows) after w =
      verify_row max_retry oid (verify_rows max_retry rows) w

  abbrev Again : Type 0
  Again = ℕ → Step W (Option Err)

  after_rows : Again → Result ℕ → Step W (Option Err)
  after_rows again (err e) = pure (some e)
  after_rows again (ok after) = again after

  after_pending : ℕ → Again → ℕ → Result (List ℕ) → Step W (Option Err)
  unfolding verify_rows after_rows
  after_pending max_retry again after (err e) = pure (some e)
  after_pending max_retry again after (ok []) = pure none
  after_pending max_retry again after (ok (oid ∷ rows)) = do
    answer ← call (verify_rows max_retry (oid ∷ rows) after)
    after_rows again answer

  ask_pending : ℕ → Again → ℕ → Option Err → Step W (Option Err)
  unfolding after_pending
  ask_pending max_retry again after (some e) = pure (some e)
  ask_pending max_retry again after none = do
    answer ← call (E.verify_pending after 1000)
    after_pending max_retry again after answer

  one_batch : ℕ → Again → Again
  unfolding ask_pending
  one_batch max_retry again after = do
    cancelled ← call E.context_error
    ask_pending max_retry again after cancelled

  batches : ℕ → ℕ → Again
  unfolding one_batch
  batches max_retry zero after = out_of_fuel
  batches max_retry (suc fuel) after = one_batch max_retry (batches max_retry fuel) after

  -- `Run`, one unit of fuel a batch. `bad_settings` is the test of QPS, MaxRetry and Timeout.
  unfoldable pub run : Bool → ℕ → ℕ → Step W (Option Err)
  unfolding batches
  run bad_settings max_retry fuel =
      if bad_settings
      then pure (some (message "positive QPS/timeout and nonnegative max-retry required"))
      else batches max_retry fuel 0
