-- ===== src/Verify/Judged.antt =====
-- What the result of a check says (internal/verify/verify.go, retry and checkObject).
use limewire_purge.Prelude.{
  ℕ, zero, suc, ◌+◌, ◌≡◌, refl, ◌⊎◌, inl, inr, Bool, true, false, Option, none, some, Bytes, arith,
}
use limewire_purge.Errors.{Err, wrapped, Result, ok, err}
use limewire_purge.Pieceop.{prefixes}
use limewire_purge.Progress.Tables.{VerifyStatus}
use limewire_purge.Verify.{
  Env, unless_failed, after_failure, after_query, query_prefix, one_attempt, retry_from, retry,
  judge, check_object,
}

module _ {W : Type 0} (E : Env W) where
  -- The store has given this answer about the prefix.
  abbrev pub Seen : Bytes → Bool → Type 0
  Seen prefix b = (before : W) × (after : W) × (E.is_empty prefix before ≡ (ok b, after))

  -- An answer without an error is one of the store.
  abbrev Answered : Bytes → Result Bool × W → Type 0
  Answered prefix r = (b : Bool) → r.0 ≡ ok b → Seen prefix b

  unless_failed-Answered :
      (prefix : Bytes) (e : Option Err) (next : W → Result Bool × W) (w : W)
      → Answered prefix (next w)
      → Answered prefix (unless_failed e next w)
  unfolding unless_failed
  unless_failed-Answered prefix (some e) next w h = λ b same. cc
  unless_failed-Answered prefix none next w h = h

  -- The attempts that follow, if there are any, answer so.
  abbrev Rest : Bytes → Option (W → Result Bool × W) → Type 0
  Rest prefix none = Unit {0}
  Rest prefix (some next) = (w : W) → Answered prefix (next w)

  after_failure-Answered :
      (prefix : Bytes) (attempt : ℕ) (e : Err) (again : Option (W → Result Bool × W)) (w : W)
      → Rest prefix again
      → Answered prefix (after_failure E attempt e again w)
  unfolding after_failure
  after_failure-Answered prefix attempt e none w rest =
      unless_failed-Answered prefix _ (λ v. (err (wrapped "after attempts" e), v)) _ (λ b same. cc)
  after_failure-Answered prefix attempt e (some next) w rest =
      unless_failed-Answered prefix _
        (λ v. unless_failed (E.backoff attempt v).0 next (E.backoff attempt v).1) _
        (unless_failed-Answered prefix _ next _ (rest _))

  query_prefix-Answered :
      (prefix : Bytes) (attempt : ℕ) (again : Option (W → Result Bool × W)) (w : W)
      → Rest prefix again
      → Answered prefix (query_prefix E prefix attempt again w)
  unfolding query_prefix after_query
  query_prefix-Answered prefix attempt again w rest = go _ _ refl
    where
      go :
          (answer : Result Bool) (w' : W)
          → E.is_empty prefix w ≡ (answer, w')
          → Answered prefix (after_query E attempt again answer w')
      go (ok empty) w' asked = λ b same. (w, w', ground (arith, asked, same))
      go (err e) w' asked = after_failure-Answered prefix attempt e again w' rest

  one_attempt-Answered :
      (prefix : Bytes) (attempt : ℕ) (again : Option (W → Result Bool × W)) (w : W)
      → Rest prefix again
      → Answered prefix (one_attempt E prefix attempt again w)
  unfolding one_attempt
  one_attempt-Answered prefix attempt again w rest =
      unless_failed-Answered prefix _
        (λ v. unless_failed (E.check v).0 (query_prefix E prefix attempt again) (E.check v).1) _
        (unless_failed-Answered prefix _ (query_prefix E prefix attempt again) _
          (query_prefix-Answered prefix attempt again _ rest))

  retry_from-Answered :
      (prefix : Bytes) (left attempt : ℕ) (w : W)
      → Answered prefix (retry_from E prefix left attempt w)
  unfolding retry_from
  retry_from-Answered prefix zero attempt w = one_attempt-Answered prefix attempt none w tt
  retry_from-Answered prefix (suc left) attempt w =
      one_attempt-Answered prefix attempt (some (retry_from E prefix left (attempt + 1))) w
        (retry_from-Answered prefix left (attempt + 1))

  -- The query of the prefix has failed for good.
  abbrev pub Failed : ℕ → Bytes → Type 0
  Failed max_retry prefix = (before : W) × (e : Err) × ((retry E max_retry prefix before).0 ≡ err e)

  -- What a result stands for: PASS for two empty prefixes, RESIDUE for one that is not empty, ERROR
  -- for a query that failed on every attempt or was stopped.
  abbrev pub Judged : ℕ → ℕ → VerifyStatus → Type 0
  Judged max_retry oid VerifyStatus.pending = ⊥
  Judged max_retry oid VerifyStatus.pass = Seen (prefixes oid).0 true × Seen (prefixes oid).1 true
  Judged max_retry oid VerifyStatus.residue =
      Seen (prefixes oid).0 false ⊎ Seen (prefixes oid).1 false
  Judged max_retry oid VerifyStatus.error =
      Failed max_retry (prefixes oid).0 ⊎ Failed max_retry (prefixes oid).1

  judge-Judged :
      (max_retry oid : ℕ) (w w' : W) (first second : Result Bool)
      → (retry E max_retry (prefixes oid).0 w).0 ≡ first
      → (retry E max_retry (prefixes oid).1 w').0 ≡ second
      → ((b : Bool) → first ≡ ok b → Seen (prefixes oid).0 b)
      → ((b : Bool) → second ≡ ok b → Seen (prefixes oid).1 b)
      → Judged max_retry oid (judge first second)
  unfolding judge
  judge-Judged max_retry oid w w' (ok true) (ok true) e e' f s = (f true refl, s true refl)
  judge-Judged max_retry oid w w' (ok true) (ok false) e e' f s = inr (s false refl)
  judge-Judged max_retry oid w w' (ok false) second e e' f s = inl (f false refl)
  judge-Judged max_retry oid w w' (ok true) (err d) e e' f s = inr (w', d, e')
  judge-Judged max_retry oid w w' (err d) (ok true) e e' f s = inl (w, d, e)
  judge-Judged max_retry oid w w' (err d) (ok false) e e' f s = inr (s false refl)
  judge-Judged max_retry oid w w' (err d) (err d') e e' f s = inl (w, d, e)

  -- A check says what the store has answered: PASS only after an answer for each prefix that it is
  -- empty, RESIDUE only after one that a prefix is not, ERROR only where a query failed for good.
  pub check_object-Judged :
      (max_retry oid : ℕ) (w : W) → Judged max_retry oid (check_object E max_retry oid w).0
  unfolding check_object retry
  check_object-Judged max_retry oid w =
      let w' = (retry_from E (prefixes oid).0 max_retry 0 w).1 in
      unfold retry in
      judge-Judged max_retry oid w w' _ _ refl refl
        (retry_from-Answered (prefixes oid).0 max_retry 0 w)
        (retry_from-Answered (prefixes oid).1 max_retry 0 w')
