-- ===== src/Verify/Ends.antt =====
-- A verification run ends, and without an error only on an empty page (internal/verify/verify.go, Run).
use limewire_purge.Prelude.{
  ℕ, zero, suc, ◌-◌, ◌<◌, ◌≤◌, ◌≡◌, refl, subst, Bool, true, false, List, [], ◌∷◌, Option, none,
  some, All, Step, arith,
}
use limewire_purge.Errors.{Err, Result, ok, err}
use limewire_purge.Verify.{
  Env, unless_stopped, check_object, record_result, verify_row, verify_rows, after_rows,
  after_pending, ask_pending, one_batch, batches, run,
}

module _ {W : Type 0} (E : Env W) (max_retry : ℕ) where
  -- Where the rows were all handled, the id of the last one is in `P`.
  abbrev Within {κ} : (ℕ → Type κ) → Result ℕ × W → Type κ
  Within P r = (last : ℕ) → r.0 ≡ ok last → P last

  module _ {κ} (P : ℕ → Type κ) where
    unless_stopped-Within :
        (e : Option Err) (next : W → Result ℕ × W) (w : W)
        → Within P (next w)
        → Within P (unless_stopped e next w)
    unfolding unless_stopped
    unless_stopped-Within (some e) next w h = λ last same. cc
    unless_stopped-Within none next w h = h

    verify_row-Within :
        (oid : ℕ) (rest : ℕ → W → Result ℕ × W) (w : W)
        → ((v : W) → Within P (rest oid v))
        → Within P (verify_row E max_retry oid rest w)
    unfolding verify_row record_result
    verify_row-Within oid rest w h =
        unless_stopped-Within _
          (λ v.
            record_result E oid (check_object E max_retry oid v).0 rest
              (check_object E max_retry oid v).1)
          _
          (unless_stopped-Within _
            (λ v. unless_stopped (E.record_verify oid _ v).0 (rest oid) (E.record_verify oid _ v).1)
            _ (unless_stopped-Within _ (rest oid) _ (h _)))

    verify_rows-Within :
        (rows : List ℕ) (after : ℕ) (w : W)
        → P after
        → All P rows
        → Within P (verify_rows E max_retry rows after w)
    unfolding verify_rows
    verify_rows-Within [] after w p ps = λ last same. subst P (ground (arith, same)) p
    verify_rows-Within (oid ∷ rows) after w p (q, qs) =
        verify_row-Within oid (verify_rows E max_retry rows) w
          (λ v. verify_rows-Within rows oid v q qs)

  -- The cursor goes on: a page shows ids behind it, none of them above `top`.
  abbrev pub Cursor : ℕ → Type 0
  Cursor top =
      (after max : ℕ) (w : W) (rows : List ℕ)
      → (E.verify_pending after max w).0 ≡ ok rows
      → All (λ oid. (after < oid) × (oid ≤ top)) rows

  abbrev returned {ℓ} : {A : Type ℓ} → Option A × W → Bool
  returned (none, w) = false
  returned (some a, w) = true

  module _ (top : ℕ) (cursor : Cursor top) where
    module _ (again : ℕ → Step W (Option Err)) (fuel : ℕ)
        (again_returned : (after : ℕ) (w : W)
          → after ≤ top
          → top - after < fuel
          → returned (again after w) ≡ true) where
      after_rows-returned :
          (answer : Result ℕ) (after : ℕ) (w : W)
          → Within (λ last. (after < last) × (last ≤ top)) (answer, w)
          → top - after < suc fuel
          → returned (after_rows E again answer w) ≡ true
      unfolding after_rows
      after_rows-returned (err e) after w within h = refl
      after_rows-returned (ok last) after w within h =
          let (later, low) = within last refl in
          again_returned last w low (omega (arith, h, later, low))

      after_pending-returned :
          (after : ℕ) (answer : Result (List ℕ)) (w : W)
          → ((rows : List ℕ) → answer ≡ ok rows → All (λ oid. (after < oid) × (oid ≤ top)) rows)
          → top - after < suc fuel
          → returned (after_pending E max_retry again after answer w) ≡ true
      unfolding after_pending verify_rows
      after_pending-returned after (err e) w shows h = refl
      after_pending-returned after (ok []) w shows h = refl
      after_pending-returned after (ok (oid ∷ rows)) w shows h =
          let (first, others) = shows (oid ∷ rows) refl in
          after_rows-returned _ after _
            (verify_row-Within (λ last. (after < last) × (last ≤ top)) oid
              (verify_rows E max_retry rows) w
              (λ v.
                verify_rows-Within (λ last. (after < last) × (last ≤ top)) rows oid v first others))
            h

      one_batch-returned :
          (after : ℕ) (w : W)
          → top - after < suc fuel
          → returned (one_batch E max_retry again after w) ≡ true
      unfolding one_batch
      one_batch-returned after w h = go _ _
        where
          go :
              (cancelled : Option Err) (v : W)
              → returned (ask_pending E max_retry again after cancelled v) ≡ true
          go (some e) v = unfold ask_pending in refl
          go none v = unfold ask_pending in after_pending-returned after _ _ (cursor after 1000 v) h

    batches-returned :
        (fuel after : ℕ) (w : W)
        → after ≤ top
        → top - after < fuel
        → returned (batches E max_retry fuel after w) ≡ true
    unfolding batches
    batches-returned zero after w low h = absurd (omega (arith, h))
    batches-returned (suc fuel) after w low h =
        one_batch-returned (batches E max_retry fuel) fuel (batches-returned fuel) after w h

    some_of {ℓ} : {A : Type ℓ} (r : Option A × W) → returned r ≡ true → (a : A) × (r.0 ≡ some a)
    some_of (none, w) e = cc
    some_of (some a, w) e = (a, refl)

    -- Where every page shows only ids behind the cursor, and none above a bound, a verification run
    -- returns if the fuel exceeds the bound, whatever fails or is recorded in between.
    pub run-returns :
        (bad_settings : Bool) (fuel : ℕ) (w : W)
        → top < fuel
        → (outcome : Option Err) × ((run E bad_settings max_retry fuel w).0 ≡ some outcome)
    unfolding run
    run-returns true fuel w h = (_, refl)
    run-returns false fuel w h =
        some_of (batches E max_retry fuel 0 w)
          (batches-returned fuel 0 w (omega arith) (omega (arith, h)))

  -- The world is the one in which a page was found empty.
  abbrev pub Exhausted : W → Type 0
  Exhausted w = (after : ℕ) × (before : W) × (E.verify_pending after 1000 before ≡ (ok [], w))

  abbrev Finished : Option (Option Err) × W → Type 0
  Finished r = r.0 ≡ some none → Exhausted r.1

  module _ (again : ℕ → Step W (Option Err))
      (again_finished : (after : ℕ) (w : W) → Finished (again after w)) where
    after_rows-Finished : (answer : Result ℕ) (w : W) → Finished (after_rows E again answer w)
    unfolding after_rows
    after_rows-Finished (err e) w = λ same. cc
    after_rows-Finished (ok after) w = again_finished after w

    after_pending-Finished :
        (after : ℕ) (answer : Result (List ℕ)) (before w : W)
        → E.verify_pending after 1000 before ≡ (answer, w)
        → Finished (after_pending E max_retry again after answer w)
    unfolding after_pending
    after_pending-Finished after (err e) before w asked = λ same. cc
    after_pending-Finished after (ok []) before w asked = λ same. (after, before, asked)
    after_pending-Finished after (ok (oid ∷ rows)) before w asked = after_rows-Finished _ _

    one_batch-Finished : (after : ℕ) (w : W) → Finished (one_batch E max_retry again after w)
    unfolding one_batch
    one_batch-Finished after w = go _ _
      where
        go :
            (cancelled : Option Err) (v : W)
            → Finished (ask_pending E max_retry again after cancelled v)
        go (some e) v = unfold ask_pending in λ same. cc
        go none v = unfold ask_pending in after_pending-Finished after _ v _ refl

  batches-Finished : (fuel after : ℕ) (w : W) → Finished (batches E max_retry fuel after w)
  unfolding batches
  batches-Finished zero after w = λ same. cc
  batches-Finished (suc fuel) after w =
      one_batch-Finished (batches E max_retry fuel) (batches-Finished fuel) after w

  -- A verification run that returns without an error ends on a page that shows nothing left.
  pub run-Exhausted :
      (bad_settings : Bool) (fuel : ℕ) (w : W)
      → (run E bad_settings max_retry fuel w).0 ≡ some none
      → Exhausted (run E bad_settings max_retry fuel w).1
  unfolding run
  run-Exhausted true fuel w same = cc
  run-Exhausted false fuel w same = batches-Finished fuel 0 w same
