-- ===== src/Tests/Checking.antt =====
-- Verification runs over a small task: two objects, without residue.
use limewire_purge.Prelude.{
  ℕ, ◌<◌, ◌≤◌, ◌≡◌, true, false, List, [], ◌∷◌, Option, none, some, All, ltb, if◌then◌else◌, arith,
}
use limewire_purge.Errors.{Err, ok}
use limewire_purge.Progress.Tables.{VerifyStatus}
use limewire_purge.Verify.{Env, check_object, run}
use limewire_purge.Verify.Judged.{Judged, check_object-Judged}
use limewire_purge.Verify.Results.{KeptByChecks, run-keeps}
use limewire_purge.Verify.Ends.{Cursor, run-returns}

abbrev pending : ℕ → List ℕ
pending after = if ltb after 3 then 3 ∷ 5 ∷ [] else if ltb after 5 then 5 ∷ [] else []

-- The world is the list of the recorded results.
abbrev task : Env (List (ℕ × VerifyStatus))
task = record {
  context_error = λ w. (none, w);
  check = λ w. (none, w);
  rate_wait = λ w. (none, w);
  backoff = λ n w. (none, w);
  is_empty = λ prefix w. (ok true, w);
  verify_pending = λ after max w. (ok (pending after), w);
  record_verify = λ oid status w. (none, (oid, status) ∷ w);
}

check_object-Judged_example : Judged task 2 3 (check_object task 2 3 []).0
check_object-Judged_example = check_object-Judged task 2 3 []

abbrev Supported : List (ℕ × VerifyStatus) → Type 0
Supported w = All (λ r. Judged task 2 r.0 r.1) w

task-KeptByChecks : KeptByChecks task Supported
task-KeptByChecks = record {
  context_error = λ w i. i;
  check = λ w i. i;
  rate_wait = λ w i. i;
  backoff = λ n w i. i;
  is_empty = λ prefix w i. i;
  verify_pending = λ after max w i. i;
}

run-keeps_example : Supported (run task false 2 6 []).1
run-keeps_example =
    run-keeps task Supported task-KeptByChecks 2 (λ oid status w judged i. (judged, i)) false 6 []
      tt

pending-behind :
    (after : ℕ) (rows : List ℕ) → pending after ≡ rows → All (λ oid. (after < oid) × (oid ≤ 5)) rows
pending-behind after [] e = tt
pending-behind after (a ∷ []) e = ground (arith, e)
pending-behind after (a ∷ b ∷ []) e = ground (arith, e)
pending-behind after (a ∷ b ∷ c ∷ rows) e = absurd (ground (arith, e))

task-Cursor : Cursor task 2 5
task-Cursor after max w rows same = pending-behind after rows (ground (arith, same))

run-returns_example : (outcome : Option Err) × ((run task false 2 6 []).0 ≡ some outcome)
run-returns_example = run-returns task 2 5 task-Cursor false 6 [] (omega arith)
