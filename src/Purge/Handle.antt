-- ===== src/Purge/Handle.antt =====
-- `handle`, `verdict`, `halt`, `stop` and `finish` of internal/purge/purge.go: what becomes of one
-- attempt, and what a run reports. The runner's counters and lists are a record that is passed on;
-- the map `unrecorded` is the list of its keys.
pub mod Keeps
pub mod Report
use limewire_purge.Prelude.{
  ℕ, ◌+◌, ◌≡◌, refl, Bool, true, false, not, ◌&&◌, ◌||◌, List, [], ◌∷◌, ◌++◌, Option, none, some,
  ltb, ◌==◌, if◌then◌else◌, Step, ◌>>=◌, ◌>>◌, pure, call,
}
use limewire_purge.Errors.{Err, wrapped, message, joined, join, is_safety}
use limewire_purge.Purge.SizeCheck.{Role, SizeCheck, check_size}
use limewire_purge.Purge.Env.{Claimed, Options, Env, u64_add}
use limewire_purge.Purge.Process.{Attempt, process_one}

pub record Tally : Type 0 where
  pub processed : ℕ
  pub failed : ℕ
  pub interrupted : ℕ
  pub keys : ℕ
  pub bytes : ℕ
  pub mismatch : ℕ
  pub failed_list : List Claimed
  pub unrecorded : List ℕ
  pub halt_error : Option Err
  pub stop_error : Option Err

pub data Verdict : Type 0 where
  not_available anomaly skip see_status good bad_size : Verdict

abbrev pub has {ℓ} : {A : Type ℓ} → Option A → Bool
has none = false
has (some a) = true

abbrev is_mixed : Role → Bool
is_mixed Role.mixed = true
is_mixed _ = false

-- The switch of `verdict`, in its order.
pub verdict : Options → Attempt → SizeCheck → Verdict
verdict opt res check =
    if has res.error
    then not_available
    else if is_mixed check.role
    then anomaly
    else if not check.known
    then skip
    else if opt.retry_failed
    then see_status
    else if res.bytes == check.expected
    then good
    else bad_size

abbrev counts_mismatch : Verdict → Bool
counts_mismatch anomaly = true
counts_mismatch bad_size = true
counts_mismatch _ = false

check_of : Options → Attempt → Claimed → SizeCheck
check_of opt res c =
    check_size res.s_keys res.e_keys opt.data_chunks opt.segment_size c.payload_size

-- The counters, once the attempt is back.
count_attempt : Options → Claimed → Attempt → Tally → Tally
unfolding verdict check_of
count_attempt opt c res t = record t {
  processed = u64_add t.processed 1;
  keys = u64_add t.keys res.keys;
  bytes = u64_add t.bytes res.bytes;
  mismatch =
      if counts_mismatch (verdict opt res (check_of opt res c))
      then u64_add t.mismatch 1
      else t.mismatch;
}

count_failed : Tally → Tally
count_failed t = record t { failed = u64_add t.failed 1 }

-- `stop`: the first ordinary failure is kept.
stop : Err → Tally → Tally
stop e t = record t {
  stop_error = elim t.stop_error [ some d ↦ some d | none ↦ some (wrapped "oid" e) ];
}

remember_failure : Claimed → Tally → Tally
remember_failure c t = record t { failed_list = t.failed_list ++ c ∷ [] }

remove : ℕ → List ℕ → List ℕ
remove oid [] = []
remove oid (x ∷ xs) = if x == oid then remove oid xs else x ∷ remove oid xs

not_recorded : ℕ → Tally → Tally
unfolding remove
not_recorded oid t = record t { unrecorded = oid ∷ remove oid t.unrecorded }

recorded : ℕ → Tally → Tally
unfolding remove
recorded oid t = record t { unrecorded = remove oid t.unrecorded }

module _ {W : Type 0} (E : Env W) where
  -- `halt`: the first safety violation cancels the run and is written to the task; if that fails,
  -- its error is joined.
  halt : ℕ → Err → Tally → Step W Tally
  halt oid e t = elim t.halt_error [
    | some d ↦ pure t
    | none ↦ (do
      _ ← call E.cancel
      latch ← call (E.on_safety oid e)
      pure (record t { halt_error = join (some (wrapped "oid" e)) latch }))
  ]

  -- `Progress.Fail` was called.
  after_fail : Claimed → Tally → Option Err → Step W Tally
  unfolding not_recorded recorded
  after_fail c t (some e) = pure (not_recorded c.oid t)
  after_fail c t none = pure (recorded c.oid t)

  record_failure : Claimed → Attempt → Err → Tally → Step W Tally
  unfolding after_fail
  record_failure c res e t = do
    written ← call (E.fail c.oid res.keys res.bytes e)
    after_fail c t written

  -- `Progress.Done` was called.
  after_done : Claimed → Tally → Option Err → Step W Tally
  unfolding not_recorded remember_failure stop recorded
  after_done c t (some e) = pure (
      stop (wrapped "completion NOT recorded in progress table" e)
        (remember_failure c (not_recorded c.oid t)))
  after_done c t none = pure (recorded c.oid t)

  record_done : Options → Claimed → Attempt → Tally → Step W Tally
  unfolding check_of after_done
  record_done opt c res t = do
    written ← call (E.done c.oid res.keys res.bytes (check_of opt res c))
    after_done c t written

  -- An ordinary failure of an attempt that was not cut short.
  stop_failed : Claimed → Attempt → Err → Tally → Step W Tally
  unfolding stop count_failed remember_failure record_failure
  stop_failed c res e t = record_failure c res e (remember_failure c (count_failed (stop e t)))

  halt_failed : Claimed → Attempt → Err → Tally → Step W Tally
  unfolding halt count_failed record_failure
  halt_failed c res e t = do t' ← halt c.oid e t; record_failure c res e (count_failed t')

  -- `ctx.Err() != nil` behind a failed attempt: it was cut short, and gets no result.
  unless_cut_short : Claimed → Attempt → Err → Tally → Option Err → Step W Tally
  unfolding stop_failed
  unless_cut_short c res e t (some cut) = pure (record t { interrupted = u64_add t.interrupted 1 })
  unless_cut_short c res e t none = stop_failed c res e t

  failed_attempt : Claimed → Attempt → Err → Tally → Step W Tally
  unfolding halt_failed unless_cut_short
  failed_attempt c res e t =
      if is_safety e
      then halt_failed c res e t
      else (do cut ← call E.context_error; unless_cut_short c res e t cut)

  settle : Options → Claimed → Attempt → Tally → Option Err → Step W Tally
  unfolding count_failed failed_attempt record_done
  settle opt c res t error =
      if opt.dry_run
      then pure (if has error then count_failed t else t)
      else elim error [ some e ↦ failed_attempt c res e t | none ↦ record_done opt c res t ]

  attempt : Options → ℕ → Claimed → Tally → Step W Tally
  unfolding settle count_attempt
  attempt opt fuel c t = do
    res ← process_one E opt fuel c
    settle opt c res (count_attempt opt c res t) res.error

  unless_cancelled : Options → ℕ → Claimed → Tally → Option Err → Step W Tally
  unfolding attempt
  unless_cancelled opt fuel c t (some e) = pure t
  unless_cancelled opt fuel c t none = attempt opt fuel c t

  unfoldable pub handle : Options → ℕ → Claimed → Tally → Step W Tally
  unfolding unless_cancelled
  handle opt fuel c t = do cancelled ← call E.context_error; unless_cancelled opt fuel c t cancelled

pub data Problem : Type 0 where
  halted stopped_early stopped still_failed not_in_table interrupted_run : Problem

abbrev when : Bool → Problem → List Problem
when true p = p ∷ []
when false p = []

abbrev not_empty {ℓ} : {A : Type ℓ} → List A → Bool
not_empty [] = false
not_empty (x ∷ xs) = true

-- `finish`: the problems, in the order in which they are written.
pub problems : Tally → Option Err → Option Err → List Problem
problems t claim_error cancelled =
    when (has t.halt_error) halted
    ++ (when (has claim_error) stopped_early
        ++ (when (has t.stop_error) stopped
            ++ (when (ltb 0 t.failed) still_failed
                ++ (when (not_empty t.unrecorded) not_in_table
                    ++ when (has cancelled) interrupted_run))))

unfoldable pub finish : Tally → Option Err → Option Err → Option Err
unfolding problems
finish t claim_error cancelled = elim (problems t claim_error cancelled) [
  | [] ↦ none
  | p ∷ more ↦ join t.halt_error (join t.stop_error (some (message "problems")))
]
