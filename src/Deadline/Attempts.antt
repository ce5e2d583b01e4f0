-- ===== src/Deadline/Attempts.antt =====
-- `RetryIf` of internal/deadline: how often it calls, and when it gives up.
use limewire_purge.Prelude.{
  ℕ, zero, suc, ◌+◌, ◌≤◌, ◌≡◌, refl, ap, ◌∙◌, Bool, true, false, not, ◌||◌, Option, none, some, ℤ,
  pos, negsuc, if◌then◌else◌, arith,
}
use limewire_purge.Errors.{Err, Result, ok, err}
use limewire_purge.Deadline.{
  is_some, Clock, call_once, after_pause, after_call, unless_done, attempts_from, retry_if,
}

-- The number of calls that are allowed: the given one, and one where it is less.
abbrev pub allowed : ℤ → ℕ
allowed (pos zero) = 1
allowed (pos (suc n)) = suc n
allowed (negsuc n) = 1

module _ {W A : Type 0} (C : Clock W A) (retryable : Err → Bool) (calls : W → ℕ) where
  -- Every start of the function is counted, a pause is not; a pause that is cut short says why.
  pub record Regular : Type 0 where
    pub race_counts : (w : W) → calls (C.race w).1 ≡ calls w + 1
    pub pause_counts : (i : ℕ) (w : W) → calls (C.pause i w).1 ≡ calls w
    pub pause_ends :
        (i : ℕ) (w : W) (e : Err)
        → (C.pause i w).0 ≡ some e
        → C.context_error (C.pause i w).1 ≡ some e

  -- Why no further attempt is made: success, an error that is not to be repeated, the context's end,
  -- or that the attempts are used up.
  pub data Settled (most : ℕ) : Result A → ℕ → W → Type 0 where
    succeeded : (r : Result A) (n : ℕ) (w : W) (a : A) → r ≡ ok a → Settled most r n w
    final :
        (r : Result A) (n : ℕ) (w : W) (e : Err)
        → r ≡ err e
        → retryable e ≡ false
        → Settled most r n w
    context_ended :
        (r : Result A) (n : ℕ) (w : W) (e : Err) → C.context_error w ≡ some e → Settled most r n w
    used_up : (r : Result A) (n : ℕ) (w : W) (e : Err) → r ≡ err e → n ≡ most → Settled most r n w

  -- From a world, at most `most` calls were made, and there is a reason that no more were.
  pub record Spent (most : ℕ) (w : W) (r : Result A × W) : Type 0 where
    pub made : ℕ
    pub counted : calls r.1 ≡ calls w + made
    pub bounded : made ≤ most
    pub settled : Settled most r.0 made r.1

  module _ (regular : Regular) where
    one_call :
        (most : ℕ) (w : W)
        → 1 ≤ most
        → Settled most (call_once C w).0 1 (call_once C w).1
        → Spent most w (call_once C w)
    unfolding call_once
    one_call most w h settled = record {
      made = 1;
      counted = regular.race_counts w;
      bounded = h;
      settled = settled;
    }

    last_call : (w : W) → Spent 1 w (call_once C w)
    last_call w = one_call 1 w (omega arith) (by_result (call_once C w).0 _)
      where
        by_result : (r : Result A) (v : W) → Settled 1 r 1 v
        by_result (ok a) v = Settled.succeeded (ok a) 1 v a refl
        by_result (err e) v = Settled.used_up (err e) 1 v e refl refl

    -- One more call in front.
    behind_one :
        (most : ℕ) (w v : W) (r : Result A × W)
        → calls v ≡ calls w + 1
        → Spent most v r
        → Spent (suc most) w r
    behind_one most w v r counted spent = record {
      made = suc spent.made;
      counted = omega (arith, counted, spent.counted);
      bounded = omega (arith, spent.bounded);
      settled = later r.0 spent.made r.1 spent.settled;
    }
      where
        later : (x : Result A) (n : ℕ) (u : W) → Settled most x n u → Settled (suc most) x (suc n) u
        later y n u (Settled.succeeded r' n' u' b same) = Settled.succeeded y (suc n) u b same
        later y n u (Settled.final r' n' u' e same not_again) =
            Settled.final y (suc n) u e same not_again
        later y n u (Settled.context_ended r' n' u' e ended) =
            Settled.context_ended y (suc n) u e ended
        later y n u (Settled.used_up r' n' u' e same all) =
            Settled.used_up y (suc n) u e same (ap suc all)

    unless_done-Spent :
        (most : ℕ) (ended : Option Err) (next : W → Result A × W) (w : W)
        → C.context_error w ≡ ended
        → Spent most w (next w)
        → Spent most w (unless_done ended next w)
    unfolding unless_done
    unless_done-Spent most (some e) next w ends spent = record {
      made = 0;
      counted = omega arith;
      bounded = omega arith;
      settled = Settled.context_ended (err e) 0 w e ends;
    }
    unless_done-Spent most none next w ends spent = spent

    after_pause-Spent :
        (most : ℕ) (again : W → Result A × W) (answer : Option Err × W) (w : W)
        → calls answer.1 ≡ calls w + 1
        → ((e : Err) → answer.0 ≡ some e → C.context_error answer.1 ≡ some e)
        → ((v : W) → Spent most v (again v))
        → Spent (suc most) w (after_pause again answer)
    unfolding after_pause
    after_pause-Spent most again (some e, v) w counted ends goes = record {
      made = 1;
      counted = counted;
      bounded = omega arith;
      settled = Settled.context_ended (err e) 1 v e (ends e refl);
    }
    after_pause-Spent most again (none, v) w counted ends goes =
        behind_one most w v (again v) counted (goes v)

    after_call-Spent :
        (most : ℕ) (again : W → Result A × W) (i : ℕ) (answer : Result A × W) (w : W)
        → calls answer.1 ≡ calls w + 1
        → ((v : W) → Spent most v (again v))
        → Spent (suc most) w (after_call C retryable again i answer)
    unfolding after_call
    after_call-Spent most again i (ok a, v) w counted goes = record {
      made = 1;
      counted = counted;
      bounded = omega arith;
      settled = Settled.succeeded (ok a) 1 v a refl;
    }
    after_call-Spent most again i (err e, v) w counted goes =
        choose (retryable e) (C.context_error v) refl refl
      where
        choose :
            (b : Bool) (o : Option Err)
            → retryable e ≡ b
            → C.context_error v ≡ o
            → Spent
                (suc most)
                w
                (if not b || is_some o then (err e, v) else after_pause again (C.pause i v))
        choose false o never ends = record {
          made = 1;
          counted = counted;
          bounded = omega arith;
          settled = Settled.final (err e) 1 v e refl never;
        }
        choose true (some d) may ends = record {
          made = 1;
          counted = counted;
          bounded = omega arith;
          settled = Settled.context_ended (err e) 1 v d ends;
        }
        choose true none may ends =
            after_pause-Spent most again (C.pause i v) w (regular.pause_counts i v ∙ counted)
              (regular.pause_ends i v) goes

    attempts_from-Spent :
        (left i : ℕ) (w : W) → Spent (suc left) w (attempts_from C retryable left i w)
    unfolding attempts_from
    attempts_from-Spent zero i w = unless_done-Spent 1 _ (call_once C) w refl (last_call w)
    attempts_from-Spent (suc left) i w =
        unless_done-Spent (suc (suc left)) _
          (λ v. after_call C retryable (attempts_from C retryable left (i + 1)) i (call_once C v)) w
          refl
          (after_call-Spent (suc left) (attempts_from C retryable left (i + 1)) i (call_once C w) w
            (unfold call_once in regular.race_counts w) (attempts_from-Spent left (i + 1)))

  -- Where the starts of the function are counted, and a pause that is cut short gives the context's
  -- error, `RetryIf` makes at most the given number of calls, or one where that is less than 1; it
  -- makes no further one only behind a success, behind an error that is not to be repeated, where the
  -- context has ended, or when exactly that number of calls is made.
  pub retry_if-Spent :
      Regular
      → (attempts : ℤ) (w : W) → Spent (allowed attempts) w (retry_if C retryable attempts w)
  unfolding retry_if
  retry_if-Spent regular (pos zero) w = attempts_from-Spent regular 0 1 w
  retry_if-Spent regular (pos (suc n)) w = attempts_from-Spent regular n 1 w
  retry_if-Spent regular (negsuc n) w = attempts_from-Spent regular 0 1 w
