-- ===== src/Deadline.antt =====
-- internal/deadline/deadline.go: calls that may never return, bounded by a deadline, and their
-- repetition. Which branch of a select comes first, and the contexts, are the environment's.
pub mod Attempts
use limewire_purge.Prelude.{
  ℕ, zero, suc, ◌+◌, Bool, true, false, not, ◌&&◌, ◌||◌, Option, none, some, ℤ, pos, negsuc,
  if◌then◌else◌,
}
use limewire_purge.Errors.{Err, timed_out, safety, wrapped, joined, Result, ok, err}

-- What the select of `Call` gives: the function's result, or that the deadline's context is done.
pub data Race (A : Type 0) : Type 0 where
  finished : Result A → Race A
  passed : Race A

-- ctx.Err() and errors.Is(cctx.Err(), context.DeadlineExceeded) read the world.
pub record Clock (W A : Type 0) : Type 0 where
  -- the function in its own goroutine, until it sends its result or the deadline's context is done
  pub race : W → Race A × W
  pub context_error : W → Option Err
  pub deadline_exceeded : W → Bool
  -- select { case <-ctx.Done(); case <-time.After(n seconds) }, with ctx.Err() for the first
  pub pause : ℕ → W → Option Err × W

-- How many attempts follow the first: `if attempts < 1 { attempts = 1 }`.
abbrev pub behind_first : ℤ → ℕ
behind_first (pos zero) = 0
behind_first (pos (suc n)) = n
behind_first (negsuc n) = 0

abbrev pub is_some {ℓ} : {A : Type ℓ} → Option A → Bool
is_some none = false
is_some (some a) = true

-- `errors.Is(e, ErrTimeout)`
unfoldable pub is_timed_out : Err → Bool
is_timed_out timed_out = true
is_timed_out (safety e) = is_timed_out e
is_timed_out (wrapped text e) = is_timed_out e
is_timed_out (joined d e) = is_timed_out d || is_timed_out e
is_timed_out _ = false

-- `Call`
after_race : {A : Type 0} → (context_error : Option Err) (exceeded : Bool) → Race A → Result A
after_race context_error exceeded (Race.finished (ok v)) = ok v
after_race context_error exceeded (Race.finished (err e)) =
    if not (is_some context_error) && exceeded then err (wrapped "after" timed_out) else err e
after_race (some e) exceeded Race.passed = err e
after_race none exceeded Race.passed = err (wrapped "after" timed_out)

after_pause : {W A : Type 0} → (W → Result A × W) → Option Err × W → Result A × W
after_pause again (some e, w) = (err e, w)
after_pause again (none, w) = again w

unless_done : {W A : Type 0} → Option Err → (W → Result A × W) → W → Result A × W
unless_done (some e) next w = (err e, w)
unless_done none next w = next w

module _ {W A : Type 0} (C : Clock W A) where
  unfoldable pub call_once : W → Result A × W
  unfolding after_race
  call_once w =
      let (first, w') = C.race w in
      (after_race (C.context_error w') (C.deadline_exceeded w') first, w')

  module _ (retryable : Err → Bool) where
    -- The attempt with the number `i` is not the last one.
    after_call : (W → Result A × W) → ℕ → Result A × W → Result A × W
    unfolding after_pause
    after_call again i (ok v, w) = (ok v, w)
    after_call again i (err e, w) =
        if not (retryable e) || is_some (C.context_error w)
        then (err e, w)
        else after_pause again (C.pause i w)

    -- The attempts from the number `i` on; `left` of them follow the first.
    attempts_from : (left i : ℕ) → W → Result A × W
    unfolding unless_done after_call
    attempts_from zero i w = unless_done (C.context_error w) call_once w
    attempts_from (suc left) i w =
        unless_done (C.context_error w)
          (λ v. after_call (attempts_from left (i + 1)) i (call_once v)) w

    -- `RetryIf`
    unfoldable pub retry_if : ℤ → W → Result A × W
    unfolding attempts_from
    retry_if attempts w = attempts_from (behind_first attempts) 1 w

  -- `Retry`
  unfoldable pub retry : ℤ → W → Result A × W
  unfolding retry_if is_timed_out
  retry attempts w = retry_if is_timed_out attempts w
