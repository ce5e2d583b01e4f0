-- ===== src/Purge/Pool.antt =====
-- `Run`, `work` and the feed of internal/purge/purge.go: the goroutines of a run as a step relation.
-- One event is one select, channel operation or critical section; what an attempt does in between is
-- the part of `handle` (Purge/Handle). The channel holds 2 objects a worker. What `Progress.Claim` may
-- answer is a parameter.
pub mod Once
pub mod Moves
pub mod Stops
pub mod Whole
pub mod Ends
pub mod Report
use limewire_purge.Prelude.{
  ℕ, zero, suc, ◌+◌, ◌*◌, ◌<◌, ◌≡◌, ◌⊎◌, Bool, true, false, not, ◌&&◌, ◌||◌, List, [], ◌∷◌, ◌++◌,
  Option, none, some, length, ltb, if◌then◌else◌, ℤ, pos, negsuc,
}
use limewire_purge.Errors.{Err, cancelled, wrapped, Result, ok, err}
use limewire_purge.Purge.Env.{Claimed}
use limewire_purge.Purge.Handle.{Tally, has, finish}

-- Where the feed is: before its select, in `Progress.Claim`, behind it with these objects left to
-- send, or returned.
pub data Feed : Type 0 where
  looking : Feed
  asking : Feed
  sending : List Claimed → Feed
  ended : Option Err → Feed

pub record Pool : Type 0 where
  pub feed : Feed
  pub after : ℕ
  pub channel : List Claimed
  -- taken from the channel and not yet let through or dropped
  pub checking : List Claimed
  -- in `handle`
  pub working : List Claimed
  pub handled : List Claimed
  pub dropped : List Claimed
  -- stopCh is closed; ctx is cancelled
  pub stopped : Bool
  pub halted : Bool

pub data Event : Type 0 where
  -- `default` of the feed's first select, and the answer of Progress.Claim
  asks : Event
  claims : Result (List Claimed) → Event
  -- `case <-r.stopCh` and `case <-ctx.Done()` of either select of the feed
  feed_sees_stop : Event
  feed_sees_halt : Event
  -- `case ids <- c`, and the end of a batch
  sends : Claimed → List Claimed → Event
  batch_ends : Event
  -- `for c := range ids` of a worker
  takes : Claimed → List Claimed → Event
  -- its check, for the object between these
  starts : List Claimed → Claimed → List Claimed → Event
  drops : List Claimed → Claimed → List Claimed → Event
  -- `stop` and `halt` by an object that is being handled, and the operator's interrupt
  stops : List Claimed → Claimed → List Claimed → Event
  halts : List Claimed → Claimed → List Claimed → Event
  interrupted : Event
  -- `handle` returns
  returns : List Claimed → Claimed → List Claimed → Event

-- `Concurrency`, at least 1: `if r.Opt.Concurrency <= 0 { r.Opt.Concurrency = 1 }`.
abbrev pub workers : ℤ → ℕ
workers (pos zero) = 1
workers (pos (suc n)) = suc n
workers (negsuc n) = 1

-- The state in which the workers and the feed start.
unfoldable pub start_of_run : Pool
start_of_run = record {
  feed = looking;
  after = 0;
  channel = [];
  checking = [];
  working = [];
  handled = [];
  dropped = [];
  stopped = false;
  halted = false;
}

after_claim : Result (List Claimed) → Pool → Pool
after_claim (err e) s = record s {
  feed = ended (some (wrapped "claim from progress table" e));
  stopped = true;
}
after_claim (ok []) s = record s { feed = ended none }
after_claim (ok (c ∷ cs)) s = record s { feed = sending (c ∷ cs) }

-- What an event changes.
unfoldable pub next : Event → Pool → Pool
unfolding after_claim
next asks s = record s { feed = asking }
next (claims answer) s = after_claim answer s
next feed_sees_stop s = record s { feed = ended none }
next feed_sees_halt s = record s { feed = ended (some cancelled) }
next (sends c cs) s = record s { feed = sending cs; channel = s.channel ++ c ∷ []; after = c.oid }
next batch_ends s = record s { feed = looking }
next (takes c cs) s = record s { channel = cs; checking = c ∷ s.checking }
next (starts before c behind) s = record s { checking = before ++ behind; working = c ∷ s.working }
next (drops before c behind) s = record s { checking = before ++ behind; dropped = c ∷ s.dropped }
next (stops before c behind) s = record s { stopped = true }
next (halts before c behind) s = record s { halted = true }
next interrupted s = record s { halted = true }
next (returns before c behind) s = record s { working = before ++ behind; handled = c ∷ s.handled }

-- The feed is at a select.
abbrev pub selects : Feed → Bool
selects looking = true
selects (sending (c ∷ cs)) = true
selects _ = false

abbrev pub has_ended : Feed → Bool
has_ended (ended e) = true
has_ended _ = false

abbrev pub quiet : Pool → Bool
quiet s = not s.stopped && not s.halted

-- When an event can happen.
module _ (conc : ℕ) (Claims : ℕ → ℕ → Result (List Claimed) → Type 0) where
  unfoldable pub Allowed : Event → Pool → Type 0
  Allowed asks s = (s.feed ≡ looking) × (quiet s ≡ true)
  Allowed (claims answer) s = (s.feed ≡ asking) × Claims s.after (conc * 4) answer
  Allowed feed_sees_stop s = (selects s.feed ≡ true) × (s.stopped ≡ true)
  Allowed feed_sees_halt s = (selects s.feed ≡ true) × (s.halted ≡ true)
  Allowed (sends c cs) s = (s.feed ≡ sending (c ∷ cs)) × (length s.channel < conc * 2)
  Allowed batch_ends s = s.feed ≡ sending []
  Allowed (takes c cs) s = (s.channel ≡ c ∷ cs) × (length s.checking + length s.working < conc)
  Allowed (starts before c behind) s = (s.checking ≡ before ++ c ∷ behind) × (quiet s ≡ true)
  Allowed (drops before c behind) s = (s.checking ≡ before ++ c ∷ behind) × (quiet s ≡ false)
  Allowed (stops before c behind) s = s.working ≡ before ++ c ∷ behind
  Allowed (halts before c behind) s = s.working ≡ before ++ c ∷ behind
  Allowed interrupted s = Unit
  Allowed (returns before c behind) s = s.working ≡ before ++ c ∷ behind

  -- The states that a run passes through.
  pub data Reach (s : Pool) : Pool → Type 0 where
    here : (t : Pool) → t ≡ s → Reach s t
    there : (t u : Pool) (e : Event) → Reach s t → Allowed e t → u ≡ next e t → Reach s u

-- wg.Wait() behind close(ids) returns.
abbrev pub Finished : Pool → Type 0
Finished s = (has_ended s.feed ≡ true) × (s.channel ≡ []) × (s.checking ≡ []) × (s.working ≡ [])

-- What `Run` reports: the claim's error counts where nothing halted or stopped the run.
unfoldable pub run_error : Tally → (claim_error cut : Option Err) → Option Err
unfolding finish
run_error t claim_error cut =
    finish t (if has t.halt_error || has t.stop_error then none else claim_error) cut
