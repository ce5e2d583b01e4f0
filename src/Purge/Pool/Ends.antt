-- ===== src/Purge/Pool/Ends.antt =====
-- A run takes a bounded number of events of its own (internal/purge/purge.go, Run and work).
use limewire_purge.Prelude.{
  ℕ, ◌+◌, ◌-◌, ◌*◌, ◌<◌, ◌≤◌, ◌≡◌, sym, subst, ap, true, List, [], ◌∷◌, All, length, if◌then◌else◌,
  arith,
}
use limewire_purge.Errors.{Result, ok, err}
use limewire_purge.Purge.Env.{Claimed}
use limewire_purge.Purge.Pool.{
  Feed, looking, asking, sending, ended, Pool, Event, start_of_run, after_claim, next, selects,
  Allowed, Reach,
}
use limewire_purge.Purge.Pool.Once.{Above}
use limewire_purge.Purge.Pool.Whole.{length-middle, length-snoc}
use limewire_purge.Purge.Pool.Moves.{is_own}

-- What the feed, and the objects on their way, can still do.
abbrev feed_left : Feed → ℕ
feed_left looking = 4
feed_left asking = 3
feed_left (sending []) = 5
feed_left (sending (c ∷ cs)) = 2
feed_left (ended e) = 0

abbrev left : ℕ → Pool → ℕ
left top s =
    8 * (top - s.after)
    + feed_left s.feed
    + 3 * length s.channel
    + 2 * length s.checking
    + length s.working

select_left : (f : Feed) → selects f ≡ true → 0 < feed_left f
select_left looking h = omega arith
select_left asking h = absurd (cc)
select_left (sending []) h = absurd (cc)
select_left (sending (c ∷ cs)) h = omega arith
select_left (ended e) h = absurd (cc)

-- The objects left to send go on behind the cursor, up to a bound.
abbrev Bounded : ℕ → ℕ → Feed → Type 0
Bounded top after (sending cs) = Above after cs × All (λ c. c.oid ≤ top) cs
Bounded top after _ = Unit

module _ (conc : ℕ) (Claims : ℕ → ℕ → Result (List Claimed) → Type 0) (top : ℕ)
    (claims_above : (after limit : ℕ) (rows : List Claimed)
      → Claims after limit (ok rows)
      → Above after rows × All (λ c. c.oid ≤ top) rows) where
  next-Bounded :
      (e : Event) (s : Pool)
      → Allowed conc Claims e s
      → Bounded top s.after s.feed
      → Bounded top (next e s).after (next e s).feed
  unfolding next Allowed after_claim
  next-Bounded Event.asks s may b = tt
  next-Bounded (Event.claims (err e)) s may b = tt
  next-Bounded (Event.claims (ok [])) s may b = tt
  next-Bounded (Event.claims (ok (r ∷ rs))) s (at, answer) b =
      claims_above s.after (conc * 4) (r ∷ rs) answer
  next-Bounded Event.feed_sees_stop s may b = tt
  next-Bounded Event.feed_sees_halt s may b = tt
  next-Bounded (Event.sends r rs) s (at, room) b =
      let ((later, above), (low, lows)) = subst (Bounded top s.after) at b in (above, lows)
  next-Bounded Event.batch_ends s may b = tt
  next-Bounded (Event.takes r rs) s may b = b
  next-Bounded (Event.starts before r behind) s may b = b
  next-Bounded (Event.drops before r behind) s may b = b
  next-Bounded (Event.stops before r behind) s may b = b
  next-Bounded (Event.halts before r behind) s may b = b
  next-Bounded Event.interrupted s may b = b
  next-Bounded (Event.returns before r behind) s may b = b

  -- One unit for an event of the run's own.
  abbrev cost : Event → ℕ
  cost e = if is_own e then 1 else 0

  next-left :
      (e : Event) (s : Pool)
      → Allowed conc Claims e s
      → Bounded top s.after s.feed
      → left top (next e s) + cost e ≤ left top s
  unfolding next Allowed after_claim
  next-left Event.asks s (at, q) b = omega (arith, ap feed_left at)
  next-left (Event.claims (err e)) s (at, answer) b = omega (arith, ap feed_left at)
  next-left (Event.claims (ok [])) s (at, answer) b = omega (arith, ap feed_left at)
  next-left (Event.claims (ok (r ∷ rs))) s (at, answer) b = omega (arith, ap feed_left at)
  next-left Event.feed_sees_stop s (at, off) b = omega (arith, select_left s.feed at)
  next-left Event.feed_sees_halt s (at, off) b = omega (arith, select_left s.feed at)
  next-left (Event.sends r rs) s (at, room) b =
      let ((later, above), (low, lows)) = subst (Bounded top s.after) at b in
      omega (arith, ap feed_left at, later, low, length-snoc s.channel r, most_left rs)
    where
      most_left : (cs : List Claimed) → feed_left (sending cs) ≤ 5
      most_left [] = omega arith
      most_left (c ∷ cs) = omega arith
  next-left Event.batch_ends s at b = omega (arith, ap feed_left at)
  next-left (Event.takes r rs) s (at, free) b = omega (arith, ap length at)
  next-left (Event.starts before r behind) s (at, calm) b =
      omega (arith, ap length at, length-middle before r behind)
  next-left (Event.drops before r behind) s (at, off) b =
      omega (arith, ap length at, length-middle before r behind)
  next-left (Event.stops before r behind) s may b = omega arith
  next-left (Event.halts before r behind) s may b = omega arith
  next-left Event.interrupted s may b = omega arith
  next-left (Event.returns before r behind) s at b =
      omega (arith, ap length at, length-middle before r behind)

  -- How many of its own events a run took to a state.
  abbrev pub own_events : (s t : Pool) → Reach conc Claims s t → ℕ
  own_events s v (Reach.here t same) = 0
  own_events s v (Reach.there t u e before may same) = own_events s t before + cost e

  Reach-left :
      (t : Pool) (reached : Reach conc Claims start_of_run t)
      → Bounded top t.after t.feed × (left top t + own_events start_of_run t reached ≤ 8 * top + 4)
  unfolding start_of_run
  Reach-left v (Reach.here t same) = (
    subst (λ z. Bounded top z.after z.feed) (sym same) tt,
    subst (λ z. left top z + 0 ≤ 8 * top + 4) (sym same) (omega arith),
  )
  Reach-left v (Reach.there t u e before may same) =
      let (b, h) = Reach-left t before in
      (
        subst (λ z. Bounded top z.after z.feed) (sym same) (next-Bounded e t may b),
        subst (λ z. left top z + (own_events start_of_run t before + cost e) ≤ 8 * top + 4)
            (sym same) (omega (arith, h, next-left e t may b)),
      )

  -- If `Claim` answers with objects in the order of their ids, behind the one it was asked for and not
  -- above `top`, a run takes at most 8 · top + 4 events of its own, however often it is interrupted.
  pub own_events-bounded :
      (t : Pool) (reached : Reach conc Claims start_of_run t)
      → own_events start_of_run t reached ≤ 8 * top + 4
  own_events-bounded t reached = let (b, h) = Reach-left t reached in omega (arith, h)
