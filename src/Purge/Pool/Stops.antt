-- ===== src/Purge/Pool/Stops.antt =====
-- A stopped run starts nothing more (internal/purge/purge.go, Run and work).
use limewire_purge.Prelude.{
  ℕ, ◌+◌, ◌≡◌, refl, sym, subst, ap, Bool, true, false, not, ◌&&◌, List, [], ◌∷◌, arith,
}
use limewire_purge.Errors.{Result, ok, err}
use limewire_purge.Purge.Env.{Claimed}
use limewire_purge.Purge.Pool.{Pool, Event, after_claim, next, quiet, Allowed, Reach}
use limewire_purge.Purge.Pool.Once.{count, count-middle}

module _ (conc : ℕ) (Claims : ℕ → ℕ → Result (List Claimed) → Type 0) where
  -- Nothing is let through, and the run stays stopped.
  record Closed (s t : Pool) : Type 0 where
    closed : quiet t ≡ false
    same_started :
        (oid : ℕ)
        → count oid t.working + count oid t.handled ≡ count oid s.working + count oid s.handled

  halted_too : (b : Bool) → (not b && not true) ≡ false
  halted_too true = refl
  halted_too false = refl

  next-Closed :
      (e : Event) (s t : Pool) → Allowed conc Claims e t → Closed s t → Closed s (next e t)
  unfolding next Allowed after_claim
  next-Closed Event.asks s t may c = record { closed = c.closed; same_started = c.same_started }
  next-Closed (Event.claims (err e)) s t may c = record {
    closed = refl;
    same_started = c.same_started;
  }
  next-Closed (Event.claims (ok [])) s t may c = record {
    closed = c.closed;
    same_started = c.same_started;
  }
  next-Closed (Event.claims (ok (r ∷ rs))) s t may c = record {
    closed = c.closed;
    same_started = c.same_started;
  }
  next-Closed Event.feed_sees_stop s t may c = record {
    closed = c.closed;
    same_started = c.same_started;
  }
  next-Closed Event.feed_sees_halt s t may c = record {
    closed = c.closed;
    same_started = c.same_started;
  }
  next-Closed (Event.sends r rs) s t may c = record {
    closed = c.closed;
    same_started = c.same_started;
  }
  next-Closed Event.batch_ends s t may c = record {
    closed = c.closed;
    same_started = c.same_started;
  }
  next-Closed (Event.takes r rs) s t may c = record {
    closed = c.closed;
    same_started = c.same_started;
  }
  next-Closed (Event.starts before r behind) s t (at, calm) c = absurd (cc)
  next-Closed (Event.drops before r behind) s t may c = record {
    closed = c.closed;
    same_started = c.same_started;
  }
  next-Closed (Event.stops before r behind) s t may c = record {
    closed = refl;
    same_started = c.same_started;
  }
  next-Closed (Event.halts before r behind) s t may c = record {
    closed = halted_too t.stopped;
    same_started = c.same_started;
  }
  next-Closed Event.interrupted s t may c = record {
    closed = halted_too t.stopped;
    same_started = c.same_started;
  }
  next-Closed (Event.returns before r behind) s t at c = record {
    closed = c.closed;
    same_started = λ oid.
        omega (arith, ap (count oid) at, count-middle oid before r behind, c.same_started oid);
  }

  Reach-Closed : (s t : Pool) → quiet s ≡ false → Reach conc Claims s t → Closed s t
  Reach-Closed s v off (Reach.here t same) =
      subst (Closed s) (sym same) (record { closed = off; same_started = λ oid. refl })
  Reach-Closed s v off (Reach.there t u e before may same) =
      subst (Closed s) (sym same) (next-Closed e s t may (Reach-Closed s t off before))

  -- Once a run is stopped by a failure, halted or interrupted, no further object enters `handle`, at
  -- any later moment: what is being handled and what has been handled are together the same objects.
  pub none_started :
      (s t : Pool) (oid : ℕ)
      → quiet s ≡ false
      → Reach conc Claims s t
      → count oid t.working + count oid t.handled ≡ count oid s.working + count oid s.handled
  none_started s t oid off reached = (Reach-Closed s t off reached).same_started oid
