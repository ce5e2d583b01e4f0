-- ===== src/Purge/Pool/Whole.antt =====
-- What a run that nothing stopped has done when it ends, and how much is in flight
-- (internal/purge/purge.go, Run and work).
use limewire_purge.Prelude.{
  ℕ, suc, ◌+◌, ◌*◌, ◌≤◌, ◌≡◌, refl, sym, subst, ap, Bool, true, false, not, ◌&&◌, List, [], ◌∷◌,
  ◌++◌, Option, none, length, arith,
}
use limewire_purge.Errors.{Err, Result, ok, err}
use limewire_purge.Purge.Env.{Claimed}
use limewire_purge.Purge.Pool.{
  ended, Pool, Event, start_of_run, after_claim, next, quiet, Allowed, Reach,
}

pub length-middle :
    (before : List Claimed) (c : Claimed) (behind : List Claimed)
    → length (before ++ c ∷ behind) ≡ suc (length (before ++ behind))
length-middle [] c behind = refl
length-middle (b ∷ before) c behind = ap suc (length-middle before c behind)

pub length-snoc : (cs : List Claimed) (c : Claimed) → length (cs ++ c ∷ []) ≡ suc (length cs)
length-snoc [] c = refl
length-snoc (b ∷ cs) c = ap suc (length-snoc cs c)

off_stopped : (a b : Bool) → a ≡ true → (not a && not b) ≡ true → ⊥
off_stopped true b h q = cc
off_stopped false b h q = cc

off_halted : (a b : Bool) → b ≡ true → (not a && not b) ≡ true → ⊥
off_halted true b h q = cc
off_halted false true h q = cc
off_halted false false h q = cc

module _ (conc : ℕ) (Claims : ℕ → ℕ → Result (List Claimed) → Type 0) where
  record Within (s : Pool) : Type 0 where
    in_channel : length s.channel ≤ conc * 2
    with_workers : length s.checking + length s.working ≤ conc

  next-Within : (e : Event) (s : Pool) → Allowed conc Claims e s → Within s → Within (next e s)
  unfolding next Allowed after_claim
  next-Within Event.asks s may w = record {
    in_channel = w.in_channel;
    with_workers = w.with_workers;
  }
  next-Within (Event.claims (err e)) s may w = record {
    in_channel = w.in_channel;
    with_workers = w.with_workers;
  }
  next-Within (Event.claims (ok [])) s may w = record {
    in_channel = w.in_channel;
    with_workers = w.with_workers;
  }
  next-Within (Event.claims (ok (r ∷ rs))) s may w = record {
    in_channel = w.in_channel;
    with_workers = w.with_workers;
  }
  next-Within Event.feed_sees_stop s may w = record {
    in_channel = w.in_channel;
    with_workers = w.with_workers;
  }
  next-Within Event.feed_sees_halt s may w = record {
    in_channel = w.in_channel;
    with_workers = w.with_workers;
  }
  next-Within (Event.sends r rs) s (at, room) w = record {
    in_channel = omega (arith, room, length-snoc s.channel r);
    with_workers = w.with_workers;
  }
  next-Within Event.batch_ends s may w = record {
    in_channel = w.in_channel;
    with_workers = w.with_workers;
  }
  next-Within (Event.takes r rs) s (at, free) w = record {
    in_channel = omega (arith, ap length at, w.in_channel);
    with_workers = omega (arith, free);
  }
  next-Within (Event.starts before r behind) s (at, calm) w = record {
    in_channel = w.in_channel;
    with_workers = omega (arith, ap length at, length-middle before r behind, w.with_workers);
  }
  next-Within (Event.drops before r behind) s (at, off) w = record {
    in_channel = w.in_channel;
    with_workers = omega (arith, ap length at, length-middle before r behind, w.with_workers);
  }
  next-Within (Event.stops before r behind) s may w = record {
    in_channel = w.in_channel;
    with_workers = w.with_workers;
  }
  next-Within (Event.halts before r behind) s may w = record {
    in_channel = w.in_channel;
    with_workers = w.with_workers;
  }
  next-Within Event.interrupted s may w = record {
    in_channel = w.in_channel;
    with_workers = w.with_workers;
  }
  next-Within (Event.returns before r behind) s at w = record {
    in_channel = w.in_channel;
    with_workers = omega (arith, ap length at, length-middle before r behind, w.with_workers);
  }

  Reach-Within : (t : Pool) → Reach conc Claims start_of_run t → Within t
  unfolding start_of_run
  Reach-Within v (Reach.here t same) =
      subst Within (sym same) (record { in_channel = omega arith; with_workers = omega arith })
  Reach-Within v (Reach.there t u e before may same) =
      subst Within (sym same) (next-Within e t may (Reach-Within t before))

  -- At every moment of a run at most two objects a worker are in the channel, and never are more
  -- objects with the workers than there are workers.
  pub bounded_load :
      (t : Pool)
      → Reach conc Claims start_of_run t
      → (length t.channel ≤ conc * 2) × (length t.checking + length t.working ≤ conc)
  bounded_load t reached = let w = Reach-Within t reached in (w.in_channel, w.with_workers)

  -- While nothing stops the run, nothing is dropped, and the feed ends only behind an empty claim.
  record Complete (s : Pool) : Type 0 where
    none_dropped : quiet s ≡ true → s.dropped ≡ []
    all_claimed :
        quiet s ≡ true
        → (o : Option Err) → s.feed ≡ ended o
        → (o ≡ none) × Claims s.after (conc * 4) (ok [])

  next-Complete :
      (e : Event) (s : Pool) → Allowed conc Claims e s → Complete s → Complete (next e s)
  unfolding next Allowed after_claim
  next-Complete Event.asks s may c = record {
    none_dropped = c.none_dropped;
    all_claimed = λ q o same. absurd (cc);
  }
  next-Complete (Event.claims (err e)) s may c = record {
    none_dropped = λ q. absurd (cc);
    all_claimed = λ q. absurd (cc);
  }
  next-Complete (Event.claims (ok [])) s (at, answer) c = record {
    none_dropped = c.none_dropped;
    all_claimed = λ q o same. (cc, answer);
  }
  next-Complete (Event.claims (ok (r ∷ rs))) s may c = record {
    none_dropped = c.none_dropped;
    all_claimed = λ q o same. absurd (cc);
  }
  next-Complete Event.feed_sees_stop s (at, off) c = record {
    none_dropped = c.none_dropped;
    all_claimed = λ q. absurd (off_stopped s.stopped s.halted off q);
  }
  next-Complete Event.feed_sees_halt s (at, off) c = record {
    none_dropped = c.none_dropped;
    all_claimed = λ q. absurd (off_halted s.stopped s.halted off q);
  }
  next-Complete (Event.sends r rs) s may c = record {
    none_dropped = c.none_dropped;
    all_claimed = λ q o same. absurd (cc);
  }
  next-Complete Event.batch_ends s may c = record {
    none_dropped = c.none_dropped;
    all_claimed = λ q o same. absurd (cc);
  }
  next-Complete (Event.takes r rs) s may c = record {
    none_dropped = c.none_dropped;
    all_claimed = c.all_claimed;
  }
  next-Complete (Event.starts before r behind) s may c = record {
    none_dropped = c.none_dropped;
    all_claimed = c.all_claimed;
  }
  next-Complete (Event.drops before r behind) s (at, off) c = record {
    none_dropped = λ q. absurd (cc);
    all_claimed = c.all_claimed;
  }
  next-Complete (Event.stops before r behind) s may c = record {
    none_dropped = λ q. absurd (cc);
    all_claimed = λ q. absurd (cc);
  }
  next-Complete (Event.halts before r behind) s may c = record {
    none_dropped = λ q. absurd (off_halted s.stopped true refl q);
    all_claimed = λ q. absurd (off_halted s.stopped true refl q);
  }
  next-Complete Event.interrupted s may c = record {
    none_dropped = λ q. absurd (off_halted s.stopped true refl q);
    all_claimed = λ q. absurd (off_halted s.stopped true refl q);
  }
  next-Complete (Event.returns before r behind) s at c = record {
    none_dropped = c.none_dropped;
    all_claimed = c.all_claimed;
  }

  Reach-Complete : (t : Pool) → Reach conc Claims start_of_run t → Complete t
  unfolding start_of_run
  Reach-Complete v (Reach.here t same) =
      subst Complete (sym same)
        (record { none_dropped = λ q. refl; all_claimed = λ q o e. absurd (cc) })
  Reach-Complete v (Reach.there t u e before may same) =
      subst Complete (sym same) (next-Complete e t may (Reach-Complete t before))

  -- In a run that nothing has stopped, halted or interrupted no object is dropped, and once its feed
  -- has returned, it returned no error, and the last claim, behind the last object sent, was empty.
  pub unstopped_complete :
      (t : Pool)
      → Reach conc Claims start_of_run t
      → quiet t ≡ true
      → (t.dropped ≡ [])
        × ((o : Option Err) → t.feed ≡ ended o → (o ≡ none) × Claims t.after (conc * 4) (ok []))
  unstopped_complete t reached q =
      let c = Reach-Complete t reached in (c.none_dropped q, c.all_claimed q)
