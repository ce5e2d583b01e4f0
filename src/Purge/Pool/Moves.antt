-- ===== src/Purge/Pool/Moves.antt =====
-- A run does not get stuck, and ends (internal/purge/purge.go, Run and work).
use limewire_purge.Prelude.{
  ℕ, zero, suc, ◌+◌, ◌*◌, ◌<◌, ◌≡◌, refl, ap, ◌⊎◌, inl, inr, Bool, true, false, not, ◌&&◌, List, [],
  ◌∷◌, Option, length, ltb, ltb→lt, ltb-false→le, ℤ, pos, negsuc, Bool-cases, arith,
}
use limewire_purge.Errors.{Err, Result}
use limewire_purge.Purge.Env.{Claimed}
use limewire_purge.Purge.Pool.{
  Feed, looking, asking, sending, ended, Pool, Event, asks, claims, feed_sees_stop, feed_sees_halt,
  sends, batch_ends, takes, starts, drops, returns, selects, has_ended, quiet, Allowed, Finished,
  workers,
}

-- An event of the run itself: no failure, violation or interrupt is needed for it.
abbrev pub is_own : Event → Bool
is_own (Event.stops before c behind) = false
is_own (Event.halts before c behind) = false
is_own Event.interrupted = false
is_own _ = true

module _ (conc : ℕ) (Claims : ℕ → ℕ → Result (List Claimed) → Type 0) where
  abbrev pub CanMove : Pool → Type 0
  CanMove s = (e : Event) × (is_own e ≡ true) × Allowed conc Claims e s

  -- A worker that is busy can move.
  busy_moves : (s : Pool) → 0 < length s.checking + length s.working → CanMove s
  unfolding Allowed
  busy_moves s h = by_lists s.checking s.working refl refl
    where
      let_through :
          (c : Claimed) (cs : List Claimed)
          → s.checking ≡ c ∷ cs
          → (b : Bool) → quiet s ≡ b
          → CanMove s
      let_through c cs same true q = (starts [] c cs, refl, (same, q))
      let_through c cs same false q = (drops [] c cs, refl, (same, q))

      by_lists :
          (checking working : List Claimed)
          → s.checking ≡ checking
          → s.working ≡ working
          → CanMove s
      by_lists (c ∷ cs) working same same' = let_through c cs same (quiet s) refl
      by_lists [] (c ∷ cs) same same' = (returns [] c cs, refl, same')
      by_lists [] [] same same' = absurd (omega (arith, ap length same, ap length same', h))

  -- Where the channel holds something, a worker can move.
  workers_move : (s : Pool) → 0 < conc → 0 < length s.channel → CanMove s
  unfolding Allowed
  workers_move s some_worker h =
      by_load (Bool-cases (ltb (length s.checking + length s.working) conc))
    where
      by_channel :
          (cs : List Claimed)
          → s.channel ≡ cs
          → length s.checking + length s.working < conc
          → CanMove s
      by_channel [] same free = absurd (omega (arith, ap length same, h))
      by_channel (c ∷ cs) same free = (takes c cs, refl, (same, free))

      by_load :
          (ltb (length s.checking + length s.working) conc ≡ true)
            ⊎ (ltb (length s.checking + length s.working) conc ≡ false)
          → CanMove s
      by_load (inl e) =
          by_channel s.channel refl (ltb→lt (length s.checking + length s.working) conc e)
      by_load (inr e) =
          busy_moves s
            (omega (arith, some_worker, ltb-false→le (length s.checking + length s.working) conc e))

  quiet_false : (a b : Bool) → (not a && not b) ≡ false → (a ≡ true) ⊎ (b ≡ true)
  quiet_false true b h = inl refl
  quiet_false false true h = inr refl
  quiet_false false false h = absurd (cc)

  module _ (some_worker : 0 < conc)
      (answers : (after limit : ℕ)
        → (answer : Result (List Claimed)) × Claims after limit answer) where
    feed_looks : (s : Pool) → s.feed ≡ looking → CanMove s
    unfolding Allowed
    feed_looks s at = choose (quiet s) refl
      where
        see : (s.stopped ≡ true) ⊎ (s.halted ≡ true) → CanMove s
        see (inl e) = (feed_sees_stop, refl, (ap selects at, e))
        see (inr e) = (feed_sees_halt, refl, (ap selects at, e))

        choose : (b : Bool) → quiet s ≡ b → CanMove s
        choose true q = (asks, refl, (at, q))
        choose false q = see (quiet_false s.stopped s.halted q)

    feed_sends :
        (s : Pool) (c : Claimed) (cs : List Claimed) → s.feed ≡ sending (c ∷ cs) → CanMove s
    unfolding Allowed
    feed_sends s c cs at = by_room (Bool-cases (ltb (length s.channel) (conc * 2)))
      where
        by_room :
            (ltb (length s.channel) (conc * 2) ≡ true) ⊎ (ltb (length s.channel) (conc * 2) ≡ false)
            → CanMove s
        by_room (inl e) = (sends c cs, refl, (at, ltb→lt (length s.channel) (conc * 2) e))
        by_room (inr e) =
            workers_move s some_worker
              (omega (arith, some_worker, ltb-false→le (length s.channel) (conc * 2) e))

    feed_ended : (s : Pool) (o : Option Err) → s.feed ≡ ended o → Finished s ⊎ CanMove s
    feed_ended s o at = by_lists s.channel s.checking s.working refl refl refl
      where
        by_lists :
            (channel checking working : List Claimed)
            → s.channel ≡ channel
            → s.checking ≡ checking
            → s.working ≡ working
            → Finished s ⊎ CanMove s
        by_lists (c ∷ cs) k l e f g = inr (workers_move s some_worker (omega (arith, ap length e)))
        by_lists [] (c ∷ cs) l e f g = inr (busy_moves s (omega (arith, ap length f)))
        by_lists [] [] (c ∷ cs) e f g = inr (busy_moves s (omega (arith, ap length g)))
        by_lists [] [] [] e f g = inl (ap has_ended at, e, f, g)

    feed_moves : (s : Pool) → Finished s ⊎ CanMove s
    unfolding Allowed
    feed_moves s = by_feed s.feed refl
      where
        by_feed : (f : Feed) → s.feed ≡ f → Finished s ⊎ CanMove s
        by_feed looking at = inr (feed_looks s at)
        by_feed asking at =
            let (answer, said) = answers s.after (conc * 4) in inr (claims answer, refl, (at, said))
        by_feed (sending []) at = inr (batch_ends, refl, at)
        by_feed (sending (c ∷ cs)) at = inr (feed_sends s c cs at)
        by_feed (ended o) at = feed_ended s o at

-- With the number of workers that `Run` uses, and a claim that can always be answered, a state in
-- which neither the feed nor a worker can go on is the end of the run: the feed has returned, and
-- nothing is left in the channel or with a worker. No failure, violation or interrupt is needed to go
-- on.
pub moves_or_Finished :
    (Claims : ℕ → ℕ → Result (List Claimed) → Type 0)
    → ((after limit : ℕ) → (answer : Result (List Claimed)) × Claims after limit answer)
    → (concurrency : ℤ) (s : Pool) → Finished s ⊎ CanMove (workers concurrency) Claims s
moves_or_Finished Claims answers (pos zero) s = feed_moves 1 Claims (omega arith) answers s
moves_or_Finished Claims answers (pos (suc n)) s = feed_moves (suc n) Claims (omega arith) answers s
moves_or_Finished Claims answers (negsuc n) s = feed_moves 1 Claims (omega arith) answers s
