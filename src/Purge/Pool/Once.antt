-- ===== src/Purge/Pool/Once.antt =====
-- Every object is handled at most once in a run (internal/purge/purge.go, Run and work).
use limewire_purge.Prelude.{
  ℕ, ◌+◌, ◌*◌, ◌<◌, ◌≤◌, ◌≡◌, refl, sym, subst, ap, List, [], ◌∷◌, ◌++◌, ◌==◌, if◌then◌else◌, arith,
}
use limewire_purge.Errors.{Result, ok, err}
use limewire_purge.Purge.Env.{Claimed}
use limewire_purge.Purge.Pool.{
  Feed, looking, asking, sending, ended, Pool, Event, start_of_run, after_claim, next, Allowed,
  Reach,
}

abbrev pub hit : ℕ → Claimed → ℕ
hit oid c = if c.oid == oid then 1 else 0

-- How often an object is in a list.
abbrev pub count : ℕ → List Claimed → ℕ
count oid [] = 0
count oid (c ∷ cs) = hit oid c + count oid cs

pub count-middle :
    (oid : ℕ) (before : List Claimed) (c : Claimed) (behind : List Claimed)
    → count oid (before ++ c ∷ behind) ≡ hit oid c + count oid (before ++ behind)
count-middle oid [] c behind = refl
count-middle oid (b ∷ before) c behind = omega (arith, count-middle oid before c behind)

count-snoc :
    (oid : ℕ) (cs : List Claimed) (c : Claimed)
    → count oid (cs ++ c ∷ []) ≡ count oid cs + hit oid c
count-snoc oid [] c = omega arith
count-snoc oid (b ∷ cs) c = omega (arith, count-snoc oid cs c)

-- Objects with ids above a number, each above the one before it.
abbrev pub Above : ℕ → List Claimed → Type 0
Above after [] = Unit
Above after (c ∷ cs) = (after < c.oid) × Above c.oid cs

-- Where an object is once it has been sent.
abbrev pub sent : ℕ → Pool → ℕ
sent oid s =
    count oid s.channel
    + count oid s.checking
    + count oid s.working
    + count oid s.handled
    + count oid s.dropped

abbrev left_to_send : Feed → List Claimed
left_to_send looking = []
left_to_send asking = []
left_to_send (sending cs) = cs
left_to_send (ended e) = []

pub record Sound (s : Pool) : Type 0 where
  pub once : (oid : ℕ) → sent oid s ≤ 1
  pub behind_cursor : (oid : ℕ) → s.after < oid → sent oid s ≡ 0
  pub goes_on : Above s.after (left_to_send s.feed)

start-Sound : Sound start_of_run
unfolding start_of_run
start-Sound = record { once = λ oid. omega arith; behind_cursor = λ oid h. refl; goes_on = tt }

-- An event that moves no object into the channel: every object is sent as often as before.
same_sent :
    (s t : Pool)
    → ((oid : ℕ) → sent oid t ≡ sent oid s)
    → t.after ≡ s.after
    → Above t.after (left_to_send t.feed)
    → Sound s
    → Sound t
same_sent s t same after above sound = record {
  once = λ oid. omega (arith, same oid, sound.once oid);
  behind_cursor =
      λ oid h. omega (arith, same oid, after, h, sound.behind_cursor oid (omega (arith, after, h)));
  goes_on = above;
}

no_hit : (oid : ℕ) (c : Claimed) → c.oid < oid → hit oid c ≡ 0
no_hit oid c h = ground (arith, h)

new_one : (oid n : ℕ) (c : Claimed) → n ≤ 1 → (c.oid ≡ oid → n ≡ 0) → n + hit oid c ≤ 1
new_one oid n c h k = ground (arith, h, k)

-- An object behind the cursor was sent nowhere before.
one_more :
    (oid : ℕ) (c : Claimed) (s : Pool)
    → s.after < c.oid
    → Sound s
    → count oid (s.channel ++ c ∷ [])
        + count oid s.checking
        + count oid s.working
        + count oid s.handled
        + count oid s.dropped
      ≤ 1
one_more oid c s later sound = omega (
  arith,
  count-snoc oid s.channel c,
  new_one oid (sent oid s) c (sound.once oid)
      (λ same. sound.behind_cursor oid (omega (arith, same, later))),
)

module _ (conc : ℕ) (Claims : ℕ → ℕ → Result (List Claimed) → Type 0)
    (claims_above : (after limit : ℕ) (rows : List Claimed)
      → Claims after limit (ok rows)
      → Above after rows) where
  next-Sound : (e : Event) (s : Pool) → Allowed conc Claims e s → Sound s → Sound (next e s)
  unfolding next Allowed after_claim
  next-Sound Event.asks s may sound = same_sent s _ (λ oid. refl) refl tt sound
  next-Sound (Event.claims (err e)) s may sound = same_sent s _ (λ oid. refl) refl tt sound
  next-Sound (Event.claims (ok [])) s may sound = same_sent s _ (λ oid. refl) refl tt sound
  next-Sound (Event.claims (ok (c ∷ cs))) s (at, answer) sound =
      same_sent s _ (λ oid. refl) refl (claims_above s.after (conc * 4) (c ∷ cs) answer) sound
  next-Sound Event.feed_sees_stop s may sound = same_sent s _ (λ oid. refl) refl tt sound
  next-Sound Event.feed_sees_halt s may sound = same_sent s _ (λ oid. refl) refl tt sound
  next-Sound (Event.sends c cs) s (at, room) sound =
      let (later, above) = subst (λ f. Above s.after (left_to_send f)) at sound.goes_on in
      record {
        once = λ oid. one_more oid c s later sound;
        behind_cursor = λ oid h. omega (
          arith,
          count-snoc oid s.channel c,
          no_hit oid c h,
          sound.behind_cursor oid (omega (arith, later, h)),
        );
        goes_on = above;
      }
  next-Sound Event.batch_ends s may sound = same_sent s _ (λ oid. refl) refl tt sound
  next-Sound (Event.takes c cs) s (at, free) sound =
      same_sent s _ (λ oid. omega (arith, ap (count oid) at)) refl sound.goes_on sound
  next-Sound (Event.starts before c behind) s (at, calm) sound =
      same_sent s _ (λ oid. omega (arith, ap (count oid) at, count-middle oid before c behind)) refl
        sound.goes_on sound
  next-Sound (Event.drops before c behind) s (at, off) sound =
      same_sent s _ (λ oid. omega (arith, ap (count oid) at, count-middle oid before c behind)) refl
        sound.goes_on sound
  next-Sound (Event.stops before c behind) s may sound =
      same_sent s _ (λ oid. refl) refl sound.goes_on sound
  next-Sound (Event.halts before c behind) s may sound =
      same_sent s _ (λ oid. refl) refl sound.goes_on sound
  next-Sound Event.interrupted s may sound = same_sent s _ (λ oid. refl) refl sound.goes_on sound
  next-Sound (Event.returns before c behind) s at sound =
      same_sent s _ (λ oid. omega (arith, ap (count oid) at, count-middle oid before c behind)) refl
        sound.goes_on sound

  Reach-Sound : (t : Pool) → Reach conc Claims start_of_run t → Sound t
  Reach-Sound v (Reach.here t same) = subst Sound (sym same) start-Sound
  Reach-Sound v (Reach.there t u e before may same) =
      subst Sound (sym same) (next-Sound e t may (Reach-Sound t before))

  -- If `Claim` answers with objects in the order of their ids, behind the one it was asked for, then at
  -- every moment of a run each object is in at most one place: it is handled, or dropped, or with a
  -- worker, or in the channel, and there only once.
  pub sent_once :
      (t : Pool) (oid : ℕ)
      → Reach conc Claims start_of_run t
      → count oid t.channel
          + count oid t.checking
          + count oid t.working
          + count oid t.handled
          + count oid t.dropped
        ≤ 1
  sent_once t oid reached = (Reach-Sound t reached).once oid
