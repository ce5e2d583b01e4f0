-- ===== src/Commands/Succeeds.antt =====
-- The commands of cmd/limewire-purge that succeed, followed from the start to the end.
use limewire_purge.Prelude.{◌≡◌, refl, Bool, true, false, Option, none, some}
use limewire_purge.Errors.{Err, Result, ok, err}
use limewire_purge.Progress.Session.{Db, M}
use limewire_purge.Commands.{
  Command, ◌>>=◌, ◌>>◌, pure, throw, refuse_if, refuse, given, in_database,
}
use limewire_purge.Commands.World.{after_first}

module _ {ℓ} {W : Type 0} (Q : Db × W → Type ℓ) where
  -- If a command has succeeded, its end is in Q.
  abbrev pub Succeeds : Result (Unit {0}) × (Db × W) → Type ℓ
  Succeeds r = r.0 ≡ ok tt → Q r.1

  err-Succeeds : (e : Err) (st : Db × W) → Succeeds (err e, st)
  err-Succeeds e st same = absurd (cc)

  pub in_database-Succeeds {κ} :
      {A : Type κ} (m : M A) (f : A → Command W (Unit {0})) (db : Db) (w : W)
      → ((a : A) (db' : Db) → m db ≡ (ok a, db') → Succeeds (f a (db', w)))
      → Succeeds ((in_database m >>= f) (db, w))
  unfolding ◌>>=◌ in_database
  in_database-Succeeds {A = A} m f db w k = by_answer (m db) refl
    where
      by_answer : (r : Result A × Db) → m db ≡ r → Succeeds (after_first f (r.0, (r.1, w)))
      by_answer (ok a, db') same = k a db' same
      by_answer (err e, db') same = err-Succeeds e (db', w)

  pub in_database_then-Succeeds :
      (m : M (Unit {0})) (k : Command W (Unit {0})) (db : Db) (w : W)
      → ((db' : Db) → m db ≡ (ok tt, db') → Succeeds (k (db', w)))
      → Succeeds ((in_database m >> k) (db, w))
  unfolding ◌>>◌
  in_database_then-Succeeds m k db w h =
      in_database-Succeeds m (λ _. k) db w (λ u db' same. h db' same)

  pub refuse_if-Succeeds :
      (bad : Bool) (e : Err) (k : Command W (Unit {0})) (st : Db × W)
      → (bad ≡ false → Succeeds (k st))
      → Succeeds ((refuse_if bad e >> k) st)
  unfolding ◌>>◌ ◌>>=◌ refuse_if pure throw
  refuse_if-Succeeds true e k st h = err-Succeeds e st
  refuse_if-Succeeds false e k st h = h refl

  pub refuse-Succeeds :
      (o : Option Err) (k : Command W (Unit {0})) (st : Db × W)
      → (o ≡ none → Succeeds (k st))
      → Succeeds ((refuse o >> k) st)
  unfolding ◌>>◌ ◌>>=◌ refuse pure throw
  refuse-Succeeds (some e) k st h = err-Succeeds e st
  refuse-Succeeds none k st h = h refl

  pub given-Succeeds {κ} :
      {A : Type κ} (r : Result A) (f : A → Command W (Unit {0})) (st : Db × W)
      → ((a : A) → r ≡ ok a → Succeeds (f a st))
      → Succeeds ((given r >>= f) st)
  unfolding ◌>>=◌ given
  given-Succeeds (err e) f st h = err-Succeeds e st
  given-Succeeds (ok a) f st h = h a refl
