-- ===== src/Commands/World.antt =====
-- What a command leaves in the outside world.
use limewire_purge.Prelude.{◌≡◌, refl, Bool, true, false, Option, none, some}
use limewire_purge.Errors.{Err, Result, ok, err}
use limewire_purge.Progress.Session.{Db, M}
use limewire_purge.Commands.{
  Command, ◌>>=◌, ◌>>◌, pure, throw, refuse_if, refuse, given, in_database, outside,
}

abbrev pub after_first {ℓ κ} :
    {W : Type 0} {A : Type ℓ} {B : Type κ}
    → (A → Command W B)
    → Result A × (Db × W)
    → Result B × (Db × W)
after_first f r = elim r.0 [ ok a ↦ f a r.1 | err e ↦ (err e, r.1) ]

module _ {W : Type 0} (I : W → Type 0) where
  pub Leaves->>= {ℓ κ} :
      {A : Type ℓ} {B : Type κ} (m : Command W A) (f : A → Command W B) (st : Db × W)
      → I (m st).1.1
      → ((a : A) → (m st).0 ≡ ok a → I (f a (m st).1).1.1)
      → I ((m >>= f) st).1.1
  unfolding ◌>>=◌
  Leaves->>= {A = A} {B = B} m f st i k = by_first (m st) refl i k
    where
      by_first :
          (r : Result A × (Db × W))
          → m st ≡ r
          → I r.1.1
          → ((a : A) → r.0 ≡ ok a → I (f a r.1).1.1)
          → I (after_first f r).1.1
      by_first (ok a, st') same i k = k a refl
      by_first (err e, st') same i k = i

  pub Leaves->> {κ} :
      {B : Type κ} (m : Command W (Unit {0})) (k : Command W B) (st : Db × W)
      → I (m st).1.1
      → ((m st).0 ≡ ok tt → I (k (m st).1).1.1)
      → I ((m >> k) st).1.1
  unfolding ◌>>◌
  Leaves->> m k st i f = Leaves->>= m (λ u. k) st i (λ u. f)

  pub in_database-Leaves {ℓ} :
      {A : Type ℓ} (m : M A) (st : Db × W) → I st.1 → I (in_database m st).1.1
  unfolding in_database
  in_database-Leaves m (db, w) i = i

  -- A check that refuses ends the command; one that passes leaves the state as it is.
  pub Leaves-refuse_if {κ} :
      {B : Type κ} (bad : Bool) (e : Err) (k : Command W B) (st : Db × W)
      → I st.1
      → (bad ≡ false → I (k st).1.1)
      → I ((refuse_if bad e >> k) st).1.1
  unfolding ◌>>◌ ◌>>=◌ refuse_if pure throw
  Leaves-refuse_if true e k st i h = i
  Leaves-refuse_if false e k st i h = h refl

  pub Leaves-refuse {κ} :
      {B : Type κ} (o : Option Err) (k : Command W B) (st : Db × W)
      → I st.1
      → (o ≡ none → I (k st).1.1)
      → I ((refuse o >> k) st).1.1
  unfolding ◌>>◌ ◌>>=◌ refuse pure throw
  Leaves-refuse (some e) k st i h = i
  Leaves-refuse none k st i h = h refl

  pub Leaves-given {ℓ κ} :
      {A : Type ℓ} {B : Type κ} (r : Result A) (f : A → Command W B) (st : Db × W)
      → I st.1
      → ((a : A) → r ≡ ok a → I (f a st).1.1)
      → I ((given r >>= f) st).1.1
  unfolding ◌>>=◌ given
  Leaves-given (err e) f st i h = i
  Leaves-given (ok a) f st i h = h a refl

  pub outside-Leaves {ℓ} :
      {A : Type ℓ} (f : W → A × W) (st : Db × W) → I (f st.1).1 → I (outside f st).1.1
  unfolding outside
  outside-Leaves f (db, w) i = i

  pub pure-Leaves {ℓ} : {A : Type ℓ} (a : A) (st : Db × W) → I st.1 → I (pure a st).1.1
  unfolding pure
  pure-Leaves a st i = i
