-- ===== src/Commands/Inversion.antt =====
-- What a command that succeeds has gone through, step by step.
use limewire_purge.Prelude.{◌≡◌, refl, ap, Bool, true, false, arith}
use limewire_purge.Errors.{Err, Result, ok, err}
use limewire_purge.Progress.Session.{Db, M}
use limewire_purge.Commands.{Command, ◌>>=◌, ◌>>◌, throw, refuse_if, in_database}

-- The halves of a sequence that succeeds.
pub record Both {ℓ κ} {W : Type 0} {A : Type ℓ} {B : Type κ} (m : Command W A) (f : A → Command W B)
    (st : Db × W) (b : B) (end : Db × W) : Type (ℓ ⊔ κ) where
  pub value : A
  pub first : (m st).0 ≡ ok value
  pub second : (f value (m st).1).0 ≡ ok b
  pub same_end : end ≡ (f value (m st).1).1

module _ {ℓ κ} {W : Type 0} {A : Type ℓ} {B : Type κ} where
  pub halves :
      (m : Command W A) (f : A → Command W B) (st : Db × W) (b : B)
      → ((m >>= f) st).0 ≡ ok b
      → Both m f st b ((m >>= f) st).1
  unfolding ◌>>=◌
  halves m f st b same = by_first (m st).0 refl same
    where
      by_first :
          (r : Result A) → (m st).0 ≡ r → ((m >>= f) st).0 ≡ ok b → Both m f st b ((m >>= f) st).1
      by_first (err e) is same = absurd (ground (arith, is, same))
      by_first (ok a) is same = record {
        value = a;
        first = is;
        second = ground (arith, is, same);
        same_end = ground (arith, is);
      }

module _ {κ} {W : Type 0} {B : Type κ} where
  pub then_halves :
      (m : Command W (Unit {0})) (k : Command W B) (st : Db × W) (b : B)
      → ((m >> k) st).0 ≡ ok b
      → Both m (λ u. k) st b ((m >> k) st).1
  unfolding ◌>>◌
  then_halves m k st b same = halves m (λ u. k) st b same

-- A command that succeeds, with the state that it leaves.
pub ran {ℓ} :
    {W : Type 0} {A : Type ℓ} {a : A}
    → (m : Command W A) (st : Db × W) → (m st).0 ≡ ok a
    → m st ≡ (ok a, (m st).1)
ran m st e = ap (λ r. (r, (m st).1)) e

pub refuse_if_sound :
    {W : Type 0}
    → (bad : Bool) (x : Err) (st : Db × W) (u : Unit {0}) → (refuse_if bad x st).0 ≡ ok u
    → bad ≡ false
unfolding refuse_if throw
refuse_if_sound true x st u e = absurd (cc)
refuse_if_sound false x st u e = refl

pub in_database_sound {ℓ} :
    {W : Type 0} {A : Type ℓ}
    → (m : M A) (st : Db × W) (a : A) → (in_database m st).0 ≡ ok a
    → ((m st.0).0 ≡ ok a) × ((in_database m st).1.0 ≡ (m st.0).1)
unfolding in_database
in_database_sound m (db, w) a e = (e, refl)
