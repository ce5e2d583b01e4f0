-- ===== src/Commands.antt =====
-- cmd/limewire-purge: the commands over the components. A command runs in the session of the progress
-- database and in the outside world; its flags are read, and what internal/spconfig makes of the
-- configuration is given to it.
pub mod Inversion
pub mod World
pub mod Succeeds
pub mod Adapter
pub mod Scan
pub mod Purge
pub mod Verify
pub mod Task
use limewire_purge.Prelude.{ℕ, Bool, true, false, Option, none, some, ltb, if◌then◌else◌}
use limewire_purge.Errors.{Err, wrapped, message, joined, join, Result, ok, err}
use limewire_purge.Progress.Session.{Db, M}

-- A command: a result or an error, in the session and the world that it leaves.
abbrev pub Command {ℓ} : Type 0 → Type ℓ → Type ℓ
Command W A = Db × W → Result A × (Db × W)

module _ {W : Type 0} where
  infixl 5 ◌>>=◌ ◌>>◌
  unfoldable pub ◌>>=◌ {ℓ κ} :
      {A : Type ℓ} {B : Type κ} → Command W A → (A → Command W B) → Command W B
  ◌>>=◌ m f st = let (r, st') = m st in elim r [ ok a ↦ f a st' | err e ↦ (err e, st') ]

  unfoldable pub ◌>>◌ {ℓ} : {B : Type ℓ} → Command W (Unit {0}) → Command W B → Command W B
  unfolding ◌>>=◌
  m >> k = m >>= λ _. k

  unfoldable pub pure {ℓ} : {A : Type ℓ} → A → Command W A
  pure a st = (ok a, st)

  unfoldable pub throw {ℓ} : {A : Type ℓ} → Err → Command W A
  throw e st = (err e, st)

  -- `if bad { return err }`
  unfoldable pub refuse_if : Bool → Err → Command W (Unit {0})
  unfolding pure throw
  refuse_if true e = throw e
  refuse_if false e = pure tt

  unfoldable pub refuse : Option Err → Command W (Unit {0})
  unfolding pure throw
  refuse (some e) = throw e
  refuse none = pure tt

  unfoldable pub given {ℓ} : {A : Type ℓ} → Result A → Command W A
  given r st = (r, st)

  -- A call of internal/progress, and one of anything else.
  unfoldable pub in_database {ℓ} : {A : Type ℓ} → M A → Command W A
  in_database m (db, w) = let (r, db') = m db in (r, (db', w))

  unfoldable pub outside {ℓ} : {A : Type ℓ} → (W → A × W) → Command W A
  outside f (db, w) = let (a, w') = f w in (ok a, (db, w'))
