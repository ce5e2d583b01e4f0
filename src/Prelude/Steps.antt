-- ===== src/Prelude/Steps.antt =====
-- Stateful code with loops on fuel: a step from a world to a value and the next world. The value is
-- missing where the fuel ran out, and the world is then the one reached so far. Go's `error` results
-- are values, so they are not in the monad.
use mathlib.Core.Option.{Option, none, some}
use mathlib.Core.Path.{◌≡◌, refl}

abbrev pub Step {ℓ} : Type 0 → Type ℓ → Type ℓ
Step W A = W → Option A × W

module _ {W : Type 0} where
  infixl 5 ◌>>=◌ ◌>>◌
  abbrev pub ◌>>=◌ {ℓ κ} : {A : Type ℓ} {B : Type κ} → Step W A → (A → Step W B) → Step W B
  ◌>>=◌ m f w = let (o, w') = m w in elim o [ none ↦ (none, w') | some a ↦ f a w' ]

  abbrev pub ◌>>◌ {ℓ κ} : {A : Type ℓ} {B : Type κ} → Step W A → Step W B → Step W B
  m >> k = m >>= λ _. k

  abbrev pub pure {ℓ} : {A : Type ℓ} → A → Step W A
  pure a w = (some a, w)

  -- A call that always returns.
  abbrev pub call {ℓ} : {A : Type ℓ} → (W → A × W) → Step W A
  call f w = let (a, w') = f w in (some a, w')

  abbrev pub out_of_fuel {ℓ} : {A : Type ℓ} → Step W A
  out_of_fuel w = (none, w)

  -- The value of a run, if there is one, and the world that it leaves satisfy `Q`.
  abbrev pub Yields {ℓ κ} : {A : Type ℓ} → (A → W → Type κ) → Option A × W → Type (ℓ ⊔ κ)
  Yields {A} Q r = (a : A) → r.0 ≡ some a → Q a r.1

module _ {ℓ κ} {W : Type 0} {A : Type ℓ} {B : Type κ} where
  abbrev after_step : (A → Step W B) → Option A × W → Option B × W
  after_step f r = elim r.0 [ none ↦ (none, r.1) | some a ↦ f a r.1 ]

  -- A bind, by a rule for each half: of the world that it leaves, and of what it yields.
  pub world->>= {μ} :
      (I : W → Type μ) (m : Step W A) (f : A → Step W B) (w : W)
      → I (m w).1
      → ((a : A) (w' : W) → I w' → I (f a w').1)
      → I ((m >>= f) w).1
  world->>= I m f w h k = go (m w) h
    where
      go : (r : Option A × W) → I r.1 → I (after_step f r).1
      go (none, w') i = i
      go (some a, w') i = k a w' i

  -- The same, with the value that the first half yields in that very world.
  pub world_at->>= {μ} :
      (I : W → Type μ) (m : Step W A) (f : A → Step W B) (w : W)
      → I (m w).1
      → ((a : A) → (m w).0 ≡ some a → I (f a (m w).1).1)
      → I ((m >>= f) w).1
  world_at->>= I m f w h k = go (m w) h k
    where
      go :
          (r : Option A × W)
          → I r.1
          → ((a : A) → r.0 ≡ some a → I (f a r.1).1)
          → I (after_step f r).1
      go (none, w') i k = i
      go (some a, w') i k = k a refl

  pub Yields->>= {μ ν} :
      (P : A → W → Type μ) (Q : B → W → Type ν) (m : Step W A) (f : A → Step W B) (w : W)
      → Yields P (m w)
      → ((a : A) (w' : W) → P a w' → Yields Q (f a w'))
      → Yields Q ((m >>= f) w)
  Yields->>= P Q m f w h k = go (m w) h
    where
      go : (r : Option A × W) → Yields P r → Yields Q (after_step f r)
      go (none, w') i = λ b e. cc
      go (some a, w') i = k a w' (i a refl)
