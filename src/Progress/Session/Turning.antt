-- ===== src/Progress/Session/Turning.antt =====
-- Rules for what a session turns the tables into: on success and on every error.
use limewire_purge.Prelude.{arith}
use limewire_purge.Errors.{Result, ok, err}
use limewire_purge.Progress.Tables.{Tables}
use limewire_purge.Progress.Session.{
  Db, M, ◌>>=◌, ◌>>◌, query, exec_get, transaction, commit, rolled_back, next,
}
use limewire_purge.Progress.Session.Keeping.{Keeps}

abbrev Outcome {ℓ κ} :
    {A : Type ℓ} → (A → Tables → Type κ) → (Tables → Type κ) → Result A × Db → Type κ
Outcome N X r = elim r.0 [ ok a ↦ N a r.1.tables | err e ↦ X r.1.tables ]

-- From tables in `P` a run leaves tables in `N` with its value, or in `X` with an error.
pub record Turns {ℓ κ} {A : Type ℓ} (P : Tables → Type κ) (m : M A) (N : A → Tables → Type κ)
    (X : Tables → Type κ) : Type κ where
  pub run : (db : Db) → P db.tables → Outcome N X (m db)

module _ {κ} {P : Tables → Type κ} (X : Tables → Type κ) where
  pub Turns->>= {ℓ ν} :
      {A : Type ℓ} {B : Type ν} (N : A → Tables → Type κ) (R : B → Tables → Type κ) {m : M A}
      (f : A → M B)
      → Turns P m N X
      → ((a : A) → Turns (N a) (f a) R X)
      → Turns P (m >>= f) R X
  unfolding ◌>>=◌
  Turns->>= {A = A} {B = B} N R {m = m} f first rest = record {
    run = λ db p. go (m db) (first.run db p);
  }
    where
      go :
          (r : Result A × Db)
          → Outcome N X r
          → Outcome R X (elim r.0 [ ok a ↦ f a r.1 | err e ↦ (err e, r.1) ])
      go (ok a, db) n = (rest a).run db n
      go (err e, db) x = x

  pub Turns->> {ν} :
      {B : Type ν} (N : Tables → Type κ) (R : B → Tables → Type κ) {m : M (Unit {0})} (k : M B)
      → Turns P m (λ _. N) X
      → Turns N k R X
      → Turns P (m >> k) R X
  unfolding ◌>>◌
  Turns->> N R k first rest = Turns->>= (λ _. N) R (λ _. k) first (λ _. rest)

  pub Turns-exec_get {ℓ} :
      {A : Type ℓ} (N : A → Tables → Type κ) (g : Tables → A) (f : Tables → Tables)
      → ((t : Tables) → P t → X t)
      → ((t : Tables) → P t → X (f t))
      → ((t : Tables) → P t → N (g t) (f t))
      → Turns P (exec_get g f) N X
  unfolding exec_get
  Turns-exec_get N g f stay lost turned = record {
    run = λ db p. ground (arith, stay db.tables p, lost db.tables p, turned db.tables p);
  }

  pub Turns-transaction {ℓ} :
      {A : Type ℓ} (N : A → Tables → Type κ) {body : M A}
      → ((t : Tables) → P t → X t)
      → ((a : A) (t : Tables) → N a t → X t)
      → Turns P body N X
      → Turns P (transaction body) N X
  unfolding transaction commit query
  Turns-transaction {A = A} N {body = body} stay lost b = record {
    run = λ db p. ground (
      arith,
      stay db.tables p,
      ended db.tables (body (next db)) (stay db.tables p) (b.run (next db) p),
    );
  }
    where
      ended :
          (before : Tables) (r : Result A × Db)
          → X before
          → Outcome N X r
          → Outcome N X (elim r.0 [ ok a ↦ commit before a r.1 | err e ↦ rolled_back before e r.1 ])
      ended before (ok a, db) x n = ground (arith, x, n, lost a db.tables n)
      ended before (err e, db) x n = x

  -- A step that keeps one property throughout.
  pub Turns-Keeps {ℓ} :
      {A : Type ℓ} {m : M A} → Keeps X m → ((t : Tables) → P t → X t) → Turns P m (λ _. X) X
  Turns-Keeps {A = A} {m = m} k stay = record {
    run = λ db p. go (m db) (k.run db (stay db.tables p));
  }
    where
      go : (r : Result A × Db) → X r.1.tables → Outcome (λ _. X) X r
      go (ok a, db) x = x
      go (err e, db) x = x

-- A reading step keeps what it starts from.
pub Turns-reads {ℓ κ} :
    {A : Type ℓ} {P : Tables → Type κ} {m : M A} (X : Tables → Type κ)
    → Keeps P m
    → ((t : Tables) → P t → X t)
    → Turns P m (λ _. P) X
Turns-reads {A = A} {P = P} {m = m} X k stay = record { run = λ db p. go (m db) (k.run db p) }
  where
    go : (r : Result A × Db) → P r.1.tables → Outcome (λ _. P) X r
    go (ok a, db) p = p
    go (err e, db) p = stay db.tables p

-- From a stronger start.
pub Turns-from {ℓ κ} :
    {A : Type ℓ} {P Q X : Tables → Type κ} {m : M A} {N : A → Tables → Type κ}
    → ((t : Tables) → P t → Q t)
    → Turns Q m N X
    → Turns P m N X
Turns-from h turned = record { run = λ db p. turned.run db (h db.tables p) }

pub Turns-to_Keeps {ℓ κ} :
    {A : Type ℓ} {I : Tables → Type κ} {m : M A} → Turns I m (λ _. I) I → Keeps I m
Turns-to_Keeps {A = A} {I = I} {m = m} turned = record { run = λ db i. go (m db) (turned.run db i) }
  where
    go : (r : Result A × Db) → Outcome (λ _. I) I r → I r.1.tables
    go (ok a, db) i = i
    go (err e, db) i = i
