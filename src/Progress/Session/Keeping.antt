-- ===== src/Progress/Session/Keeping.antt =====
-- Rules for what a session keeps true of the tables, whatever the server answers.
use limewire_purge.Prelude.{Bool, true, false, arith}
use limewire_purge.Errors.{Err, Result, ok, err}
use limewire_purge.Progress.Tables.{Tables}
use limewire_purge.Progress.Session.{
  Db, M, ◌>>=◌, ◌>>◌, pure, throw, refuse_if, query, exec, exec_get, transaction, check_lock, next,
}

-- A run keeps `I`, on success and on every error.
pub record Keeps {ℓ κ} {A : Type ℓ} (I : Tables → Type κ) (m : M A) : Type κ where
  pub run : (db : Db) → I db.tables → I (m db).1.tables

abbrev after {ℓ μ} : {A : Type ℓ} {B : Type μ} → (A → M B) → Result A × Db → Result B × Db
after f r = elim r.0 [ ok a ↦ f a r.1 | err e ↦ (err e, r.1) ]

module _ {κ} {I : Tables → Type κ} where
  module _ {ℓ μ} {A : Type ℓ} {B : Type μ} where
    pub Keeps->>= :
        {m : M A} {f : A → M B} → Keeps I m → ((a : A) → Keeps I (f a)) → Keeps I (m >>= f)
    unfolding ◌>>=◌
    Keeps->>= {m = m} {f = f} km kf = record { run = λ db i. go (m db) (km.run db i) }
      where
        go : (r : Result A × Db) → I r.1.tables → I (after f r).1.tables
        go (ok a, db) i = (kf a).run db i
        go (err e, db) i = i

  pub Keeps->> {μ} :
      {B : Type μ} {m : M (Unit {0})} {k : M B} → Keeps I m → Keeps I k → Keeps I (m >> k)
  unfolding ◌>>◌
  Keeps->> km kk = Keeps->>= km (λ _. kk)

  pub Keeps-pure {ℓ} : {A : Type ℓ} (a : A) → Keeps I (pure a)
  unfolding pure
  Keeps-pure a = record { run = λ db i. i }

  pub Keeps-throw {ℓ} : {A : Type ℓ} (e : Err) → Keeps I (throw {A = A} e)
  unfolding throw
  Keeps-throw e = record { run = λ db i. i }

  pub Keeps-refuse_if : (bad : Bool) (e : Err) → Keeps I (refuse_if bad e)
  unfolding refuse_if
  Keeps-refuse_if true e = record { run = λ db i. i }
  Keeps-refuse_if false e = record { run = λ db i. i }

  pub Keeps-query {ℓ} : {A : Type ℓ} (f : Tables → A) → Keeps I (query f)
  unfolding query
  Keeps-query f = record { run = λ db i. ground (arith, i) }

  pub Keeps-exec_get {ℓ} :
      {A : Type ℓ} (g : Tables → A) (f : Tables → Tables)
      → ((t : Tables) → I t → I (f t))
      → Keeps I (exec_get g f)
  unfolding exec_get
  Keeps-exec_get g f kf = record { run = λ db i. ground (arith, i, kf db.tables i) }

  pub Keeps-exec : (f : Tables → Tables) → ((t : Tables) → I t → I (f t)) → Keeps I (exec f)
  unfolding exec
  Keeps-exec f kf = Keeps-exec_get (λ t. tt) f kf

  pub Keeps-check_lock : Keeps I check_lock
  unfolding check_lock
  Keeps-check_lock = record { run = λ db i. ground (arith, i) }

  pub Keeps-transaction {ℓ} : {A : Type ℓ} {body : M A} → Keeps I body → Keeps I (transaction body)
  unfolding transaction
  Keeps-transaction {body = body} kb = record {
    run = λ db i. ground (arith, i, kb.run (next db) i);
  }

pub ruleset keeping = (
  Keeps->>=, Keeps->>, Keeps-pure, Keeps-throw, Keeps-refuse_if, Keeps-query, Keeps-check_lock,
  Keeps-transaction,
)
