-- ===== src/Progress/Session/Success.antt =====
-- Rules for what a session has done when it succeeds: of the tables before and after.
use limewire_purge.Prelude.{◌≡◌, refl, Bool, true, false, arith}
use limewire_purge.Errors.{Err, Result, ok, err}
use limewire_purge.Progress.Tables.{Tables}
use limewire_purge.Progress.Session.{
  Db, M, ◌>>=◌, ◌>>◌, pure, throw, refuse_if, query, exec, exec_get, check, check_lock,
}

-- From tables in `P` a run that succeeds yields a value and tables in `Q`.
pub record Ensures {ℓ κ μ} {A : Type ℓ} (P : Tables → Type κ) (m : M A) (Q : A → Tables → Type μ)
    : Type (ℓ ⊔ κ ⊔ μ) where
  pub run : (db : Db) → P db.tables → (a : A) → (m db).0 ≡ ok a → Q a (m db).1.tables

abbrev and_then {ℓ μ} : {A : Type ℓ} {B : Type μ} → (A → M B) → Result A × Db → Result B × Db
and_then f r = elim r.0 [ ok a ↦ f a r.1 | err e ↦ (err e, r.1) ]

module _ {κ} {P : Tables → Type κ} where
  module _ {ℓ μ ν ξ} {A : Type ℓ} {B : Type μ} where
    pub Ensures->>= :
        (Q : A → Tables → Type ν) (R : B → Tables → Type ξ) {m : M A} (f : A → M B)
        → Ensures P m Q
        → ((a : A) → Ensures (Q a) (f a) R)
        → Ensures P (m >>= f) R
    unfolding ◌>>=◌
    Ensures->>= Q R {m = m} f first rest = record { run = λ db p. go (m db) (first.run db p) }
      where
        go :
            (r : Result A × Db)
            → ((a : A) → r.0 ≡ ok a → Q a r.1.tables)
            → (b : B) → (and_then f r).0 ≡ ok b
            → R b (and_then f r).1.tables
        go (ok a, db) q b e = (rest a).run db (q a refl) b e
        go (err d, db) q b e = cc

  pub Ensures->> {μ ν ξ} :
      {B : Type μ} (Q : Tables → Type ν) (R : B → Tables → Type ξ) {m : M (Unit {0})} (k : M B)
      → Ensures P m (λ _. Q)
      → Ensures Q k R
      → Ensures P (m >> k) R
  unfolding ◌>>◌
  Ensures->> Q R k first rest = Ensures->>= (λ _. Q) R (λ _. k) first (λ _. rest)

  pub Ensures-weaken {ℓ μ ν} :
      {A : Type ℓ} {m : M A} (Q : A → Tables → Type μ) (R : A → Tables → Type ν)
      → ((a : A) (t : Tables) → Q a t → R a t)
      → Ensures P m Q
      → Ensures P m R
  Ensures-weaken Q R h e = record { run = λ db p a same. h a _ (e.run db p a same) }

  pub Ensures-query {ℓ} :
      {A : Type ℓ} (f : Tables → A) → Ensures P (query f) (λ a t. P t × (a ≡ f t))
  unfolding query
  Ensures-query f = record { run = λ db p a e. ground (arith, p, e) }

  pub Ensures-refuse_if :
      (bad : Bool) (e : Err) → Ensures P (refuse_if bad e) (λ _ t. P t × (bad ≡ false))
  unfolding refuse_if pure throw
  Ensures-refuse_if true e = record { run = λ db p a same. cc }
  Ensures-refuse_if false e = record { run = λ db p a same. (p, refl) }

  pub Ensures-exec :
      (f : Tables → Tables) → Ensures P (exec f) (λ _ t'. (t : Tables) × P t × (t' ≡ f t))
  unfolding exec exec_get
  Ensures-exec f = record { run = λ db p a e. (db.tables, p, ground (arith, e)) }

  pub Ensures-check_lock : Ensures P check_lock (λ _ t. P t)
  unfolding check_lock check
  Ensures-check_lock = record { run = λ db p a e. ground (arith, p) }

-- From a stronger start.
pub Ensures-from {ℓ κ μ ν} :
    {A : Type ℓ} {P : Tables → Type κ} {P' : Tables → Type μ} {m : M A} {Q : A → Tables → Type ν}
    → ((t : Tables) → P t → P' t)
    → Ensures P' m Q
    → Ensures P m Q
Ensures-from h e = record { run = λ db p a same. e.run db (h db.tables p) a same }
