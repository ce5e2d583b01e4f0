-- ===== src/Progress/Session.antt =====
-- Statements, transactions and the execution lock (internal/progress/lock.go). Each statement takes
-- the next answer of the server from a script: it may go well, be refused without effect, or take
-- effect while its reply is lost; an empty script means that all goes well. Only the session that
-- holds the lock writes, so the tables change by its own statements alone.
pub mod Keeping
pub mod Success
pub mod Turning
use limewire_purge.Prelude.{
  ℕ, ◌≡◌, refl, Bool, true, false, not, List, [], ◌∷◌, Option, none, some, ◌==◌, if◌then◌else◌,
}
use limewire_purge.Errors.{Err, cancelled, wrapped, message, external, Result, ok, err}
use limewire_purge.Progress.Tables.{Tables}

pub data Answer : Type 0 where
  fine refused reply_lost : Answer

-- `struct Lock`: the connection that took it, and the error that was found first.
pub record Lock : Type 0 where
  pub id : ℕ
  pub lost : Option Err

-- A session. `owner` is what IS_USED_LOCK answers, `interrupted` what ctx.Err() does.
pub record Db : Type 0 where
  pub tables : Tables
  pub lock : Option Lock
  pub owner : Option ℕ
  pub interrupted : Bool
  pub script : List Answer

abbrev pub M {ℓ} : Type ℓ → Type ℓ
M A = Db → Result A × Db

infixl 5 ◌>>=◌ ◌>>◌
unfoldable pub ◌>>=◌ {ℓ κ} : {A : Type ℓ} {B : Type κ} → M A → (A → M B) → M B
◌>>=◌ m f db = let (r, db') = m db in elim r [ ok a ↦ f a db' | err e ↦ (err e, db') ]

unfoldable pub ◌>>◌ {ℓ} : {B : Type ℓ} → M (Unit {0}) → M B → M B
unfolding ◌>>=◌
m >> k = m >>= λ _. k

unfoldable pub pure {ℓ} : {A : Type ℓ} → A → M A
pure a db = (ok a, db)

unfoldable pub throw {ℓ} : {A : Type ℓ} → Err → M A
throw e db = (err e, db)

-- `if bad { return err }`
unfoldable pub refuse_if : Bool → Err → M (Unit {0})
unfolding pure throw
refuse_if bad e = if bad then throw e else pure tt

abbrev sql_error : Err
sql_error = external "sql"

abbrev answer : List Answer → Answer
answer [] = fine
answer (a ∷ rest) = a

abbrev later : List Answer → List Answer
later [] = []
later (a ∷ rest) = rest

abbrev next : Db → Db
next db = record db { script = later db.script }

-- QueryContext and QueryRowContext with their Scan.
unfoldable pub query {ℓ} : {A : Type ℓ} → (Tables → A) → M A
query f db = elim (answer db.script) [
  | fine ↦ (ok (f db.tables), next db)
  | _ ↦ (err sql_error, next db)
]

-- ExecContext with what the result says (LastInsertId, RowsAffected), read off the tables before. A
-- lost reply leaves the effect.
unfoldable pub exec_get {ℓ} : {A : Type ℓ} → (Tables → A) → (Tables → Tables) → M A
exec_get g f db = elim (answer db.script) [
  | fine ↦ (ok (g db.tables), record db { tables = f db.tables; script = later db.script })
  | refused ↦ (err sql_error, next db)
  | reply_lost ↦ (err sql_error, record db { tables = f db.tables; script = later db.script })
]

unfoldable pub exec : (Tables → Tables) → M (Unit {0})
unfolding exec_get
exec f = exec_get (λ t. tt) f

abbrev rolled_back {ℓ} : {A : Type ℓ} → Tables → Err → Db → Result A × Db
rolled_back before e db = (err e, record db { tables = before })

-- tx.Commit(): if the reply is lost the changes are in.
commit {ℓ} : {A : Type ℓ} → Tables → A → Db → Result A × Db
commit before a db = elim (answer db.script) [
  | fine ↦ (ok a, next db)
  | refused ↦ rolled_back before sql_error (next db)
  | reply_lost ↦ (err sql_error, next db)
]

-- BeginTx, the body, Commit; on any error of the body the deferred Rollback restores the tables.
unfoldable pub transaction {ℓ} : {A : Type ℓ} → M A → M A
unfolding query ◌>>=◌ commit
transaction body db =
    let (begun, db') = query (λ t. tt {0}) db in
    elim begun [
      | err e ↦ (err e, db')
      | ok _ ↦
          let (r, db'') = body db' in
          elim r [ ok a ↦ commit db'.tables a db'' | err e ↦ rolled_back db'.tables e db'' ]
    ]

abbrev owns : Option ℕ → ℕ → Bool
owns none id = false
owns (some o) id = o == id

abbrev lose : Lock → Err → Db → Result (Unit {0}) × Db
lose l e db =
    (err e, record db { lock = some (record l { lost = some (wrapped "execution lock lost" e) }) })

-- `Lock.Check`: the lock must still belong to the connection that took it; once lost, it stays lost.
check : Lock → M (Unit {0})
check l db = elim l.lost [
  | some e ↦ (err e, db)
  | none ↦ if db.interrupted then (err cancelled, db) else elim (answer db.script) [
    | fine ↦
        if owns db.owner l.id
        then (ok tt, next db)
        else lose l (message "execution lock is no longer owned by this session") (next db)
    | _ ↦ lose l sql_error (next db)
  ]
]

-- `DB.CheckLock`
unfoldable pub check_lock : M (Unit {0})
unfolding check
check_lock db = elim db.lock [
  | none ↦ (err (message "mutation requires execution lock"), db)
  | some l ↦ check l db
]
