-- ===== src/Progress/Current/Reached.antt =====
-- The databases that the operations on tasks can reach, whatever the server answers, whenever one is
-- interrupted and whoever holds the lock between its statements: each step starts from any session
-- over the tables that were left (internal/progress/subtask.go and progress.go).
use limewire_purge.Prelude.{ℕ, ◌≡◌, Bool, List, [], Option, Bytes, arith}
use limewire_purge.Purge.SizeCheck.{Role}
use limewire_purge.Progress.Tables.{ScanRow, Subtask, VerifyStatus, Tables}
use limewire_purge.Progress.Session.{Db}
use limewire_purge.Progress.Rows.{count}
use limewire_purge.Progress.Create.{create_subtask}
use limewire_purge.Progress.Purging.{begin_purge, complete_purge, hold, done_subtask, fail_member}
use limewire_purge.Progress.Verifying.{begin_verify, record_verify, complete_verify}
use limewire_purge.Progress.Admin.{defer_object, resume_safety}
use limewire_purge.Progress.Current.Create.{OneCurrent, create_subtask-OneCurrent}
use limewire_purge.Progress.Current.{
  hold-OneCurrent, begin_purge-OneCurrent, complete_purge-OneCurrent, done_subtask-OneCurrent,
  fail_member-OneCurrent, begin_verify-OneCurrent, record_verify-OneCurrent,
  complete_verify-OneCurrent, defer_object-OneCurrent, resume_safety-OneCurrent,
}

-- One operation of a session.
pub data Operation : Type 0 where
  create : (target max : ℕ) → Bool → Operation
  begin : Subtask → Operation
  complete : Subtask → Operation
  latch : ℕ → Option ℕ → Bytes → Operation
  record_done : (id oid keys bytes : ℕ) → Role → Option ℕ → Operation
  record_fail : (id oid keys bytes : ℕ) → Operation
  start_verifying : Subtask → Bool → Operation
  record_result : Subtask → ℕ → VerifyStatus → Operation
  accept : Subtask → Operation
  defer : Subtask → ℕ → Bytes → Operation
  resume : Subtask → Bytes → Operation

module _ (digest_rows : List ScanRow → ℕ) where
  -- The tables that it leaves.
  abbrev pub perform : Operation → Db → Tables
  perform (create target max retry) db = (create_subtask digest_rows target max retry db).1.tables
  perform (begin s) db = (begin_purge digest_rows s db).1.tables
  perform (complete s) db = (complete_purge s db).1.tables
  perform (latch id oid reason) db = (hold id oid reason db).1.tables
  perform (record_done id oid keys bytes role expected) db =
      (done_subtask id oid keys bytes role expected db).1.tables
  perform (record_fail id oid keys bytes) db = (fail_member id oid keys bytes db).1.tables
  perform (start_verifying s restart) db = (begin_verify digest_rows s restart db).1.tables
  perform (record_result s oid status) db = (record_verify s oid status db).1.tables
  perform (accept s) db = (complete_verify s db).1.tables
  perform (defer s oid reason) db = (defer_object s oid reason db).1.tables
  perform (resume s reason) db = (resume_safety s reason db).1.tables

  pub data Reached : Tables → Type 0 where
    no_tasks : (t : Tables) → t.tasks ≡ [] → Reached t
    performed : (db : Db) (op : Operation) → Reached db.tables → Reached (perform op db)

  perform-OneCurrent :
      (op : Operation) (db : Db) → OneCurrent db.tables → OneCurrent (perform op db)
  perform-OneCurrent (create target max retry) db i =
      (create_subtask-OneCurrent digest_rows target max retry).run db i
  perform-OneCurrent (begin s) db i = (begin_purge-OneCurrent digest_rows s).run db i
  perform-OneCurrent (complete s) db i = (complete_purge-OneCurrent s).run db i
  perform-OneCurrent (latch id oid reason) db i = (hold-OneCurrent id oid reason).run db i
  perform-OneCurrent (record_done id oid keys bytes role expected) db i =
      (done_subtask-OneCurrent id oid keys bytes role expected).run db i
  perform-OneCurrent (record_fail id oid keys bytes) db i =
      (fail_member-OneCurrent id oid keys bytes).run db i
  perform-OneCurrent (start_verifying s restart) db i =
      (begin_verify-OneCurrent digest_rows s restart).run db i
  perform-OneCurrent (record_result s oid status) db i =
      (record_verify-OneCurrent s oid status).run db i
  perform-OneCurrent (accept s) db i = (complete_verify-OneCurrent s).run db i
  perform-OneCurrent (defer s oid reason) db i = (defer_object-OneCurrent s oid reason).run db i
  perform-OneCurrent (resume s reason) db i = (resume_safety-OneCurrent s reason).run db i

  -- From a database without tasks, however the listed operations succeed, fail, lose their replies and
  -- follow each other, at most one task awaits its deletion.
  pub Reached-OneCurrent : (t : Tables) → Reached t → OneCurrent t
  unfolding count
  Reached-OneCurrent t (no_tasks before none_yet) = ground (arith, none_yet)
  Reached-OneCurrent after (performed db op r) =
      perform-OneCurrent op db (Reached-OneCurrent db.tables r)
