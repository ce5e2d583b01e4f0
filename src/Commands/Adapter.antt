-- ===== src/Commands/Adapter.antt =====
-- `progressAdapter` of cmd/limewire-purge/main.go: the progress database as the purge loop meets it.
-- Its Fail is Progress.Purging.fail_member.
pub mod Ascending
use limewire_purge.Prelude.{ℕ, Bool, true, false, List, [], ◌∷◌, Option, none, some, if◌then◌else◌}
use limewire_purge.Errors.{Result, ok, err}
use limewire_purge.Progress.Tables.{ScanRow}
use limewire_purge.Progress.Session.{M, ◌>>=◌, ◌>>◌, pure, check_lock}
use limewire_purge.Progress.Purging.{claim_subtask, done_subtask}
use limewire_purge.Purge.Env.{Claimed}
use limewire_purge.Purge.SizeCheck.{SizeCheck}

unfoldable pub to_claimed : List ScanRow → List Claimed
to_claimed [] = []
to_claimed (r ∷ rows) =
    record {
      oid = r.object_id;
      payload_size = r.payload_size;
      status = r.status;
      version = r.version;
    }
    ∷ to_claimed rows

-- `Claim`; failed objects are always among them.
unfoldable pub claim : (id after limit : ℕ) → M (List Claimed)
unfolding to_claimed
claim id after limit = do check_lock; rows ← claim_subtask id after limit; pure (to_claimed rows)

-- `Done`: the expected size is passed on where it is known.
unfoldable pub done : (id oid keys bytes : ℕ) → SizeCheck → M (Unit {0})
done id oid keys bytes check =
    done_subtask id oid keys bytes check.role (if check.known then some check.expected else none)
