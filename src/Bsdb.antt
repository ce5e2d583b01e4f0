-- ===== src/Bsdb.antt =====
-- internal/bsdb/scan.go: the list of the bucket's objects, read by pages of primary keys. What the
-- server answers to a query is the environment's; the hash that names the table is a parameter.
pub mod Rows
pub mod Whole
use Prim.Native.Char.{code}
use Prim.Native.String.{String}
use limewire_purge.Prelude.{
  ℕ, zero, suc, ◌+◌, ◌%◌, ◌/◌, Bool, true, false, not, List, [], ◌∷◌, ◌++◌, Option, none, some,
  Bytes, ℤ, codes, ltb, ◌==◌, if◌then◌else◌, length, Step, ◌>>=◌, pure, call, out_of_fuel,
}
use limewire_purge.Decimal.{parse_uint}
use limewire_purge.Errors.{Err, wrapped, message, Result, ok, err}
use limewire_purge.Progress.Tables.{ScanRow}

-- `TableFor`: the shard of a bucket, with two digits.
unfoldable pub table_for : (Bytes → ℕ) → Bytes → Bytes
table_for murmur3 bucket =
    let n = murmur3 bucket % 64 in codes "objects_" ++ ((b'0' + n / 10) ∷ (b'0' + n % 10) ∷ [])

-- `Reconcile`
unfoldable pub reconcile : (before after read : ℕ) → Option Err
reconcile before after read =
    if not (before == after)
    then some (message "bsdb count changed during the scan")
    else if not (read == before)
    then some (message "the list is incomplete, re-run scan")
    else none

-- A row of the query.
pub record ObjectRow : Type 0 where
  pub id : ℕ
  pub object_id : Bytes
  pub payload_size : ℕ
  pub status : String
  pub version : ℤ

-- The rows that rows.Next() gives, each read or not, and what rows.Err() says behind them.
pub record Page : Type 0 where
  pub rows : List (Result ObjectRow)
  pub error : Option Err

-- strings.TrimPrefix, with the whole text `s` for a prefix that is not there
trim : String → String → String → String
trim s String.[] rest = rest
trim s (String.◌∷◌ c prefix) String.[] = s
trim s (String.◌∷◌ c prefix) (String.◌∷◌ d rest) = elim (code c == code d) [
  | true ↦ trim s prefix rest
  | false ↦ s
]

unfoldable pub trim_prefix : String → String → String
unfolding trim
trim_prefix s prefix = trim s prefix s

unfoldable pub scan_row : ObjectRow → Option ScanRow
unfolding trim_prefix
scan_row r = elim (parse_uint 64 r.object_id) [
  | none ↦ none
  | some oid ↦ some (record {
    object_id = oid;
    payload_size = r.payload_size;
    status = trim_prefix r.status "OBJECT_STATUS_";
    version = r.version;
  })
]

-- A row whose object id is not a number ends the batch.
after_row : Option ScanRow → Result (List ScanRow × ℕ) → Result (List ScanRow × ℕ)
after_row none rest = err (message "bad object_id")
after_row (some s) (err e) = err e
after_row (some s) (ok (rows, last)) = ok (s ∷ rows, last)

-- The loop over the rows of a batch: the rows and the last id.
unfoldable pub read_rows : List (Result ObjectRow) → ℕ → Result (List ScanRow × ℕ)
unfolding after_row
read_rows [] last = ok ([], last)
read_rows (err e ∷ rows) last = err e
read_rows (ok r ∷ rows) last = after_row (scan_row r) (read_rows rows r.id)

-- What a scan leaves: the rows counted, the error, and what the callback keeps.
pub record Scanned (S : Type 0) : Type 0 where
  pub total : ℕ
  pub error : Option Err
  pub state : S

-- One query and the callback, for a bucket, a batch size and a callback. The loop runs on fuel, one
-- unit a query.
module _ {W S : Type 0} (query : ℕ → ℕ → W → Result Page × W) (batch : ℕ)
    (fn : List ScanRow → S → Option Err × S) where
  abbrev Again : Type 0
  Again = (last total : ℕ) → S → Step W (Scanned S)

  failed : ℕ → Err → S → Scanned S
  failed total e s = record { total = total; error = some e; state = s }

  complete : ℕ → S → Scanned S
  complete total s = record { total = total; error = none; state = s }

  after_callback : Again → List ScanRow → (last total : ℕ) → Option Err × S → Step W (Scanned S)
  unfolding failed complete
  after_callback again out last total (some e, s) = pure (failed total e s)
  after_callback again out last total (none, s) =
      if ltb (length out) batch
      then pure (complete (total + length out) s)
      else again last (total + length out) s

  after_batch : Again → ℕ → S → List ScanRow × ℕ → Step W (Scanned S)
  unfolding after_callback complete
  after_batch again total s ([], last) = pure (complete total s)
  after_batch again total s (r ∷ out, last) =
      after_callback again (r ∷ out) last total (fn (r ∷ out) s)

  after_rows : Again → ℕ → S → Option Err → Result (List ScanRow × ℕ) → Step W (Scanned S)
  unfolding after_batch failed
  after_rows again total s broken (err e) = pure (failed total e s)
  after_rows again total s (some e) (ok out) = pure (failed total (wrapped "bsdb read" e) s)
  after_rows again total s none (ok out) = after_batch again total s out

  after_query : Again → (last total : ℕ) → S → Result Page → Step W (Scanned S)
  unfolding after_rows failed
  after_query again last total s (err e) = pure (failed total e s)
  after_query again last total s (ok page) =
      after_rows again total s page.error (read_rows page.rows last)

  one_query : Again → Again
  unfolding after_query
  one_query again last total s = do
    answer ← call (query last batch)
    after_query again last total s answer

  queries : ℕ → Again
  unfolding one_query
  queries zero last total s = out_of_fuel
  queries (suc fuel) last total s = one_query (queries fuel) last total s

  -- `Scan`
  unfoldable pub scan : ℕ → S → Step W (Scanned S)
  unfolding queries
  scan fuel s = queries fuel 0 0 s
