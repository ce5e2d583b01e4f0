-- ===== src/Tests/Scanning.antt =====
-- A table of three objects, read two at a time.
use limewire_purge.Prelude.{
  ℕ, ◌+◌, sym, ap, List, [], ◌∷◌, ◌++◌, Option, none, pos, codes, take, arith,
}
use limewire_purge.Errors.{Err, Result, ok, err}
use limewire_purge.Progress.Tables.{ScanRow}
use limewire_purge.Bsdb.{ObjectRow, Page, scan}
use limewire_purge.Bsdb.Rows.{behind, all_read}
use limewire_purge.Bsdb.Whole.{Honest, Ends, scan-Ends}

abbrev row : ℕ → ObjectRow
row id = record {
  id = id;
  object_id = codes "42";
  payload_size = 7;
  status = "OBJECT_STATUS_SEALED";
  version = pos 0;
}

abbrev table : List ObjectRow
table = row 2 ∷ row 5 ∷ row 9 ∷ []

abbrev page_behind : ℕ → ℕ → Page
page_behind last batch = record { rows = all_read (take batch (behind last table)); error = none }

abbrev query : ℕ → ℕ → ℕ → Result Page × ℕ
query last batch w = (ok (page_behind last batch), w + 1)

abbrev keep : List ScanRow → List ScanRow → Option Err × List ScanRow
keep rows kept = (none, kept ++ rows)

abbrev rows_of : Result Page → List (Result ObjectRow)
rows_of (ok page) = page.rows
rows_of (err e) = []

query-Honest : Honest query 2 keep table
query-Honest last page w same clean = sym (ap rows_of same)

scan-Ends_example : Ends query 2 keep table table 0 [] (scan query 2 keep 4 [] 0)
scan-Ends_example =
    scan-Ends query 2 keep table (omega arith) query-Honest
      (omega arith, (omega arith, (omega arith, tt)))
      ((omega arith, (omega arith, tt)), ((omega arith, tt), (tt, tt))) 4 [] 0 (omega arith)
