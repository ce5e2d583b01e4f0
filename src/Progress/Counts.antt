-- ===== src/Progress/Counts.antt =====
-- The counts of a progress database: `Counts`, `Remaining` and `Mismatches` of
-- internal/progress/progress.go. The rows of a report stand for its texts.
use limewire_purge.Prelude.{
  ℕ, ◌+◌, ◌-◌, ◌%◌, ◌^◌, Bool, true, false, not, ◌&&◌, List, none, some, ◌==◌, length, take,
}
use limewire_purge.Progress.Tables.{ProgressRow, Tables}
use limewire_purge.Progress.Session.{M, ◌>>=◌, query}
use limewire_purge.Progress.Rows.{is_done, count, total, select, sort_by}

pub record Counts : Type 0 where
  pub total : ℕ
  pub done : ℕ
  pub failed : ℕ
  pub deleted_keys : ℕ
  pub deleted_bytes : ℕ
  pub scan_bytes : ℕ
  pub size_checked : ℕ
  pub size_mismatch : ℕ

-- c.Total - c.Done - c.Failed of uint64
unfoldable pub remaining : Counts → ℕ
remaining c = (c.total + (2 ^ 64 - c.done) + (2 ^ 64 - c.failed)) % 2 ^ 64

-- status = 1 AND expected_bytes IS NOT NULL
unfoldable pub is_checked : ProgressRow → Bool
is_checked p = is_done p.status && elim p.expected_bytes [ none ↦ false | some e ↦ true ]

-- … AND deleted_bytes <> expected_bytes
unfoldable pub is_mismatch : ProgressRow → Bool
is_mismatch p =
    is_done p.status && elim p.expected_bytes [ none ↦ false | some e ↦ not (p.deleted_bytes == e) ]

unfoldable pub counts_of : ℕ × ℕ → Tables → Counts
unfolding count total is_checked is_mismatch
counts_of (objects, bytes) t = record {
  total = objects;
  done = count (λ p. is_done p.status) t.progress;
  failed = count (λ p. not (is_done p.status)) t.progress;
  deleted_keys = total (λ p. p.deleted_keys) t.progress;
  deleted_bytes = total (λ p. p.deleted_bytes) t.progress;
  scan_bytes = bytes;
  size_checked = count is_checked t.progress;
  size_mismatch = count is_mismatch t.progress;
}

-- `Counts`
unfoldable pub counts : M Counts
unfolding total counts_of
counts = do
  objects ← query (λ t. (length t.scan_objects, total (λ s. s.payload_size) t.scan_objects))
  query (counts_of objects)

-- `Mismatches`
unfoldable pub mismatches : ℕ → M (List ProgressRow)
unfolding select sort_by is_mismatch
mismatches limit =
    query (λ t. take limit (sort_by (λ p. p.object_id) (select is_mismatch t.progress)))
