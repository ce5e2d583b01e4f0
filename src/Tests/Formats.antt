-- ===== src/Tests/Formats.antt =====
-- Keys, numbers, shards and batches at concrete inputs (internal/pieceop/key.go,
-- internal/purge/sizecheck.go and internal/progress/subtask.go).
use limewire_purge.Prelude.{
  ℕ, ◌≡◌, ◌↔◌, refl, true, List, [], ◌∷◌, none, some, Bytes, codes, pos, split, bytes_eq, arith,
}
use limewire_purge.Errors.{ok}
use limewire_purge.Decimal.{format_uint, parse_uint}
use limewire_purge.Decimal.RoundTrip.{parse_uint-format_uint}
use limewire_purge.Pieceop.{Piece, key, parse, keep_only}
use limewire_purge.Pieceop.RoundTrip.{IsWellFormed, parse_iff}
use limewire_purge.Pieceop.Prefixed.{HasPrefix, prefix_of, key-HasPrefix_iff}
use limewire_purge.Pieceop.Keep.{Splits, keep_only-Splits}
use limewire_purge.Purge.SizeCheck.{expected_secondary_bytes}
use limewire_purge.Purge.SizeCheck.Shards.{shards_total, expected_secondary_bytes-shards_total}
use limewire_purge.Progress.Tables.{ScanRow}
use limewire_purge.Progress.Capacity.{parse_capacity, select_capacity}
use limewire_purge.Progress.Capacity.Selected.{Selected, select_capacity-Selected}

format_zero : format_uint 0 ≡ codes "0"
unfolding format_uint
format_zero = refl

format_large : format_uint 18446744073709551615 ≡ codes "18446744073709551615"
unfolding format_uint
format_large = refl

parse_overflow : parse_uint 64 (codes "18446744073709551616") ≡ none
unfolding parse_uint
parse_overflow = refl

parse_leading_zeros : parse_uint 32 (codes "007") ≡ some 7
unfolding parse_uint
parse_leading_zeros = refl

parse_runs :
    parse (codes "e123_s0_p5_v2")
    ≡ some (record { oid = 123; segment = 0; secondary = true; redundancy = 5; version = pos 2 })
unfolding parse key split format_uint parse_uint bytes_eq
parse_runs = refl

parse_refuses :
    (parse (codes "s123_backup") ≡ none)
    × (parse (codes "s0123_s0") ≡ none)
    × (parse (codes "s123_s0_v0") ≡ none)
    × (parse (codes "s123_s0_p1") ≡ none)
    × (parse (codes "e123_s0") ≡ none)
unfolding parse key split format_uint parse_uint bytes_eq
parse_refuses = (refl, refl, refl, refl, refl)

-- 40 bytes in segments of 16, four data chunks: 4 + 4 + 2.
shards_of_40 : expected_secondary_bytes 40 16 4 ≡ 10
unfolding expected_secondary_bytes
shards_of_40 = refl

capacity_runs :
    (parse_capacity (codes "500GiB") ≡ some 536870912000)
    × (parse_capacity (codes "500G") ≡ none)
    × (parse_capacity (codes "16777216TiB") ≡ none)
    × (parse_capacity (codes "0B") ≡ none)
unfolding parse_capacity bytes_eq parse_uint
capacity_runs = (refl, refl, refl, refl)

parse_uint-format_uint_example : parse_uint 32 (format_uint 4294967295) ≡ some 4294967295
parse_uint-format_uint_example = parse_uint-format_uint 32 4294967295 (omega arith)

abbrev shard_piece : Piece
shard_piece = record { oid = 123; segment = 0; secondary = true; redundancy = 5; version = pos 2 }

parse_iff_example :
    (parse (codes "e123_s0_p5_v2") ≡ some shard_piece)
    ↔ (IsWellFormed shard_piece × (key shard_piece ≡ codes "e123_s0_p5_v2"))
parse_iff_example = parse_iff (codes "e123_s0_p5_v2") shard_piece

key-HasPrefix_iff_example :
    HasPrefix (prefix_of true 12) (key shard_piece)
    ↔ ((shard_piece.secondary ≡ true) × (shard_piece.oid ≡ 12))
key-HasPrefix_iff_example = key-HasPrefix_iff shard_piece true 12 (omega arith) (omega arith)

abbrev mixed_keys : List Bytes
mixed_keys = codes "s123_s0" ∷ codes "s123_backup" ∷ codes "e123_s0_p1" ∷ codes "s1234_s0" ∷ []

keep_only-Splits_example :
    Splits 123 mixed_keys (keep_only mixed_keys 123).0 (keep_only mixed_keys 123).1
keep_only-Splits_example = keep_only-Splits mixed_keys 123

shards_total_example : expected_secondary_bytes 40 16 4 ≡ shards_total 40 16 4
shards_total_example =
    expected_secondary_bytes-shards_total 40 16 4 (omega arith) (omega arith) (omega arith)
      (omega arith)

abbrev row_of : ℕ → ℕ → ScanRow
row_of id size = record { object_id = id; payload_size = size; status = "sealed"; version = pos 1 }

abbrev batch_rows : List ScanRow
batch_rows = row_of 1 40 ∷ row_of 2 70 ∷ row_of 3 900 ∷ []

batch_selected : select_capacity batch_rows 100 10 ≡ ok (row_of 1 40 ∷ row_of 2 70 ∷ [], 110)
unfolding select_capacity
batch_selected = refl

select_capacity-Selected_example : Selected 100 10 batch_rows (row_of 1 40 ∷ row_of 2 70 ∷ []) 110
select_capacity-Selected_example =
    select_capacity-Selected batch_rows 100 10 (row_of 1 40 ∷ row_of 2 70 ∷ []) 110 batch_selected
