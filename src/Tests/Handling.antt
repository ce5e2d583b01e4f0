-- ===== src/Tests/Handling.antt =====
-- Handling one object and reporting a run (internal/purge/purge.go, handle and finish).
use limewire_purge.Prelude.{◌≡◌, ◌↔◌, refl, true, false, inr, [], none, some, bytes_eq, split}
use limewire_purge.Decimal.{format_uint, parse_uint}
use limewire_purge.Errors.{Err, safety, no_rows, is_safety}
use limewire_purge.Pieceop.{parse, key, is_piece_of, keep_only, prefixes}
use limewire_purge.Purge.Env.{wait}
use limewire_purge.Purge.SizeCheck.{check_size}
use limewire_purge.Purge.Clear.{clear_prefix}
use limewire_purge.Purge.Process.{identity_diff, process_one}
use limewire_purge.Purge.Handle.{Tally, handle, finish}
use limewire_purge.Purge.Handle.Keeps.{handle-keeps, handle-keeps_in_dry_run}
use limewire_purge.Purge.Handle.Report.{
  AllWell, IsAlarmed, finish-none_iff, finish-is_safety, handle-IsAlarmed,
}
use limewire_purge.Tests.Store.{
  shop, KeepsStranger, shop-KeptByReads, shop-KeptByDeletes, shop-KeptByFailures,
}
use limewire_purge.Tests.Purging.{options, claimed_7, full}

abbrev fresh : Tally
fresh = record {
  processed = 0;
  failed = 0;
  interrupted = 0;
  keys = 0;
  bytes = 0;
  mismatch = 0;
  failed_list = [];
  unrecorded = [];
  halt_error = none;
  stop_error = none;
}

handle-keeps_example : KeepsStranger (handle shop (options false) 5 claimed_7 fresh full).1
unfolding bytes_eq
handle-keeps_example =
    handle-keeps shop KeepsStranger (options false) shop-KeptByReads shop-KeptByFailures 5 claimed_7
      fresh refl shop-KeptByDeletes (λ keys bytes check w v i. i) full refl

handle-keeps_in_dry_run_example :
    KeepsStranger (handle shop (options true) 5 claimed_7 fresh full).1
unfolding bytes_eq
handle-keeps_in_dry_run_example =
    handle-keeps_in_dry_run shop KeepsStranger (options true) shop-KeptByReads 5 claimed_7 fresh
      refl full refl

abbrev one_done : Tally
one_done = record fresh { processed = 1; keys = 2; bytes = 20; mismatch = 1 }

-- Pieces under both prefixes are an anomaly, which is counted.
handled : (handle shop (options false) 5 claimed_7 fresh full).0 ≡ some one_done
unfolding handle process_one clear_prefix keep_only is_piece_of parse key split format_uint
    parse_uint bytes_eq wait identity_diff prefixes check_size
handled = refl

handle-IsAlarmed_example : IsAlarmed one_done
handle-IsAlarmed_example =
    handle-IsAlarmed shop (options false) 5 claimed_7 fresh full one_done refl
      (inr (inr (refl, refl, refl))) handled

finish-none_iff_example : (finish one_done none none ≡ none) ↔ AllWell one_done none none
finish-none_iff_example = finish-none_iff one_done none none

abbrev halted_tally : Tally
halted_tally = record fresh { halt_error = some (safety no_rows) }

finish-is_safety_example :
    (e : Err) × (finish halted_tally none none ≡ some e) × (is_safety e ≡ true)
finish-is_safety_example = finish-is_safety halted_tally none none (safety no_rows) refl refl
