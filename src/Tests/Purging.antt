-- ===== src/Tests/Purging.antt =====
-- Clearing a prefix and one object attempt in a small store (internal/purge/purge.go, clearPrefix and
-- ProcessOne).
use limewire_purge.Prelude.{
  ◌≡◌, ◌↔◌, refl, Bool, true, false, [], ◌∷◌, none, some, Bytes, codes, bytes_eq, split, pos, arith,
}
use limewire_purge.Decimal.{format_uint, parse_uint}
use limewire_purge.Errors.{ok}
use limewire_purge.Pieceop.{parse, key, is_piece_of, keep_only, prefixes}
use limewire_purge.Purge.Env.{ObjectHead, Claimed, Options, wait}
use limewire_purge.Purge.Clear.{Cleared, clear_prefix}
use limewire_purge.Purge.Clear.Safety.{
  KeptByReads, clear_prefix-keeps, clear_prefix-keeps_in_dry_run,
}
use limewire_purge.Purge.Clear.Empty.{SeenEmpty, clear_prefix-SeenEmpty}
use limewire_purge.Purge.Process.{Attempt, identity_diff, process_one}
use limewire_purge.Purge.Process.Identity.{SameIdentity, identity_diff-nil_iff}
use limewire_purge.Purge.Process.Keeps.{
  process_one-keeps, process_one-keeps_in_dry_run, process_one-keeps_unless_confirmed,
}
use limewire_purge.Purge.Process.Outcome.{Verified, process_one-Verified}
use limewire_purge.Tests.Store.{
  Shop, shop, head_of_7, stranger, KeepsStranger, shop-KeptByReads, shop-KeptByDeletes,
  shop-reads_keep,
}

abbrev pub options : Bool → Options
options dry = record {
  bucket = "b";
  concurrency = 1;
  max_retry = 3;
  dry_run = dry;
  retry_failed = false;
  data_chunks = 4;
  segment_size = 16;
}

abbrev pub claimed_7 : Claimed
claimed_7 = record { oid = 7; payload_size = 16; status = "sealed"; version = pos 1 }

abbrev replaced_7 : Claimed
replaced_7 = record { oid = 7; payload_size = 16; status = "sealed"; version = pos 0 }

abbrev pub full : Shop
full = record {
  objects =
      record { key = codes "s7_s0"; size = pos 16 }
      ∷ record { key = stranger; size = pos 5 }
      ∷ record { key = codes "e7_s0_p1"; size = pos 4 }
      ∷ [];
  completed = [];
}

abbrev s_prefix : Bytes
s_prefix = codes "s7_"

clear_prefix-keeps_example : KeepsStranger (clear_prefix shop (options false) 7 s_prefix 5 full).1
unfolding bytes_eq
clear_prefix-keeps_example =
    clear_prefix-keeps shop KeepsStranger shop-KeptByReads (options false) 7 s_prefix
      shop-KeptByDeletes 5 full refl

clear_prefix-keeps_in_dry_run_example :
    KeepsStranger (clear_prefix shop (options true) 7 s_prefix 5 full).1
unfolding bytes_eq
clear_prefix-keeps_in_dry_run_example =
    clear_prefix-keeps_in_dry_run shop KeepsStranger shop-KeptByReads (options true) 7 s_prefix 5
      full refl refl

abbrev one_piece : Cleared
one_piece = record { keys = 1; bytes = 16; error = none }

-- One piece and its 16 bytes, in two rounds.
cleared_once : (clear_prefix shop (options false) 7 s_prefix 5 full).0 ≡ some one_piece
unfolding clear_prefix keep_only is_piece_of parse key split format_uint parse_uint bytes_eq wait
cleared_once = refl

clear_prefix-SeenEmpty_example :
    SeenEmpty shop
      (options false)
      7
      s_prefix
      (clear_prefix shop (options false) 7 s_prefix 5 full).1
clear_prefix-SeenEmpty_example =
    clear_prefix-SeenEmpty shop (options false) 7 s_prefix 5 full one_piece refl cleared_once refl

identity_diff-nil_iff_example :
    (identity_diff claimed_7 head_of_7 "b" ≡ []) ↔ SameIdentity claimed_7 head_of_7 "b"
identity_diff-nil_iff_example = identity_diff-nil_iff claimed_7 head_of_7 "b"

process_one-keeps_example : KeepsStranger (process_one shop (options false) 5 claimed_7 full).1
unfolding bytes_eq
process_one-keeps_example =
    process_one-keeps shop KeepsStranger (options false) shop-KeptByReads 5 claimed_7
      shop-KeptByDeletes full refl

-- Nothing at all changes.
abbrev IsFull : Shop → Type 0
IsFull w = w ≡ full

shop-IsFull : KeptByReads shop IsFull
shop-IsFull = shop-reads_keep IsFull

process_one-keeps_in_dry_run_example : IsFull (process_one shop (options true) 5 claimed_7 full).1
process_one-keeps_in_dry_run_example =
    process_one-keeps_in_dry_run shop IsFull (options true) shop-IsFull 5 claimed_7 refl full refl

not_confirmed :
    (w : Shop) (h : ObjectHead) → (shop.head_object 7 w).0 ≡ ok h → ¬ SameIdentity replaced_7 h "b"
not_confirmed w h said same = grind (arith, same.same_version, said)

process_one-keeps_unless_confirmed_example :
    IsFull (process_one shop (options false) 5 replaced_7 full).1
process_one-keeps_unless_confirmed_example =
    process_one-keeps_unless_confirmed shop IsFull (options false) shop-IsFull 5 replaced_7
      not_confirmed full refl

abbrev two_pieces : Attempt
two_pieces = record { keys = 2; bytes = 20; s_keys = 1; e_keys = 1; error = none }

attempted : (process_one shop (options false) 5 claimed_7 full).0 ≡ some two_pieces
unfolding process_one clear_prefix keep_only is_piece_of parse key split format_uint parse_uint
    bytes_eq wait identity_diff prefixes
attempted = refl

process_one-Verified_example :
    Verified shop
      (options false)
      claimed_7
      5
      full
      (process_one shop (options false) 5 claimed_7 full).1
process_one-Verified_example =
    process_one-Verified shop (options false) claimed_7 5 full two_pieces refl attempted refl
