-- ===== src/Tests/Storage.antt =====
-- A small bucket on the server, and calls that may fail.
use limewire_purge.Prelude.{
  ℕ, ◌+◌, ◌≡◌, ◌≢◌, refl, true, false, List, [], ◌∷◌, Option, none, some, Bytes, String, pos, codes,
  split, length, bytes_eq, arith,
}
use limewire_purge.Decimal.{parse_uint, format_uint}
use limewire_purge.Errors.{Err, ok}
use limewire_purge.Pieceop.{parse, key, is_piece_of, keep_only}
use limewire_purge.Purge.Env.{Object}
use limewire_purge.S3Store.{
  ListedKey, Listing, Client, to_objects, next_page, check_keys, delete_keys, list_all,
}
use limewire_purge.S3Store.Guard.{Unsent, check_keys-none_iff, delete_keys-Unsent}
use limewire_purge.S3Store.Pages.{Paged, show_pages, list_all-show_pages}
use limewire_purge.Deadline.{Race, Clock, is_timed_out, retry_if}
use limewire_purge.Deadline.Attempts.{Regular, Spent, retry_if-Spent}

abbrev listed : String → ListedKey
listed name = record { key = some (codes name); size = some (pos 5) }

abbrev first_page : Listing
first_page = record {
  contents = listed "s7_s0" ∷ listed "s7_s1" ∷ [];
  is_truncated = some true;
  next_token = some (codes "t");
}

abbrev last_page : Listing
last_page = record { contents = listed "s7_s2" ∷ []; is_truncated = some false; next_token = none }

-- Two pages; the world is the number of requests.
abbrev bucket : Client ℕ
bucket = record {
  list_objects_v2 =
      λ prefix max token w. (elim token [ none ↦ ok first_page | some t ↦ ok last_page ], w + 1);
  delete_objects = λ keys w. (ok (record { deleted = []; errors = [] }), w + 1);
  bucket_versioning = λ w. (ok "Enabled", w + 1);
}

abbrev foreign : List Bytes
foreign = codes "s7_s0" ∷ codes "s8_s0" ∷ []

foreign-refused : check_keys 7 foreign ≢ none
unfolding check_keys keep_only is_piece_of parse key split format_uint parse_uint bytes_eq
foreign-refused e = cc

delete_keys-Unsent_example : Unsent 0 (delete_keys bucket 7 foreign 0)
delete_keys-Unsent_example =
    delete_keys-Unsent bucket 7 foreign 0 (omega arith) (omega arith)
      (λ pieces. foreign-refused ((check_keys-none_iff 7 foreign).1 pieces))

abbrev seen : List Object → ℕ → ℕ → (Option Err × ℕ) × ℕ
seen objs s w = ((none, s + length objs), w)

abbrev pages : List (Option Bytes × List Object)
pages =
    (none, to_objects first_page.contents) ∷ (some (codes "t"), to_objects last_page.contents) ∷ []

two_pages : Paged bucket (codes "s7_") none pages
unfolding next_page
two_pages =
    Paged.more none pages first_page (codes "t") _ (λ w. refl) refl refl
      (Paged.last (some (codes "t")) _ last_page (λ w. refl) refl refl)

list_all-show_pages_example : list_all bucket (codes "s7_") seen 2 0 0 ≡ (
  some (show_pages bucket (codes "s7_") seen pages 0 0).0,
  (show_pages bucket (codes "s7_") seen pages 0 0).1,
)
list_all-show_pages_example =
    list_all-show_pages bucket (codes "s7_") seen 2 pages 0 0 two_pages (omega arith)

-- A function that always times out; the world counts its starts.
abbrev stalled : Clock ℕ ℕ
stalled = record {
  race = λ w. (Race.passed, w + 1);
  context_error = λ w. none;
  deadline_exceeded = λ w. true;
  pause = λ i w. (none, w);
}

stalled-Regular : Regular stalled is_timed_out (λ w. w)
stalled-Regular = record {
  race_counts = λ w. refl;
  pause_counts = λ i w. refl;
  pause_ends = λ i w e same. absurd (cc);
}

retry_if-Spent_example :
    Spent stalled is_timed_out (λ w. w) 3 0 (retry_if stalled is_timed_out (pos 3) 0)
retry_if-Spent_example = retry_if-Spent stalled is_timed_out (λ w. w) stalled-Regular (pos 3) 0
