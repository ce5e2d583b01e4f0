-- ===== src/Tests/Store.antt =====
-- A small world for the purge loop: a store that lists by prefix and deletes what it is told to, a
-- chain that knows the object 7, and a progress table of ids.
use limewire_purge.Prelude.{
  ℕ, ◌≡◌, refl, Bool, true, false, ◌&&◌, ◌||◌, ◌==◌, List, [], ◌∷◌, none, Bytes, bytes_eq,
  bytes_eq_iff, codes, split, pos, if◌then◌else◌, take, All, arith,
}
use limewire_purge.Errors.{no_rows, Result, ok, err}
use limewire_purge.Pieceop.{parse, key, is_piece_of}
use limewire_purge.Decimal.{format_uint, parse_uint}
use limewire_purge.Pieceop.Keep.{IsPieceOf, is_piece_of_iff}
use limewire_purge.Purge.Env.{Object, ObjectHead, Env}
use limewire_purge.Purge.Clear.{contains}
use limewire_purge.Purge.Clear.Safety.{KeptByReads, KeptByDeletes}
use limewire_purge.Purge.Handle.Keeps.{KeptByFailures}

pub record Shop : Type 0 where
  pub objects : List Object
  pub completed : List ℕ

abbrev pub is_prefix : Bytes → Bytes → Bool
is_prefix [] k = true
is_prefix (c ∷ s) [] = false
is_prefix (c ∷ s) (d ∷ k) = c == d && is_prefix s k

abbrev pub under : Bytes → List Object → List Object
under prefix [] = []
under prefix (o ∷ os) = if is_prefix prefix o.key then o ∷ under prefix os else under prefix os

abbrev pub holds : Bytes → List Object → Bool
holds k [] = false
holds k (o ∷ os) = bytes_eq o.key k || holds k os

abbrev pub remove_keys : List Bytes → List Object → List Object
remove_keys batch [] = []
remove_keys batch (o ∷ os) =
    if contains batch o.key then remove_keys batch os else o ∷ remove_keys batch os

abbrev none_left : List Object → Bool
none_left [] = true
none_left (o ∷ os) = false

abbrev pub head_of_7 : ObjectHead
head_of_7 = record { id = 7; bucket = "b"; status = "sealed"; version = pos 1; payload_size = 16 }

abbrev answer_head : ℕ → Result ObjectHead
answer_head oid = if oid == 7 then ok head_of_7 else err no_rows

abbrev pub shop : Env Shop
shop = record {
  context_error = λ w. (none, w);
  check = λ w. (none, w);
  rate_wait = λ w. (none, w);
  sleep = λ n w. (none, w);
  list_keys = λ prefix max w. (ok (take max (under prefix w.objects)), w);
  list_all = λ prefix page p w. page (under prefix w.objects) p w;
  is_empty = λ prefix w. (ok (none_left (under prefix w.objects)), w);
  delete_keys = λ oid batch w. (
    record { deleted = batch; failed = []; error = none },
    record w { objects = remove_keys batch w.objects },
  );
  head_object = λ oid w. (answer_head oid, w);
  claim = λ after max retry w. (ok [], w);
  done = λ oid keys bytes check w. (none, record w { completed = oid ∷ w.completed });
  fail = λ oid keys bytes e w. (none, w);
  cancel = λ w. (tt, w);
  on_safety = λ oid e w. (none, w);
}

-- A piece of another object stays in the store.
abbrev pub stranger : Bytes
stranger = codes "s8_s0"

abbrev pub KeepsStranger : Shop → Type 0
KeepsStranger w = holds stranger w.objects ≡ true

pub shop-reads_keep : (I : Shop → Type 0) → KeptByReads shop I
shop-reads_keep I = record {
  context_error = λ w i. i;
  check = λ w i. i;
  rate_wait = λ w i. i;
  sleep = λ n w i. i;
  list_keys = λ prefix max w i. i;
  list_all = λ prefix page keeps p w i. keeps (under prefix w.objects) p w i;
  is_empty = λ prefix w i. i;
  head_object = λ oid w i. i;
}

pub shop-KeptByReads : KeptByReads shop KeepsStranger
shop-KeptByReads = shop-reads_keep KeepsStranger

pub shop-KeptByFailures : KeptByFailures shop KeepsStranger
shop-KeptByFailures = record {
  fail = λ oid keys bytes e w i. i;
  cancel = λ w i. i;
  on_safety = λ oid e w i. i;
}

remove_keys-holds :
    (batch : List Bytes) (k : Bytes) (os : List Object)
    → contains batch k ≡ false
    → holds k os ≡ true
    → holds k (remove_keys batch os) ≡ true
remove_keys-holds batch k [] h e = e
remove_keys-holds batch k (o ∷ os) h e =
    ground (arith, remove_keys-holds batch k os, (bytes_eq_iff o.key k).0, h)

stranger_refused : is_piece_of 7 stranger ≡ false
unfolding is_piece_of parse key split format_uint parse_uint bytes_eq
stranger_refused = refl

contains-stranger : (batch : List Bytes) → All (IsPieceOf 7) batch → contains batch stranger ≡ false
contains-stranger [] pieces = refl
contains-stranger (k ∷ batch) (piece, pieces) = ground (
  arith,
  contains-stranger batch pieces,
  (bytes_eq_iff k stranger).0,
  (is_piece_of_iff 7 k).1 piece,
  stranger_refused,
)

pub shop-KeptByDeletes : KeptByDeletes shop 7 KeepsStranger
shop-KeptByDeletes batch w pieces i =
    remove_keys-holds batch stranger w.objects (contains-stranger batch pieces) i
