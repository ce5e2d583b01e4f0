-- ===== src/S3Store.antt =====
-- internal/s3store/s3store.go: the calls on the object storage, over the SDK's client. What the client
-- answers is the environment's; a missing pointer reads as an empty text or as 0.
pub mod Guard
pub mod Pages
use text.Mathlib.Text.{◌==◌ as str_eq}
use limewire_purge.Prelude.{
  ℕ, zero, suc, Bool, true, false, not, ◌||◌, List, [], ◌∷◌, Option, none, some, Bytes, String, ℤ,
  pos, ltb, ◌==◌, if◌then◌else◌, length, Step, ◌>>=◌, pure, call, out_of_fuel,
}
use limewire_purge.Errors.{Err, unsafe_keys, wrapped, message, Result, ok, err}
use limewire_purge.Pieceop.{keep_only}
use limewire_purge.Purge.Env.{Object, Deletion, Env}

-- types.Object, as far as it is read.
pub record ListedKey : Type 0 where
  pub key : Option Bytes
  pub size : Option ℤ

-- ListObjectsV2Output
pub record Listing : Type 0 where
  pub contents : List ListedKey
  pub is_truncated : Option Bool
  pub next_token : Option Bytes

-- DeleteObjectsOutput: the keys of `Deleted` and of `Errors`.
pub record DeleteOutput : Type 0 where
  pub deleted : List (Option Bytes)
  pub errors : List (Option Bytes)

-- The requests of *s3.Client. A request is named by its prefix, its maximum and its token, or by
-- its keys.
pub record Client (W : Type 0) : Type 0 where
  pub list_objects_v2 : Bytes → ℕ → Option Bytes → W → Result Listing × W
  pub delete_objects : List Bytes → W → Result DeleteOutput × W
  pub bucket_versioning : W → Result String × W

-- aws.ToString and aws.ToInt64
abbrev to_string : Option Bytes → Bytes
to_string none = []
to_string (some s) = s

abbrev to_int64 : Option ℤ → ℤ
to_int64 none = pos 0
to_int64 (some n) = n

unfoldable pub to_objects : List ListedKey → List Object
to_objects [] = []
to_objects (c ∷ cs) = record { key = to_string c.key; size = to_int64 c.size } ∷ to_objects cs

abbrev to_strings : List (Option Bytes) → List Bytes
to_strings [] = []
to_strings (k ∷ ks) = to_string k ∷ to_strings ks

abbrev listed_objects : Result Listing → Result (List Object)
listed_objects (ok out) = ok (to_objects out.contents)
listed_objects (err e) = err e

abbrev is_nothing : Result (List Object) → Result Bool
is_nothing (ok []) = ok true
is_nothing (ok (o ∷ objs)) = ok false
is_nothing (err e) = err e

-- `out.IsTruncated == nil || !*out.IsTruncated || out.NextContinuationToken == nil`: where the next
-- page starts, if there is one.
unfoldable pub next_page : Listing → Option Bytes
next_page out = elim out.is_truncated [
  | none ↦ none
  | some truncated ↦ if truncated then out.next_token else none
]

-- `CheckKeys`
unfoldable pub check_keys : ℕ → List Bytes → Option Err
check_keys oid keys = elim (keep_only keys oid).1 [
  | [] ↦ none
  | k ∷ more ↦ some (wrapped "not pieces of the object" unsafe_keys)
]

abbrev nothing_deleted : Option Err → Deletion
nothing_deleted error = record { deleted = []; failed = []; error = error }

-- What the response says was deleted and was refused.
abbrev deletion_of : Result DeleteOutput → Deletion
deletion_of (err e) = nothing_deleted (some e)
deletion_of (ok out) = record {
  deleted = to_strings out.deleted;
  failed = to_strings out.errors;
  error = none;
}

module _ {W : Type 0} (C : Client W) where
  -- `List`: always from the start of the prefix.
  unfoldable pub list_keys : Bytes → ℕ → W → Result (List Object) × W
  list_keys prefix max w =
      let (answer, w') = C.list_objects_v2 prefix max none w in (listed_objects answer, w')

  -- `Empty`
  unfoldable pub is_empty : Bytes → W → Result Bool × W
  unfolding list_keys
  is_empty prefix w = let (answer, w') = list_keys prefix 1 w in (is_nothing answer, w')

  send : List Bytes → W → Deletion × W
  send keys w = let (answer, w') = C.delete_objects keys w in (deletion_of answer, w')

  -- `Delete`
  unfoldable pub delete_keys : ℕ → List Bytes → W → Deletion × W
  unfolding send check_keys
  delete_keys oid keys w =
      if length keys == 0
      then (nothing_deleted none, w)
      else if ltb 1000 (length keys)
      then (nothing_deleted (some (message "batch larger than 1000 keys")), w)
      else elim (check_keys oid keys) [
        | some e ↦ (nothing_deleted (some e), w)
        | none ↦ send keys w
      ]

  -- `EnsureVersioningDisabled`
  unfoldable pub ensure_versioning_disabled : Bool → W → Option Err × W
  ensure_versioning_disabled allow_versioned w =
      let (answer, w') = C.bucket_versioning w in
      elim answer [
        | err e ↦ (some (wrapped "cannot confirm versioning status" e), w')
        | ok status ↦
            if str_eq status "" || allow_versioned
            then (none, w')
            else (some (message "bucket has versioning"), w')
      ]

  -- The calls of the purge loop on the storage.
  abbrev pub with_store : Env W → Env W
  with_store E = record E {
    list_keys = λ prefix max w. list_keys prefix max w;
    is_empty = λ prefix w. is_empty prefix w;
    delete_keys = λ oid keys w. delete_keys oid keys w;
  }

  -- `ListAll`: the pages in order, until the callback ends the listing by an error. `S` is what the
  -- callback keeps; the loop runs on fuel, one unit a page.
  module _ {S : Type 0} (prefix : Bytes) (page : List Object → S → W → (Option Err × S) × W) where
    abbrev Next : Type 0
    Next = Option Bytes → S → Step W (Option Err × S)

    after_page : Next → Listing → Option Err × S → Step W (Option Err × S)
    unfolding next_page
    after_page again out (some e, s) = pure (some e, s)
    after_page again out (none, s) = elim (next_page out) [
      | none ↦ pure (none, s)
      | some token ↦ again (some token) s
    ]

    after_list : Next → S → Result Listing → Step W (Option Err × S)
    unfolding after_page
    after_list again s (err e) = pure (some e, s)
    after_list again s (ok out) = do
      answer ← call (page (to_objects out.contents) s)
      after_page again out answer

    list_page : Next → Next
    unfolding after_list
    list_page again token s = do
      answer ← call (C.list_objects_v2 prefix 1000 token)
      after_list again s answer

    pages_from : ℕ → Next
    unfolding list_page
    pages_from zero token s = out_of_fuel
    pages_from (suc fuel) token s = list_page (pages_from fuel) token s

    unfoldable pub list_all : ℕ → S → Step W (Option Err × S)
    unfolding pages_from
    list_all fuel s = pages_from fuel none s
