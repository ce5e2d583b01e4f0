-- ===== src/S3Store/Guard.antt =====
-- The deletion entry of internal/s3store guards itself: `CheckKeys` and `Delete`, whoever calls them.
use limewire_purge.Prelude.{
  ℕ, ◌<◌, ◌≤◌, ◌≡◌, ◌↔◌, refl, ◌⊎◌, inl, inr, Bool, true, List, [], ◌∷◌, none, some, Bytes, String,
  Bool-cases, Option-cases, All, length, arith,
}
use text.Mathlib.TextEquality.{eq_iff}
use limewire_purge.Errors.{Err, is_unsafe_keys, Result, ok, err}
use limewire_purge.Pieceop.{is_piece_of, keep_only}
use limewire_purge.Pieceop.Keep.{IsPieceOf, is_piece_of_iff}
use limewire_purge.Purge.Env.{Deletion}
use limewire_purge.S3Store.{Client, check_keys, send, delete_keys, ensure_versioning_disabled}

rejected_nil_sound :
    (oid : ℕ) (keys : List Bytes) → (keep_only keys oid).1 ≡ [] → All (IsPieceOf oid) keys
unfolding keep_only
rejected_nil_sound oid [] e = tt
rejected_nil_sound oid (k ∷ keys) e = elim (Bool-cases (is_piece_of oid k)) [
  | inl piece ↦
      ((is_piece_of_iff oid k).0 piece, rejected_nil_sound oid keys (ground (arith, piece, e)))
  | inr other ↦ absurd (ground (arith, other, e))
]

rejected_nil_complete :
    (oid : ℕ) (keys : List Bytes) → All (IsPieceOf oid) keys → (keep_only keys oid).1 ≡ []
unfolding keep_only
rejected_nil_complete oid [] pieces = refl
rejected_nil_complete oid (k ∷ keys) (piece, pieces) =
    ground (arith, (is_piece_of_iff oid k).1 piece, rejected_nil_complete oid keys pieces)

-- `CheckKeys` accepts a batch exactly when every key of it is a well-formed piece of the object.
pub check_keys-none_iff :
    (oid : ℕ) (keys : List Bytes) → (check_keys oid keys ≡ none) ↔ All (IsPieceOf oid) keys
unfolding check_keys
check_keys-none_iff oid keys = (
  (λ e. rejected_nil_sound oid keys (ground (arith, e))),
  λ pieces. ground (arith, rejected_nil_complete oid keys pieces),
)

check_keys-unsafe :
    (oid : ℕ) (keys : List Bytes) (e : Err) → check_keys oid keys ≡ some e → is_unsafe_keys e ≡ true
unfolding check_keys
check_keys-unsafe oid keys e h = ground (arith, h)

-- A refusal: no request, nothing deleted, and the error that marks a safety violation.
pub record Unsent {W : Type 0} (before : W) (r : Deletion × W) : Type 0 where
  pub no_request : r.1 ≡ before
  pub none_deleted : r.0.deleted ≡ []
  pub error : Err
  pub refused : r.0.error ≡ some error
  pub unsafe : is_unsafe_keys error ≡ true

module _ {W : Type 0} (C : Client W) (oid : ℕ) where
  -- `Delete` of a batch of 1 to 1000 keys, of which one is not a well-formed piece of the object,
  -- sends no request and returns the error of unsafe keys.
  pub delete_keys-Unsent :
      (keys : List Bytes) (w : W)
      → 0 < length keys
      → length keys ≤ 1000
      → ¬ All (IsPieceOf oid) keys
      → Unsent w (delete_keys C oid keys w)
  unfolding delete_keys
  delete_keys-Unsent keys w some_key fits others = elim (Option-cases (check_keys oid keys)) [
    | inl accepted ↦ absurd (others ((check_keys-none_iff oid keys).0 accepted))
    | inr (e, refused) ↦ record {
      no_request = ground (arith, refused, some_key, fits);
      none_deleted = ground (arith, refused, some_key, fits);
      error = e;
      refused = ground (arith, refused, some_key, fits);
      unsafe = check_keys-unsafe oid keys e refused;
    }
  ]

  -- Whatever no request for 1 to 1000 well-formed pieces of the object breaks, `Delete` of any batch
  -- keeps: no caller can delete anything else through it.
  pub delete_keys-keeps :
      (I : W → Type 0)
      → ((keys : List Bytes) (w : W)
          → All (IsPieceOf oid) keys
          → 0 < length keys
          → length keys ≤ 1000
          → I w
          → I (C.delete_objects keys w).1)
      → (keys : List Bytes) (w : W) → I w
      → I (delete_keys C oid keys w).1
  unfolding delete_keys send
  delete_keys-keeps I requests keys w i = elim (Option-cases (check_keys oid keys)) [
    | inr (e, refused) ↦ ground (arith, refused, i)
    | inl accepted ↦
        ground (arith, accepted, i, requests keys w ((check_keys-none_iff oid keys).0 accepted))
  ]

module _ {W : Type 0} (C : Client W) where
  -- `EnsureVersioningDisabled` accepts exactly where the status is read and is empty, or any
  -- status is allowed by the operator.
  pub ensure_versioning_disabled-none_iff :
      (allow_versioned : Bool) (w : W)
      → ((ensure_versioning_disabled C allow_versioned w).0 ≡ none) ↔ (
          (status : String) × ((C.bucket_versioning w).0 ≡ ok status)
          × ((status ≡ "") ⊎ (allow_versioned ≡ true)))
  unfolding ensure_versioning_disabled
  ensure_versioning_disabled-none_iff allow_versioned w = decide _ refl
    where
      decide :
          (answer : Result String × W)
          → answer ≡ C.bucket_versioning w
          → ((ensure_versioning_disabled C allow_versioned w).0 ≡ none) ↔ (
              (status : String) × ((C.bucket_versioning w).0 ≡ ok status)
              × ((status ≡ "") ⊎ (allow_versioned ≡ true)))
      decide (err e, w') same = (
        (λ h. absurd (ground (arith, h, same))),
        λ (status, said, h). absurd (ground (arith, said, same)),
      )
      decide (ok status, w') same = (
        (λ h. (status, ground (arith, same), ground (arith, h, same, eq_iff status ""))),
        λ (status', said, h). ground (arith, same, said, h, eq_iff status "", eq_iff status' ""),
      )
