-- ===== src/Pieceop/Keep.antt =====
-- `KeepOnly` splits a listing into the pieces of one object and the rest (internal/pieceop/key.go).
use mathlib.Core.List.{Perm, perm_middle}
use mathlib.Core.List.Perm
use limewire_purge.Prelude.{
  ℕ, ◌≡◌, refl, ◌↔◌, inl, inr, true, List, [], ◌∷◌, ◌++◌, Bytes, All, Bool-cases, Option-cases,
  arith,
}
use limewire_purge.Pieceop.{Piece, key, parse, is_piece_of, keep_only}
use limewire_purge.Pieceop.RoundTrip.{IsWellFormed, parse_iff}

-- A key that the SP writes for the object.
abbrev pub IsPieceOf : ℕ → Bytes → Type 0
IsPieceOf oid k = (p : Piece) × IsWellFormed p × (p.oid ≡ oid) × (key p ≡ k)

is_piece_of_sound : (oid : ℕ) (k : Bytes) → is_piece_of oid k ≡ true → IsPieceOf oid k
unfolding is_piece_of
is_piece_of_sound oid k h = elim (Option-cases (parse k)) [
  | inl bad ↦ absurd (ground (arith, bad))
  | inr (p, good) ↦ let (w, e) = (parse_iff k p).0 good in (p, w, ground (arith, good), e)
]

is_piece_of_complete : (oid : ℕ) (k : Bytes) → IsPieceOf oid k → is_piece_of oid k ≡ true
unfolding is_piece_of
is_piece_of_complete oid k (p, w, o, e) = ground (arith, (parse_iff k p).1 (w, e))

pub is_piece_of_iff : (oid : ℕ) (k : Bytes) → (is_piece_of oid k ≡ true) ↔ IsPieceOf oid k
is_piece_of_iff oid k = (is_piece_of_sound oid k, is_piece_of_complete oid k)

-- What `KeepOnly` owes: only pieces of the object are kept, none of them is rejected, and no key is
-- lost or made up.
pub record Splits (oid : ℕ) (keys kept rejected : List Bytes) : Type 0 where
  pub kept_pieces : All (IsPieceOf oid) kept
  pub rejected_others : All (λ k. ¬ IsPieceOf oid k) rejected
  pub same_keys : Perm keys (kept ++ rejected)

-- `KeepOnly` meets it on every list of keys and for every object.
pub keep_only-Splits :
    (keys : List Bytes) (oid : ℕ) → Splits oid keys (keep_only keys oid).0 (keep_only keys oid).1
unfolding keep_only
keep_only-Splits [] oid = record {
  kept_pieces = tt;
  rejected_others = tt;
  same_keys = Perm.refl [];
}
keep_only-Splits (k ∷ keys) oid =
    let rest = keep_only-Splits keys oid in
    elim (Bool-cases (is_piece_of oid k)) [
      | inl piece ↦ rw piece (record {
        kept_pieces = ((is_piece_of_iff oid k).0 piece, rest.kept_pieces);
        rejected_others = rest.rejected_others;
        same_keys = Perm.cons k rest.same_keys;
      })
      | inr other ↦ rw other (record {
        kept_pieces = rest.kept_pieces;
        rejected_others =
            (λ is_piece. cc ((is_piece_of_iff oid k).1 is_piece), rest.rejected_others);
        same_keys =
            Perm.trans (Perm.cons k rest.same_keys)
              (Perm.symm (perm_middle (keep_only keys oid).0 (keep_only keys oid).1));
      })
    ]

-- With nothing rejected the batch is the whole list, and all of it are pieces of the object.
pub keep_only-nil :
    (keys : List Bytes) (oid : ℕ)
    → (keep_only keys oid).1 ≡ []
    → ((keep_only keys oid).0 ≡ keys) × All (IsPieceOf oid) keys
unfolding keep_only
keep_only-nil [] oid h = (refl, tt)
keep_only-nil (k ∷ keys) oid h = elim (Bool-cases (is_piece_of oid k)) [
  | inl piece ↦
      let (e, rest) = keep_only-nil keys oid (ground (arith, piece)) in
      (ground (arith, piece, e), ((is_piece_of_iff oid k).0 piece, rest))
  | inr other ↦ absurd (ground (arith, other))
]
