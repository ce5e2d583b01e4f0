-- ===== src/Tests/Draining.antt =====
-- The small store empties under a prefix, and so clearing the prefix ends.
use limewire_purge.Prelude.{
  ℕ, suc, ◌≤◌, ◌<◌, ◌≡◌, refl, sym, subst, true, false, inl, inr, List, [], ◌∷◌, some, Bytes,
  Bool-cases, bytes_eq_self, codes, length, take, arith,
}
use limewire_purge.Pieceop.{is_piece_of, keep_only}
use limewire_purge.Purge.Env.{Object}
use limewire_purge.Purge.Clear.{Cleared, contains, keys_of, clear_prefix}
use limewire_purge.Purge.Clear.Ends.{Draining, clear_prefix-returns}
use limewire_purge.Tests.Store.{Shop, shop, under, is_prefix, remove_keys, shop-reads_keep}
use limewire_purge.Tests.Purging.{options, full}

keep_only-all :
    (keys : List Bytes) (oid : ℕ) (batch : List Bytes)
    → keep_only keys oid ≡ (batch, [])
    → batch ≡ keys
unfolding keep_only
keep_only-all [] oid batch e = ground (arith, e)
keep_only-all (k ∷ keys) oid batch e = elim (Bool-cases (is_piece_of oid k)) [
  | inl piece ↦ ground (arith, piece, e, keep_only-all keys oid (keep_only keys oid).0)
  | inr other ↦ absurd (ground (arith, other, e))
]

remove_keys-le :
    (prefix : Bytes) (batch : List Bytes) (os : List Object)
    → length (under prefix (remove_keys batch os)) ≤ length (under prefix os)
remove_keys-le prefix batch [] = omega arith
remove_keys-le prefix batch (o ∷ os) = ground (arith, remove_keys-le prefix batch os)

remove_keys-lt :
    (prefix : Bytes) (batch : List Bytes) (os : List Object) (o : Object) (rest : List Object)
    → under prefix os ≡ o ∷ rest
    → contains batch o.key ≡ true
    → length (under prefix (remove_keys batch os)) < length (under prefix os)
remove_keys-lt prefix batch [] o rest e h = cc
remove_keys-lt prefix batch (x ∷ os) o rest e h = elim (Bool-cases (is_prefix prefix x.key)) [
  | inl here ↦ ground (arith, here, e, h, remove_keys-le prefix batch os)
  | inr there ↦ ground (arith, there, e, h, remove_keys-lt prefix batch os o rest)
]

abbrev pieces_left : Bytes → Shop → ℕ
pieces_left prefix w = length (under prefix w.objects)

abbrev Listed : Bytes → Shop → List Object → Type 0
Listed prefix w objs = take 1000 (under prefix w.objects) ≡ objs

take_cons :
    (n : ℕ) (os : List Object) (o : Object) (objs : List Object)
    → take (suc n) os ≡ o ∷ objs
    → (rest : List Object) × (os ≡ o ∷ rest)
take_cons n [] o objs e = cc
take_cons n (x ∷ os) o objs e = (os, ground (arith, e))

shop-drained :
    (oid : ℕ) (prefix : Bytes) (w : Shop) (o : Object) (objs : List Object) (batch : List Bytes)
    → Listed prefix w (o ∷ objs)
    → keep_only (keys_of (o ∷ objs)) oid ≡ (batch, [])
    → pieces_left prefix (shop.delete_keys oid batch w).1 < pieces_left prefix w
shop-drained oid prefix w o objs batch shows all_kept =
    let (rest, e) = take_cons 999 (under prefix w.objects) o objs shows in
    remove_keys-lt prefix batch w.objects o rest e (
      subst (λ ks. contains ks o.key ≡ true)
        (sym (keep_only-all (keys_of (o ∷ objs)) oid batch all_kept))
        (ground (arith, bytes_eq_self o.key)))

shop-Draining :
    (oid : ℕ) (prefix : Bytes) → Draining shop oid prefix (pieces_left prefix) (Listed prefix)
shop-Draining oid prefix = record {
  bounded = λ n. shop-reads_keep (λ w. pieces_left prefix w ≤ n);
  still_shown = λ objs. shop-reads_keep (λ w. Listed prefix w objs);
  shown = λ w objs e. ground (arith, e);
  accepted = λ w objs batch shows all_kept. (refl, refl);
  drained = shop-drained oid prefix;
}

clear_prefix-returns_example :
    (c : Cleared) × ((clear_prefix shop (options false) 7 (codes "s7_") 10 full).0 ≡ some c)
clear_prefix-returns_example =
    clear_prefix-returns shop (options false) 7 (codes "s7_") (pieces_left (codes "s7_"))
      (Listed (codes "s7_")) (shop-Draining 7 (codes "s7_")) 10 full (omega arith)
