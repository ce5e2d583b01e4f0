-- ===== src/Pieceop/Prefixed.antt =====
-- A list prefix selects the keys of one object and of one kind (internal/pieceop/key.go, Prefixes).
use limewire_purge.Prelude.{
  ℕ, ◌^◌, ◌<◌, ◌≡◌, refl, sym, ◌∙◌, ap, ◌↔◌, Bool, true, false, if◌then◌else◌, [], ◌∷◌, ◌++◌,
  append_assoc, ◌≢◌, ℤ, Bytes, split, split-append, arith,
}
use limewire_purge.Decimal.{format_uint}
use limewire_purge.Decimal.RoundTrip.{format_uint-injective}
use limewire_purge.Pieceop.{underscore, Piece, key, prefixes, version_suffix}
use limewire_purge.Pieceop.RoundTrip.{tagged-Lacks}

-- `strings.HasPrefix`, with the rest of the text as the witness.
abbrev pub HasPrefix : Bytes → Bytes → Type 0
HasPrefix prefix k = (rest : Bytes) × (k ≡ prefix ++ rest)

abbrev pub prefix_of : Bool → ℕ → Bytes
prefix_of secondary oid = if secondary then (prefixes oid).1 else (prefixes oid).0

abbrev tag_of : Bool → ℕ
tag_of secondary = if secondary then b'e' else b's'

prefix_of-append :
    (t : Bool) (n : ℕ) (r : Bytes)
    → prefix_of t n ++ r ≡ (tag_of t ∷ format_uint n) ++ underscore ∷ r
unfolding prefixes
prefix_of-append true n r = rw append_assoc
prefix_of-append false n r = rw append_assoc

-- What follows the prefix of a key's own object and kind.
rest_of : Piece → Bytes
rest_of p =
    (b's' ∷ format_uint p.segment)
    ++ (if p.secondary then underscore ∷ b'p' ∷ format_uint p.redundancy else [])
    ++ version_suffix p.version

key-rest_of :
    (oid segment redundancy : ℕ) (secondary : Bool) (version : ℤ)
    → let p : Piece = record {
      oid = oid;
      segment = segment;
      secondary = secondary;
      redundancy = redundancy;
      version = version;
    } in
      key p ≡ prefix_of secondary oid ++ rest_of p
unfolding key prefixes rest_of
key-rest_of oid segment redundancy true version = simp append_assoc
key-rest_of oid segment redundancy false version = simp append_assoc

tag_of-injective : (t u : Bool) → tag_of t ≡ tag_of u → t ≡ u
tag_of-injective true true e = refl
tag_of-injective false false e = refl
tag_of-injective true false e = absurd (omega arith)
tag_of-injective false true e = absurd (omega arith)

tag_of-ne-underscore : (t : Bool) → tag_of t ≢ underscore
tag_of-ne-underscore true = omega arith
tag_of-ne-underscore false = omega arith

-- The text before the first underscore decides the kind and the number.
prefix_of-append-injective :
    (t u : Bool) (m n : ℕ) (r s : Bytes)
    → m < 2 ^ 64
    → n < 2 ^ 64
    → prefix_of t m ++ r ≡ prefix_of u n ++ s
    → (t ≡ u) × (m ≡ n)
prefix_of-append-injective t u m n r s hm hn e =
    let cut = λ (b : Bool) (k : ℕ) (w : Bytes).
      split-append underscore (tag_of b ∷ format_uint k) w
        (tagged-Lacks (tag_of b) k (tag_of-ne-underscore b)) in
    let heads : (tag_of t ∷ format_uint m) ∷ split underscore r
        ≡ (tag_of u ∷ format_uint n) ∷ split underscore s =
      sym (cut t m r)
      ∙ ap (split underscore) (sym (prefix_of-append t m r) ∙ e ∙ prefix_of-append u n s)
      ∙ cut u n s in
    (tag_of-injective t u (cc heads), format_uint-injective m n hm hn (cc heads))

-- Listing under a prefix of an object shows the keys of that object and that kind, and no others:
-- `s123_` does not match `s1234_s0`.
pub key-HasPrefix_iff :
    (p : Piece) (secondary : Bool) (want : ℕ)
    → p.oid < 2 ^ 64
    → want < 2 ^ 64
    → HasPrefix (prefix_of secondary want) (key p) ↔ ((p.secondary ≡ secondary) × (p.oid ≡ want))
key-HasPrefix_iff p secondary want hp hw =
    let own = key-rest_of p.oid p.segment p.redundancy p.secondary p.version in
    (
      (λ (rest, e).
          prefix_of-append-injective p.secondary secondary p.oid want (rest_of p) rest hp hw
            (sym own ∙ e)),
      (λ (kind, oid). (rest_of p, rw (← kind, ← oid) own)),
    )
