-- ===== src/Pieceop/RoundTrip.antt =====
-- `Parse` accepts exactly the renderings of well-formed pieces (internal/pieceop/key.go).
use limewire_purge.Prelude.{
  ℕ, zero, suc, ◌^◌, ◌<◌, ◌≡◌, refl, sym, subst, ◌||◌, ◌≢◌, ◌↔◌, ◌⊎◌, inl, inr, Bool, true, false,
  List, [], ◌∷◌, ◌++◌, append-nil, append_assoc, Option, none, some, Bytes, Lacks, bytes_eq_self,
  bytes_eq_iff, split, split-append, split-Lacks, ltb, ◌==◌, length, Bool-cases, Option-cases, ℤ,
  pos, arith,
}
use limewire_purge.Decimal.{format_uint}
use limewire_purge.Decimal.RoundTrip.{
  format_uint-IsDigit, Lacks-of_IsDigit, format_uint-cons, parse_uint-format_uint, parse_uint-lt,
}
use limewire_purge.Pieceop.{
  underscore, Piece, key, version_suffix, num, ◌>>=◌, parse_version, parse_primary, parse_secondary,
  parse_parts, parse,
}

-- What the SP writes: every field fits its width, the version is not negative, and only a secondary
-- piece has a redundancy index.
pub record IsWellFormed (p : Piece) : Type 0 where
  pub oid_fits : p.oid < 2 ^ 64
  pub segment_fits : p.segment < 2 ^ 32
  pub redundancy_fits : p.redundancy < 2 ^ 32
  pub primary_redundancy : (p.secondary ≡ true) ⊎ (p.redundancy ≡ 0)
  pub number : ℕ
  pub version_number : p.version ≡ pos number
  pub version_fits : number < 2 ^ 63

pub tagged-Lacks : (tag n : ℕ) → tag ≢ underscore → Lacks underscore (tag ∷ format_uint n)
tagged-Lacks tag n h =
    (h, Lacks-of_IsDigit underscore (format_uint n) (omega arith) (format_uint-IsDigit n))

num-tagged : (tag n bits : ℕ) → n < 2 ^ bits → num (tag ∷ format_uint n) tag bits ≡ some n
unfolding num
num-tagged tag n bits h =
    let (c, s, e) = format_uint-cons n in
    let read = rw e at (parse_uint-format_uint bits n h) in rw e (ground (arith, read))

version_parts : ℕ → List Bytes
version_parts zero = []
version_parts (suc n) = (b'v' ∷ format_uint (suc n)) ∷ []

version_suffix-suc :
    (n : ℕ) → version_suffix (pos (suc n)) ≡ underscore ∷ b'v' ∷ format_uint (suc n)
unfolding version_suffix
version_suffix-suc n = ground arith

split-version_suffix :
    (part : Bytes) (n : ℕ)
    → Lacks underscore part
    → split underscore (part ++ version_suffix (pos n)) ≡ part ∷ version_parts n
unfolding version_suffix version_parts
split-version_suffix part zero h = rw append-nil (split-Lacks underscore part h)
split-version_suffix part (suc n) h = rw (
  version_suffix-suc n,
  split-append underscore part (b'v' ∷ format_uint (suc n)) h,
  split-Lacks underscore _ (tagged-Lacks b'v' (suc n) (omega arith)),
)

kind_tag : Bool → ℕ
kind_tag true = b'e'
kind_tag false = b's'

redundancy_parts : Bool → ℕ → List Bytes
redundancy_parts true r = (b'p' ∷ format_uint r) ∷ []
redundancy_parts false r = []

parts_of : Piece → ℕ → List Bytes
unfolding kind_tag redundancy_parts
parts_of p n =
    (kind_tag p.secondary ∷ format_uint p.oid)
    ∷ (b's' ∷ format_uint p.segment)
    ∷ (redundancy_parts p.secondary p.redundancy ++ version_parts n)

abbrev piece : ℕ → ℕ → ℕ → ℕ → Bool → Piece
piece oid segment redundancy n secondary = record {
  oid = oid;
  segment = segment;
  secondary = secondary;
  redundancy = redundancy;
  version = pos n;
}

split-key :
    (oid segment redundancy n : ℕ) (secondary : Bool)
    → split underscore (key (piece oid segment redundancy n secondary))
      ≡ parts_of (piece oid segment redundancy n secondary) n
unfolding key parts_of
split-key oid segment redundancy n true = rw (
  append_assoc,
  append_assoc,
  split-append underscore (b'e' ∷ format_uint oid) _ (tagged-Lacks b'e' oid (omega arith)),
  split-append underscore (b's' ∷ format_uint segment) _ (tagged-Lacks b's' segment (omega arith)),
  split-version_suffix (b'p' ∷ format_uint redundancy) n
      (tagged-Lacks b'p' redundancy (omega arith)),
)
split-key oid segment redundancy n false = rw (
  append_assoc,
  split-append underscore (b's' ∷ format_uint oid) _ (tagged-Lacks b's' oid (omega arith)),
  split-version_suffix (b's' ∷ format_uint segment) n (tagged-Lacks b's' segment (omega arith)),
)

parse_version-version_parts : (n : ℕ) → n < 2 ^ 63 → parse_version (version_parts n) ≡ some (pos n)
unfolding parse_version version_parts
parse_version-version_parts zero h = refl
parse_version-version_parts (suc n) h = rw (num-tagged b'v' (suc n) 63 h)

parse_parts-parts_of :
    (oid segment redundancy n : ℕ) (secondary : Bool)
    → IsWellFormed (piece oid segment redundancy n secondary)
    → parse_parts (parts_of (piece oid segment redundancy n secondary) n)
      ≡ some (piece oid segment redundancy n secondary)
unfolding parse_parts parts_of
parse_parts-parts_of oid segment redundancy n true w = rw (
  num-tagged b'e' oid 64 w.oid_fits,
  num-tagged b's' segment 32 w.segment_fits,
  parse_secondary,
  num-tagged b'p' redundancy 32 w.redundancy_fits,
  parse_version-version_parts n (ground arith),
)
parse_parts-parts_of oid segment redundancy n false w =
    rw
      (
        num-tagged b's' oid 64 w.oid_fits,
        num-tagged b's' segment 32 w.segment_fits,
        parse_primary,
        parse_version-version_parts n (ground arith),
      )
      (ground arith)

length-parts_of :
    (p : Piece) (n : ℕ)
    → (ltb (length (parts_of p n)) 2 ≡ false) × (ltb 4 (length (parts_of p n)) ≡ false)
unfolding parts_of version_parts
length-parts_of p zero = ground arith
length-parts_of p (suc n) = ground arith

parse-piece :
    (oid segment redundancy n : ℕ) (secondary : Bool)
    → IsWellFormed (piece oid segment redundancy n secondary)
    → parse (key (piece oid segment redundancy n secondary))
      ≡ some (piece oid segment redundancy n secondary)
unfolding parse
parse-piece oid segment redundancy n secondary w =
    let p = piece oid segment redundancy n secondary in
    rw (
      split-key oid segment redundancy n secondary,
      (length-parts_of p n).0,
      (length-parts_of p n).1,
      parse_parts-parts_of oid segment redundancy n secondary w,
      bytes_eq_self (key p),
    )

-- A well-formed piece is read back from its rendering.
pub parse-key : (p : Piece) → IsWellFormed p → parse (key p) ≡ some p
parse-key p w =
    let e : p ≡ piece p.oid p.segment p.redundancy w.number p.secondary =
      ground (arith, w.version_number) in
    subst (λ q. IsWellFormed q → parse (key q) ≡ some q) (sym e)
      (parse-piece p.oid p.segment p.redundancy w.number p.secondary) w

num-lt : (s : Bytes) (tag bits : ℕ) {n : ℕ} → num s tag bits ≡ some n → 0 < 2 ^ bits → n < 2 ^ bits
unfolding num
num-lt [] tag bits e h = cc
num-lt (c ∷ []) tag bits e h = cc
num-lt (c ∷ d ∷ s) tag bits {n} e h = ground (arith, parse_uint-lt bits (d ∷ s) {r = n})

parse_version-fits :
    (parts : List Bytes) {v : ℤ}
    → parse_version parts ≡ some v
    → (n : ℕ) × (v ≡ pos n) × (n < 2 ^ 63)
unfolding parse_version
parse_version-fits [] e = (0, ground arith, omega arith)
parse_version-fits (part ∷ []) {v} e = elim (Option-cases (num part b'v' 63)) [
  | inl bad ↦ absurd (ground (arith, bad))
  | inr (n, good) ↦ (n, ground (arith, good), num-lt part b'v' 63 good (omega arith))
]
parse_version-fits (part ∷ next ∷ rest) e = absurd (ground arith)

>>=-eq-some {ℓ κ} :
    {A : Type ℓ} {B : Type κ} (m : Option A) (f : A → Option B) {b : B}
    → (m >>= f) ≡ some b
    → (a : A) × (m ≡ some a) × (f a ≡ some b)
>>=-eq-some none f h = cc
>>=-eq-some (some a) f h = (a, refl, h)

parse_primary-IsWellFormed :
    (oid segment : ℕ) (rest : List Bytes) (p : Piece)
    → oid < 2 ^ 64
    → segment < 2 ^ 32
    → parse_primary oid segment rest ≡ some p
    → IsWellFormed p
unfolding parse_primary
parse_primary-IsWellFormed oid segment rest p ho hs e =
    let (v, ev, ep) = >>=-eq-some (parse_version rest) _ e in
    let (n, en, hn) = parse_version-fits rest ev in
    record {
      oid_fits = ground arith;
      segment_fits = ground arith;
      redundancy_fits = ground arith;
      primary_redundancy = inr (ground arith);
      number = n;
      version_number = ground arith;
      version_fits = hn;
    }

parse_secondary-IsWellFormed :
    (oid segment : ℕ) (rest : List Bytes) (p : Piece)
    → oid < 2 ^ 64
    → segment < 2 ^ 32
    → parse_secondary oid segment rest ≡ some p
    → IsWellFormed p
unfolding parse_secondary
parse_secondary-IsWellFormed oid segment [] p ho hs e = absurd (ground arith)
parse_secondary-IsWellFormed oid segment (part ∷ rest) p ho hs e =
    let (r, er, e') = >>=-eq-some (num part b'p' 32) _ e in
    let hr = num-lt part b'p' 32 er (omega arith) in
    let (v, ev, ep) = >>=-eq-some (parse_version rest) _ e' in
    let (n, en, hn) = parse_version-fits rest ev in
    record {
      oid_fits = ground arith;
      segment_fits = ground arith;
      redundancy_fits = ground arith;
      primary_redundancy = inl (ground arith);
      number = n;
      version_number = ground arith;
      version_fits = hn;
    }

parse_parts-IsWellFormed :
    (parts : List Bytes) (p : Piece) → parse_parts parts ≡ some p → IsWellFormed p
unfolding parse_parts
parse_parts-IsWellFormed [] p e = absurd (ground arith)
parse_parts-IsWellFormed ([] ∷ parts) p e = absurd (ground arith)
parse_parts-IsWellFormed ((c ∷ s) ∷ []) p e = absurd (ground arith)
parse_parts-IsWellFormed ((c ∷ s) ∷ part ∷ rest) p e = elim (Bool-cases (c == b's')) [
  | inl primary ↦
      let (o, eo, e') = >>=-eq-some (num (c ∷ s) c 64) _ (rw primary at e) in
      let (g, eg, e'') = >>=-eq-some (num part b's' 32) _ e' in
      parse_primary-IsWellFormed o g rest p (num-lt (c ∷ s) c 64 eo (omega arith))
        (num-lt part b's' 32 eg (omega arith)) e''
  | inr other ↦ elim (Bool-cases (c == b'e')) [
    | inl secondary ↦
        let (o, eo, e') = >>=-eq-some (num (c ∷ s) c 64) _ (rw (other, secondary) at e) in
        let (g, eg, e'') = >>=-eq-some (num part b's' 32) _ e' in
        parse_secondary-IsWellFormed o g rest p (num-lt (c ∷ s) c 64 eo (omega arith))
          (num-lt part b's' 32 eg (omega arith)) e''
    | inr unknown ↦ absurd (ground (arith, other, unknown))
  ]
]

parse_sound : (k : Bytes) (p : Piece) → parse k ≡ some p → IsWellFormed p × (key p ≡ k)
unfolding parse
parse_sound k p e =
    let parts = split underscore k in
    elim (Bool-cases (ltb (length parts) 2 || ltb 4 (length parts))) [
      | inl bad ↦ absurd (ground (arith, bad))
      | inr good ↦
          let (q, eq, e') = >>=-eq-some (parse_parts parts) _ (rw good at e) in
          let same : q ≡ p = ground (arith, e') in
          (
            subst IsWellFormed same (parse_parts-IsWellFormed parts q eq),
            (bytes_eq_iff (key p) k).0 (ground (arith, e', same)),
          )
    ]

-- `Parse` accepts exactly the renderings of well-formed pieces, and returns the piece that is
-- rendered; every other key is refused.
pub parse_iff : (k : Bytes) (p : Piece) → (parse k ≡ some p) ↔ (IsWellFormed p × (key p ≡ k))
parse_iff k p = (parse_sound k p, λ (w, e). subst (λ t. parse t ≡ some p) e (parse-key p w))
