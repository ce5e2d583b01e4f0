-- ===== src/Pieceop.antt =====
-- internal/pieceop/key.go: the piece-key layout of the object storage. A key is a list of bytes; a
-- result `(p, ok)` is an `Option`; `Version` is a signed number.
pub mod RoundTrip
pub mod Prefixed
pub mod Keep
use limewire_purge.Prelude.{
  ℕ, zero, suc, ◌+◌, ◌^◌, ◌<◌, ◌≡◌, refl, Bool, true, false, not, ◌&&◌, ◌||◌, List, [], ◌∷◌, ◌++◌,
  Option, none, some, Bytes, codes, bytes_eq, split, ltb, ◌==◌, if◌then◌else◌, length, ℤ, pos,
  negsuc, int_eq, arith,
}
use limewire_purge.Decimal.{format_uint, parse_uint}

abbrev pub underscore : ℕ
underscore = b'_'

-- The two list prefixes of an object: index 0 is `s<oid>_`, index 1 is `e<oid>_`.
unfoldable pub prefixes : ℕ → Bytes × Bytes
prefixes oid =
    (b's' ∷ (format_uint oid ++ underscore ∷ []), b'e' ∷ (format_uint oid ++ underscore ∷ []))

pub record Piece : Type 0 where
  pub oid : ℕ
  pub segment : ℕ
  pub secondary : Bool
  pub redundancy : ℕ
  pub version : ℤ

-- `%d` of an int64.
format_int : ℤ → Bytes
format_int (pos n) = format_uint n
format_int (negsuc n) = b'-' ∷ format_uint (n + 1)

version_suffix : ℤ → Bytes
unfolding format_int
version_suffix v = if not (int_eq v (pos 0)) then underscore ∷ b'v' ∷ format_int v else []

-- `Piece.Key`
unfoldable pub key : Piece → Bytes
unfolding version_suffix
key p =
    (if p.secondary
      then b'e'
        ∷ (format_uint p.oid
            ++ underscore
              ∷ b's'
              ∷ (format_uint p.segment ++ underscore ∷ b'p' ∷ format_uint p.redundancy))
      else b's' ∷ (format_uint p.oid ++ underscore ∷ b's' ∷ format_uint p.segment))
    ++ version_suffix p.version

-- The closure `num` of `Parse`: a tag byte and at least one digit.
num : Bytes → ℕ → ℕ → Option ℕ
num [] tag bits = none
num (c ∷ []) tag bits = none
num (c ∷ d ∷ s) tag bits = if c == tag then parse_uint bits (d ∷ s) else none

infixl 5 ◌>>=◌
abbrev ◌>>=◌ {ℓ κ} : {A : Type ℓ} {B : Type κ} → Option A → (A → Option B) → Option B
none >>= f = none
some a >>= f = f a

-- The last switch: no part left, or one version part.
parse_version : List Bytes → Option ℤ
unfolding num
parse_version [] = some (pos 0)
parse_version (part ∷ []) = do v ← num part b'v' 63; some (pos v)
parse_version (part ∷ next ∷ rest) = none

parse_primary : ℕ → ℕ → List Bytes → Option Piece
parse_primary oid segment rest = do
  version ← parse_version rest
  some (record {
    oid = oid;
    segment = segment;
    secondary = false;
    redundancy = 0;
    version = version;
  })

parse_secondary : ℕ → ℕ → List Bytes → Option Piece
unfolding num
parse_secondary oid segment [] = none
parse_secondary oid segment (part ∷ rest) = do
  redundancy ← num part b'p' 32
  version ← parse_version rest
  some (record {
    oid = oid;
    segment = segment;
    secondary = true;
    redundancy = redundancy;
    version = version;
  })

-- The switch on the first byte decides between the two kinds of key.
parse_parts : List Bytes → Option Piece
unfolding num parse_primary parse_secondary parse_version
parse_parts (([]) ∷ parts) = none
parse_parts ((kind ∷ digits) ∷ part ∷ rest) =
    if kind == b's'
    then (do
      oid ← num (kind ∷ digits) kind 64
      segment ← num part b's' 32
      parse_primary oid segment rest)
    else if kind == b'e'
    then (do
      oid ← num (kind ∷ digits) kind 64
      segment ← num part b's' 32
      parse_secondary oid segment rest)
    else none
parse_parts parts = none

-- `Parse`: two to four parts, the fields, and then the fields must render back to the same key.
unfoldable pub parse : Bytes → Option Piece
unfolding parse_parts
parse k =
    let parts = split underscore k in
    if ltb (length parts) 2 || ltb 4 (length parts)
    then none
    else (do p ← parse_parts parts; if bytes_eq (key p) k then some p else none)

-- The test of `KeepOnly` on one key.
unfoldable pub is_piece_of : ℕ → Bytes → Bool
is_piece_of want k = elim (parse k) [ none ↦ false | some p ↦ p.oid == want ]

-- `KeepOnly`: the well-formed pieces of `want`, and everything else, each in the order given.
unfoldable pub keep_only : List Bytes → ℕ → List Bytes × List Bytes
unfolding is_piece_of
keep_only [] want = ([], [])
keep_only (k ∷ keys) want =
    let (kept, rejected) = keep_only keys want in
    if is_piece_of want k then (k ∷ kept, rejected) else (kept, k ∷ rejected)
