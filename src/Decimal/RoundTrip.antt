-- ===== src/Decimal/RoundTrip.antt =====
-- Every number that fits is read back from its decimal print; a print holds digits only.
use limewire_purge.Prelude.{
  ℕ, zero, suc, ◌+◌, ◌-◌, ◌*◌, ◌/◌, ◌%◌, ◌^◌, ◌≤◌, ◌<◌, ◌≡◌, refl, [], ◌∷◌, some, Bytes, All, Lacks,
  inl, inr, ltb, Bool-cases, arith,
}
use limewire_purge.Decimal.{digits, scan, format_uint, parse_uint}

abbrev pub IsDigit : ℕ → Type 0
IsDigit c = (b'0' ≤ c) × (c ≤ b'9')

digits-IsDigit : (fuel n : ℕ) (out : Bytes) → All IsDigit out → All IsDigit (digits fuel n out)
unfolding digits
digits-IsDigit zero n out h = (omega arith, h)
digits-IsDigit (suc fuel) n out h =
    ground (arith, digits-IsDigit fuel (n / 10) ((b'0' + n % 10) ∷ out))

pub format_uint-IsDigit : (n : ℕ) → All IsDigit (format_uint n)
unfolding format_uint
format_uint-IsDigit n = digits-IsDigit n n [] tt

pub Lacks-of_IsDigit : (b : ℕ) (s : Bytes) → b'9' < b → All IsDigit s → Lacks b s
Lacks-of_IsDigit b [] h d = tt
Lacks-of_IsDigit b (c ∷ s) h d = (omega arith, Lacks-of_IsDigit b s h d.1)

digits-cons : (fuel n : ℕ) (out : Bytes) → (c : ℕ) × (s : Bytes) × (digits fuel n out ≡ c ∷ s)
unfolding digits
digits-cons zero n out = (b'0' + n % 10, out, refl)
digits-cons (suc fuel) n out = elim (Bool-cases (ltb n 10)) [
  | inl last ↦ (b'0' + n, out, rw last)
  | inr more ↦ rw more (digits-cons fuel (n / 10) ((b'0' + n % 10) ∷ out))
]

-- A print has at least one digit.
pub format_uint-cons : (n : ℕ) → (c : ℕ) × (s : Bytes) × (format_uint n ≡ c ∷ s)
unfolding format_uint
format_uint-cons n = digits-cons n n []

scan_last :
    (max n : ℕ) (out : Bytes) → n ≤ max → scan max ((b'0' + n % 10) ∷ out) (n / 10) ≡ scan max out n
unfolding scan
scan_last max n out h = ground arith

scan_first :
    (max n : ℕ) (out : Bytes) → n ≤ max → n < 10 → scan max ((b'0' + n) ∷ out) 0 ≡ scan max out n
unfolding scan
scan_first max n out h k = ground arith

scan-digits :
    (max fuel n : ℕ) (out : Bytes)
    → n ≤ fuel
    → n ≤ max
    → scan max (digits fuel n out) 0 ≡ scan max out n
unfolding digits
scan-digits max zero n out le fits = scan_zero
  where
    scan_zero : scan max ((b'0' + n % 10) ∷ out) 0 ≡ scan max out n
    scan_zero = ground (arith, scan_last max n out fits)
scan-digits max (suc fuel) n out le fits = ground (
  arith,
  scan_first max n out fits,
  scan_last max n out fits,
  scan-digits max fuel (n / 10) ((b'0' + n % 10) ∷ out),
)

pub parse_uint-format_uint : (bits n : ℕ) → n < 2 ^ bits → parse_uint bits (format_uint n) ≡ some n
unfolding format_uint parse_uint scan
parse_uint-format_uint bits n h =
    ground
      (arith, digits-cons n n [], scan-digits (2 ^ bits - 1) n n [] (omega arith) (omega arith))

scan-le : (max : ℕ) (s : Bytes) (n r : ℕ) → n ≤ max → scan max s n ≡ some r → r ≤ max
unfolding scan
scan-le max [] n r h e = ground arith
scan-le max (c ∷ s) n r h e = ground (arith, scan-le max s (n * 10 + (c - b'0')) r)

-- A number that was read fits.
pub parse_uint-lt :
    (bits : ℕ) (s : Bytes) {r : ℕ} → parse_uint bits s ≡ some r → 0 < 2 ^ bits → r < 2 ^ bits
unfolding parse_uint
parse_uint-lt bits [] e h = cc
parse_uint-lt bits (c ∷ s) {r} e h =
    omega (arith, scan-le (2 ^ bits - 1) (c ∷ s) 0 r (omega arith) e)

-- Two numbers with one print are equal.
pub format_uint-injective :
    (m n : ℕ) → m < 2 ^ 64 → n < 2 ^ 64 → format_uint m ≡ format_uint n → m ≡ n
format_uint-injective m n hm hn e =
    cc (parse_uint-format_uint 64 m hm, parse_uint-format_uint 64 n hn)
