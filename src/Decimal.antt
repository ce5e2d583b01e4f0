-- ===== src/Decimal.antt =====
-- `strconv.FormatUint` and `strconv.ParseUint` in base ten, as the piece keys and sizes use them.
pub mod RoundTrip
use limewire_purge.Prelude.{
  ℕ, zero, suc, ◌+◌, ◌-◌, ◌*◌, ◌/◌, ◌%◌, ◌^◌, ◌≤◌, ◌<◌, ◌≡◌, refl, Bool, ◌||◌, List, [], ◌∷◌,
  Option, none, some, Bytes, codes, ltb, if◌then◌else◌, arith,
}

-- The digits of `n`, put in front of `out`. The fuel bounds the number of digits: `n` itself is
-- enough, since each round divides by ten.
digits : ℕ → ℕ → Bytes → Bytes
digits zero n out = (b'0' + n % 10) ∷ out
digits (suc fuel) n out =
    let more = digits fuel (n / 10) ((b'0' + n % 10) ∷ out) in
    if ltb n 10 then (b'0' + n) ∷ out else more

unfoldable pub format_uint : ℕ → Bytes
unfolding digits
format_uint n = digits n n []

-- The value so far must stay at or below `max`: a larger number is a range error.
scan : ℕ → Bytes → ℕ → Option ℕ
scan max [] n = some n
scan max (c ∷ s) n =
    let n' = n * 10 + (c - b'0') in
    let rest = scan max s n' in
    if ltb c b'0' || ltb b'9' c then none else if ltb max n' then none else rest

-- A result `(v, err)` is an `Option`: the callers look only at whether there is an error.
unfoldable pub parse_uint : ℕ → Bytes → Option ℕ
unfolding scan
parse_uint bits [] = none
parse_uint bits (c ∷ s) = scan (2 ^ bits - 1) (c ∷ s) 0
