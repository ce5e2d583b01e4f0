-- ===== src/Progress/Capacity.antt =====
-- `ParseCapacity` and `SelectCapacity` of internal/progress/subtask.go. Sizes are uint64; a maximum
-- of objects below 1 is 0 here.
pub mod Selected
use limewire_purge.Prelude.{
  ℕ, zero, suc, ◌+◌, ◌-◌, ◌*◌, ◌/◌, ◌%◌, ◌^◌, ◌≤◌, ◌<◌, ◌≡◌, refl, Bool, ◌&&◌, ◌||◌, List, [], ◌∷◌,
  ◌++◌, Option, none, some, Bytes, codes, bytes_eq, ltb, leb, ◌==◌, if◌then◌else◌, length, arith,
}
use limewire_purge.Decimal.{parse_uint}
use limewire_purge.Errors.{Err, message, Result, ok, err}
use limewire_purge.Progress.Tables.{ScanRow}

-- strings.HasSuffix and strings.TrimSuffix in one: the text before the suffix.
before_suffix : Bytes → Bytes → Option Bytes
before_suffix suffix [] = if bytes_eq [] suffix then some [] else none
before_suffix suffix (c ∷ s) =
    let rest = before_suffix suffix s in
    if bytes_eq (c ∷ s) suffix then some [] else elim rest [ none ↦ none | some p ↦ some (c ∷ p) ]

abbrev max_u64 : ℕ
max_u64 = 2 ^ 64 - 1

abbrev units : List (Bytes × ℕ)
units =
    (codes "TiB", 2 ^ 40)
    ∷ (codes "GiB", 2 ^ 30)
    ∷ (codes "MiB", 2 ^ 20)
    ∷ (codes "KiB", 2 ^ 10)
    ∷ (codes "B", 1)
    ∷ []

-- The number before the unit: positive, and no overflow in bytes.
scale : ℕ → Option ℕ → Option ℕ
scale factor none = none
scale factor (some n) = if n == 0 || ltb (max_u64 / factor) n then none else some (n * factor)

-- The first unit that is a suffix decides; its failure ends the loop.
parse_units : List (Bytes × ℕ) → Bytes → Option ℕ
unfolding before_suffix scale
parse_units [] value = none
parse_units ((name, factor) ∷ rest) value =
    let next = parse_units rest value in
    elim (before_suffix name value) [ none ↦ next | some p ↦ scale factor (parse_uint 64 p) ]

unfoldable pub parse_capacity : Bytes → Option ℕ
unfolding parse_units
parse_capacity value = parse_units units value

-- The loop over the sorted candidates.
select_loop : List ScanRow → ℕ → ℕ → List ScanRow → ℕ → Result (List ScanRow × ℕ)
select_loop [] target max out total = ok (out, total)
select_loop (r ∷ rows) target max out total =
    let rest = select_loop rows target max (out ++ r ∷ []) (total + r.payload_size) in
    if leb max (length out) || leb target total
    then ok (out, total)
    else if ltb target r.payload_size && ltb 0 (length out)
    then ok (out, total)
    else if ltb (max_u64 - total) r.payload_size
    then err (message "logical size overflow")
    else rest

unfoldable pub select_capacity : List ScanRow → ℕ → ℕ → Result (List ScanRow × ℕ)
unfolding select_loop
select_capacity rows target max =
    if target == 0 || max == 0
    then err (message "positive target size and max-objects required")
    else select_loop rows target max [] 0
