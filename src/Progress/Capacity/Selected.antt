-- ===== src/Progress/Capacity/Selected.antt =====
-- What a batch of a task is (internal/progress/subtask.go, SelectCapacity).
use limewire_purge.Prelude.{
  ℕ, ◌+◌, ◌^◌, ◌≤◌, ◌<◌, ◌≡◌, refl, sym, subst, ◌∙◌, ap, ◌⊎◌, inl, inr, ◌||◌, ◌&&◌, false, List, [],
  ◌∷◌, ◌++◌, append-nil, append_assoc, length, length-append, ltb, leb, Bool-cases, arith,
}
use limewire_purge.Errors.{ok}
use limewire_purge.Progress.Tables.{ScanRow}
use limewire_purge.Progress.Capacity.{select_loop, select_capacity}

abbrev pub sizes : List ScanRow → ℕ
sizes [] = 0
sizes (r ∷ rows) = r.payload_size + sizes rows

sizes-append : (xs ys : List ScanRow) → sizes (xs ++ ys) ≡ sizes xs + sizes ys
sizes-append [] ys = omega arith
sizes-append (x ∷ xs) ys = omega (arith, sizes-append xs ys)

-- Why the batch ends where it does: the candidates are used up, the batch is full, it has reached
-- the target, or the next object is oversized and so stands alone.
abbrev pub Ends : ℕ → ℕ → List ScanRow → List ScanRow → Type 0
Ends target max out [] = Unit {0}
Ends target max out (r ∷ rest) =
    (length out ≡ max) ⊎ (target ≤ sizes out) ⊎ ((target < r.payload_size) × (0 < length out))

-- The batch without its last object is below the target, and an oversized object is the only one.
abbrev pub Grows : ℕ → List ScanRow → List ScanRow → Type 0
Grows target before [] = Unit {0}
Grows target before (r ∷ rest) =
    (sizes before < target)
    × ((r.payload_size ≤ target) ⊎ (before ≡ []))
    × Grows target (before ++ r ∷ []) rest

-- A batch of a list of candidates.
pub record Selected (target max : ℕ) (rows out : List ScanRow) (total : ℕ) : Type 0 where
  pub rest : List ScanRow
  pub contiguous : out ++ rest ≡ rows
  pub total_size : total ≡ sizes out
  pub no_overflow : total < 2 ^ 64
  pub within_max : length out ≤ max
  pub grows : Grows target [] out
  pub ends : Ends target max out rest

record Extends (target max : ℕ) (rows out out' : List ScanRow) (total' : ℕ) : Type 0 where
  more : List ScanRow
  rest : List ScanRow
  appended : out' ≡ out ++ more
  split_rows : more ++ rest ≡ rows
  total_size : total' ≡ sizes out'
  no_overflow : total' < 2 ^ 64
  within_max : length out' ≤ max
  grows : Grows target out more
  ends : Ends target max out' rest

stops_here :
    (target max : ℕ) (rows out : List ScanRow) (total : ℕ)
    → total ≡ sizes out
    → total < 2 ^ 64
    → length out ≤ max
    → Ends target max out rows
    → Extends target max rows out out total
stops_here target max rows out total exact small few over = record {
  more = [];
  rest = rows;
  appended = sym (append-nil out);
  split_rows = refl;
  total_size = exact;
  no_overflow = small;
  within_max = few;
  grows = tt;
  ends = over;
}

takes_one :
    (target max : ℕ) (r : ScanRow) (rows out out' : List ScanRow) (total' : ℕ)
    → sizes out < target
    → (r.payload_size ≤ target) ⊎ (out ≡ [])
    → Extends target max rows (out ++ r ∷ []) out' total'
    → Extends target max (r ∷ rows) out out' total'
takes_one target max r rows out out' total' below alone x = record {
  more = r ∷ x.more;
  rest = x.rest;
  appended = x.appended ∙ append_assoc out (r ∷ []) x.more;
  split_rows = ap (◌∷◌ r) x.split_rows;
  total_size = x.total_size;
  no_overflow = x.no_overflow;
  within_max = x.within_max;
  grows = (below, alone, x.grows);
  ends = x.ends;
}

alone_or_small :
    (target n : ℕ) (out : List ScanRow)
    → (ltb target n && ltb 0 (length out)) ≡ false
    → (n ≤ target) ⊎ (out ≡ [])
alone_or_small target n [] h = inr refl
alone_or_small target n (r ∷ out) h = inl (ground arith)

select_loop-Extends :
    (rows : List ScanRow) (target max : ℕ) (out : List ScanRow) (total : ℕ) (out' : List ScanRow)
    (total' : ℕ)
    → total ≡ sizes out
    → total < 2 ^ 64
    → length out ≤ max
    → select_loop rows target max out total ≡ ok (out', total')
    → Extends target max rows out out' total'
unfolding select_loop
select_loop-Extends [] target max out total out' total' exact small few e =
    ground (arith, stops_here target max [] out total exact small few tt)
select_loop-Extends (r ∷ rows) target max out total out' total' exact small few e =
    elim (Bool-cases (leb max (length out) || leb target total)) [
      | inl full ↦
          ground (arith, stops_here target max (r ∷ rows) out total exact small few (ground arith))
      | inr open_batch ↦ elim (Bool-cases (ltb target r.payload_size && ltb 0 (length out))) [
        | inl oversized ↦
            ground
              (arith, stops_here target max (r ∷ rows) out total exact small few (ground arith))
        | inr fits ↦
            let alone = alone_or_small target r.payload_size out fits in
            let next =
              select_loop-Extends rows target max (out ++ r ∷ []) (total + r.payload_size) out'
                total' in
            ground (
              arith,
              takes_one target max r rows out out' total' (ground arith) alone,
              next,
              sizes-append out (r ∷ []),
              length-append out (r ∷ []),
            )
      ]
    ]

-- A batch is a contiguous prefix of the candidates, of at most `max` objects and with the exact sum
-- of their sizes, which does not overflow. Every object of it was added below the target, an
-- oversized one only as the first, and it ends only where the candidates are used up, the maximum or
-- the target is reached, or an oversized object is next.
pub select_capacity-Selected :
    (rows : List ScanRow) (target max : ℕ) (out : List ScanRow) (total : ℕ)
    → select_capacity rows target max ≡ ok (out, total)
    → Selected target max rows out total
unfolding select_capacity
select_capacity-Selected rows target max out total e =
    let x : Extends target max rows [] out total =
      select_loop-Extends rows target max [] 0 out total refl (omega arith) (omega arith)
        (ground arith) in
    record {
      rest = x.rest;
      contiguous = ap (λ o. o ++ x.rest) x.appended ∙ x.split_rows;
      total_size = x.total_size;
      no_overflow = x.no_overflow;
      within_max = x.within_max;
      grows = subst (Grows target []) (sym x.appended) x.grows;
      ends = x.ends;
    }
