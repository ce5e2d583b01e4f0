-- ===== src/Bsdb/Rows.antt =====
-- The rows of a bucket behind a primary key, and how a batch of them is read (internal/bsdb/scan.go).
use limewire_purge.Prelude.{
  ℕ, zero, suc, ◌+◌, ◌<◌, ◌≤◌, ◌≡◌, refl, sym, subst, ap, ◌∙◌, List, [], ◌∷◌, ◌++◌, Option, none,
  some, ltb, if◌then◌else◌, length, take, All, arith,
}
use limewire_purge.Errors.{Result, ok, err}
use limewire_purge.Progress.Tables.{ScanRow}
use limewire_purge.Bsdb.{ObjectRow, scan_row, after_row, read_rows}

-- The rows behind a primary key: WHERE … AND id > ? ORDER BY id, of a table in the order of its key.
abbrev pub behind : ℕ → List ObjectRow → List ObjectRow
behind last [] = []
behind last (r ∷ rows) = if ltb last r.id then r ∷ behind last rows else behind last rows

abbrev pub Ascending : List ObjectRow → Type 0
Ascending [] = Unit
Ascending (r ∷ rows) = All (λ q. r.id < q.id) rows × Ascending rows

abbrev pub all_read : List ObjectRow → List (Result ObjectRow)
all_read [] = []
all_read (r ∷ rows) = ok r ∷ all_read rows

-- The rows as the scan hands them on; every object id is a number of 64 bits.
abbrev pub AreRows : List ObjectRow → List ScanRow → Type 0
AreRows [] [] = Unit
AreRows [] (s ∷ out) = ⊥
AreRows (r ∷ rows) [] = ⊥
AreRows (r ∷ rows) (s ∷ out) = (scan_row r ≡ some s) × AreRows rows out

abbrev pub last_id : ℕ → List ObjectRow → ℕ
last_id last [] = last
last_id last (r ∷ rows) = last_id r.id rows

abbrev pub drop : ℕ → List ObjectRow → List ObjectRow
drop zero rows = rows
drop (suc n) [] = []
drop (suc n) (r ∷ rows) = drop n rows

pub take-drop : (n : ℕ) (rows : List ObjectRow) → take n rows ++ drop n rows ≡ rows
take-drop zero rows = refl
take-drop (suc n) [] = refl
take-drop (suc n) (r ∷ rows) = ap (λ t. r ∷ t) (take-drop n rows)

pub take-short : (n : ℕ) (rows : List ObjectRow) → length (take n rows) < n → drop n rows ≡ []
take-short zero rows h = absurd (omega (arith, h))
take-short (suc n) [] h = refl
take-short (suc n) (r ∷ rows) h = take-short n rows (omega (arith, h))

pub behind-above :
    (last : ℕ) (rows : List ObjectRow) → All (λ r. last < r.id) rows → behind last rows ≡ rows
behind-above last [] h = refl
behind-above last (r ∷ rows) (h, hs) = ground (arith, h, behind-above last rows hs)

pub length-take-drop :
    (n : ℕ) (rows : List ObjectRow) → length (take n rows) + length (drop n rows) ≡ length rows
length-take-drop zero rows = omega arith
length-take-drop (suc n) [] = refl
length-take-drop (suc n) (r ∷ rows) = omega (arith, length-take-drop n rows)

behind-below :
    (last : ℕ) (read rest : List ObjectRow)
    → All (λ r. r.id ≤ last) read
    → behind last (read ++ rest) ≡ behind last rest
behind-below last [] rest h = refl
behind-below last (r ∷ read) rest (h, hs) = ground (arith, h, behind-below last read rest hs)

-- A sorted list that is cut behind a first part: the last id of it divides the list.
record Cut (last : ℕ) (bs rest : List ObjectRow) : Type 0 where
  below : All (λ r. r.id ≤ last_id last bs) bs
  above : All (λ r. last_id last bs < r.id) rest
  pub sorted : Ascending rest
  up : last ≤ last_id last bs

All-map {κ μ} :
    {P : ObjectRow → Type κ} {Q : ObjectRow → Type μ} (xs : List ObjectRow)
    → ((x : ObjectRow) → P x → Q x)
    → All P xs
    → All Q xs
All-map [] f ps = tt
All-map (x ∷ xs) f (p, ps) = (f x p, All-map xs f ps)

All-second {κ} : (P : ObjectRow → Type κ) (xs ys : List ObjectRow) → All P (xs ++ ys) → All P ys
All-second P [] ys h = h
All-second P (x ∷ xs) ys (p, ps) = All-second P xs ys ps

cut :
    (last : ℕ) (bs rest : List ObjectRow)
    → All (λ r. last < r.id) (bs ++ rest)
    → Ascending (bs ++ rest)
    → Cut last bs rest
cut last [] rest h sorted = record { below = tt; above = h; sorted = sorted; up = omega arith }
cut last (b ∷ bs) rest (h, hs) (least, sorted) =
    let c = cut b.id bs rest least sorted in
    record {
      below = (c.up, c.below);
      above = c.above;
      sorted = c.sorted;
      up = omega (arith, h, c.up);
    }

after_row-ok :
    (row : Option ScanRow) (r : Result (List ScanRow × ℕ)) (out : List ScanRow) (last : ℕ)
    → after_row row r ≡ ok (out, last)
    → (s : ScanRow) × (rest : List ScanRow) × (row ≡ some s)
      × (r ≡ ok (rest, last))
      × (out ≡ s ∷ rest)
unfolding after_row
after_row-ok none r out last e = absurd (cc)
after_row-ok (some s) (err x) out last e = absurd (cc)
after_row-ok (some s) (ok (rest, l)) out last e =
    (s, rest, refl, grind (arith, e), grind (arith, e))

pub read_rows-all_read :
    (bs : List ObjectRow) (last : ℕ) (out : List ScanRow) (last' : ℕ)
    → read_rows (all_read bs) last ≡ ok (out, last')
    → AreRows bs out × (last' ≡ last_id last bs)
unfolding read_rows
read_rows-all_read [] last out last' e =
    (subst (AreRows []) {x = []} (ground (arith, e)) tt, ground (arith, e))
read_rows-all_read (b ∷ bs) last out last' e =
    let (s, rest, found, tail, same) =
      after_row-ok (scan_row b) (read_rows (all_read bs) b.id) out last' e in
    let (rows, ended) = read_rows-all_read bs b.id rest last' tail in
    (subst (AreRows (b ∷ bs)) (sym same) (found, rows), ended)

pub length-AreRows :
    (bs : List ObjectRow) (out : List ScanRow) → AreRows bs out → length out ≡ length bs
length-AreRows [] [] h = refl
length-AreRows [] (s ∷ out) h = absurd h
length-AreRows (b ∷ bs) [] h = absurd h
length-AreRows (b ∷ bs) (s ∷ out) (h, hs) = ap suc (length-AreRows bs out hs)

pub AreRows-append :
    (bs : List ObjectRow) (out : List ScanRow) (cs : List ObjectRow) (more : List ScanRow)
    → AreRows bs out
    → AreRows cs more
    → AreRows (bs ++ cs) (out ++ more)
AreRows-append [] [] cs more h k = k
AreRows-append [] (s ∷ out) cs more h k = absurd h
AreRows-append (b ∷ bs) [] cs more h k = absurd h
AreRows-append (b ∷ bs) (s ∷ out) cs more (h, hs) k = (h, AreRows-append bs out cs more hs k)

behind-behind :
    (last next : ℕ) (rows : List ObjectRow)
    → last ≤ next
    → behind next (behind last rows) ≡ behind next rows
behind-behind last next [] h = refl
behind-behind last next (r ∷ rows) h = ground (arith, h, behind-behind last next rows h)

-- `rest` is what the list still holds behind `last`.
pub record Reached (live : List ObjectRow) (last : ℕ) (rest : List ObjectRow) : Type 0 where
  pub stands : behind last live ≡ rest
  pub above : All (λ r. last < r.id) rest
  pub sorted : Ascending rest

pub Reached-next :
    (live : List ObjectRow) (last : ℕ) (bs rest : List ObjectRow)
    → Reached live last (bs ++ rest)
    → Reached live (last_id last bs) rest
Reached-next live last bs rest at =
    let c = cut last bs rest at.above at.sorted in
    record {
      stands =
          sym (behind-behind last (last_id last bs) live c.up)
          ∙ ap (behind (last_id last bs)) at.stands
          ∙ behind-below (last_id last bs) bs rest c.below
          ∙ behind-above (last_id last bs) rest c.above;
      above = c.above;
      sorted = c.sorted;
    }
