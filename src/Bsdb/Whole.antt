-- ===== src/Bsdb/Whole.antt =====
-- A scan hands over the whole list of the bucket or reports an error (internal/bsdb/scan.go, Scan).
use limewire_purge.Prelude.{
  ℕ, zero, suc, ◌+◌, ◌<◌, ◌≤◌, ◌≡◌, refl, sym, subst, ap, ◌∙◌, ◌⊎◌, inl, inr, Bool, true, false,
  List, [], ◌∷◌, ◌++◌, Option, none, some, ltb, ltb→lt, ltb-false→le, if◌then◌else◌, length,
  length-append, take, All, Step, arith,
}
use limewire_purge.Errors.{Err, Result, ok, err}
use limewire_purge.Progress.Tables.{ScanRow}
use limewire_purge.Bsdb.{
  ObjectRow, Page, Scanned, read_rows, failed, complete, after_callback, after_batch, after_rows,
  after_query, one_query, queries, scan,
}
use limewire_purge.Bsdb.Rows.{
  behind, Ascending, all_read, AreRows, last_id, drop, take-drop, take-short, length-take-drop,
  read_rows-all_read, behind-above, length-AreRows, AreRows-append, Reached, Reached-next,
}

-- The callback was given these rows in parts, each without an error, and turned the first state
-- into the second.
pub data Fed {S : Type 0} (fn : List ScanRow → S → Option Err × S)
    : List ScanRow → S → S → Type 0 where
  nothing : (rows : List ScanRow) (s t : S) → rows ≡ [] → t ≡ s → Fed fn rows s t
  taken :
      (rows first rest : List ScanRow) (s between t : S)
      → fn first s ≡ (none, between)
      → Fed fn rest between t
      → rows ≡ first ++ rest
      → Fed fn rows s t

module _ {W S : Type 0} (query : ℕ → ℕ → W → Result Page × W) (batch : ℕ)
    (fn : List ScanRow → S → Option Err × S) (live : List ObjectRow) where
  -- A query that ends without an error has read the first `batch` of the rows behind the key.
  abbrev pub Honest : Type 0
  Honest =
      (last : ℕ) (page : Page) (w : W)
      → (query last batch w).0 ≡ ok page
      → page.error ≡ none
      → page.rows ≡ all_read (take batch (behind last live))

  -- The callback took all these rows, and they are counted.
  pub record Took (bs : List ObjectRow) (total : ℕ) (s : S) (out : Scanned S) : Type 0 where
    pub rows : List ScanRow
    pub are_rows : AreRows bs rows
    pub fed : Fed fn rows s out.state
    pub counted : out.total ≡ total + length bs

  -- The scan returns, with an error or with all of these rows.
  abbrev pub Ends : List ObjectRow → ℕ → S → Option (Scanned S) × W → Type 0
  Ends bs total s r =
      (out : Scanned S) × (r.0 ≡ some out)
      × (((e : Err) × (out.error ≡ some e)) ⊎ Took bs total s out)

  took_nothing :
      (rest : List ObjectRow) (total : ℕ) (s : S) (w : W)
      → rest ≡ []
      → Ends rest total s (some (complete query batch fn total s), w)
  unfolding complete
  took_nothing rest total s w same = (
    _,
    refl,
    inr (record {
      rows = [];
      are_rows = subst (λ z. AreRows z []) (sym same) tt;
      fed = Fed.nothing [] s s refl refl;
      counted = ground (arith, same);
    }),
  )

  took_first :
      (bs rest : List ObjectRow) (out : List ScanRow) (total : ℕ) (s t : S)
      (r : Option (Scanned S) × W)
      → AreRows bs out
      → fn out s ≡ (none, t)
      → Ends rest (total + length out) t r
      → Ends (bs ++ rest) total s r
  took_first bs rest out total s t r are asked (o, same, inl bad) = (o, same, inl bad)
  took_first bs rest out total s t r are asked (o, same, inr more) = (
    o,
    same,
    inr (record {
      rows = out ++ more.rows;
      are_rows = AreRows-append bs out rest more.rows are more.are_rows;
      fed = Fed.taken _ out more.rows _ t _ asked more.fed refl;
      counted = omega (arith, more.counted, length-AreRows bs out are, length-append bs rest);
    }),
  )

  module _ (again : ℕ → ℕ → S → Step W (Scanned S)) where
    -- What the rest of the scan does behind these rows.
    abbrev Goes : ℕ → List ObjectRow → Type 0
    Goes last rest = (total : ℕ) (s : S) (w : W) → Ends rest total s (again last total s w)

    abbrev onward : Bool → (last total : ℕ) → S → Step W (Scanned S)
    onward b last total s =
        if b then (λ w. (some (complete query batch fn total s), w)) else again last total s

    after_callback-Ends :
        (bs rest : List ObjectRow) (out : List ScanRow) (last total : ℕ) (s : S)
        (answer : Option Err × S) (w : W)
        → fn out s ≡ answer
        → AreRows bs out
        → (length bs < batch → rest ≡ [])
        → (batch ≤ length bs → Goes last rest)
        → Ends (bs ++ rest) total s (after_callback query batch fn again out last total answer w)
    unfolding after_callback failed
    after_callback-Ends bs rest out last total s (some e, t) w asked are short goes =
        (_, refl, inl (e, refl))
    after_callback-Ends bs rest out last total s (none, t) w asked are short goes =
        took_first bs rest out total s t
          (onward (ltb (length out) batch) last (total + length out) t w) are asked
          (choose (ltb (length out) batch) (ltb→lt (length out) batch)
            (ltb-false→le (length out) batch))
      where
        choose :
            (b : Bool)
            → (b ≡ true → length out < batch)
            → (b ≡ false → batch ≤ length out)
            → Ends rest (total + length out) t (onward b last (total + length out) t w)
        choose true less full =
            took_nothing rest (total + length out) t w
              (short (omega (arith, less refl, length-AreRows bs out are)))
        choose false less full =
            goes (omega (arith, full refl, length-AreRows bs out are)) (total + length out) t w

    after_batch-Ends :
        (bs rest : List ObjectRow) (out : List ScanRow) (last total : ℕ) (s : S) (w : W)
        → 0 < batch
        → AreRows bs out
        → (length bs < batch → rest ≡ [])
        → (batch ≤ length bs → Goes last rest)
        → Ends (bs ++ rest) total s (after_batch query batch fn again total s (out, last) w)
    unfolding after_batch
    after_batch-Ends [] rest [] last total s w some_batch are short goes =
        took_nothing rest total s w (short some_batch)
    after_batch-Ends (b ∷ bs) rest [] last total s w some_batch are short goes = absurd are
    after_batch-Ends bs rest (r ∷ out) last total s w some_batch are short goes =
        after_callback-Ends bs rest (r ∷ out) last total s (fn (r ∷ out) s) w refl are short goes

    after_rows-Ends :
        (bs rest : List ObjectRow) (last total : ℕ) (s : S) (broken : Option Err)
        (answer : Result (List ScanRow × ℕ)) (w : W)
        → 0 < batch
        → (broken ≡ none
            → (out : List ScanRow) (next : ℕ) → answer ≡ ok (out, next)
            → AreRows bs out × (next ≡ last))
        → (length bs < batch → rest ≡ [])
        → (batch ≤ length bs → Goes last rest)
        → Ends (bs ++ rest) total s (after_rows query batch fn again total s broken answer w)
    unfolding after_rows failed
    after_rows-Ends bs rest last total s broken (err e) w some_batch reads short goes =
        (_, refl, inl (e, refl))
    after_rows-Ends bs rest last total s (some e) (ok out) w some_batch reads short goes =
        (_, refl, inl (_, refl))
    after_rows-Ends bs rest last total s none (ok (out, next)) w some_batch reads short goes =
        let (are, same) = reads refl out next refl in
        after_batch-Ends bs rest out next total s w some_batch are short
          (λ full. subst (λ l. Goes l rest) (sym same) (goes full))

    after_query-Ends :
        (bs rest : List ObjectRow) (last total : ℕ) (s : S) (answer : Result Page) (w : W)
        → 0 < batch
        → ((page : Page) → answer ≡ ok page → page.error ≡ none → page.rows ≡ all_read bs)
        → (length bs < batch → rest ≡ [])
        → (batch ≤ length bs → Goes (last_id last bs) rest)
        → Ends (bs ++ rest) total s (after_query query batch fn again last total s answer w)
    unfolding after_query failed
    after_query-Ends bs rest last total s (err e) w some_batch reads short goes =
        (_, refl, inl (e, refl))
    after_query-Ends bs rest last total s (ok page) w some_batch reads short goes =
        after_rows-Ends bs rest (last_id last bs) total s page.error (read_rows page.rows last) w
          some_batch
          (λ clean out next same.
            read_rows-all_read bs last out next
              (ap (λ rows. read_rows rows last) (sym (reads page refl clean)) ∙ same))
          short goes

  queries-Ends :
      0 < batch
      → Honest
      → (fuel : ℕ) (rest : List ObjectRow) (last total : ℕ) (s : S) (w : W) → Reached live last rest
      → length rest < fuel
      → Ends rest total s (queries query batch fn fuel last total s w)
  unfolding queries one_query
  queries-Ends some_batch honest zero rest last total s w at h = absurd (omega (arith, h))
  queries-Ends some_batch honest (suc fuel) rest last total s w at h =
      subst
        (λ z.
          Ends z total s (one_query query batch fn (queries query batch fn fuel) last total s w))
        (take-drop batch rest)
        (after_query-Ends (queries query batch fn fuel) (take batch rest) (drop batch rest) last
          total s _ _ some_batch
          (λ page same clean.
            honest last page w same clean ∙ ap (λ z. all_read (take batch z)) at.stands)
          (take-short batch rest)
          (λ full total' t v.
            queries-Ends some_batch honest fuel (drop batch rest) (last_id last (take batch rest))
              total' t v
              (Reached-next live last (take batch rest) (drop batch rest)
                (subst (Reached live last) (sym (take-drop batch rest)) at))
              (omega (arith, h, some_batch, full, length-take-drop batch rest))))

  -- For a batch of at least one row, where a query without an error reads the rows behind its key of a
  -- list that is sorted by ids above 0, and the fuel exceeds the length of the list, `Scan` returns,
  -- and has either reported an error or handed every row of the list to the callback, in order and in
  -- parts that it all took, and counted them.
  pub scan-Ends :
      0 < batch
      → Honest
      → All (λ r. 0 < r.id) live
      → Ascending live
      → (fuel : ℕ) (s : S) (w : W) → length live < fuel
      → Ends live 0 s (scan query batch fn fuel s w)
  unfolding scan
  scan-Ends some_batch honest above sorted fuel s w h =
      queries-Ends some_batch honest fuel live 0 0 s w
        (record { stands = behind-above 0 live above; above = above; sorted = sorted }) h
