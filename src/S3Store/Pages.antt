-- ===== src/S3Store/Pages.antt =====
-- `ListAll` of internal/s3store shows every page, in order.
use limewire_purge.Prelude.{
  ℕ, zero, suc, ◌≤◌, ◌≡◌, List, [], ◌∷◌, Option, none, some, Bytes, length, arith,
}
use limewire_purge.Errors.{Err, ok}
use limewire_purge.Purge.Env.{Object}
use limewire_purge.S3Store.{
  Client, Listing, to_objects, next_page, after_page, after_list, list_page, pages_from, list_all,
}

-- What the server shows from a token on, however the world moves meanwhile: these pages, each with
-- the token that asks for it.
pub data Paged {W : Type 0} (C : Client W) (prefix : Bytes)
    : Option Bytes → List (Option Bytes × List Object) → Type 0 where
  last :
      (token : Option Bytes) (pages : List (Option Bytes × List Object)) (out : Listing)
      → ((w : W) → (C.list_objects_v2 prefix 1000 token w).0 ≡ ok out)
      → next_page out ≡ none
      → pages ≡ (token, to_objects out.contents) ∷ []
      → Paged C prefix token pages
  more :
      (token : Option Bytes) (pages : List (Option Bytes × List Object)) (out : Listing)
      (next : Bytes) (rest : List (Option Bytes × List Object))
      → ((w : W) → (C.list_objects_v2 prefix 1000 token w).0 ≡ ok out)
      → next_page out ≡ some next
      → pages ≡ (token, to_objects out.contents) ∷ rest
      → Paged C prefix (some next) rest
      → Paged C prefix token pages

module _ {W S : Type 0} (C : Client W) (prefix : Bytes)
    (page : List Object → S → W → (Option Err × S) × W) where
  -- Each page is shown in the world that its request leaves, until an error ends the listing.
  unfoldable pub show_pages : List (Option Bytes × List Object) → S → W → (Option Err × S) × W
  show_pages [] s w = ((none, s), w)
  show_pages ((token, objs) ∷ rest) s w =
      let (answer, w') = page objs s (C.list_objects_v2 prefix 1000 token w).1 in
      elim answer.0 [ some e ↦ (answer, w') | none ↦ show_pages rest answer.1 w' ]

  pages_from-show_pages :
      (fuel : ℕ) (token : Option Bytes) (pages : List (Option Bytes × List Object)) (s : S) (w : W)
      → Paged C prefix token pages
      → length pages ≤ fuel
      → pages_from C prefix page fuel token s w
        ≡ (some (show_pages pages s w).0, (show_pages pages s w).1)
  unfolding pages_from list_page after_list after_page show_pages
  pages_from-show_pages zero t ps s w (last token pages out said ended same) fits =
      absurd (ground (arith, fits, same))
  pages_from-show_pages zero t ps s w (more token pages out next rest said goes same later) fits =
      absurd (ground (arith, fits, same))
  pages_from-show_pages (suc fuel) t ps s w (last token pages out said ended same) fits =
      rw (same, said w) (ground (arith, ended))
  pages_from-show_pages (suc fuel) t ps s w (more token pages out next rest said goes same later)
        fits =
      let (answer, w') = page (to_objects out.contents) s (C.list_objects_v2 prefix 1000 t w).1 in
      rw (same, said w)
        (ground (
          arith,
          goes,
          pages_from-show_pages fuel (some next) rest answer.1 w' later
              (ground (arith, fits, same)),
        ))

  -- If the server shows these pages from the start of the prefix, whatever the callback does
  -- meanwhile, and the fuel is at least their number, `ListAll` ends, and has shown each page once and
  -- in order, up to the error of a callback, if there is one.
  pub list_all-show_pages :
      (fuel : ℕ) (pages : List (Option Bytes × List Object)) (s : S) (w : W)
      → Paged C prefix none pages
      → length pages ≤ fuel
      → list_all C prefix page fuel s w ≡ (some (show_pages pages s w).0, (show_pages pages s w).1)
  unfolding list_all
  list_all-show_pages fuel pages s w paged fits =
      pages_from-show_pages fuel none pages s w paged fits
