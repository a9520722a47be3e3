-- ===== src/Connector/Conn/Paging.antt =====
-- What `Stream` hands to its callback.
use replicron.Base.{
  ℕ, zero, suc, ◌+◌, ◌≤◌, ◌<◌, ◌≡◌, refl, ap, Text, List, [], ◌∷◌, ◌++◌, map, length, concat,
  Option, none, some, arith, leb, All, Bool-cases, inl, inr, append_assoc, length-append,
  append-nil, if◌then◌else◌, ◌∙◌,
}
use replicron.Base.Ints.{ℤ, pos, negsuc}
use replicron.Model.{Value, Row, Error, Result, ok, err, query_failed}
use replicron.Connector.Conn.{
  Cursor, scan_row, effective_page_size, last_page, stream_rows, stream_columns, stream_cursor,
}

-- A source as the engine sees it: the pages in order, and the error, if any, that ends them.
pub record Pages : Type 0 where
  pub pages : List (List Row)
  pub ending : Option Error

-- The contract of `Stream`: hand over the pages in order, stop at the first error of the callback, and
-- report the rows of the pages that went through.
unfoldable pub deliver :
    {S : Type 0}
    → (List Row → S → Option Error × S)
    → List (List Row)
    → Option Error
    → ℕ
    → S
    → (ℕ × Option Error) × S
deliver fn [] ending total s = ((total, ending), s)
deliver fn (page ∷ pages) ending total s =
    let (refused, s') = fn page s in
    elim refused [
      | some e ↦ ((total, some e), s')
      | none ↦ deliver fn pages ending (total + length page) s'
    ]

abbrev add_page : List Row → Pages → Pages
add_page page p = record p { pages = page ∷ p.pages }

-- The page behind the last row: none if the rows end by an error or the page is empty.
last_pages : Option Error → List Row → Pages
last_pages (some e) page = record { pages = []; ending = some e }
last_pages none [] = record { pages = []; ending = none }
last_pages none (r ∷ page) = record { pages = (r ∷ page) ∷ []; ending = none }

-- The pages that the scanned rows make, behind the rows of a page begun.
unfoldable pub cut_pages :
    ℕ → List Text → Option Error → List (Result (List Value)) → List Row → Pages
unfolding last_pages
cut_pages size cols ending [] page = last_pages ending page
cut_pages size cols ending (err e ∷ rows) page = record { pages = []; ending = some e }
cut_pages size cols ending (ok vals ∷ rows) page =
    let page' = page ++ scan_row cols vals [] ∷ [] in
    let full = add_page page' (cut_pages size cols ending rows []) in
    let more = cut_pages size cols ending rows page' in
    if leb size (length page') then full else more

column_pages : Result (List Text) → Cursor → ℕ → Pages
column_pages (err e) cursor size = record { pages = []; ending = some e }
column_pages (ok cols) cursor size = cut_pages size cols cursor.ending cursor.rows []

unfoldable pub source_pages : Text → Result Cursor → ℤ → Pages
unfolding column_pages
source_pages name (err e) page_size = record { pages = []; ending = some (query_failed name e) }
source_pages name (ok cursor) page_size =
    column_pages cursor.columns cursor (effective_page_size page_size)

module _ {S : Type 0} (fn : List Row → S → Option Error × S) where
  last_page-deliver :
      (ending : Option Error) (page : List Row) (total : ℕ) (s : S)
      → last_page fn ending page total s
        ≡ deliver fn (last_pages ending page).pages (last_pages ending page).ending total s
  unfolding last_page last_pages deliver
  last_page-deliver (some e) page total s = refl
  last_page-deliver none [] total s = refl
  last_page-deliver none (r ∷ page) total s = ground arith

  stream_rows-deliver :
      (size : ℕ) (cols : List Text) (ending : Option Error) (rows : List (Result (List Value)))
      (page : List Row) (total : ℕ) (s : S)
      → stream_rows fn size cols ending rows page total s
        ≡ deliver fn
            (cut_pages size cols ending rows page).pages
            (cut_pages size cols ending rows page).ending
            total
            s
  unfolding stream_rows cut_pages deliver
  stream_rows-deliver size cols ending [] page total s = last_page-deliver ending page total s
  stream_rows-deliver size cols ending (err e ∷ rows) page total s = refl
  stream_rows-deliver size cols ending (ok vals ∷ rows) page total s =
      let page' : List Row = page ++ scan_row cols vals [] ∷ [] in
      ground (
        arith,
        stream_rows-deliver size cols ending rows [] (total + length page') (fn page' s).1,
        stream_rows-deliver size cols ending rows page' total s,
      )

  stream_columns-deliver :
      (r : Result (List Text)) (cursor : Cursor) (size : ℕ) (s : S)
      → stream_columns fn r cursor size s
        ≡ deliver fn (column_pages r cursor size).pages (column_pages r cursor size).ending 0 s
  unfolding stream_columns column_pages
  stream_columns-deliver (err e) cursor size s = unfold deliver in refl
  stream_columns-deliver (ok cols) cursor size s =
      stream_rows-deliver size cols cursor.ending cursor.rows [] 0 s

  -- `Stream` hands its callback the pages of `source_pages`, in order, until one is refused; its count
  -- and its error are those of that delivery.
  pub stream_cursor-deliver :
      (name : Text) (answer : Result Cursor) (page_size : ℤ) (s : S)
      → stream_cursor fn name answer page_size s
        ≡ deliver fn
            (source_pages name answer page_size).pages
            (source_pages name answer page_size).ending
            0
            s
  unfolding stream_cursor source_pages
  stream_cursor-deliver name (err e) page_size s = unfold deliver in refl
  stream_cursor-deliver name (ok cursor) page_size s =
      stream_columns-deliver cursor.columns cursor (effective_page_size page_size) s

-- A page that is neither empty nor too long.
abbrev pub Fits : ℕ → List Row → Type 0
Fits size page = (1 ≤ length page) × (length page ≤ size)

last_pages-shape :
    (size : ℕ) (page : List Row)
    → length page < size
    → (concat (last_pages none page).pages ≡ page)
      × ((last_pages none page).ending ≡ none)
      × All (Fits size) (last_pages none page).pages
unfolding last_pages
last_pages-shape size [] h = (refl, refl, tt)
last_pages-shape size (r ∷ page) h = (append-nil (r ∷ page), refl, ((omega arith, omega arith), tt))

cut_pages-shape :
    (size : ℕ) (cols : List Text) (scanned : List (List Value)) (page : List Row)
    → length page < size
    → let p = cut_pages size cols none (map ok scanned) page in
      (concat p.pages ≡ page ++ map (λ vals. scan_row cols vals []) scanned)
      × (p.ending ≡ none)
      × All (Fits size) p.pages
unfolding cut_pages
cut_pages-shape size cols [] page h = rw append-nil (last_pages-shape size page h)
cut_pages-shape size cols (vals ∷ rest) page h =
    let page' : List Row = page ++ scan_row cols vals [] ∷ [] in
    let grown : length page' ≡ length page + 1 = length-append page (scan_row cols vals [] ∷ []) in
    elim (Bool-cases (leb size (length page'))) [
      | inl full ↦
          let (joined, ended, fits) = cut_pages-shape size cols rest [] (omega arith) in
          rw full (
            ap (λ t. page' ++ t) joined
                ∙ append_assoc page (scan_row cols vals [] ∷ [])
                    (map (λ v. scan_row cols v []) rest),
            ended,
            ((omega arith, omega arith), fits),
          )
      | inr more ↦
          let (joined, ended, fits) = cut_pages-shape size cols rest page' (ground arith) in
          rw more (
            joined
                ∙ append_assoc page (scan_row cols vals [] ∷ [])
                    (map (λ v. scan_row cols v []) rest),
            ended,
            fits,
          )
    ]

effective_page_size-pos : (page_size : ℤ) → 0 < effective_page_size page_size
unfolding effective_page_size
effective_page_size-pos (pos zero) = omega arith
effective_page_size-pos (pos (suc n)) = omega arith
effective_page_size-pos (negsuc n) = omega arith

-- Where the query, its columns and all its rows come without an error, the pages put together are the
-- rows in order, one row to a scan, and no page is empty or longer than the page size in force.
pub source_pages_complete :
    (name : Text) (cursor : Cursor) (cols : List Text) (scanned : List (List Value)) (page_size : ℤ)
    → cursor.columns ≡ ok cols
    → cursor.rows ≡ map ok scanned
    → cursor.ending ≡ none
    → let p = source_pages name (ok cursor) page_size in
      (concat p.pages ≡ map (λ vals. scan_row cols vals []) scanned)
      × (p.ending ≡ none)
      × All (Fits (effective_page_size page_size)) p.pages
unfolding source_pages column_pages
source_pages_complete name cursor cols scanned page_size hc hr he =
    rw (hc, column_pages)
      (rw (hr, he)
        (cut_pages-shape (effective_page_size page_size) cols scanned []
          (effective_page_size-pos page_size)))
