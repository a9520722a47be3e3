-- ===== src/Connector/Conn.antt =====
-- internal/connector/connector.go: `sqlConn`. The package `database/sql`, its drivers and the database
-- behind them are a parameter, `Driver`, over the state `D` of that outside.
pub mod Paging
pub mod Writes
pub mod Sent
use replicron.Base.{
  ℕ, zero, suc, ◌+◌, ◌≡◌, Text, codes, List, [], ◌∷◌, ◌++◌, map, length, Option, none, some, Bool,
  true, false, Dict, lookup, insert, leb, if◌then◌else◌,
}
use replicron.Base.Ints.{ℤ, pos, negsuc, ltb_ℤ}
use replicron.Model.{
  Value, null, text, bytes, Row, Error, Result, ok, err, query_failed, upsert_failed, insert_failed,
  ◌>>=◌, ◌>>◌,
}
use replicron.Connector.Ident.{split_table_path, validate_columns}
use replicron.Connector.Dialect.{Dialect, open_dialect}

-- What a query gives: the column names, each row as it is scanned, and the error, if any, that ends
-- the rows.
pub record Cursor : Type 0 where
  pub columns : Result (List Text)
  pub rows : List (Result (List Value))
  pub ending : Option Error

pub record Driver (D : Type 0) : Type 0 where
  pub sql_open : Text → Text → D → Option Error × D
  pub ping : D → Option Error × D
  pub close : D → D
  pub query : Text → D → Result Cursor
  pub exec : Text → List Value → D → Result (Unit {0}) × D

-- `normalize`: bytes become a string.
unfoldable pub normalize : Value → Value
normalize (bytes b) = text b
normalize v = v

-- `r[col]`: a key that is missing reads as nil.
unfoldable pub get_value : Row → Text → Value
get_value r col = elim (lookup col r) [ none ↦ null | some v ↦ v ]

unfoldable pub row_args : Row → List Text → List Value
row_args r cols = map (get_value r) cols

unfoldable pub flat_args : List Text → List Row → List Value
unfolding row_args
flat_args cols [] = []
flat_args cols (r ∷ rows) = row_args r cols ++ flat_args cols rows

-- `m[col] = normalize(vals[i])` over the columns; the driver scans one value to a column.
unfoldable pub scan_row : List Text → List Value → Row → Row
scan_row [] vals m = m
scan_row (col ∷ cols) [] m = scan_row cols [] (insert col null m)
scan_row (col ∷ cols) (v ∷ vals) m = scan_row cols vals (insert col (normalize v) m)

-- The default of `Stream` for a page size that is not positive.
unfoldable pub effective_page_size : ℤ → ℕ
effective_page_size (pos zero) = 5000
effective_page_size (pos (suc n)) = suc n
effective_page_size (negsuc n) = 5000

module _ {S : Type 0} (fn : List Row → S → Option Error × S) where
  -- The part of `Stream` behind the loop: a page that is not full.
  last_page : Option Error → List Row → ℕ → S → (ℕ × Option Error) × S
  last_page (some e) page total s = ((total, some e), s)
  last_page none [] total s = ((total, none), s)
  last_page none (r ∷ page) total s =
      let (refused, s') = fn (r ∷ page) s in
      elim refused [
        | some e ↦ ((total, some e), s')
        | none ↦ ((total + length (r ∷ page), none), s')
      ]

  -- `for rows.Next()`
  stream_rows :
      ℕ
      → List Text
      → Option Error
      → List (Result (List Value))
      → List Row
      → ℕ
      → S
      → (ℕ × Option Error) × S
  unfolding last_page
  stream_rows size cols ending [] page total s = last_page ending page total s
  stream_rows size cols ending (err e ∷ rows) page total s = ((total, some e), s)
  stream_rows size cols ending (ok vals ∷ rows) page total s =
      let page' = page ++ scan_row cols vals [] ∷ [] in
      elim (leb size (length page')) [
        | false ↦ stream_rows size cols ending rows page' total s
        | true ↦
            let (refused, s') = fn page' s in
            elim refused [
              | some e ↦ ((total, some e), s')
              | none ↦ stream_rows size cols ending rows [] (total + length page') s'
            ]
      ]

  -- `rows.Columns()`, and the loop.
  stream_columns : Result (List Text) → Cursor → ℕ → S → (ℕ × Option Error) × S
  unfolding stream_rows
  stream_columns (err e) cursor size s = ((0, some e), s)
  stream_columns (ok cols) cursor size s = stream_rows size cols cursor.ending cursor.rows [] 0 s

  -- `Stream` on the answer of the query.
  unfoldable pub stream_cursor : Text → Result Cursor → ℤ → S → (ℕ × Option Error) × S
  unfolding stream_columns
  stream_cursor name (err e) page_size s = ((0, some (query_failed name e)), s)
  stream_cursor name (ok cursor) page_size s =
      stream_columns cursor.columns cursor (effective_page_size page_size) s

module _ (c : Dialect) where
  -- What `UpsertRows` checks, and the statement that it builds.
  unfoldable pub upsert_statement : Text → List Text → List Text → ℕ → Result Text
  upsert_statement table keys cols n = do
    parts ← split_table_path table
    validate_columns cols
    validate_columns keys
    ok (c.upsert parts keys cols n c.ph)

  unfoldable pub insert_statement : Text → List Text → ℕ → Result Text
  insert_statement table cols n = do
    parts ← split_table_path table
    validate_columns cols
    ok (c.insert parts cols n c.ph)

module _ {D : Type 0} (drv : Driver D) (c : Dialect) where
  -- `Connect`: open and ping; a connection that does not answer is closed.
  unfoldable pub connect : Text → D → Option Error × D
  connect dsn d =
      let (opened, d') = drv.sql_open c.driver dsn d in
      elim opened [
        | some e ↦ (some e, d')
        | none ↦
            let (pinged, d'') = drv.ping d' in
            elim pinged [ some e ↦ (some e, drv.close d'') | none ↦ (none, d'') ]
      ]

  -- `ExecContext` with the rows' values bound, and the count that is returned.
  exec_rows : (Error → Error) → Result Text → List Text → List Row → D → Result ℕ × D
  exec_rows wrap (err e) cols rows d = (err e, d)
  exec_rows wrap (ok q) cols rows d =
      let (r, d') = drv.exec q (flat_args cols rows) d in
      elim r [ ok _ ↦ (ok (length rows), d') | err e ↦ (err (wrap e), d') ]

  unfoldable pub upsert_rows : Text → List Text → List Text → List Row → D → Result ℕ × D
  unfolding exec_rows
  upsert_rows table keys cols [] d = (ok 0, d)
  upsert_rows table keys cols (r ∷ rows) d =
      exec_rows (upsert_failed c.name table)
        (upsert_statement c table keys cols (length (r ∷ rows))) cols (r ∷ rows) d

  unfoldable pub insert_rows : Text → List Text → List Row → D → Result ℕ × D
  unfolding exec_rows
  insert_rows table cols [] d = (ok 0, d)
  insert_rows table cols (r ∷ rows) d =
      exec_rows (insert_failed c.name table) (insert_statement c table cols (length (r ∷ rows)))
        cols (r ∷ rows) d
