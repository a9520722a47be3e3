-- ===== src/Tests/Rows.antt =====
-- Pages, statements, identifiers and the tracker on small rows.
use replicron.Base.{
  get_elem?, ℕ, suc, ◌+◌, ◌*◌, ◌≡◌, refl, Text, codes, List, [], ◌∷◌, ◌++◌, map, length, concat,
  Option, none, some, true, false, All, inl, inr, ◌⊎◌, ◌↔◌, arith, lookup, text_eq,
}
use replicron.Base.Ints.{pos}
use replicron.Base.Strings.{join, replace_all}
use replicron.Base.Decimal.{format_nat, emit}
use replicron.Model.{null, int64, text, Row, Error, Result, ok, upsert_failed}
use replicron.Connector.Ident.{is_identifier, split_table_path}
use replicron.Connector.Ident.Allowlist.{
  IsTablePath, split_table_path_iff, split_table_path_complete,
}
use replicron.Connector.Sql.{
  qualify, quote_double, quote_backtick, quote_bracket, updates, insert_with, upsert_on_conflict,
  quoted_list, values_clause,
}
use replicron.Connector.Sql.Quoting.{read_quoted, quoted_names_read_back}
use replicron.Connector.Sql.Values.{range, group, values_clause-groups}
use replicron.Connector.Sql.Updates.{upsert_of_only_keys}
use replicron.Connector.Dialect.{numbered, pg_dialect}
use replicron.Connector.Conn.{
  Cursor, Driver, get_value, flat_args, scan_row, effective_page_size, stream_cursor, upsert_rows,
}
use replicron.Connector.Conn.Paging.{
  Fits, deliver, source_pages, stream_cursor-deliver, source_pages_complete,
}
use replicron.Connector.Conn.Writes.{AreSafe, sent, flat_args-placed, upsert_rows_cases}
use replicron.Engine.Watermark.{Tracker, fresh, observe, watermark_literal}
use replicron.Engine.Watermark.Orderings.{integers}
use replicron.Engine.Watermark.Maximum.{IsMaximum, observe-IsMaximum}
use replicron.Engine.Watermark.Literal.{watermark_literal-reads_back}

abbrev two_cols : List Text
two_cols = codes "id" ∷ codes "name" ∷ []

abbrev three_rows : Cursor
three_rows = record {
  columns = ok two_cols;
  rows = map ok (
      (int64 (pos 1) ∷ text (codes "a") ∷ [])
      ∷ (int64 (pos 2) ∷ null ∷ [])
      ∷ (int64 (pos 3) ∷ null ∷ [])
      ∷ []);
  ending = none;
}

source_pages_complete_example :
    let p = source_pages (codes "sqlite") (ok three_rows) (pos 2) in
    (concat p.pages
      ≡ map
          (λ vals. scan_row two_cols vals [])
          ((int64 (pos 1) ∷ text (codes "a") ∷ [])
            ∷ (int64 (pos 2) ∷ null ∷ [])
            ∷ (int64 (pos 3) ∷ null ∷ [])
            ∷ []))
    × (p.ending ≡ none)
    × All (Fits (effective_page_size (pos 2))) p.pages
source_pages_complete_example =
    source_pages_complete (codes "sqlite") three_rows two_cols
      ((int64 (pos 1) ∷ text (codes "a") ∷ [])
        ∷ (int64 (pos 2) ∷ null ∷ [])
        ∷ (int64 (pos 3) ∷ null ∷ [])
        ∷ [])
      (pos 2) refl refl refl

abbrev count_rows : List Row → ℕ → Option Error × ℕ
count_rows page n = (none, n + length page)

stream_cursor-deliver_example :
    stream_cursor count_rows (codes "sqlite") (ok three_rows) (pos 2) 0
    ≡ deliver count_rows
        (source_pages (codes "sqlite") (ok three_rows) (pos 2)).pages
        (source_pages (codes "sqlite") (ok three_rows) (pos 2)).ending
        0
        0
stream_cursor-deliver_example =
    stream_cursor-deliver count_rows (codes "sqlite") (ok three_rows) (pos 2) 0

abbrev ann : Row
ann = (codes "id", int64 (pos 1)) ∷ (codes "name", text (codes "ann")) ∷ []

abbrev bob : Row
bob = (codes "name", text (codes "bob")) ∷ (codes "id", int64 (pos 2)) ∷ []

flat_args-placed_example :
    (length (flat_args two_cols (ann ∷ bob ∷ [])) ≡ 2 * 2)
    × (get_elem? (flat_args two_cols (ann ∷ bob ∷ [])) (1 * 2 + 1)
        ≡ some (get_value bob (codes "name")))
flat_args-placed_example =
    flat_args-placed two_cols (ann ∷ bob ∷ []) 1 1 bob (codes "name") refl refl

-- A database that counts its statements.
abbrev counting : Driver ℕ
counting = record {
  sql_open = λ driver dsn d. (none, d);
  ping = λ d. (none, d);
  close = λ d. d;
  query = λ q d. ok three_rows;
  exec = λ q args d. (ok tt, suc d);
}

upsert_rows_cases_example :
    ((r : Result ℕ) × (upsert_rows counting pg_dialect
          (codes "app.users")
          (codes "id" ∷ [])
          two_cols
          (ann ∷ [])
          0
        ≡ (r, 0)))
    ⊎ ((parts : List Text) × AreSafe (codes "app.users") parts two_cols (codes "id" ∷ [])
        × (upsert_rows counting pg_dialect
              (codes "app.users")
              (codes "id" ∷ [])
              two_cols
              (ann ∷ [])
              0
            ≡ sent (upsert_failed (codes "postgres") (codes "app.users")) 1 (
                counting.exec
                  (pg_dialect.upsert parts (codes "id" ∷ []) two_cols 1 pg_dialect.ph)
                  (flat_args two_cols (ann ∷ []))
                  0)))
upsert_rows_cases_example =
    upsert_rows_cases counting pg_dialect (codes "app.users") (codes "id" ∷ []) two_cols (ann ∷ [])
      0

values_clause-groups_example :
    values_clause 2 3 numbered ≡ join (map (λ r. group 2 numbered (r * 2)) (range 0 3)) (codes ",")
values_clause-groups_example = values_clause-groups 2 3 numbered

quoted_names_read_back_example :
    ((t : Text) × (quote_double (codes "a\"b") ++ codes ".c" ≡ b'"' ∷ t)
      × (read_quoted b'"' t false [] ≡ some (codes "a\"b", codes ".c")))
    × ((t : Text) × (quote_backtick (codes "a\"b") ++ codes ".c" ≡ b'`' ∷ t)
        × (read_quoted b'`' t false [] ≡ some (codes "a\"b", codes ".c")))
    × ((t : Text) × (quote_bracket (codes "a\"b") ++ codes ".c" ≡ b'[' ∷ t)
        × (read_quoted b']' t false [] ≡ some (codes "a\"b", codes ".c")))
quoted_names_read_back_example =
    quoted_names_read_back (codes "a\"b") (codes ".c") (λ e. omega (arith, e))
      (λ e. omega (arith, e)) (λ e. omega (arith, e))

app_users : split_table_path (codes "app.users") ≡ ok (codes "app" ∷ codes "users" ∷ [])
unfolding is_identifier
app_users = (split_table_path_complete (codes "app") (codes "users") refl refl).1

split_table_path_iff_example :
    (split_table_path (codes "app.users") ≡ ok (codes "app" ∷ codes "users" ∷ []))
    ↔ IsTablePath (codes "app.users") (codes "app" ∷ codes "users" ∷ [])
split_table_path_iff_example =
    split_table_path_iff (codes "app.users") (codes "app" ∷ codes "users" ∷ [])

upsert_of_only_keys_example :
    upsert_on_conflict quote_double (codes "users" ∷ []) two_cols two_cols 1 numbered
    ≡ insert_with quote_double (codes "users" ∷ []) two_cols 1 numbered
      ++ (codes " ON CONFLICT (" ++ (quoted_list two_cols quote_double ++ codes ") DO UPDATE SET "))
upsert_of_only_keys_example =
    upsert_of_only_keys quote_double (codes "users" ∷ []) two_cols two_cols 1 numbered
      (inl refl, (inr (inl refl), tt))

observe-IsMaximum_example :
    (w : Tracker) × (observe (ann ∷ bob ∷ []) (fresh (codes "id")) ≡ ok w)
    × IsMaximum integers (codes "id") w.max (some (pos 1, true) ∷ some (pos 2, true) ∷ [])
unfolding get_value lookup text_eq
observe-IsMaximum_example =
    observe-IsMaximum integers (codes "id") (ann ∷ bob ∷ [])
      (some (pos 1, true) ∷ some (pos 2, true) ∷ []) refl

watermark_literal-reads_back_example :
    (lit tail : Text) × (watermark_literal
        (record { format = λ x. []; parse = λ s. none })
        (text (codes "O'Neil"))
      ≡ ok lit)
    × (lit ++ codes " LIMIT 1" ≡ b'\'' ∷ tail)
    × (read_quoted b'\'' tail false [] ≡ some (codes "O'Neil", codes " LIMIT 1"))
watermark_literal-reads_back_example =
    watermark_literal-reads_back (record { format = λ x. []; parse = λ s. none }) (codes "O'Neil")
      (codes " LIMIT 1") (λ e. omega (arith, e))

-- The statement, byte for byte.
pg_upsert_text :
    pg_dialect.upsert (codes "app" ∷ codes "users" ∷ []) (codes "id" ∷ []) two_cols 2 numbered
    ≡ codes
        "INSERT INTO \"app\".\"users\" (\"id\", \"name\") VALUES ($1,$2),($3,$4) ON CONFLICT (\"id\") DO UPDATE SET \"name\" = excluded.\"name\""
unfolding upsert_on_conflict quote_double qualify join replace_all quoted_list values_clause
    numbered format_nat emit updates text_eq
pg_upsert_text = refl
