-- ===== src/Connector/Bulk.antt =====
-- internal/connector: `BulkLoad` (bulk.go) over PostgreSQL's COPY (postgres_bulk.go) and SQL Server's bulk
-- copy (sqlserver_bulk.go). The pool, the pgx connection and the SQL Server driver are a parameter,
-- `Session`.
pub mod Staging
pub mod Blocked
use replicron.Base.{
  ℕ, Text, codes, List, [], ◌∷◌, ◌++◌, map, length, Option, none, some, Bool, true, false, text_eq,
  if◌then◌else◌,
}
use replicron.Base.Decimal.{format_nat}
use replicron.Model.{
  Value, Row, Error, Result, ok, err, bulk_unsupported, pg_staging, pg_copy, pg_merge,
  mssql_staging, mssql_prepare, mssql_send, mssql_flush, mssql_close, mssql_apply, ◌>>=◌, ◌>>◌,
}
use replicron.Config.{has_no_keys}
use replicron.Connector.Ident.{split_table_path, validate_columns}
use replicron.Connector.Sql.{
  quote_double, quote_bracket, qualify, quoted_list, conflict_sets, merge_from_stage,
}
use replicron.Connector.Dialect.{Dialect}
use replicron.Connector.Conn.{row_args}

-- One connection out of the pool, over the state `D` of pool and database.
pub record Session (D : Type 0) : Type 0 where
  pub conn : D → Option Error × D
  pub close : D → D
  -- the driver's connection is pgx's
  pub is_pgx : Bool
  pub exec : Text → D → Option Error × D
  -- `CopyFrom`, into the table with those identifiers
  pub copy_from : List Text → List Text → List (List Value) → D → Option Error × D
  -- `PrepareContext` of `mssql.CopyIn`, the statement's `ExecContext` with and without values, and `Close`
  pub prepare_copy : Text → List Text → D → Option Error × D
  pub send : List Value → D → Option Error × D
  pub flush : D → Option Error × D
  pub close_stmt : D → Option Error × D
  -- `time.Now().UnixNano()`
  pub unix_nano : D → ℕ

-- A step, whose error ends the load.
unfoldable pub and_then :
    {D : Type 0} → Option Error × D → (Error → Error) → (D → Result ℕ × D) → Result ℕ × D
and_then (some e, d) wrap go = (err (wrap e), d)
and_then (none, d) wrap go = go d

-- What is run in any case, behind the result.
abbrev deferred : {D : Type 0} → (D → D) → Result ℕ × D → Result ℕ × D
deferred f (r, d) = (r, f d)

abbrev unwrapped : Error → Error
unwrapped e = e

abbrev pub pg_stage : Text
pg_stage = codes "_replicron_bulk_stage"

abbrev pub pg_create : List Text → List Text → Text
pg_create parts cols =
    codes "CREATE TEMP TABLE "
    ++ (quote_double pg_stage
        ++ (codes " AS SELECT "
            ++ (quoted_list cols quote_double
                ++ (codes " FROM " ++ (qualify parts quote_double ++ codes " WITH NO DATA")))))

abbrev pg_merge_text : List Text → List Text → List Text → Text
pg_merge_text parts keys cols =
    let list = quoted_list cols quote_double in
    codes "INSERT INTO "
    ++ (qualify parts quote_double
        ++ (codes " ("
            ++ (list
                ++ (codes ") SELECT "
                    ++ (list
                        ++ (codes " FROM "
                            ++ (quote_double pg_stage
                                ++ (codes " ON CONFLICT ("
                                    ++ (quoted_list keys quote_double
                                        ++ (codes ") DO UPDATE SET "
                                            ++ conflict_sets keys cols quote_double))))))))))

abbrev pub pg_drop : Text
pg_drop = codes "DROP TABLE " ++ quote_double pg_stage

abbrev mssql_create : Text → List Text → List Text → Text
mssql_create stage parts cols =
    codes "SELECT TOP 0 "
    ++ (quoted_list cols quote_bracket
        ++ (codes " INTO "
            ++ (quote_bracket stage ++ (codes " FROM " ++ qualify parts quote_bracket))))

abbrev mssql_drop : Text → Text
mssql_drop stage =
    codes "IF OBJECT_ID('tempdb.."
    ++ (stage ++ (codes "') IS NOT NULL DROP TABLE " ++ quote_bracket stage))

abbrev mssql_final : Text → List Text → List Text → List Text → Text
mssql_final stage parts keys cols =
    let list = quoted_list cols quote_bracket in
    if has_no_keys keys
    then codes "INSERT INTO "
      ++ (qualify parts quote_bracket
          ++ (codes " ("
              ++ (list
                  ++ (codes ") SELECT " ++ (list ++ (codes " FROM " ++ quote_bracket stage))))))
    else merge_from_stage parts stage keys cols

module _ {D : Type 0} (s : Session D) where
  -- The rows that `rowCopySource` gives.
  copied : List Text → List Text → List Row → D → Option Error × D
  copied table cols rows d = s.copy_from table cols (map (λ r. row_args r cols) rows) d

  pg_staged : List Text → List Text → List Text → List Row → D → Result ℕ × D
  unfolding copied
  pg_staged parts keys cols rows d = and_then (s.exec (pg_create parts cols) d) pg_staging (λ d1.
      and_then (copied (pg_stage ∷ []) cols rows d1) pg_copy (λ d2.
        and_then (s.exec (pg_merge_text parts keys cols) d2) pg_merge
          (λ d3. (ok (length rows), (s.exec pg_drop d3).1))))

  -- The function that `conn.Raw` runs.
  pg_raw : List Text → List Text → List Text → List Row → D → Result ℕ × D
  unfolding pg_staged
  pg_raw parts keys cols rows d =
      if s.is_pgx
      then (if has_no_keys keys
          then and_then (copied parts cols rows d) pg_copy (λ d1. (ok (length rows), d1))
          else pg_staged parts keys cols rows d)
      else (err bulk_unsupported, d)

  -- `bulkPostgres`
  unfoldable pub bulk_postgres : List Text → List Text → List Text → List Row → D → Result ℕ × D
  unfolding pg_raw
  bulk_postgres parts keys cols rows d =
      and_then (s.conn d) unwrapped (λ d1. deferred s.close (pg_raw parts keys cols rows d1))

  -- The loop over the rows: the first error, behind which the statement is closed.
  send_rows : List Text → List Row → D → Option Error × D
  send_rows cols [] d = (none, d)
  send_rows cols (r ∷ rows) d =
      let (e, d1) = s.send (row_args r cols) d in
      elim e [ some x ↦ (some (mssql_send x), (s.close_stmt d1).1) | none ↦ send_rows cols rows d1 ]

  flush_rows : D → Option Error × D
  flush_rows d =
      let (e, d1) = s.flush d in
      elim e [ some x ↦ (some (mssql_flush x), (s.close_stmt d1).1) | none ↦ (none, d1) ]

  mssql_staged : Text → List Text → List Text → List Text → List Row → D → Result ℕ × D
  unfolding send_rows flush_rows
  mssql_staged stage parts keys cols rows d =
      and_then (s.prepare_copy stage cols d) mssql_prepare (λ d1.
        and_then (send_rows cols rows d1) unwrapped (λ d2. and_then (flush_rows d2) unwrapped (λ d3.
          and_then (s.close_stmt d3) mssql_close (λ d4.
            and_then (s.exec (mssql_final stage parts keys cols) d4) mssql_apply
              (λ d5. (ok (length rows), d5))))))

  -- `bulkSQLServer`: the deferred drop, then the deferred close.
  unfoldable pub bulk_sqlserver : List Text → List Text → List Text → List Row → D → Result ℕ × D
  unfolding mssql_staged
  bulk_sqlserver parts keys cols rows d =
      let stage = codes "#replicron_bulk_" ++ format_nat (s.unix_nano d) in
      and_then (s.conn d) unwrapped (λ d1. deferred s.close (
        and_then (s.exec (mssql_create stage parts cols) d1) mssql_staging (λ d2.
          deferred (λ d3. (s.exec (mssql_drop stage) d3).1)
            (mssql_staged stage parts keys cols rows d2))))

  bulk_native : Text → List Text → List Text → List Text → List Row → D → Result ℕ × D
  bulk_native name parts keys cols rows d =
      if text_eq name (codes "postgres")
      then bulk_postgres parts keys cols rows d
      else if text_eq name (codes "sqlserver")
      then bulk_sqlserver parts keys cols rows d
      else (err bulk_unsupported, d)

  -- The parts of the table's name, where all names are accepted.
  abbrev checked_parts : Text → List Text → List Text → Result (List Text)
  checked_parts table keys cols = do
    parts ← split_table_path table
    validate_columns cols
    validate_columns keys
    ok parts

  bulk_checked : Text → Result (List Text) → List Text → List Text → List Row → D → Result ℕ × D
  unfolding bulk_native
  bulk_checked name (err e) keys cols rows d = (err e, d)
  bulk_checked name (ok parts) keys cols rows d = bulk_native name parts keys cols rows d

  -- `BulkLoad`
  unfoldable pub bulk_load : Dialect → Text → List Text → List Text → List Row → D → Result ℕ × D
  unfolding bulk_checked
  bulk_load c table keys cols [] d = (ok 0, d)
  bulk_load c table keys cols (r ∷ rows) d =
      bulk_checked c.name (checked_parts table keys cols) keys cols (r ∷ rows) d
