-- ===== src/Connector/Dialect.antt =====
-- internal/connector: the four dialects (postgres.go, mysql.go, sqlite.go, sqlserver.go) and the choice
-- of one by the type of an endpoint (connector.go).
use replicron.Base.{ℕ, ◌+◌, Text, codes, List, ◌++◌, text_eq, if◌then◌else◌}
use replicron.Base.Decimal.{format_nat}
use replicron.Model.{Result, ok, err, unsupported_type}
use replicron.Connector.Sql.{
  quote_double, quote_backtick, quote_bracket, insert_with, upsert_on_conflict, upsert_mysql,
  merge_mssql,
}

-- `dialect`
pub record Dialect : Type 0 where
  pub name : Text
  pub driver : Text
  pub ph : ℕ → Text
  pub upsert : List Text → List Text → List Text → ℕ → (ℕ → Text) → Text
  pub insert : List Text → List Text → ℕ → (ℕ → Text) → Text

-- `$1`, `$2`, … for the parameters 0, 1, …
unfoldable pub numbered : ℕ → Text
numbered i = codes "$" ++ format_nat (i + 1)

unfoldable pub question_mark : ℕ → Text
question_mark i = codes "?"

abbrev pub pg_dialect : Dialect
pg_dialect = record {
  name = codes "postgres";
  driver = codes "pgx";
  ph = numbered;
  upsert = upsert_on_conflict quote_double;
  insert = insert_with quote_double;
}

abbrev pub mysql_dialect : Dialect
mysql_dialect = record {
  name = codes "mysql";
  driver = codes "mysql";
  ph = question_mark;
  upsert = upsert_mysql;
  insert = insert_with quote_backtick;
}

abbrev pub sqlite_dialect : Dialect
sqlite_dialect = record {
  name = codes "sqlite";
  driver = codes "sqlite";
  ph = numbered;
  upsert = upsert_on_conflict quote_double;
  insert = insert_with quote_double;
}

abbrev pub mssql_dialect : Dialect
mssql_dialect = record {
  name = codes "sqlserver";
  driver = codes "sqlserver";
  ph = question_mark;
  upsert = merge_mssql;
  insert = insert_with quote_bracket;
}

-- `open`, without the data source name, which goes with the dialect unchanged.
unfoldable pub open_dialect : Text → Result Dialect
open_dialect typ =
    if text_eq typ (codes "postgres")
    then ok pg_dialect
    else if text_eq typ (codes "mysql")
    then ok mysql_dialect
    else if text_eq typ (codes "sqlite")
    then ok sqlite_dialect
    else if text_eq typ (codes "sqlserver")
    then ok mssql_dialect
    else err (unsupported_type typ)
