-- ===== src/Engine/Connected.antt =====
-- The connections of internal/connector as the engine's targets.
use replicron.Base.{◌≡◌, subst, some}
use replicron.Model.{ok}
use replicron.Connector.Dialect.{Dialect}
use replicron.Connector.Conn.{Driver, upsert_rows, insert_rows}
use replicron.Connector.Conn.Writes.{upsert_rows-counts, insert_rows-counts}
use replicron.Connector.Bulk.{Session, bulk_load}
use replicron.Connector.Bulk.Staging.{bulk_load-counts}
use replicron.Engine.Batch.{TargetConn}
use replicron.Engine.Batch.Accounting.{IsExact}

-- `sqlConn` as a `TargetConn`: every connection of the program is a `BulkLoader`.
abbrev pub sql_target : {D : Type 0} → Driver D → Session D → Dialect → TargetConn D
sql_target drv s c = record {
  upsert_rows = upsert_rows drv c;
  insert_rows = insert_rows drv c;
  bulk_load = some (bulk_load s c);
}

-- Whatever the dialect and the drivers, a connection of the program counts as the engine relies on: a write
-- that succeeds reports the number of the rows that it was given.
pub sql_target-IsExact :
    {D : Type 0} (drv : Driver D) (s : Session D) (c : Dialect) → IsExact (sql_target drv s c)
sql_target-IsExact drv s c = record {
  upserts = λ table keys cols rows d n h. upsert_rows-counts drv c table keys cols rows d n h;
  inserts = λ table cols rows d n h. insert_rows-counts drv c table cols rows d n h;
  bulks = λ load h table keys cols rows d n k.
      bulk_load-counts s c table keys cols rows d n
        (subst (λ f. (f table keys cols rows d).0 ≡ ok n) (some_eq h) k);
}
  where
    some_eq : {A : Type 0} {a b : A} → some a ≡ some b → b ≡ a
    some_eq e = cc e
