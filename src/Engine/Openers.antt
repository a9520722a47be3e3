-- ===== src/Engine/Openers.antt =====
-- internal/connector/connector.go: `OpenSource` and `OpenTarget`; internal/engine/engine.go: `New`, which
-- gives them to the engine.
use replicron.Base.{◌≡◌, Text, Option, none, some, subst}
use replicron.Model.{Error, Result, ok, err, ok-injective}
use replicron.Registry.{Token, Registry, acquire, release}
use replicron.Runlog.Watermark.{FloatText}
use replicron.Connector.Dialect.{Dialect, open_dialect}
use replicron.Connector.Conn.{Driver, connect}
use replicron.Connector.Conn.Paging.{source_pages}
use replicron.Connector.Bulk.{Session}
use replicron.Engine.Batch.{TargetConn}
use replicron.Engine.Batch.Accounting.{IsExact}
use replicron.Engine.Connected.{sql_target, sql_target-IsExact}
use replicron.Engine.Run.{SourceConn, Engine}
use replicron.Engine.Run.Outcome.{OpensExact}

-- What lies behind `database/sql`: the drivers, and the source databases, which a run only reads.
pub record Drivers (S D : Type 0) : Type 0 where
  pub source : Driver S
  pub source_db : S
  pub target : Driver D
  pub session : Session D
  pub floats : FloatText

-- The connection, or the error of `Connect`; the `Close` behind that error finds nothing to close.
abbrev connected : {C D : Type 0} → C → Option Error × D → Result C × D
connected c (none, d) = (ok c, d)
connected c (some e, d) = (err e, d)

module _ {S D : Type 0} (v : Drivers S D) where
  dial_target : Text → Result Dialect → D → Result (TargetConn D) × D
  dial_target dsn (err e) d = (err e, d)
  dial_target dsn (ok c) d = connected (sql_target v.target v.session c) (connect v.target c dsn d)

  -- `OpenTarget`
  unfoldable pub open_target : Text → Text → D → Result (TargetConn D) × D
  unfolding dial_target
  open_target typ dsn d = dial_target dsn (open_dialect typ) d

  dial_source : Text → Result Dialect → Result SourceConn
  dial_source dsn (err e) = err e
  dial_source dsn (ok c) =
      let (r, s) = connect v.source c dsn v.source_db in
      (connected (λ query size. source_pages c.name (v.source.query query s) size) (r, s)).0

  -- `OpenSource`, with the pages that its `Stream` hands over.
  unfoldable pub open_source : Text → Text → Result SourceConn
  unfolding dial_source
  open_source typ dsn = dial_source dsn (open_dialect typ)

  -- `New`: the engine over the in-process registry.
  abbrev pub new_engine : Engine Registry Token D
  new_engine = record {
    reg = record { acquire = acquire; release = λ k. release (some k); renew = none };
    source_of = open_source;
    target_of = open_target;
    floats = v.floats;
  }

  connected-IsExact :
      (c tgt : TargetConn D) (r : Option Error × D)
      → IsExact c
      → (connected c r).0 ≡ ok tgt
      → IsExact tgt
  connected-IsExact c tgt (none, d) x h = subst IsExact (ok-injective h) x
  connected-IsExact c tgt (some e, d) x h = absurd (cc h)

  dial_target-IsExact :
      (dsn : Text) (c : Result Dialect) (d : D) (tgt : TargetConn D)
      → (dial_target dsn c d).0 ≡ ok tgt
      → IsExact tgt
  unfolding dial_target
  dial_target-IsExact dsn (err e) d tgt h = absurd (cc h)
  dial_target-IsExact dsn (ok c) d tgt h =
      connected-IsExact (sql_target v.target v.session c) tgt (connect v.target c dsn d)
        (sql_target-IsExact v.target v.session c) h

  -- Every target that the program's engine opens counts what it writes.
  pub new_engine-OpensExact : OpensExact new_engine
  unfolding open_target
  new_engine-OpensExact = record {
    exact = λ typ dsn d tgt h. dial_target-IsExact dsn (open_dialect typ) d tgt h;
  }
