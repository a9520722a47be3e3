-- ===== src/Connector/Bulk/Staging.antt =====
-- What a bulk load counts.
use replicron.Base.{
  ℕ, ◌≡◌, Text, codes, List, [], ◌∷◌, ◌++◌, length, Option, none, some, Bool-cases, inl, inr,
  text_eq,
}
use replicron.Model.{
  Row, Error, Result, ok, err, pg_staging, pg_copy, pg_merge, bulk_unsupported, mssql_staging,
  mssql_prepare, mssql_close, mssql_apply,
}
use replicron.Base.Decimal.{format_nat}
use replicron.Config.{has_no_keys}
use replicron.Connector.Dialect.{Dialect}
use replicron.Connector.Bulk.{
  Session, and_then, deferred, pg_drop, mssql_drop, unwrapped, pg_staged, pg_raw, bulk_postgres,
  mssql_staged, bulk_sqlserver, bulk_native, checked_parts, bulk_checked, bulk_load,
}

-- A success reports `n` rows.
record CountsTo {D : Type 0} (n : ℕ) (o : Result ℕ × D) : Type 0 where
  counts : (k : ℕ) → o.0 ≡ ok k → k ≡ n

and_then-CountsTo :
    {D : Type 0} (n : ℕ) (o : Option Error × D) (wrap : Error → Error) (go : D → Result ℕ × D)
    → ((d : D) → CountsTo n (go d))
    → CountsTo n (and_then o wrap go)
unfolding and_then
and_then-CountsTo n (some e, d) wrap go h = record { counts = λ k eq. absurd (cc eq) }
and_then-CountsTo n (none, d) wrap go h = h d

deferred-CountsTo :
    {D : Type 0} (n : ℕ) (f : D → D) (o : Result ℕ × D) → CountsTo n o → CountsTo n (deferred f o)
deferred-CountsTo n f (r, d) h = record { counts = h.counts }

ok-CountsTo : {D : Type 0} (n : ℕ) (d : D) → CountsTo n (ok n, d)
ok-CountsTo n d = record { counts = λ k eq. cc eq }

err-CountsTo : {D : Type 0} (n : ℕ) (e : Error) (d : D) → CountsTo n (err e, d)
err-CountsTo n e d = record { counts = λ k eq. absurd (cc eq) }

module _ {D : Type 0} (s : Session D) where
  pg_staged-CountsTo :
      (parts keys cols : List Text) (rows : List Row) (d : D)
      → CountsTo (length rows) (pg_staged s parts keys cols rows d)
  unfolding pg_staged
  pg_staged-CountsTo parts keys cols rows d = and_then-CountsTo (length rows) _ pg_staging _ (λ d1.
      and_then-CountsTo (length rows) _ pg_copy _ (λ d2.
        and_then-CountsTo (length rows) _ pg_merge _
          (λ d3. ok-CountsTo (length rows) (s.exec pg_drop d3).1)))

  pg_raw-CountsTo :
      (parts keys cols : List Text) (rows : List Row) (d : D)
      → CountsTo (length rows) (pg_raw s parts keys cols rows d)
  unfolding pg_raw
  pg_raw-CountsTo parts keys cols rows d = elim (Bool-cases s.is_pgx) [
    | inr other ↦ rw (other, pg_raw) (err-CountsTo (length rows) bulk_unsupported d)
    | inl pgx ↦ elim (Bool-cases (has_no_keys keys)) [
      | inl empty ↦
          rw (pgx, pg_raw)
            (rw empty
              (and_then-CountsTo (length rows) _ pg_copy _ (λ d1. ok-CountsTo (length rows) d1)))
      | inr keyed ↦ rw (pgx, pg_raw) (rw keyed (pg_staged-CountsTo parts keys cols rows d))
    ]
  ]

  bulk_postgres-CountsTo :
      (parts keys cols : List Text) (rows : List Row) (d : D)
      → CountsTo (length rows) (bulk_postgres s parts keys cols rows d)
  unfolding bulk_postgres
  bulk_postgres-CountsTo parts keys cols rows d =
      and_then-CountsTo (length rows) _ unwrapped _
        (λ d1. deferred-CountsTo (length rows) s.close _ (pg_raw-CountsTo parts keys cols rows d1))

  mssql_staged-CountsTo :
      (stage : Text) (parts keys cols : List Text) (rows : List Row) (d : D)
      → CountsTo (length rows) (mssql_staged s stage parts keys cols rows d)
  unfolding mssql_staged
  mssql_staged-CountsTo stage parts keys cols rows d =
      and_then-CountsTo (length rows) _ mssql_prepare _ (λ d1.
        and_then-CountsTo (length rows) _ unwrapped _ (λ d2.
          and_then-CountsTo (length rows) _ unwrapped _ (λ d3.
            and_then-CountsTo (length rows) _ mssql_close _ (λ d4.
              and_then-CountsTo (length rows) _ mssql_apply _
                (λ d5. ok-CountsTo (length rows) d5)))))

  bulk_sqlserver-CountsTo :
      (parts keys cols : List Text) (rows : List Row) (d : D)
      → CountsTo (length rows) (bulk_sqlserver s parts keys cols rows d)
  unfolding bulk_sqlserver
  bulk_sqlserver-CountsTo parts keys cols rows d =
      let stage : Text = codes "#replicron_bulk_" ++ format_nat (s.unix_nano d) in
      and_then-CountsTo (length rows) _ unwrapped _ (λ d1.
        deferred-CountsTo (length rows) s.close _ (
          and_then-CountsTo (length rows) _ mssql_staging _ (λ d2.
            deferred-CountsTo (length rows) (λ d3. (s.exec (mssql_drop stage) d3).1) _
              (mssql_staged-CountsTo _ parts keys cols rows d2))))

  bulk_native-CountsTo :
      (name : Text) (parts keys cols : List Text) (rows : List Row) (d : D)
      → CountsTo (length rows) (bulk_native s name parts keys cols rows d)
  unfolding bulk_native
  bulk_native-CountsTo name parts keys cols rows d =
      elim (Bool-cases (text_eq name (codes "postgres"))) [
        | inl pg ↦ rw (pg, bulk_native) (bulk_postgres-CountsTo parts keys cols rows d)
        | inr rest ↦ elim (Bool-cases (text_eq name (codes "sqlserver"))) [
          | inl ms ↦ rw (rest, bulk_native) (rw ms (bulk_sqlserver-CountsTo parts keys cols rows d))
          | inr other ↦
              rw (rest, bulk_native) (rw other (err-CountsTo (length rows) bulk_unsupported d))
        ]
      ]

  bulk_checked-CountsTo :
      (name : Text) (parts : Result (List Text)) (keys cols : List Text) (rows : List Row) (d : D)
      → CountsTo (length rows) (bulk_checked s name parts keys cols rows d)
  unfolding bulk_checked
  bulk_checked-CountsTo name (err e) keys cols rows d = err-CountsTo (length rows) e d
  bulk_checked-CountsTo name (ok parts) keys cols rows d =
      bulk_native-CountsTo name parts keys cols rows d

  -- A bulk load that succeeds, by whatever way its dialect has, reports the number of the rows that it
  -- was given.
  pub bulk_load-counts :
      (c : Dialect) (table : Text) (keys cols : List Text) (rows : List Row) (d : D) (k : ℕ)
      → (bulk_load s c table keys cols rows d).0 ≡ ok k
      → k ≡ length rows
  unfolding bulk_load
  bulk_load-counts c table keys cols [] d k h = cc h
  bulk_load-counts c table keys cols (r ∷ rows) d k h =
      let all =
        bulk_checked-CountsTo c.name (checked_parts s table keys cols) keys cols (r ∷ rows) d in
      all.counts k h
