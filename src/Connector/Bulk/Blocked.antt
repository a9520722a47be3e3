-- ===== src/Connector/Bulk/Blocked.antt =====
-- internal/connector/postgres_bulk.go: the staging table that a failed bulk load of PostgreSQL leaves, and the loads behind it.
use replicron.Base.{ℕ, ◌≡◌, ◌⊎◌, refl, Text, List, Option, none, some, true, false, inl, inr}
use replicron.Model.{Value, Row, Error, Result, err, pg_staging, pg_copy, pg_merge}
use replicron.Config.{has_no_keys}
use replicron.Connector.Bulk.{
  Session, and_then, copied, pg_create, pg_merge_text, unwrapped, pg_staged, pg_raw, bulk_postgres,
}

-- What PostgreSQL and the pool do about a temporary table, where the pool gives the same session again and again:
-- it is there once its CREATE is accepted, which is refused while it is there; a COPY and an INSERT do not drop
-- it, and neither does the session's way out of the pool and back.
pub record KeepsStage {D : Type 0} (s : Session D) (HasStage : D → Type 0) : Type 0 where
  pub created :
      (parts cols : List Text) (d : D)
      → (s.exec (pg_create parts cols) d).0 ≡ none
      → HasStage (s.exec (pg_create parts cols) d).1
  pub refused :
      (parts cols : List Text) (d : D)
      → HasStage d
      → (e : Error) × ((s.exec (pg_create parts cols) d).0 ≡ some e)
        × HasStage (s.exec (pg_create parts cols) d).1
  pub copy_keeps :
      (table cols : List Text) (vals : List (List Value)) (d : D)
      → HasStage d
      → HasStage (s.copy_from table cols vals d).1
  pub merge_keeps :
      (parts keys cols : List Text) (d : D)
      → HasStage d
      → HasStage (s.exec (pg_merge_text parts keys cols) d).1
  pub conn_keeps : (d : D) → HasStage d → HasStage (s.conn d).1
  pub close_keeps : (d : D) → HasStage d → HasStage (s.close d)

-- A load that failed at the copy or at the merge.
abbrev pub FailsLate : Result ℕ → Type 0
FailsLate r = (e : Error) × ((r ≡ err (pg_copy e)) ⊎ (r ≡ err (pg_merge e)))

abbrev pub Fails : Result ℕ → Type 0
Fails r = (e : Error) × (r ≡ err e)

-- A step ends the load or is done.
and_then-family :
    {D : Type 0} (P : Result ℕ × D → Type 0) (o : Option Error × D) (wrap : Error → Error)
    (go : D → Result ℕ × D)
    → ((e : Error) → o.0 ≡ some e → P (err (wrap e), o.1))
    → (o.0 ≡ none → P (go o.1))
    → P (and_then o wrap go)
unfolding and_then
and_then-family P (some e, d) wrap go bad fine = bad e refl
and_then-family P (none, d) wrap go bad fine = fine refl

module _ {D : Type 0} (s : Session D) (HasStage : D → Type 0) (k : KeepsStage s HasStage)
    (pgx : s.is_pgx ≡ true) where
  Leaves : Result ℕ × D → Type 0
  Leaves o = FailsLate o.0 → HasStage o.1

  pg_staged-Leaves :
      (parts keys cols : List Text) (rows : List Row) (d : D)
      → Leaves (pg_staged s parts keys cols rows d)
  unfolding pg_staged copied Leaves
  pg_staged-Leaves parts keys cols rows d =
      and_then-family Leaves _ pg_staging _
        (λ e _ (x, h). elim h [ inl q ↦ absurd (cc q) | inr q ↦ absurd (cc q) ])
        (λ made.
          let there = k.created parts cols d made in
          let copied_there = k.copy_keeps _ cols _ _ there in
          and_then-family Leaves _ pg_copy _ (λ e _ _. copied_there)
            (λ _.
              and_then-family Leaves _ pg_merge _
                (λ e _ _. k.merge_keeps parts keys cols _ copied_there)
                (λ _ (x, h). elim h [ inl q ↦ absurd (cc q) | inr q ↦ absurd (cc q) ])))

  pg_raw-Leaves :
      (parts keys cols : List Text) (rows : List Row) (d : D)
      → has_no_keys keys ≡ false
      → Leaves (pg_raw s parts keys cols rows d)
  unfolding pg_raw
  pg_raw-Leaves parts keys cols rows d keyed =
      rw (pg_raw, pgx, keyed) (pg_staged-Leaves parts keys cols rows d)

  bulk_postgres-Leaves :
      (parts keys cols : List Text) (rows : List Row) (d : D)
      → has_no_keys keys ≡ false
      → (s.conn d).0 ≡ none
      → Leaves (bulk_postgres s parts keys cols rows d)
  unfolding bulk_postgres Leaves
  bulk_postgres-Leaves parts keys cols rows d keyed opened =
      and_then-family Leaves _ unwrapped _ (λ e bad. absurd (cc (opened, bad)))
        (λ _ late. k.close_keeps _ (pg_raw-Leaves parts keys cols rows (s.conn d).1 keyed late))

  Blocks : Result ℕ × D → Type 0
  Blocks o = Fails o.0 × HasStage o.1

  pg_staged-Blocks :
      (parts keys cols : List Text) (rows : List Row) (d : D)
      → HasStage d
      → Blocks (pg_staged s parts keys cols rows d)
  unfolding pg_staged Blocks
  pg_staged-Blocks parts keys cols rows d there =
      let (x, refused, still) = k.refused parts cols d there in
      and_then-family Blocks _ pg_staging _ (λ e _. ((pg_staging e, refl), still))
        (λ made. absurd (cc (made, refused)))

  bulk_postgres-Blocks :
      (parts keys cols : List Text) (rows : List Row) (d : D)
      → has_no_keys keys ≡ false
      → HasStage d
      → Blocks (bulk_postgres s parts keys cols rows d)
  unfolding bulk_postgres pg_raw Blocks
  bulk_postgres-Blocks parts keys cols rows d keyed there =
      and_then-family Blocks _ unwrapped _ (λ e _. ((e, refl), k.conn_keeps d there))
        (λ _.
          let (fails, still) =
            pg_staged-Blocks parts keys cols rows (s.conn d).1 (k.conn_keeps d there) in
          rw (pgx, keyed) (fails, k.close_keeps _ still))

  -- Over pgx, where the pool gives the same session again: when a bulk load with keys has got its connection and
  -- failed at the copy or at the merge, the next bulk load with keys, into whatever table and with whatever rows,
  -- fails too, and the staging table is still there behind it.
  pub bulk_postgres-blocks_next :
      (parts keys cols parts' keys' cols' : List Text) (rows rows' : List Row) (d : D)
      → has_no_keys keys ≡ false
      → has_no_keys keys' ≡ false
      → (s.conn d).0 ≡ none
      → FailsLate (bulk_postgres s parts keys cols rows d).0
      → let next =
          bulk_postgres s parts' keys' cols' rows' (bulk_postgres s parts keys cols rows d).1 in
        Fails next.0 × HasStage next.1
  unfolding Leaves Blocks
  bulk_postgres-blocks_next parts keys cols parts' keys' cols' rows rows' d keyed keyed' opened
        late =
      bulk_postgres-Blocks parts' keys' cols' rows' _ keyed'
        (bulk_postgres-Leaves parts keys cols rows d keyed opened late)
