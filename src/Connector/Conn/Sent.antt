-- ===== src/Connector/Conn/Sent.antt =====
-- The three ways of `UpsertRows` and `InsertRows`: no rows, no statement, or one statement.
use replicron.Base.{ℕ, ◌≡◌, refl, Text, List, [], ◌∷◌, length}
use replicron.Model.{Row, Error, Result, ok, err, upsert_failed, insert_failed}
use replicron.Connector.Dialect.{Dialect}
use replicron.Connector.Conn.{
  Driver, flat_args, exec_rows, upsert_statement, upsert_rows, insert_statement, insert_rows,
}
use replicron.Connector.Conn.Writes.{sent}

module _ {D : Type 0} (drv : Driver D) where
  -- What a write of the rows comes to, with the statement that was built for them.
  pub data Wrote (build : Result Text) (cols : List Text) (rows : List Row) (d : D)
      (out : Result ℕ × D) : Type 0 where
    no_rows : rows ≡ [] → out ≡ (ok 0, d) → Wrote build cols rows d out
    not_built : (e : Error) → build ≡ err e → out ≡ (err e, d) → Wrote build cols rows d out
    was_sent :
        (q : Text) (wrap : Error → Error)
        → build ≡ ok q
        → out ≡ sent wrap (length rows) (drv.exec q (flat_args cols rows) d)
        → Wrote build cols rows d out

  module _ (c : Dialect) where
    exec_rows-Wrote :
        (wrap : Error → Error) (build : Result Text) (cols : List Text) (rows : List Row) (d : D)
        → Wrote build cols rows d (exec_rows drv c wrap build cols rows d)
    unfolding exec_rows
    exec_rows-Wrote wrap (err e) cols rows d = not_built e refl refl
    exec_rows-Wrote wrap (ok q) cols rows d = was_sent q wrap refl refl

    pub upsert_rows-Wrote :
        (table : Text) (keys cols : List Text) (rows : List Row) (d : D)
        → Wrote
            (upsert_statement c table keys cols (length rows))
            cols
            rows
            d
            (upsert_rows drv c table keys cols rows d)
    unfolding upsert_rows
    upsert_rows-Wrote table keys cols [] d = no_rows refl refl
    upsert_rows-Wrote table keys cols (r ∷ rows) d =
        exec_rows-Wrote (upsert_failed c.name table)
          (upsert_statement c table keys cols (length (r ∷ rows))) cols (r ∷ rows) d

    pub insert_rows-Wrote :
        (table : Text) (cols : List Text) (rows : List Row) (d : D)
        → Wrote
            (insert_statement c table cols (length rows))
            cols
            rows
            d
            (insert_rows drv c table cols rows d)
    unfolding insert_rows
    insert_rows-Wrote table cols [] d = no_rows refl refl
    insert_rows-Wrote table cols (r ∷ rows) d =
        exec_rows-Wrote (insert_failed c.name table)
          (insert_statement c table cols (length (r ∷ rows))) cols (r ∷ rows) d
