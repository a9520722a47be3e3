-- ===== src/Engine/Faithful.antt =====
-- The connections of internal/connector over a database that executes the statements of a task.
use replicron.Base.{
  All, ℕ, ◌≡◌, refl, sym, ap, ◌∙◌, Text, codes, List, length, false, Bool-cases, inl, inr, text_eq,
  if◌then◌else◌,
}
use replicron.Model.{Row, Error, Result, ok, err, Result-cases, ok-injective}
use replicron.Config.{Task}
use replicron.Connector.Dialect.{Dialect}
use replicron.Connector.Conn.{Driver, flat_args, upsert_statement, insert_statement}
use replicron.Connector.Conn.Sent.{Wrote, upsert_rows-Wrote, insert_rows-Wrote}
use replicron.Connector.Bulk.{Session}
use replicron.Engine.Page.{sorted_cols}
use replicron.Engine.Batch.{write_chunk}
use replicron.Engine.Batch.Written.{put_all, IsFaithful}
use replicron.Engine.Connected.{sql_target}

-- The statement for so many rows of a task.
abbrev pub statement_of : Dialect → Task → List Text → ℕ → Result Text
statement_of c t cols n =
    if text_eq t.target.mode (codes "insert")
    then insert_statement c t.target.table cols n
    else upsert_statement c t.target.table t.target.keys cols n

module _ {D S : Type 0} (content : D → S) (put : Row → S → S) (drv : Driver D) where
  -- The database executes the statement that `build` makes for rows of these columns as putting all of them, or
  -- refuses it and changes nothing.
  pub record Executes (build : List Text → ℕ → Result Text) : Type 0 where
    pub executed :
        (cols : List Text) (rows : List Row) (d : D) (q : Text)
        → build cols (length rows) ≡ ok q
        → All (λ r. sorted_cols r ≡ cols) rows
        → (drv.exec q (flat_args cols rows) d).0 ≡ ok tt
        → content (drv.exec q (flat_args cols rows) d).1 ≡ put_all content put rows (content d)
    pub rejected :
        (cols : List Text) (rows : List Row) (d : D) (q : Text) (x : Error)
        → (drv.exec q (flat_args cols rows) d).0 ≡ err x
        → content (drv.exec q (flat_args cols rows) d).1 ≡ content d

  module _ (build : List Text → ℕ → Result Text) (executes : Executes build) where
    Wrote-done :
        (cols : List Text) (rows : List Row) (d : D) (out : Result ℕ × D) (n : ℕ)
        → Wrote drv (build cols (length rows)) cols rows d out
        → All (λ r. sorted_cols r ≡ cols) rows
        → out.0 ≡ ok n
        → (n ≡ length rows) × (content out.1 ≡ put_all content put rows (content d))
    unfolding put_all
    Wrote-done cols rows d out n (Wrote.no_rows empty e) f h =
        rw (empty, e) (cc (ap (λ (x : Result ℕ × D). x.0) (sym e) ∙ h), refl)
    Wrote-done cols rows d out n (Wrote.not_built x b e) f h =
        absurd (cc (ap (λ (o : Result ℕ × D). o.0) (sym e) ∙ h))
    Wrote-done cols rows d out n (Wrote.was_sent q wrap b e) f h =
        elim (Result-cases (drv.exec q (flat_args cols rows) d).0) [
          | inl (u, fine) ↦
              let made = executes.executed cols rows d q b f fine in
              let counted : ok (length rows) ≡ ok n =
                rw fine at (ap (λ (o : Result ℕ × D). o.0) (sym e) ∙ h) in
              (sym (ok-injective counted), ap (λ (o : Result ℕ × D). content o.1) e ∙ rw fine made)
          | inr (x, bad) ↦ absurd (cc (rw bad at (ap (λ (o : Result ℕ × D). o.0) (sym e) ∙ h)))
        ]

    Wrote-refused :
        (cols : List Text) (rows : List Row) (d : D) (out : Result ℕ × D) (x : Error)
        → Wrote drv (build cols (length rows)) cols rows d out
        → out.0 ≡ err x
        → content out.1 ≡ content d
    Wrote-refused cols rows d out x (Wrote.no_rows empty e) h =
        ap (λ (o : Result ℕ × D). content o.1) e
    Wrote-refused cols rows d out x (Wrote.not_built y b e) h =
        ap (λ (o : Result ℕ × D). content o.1) e
    Wrote-refused cols rows d out x (Wrote.was_sent q wrap b e) h =
        elim (Result-cases (drv.exec q (flat_args cols rows) d).0) [
          | inl (u, fine) ↦ absurd (cc (rw fine at (ap (λ (o : Result ℕ × D). o.0) (sym e) ∙ h)))
          | inr (y, bad) ↦
              ap (λ (o : Result ℕ × D). content o.1) e
              ∙ rw bad (executes.rejected cols rows d q y bad)
        ]

  write_chunk-Wrote :
      (s : Session D) (c : Dialect) (t : Task) (cols : List Text) (rows : List Row) (d : D)
      → Wrote drv
          (statement_of c t cols (length rows))
          cols
          rows
          d
          (write_chunk (sql_target drv s c) t cols rows d)
  unfolding write_chunk
  write_chunk-Wrote s c t cols rows d = elim (Bool-cases (text_eq t.target.mode (codes "insert"))) [
    | inl ins ↦ simp ins (insert_rows-Wrote drv c t.target.table cols rows d)
    | inr ups ↦ simp ups (upsert_rows-Wrote drv c t.target.table t.target.keys cols rows d)
  ]

  -- Over a database that executes the statement of the task's mode as putting all its rows, or refuses it and
  -- changes nothing, a connection of the program fulfils the engine's contract on the rows in the target, for
  -- a task without bulk loads.
  pub sql_target-IsFaithful :
      (s : Session D) (c : Dialect) (t : Task)
      → t.target.bulk ≡ false
      → Executes (statement_of c t)
      → IsFaithful content put t (sql_target drv s c)
  sql_target-IsFaithful s c t off executes = record {
    writes = λ cols. record {
      done = λ rows d n f h.
          Wrote-done (statement_of c t) executes cols rows d
            (write_chunk (sql_target drv s c) t cols rows d) n (write_chunk-Wrote s c t cols rows d)
            f h;
      refused = λ rows d x h.
          Wrote-refused (statement_of c t) executes cols rows d
            (write_chunk (sql_target drv s c) t cols rows d) x (write_chunk-Wrote s c t cols rows d)
            h;
    };
    bulks = λ on load h cols. absurd (cc (sym on ∙ off));
  }
