-- ===== src/Tests/Loads.antt =====
-- Bulk loads over a session that records its statements and refuses every copy.
use replicron.Base.{
  ℕ, sym, ap, ◌∙◌, append-nil, append_assoc, All, ◌≡◌, refl, Text, codes, List, [], ◌∷◌, ◌++◌, none,
  some, true,
}
use replicron.Model.{Value, Row, Result, driver, ok, err, int64}
use replicron.Base.Ints.{pos}
use replicron.Connector.Dialect.{pg_dialect}
use replicron.Connector.Conn.{Driver, row_args, flat_args}
use replicron.Engine.Page.{sorted_cols}
use replicron.Engine.Batch.Written.{put_all, IsFaithful}
use replicron.Engine.Faithful.{Executes, statement_of, sql_target-IsFaithful}
use replicron.Tests.Runs.{copy_users}
use replicron.Connector.Bulk.{Session, bulk_postgres, and_then}
use replicron.Connector.Bulk.Blocked.{KeepsStage, FailsLate, Fails, bulk_postgres-blocks_next}
use replicron.Base.{◌==◌, Bool, Option, if◌then◌else◌, false, inl}
use replicron.Model.{Error}
use replicron.Engine.Batch.Accounting.{IsExact}
use replicron.Engine.Connected.{sql_target, sql_target-IsExact}

abbrev pub recording : Session (List Text)
recording = record {
  conn = λ d. (none, d);
  close = λ d. d ++ codes "CLOSE" ∷ [];
  is_pgx = true;
  exec = λ q d. (none, d ++ q ∷ []);
  copy_from = λ table cols rows d. (some (driver (codes "bad copy")), d);
  prepare_copy = λ stage cols d. (none, d);
  send = λ vals d. (none, d);
  flush = λ d. (none, d);
  close_stmt = λ d. (none, d);
  unix_nano = λ d. 7;
}

abbrev pub quiet : Driver (List Text)
quiet = record {
  sql_open = λ driver dsn d. (none, d);
  ping = λ d. (none, d);
  close = λ d. d;
  query = λ q d. err (driver (codes "no rows"));
  exec = λ q args d. (ok tt, d ++ q ∷ []);
}

sql_target-IsExact_example : IsExact (sql_target quiet recording pg_dialect)
sql_target-IsExact_example = sql_target-IsExact quiet recording pg_dialect

abbrev silent : Session (List Value)
silent = record {
  conn = λ d. (none, d);
  close = λ d. d;
  is_pgx = true;
  exec = λ q d. (none, d);
  copy_from = λ table cols rows d. (none, d);
  prepare_copy = λ stage cols d. (none, d);
  send = λ vals d. (none, d);
  flush = λ d. (none, d);
  close_stmt = λ d. (none, d);
  unix_nano = λ d. 7;
}

-- A session that only knows whether the staging table is there: it goes by the first letter of a statement, a C
-- or a D, and refuses every copy.
abbrev on_exec : Text → Bool → Option Error × Bool
on_exec [] d = (none, d)
on_exec (c ∷ q) d =
    if c == 67
    then (if d then some (driver (codes "relation already exists")) else none, true)
    else (none, if c == 68 then false else d)

abbrev one_session : Session Bool
one_session = record {
  conn = λ d. (none, d);
  close = λ d. d;
  is_pgx = true;
  exec = on_exec;
  copy_from = λ table cols rows d. (some (driver (codes "bad copy")), d);
  prepare_copy = λ stage cols d. (none, d);
  send = λ vals d. (none, d);
  flush = λ d. (none, d);
  close_stmt = λ d. (none, d);
  unix_nano = λ d. 7;
}

one_session-KeepsStage : KeepsStage one_session (λ d. d ≡ true)
one_session-KeepsStage = record {
  created = λ parts cols d h. refl;
  refused = λ parts cols d h. rw h (driver (codes "relation already exists"), refl, refl);
  copy_keeps = λ table cols vals d h. h;
  merge_keeps = λ parts keys cols d h. h;
  conn_keeps = λ d h. h;
  close_keeps = λ d h. h;
}

abbrev one_load : Bool → Result ℕ × Bool
one_load d =
    bulk_postgres one_session (codes "users" ∷ []) (codes "id" ∷ []) (codes "id" ∷ [])
      (((codes "id", int64 (pos 1)) ∷ []) ∷ []) d

one_load-FailsLate : FailsLate (one_load false).0
unfolding bulk_postgres and_then
one_load-FailsLate = (driver (codes "bad copy"), inl refl)

bulk_postgres-blocks_next_example :
    let next = one_load (one_load false).1 in Fails next.0 × (next.1 ≡ true)
bulk_postgres-blocks_next_example =
    bulk_postgres-blocks_next one_session (λ d. d ≡ true) one_session-KeepsStage refl
      (codes "users" ∷ []) (codes "id" ∷ []) (codes "id" ∷ []) (codes "users" ∷ [])
      (codes "id" ∷ []) (codes "id" ∷ []) (((codes "id", int64 (pos 1)) ∷ []) ∷ [])
      (((codes "id", int64 (pos 1)) ∷ []) ∷ []) false refl refl refl one_load-FailsLate

-- A database that appends the arguments of each statement.
abbrev appending : Driver (List Value)
appending = record {
  sql_open = λ driver dsn d. (none, d);
  ping = λ d. (none, d);
  close = λ d. d;
  query = λ q d. err (driver (codes "no rows"));
  exec = λ q args d. (ok tt, d ++ args);
}

abbrev put_row : Row → List Value → List Value
put_row r d = d ++ row_args r (sorted_cols r)

put_all-put_row :
    (cols : List Text) (rows : List Row) (d : List Value)
    → All (λ r. sorted_cols r ≡ cols) rows
    → put_all {D = List Value} (λ d. d) put_row rows d ≡ d ++ flat_args cols rows
unfolding put_all flat_args
put_all-put_row cols [] d f = sym (append-nil d)
put_all-put_row cols (r ∷ rows) d (f, fs) =
    put_all-put_row cols rows (put_row r d) fs
    ∙ append_assoc d (row_args r (sorted_cols r)) (flat_args cols rows)
    ∙ ap (λ k. d ++ (row_args r k ++ flat_args cols rows)) f

appending-Executes :
    (build : List Text → ℕ → Result Text)
    → Executes {D = List Value} (λ d. d) put_row appending build
appending-Executes build = record {
  executed = λ cols rows d q b f h. sym (put_all-put_row cols rows d f);
  rejected = λ cols rows d q x h. absurd (cc h);
}

sql_target-IsFaithful_example :
    IsFaithful {D = List Value} (λ d. d) put_row copy_users (sql_target appending silent pg_dialect)
sql_target-IsFaithful_example =
    sql_target-IsFaithful (λ d. d) put_row appending silent pg_dialect copy_users refl
      (appending-Executes (statement_of pg_dialect copy_users))
