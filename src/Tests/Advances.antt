-- ===== src/Tests/Advances.antt =====
-- An incremental run of three rows to its end.
use replicron.Base.{
  concat, ◌≡◌, refl, sym, ◌∙◌, ◌++◌, append-nil, append_assoc, Bool-cases, inl, inr, ltb, length,
  Text, codes, text_eq, lookup, List, [], ◌∷◌, Option, none, some, Bool, true, All, subst,
}
use replicron.Base.Ints.{ℤ}
use replicron.Base.Strings.{contains, replace_all}
use replicron.Model.{int64, Row, succeeded, RunResult, ok, ok-injective}
use replicron.Config.{Incremental}
use replicron.Connector.Conn.{get_value}
use replicron.Connector.Conn.Paging.{deliver}
use replicron.Connector.Ident.{is_identifier, validate_columns}
use replicron.Registry.{Registry, acquire}
use replicron.Runlog.Statements.{start_run, insert_run, statement}
use replicron.Runlog.Watermark.{get_watermark, decode_row}
use replicron.Engine.Watermark.{
  observe, observe_value, observe_present, watermark_greater, compare_numbers, as_int64,
}
use replicron.Engine.Watermark.Orderings.{integers}
use replicron.Engine.Watermark.Maximum.{value_of}
use replicron.Engine.Batch.{
  clamp_batch, row_written, write_chunk, write_rows, write_or_degrade, put_chunk, put_chunks,
  put_page,
}
use replicron.Engine.Page.{
  callback, split_outcome, on_page, check_page, sorted_cols, sort, insert_sorted, check_first,
  check_keys, check_column, check_widths, page_checked, observe_page, page_observed, page_written,
  page_done,
}
use replicron.Engine.Run.{
  World, SourceConn, new_result, run_task, run_acquired, run_body, with_source, with_target,
  prepare_query, prepare_incremental, prepared, stream_run, conclude, settle, finish,
}
use replicron.Engine.Run.Outcome.{run_task-IsOutcome}
use replicron.Engine.Run.Watermarks.Tracked.{rows_of, IsAdvance, run_task-IsAdvance}
use replicron.Engine.Batch.Written.{put_all, IsAtomic, IsFaithful}
use replicron.Engine.Run.Replicated.{IsReplica, run_task-IsReplica}
use replicron.Tests.Runs.{
  single_write, single_target, copy_users, test_engine, test_engine-OpensExact, empty_log, idle,
}

unfoldable pub or_default : {A : Type 0} → Option A → A → A
or_default none d = d
or_default (some a) d = a

pub or_default-some : {A : Type 0} (m : Option A) (d a : A) → m ≡ some a → m ≡ some (or_default m d)
unfolding or_default
or_default-some m d a h = rw h refl

abbrev ran : RunResult × World Registry (List Row)
ran = or_default (run_task test_engine copy_users (codes "manual") idle) (new_result [] [], idle)

ran-run_task : run_task test_engine copy_users (codes "manual") idle ≡ some ran
ran-run_task =
    let (o, eq, out) =
      run_task-IsOutcome test_engine copy_users (codes "manual") idle refl test_engine-OpensExact in
    or_default-some (run_task test_engine copy_users (codes "manual") idle) (new_result [] [], idle)
      o eq

ran-ends : (ran.0.status ≡ succeeded) × (ran.0.fail_rows ≡ 0)
unfolding run_task run_acquired acquire lookup text_eq start_run insert_run statement run_body
    with_source with_target prepare_query prepare_incremental get_watermark decode_row prepared
    stream_run deliver callback split_outcome on_page check_page sorted_cols sort insert_sorted
    validate_columns is_identifier check_first check_keys check_column check_widths page_checked
    observe_page observe observe_value observe_present get_value page_observed put_page put_chunks
    put_chunk write_or_degrade write_rows write_chunk clamp_batch row_written page_written page_done
    conclude settle finish contains replace_all watermark_greater compare_numbers as_int64
    or_default
ran-ends = (refl, refl)

abbrev pub by_id : Incremental
by_id = record { column = codes "id"; initial = codes "0" }

-- The number that a row of the test begins with.
unfoldable pub read_id : Row → Option (ℤ × Bool)
read_id ((name, int64 x) ∷ r) = some (x, true)
read_id r = none

test_engine-typed :
    (src : SourceConn) (query : Text)
    → test_engine.source_of (codes "sqlite") (codes "a.db") ≡ ok src
    → All
        (λ r. get_value r (codes "id") ≡ value_of integers (read_id r))
        (rows_of test_engine copy_users by_id integers read_id src query)
unfolding get_value lookup text_eq read_id
test_engine-typed src query h =
    subst
      (λ (s : SourceConn).
        All (λ r. get_value r (codes "id") ≡ value_of integers (read_id r))
          (rows_of test_engine copy_users by_id integers read_id s query))
      (ok-injective h) (refl, (refl, (refl, tt)))

run_task-IsAdvance_example :
    IsAdvance test_engine copy_users by_id integers read_id
      (start_run (codes "users") (codes "manual") empty_log).1
      []
      ran.1.store.tables.states
run_task-IsAdvance_example =
    run_task-IsAdvance test_engine copy_users by_id integers read_id (codes "manual") idle ran refl
      test_engine-typed (λ n. refl) ran-run_task ran-ends.0 ran-ends.1

-- The test's target holds the rows that were appended.
abbrev append_row : Row → List Row → List Row
append_row r d = d ++ r ∷ []

put_all-append_row :
    (rows d : List Row) → put_all {D = List Row} (λ d. d) append_row rows d ≡ d ++ rows
unfolding put_all
put_all-append_row [] d = sym (append-nil d)
put_all-append_row (r ∷ rows) d =
    put_all-append_row rows (d ++ r ∷ []) ∙ append_assoc d (r ∷ []) rows

single_write-IsAtomic :
    (cols : List Text) → IsAtomic {D = List Row} (λ d. d) append_row cols single_write
single_write-IsAtomic cols = record {
  done = λ rows d n f h. elim (Bool-cases (ltb 1 (length rows))) [
    | inl many ↦ absurd (cc (rw many at h))
    | inr few ↦ rw few (cc (rw few at h), sym (put_all-append_row rows d))
  ];
  refused = λ rows d x h. elim (Bool-cases (ltb 1 (length rows))) [
    | inl many ↦ rw many refl
    | inr few ↦ absurd (cc (rw few at h))
  ];
}

single_target-IsFaithful : IsFaithful {D = List Row} (λ d. d) append_row copy_users single_target
unfolding write_chunk text_eq
single_target-IsFaithful = record {
  writes = λ cols. single_write-IsAtomic cols;
  bulks = λ on load h cols. absurd (cc h);
}

test_engine-even :
    (src : SourceConn) (query : Text)
    → test_engine.source_of (codes "sqlite") (codes "a.db") ≡ ok src
    → (columns : List Text) × All
        (λ r. sorted_cols r ≡ columns)
        (concat (src query copy_users.page_size).pages)
unfolding sorted_cols sort insert_sorted
test_engine-even src query h = (
  codes "id" ∷ [],
  subst
      (λ (s : SourceConn).
        All (λ r. sorted_cols r ≡ codes "id" ∷ []) (concat (s query copy_users.page_size).pages))
      (ok-injective h) (refl, (refl, (refl, tt))),
)

run_task-IsReplica_example :
    IsReplica {D = List Row} (λ d. d) append_row copy_users test_engine (codes "manual") idle ran
run_task-IsReplica_example =
    run_task-IsReplica (λ d. d) append_row copy_users test_engine (codes "manual") idle ran
      (λ typ dsn d. refl)
      (λ typ dsn d tgt h.
        subst (IsFaithful (λ d. d) append_row copy_users) (ok-injective h) single_target-IsFaithful)
      test_engine-even ran-run_task ran-ends.0
