-- ===== src/Tests/Resumes.antt =====
-- The run behind one that stored the watermark 3.
use replicron.Base.{◌≡◌, refl, inl, inr, codes, text_eq, lookup, List, [], ◌∷◌, none, some, true}
use replicron.Base.Ints.{pos}
use replicron.Base.Strings.{contains, replace_all}
use replicron.Model.{int64, Row, succeeded, RunResult}
use replicron.Connector.Conn.{get_value}
use replicron.Connector.Conn.Paging.{deliver}
use replicron.Connector.Ident.{is_identifier, validate_columns}
use replicron.Registry.{Registry, acquire}
use replicron.Runlog.Statements.{start_run, insert_run, statement}
use replicron.Runlog.Watermark.{get_watermark, decode_row}
use replicron.Engine.Watermark.{
  observe, observe_value, observe_present, watermark_greater, compare_numbers, as_int64,
}
use replicron.Engine.Watermark.Orderings.{integers}
use replicron.Engine.Batch.{
  clamp_batch, row_written, write_chunk, write_rows, write_or_degrade, put_chunk, put_chunks,
  put_page,
}
use replicron.Engine.Page.{
  callback, split_outcome, on_page, check_page, sorted_cols, sort, insert_sorted, check_first,
  check_keys, check_column, check_widths, page_checked, observe_page, page_observed, page_written,
  page_done,
}
use replicron.Engine.Run.{
  World, new_result, run_task, run_acquired, run_body, with_source, with_target, prepare_query,
  prepare_incremental, prepared, stream_run, conclude, settle, finish,
}
use replicron.Engine.Run.Outcome.{run_task-IsOutcome}
use replicron.Engine.Run.Watermarks.Asked.{Asked}
use replicron.Engine.Run.Watermarks.Tracked.{IsAdvance}
use replicron.Tests.Runs.{copy_users, test_engine, test_engine-OpensExact, empty_log, idle}
use replicron.Base.{arith}
use replicron.Base.Decimal.{emit, format_int, parse_int, scan, scan_some}
use replicron.Tests.Runs.{user}
use replicron.Runlog.Statements.{StateRow, no_tables, Store}
use replicron.Runlog.Watermark.{encode_watermark, decode_watermark}
use replicron.Runlog.Watermark.RoundTrip.{widened}
use replicron.Engine.Watermark.{watermark_literal}
use replicron.Engine.Run.Success.{IsSuccess}
use replicron.Engine.Run.Watermarks.Advance.{IsStored}
use replicron.Engine.Run.Watermarks.Resumed.{AsksFrom, IsAdvance-AsksFrom}
use replicron.Engine.Watermark.Maximum.{IsMaximum}
use replicron.Tests.Advances.{or_default, or_default-some, by_id, read_id}

abbrev three : StateRow
three = record { kind = codes "int"; raw = codes "3" }

abbrev advanced_log : Store
advanced_log = record empty_log {
  tables = record no_tables { states = (codes "users", three) ∷ [] };
}

abbrev resumed : World Registry (List Row)
resumed = record idle { store = advanced_log }

abbrev ran : RunResult × World Registry (List Row)
ran = or_default (run_task test_engine copy_users (codes "manual") resumed) (new_result [] [], idle)

ran-run_task : run_task test_engine copy_users (codes "manual") resumed ≡ some ran
ran-run_task =
    let (o, eq, out) =
      run_task-IsOutcome test_engine copy_users (codes "manual") resumed refl
        test_engine-OpensExact in
    or_default-some (run_task test_engine copy_users (codes "manual") resumed)
      (new_result [] [], idle) o eq

ran-status : ran.0.status ≡ succeeded
unfolding run_task run_acquired acquire lookup text_eq start_run insert_run statement run_body
    with_source with_target prepare_query prepare_incremental get_watermark decode_row prepared
    stream_run deliver callback split_outcome on_page check_page sorted_cols sort insert_sorted
    validate_columns is_identifier check_first check_keys check_column check_widths page_checked
    observe_page observe observe_value observe_present get_value page_observed put_page put_chunks
    put_chunk write_or_degrade write_rows write_chunk clamp_batch row_written page_written page_done
    conclude settle finish contains replace_all watermark_greater compare_numbers as_int64
    or_default decode_watermark parse_int scan_some scan watermark_literal format_int emit
ran-status = refl

-- A run from an empty log that stored the watermark 3.
advance :
    IsAdvance test_engine copy_users by_id integers read_id empty_log []
      ((codes "users", three) ∷ [])
unfolding run_task run_acquired acquire lookup text_eq start_run insert_run statement run_body
    with_source with_target prepare_query prepare_incremental get_watermark decode_row prepared
    stream_run deliver callback split_outcome on_page check_page sorted_cols sort insert_sorted
    validate_columns is_identifier check_first check_keys check_column check_widths page_checked
    observe_page observe observe_value observe_present get_value page_observed put_page put_chunks
    put_chunk write_or_degrade write_rows write_chunk clamp_batch row_written page_written page_done
    conclude settle finish contains replace_all watermark_greater compare_numbers as_int64
    or_default decode_watermark parse_int scan_some scan watermark_literal format_int emit
    encode_watermark read_id
advance = record {
  src = λ query size. record { pages = (user 1 ∷ user 2 ∷ []) ∷ (user 3 ∷ []) ∷ []; ending = none };
  query = codes "SELECT id FROM users WHERE id > 0";
  max = int64 (pos 3);
  opened = refl;
  sent = refl;
  asked = Asked.from_initial refl refl;
  ended = refl;
  largest = IsMaximum.largest (pos 3, true) refl (refl, (refl, (refl, tt))) (inr (inr (inl refl)));
  kept = IsStored.stored three refl refl;
}

IsAdvance-AsksFrom_example :
    (success : IsSuccess test_engine copy_users (codes "manual") resumed ran) × AsksFrom
      test_engine.floats copy_users
      (widened (int64 (pos 3)))
      success.body.query
unfolding advance
IsAdvance-AsksFrom_example =
    IsAdvance-AsksFrom test_engine copy_users by_id integers read_id empty_log []
      ((codes "users", three) ∷ []) advance (codes "manual") resumed ran refl (omega arith) refl
      (λ n. refl) ran-run_task ran-status
