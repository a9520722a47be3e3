-- ===== src/Model.antt =====
-- internal/model/model.go: the values of a row, the run status and the run records; and the error
-- conditions of the whole program, one constructor to a message.
mod Values
pub mod Times
mod Errors
pub use Values.*
unfoldable pub use Values.{float_gt, float_of_int, time_after}
pub use Errors.*
use replicron.Base.{Text, codes, [], ℕ, List, Option, Dict}

-- `Row`: a record keyed by column name.
abbrev pub Row : Type 0
Row = Dict Value

-- `RunStatus`; `unset` is the empty string of a result that has no status yet.
pub data RunStatus : Type 0 where
  unset running succeeded failed skipped interrupted : RunStatus

pub RunStatus-discrete : Discrete RunStatus
RunStatus-discrete = hlevel

-- The string that a status is.
unfoldable pub status_text : RunStatus → Text
status_text unset = []
status_text running = codes "running"
status_text succeeded = codes "succeeded"
status_text failed = codes "failed"
status_text skipped = codes "skipped"
status_text interrupted = codes "interrupted"

-- `RunResult`; its `Err` is `none` for the empty string, and the samples are error values, of
-- which the source keeps the text.
pub record RunResult : Type 0 where
  pub task : Text
  pub trigger : Text
  pub status : RunStatus
  pub total_rows : ℕ
  pub ok_rows : ℕ
  pub fail_rows : ℕ
  pub duration : ℕ
  pub err : Option Error
  pub samples : List Error

-- `Run`: a persisted run record. Times are those of the store's clock.
pub record Run : Type 0 where
  pub id : ℕ
  pub task : Text
  pub trigger : Text
  pub status : RunStatus
  pub total_rows : ℕ
  pub ok_rows : ℕ
  pub fail_rows : ℕ
  pub error : Option Error
  pub samples : List Error
  pub started_at : ℕ
  pub finished_at : Option ℕ
