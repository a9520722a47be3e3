-- ===== src/Config.antt =====
-- internal/config/config.go: the task definitions and their validation. Files, the environment,
-- and the parsers of YAML, cron expressions and durations are a parameter, `Outside`.
pub mod Validated
pub mod Schedules
pub mod Loaded
use replicron.Base.{
  ℕ, zero, suc, ◌+◌, ◌*◌, Text, codes, List, [], ◌∷◌, Option, none, some, Bool, true, false, not,
  ◌&&◌, ◌||◌, text_eq, if◌then◌else◌,
}
use replicron.Base.Ints.{ℤ, pos, negsuc, ltb_ℤ}
use replicron.Model.{
  Error, Result, ok, err, ◌>>=◌, ◌>>◌, guard, wrap, no_tasks, name_required, query_required,
  table_required, keys_required, timeout_not_positive, column_required, initial_required,
  dsn_required, task_invalid, duplicate_task, source_type, target_type, bad_mode, env_empty,
  source_invalid, target_invalid, incremental_column, invalid_schedule, invalid_timeout,
  read_config, parse_config,
}
use replicron.Connector.Ident.{validate_columns}

-- `Endpoint`
pub record Endpoint : Type 0 where
  pub typ : Text
  pub dsn : Text
  pub dsn_env : Text
  pub query : Text

-- `Target`, with its `Endpoint` inline.
pub record Target : Type 0 where
  pub endpoint : Endpoint
  pub table : Text
  pub mode : Text
  pub keys : List Text
  pub batch_size : ℤ
  pub bulk : Bool

-- `Incremental`
pub record Incremental : Type 0 where
  pub column : Text
  pub initial : Text

-- `Task`; a duration is a number of nanoseconds.
pub record Task : Type 0 where
  pub name : Text
  pub schedule : Text
  pub timeout : Text
  pub enabled : Option Bool
  pub page_size : ℤ
  pub source : Endpoint
  pub target : Target
  pub incremental : Option Incremental
  pub timeout_dur : ℤ
  pub is_enabled : Bool

-- `os.ReadFile`, `yaml.Unmarshal` into the tasks, `os.Getenv`, `cronParser.Parse` (its error) and
-- `time.ParseDuration`.
pub record Outside : Type 0 where
  pub read_file : Text → Result Text
  pub parse_yaml : Text → Result (List Task)
  pub getenv : Text → Text
  pub parse_cron : Text → Option Error
  pub parse_duration : Text → Result ℤ

abbrev pub is_empty : Text → Bool
is_empty [] = true
is_empty (c ∷ s) = false

abbrev pub default_page_size : ℤ
default_page_size = pos 5000

abbrev pub default_batch_size : ℤ
default_batch_size = pos 500

-- `30 * time.Minute`
abbrev pub default_timeout : ℤ
default_timeout = pos (30 * 60 * 1_000_000_000)

-- `supportedTypes`
unfoldable pub is_supported : Text → Bool
is_supported t =
    text_eq t (codes "postgres")
    || (text_eq t (codes "mysql") || (text_eq t (codes "sqlite") || text_eq t (codes "sqlserver")))

-- `if n <= 0 { n = def }`
unfoldable pub or_default : ℤ → ℤ → ℤ
or_default n def = if ltb_ℤ (pos 0) n then n else def

abbrev pub effective_mode : Text → Text
effective_mode mode = if is_empty mode then codes "upsert" else mode

abbrev pub has_no_keys : List Text → Bool
has_no_keys [] = true
has_no_keys (k ∷ ks) = false

abbrev pub enabled_flag : Option Bool → Bool
enabled_flag none = true
enabled_flag (some b) = b

-- What `validateTask` leaves in the task.
abbrev pub normalized : Task → Text → Text → ℤ → Task
normalized t source_dsn target_dsn timeout_dur = record t {
  source = record t.source { dsn = source_dsn };
  target = record t.target {
    endpoint = record t.target.endpoint { dsn = target_dsn };
    mode = effective_mode t.target.mode;
    batch_size = or_default t.target.batch_size default_batch_size;
  };
  timeout_dur = timeout_dur;
  is_enabled = enabled_flag t.enabled;
  page_size = or_default t.page_size default_page_size;
}

abbrev pub seen_before : Text → List Text → Bool
seen_before n [] = false
seen_before n (m ∷ ms) = text_eq m n || seen_before n ms

module _ (out : Outside) where
  unfoldable pub resolve_dsn : Endpoint → Result Text
  resolve_dsn ep =
      if not (is_empty ep.dsn_env)
      then (if is_empty (out.getenv ep.dsn_env)
          then err (env_empty ep.dsn_env)
          else ok (out.getenv ep.dsn_env))
      else if not (is_empty ep.dsn)
      then ok ep.dsn
      else err dsn_required

  cron_result : Text → Option Error → Result (Unit {0})
  cron_result s none = ok tt
  cron_result s (some e) = err (invalid_schedule s e)

  unfoldable pub check_schedule : Text → Result (Unit {0})
  unfolding cron_result
  check_schedule s = if is_empty s then ok tt else cron_result s (out.parse_cron s)

  positive_timeout : ℤ → Result ℤ
  positive_timeout d = if ltb_ℤ (pos 0) d then ok d else err timeout_not_positive

  -- The switch on `t.Timeout`.
  unfoldable pub check_timeout : Text → Result ℤ
  unfolding positive_timeout
  check_timeout s =
      if is_empty s
      then ok default_timeout
      else (wrap (invalid_timeout s) (out.parse_duration s) >>= positive_timeout)

  unfoldable pub check_incremental : Option Incremental → Result (Unit {0})
  check_incremental none = ok tt
  check_incremental (some inc) = do
    guard (not (is_empty inc.column)) column_required
    wrap incremental_column (validate_columns (inc.column ∷ []))
    guard (not (is_empty inc.initial)) initial_required

  -- The part of `validateTask` on the source: its data source name.
  unfoldable pub check_source : Task → Result Text
  check_source t = do
    guard (is_supported t.source.typ) (source_type t.source.typ)
    guard (not (is_empty t.source.query)) query_required
    wrap source_invalid (resolve_dsn t.source)

  -- The part on the target.
  unfoldable pub check_target : Task → Result Text
  check_target t = do
    let mode = effective_mode t.target.mode
    guard (is_supported t.target.endpoint.typ) (target_type t.target.endpoint.typ)
    guard (not (is_empty t.target.table)) table_required
    guard (text_eq mode (codes "upsert") || text_eq mode (codes "insert")) (bad_mode mode)
    guard (not (text_eq mode (codes "upsert") && has_no_keys t.target.keys)) keys_required
    wrap target_invalid (resolve_dsn t.target.endpoint)

  -- The part on the schedule, the timeout and the incremental extraction: the timeout.
  unfoldable pub check_rest : Task → Result ℤ
  check_rest t = do
    check_schedule t.schedule
    timeout_dur ← check_timeout t.timeout
    check_incremental t.incremental
    ok timeout_dur

  -- `validateTask`: the task as it is left, or the first error.
  unfoldable pub validate_task : Task → Result Task
  validate_task t = do
    guard (not (is_empty t.name)) name_required
    source_dsn ← check_source t
    target_dsn ← check_target t
    timeout_dur ← check_rest t
    ok (normalized t source_dsn target_dsn timeout_dur)

  -- The loop of `Validate`, from index `i`, with the names seen so far.
  validate_tasks : ℕ → List Text → List Task → Result (List Task)
  validate_tasks i seen [] = ok []
  validate_tasks i seen (t ∷ ts) = do
    t' ← wrap (task_invalid i) (validate_task t)
    guard (not (seen_before t'.name seen)) (duplicate_task t'.name)
    rest ← validate_tasks (i + 1) (t'.name ∷ seen) ts
    ok (t' ∷ rest)

  -- `Validate`
  unfoldable pub validate : List Task → Result (List Task)
  unfolding validate_tasks
  validate [] = err no_tasks
  validate (t ∷ ts) = validate_tasks 0 [] (t ∷ ts)

  -- `Load`
  unfoldable pub load : Text → Result (List Task)
  load path = do
    content ← wrap read_config (out.read_file path)
    tasks ← wrap (parse_config path) (out.parse_yaml content)
    validate tasks
