-- ===== src/Model/Errors.antt =====
-- The program's `error` values: one constructor to each message that the source builds, with what the
-- message quotes. The English text of a message is not modelled.
use replicron.Base.{ℕ, Text, List, Bool, true, false, ◌≡◌, refl, ◌⊎◌, inl, inr}
use replicron.Model.Values.{Value}

pub data Error : Type 0 where
  -- an error of a driver, of the network or of a context's deadline, as its text
  driver : Text → Error
  -- internal/connector
  bulk_unsupported : Error
  too_many_dots : Text → Error
  invalid_identifier : Text → Text → Error
  invalid_column : Text → Error
  unsupported_type : Text → Error
  query_failed : Text → Error → Error
  upsert_failed insert_failed : Text → Text → Error → Error
  pg_staging pg_copy pg_merge : Error → Error
  mssql_staging mssql_prepare mssql_send mssql_flush mssql_close mssql_apply : Error → Error
  -- internal/engine
  open_source open_target read_watermark render_watermark columns_rejected : Error → Error
  token_missing : Error
  key_missing incremental_missing : Text → List Text → Error
  ragged_row : ℕ → ℕ → ℕ → Error
  watermark_column : Text → Error → Error
  kind_mismatch : Value → Value → Error
  unsupported_value : Value → Error
  all_failed : ℕ → Error
  still_active : Error
  -- internal/runlog
  unknown_kind : Text → Error
  bad_number : Text → Error
  bad_time : Text → Error
  run_interrupted : Error
  migrate_failed sweep_failed : Error → Error
  -- internal/config
  no_tasks name_required query_required table_required keys_required : Error
  timeout_not_positive column_required initial_required dsn_required : Error
  task_invalid : ℕ → Error → Error
  duplicate_task source_type target_type bad_mode env_empty : Text → Error
  source_invalid target_invalid incremental_column : Error → Error
  invalid_schedule invalid_timeout : Text → Error → Error
  read_config : Error → Error
  parse_config : Text → Error → Error
  -- internal/lease
  lease_migrate : Error → Error
  -- internal/cli
  no_task_matched : Error
  tasks_failed : ℕ → Error
  bad_locking : Text → Error
  -- internal/daemon
  open_run_log init_ui : Error → Error
  register_schedule : Text → Error → Error

pub data Result {ℓ} (A : Type ℓ) : Type ℓ where
  ok : A → Result A
  err : Error → Result A

infixl 5 ◌>>=◌
abbrev pub ◌>>=◌ {ℓ κ} : {A : Type ℓ} {B : Type κ} → Result A → (A → Result B) → Result B
ok a >>= f = f a
err e >>= f = err e

infixl 5 ◌>>◌
abbrev pub ◌>>◌ {ℓ κ} : {A : Type ℓ} {B : Type κ} → Result A → Result B → Result B
m >> k = m >>= λ _. k

abbrev pub guard : Bool → Error → Result (Unit {0})
guard true e = ok tt
guard false e = err e

-- `fmt.Errorf("…: %w", err)`: an error is wrapped, a value passes.
abbrev pub wrap {ℓ} : {A : Type ℓ} → (Error → Error) → Result A → Result A
wrap f (ok a) = ok a
wrap f (err e) = err (f e)

pub Result-cases {ℓ} :
    {A : Type ℓ} (m : Result A) → ((a : A) × (m ≡ ok a)) ⊎ ((e : Error) × (m ≡ err e))
Result-cases (ok a) = inl (a, refl)
Result-cases (err e) = inr (e, refl)

pub ok-injective {ℓ} : {A : Type ℓ} {a b : A} → ok a ≡ ok b → a ≡ b
ok-injective h = cc h
