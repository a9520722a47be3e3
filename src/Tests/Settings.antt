-- ===== src/Tests/Settings.antt =====
-- A configuration of one task.
use replicron.Base.{◌≡◌, ◌≢◌, refl, codes, List, [], ◌∷◌, none, false, All, text_eq}
use replicron.Base.Ints.{pos}
use replicron.Model.{ok}
use replicron.Config.{
  Endpoint, Task, Outside, normalized, default_timeout, is_supported, resolve_dsn, check_schedule,
  check_timeout, check_incremental, check_source, check_target, check_rest, validate_task, validate,
  load,
}
use replicron.Config.Validated.{IsValid, NamesApart, names, validate-IsValid}

abbrev local_db : Endpoint
local_db = record {
  typ = codes "sqlite";
  dsn = codes "a.db";
  dsn_env = [];
  query = codes "SELECT 1";
}

abbrev pub copy : Task
copy = record {
  name = codes "copy";
  schedule = [];
  timeout = [];
  enabled = none;
  page_size = pos 0;
  source = local_db;
  target = record {
    endpoint = local_db;
    table = codes "t";
    mode = [];
    keys = codes "id" ∷ [];
    batch_size = pos 0;
    bulk = false;
  };
  incremental = none;
  timeout_dur = pos 0;
  is_enabled = false;
}

abbrev nightly : Task
nightly = record copy { name = codes "nightly"; schedule = codes "@daily" }

abbrev pub nowhere : Outside
nowhere = record {
  read_file = λ p. ok [];
  parse_yaml = λ s. ok (copy ∷ nightly ∷ []);
  getenv = λ n. [];
  parse_cron = λ s. none;
  parse_duration = λ s. ok (pos 1);
}

abbrev copy_checked : Task
copy_checked = normalized copy (codes "a.db") (codes "a.db") default_timeout

copy-accepted : validate_task nowhere copy ≡ ok copy_checked
unfolding validate_task check_source check_target check_rest check_schedule check_timeout
    check_incremental resolve_dsn is_supported text_eq
copy-accepted = refl

validate-accepted : validate nowhere (copy ∷ []) ≡ ok (copy_checked ∷ [])
unfolding validate
validate-accepted = simp copy-accepted

validate-IsValid_example :
    ((copy ∷ []) ≢ [])
    × All IsValid (copy_checked ∷ [])
    × NamesApart (copy_checked ∷ [])
    × (names (copy_checked ∷ []) ≡ names (copy ∷ []))
validate-IsValid_example =
    validate-IsValid nowhere (copy ∷ []) (copy_checked ∷ []) validate-accepted

abbrev pub checked : List Task
checked = copy_checked ∷ normalized nightly (codes "a.db") (codes "a.db") default_timeout ∷ []

pub loads : load nowhere (codes "replicron.yaml") ≡ ok checked
unfolding load validate validate_task check_source check_target check_rest check_schedule
    check_timeout check_incremental resolve_dsn is_supported text_eq
loads = refl
