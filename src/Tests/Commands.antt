-- ===== src/Tests/Commands.antt =====
-- `replicron run` and the daemon with a configuration of two tasks, over drivers that accept every statement.
use replicron.Base.{◌≡◌, Text, codes, List, [], ◌∷◌, none, some, true}
use replicron.Base.Ints.{pos}
use replicron.Model.{int64, ok}
use replicron.Registry
use replicron.Registry.{Registry, Token}
use replicron.Connector.Conn.{Driver}
use replicron.Engine.Openers.{Drivers}
use replicron.Cli.Run.{Exit, run_command}
use replicron.Cli.Run.Exits.{Exits, run_command-Exits}
use replicron.Cli.Schedule.{in_process}
use replicron.Daemon.{Host, Options, Event, due, over}
use replicron.Tests.Log.{empty_log}
use replicron.Tests.Loads.{recording, quiet}
use replicron.Tests.Settings.{nowhere, checked}

-- A source of one row.
abbrev one_row : Driver (List Text)
one_row = record quiet {
  query = λ q d. ok (record {
    columns = ok (codes "id" ∷ []);
    rows = ok (int64 (pos 1) ∷ []) ∷ [];
    ending = none;
  });
}

abbrev drivers : Drivers (List Text) (List Text)
drivers = record {
  source = one_row;
  source_db = [];
  target = quiet;
  session = recording;
  floats = record { format = λ x. []; parse = λ s. none };
}

run_command-Exits_example :
    (x : Exit (List Text)) × (run_command nowhere drivers
        (codes "replicron.yaml")
        (codes "copy")
        empty_log
        []
      ≡ some x)
    × Exits nowhere drivers (codes "replicron.yaml") (codes "copy") empty_log [] x
run_command-Exits_example =
    run_command-Exits nowhere drivers (codes "replicron.yaml") (codes "copy") empty_log []

abbrev host : Host
host = record { add_func = λ s. none; parse_templates = none }

abbrev opts : Options Registry Token
opts = record { tasks = checked; keep_runs = pos 100; lock = in_process; ui = true }

-- The one entry comes due twice: the second job is skipped, the first run ends. Then it comes due again, and the
-- daemon is ended over that run.
abbrev events : List Event
events = due 0 ∷ due 0 ∷ over 0 ∷ due 0 ∷ []
