-- ===== src/Daemon/Sequential.antt =====
-- internal/daemon/daemon.go: a job whose run ends before anything else happens.
use replicron.Base.{List, [], ◌∷◌, Option, none, some}
use replicron.Engine.Run.{World, Engine}
use replicron.Model.{RunResult}
use replicron.Daemon.{Flight, Serving, land}

abbrev world_of : {L K D : Type 0} → Option (Serving L K D) → Option (World L D)
world_of none = none
world_of (some v) = some v.world

-- The job drops the result.
abbrev pub dropped : {L D : Type 0} → Option (RunResult × World L D) → Option (World L D)
dropped none = none
dropped (some (res, w)) = some w

module _ {L K D : Type 0} (e : Engine L K D) where
  -- The run that has begun, if there is one, ends.
  abbrev pub land_first : List (Flight K) → World L D → Option (World L D)
  land_first [] w = some w
  land_first (f ∷ rest) w = world_of (land e f rest w)
