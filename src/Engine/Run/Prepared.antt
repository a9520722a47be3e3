-- ===== src/Engine/Run/Prepared.antt =====
-- What the query of a run and its tracker come to.
use replicron.Base.{◌≡◌, refl, Text, Option, none, some, Bool-cases, inl, inr, ◌⊎◌}
use replicron.Base.Strings.{contains}
use replicron.Model.{Value, Error, Result, ok, err}
use replicron.Config.{Task, Incremental}
use replicron.Runlog.Statements.{Store}
use replicron.Runlog.Watermark.{FloatText, get_watermark}
use replicron.Runlog.Watermark.Kept.{get_watermark-states}
use replicron.Engine.Watermark.{watermark_token, Tracker, fresh}
use replicron.Engine.Run.{
  prepare_query, prepare_incremental, substituted, with_previous, literal_for,
}

prepare_incremental-states :
    (ft : FloatText) (t : Task) (inc : Option Incremental) (s : Store)
    → (prepare_incremental ft t inc s).1.tables.states ≡ s.tables.states
unfolding prepare_incremental
prepare_incremental-states ft t none s = refl
prepare_incremental-states ft t (some i) s =
    elim (Bool-cases (contains watermark_token t.source.query)) [
      | inl e ↦ rw (e, prepare_incremental) (get_watermark-states ft t.name s)
      | inr e ↦ rw (e, prepare_incremental) refl
    ]

pub prepare_query-states :
    (ft : FloatText) (t : Task) (s : Store)
    → (prepare_query ft t s).1.tables.states ≡ s.tables.states
unfolding prepare_query
prepare_query-states ft t s = prepare_incremental-states ft t t.incremental s

-- The query of an incremental task goes with a fresh tracker of its column.
abbrev pub IsPrepared : Incremental → Result (Text × Option Tracker) → Type 0
IsPrepared inc r =
    ((query : Text) × (r ≡ ok (query, some (fresh inc.column)))) ⊎ ((x : Error) × (r ≡ err x))

substituted-IsPrepared :
    (t : Task) (inc : Incremental) (lit : Result Text) → IsPrepared inc (substituted t inc lit)
substituted-IsPrepared t inc (ok lit) = inl (_, refl)
substituted-IsPrepared t inc (err x) = inr (x, refl)

with_previous-IsPrepared :
    (ft : FloatText) (t : Task) (inc : Incremental) (v : Result (Option Value))
    → IsPrepared inc (with_previous ft t inc v)
with_previous-IsPrepared ft t inc (ok v) = substituted-IsPrepared t inc (literal_for ft inc v)
with_previous-IsPrepared ft t inc (err x) = inr (_, refl)

pub prepare_query-IsPrepared :
    (ft : FloatText) (t : Task) (inc : Incremental) (s : Store)
    → t.incremental ≡ some inc
    → IsPrepared inc (prepare_query ft t s).0
unfolding prepare_query prepare_incremental
prepare_query-IsPrepared ft t inc s h =
    rw (h, prepare_incremental)
      (elim (Bool-cases (contains watermark_token t.source.query)) [
        | inl there ↦ rw there (with_previous-IsPrepared ft t inc (get_watermark ft t.name s).0)
        | inr missing ↦ rw missing (inr (_, refl))
      ])
