-- ===== src/Tests/Locks.antt =====
-- The registry after one run has begun, and after it is over.
use replicron.Base.{◌≡◌, refl, codes, [], ◌∷◌, none, Any, inl, ◌↔◌, lookup, insert, erase, text_eq}
use replicron.Registry.{Token, acquire, release}
use replicron.Registry.System.{System, Step, Reach, without}
use replicron.Registry.Consistency.{Apart}
use replicron.Registry.Exclusion.{Reach-Apart, acquire_refused_iff_held}

abbrev token : Token
token = record { addr = 1; name = codes "users"; gen = 1 }

abbrev one_run : System
one_run = record {
  registry = record { running = (codes "users", token) ∷ []; gen = 1; next = 2 };
  held = token ∷ [];
  retired = [];
}

one_run-Reach : Reach one_run
unfolding acquire lookup insert
one_run-Reach =
    Reach.next Reach.here (Step.acquired (codes "users") token one_run.registry refl refl)

abbrev run_over : System
run_over = record {
  registry = record { running = []; gen = 1; next = 2 };
  held = [];
  retired = token ∷ [];
}

run_over-Reach : Reach run_over
unfolding release lookup erase without text_eq
run_over-Reach = Reach.next one_run-Reach (Step.finished token (inl refl) refl)

Reach-Apart_example : Apart (token ∷ [])
Reach-Apart_example = Reach-Apart one_run one_run-Reach

acquire_refused_iff_held_example :
    ((acquire (codes "users") one_run.registry).0 ≡ none)
    ↔ Any (λ u. u.name ≡ codes "users") (token ∷ [])
acquire_refused_iff_held_example = acquire_refused_iff_held one_run one_run-Reach (codes "users")
