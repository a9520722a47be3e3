-- ===== src/Registry/System.antt =====
-- The registry with the runs that use it: every run releases the token that it was given, and a token
-- that was released may be released again.
use replicron.Base.{Text, none, some, List, [], ◌∷◌, ◌≡◌, Any, ◌==◌, if◌then◌else◌}
use replicron.Registry.{Token, Registry, new, acquire, release}

-- `held` are the tokens of the runs under way, `retired` those already released.
pub record System : Type 0 where
  pub registry : Registry
  pub held : List Token
  pub retired : List Token

abbrev pub start : System
start = record { registry = new; held = []; retired = [] }

-- The run that holds `t` is over.
unfoldable pub without : Token → List Token → List Token
without t [] = []
without t (u ∷ us) = let rest = without t us in if u.addr == t.addr then rest else u ∷ rest

pub data Step (s : System) (s' : System) : Type 0 where
  acquired :
      (name : Text) (t : Token) (r : Registry)
      → acquire name s.registry ≡ (some t, r)
      → s' ≡ record s { registry = r; held = t ∷ s.held }
      → Step s s'
  refused :
      (name : Text) (r : Registry)
      → acquire name s.registry ≡ (none, r)
      → s' ≡ record s { registry = r }
      → Step s s'
  finished :
      (t : Token)
      → Any (λ u. u ≡ t) s.held
      → s' ≡ record {
        registry = release (some t) s.registry;
        held = without t s.held;
        retired = t ∷ s.retired;
      }
      → Step s s'
  released_again :
      (t : Token)
      → Any (λ u. u ≡ t) s.retired
      → s' ≡ record s { registry = release (some t) s.registry }
      → Step s s'

-- Any interleaving of the runs, each method under the mutex.
pub data Reach : System → Type 0 where
  here : Reach start
  next : {s s' : System} → Reach s → Step s s' → Reach s'
